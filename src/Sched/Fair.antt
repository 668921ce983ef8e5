-- ===== src/Sched/Fair.antt =====
-- Threads of the highest priority take turns.
use operation_system.Base.{
  ℕ, zero, suc, ◌+◌, ◌≤◌, ◌≡◌, ◌≢◌, false, Option, some, List, [], ◌∷◌, ◌++◌, arith, All, All-map,
  length, ap, sym, ◌∙◌, ◌>>=◌,
}
use operation_system.Kernel.{Kernel, prio}
use operation_system.KernelList.{insert_ordered}
use operation_system.KernelList.Ordered.{insert_ordered-append, All-insert_ordered}
use operation_system.Sched.{priority_greater, thread_yield}
use operation_system.Sched.Invariant.{IsValid, front_or, rest, switched}
use operation_system.Sched.Switch.{switched-IsValid}
use operation_system.Sched.Steps.{yielding, yielding-IsHandover, thread_yield_lem}

-- As many calls of thread_yield(), each by the thread that then runs.
abbrev pub yields : ℕ → Kernel → Option Kernel
yields zero k = some k
yields (suc n) k = do k1 ← thread_yield k; yields n k1

-- `t` is ready behind `front`, all of which and the current thread have its priority, and nobody
-- behind it has a higher one.
record IsTurn (idle t : ℕ) (front back : List ℕ) (k : Kernel) : Type 0 where
  valid : IsValid idle k
  task : k.in_external_intr ≡ false
  busy : k.current ≢ idle
  ready : k.ready_list ≡ front ++ (t ∷ back)
  current_same : prio k k.current ≡ prio k t
  front_same : All (λ u. prio k u ≡ prio k t) front
  back_le : All (λ u. prio k u ≤ prio k t) back

module _ {idle t : ℕ} {front back : List ℕ} {k : Kernel} (g : IsTurn idle t front back k) where
  not_passed :
      (l : List ℕ)
      → All (λ u. prio k u ≡ prio k t) l
      → All (λ u. priority_greater k k.current u ≡ false) l
  unfolding priority_greater
  not_passed l h = All-map (λ u q. ground (arith, g.current_same)) l h

  abbrev behind : List ℕ
  behind = insert_ordered (priority_greater k) k.current back

  not_passed_t : priority_greater k k.current t ≡ false
  unfolding priority_greater
  not_passed_t = ground (arith, g.current_same)

  insert-front : insert_ordered (priority_greater k) k.current (t ∷ back) ≡ t ∷ behind
  unfolding insert_ordered
  insert-front = ground (arith, not_passed_t)

  queue : (yielding g.valid).ready_list ≡ front ++ (t ∷ behind)
  queue = ground (
    arith,
    g.valid.idle_thread,
    g.busy,
    g.ready,
    insert_ordered-append (priority_greater k) k.current front (t ∷ back)
        (not_passed front g.front_same),
    insert-front,
  )

  -- The state after one yield.
  abbrev turned : Kernel
  turned = switched (front_or idle (yielding g.valid).ready_list) (yielding g.valid)

  prio-turned : (u : ℕ) → prio turned u ≡ prio k u
  prio-turned u = ground arith

  behind_le : All (λ u. prio turned u ≤ prio turned t) behind
  behind_le =
      All-map (λ u q. omega (arith, prio-turned u, prio-turned t)) behind
        (All-insert_ordered (priority_greater k) (λ u. prio k u ≤ prio k t) k.current back
          (omega (arith, g.current_same)) g.back_le)

turn_ends :
    {idle t : ℕ} {back : List ℕ} {k : Kernel}
    → (g : IsTurn idle t [] back k) → (turned g).current ≡ t
turn_ends {idle} g = ap (front_or idle) (queue g)

IsTurn-goes_on :
    {idle t x : ℕ} {front back : List ℕ} {k : Kernel}
    → (g : IsTurn idle t (x ∷ front) back k) → IsTurn idle t front (behind g) (turned g)
IsTurn-goes_on {idle} {t} {x} {front} {back} {k} g = record {
  valid = switched-IsValid (yielding-IsHandover g.valid);
  task = g.task;
  busy = ground (arith, ap (front_or idle) (queue g), g.valid.idle_off, g.ready);
  ready = ap rest (queue g);
  current_same =
      ap (prio (turned g)) (ap (front_or idle) (queue g))
      ∙ (prio-turned g x ∙ (g.front_same.0 ∙ sym (prio-turned g t)));
  front_same =
      All-map (λ u q. omega (arith, prio-turned g u, prio-turned g t)) front g.front_same.1;
  back_le = behind_le g;
}

turns :
    {idle t : ℕ} (front : List ℕ) {back : List ℕ} {k : Kernel}
    → IsTurn idle t front back k
    → (k' : Kernel) × (yields (suc (length front)) k ≡ some k') × (k'.current ≡ t) × IsValid idle k'
turns [] g = (
  turned g,
  ap (λ r. r >>= (λ j. some j)) (thread_yield_lem g.valid g.task),
  turn_ends g,
  switched-IsValid (yielding-IsHandover g.valid),
)
turns (x ∷ front) g =
    let (k', e, c, v) = turns front (IsTurn-goes_on g) in
    (
      k',
      ap (λ r. r >>= (λ j. yields (suc (length front)) j)) (thread_yield_lem g.valid g.task) ∙ e,
      c,
      v,
    )

-- Where the run queue invariant holds, outside an external interrupt, a ready thread of the highest
-- priority is not starved by its equals: if the current thread, not the idle thread, and all before
-- it on the ready list have its priority, and none behind it a higher one, then it runs after as
-- many calls of thread_yield() as there are threads before it, and one more.
pub yields-current :
    {idle t : ℕ} (front back : List ℕ) {k : Kernel}
    → IsValid idle k
    → k.in_external_intr ≡ false
    → k.current ≢ idle
    → k.ready_list ≡ front ++ (t ∷ back)
    → prio k k.current ≡ prio k t
    → All (λ u. prio k u ≡ prio k t) front
    → All (λ u. prio k u ≤ prio k t) back
    → (k' : Kernel) × (yields (length front + 1) k ≡ some k') × (k'.current ≡ t) × IsValid idle k'
yields-current {idle} {t} front back {k} v e n r c f b =
    let g : IsTurn idle t front back k = record {
      valid = v;
      task = e;
      busy = n;
      ready = r;
      current_same = c;
      front_same = f;
      back_le = b;
    } in
    let (k', q, h, w) = turns front g in (k', ap (λ m. yields m k) (count (length front)) ∙ q, h, w)
  where
    count : (m : ℕ) → m + 1 ≡ suc m
    count m = omega arith
