-- ===== src/Sched/Priority.antt =====
-- Priorities and the ready list: what a context switch chooses.
use operation_system.Base.{
  ◌∙◌, refl, ap, Bool-cases, inl, inr, ◌++◌, some, ◌≢◌, ◌<◌, false, ==→eq, ℕ, ◌≤◌, ◌≡◌, true, List,
  [], ◌∷◌, arith, ◌==◌, All, All-map, All-has, has,
}
use operation_system.Kernel.{Kernel, prio}
use operation_system.KernelList.{insert_ordered}
use operation_system.KernelList.Ordered.{
  insert_ordered-append, IsWeakOrder, IsSorted, insert_ordered-IsSorted,
}
use operation_system.Sched.{is_idle, thread_yield, priority_greater}
use operation_system.Sched.Invariant.{IsValid, front_or, rest, switched}
use operation_system.Sched.Steps.{yielding, thread_yield_lem}

-- No priority on the list is above one before it.
abbrev pub Descending : (ℕ → ℕ) → List ℕ → Type 0
Descending p [] = Unit
Descending p (t ∷ ts) = All (λ u. p u ≤ p t) ts × Descending p ts

pub priority_greater-IsWeakOrder : (k : Kernel) → IsWeakOrder (priority_greater k)
unfolding priority_greater
priority_greater-IsWeakOrder k = record {
  asym = λ x y h. ground arith;
  chain = λ x y z h g. ground arith;
}

Descending→IsSorted :
    (k : Kernel) (l : List ℕ) → Descending (prio k) l → IsSorted (priority_greater k) l
unfolding priority_greater
Descending→IsSorted k [] h = tt
Descending→IsSorted k (t ∷ ts) h =
    (All-map (λ u q. ground arith) ts h.0, Descending→IsSorted k ts h.1)

IsSorted→Descending :
    (k : Kernel) (l : List ℕ) → IsSorted (priority_greater k) l → Descending (prio k) l
unfolding priority_greater
IsSorted→Descending k [] h = tt
IsSorted→Descending k (t ∷ ts) h =
    (All-map (λ u q. ground arith) ts h.0, IsSorted→Descending k ts h.1)

-- Queueing a thread keeps the ready list in order.
pub insert_ordered-Descending :
    (k : Kernel) (t : ℕ) (l : List ℕ)
    → Descending (prio k) l
    → Descending (prio k) (insert_ordered (priority_greater k) t l)
insert_ordered-Descending k t l h =
    IsSorted→Descending k _
      (insert_ordered-IsSorted _ (priority_greater-IsWeakOrder k) t l (Descending→IsSorted k l h)).0

pub Descending-cong :
    (p q : ℕ → ℕ) (l : List ℕ) → ((t : ℕ) → p t ≡ q t) → Descending p l → Descending q l
Descending-cong p q [] e h = tt
Descending-cong p q (t ∷ ts) e h =
    (All-map (λ u g. omega (arith, e u, e t)) ts h.0, Descending-cong p q ts e h.1)

front-highest :
    (p : ℕ → ℕ) (idle t : ℕ) (l : List ℕ)
    → Descending p l
    → has t l ≡ true
    → p t ≤ p (front_or idle l)
front-highest p idle t [] d h = absurd (ground arith)
front-highest p idle t (x ∷ l) d h = elim (Bool-cases (x == t)) [
  | inl e ↦ ground (arith, ==→eq x t e)
  | inr e ↦ All-has (λ u. p u ≤ p x) t l d.0 (ground arith)
]

prio-switched : (next : ℕ) (k : Kernel) (t : ℕ) → prio k t ≡ prio (switched next k) t
prio-switched next k t = ground arith

Descending-rest : (p : ℕ → ℕ) (l : List ℕ) → Descending p l → Descending p (rest l)
Descending-rest p [] d = tt
Descending-rest p (x ∷ l) d = d.1

has-rest : (t : ℕ) (l : List ℕ) → has t (rest l) ≡ true → has t l ≡ true
has-rest t [] h = h
has-rest t (x ∷ l) h = ground arith

-- What the switch leaves, if the ready list was in order.
pub record IsHighest (k : Kernel) : Type 0 where
  pub ordered : Descending (prio k) k.ready_list
  pub highest : (t : ℕ) → has t k.ready_list ≡ true → prio k t ≤ prio k k.current

switched-IsHighest :
    (idle : ℕ) (k : Kernel)
    → Descending (prio k) k.ready_list
    → IsHighest (switched (front_or idle k.ready_list) k)
switched-IsHighest idle k d = record {
  ordered =
      Descending-cong (prio k) _ (rest k.ready_list) (prio-switched next k)
        (Descending-rest (prio k) k.ready_list d);
  highest = λ t h. omega (
    arith,
    front-highest (prio k) idle t k.ready_list d (has-rest t k.ready_list h),
    prio-switched next k t,
    prio-switched next k next,
  );
}
  where
    next : ℕ
    next = front_or idle k.ready_list

module _ (k : Kernel) (t : ℕ) where
  passes :
      (l : List ℕ) → All (λ u. prio k t ≤ prio k u) l → All (λ u. priority_greater k t u ≡ false) l
  unfolding priority_greater
  passes l h = All-map (λ u q. ground arith) l h

  pub before :
      (l : List ℕ)
      → All (λ u. prio k u < prio k t) l
      → insert_ordered (priority_greater k) t l ≡ t ∷ l
  unfolding insert_ordered priority_greater
  before [] h = refl
  before (u ∷ l) h = ground arith

  -- A thread is queued behind one that it is below.
  stays_first :
      (c : ℕ) (l : List ℕ)
      → prio k c < prio k t
      → insert_ordered (priority_greater k) c (t ∷ l) ≡ t ∷ insert_ordered (priority_greater k) c l
  unfolding insert_ordered priority_greater
  stays_first c l h = ground arith

module _ {idle : ℕ} {k : Kernel} (v : IsValid idle k) (d : Descending (prio k) k.ready_list) where
  yielding-Descending : Descending (prio (yielding v)) (yielding v).ready_list
  yielding-Descending = elim (Bool-cases (is_idle k k.current)) [
    | inl e ↦
        ground
          (arith, Descending-cong (prio k) (prio (yielding v)) k.ready_list (λ (t : ℕ). same t) d)
    | inr e ↦ ground (
      arith,
      Descending-cong (prio k) (prio (yielding v))
          (insert_ordered (priority_greater k) k.current k.ready_list) same
          (insert_ordered-Descending k k.current k.ready_list d),
    )
  ]
    where
      same : (t : ℕ) → prio k t ≡ prio (yielding v) t
      same t = ground arith

  -- If the run queue invariant holds and the ready list is in descending order of priority, then
  -- thread_yield() outside an external interrupt fails no assertion, and after it the ready list is
  -- so again and no ready thread has a higher priority than the one that runs.
  pub thread_yield-IsHighest :
      k.in_external_intr ≡ false → (k' : Kernel) × (thread_yield k ≡ some k') × IsHighest k'
  thread_yield-IsHighest task =
      (_, thread_yield_lem v task, switched-IsHighest idle (yielding v) yielding-Descending)

  -- Where the run queue invariant holds and the ready list is in descending order of priority, a
  -- thread other than the idle thread that yields outside an external interrupt goes behind the
  -- ready threads of at least its priority and before those below it: with the ready list split
  -- there, the thread at the front of the new queue runs and the rest of that queue stays ready.
  pub thread_yield-fifo :
      (front back : List ℕ)
      → k.in_external_intr ≡ false
      → k.current ≢ idle
      → k.ready_list ≡ front ++ back
      → All (λ t. prio k k.current ≤ prio k t) front
      → All (λ t. prio k t < prio k k.current) back
      → (k' : Kernel) × (thread_yield k ≡ some k')
        × (k'.current ≡ front_or idle (front ++ (k.current ∷ back)))
        × (k'.ready_list ≡ rest (front ++ (k.current ∷ back)))
  thread_yield-fifo front back task n e hf hb =
      (_, thread_yield_lem v task, ap (front_or idle) queue, ap rest queue)
    where
      behind :
          insert_ordered (priority_greater k) k.current k.ready_list ≡ front ++ (k.current ∷ back)
      behind =
          ap (insert_ordered (priority_greater k) k.current) e
          ∙ (insert_ordered-append (priority_greater k) k.current front back
                (passes k k.current front hf)
              ∙ ap (λ l. front ++ l) (before k k.current back hb))

      queue : (yielding v).ready_list ≡ front ++ (k.current ∷ back)
      queue = ground (arith, behind, v.idle_thread)

  -- A first ready thread that is above the one that yields runs.
  pub thread_yield-front :
      (t : ℕ) (l : List ℕ)
      → k.in_external_intr ≡ false
      → k.ready_list ≡ t ∷ l
      → prio k k.current < prio k t
      → (k' : Kernel) × (thread_yield k ≡ some k') × (k'.current ≡ t)
  thread_yield-front t l task e h = (_, thread_yield_lem v task, first)
    where
      first : front_or idle (yielding v).ready_list ≡ t
      first = elim (Bool-cases (is_idle k k.current)) [
        | inl i ↦ ground (arith, e)
        | inr i ↦ ground (arith, e, stays_first k t k.current l h)
      ]
