-- ===== src/Lifecycle/Preempt.antt =====
-- A new thread runs at once if it has the highest priority.
use operation_system.Base.{
  eq_of_some, All-of_has, true, List, ◌∷◌, ◌<◌, ◌⊎◌, ◌%◌, count, ℕ, ◌-◌, ◌≤◌, ◌≡◌, refl, ◌≢◌, false,
  some, arith, ltb, if◌then◌else◌, has, Bool-cases, inl, inr, ap, sym, ◌∙◌, subst, ltb→le,
}
use operation_system.Kernel.{Kernel, running, blocked, prio, thread_magic, set_thread}
use operation_system.KernelList.{insert_ordered}
use operation_system.KernelList.Address.{has-insert_ordered}
use operation_system.Sched.{priority_greater, thread_current, thread_yield}
use operation_system.Sched.Invariant.{IsValid}
use operation_system.Sched.Steps.{ContextIsOff, unblocked, thread_unblock_lem, unblocked-IsValid}
use operation_system.Sched.Priority.{
  Descending, Descending-cong, IsHighest, insert_ordered-Descending, thread_yield-IsHighest, before,
  thread_yield-front,
}
use operation_system.Lifecycle.{alloc_frame, alloc_frames, thread_create_finish}
use operation_system.Sched.Safety.{thread_yield-IsValid}

-- What the run queue reads is as before.
record SameRun (k k' : Kernel) : Type 0 where
  prio_same : (u : ℕ) → prio k u ≡ prio k' u
  status_same : (u : ℕ) → (k'.threads u).status ≡ (k.threads u).status
  magic_same : (u : ℕ) → (k'.threads u).magic ≡ (k.threads u).magic
  ready_same : k'.ready_list ≡ k.ready_list
  idle_same : k'.idle_thread ≡ k.idle_thread
  current_same : k'.current ≡ k.current
  level_same : k'.intr_level ≡ k.intr_level
  context_same : k'.in_external_intr ≡ k.in_external_intr

SameRun-trans : {i j k : Kernel} → SameRun i j → SameRun j k → SameRun i k
SameRun-trans a b = record {
  prio_same = λ u. a.prio_same u ∙ b.prio_same u;
  status_same = λ u. b.status_same u ∙ a.status_same u;
  magic_same = λ u. b.magic_same u ∙ a.magic_same u;
  ready_same = b.ready_same ∙ a.ready_same;
  idle_same = b.idle_same ∙ a.idle_same;
  current_same = b.current_same ∙ a.current_same;
  level_same = b.level_same ∙ a.level_same;
  context_same = b.context_same ∙ a.context_same;
}

module _ (t : ℕ) (k : Kernel) where
  numbered : (tid : ℕ) → SameRun k (set_thread t (record (k.threads t) { tid = tid }) k)
  numbered tid = record {
    prio_same = λ u. ground arith;
    status_same = λ u. ground arith;
    magic_same = λ u. ground arith;
    ready_same = refl;
    idle_same = refl;
    current_same = refl;
    level_same = refl;
    context_same = refl;
  }

  frame_lem :
      (size : ℕ)
      → size % 4 ≡ 0
      → (k.threads t).magic ≡ thread_magic
      → (k' : Kernel) × (alloc_frame t size k ≡ some k') × SameRun k k'
  unfolding alloc_frame
  frame_lem size z m = (
    set_thread t (record (k.threads t) { stack = (k.threads t).stack - size }) k,
    ground arith,
    record {
      prio_same = λ u. ground arith;
      status_same = λ u. ground arith;
      magic_same = λ u. ground arith;
      ready_same = refl;
      idle_same = refl;
      current_same = refl;
      level_same = refl;
      context_same = refl;
    },
  )

frames_lem :
    (t : ℕ) (k : Kernel)
    → (k.threads t).magic ≡ thread_magic
    → (k' : Kernel) × (alloc_frames t k ≡ some k') × SameRun k k'
unfolding alloc_frames
frames_lem t k m =
    let (k1, e1, s1) = frame_lem t k 12 refl m in
    let (k2, e2, s2) = frame_lem t k1 4 refl (s1.magic_same t ∙ m) in
    let (k3, e3, s3) = frame_lem t k2 28 refl (s2.magic_same t ∙ (s1.magic_same t ∙ m)) in
    (k3, rw (e1, e2) e3, SameRun-trans s1 (SameRun-trans s2 s3))

-- A run queue invariant and an order are about what the run queue reads.
SameRun-IsValid : {idle : ℕ} {k k' : Kernel} → SameRun k k' → IsValid idle k → IsValid idle k'
SameRun-IsValid {idle} {k} {k'} s v = record {
  run_queue = record {
    idle_thread = s.idle_same ∙ v.idle_thread;
    idle_magic = s.magic_same idle ∙ v.idle_magic;
    idle_off = ap (has idle) s.ready_same ∙ v.idle_off;
    queued = λ t p. s.status_same t ∙ v.queued t (sym (ap (has t) s.ready_same) ∙ p);
    magic = λ t p. s.magic_same t ∙ v.magic t (sym (ap (has t) s.ready_same) ∙ p);
    once = λ t. omega (arith, v.once t, ap (count t) s.ready_same);
    complete = λ t p n. ap (has t) s.ready_same ∙ v.complete t (sym (s.status_same t) ∙ p) n;
  };
  cur_magic =
      ap (λ c. (k'.threads c).magic) s.current_same ∙ (s.magic_same k.current ∙ v.cur_magic);
  cur_running =
      ap (λ c. (k'.threads c).status) s.current_same ∙ (s.status_same k.current ∙ v.cur_running);
  only_running = λ t p. v.only_running t (sym (s.status_same t) ∙ p) ∙ sym s.current_same;
}

SameRun-IsHighest : {k k' : Kernel} → SameRun k k' → IsHighest k → IsHighest k'
SameRun-IsHighest {k} {k'} s h = record {
  ordered =
      subst (Descending (prio k')) (sym s.ready_same)
        (Descending-cong (prio k) (prio k') k.ready_list s.prio_same h.ordered);
  highest = λ t p. ground (
    arith,
    h.highest t (sym (ap (has t) s.ready_same) ∙ p),
    s.prio_same t,
    s.prio_same k.current,
    s.current_same,
  );
}

module _ {k : Kernel} (t : ℕ) (h : IsHighest k) where
  unblocked-ordered : Descending (prio (unblocked t k)) (unblocked t k).ready_list
  unblocked-ordered =
      Descending-cong (prio k) (prio (unblocked t k))
        (insert_ordered (priority_greater k) t k.ready_list) (λ u. ground arith)
        (insert_ordered-Descending k t k.ready_list h.ordered)

  unblocked-IsHighest : prio k t ≤ prio k k.current → IsHighest (unblocked t k)
  unblocked-IsHighest le = record {
    ordered = unblocked-ordered;
    highest = λ u p.
        ground (arith, h.highest u, has-insert_ordered (priority_greater k) u t k.ready_list);
  }

  unblocked-ready : has t (unblocked t k).ready_list ≡ true
  unblocked-ready = ground (arith, has-insert_ordered (priority_greater k) t t k.ready_list)

  -- A thread above the current one becomes the first.
  unblocked-first : prio k k.current < prio k t → (unblocked t k).ready_list ≡ t ∷ k.ready_list
  unblocked-first lt =
      before k t k.ready_list
        (All-of_has (λ u. prio k u < prio k t) k.ready_list λ u p. ground (arith, h.highest u p))

current_lem :
    (k : Kernel)
    → (k.threads k.current).magic ≡ thread_magic
    → (k.threads k.current).status ≡ running
    → thread_current k ≡ some k.current
unfolding thread_current
current_lem k m r = ground arith

-- Where the new thread is: it runs if it is above its creator, or else it is ready and the creator
-- runs on.
abbrev pub Started : ℕ → Kernel → Kernel → Type 0
Started t k k' =
    ((prio k k.current < prio k t) × (k'.current ≡ t))
    ⊎ ((prio k t ≤ prio k k.current) × (k'.current ≡ k.current) × (has t k'.ready_list ≡ true))

-- What thread_create() does once the new thread is ready.
abbrev Preempts : ℕ → ℕ → Kernel → Type 0
Preempts idle t k =
    (k' : Kernel) × ((if ltb (prio k k.current) (prio k t) then thread_yield k else some k)
      ≡ some k')
    × IsValid idle k'
    × IsHighest k'
    × Started t k k'

preempts_lem :
    (idle t : ℕ) (l : List ℕ) (k : Kernel)
    → IsValid idle k
    → Descending (prio k) k.ready_list
    → (prio k t ≤ prio k k.current → IsHighest k)
    → (prio k k.current < prio k t → k.ready_list ≡ t ∷ l)
    → has t k.ready_list ≡ true
    → k.in_external_intr ≡ false
    → Preempts idle t k
preempts_lem idle t l k v d h first ready task =
    elim (Bool-cases (ltb (prio k k.current) (prio k t))) [
      | inl b ↦
          let (j, e, w, _) = thread_yield-IsValid v task in
          let (i, g, o) = thread_yield-IsHighest v d task in
          let above : prio k k.current < prio k t = ground arith in
          let (m, f, c) = thread_yield-front v d t l task (first above) above in
          rw b (
            j,
            e,
            w,
            subst IsHighest (eq_of_some (sym g ∙ e)) o,
            inl (above, sym (ap (λ x. x.current) (eq_of_some (sym f ∙ e))) ∙ c),
          )
      | inr b ↦
          let below = ltb→le (prio k k.current) (prio k t) b in
          rw b (k, refl, v, h below, inr (below, refl, ready))
    ]

SameRun-Started :
    {k j : Kernel} (t : ℕ) (k' : Kernel) → SameRun k j → Started t j k' → Started t k k'
SameRun-Started {k} {j} t k' s (inl (p, e)) =
    inl (omega (arith, s.prio_same t, s.prio_same k.current, ap (prio j) s.current_same), e)
SameRun-Started {k} {j} t k' s (inr (p, e, r)) = inr (
  omega (arith, s.prio_same t, s.prio_same k.current, ap (prio j) s.current_same),
  e ∙ s.current_same,
  r,
)

create_lem :
    (t tid : ℕ) (k k1 : Kernel)
    → alloc_frames t (set_thread t (record (k.threads t) { tid = tid }) k) ≡ some k1
    → (k1.threads t).magic ≡ thread_magic
    → (k1.threads t).status ≡ blocked
    → ContextIsOff k1
    → thread_current (unblocked t k1) ≡ some k1.current
    → thread_create_finish t tid k ≡ (
        if ltb (prio (unblocked t k1) k1.current) (prio (unblocked t k1) t)
        then thread_yield (unblocked t k1)
        else some (unblocked t k1))
unfolding thread_create_finish
create_lem t tid k k1 e m b c r = ground (arith, thread_unblock_lem t k1 m b c)

-- thread_create() from the allocation of the identifier on, outside an interrupt: for a page with
-- the magic number whose thread is blocked and is not the idle thread, where the run queue is valid
-- and in order and nobody ready has a higher priority than the current thread, no assertion fails,
-- and the same holds afterwards. If the new thread has a higher priority than its creator then it is
-- the one that runs; if not, its creator runs on and the new thread is on the ready list.
pub thread_create_finish-IsHighest :
    (idle t tid : ℕ) (k : Kernel)
    → IsValid idle k
    → IsHighest k
    → (k.threads t).magic ≡ thread_magic
    → (k.threads t).status ≡ blocked
    → t ≢ idle
    → k.in_external_intr ≡ false
    → (k' : Kernel) × (thread_create_finish t tid k ≡ some k')
      × IsValid idle k'
      × IsHighest k'
      × Started t k k'
thread_create_finish-IsHighest idle t tid k v h m b n task =
    let numb = numbered t k tid in
    let (k1, e, s) =
      frames_lem t (set_thread t (record (k.threads t) { tid = tid }) k) (numb.magic_same t ∙ m) in
    let all = SameRun-trans numb s in
    let magic = all.magic_same t ∙ m in
    let status = all.status_same t ∙ b in
    let context : ContextIsOff k1 = λ q. absurd (ground (arith, all.context_same)) in
    let high = SameRun-IsHighest all h in
    let valid = unblocked-IsValid t (SameRun-IsValid all v) magic status n in
    let (k', q, w, o, started) =
      preempts_lem idle t k1.ready_list (unblocked t k1) valid (unblocked-ordered t high)
        (λ le. unblocked-IsHighest t high (ground arith))
        (λ lt. unblocked-first t high (ground arith)) (unblocked-ready t high)
        (all.context_same ∙ task) in
    (
      k',
      create_lem t tid k k1 e magic status context
            (current_lem (unblocked t k1) valid.cur_magic valid.cur_running)
          ∙ q,
      w,
      o,
      SameRun-Started t k' all (ground arith),
    )
