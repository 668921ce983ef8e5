-- ===== src/Timer/Sleep.antt =====
-- The sleep list: nobody is woken early, and nobody due is left asleep.
use operation_system.Base.{
  ltb→le, ◌||◌, ltb→lt, ℕ, ◌≤◌, ◌<◌, ◌≡◌, refl, ◌≢◌, true, false, some, List, [], ◌∷◌, arith, ltb,
  leb, ◌==◌, if◌then◌else◌, All, has, Bool-cases, inl, inr, ◌∙◌,
}
use operation_system.Kernel.{Kernel, Sleeper, prio, intr_off, blocked, thread_magic}
use operation_system.KernelList.Address.{has-insert_ordered}
use operation_system.KernelList.Ordered.{IsWeakOrder, IsSorted}
use operation_system.Sched.{thread_current, priority_greater}
use operation_system.Sched.Invariant.{IsValid-frame, IsValid}
use operation_system.Sched.Steps.{unblocked, thread_unblock_lem, unblocked-IsValid}
use operation_system.Timer.{intr_yield_on_return, time_less, wake_sleepers}
use operation_system.Interrupt.{intr_yield_on_return}

-- The sleepers whose time has come at `now`, and the others.
abbrev pub due : ℕ → List Sleeper → List Sleeper
due now [] = []
due now (f ∷ fs) = if leb f.wakeup_time now then f ∷ due now fs else due now fs

abbrev pub later : ℕ → List Sleeper → List Sleeper
later now [] = []
later now (f ∷ fs) = if leb f.wakeup_time now then later now fs else f ∷ later now fs

pub time_less-IsWeakOrder : IsWeakOrder time_less
unfolding time_less
time_less-IsWeakOrder = record { asym = λ x y h. ground arith; chain = λ x y z h g. ground arith }

-- The sleepers of the list are different blocked threads, none the idle thread.
abbrev pub Asleep : ℕ → Kernel → List Sleeper → Type 0
Asleep idle k [] = Unit
Asleep idle k (f ∷ fs) =
    ((k.threads f.t).magic ≡ thread_magic)
    × ((k.threads f.t).status ≡ blocked)
    × (f.t ≢ idle)
    × All (λ g. g.t ≢ f.t) fs
    × Asleep idle k fs

-- What an interrupt finds: a valid run queue, interrupts off.
pub record AtTick (idle : ℕ) (k : Kernel) : Type 0 where
  pub valid : IsValid idle k
  pub context : k.in_external_intr ≡ true
  pub off : k.intr_level ≡ intr_off

-- Other sleepers stay asleep when a thread is made ready.
Asleep-unblocked :
    (idle t : ℕ) (rest : List Sleeper) (k : Kernel) (fs : List Sleeper)
    → All (λ g. g.t ≢ t) fs
    → Asleep idle k fs
    → Asleep idle (unblocked t (record k { sleep_list = rest })) fs
Asleep-unblocked idle t rest k [] n a = tt
Asleep-unblocked idle t rest k (f ∷ fs) n a =
    (ground arith, ground arith, a.2, a.3, Asleep-unblocked idle t rest k fs n.1 a.4)

later-none :
    (now : ℕ) (f : Sleeper) (fs : List Sleeper)
    → now < f.wakeup_time
    → All (λ g. time_less g f ≡ false) fs
    → (due now fs ≡ []) × (later now fs ≡ fs)
unfolding time_less
later-none now f [] h a = (refl, refl)
later-none now f (g ∷ fs) h a = ground (arith, later-none now f fs h a.1)

-- What the loop leaves: the run queue valid, the later sleepers asleep, the due ones ready.
pub record Woken (idle : ℕ) (fs : List Sleeper) (k k' : Kernel) : Type 0 where
  pub tick : AtTick idle k'
  pub rest : k'.sleep_list ≡ later k.ticks fs
  pub woken : All (λ f. has f.t k'.ready_list ≡ true) (due k.ticks fs)
  pub kept : (t : ℕ) → has t k.ready_list ≡ true → has t k'.ready_list ≡ true
  pub current : k'.current ≡ k.current
  pub ticks : k'.ticks ≡ k.ticks
  pub mlfqs : k'.thread_mlfqs ≡ k.thread_mlfqs

module _ (idle : ℕ) (f : Sleeper) (fs : List Sleeper) (k : Kernel) where
  abbrev dropped : Kernel
  dropped = record k { sleep_list = fs }

  -- One round: the sleeper is ready, and a yield is asked for if it goes before the current thread.
  abbrev woken_state : Kernel
  woken_state = record (unblocked f.t dropped) {
    yield_on_return =
        if ltb (prio (unblocked f.t dropped) k.current) (prio (unblocked f.t dropped) f.t)
        then true
        else k.yield_on_return;
  }

  round_lem :
      AtTick idle k
      → f.wakeup_time ≤ k.ticks
      → (k.threads f.t).magic ≡ thread_magic
      → (k.threads f.t).status ≡ blocked
      → wake_sleepers (f ∷ fs) k ≡ wake_sleepers fs woken_state
  unfolding wake_sleepers thread_current intr_yield_on_return
  round_lem a h m b = ground (
    arith,
    thread_unblock_lem f.t dropped m b (λ _. a.off),
    a.valid.cur_magic,
    a.valid.cur_running,
    a.context,
  )

  round-AtTick :
      AtTick idle k
      → (k.threads f.t).magic ≡ thread_magic
      → (k.threads f.t).status ≡ blocked
      → f.t ≢ idle
      → AtTick idle woken_state
  round-AtTick a m b n = record {
    valid =
        IsValid-frame woken_state
          (unblocked-IsValid f.t {k = dropped} (IsValid-frame dropped a.valid refl refl refl refl) m
            b n)
          refl refl refl refl;
    context = a.context;
    off = a.off;
  }

  round-kept :
      (t : ℕ) → ((f.t == t) || has t k.ready_list) ≡ true → has t woken_state.ready_list ≡ true
  round-kept t h = has-insert_ordered (priority_greater dropped) t f.t k.ready_list ∙ h

stop_lem :
    (idle : ℕ) (f : Sleeper) (fs : List Sleeper) (k : Kernel)
    → k.ticks < f.wakeup_time
    → wake_sleepers (f ∷ fs) k ≡ some (record k { sleep_list = f ∷ fs })
unfolding wake_sleepers
stop_lem idle f fs k h = ground arith

end_lem : (k : Kernel) → wake_sleepers [] k ≡ some (record k { sleep_list = [] })
unfolding wake_sleepers
end_lem k = refl

AtTick-frame :
    (idle : ℕ) (k : Kernel) (l : List Sleeper)
    → AtTick idle k
    → AtTick idle (record k { sleep_list = l })
AtTick-frame idle k l a = record {
  valid = IsValid-frame (record k { sleep_list = l }) a.valid refl refl refl refl;
  context = a.context;
  off = a.off;
}

Woken-cons :
    (idle : ℕ) (f : Sleeper) (fs : List Sleeper) (k k' : Kernel)
    → f.wakeup_time ≤ k.ticks
    → Woken idle fs (woken_state idle f fs k) k'
    → Woken idle (f ∷ fs) k k'
Woken-cons idle f fs k k' h w = record {
  tick = w.tick;
  rest = rw come w.rest;
  woken = rw come (w.kept f.t (round-kept idle f fs k f.t (ground arith)), w.woken);
  kept = λ t p. w.kept t (round-kept idle f fs k t (ground arith));
  current = w.current;
  ticks = w.ticks;
  mlfqs = w.mlfqs;
}
  where
    come : leb f.wakeup_time k.ticks ≡ true
    come = ground arith

pub wake_sleepers-Woken :
    (idle : ℕ) (fs : List Sleeper) (k : Kernel)
    → AtTick idle k
    → IsSorted time_less fs
    → Asleep idle k fs
    → (k' : Kernel) × (wake_sleepers fs k ≡ some k') × Woken idle fs k k'
wake_sleepers-Woken idle [] k a o s = (
  record k { sleep_list = [] },
  end_lem k,
  record {
    tick = AtTick-frame idle k [] a;
    rest = refl;
    woken = tt;
    kept = λ t h. h;
    current = refl;
    ticks = refl;
    mlfqs = refl;
  },
)
wake_sleepers-Woken idle (f ∷ fs) k a o s = elim (Bool-cases (ltb k.ticks f.wakeup_time)) [
  | inl e ↦
      let h : k.ticks < f.wakeup_time = ltb→lt k.ticks f.wakeup_time e in
      let none_due : (due k.ticks fs ≡ []) × (later k.ticks fs ≡ fs) =
        later-none k.ticks f fs h o.0 in
      (
        record k { sleep_list = f ∷ fs },
        stop_lem idle f fs k h,
        record {
          tick = AtTick-frame idle k (f ∷ fs) a;
          rest = ground arith;
          woken = ground arith;
          kept = λ t p. p;
          current = refl;
          ticks = refl;
          mlfqs = refl;
        },
      )
  | inr e ↦
      let h : f.wakeup_time ≤ k.ticks = ltb→le k.ticks f.wakeup_time e in
      let (k', q, w) =
        wake_sleepers-Woken idle fs (woken_state idle f fs k)
          (round-AtTick idle f fs k a s.0 s.1 s.2) o.1
          (Asleep-unblocked idle f.t fs k fs s.3 s.4) in
      (k', round_lem idle f fs k a h s.0 s.1 ∙ q, Woken-cons idle f fs k k' h w)
]
