-- ===== src/Sched/Tests.antt =====
-- The scheduler at a concrete state.
use operation_system.Base.{◌≡◌, refl, some, [], ◌∷◌, arith}
use operation_system.Kernel.{Kernel, intr_off}
use operation_system.Sched.{thread_yield}
use operation_system.Sched.Invariant.{IsValid, IsValid-frame}
use operation_system.Sched.Priority.{IsHighest, thread_yield-IsHighest, thread_yield-fifo}
use operation_system.Sched.Safety.{thread_yield-IsValid}
use operation_system.Sched.Fair.{yields, yields-current}
use operation_system.Sched.Sample.{
  sample_thread, sample, sample_off, sample-IsValid, sample-IsHighest,
}

off-IsValid : IsValid 9 sample_off
off-IsValid = IsValid-frame sample_off sample-IsValid refl refl refl refl

thread_yield-IsValid_example :
    (k' : Kernel) × (thread_yield sample ≡ some k') × IsValid 9 k' × (k'.intr_level ≡ intr_off)
thread_yield-IsValid_example = thread_yield-IsValid sample-IsValid refl

thread_yield-IsHighest_example : (k' : Kernel) × (thread_yield sample ≡ some k') × IsHighest k'
thread_yield-IsHighest_example = thread_yield-IsHighest sample-IsValid sample-IsHighest.ordered refl

thread_yield-fifo_example :
    (k' : Kernel) × (thread_yield sample ≡ some k')
    × (k'.current ≡ 2)
    × (k'.ready_list ≡ 1 ∷ 3 ∷ [])
thread_yield-fifo_example =
    thread_yield-fifo sample-IsValid sample-IsHighest.ordered (2 ∷ []) (3 ∷ []) refl (λ e. cc) refl
      (omega arith, tt) (omega arith, tt)

-- All priorities are the same.
abbrev level : Kernel
level = record sample { threads = λ t. record (sample_thread t) { priority = 31 } }

level-IsValid : IsValid 9 level
level-IsValid = record {
  run_queue = record {
    idle_thread = refl;
    idle_magic = refl;
    idle_off = refl;
    queued = λ t p. ground arith;
    magic = λ t p. refl;
    once = λ t. ground arith;
    complete = λ t p n. ground arith;
  };
  cur_magic = refl;
  cur_running = refl;
  only_running = λ t p. ground arith;
}

yields-current_example :
    (k' : Kernel) × (yields 2 level ≡ some k') × (k'.current ≡ 3) × IsValid 9 k'
yields-current_example =
    yields-current (2 ∷ []) [] level-IsValid refl (λ e. cc) refl refl (refl, tt) tt
