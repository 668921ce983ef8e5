-- ===== src/Lifecycle/Tests.antt =====
-- Thread 4, with priority 50, is created by thread 1.
use operation_system.Base.{◌≡◌, refl, some}
use operation_system.Kernel.{Kernel}
use operation_system.Sched.Invariant.{IsValid}
use operation_system.Sched.Priority.{IsHighest}
use operation_system.Sched.Sample.{sample, sample-IsValid, sample-IsHighest}
use operation_system.Lifecycle.{thread_create_finish}
use operation_system.Lifecycle.Preempt.{Started, thread_create_finish-IsHighest}

thread_create_finish-IsHighest_example :
    (k' : Kernel) × (thread_create_finish 4 5 sample ≡ some k')
    × IsValid 9 k'
    × IsHighest k'
    × Started 4 sample k'
thread_create_finish-IsHighest_example =
    thread_create_finish-IsHighest 9 4 5 sample sample-IsValid sample-IsHighest refl refl (λ e. cc)
      refl
