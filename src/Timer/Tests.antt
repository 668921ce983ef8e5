-- ===== src/Timer/Tests.antt =====
-- The timer at concrete states: at tick 10 thread 4 sleeps until 11 and thread 5 until 20.
use operation_system.Base.{◌≡◌, refl, true, some, List, [], ◌∷◌, All, has}
use operation_system.Kernel.{Kernel, Sleeper, intr_off}
use operation_system.KernelList.Ordered.{IsSorted}
use operation_system.Sched.Invariant.{IsValid-frame}
use operation_system.Sched.Sample.{sample, sample-IsValid}
use operation_system.Timer.{time_less, timer_interrupt}
use operation_system.Timer.Sleep.{AtTick, due, later}
use operation_system.Timer.Interrupt.{timer_interrupt-wakes_due}

abbrev sleepers : List Sleeper
sleepers = (record { wakeup_time = 11; t = 4 }) ∷ (record { wakeup_time = 20; t = 5 }) ∷ []

sleepers-IsSorted : IsSorted time_less sleepers
unfolding time_less
sleepers-IsSorted = ((refl, tt), (tt, tt))

abbrev at_tick : Kernel
at_tick = record sample { in_external_intr = true; intr_level = intr_off; sleep_list = sleepers }

at_tick-AtTick : AtTick 9 at_tick
at_tick-AtTick = record {
  valid = IsValid-frame at_tick sample-IsValid refl refl refl refl;
  context = refl;
  off = refl;
}

timer_interrupt-wakes_due_example :
    (k' : Kernel) × (timer_interrupt at_tick ≡ some k')
    × AtTick 9 k'
    × (k'.sleep_list ≡ later 11 sleepers)
    × All (λ f. has f.t k'.ready_list ≡ true) (due 11 sleepers)
    × (k'.current ≡ 1)
timer_interrupt-wakes_due_example =
    timer_interrupt-wakes_due 9 at_tick at_tick-AtTick refl sleepers-IsSorted
      (refl, refl, (λ e. cc), ((λ e. cc), tt), (refl, refl, (λ e. cc), tt, tt))

abbrev awake : Kernel
awake = record sample { sleep_list = sleepers }
