-- ===== src/Lock/Tests.antt =====
-- Locks at concrete states: thread 3 holds lock 100, or thread 1 takes it.
use operation_system.Base.{ℕ, ◌≡◌, refl, none, some, [], arith, ◌==◌, if◌then◌else◌, update}
use operation_system.Kernel.{Kernel}
use operation_system.Sched.{thread_current}
use operation_system.Sched.Sample.{sample_off}
use operation_system.Semaphore.{finished, sema_down_round, set_sema}
use operation_system.Donation.Chain.{Settled, WaitsFor}
use operation_system.Lock.{lock_donate, lock_init, lock_take}
use operation_system.Lock.Inherit.{lock_donate-inherits}
use operation_system.Lock.Mutex.{
  outside, taken, Reach, start, later, down, mutual_exclusion, lock_take-succeeds,
}

current-sample : (k : Kernel) → k ≡ k → thread_current sample_off ≡ some 1
unfolding thread_current
current-sample k e = refl

abbrev owned : Kernel
owned = record sample_off { holder = λ l. if l == 100 then some 3 else none }

current_owned : thread_current owned ≡ some 1
unfolding thread_current
current_owned = refl

abbrev rank : ℕ → ℕ
rank t = if t == 1 then 1 else 0

lock_donate-inherits_example :
    (k' : Kernel) × (lock_donate 2 100 owned ≡ some k') × Settled k' × WaitsFor k' 1 3
lock_donate-inherits_example =
    lock_donate-inherits rank 2 100 3 owned (λ u t w. absurd (ground (arith, w.1))) (omega arith)
      (omega arith) (λ u h w. absurd (ground (arith, w.1))) (λ u h w. absurd (ground (arith, w.1)))
      refl refl current_owned

abbrev ready_state : Kernel
ready_state = lock_init 100 sample_off

abbrev took : Kernel
took = set_sema 100 (record { value = 0; waiters = [] }) ready_state

down_lem : sema_down_round 100 ready_state ≡ some (finished took)
unfolding sema_down_round lock_init
down_lem = refl

current_lem : ready_state.current ≡ 1
unfolding lock_init
current_lem = refl

current_took : thread_current took ≡ some took.current
unfolding thread_current lock_init
current_took = refl

took-Reach : Reach 100 took (update (λ t. outside) ready_state.current taken)
took-Reach = later (start sample_off) (down refl down_lem)

mutual_exclusion_example : ready_state.current ≡ 1
mutual_exclusion_example =
    mutual_exclusion took-Reach ready_state.current 1 (ground arith) (ground (arith, current_lem))

lock_take-succeeds_example :
    (k' : Kernel) × (lock_take 100 took ≡ some k') × (k'.holder 100 ≡ some took.current)
lock_take-succeeds_example = lock_take-succeeds took-Reach (ground arith) current_took
