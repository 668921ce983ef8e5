-- ===== src/Timer.antt =====
-- pintos/src/devices/timer.c: the tick, the sleep list and the conversion of times to ticks. The
-- 64-bit tick count is a number that does not wrap; times to sleep are not negative.
pub mod Sleep
pub mod Interrupt
mod Tests
use operation_system.Base.{
  ◌-◌, ℕ, zero, suc, ◌+◌, ◌*◌, ◌/◌, ◌%◌, Bool, true, false, not, Option, none, some, List, [], ◌∷◌,
  ltb, ◌==◌, if◌then◌else◌, assert, ◌>>=◌, ◌>>◌,
}
use operation_system.Kernel.{Kernel, Thread, Sleeper, prio, is_off}
use operation_system.KernelList.{insert_ordered}
use operation_system.Interrupt.{intr_disable, intr_yield_on_return}
use operation_system.Sched.{
  thread_current, thread_block, thread_unblock, thread_tick, thread_foreach,
}
use operation_system.Mlfqs.{
  thread_recent_cpu_incre, load_avg_calc_mlfqs, thread_recent_cpu_calc_mlfqs,
  thread_priority_calc_mlfqs,
}

abbrev pub timer_freq : ℕ
timer_freq = 100

unfoldable pub time_less : Sleeper → Sleeper → Bool
time_less a b = ltb a.wakeup_time b.wakeup_time

unfoldable pub timer_ticks : Kernel → ℕ
timer_ticks k = k.ticks

unfoldable pub timer_elapsed : ℕ → Kernel → ℕ
unfolding timer_ticks
timer_elapsed since k = timer_ticks k - since

-- Up to the switch; the sleeper then restores the interrupt level.
unfoldable pub timer_sleep : ℕ → Kernel → Option Kernel
unfolding intr_disable timer_ticks time_less
timer_sleep ticks k = do
  assert (not (is_off k.intr_level))
  let k1 = (intr_disable k).1
  cur ← thread_current k1
  let f : Sleeper = record { wakeup_time = timer_ticks k1 + ticks; t = cur }
  thread_block (record k1 { sleep_list = insert_ordered time_less f k1.sleep_list })

-- The loop of timer_interrupt over the sleep list.
unfoldable pub wake_sleepers : List Sleeper → Kernel → Option Kernel
wake_sleepers [] k = some (record k { sleep_list = [] })
wake_sleepers (f ∷ fs) k =
    let woken : Option Kernel = (do
      k1 ← thread_unblock f.t (record k { sleep_list = fs })
      cur ← thread_current k1
      k2 ← if ltb (prio k1 cur) (prio k1 f.t) then intr_yield_on_return k1 else some k1
      wake_sleepers fs k2) in
    if ltb k.ticks f.wakeup_time then some (record k { sleep_list = f ∷ fs }) else woken

-- The bookkeeping of the feedback queue scheduler at a tick.
unfoldable pub mlfqs_tick : Kernel → Option Kernel
mlfqs_tick k = do
  cur ← thread_current k
  let k1 = thread_recent_cpu_incre cur k
  k2 ←
      if k1.ticks % timer_freq == 0
      then (do j ← load_avg_calc_mlfqs k1; thread_foreach thread_recent_cpu_calc_mlfqs j)
      else some k1
  if k2.ticks % 4 == 0 then thread_foreach thread_priority_calc_mlfqs k2 else some k2

unfoldable pub timer_interrupt : Kernel → Option Kernel
unfolding wake_sleepers mlfqs_tick
timer_interrupt k = do
  let k1 = record k { ticks = k.ticks + 1 }
  k2 ← wake_sleepers k1.sleep_list k1
  k3 ← if k2.thread_mlfqs then mlfqs_tick k2 else some k2
  thread_tick k3

-- What real_time_sleep() does with NUM/DENOM seconds: timer_sleep() for whole ticks, or busy waiting
-- for `loops` rounds.
pub data Wait : Type 0 where
  sleep_ticks : ℕ → Wait
  busy_wait : (loops : ℕ) → Wait

unfoldable pub real_time_delay : ℕ → ℕ → ℕ → Option Wait
real_time_delay loops_per_tick num denom = do
  assert (denom % 1000 == 0)
  some (busy_wait (loops_per_tick * num / 1000 * timer_freq / (denom / 1000)))

unfoldable pub real_time_sleep : ℕ → ℕ → ℕ → Kernel → Option Wait
unfolding real_time_delay
real_time_sleep loops_per_tick num denom k = do
  let ticks = num * timer_freq / denom
  assert (not (is_off k.intr_level))
  if ltb 0 ticks then some (sleep_ticks ticks) else real_time_delay loops_per_tick num denom

unfoldable pub timer_msleep : ℕ → ℕ → Kernel → Option Wait
unfolding real_time_sleep
timer_msleep loops_per_tick ms = real_time_sleep loops_per_tick ms 1000

unfoldable pub timer_usleep : ℕ → ℕ → Kernel → Option Wait
unfolding real_time_sleep
timer_usleep loops_per_tick us = real_time_sleep loops_per_tick us 1_000_000

unfoldable pub timer_nsleep : ℕ → ℕ → Kernel → Option Wait
unfolding real_time_sleep
timer_nsleep loops_per_tick ns = real_time_sleep loops_per_tick ns 1_000_000_000
