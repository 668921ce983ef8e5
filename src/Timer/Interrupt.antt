-- ===== src/Timer/Interrupt.antt =====
-- The timer interrupt as a whole, with the priority scheduler.
use operation_system.Base.{
  ◌^◌, ◌%◌, ℕ, ◌+◌, ◌≡◌, refl, ◌≢◌, true, false, some, List, [], ◌∷◌, arith, leb, if◌then◌else◌,
  All, has,
}
use operation_system.Kernel.{
  time_slice, intr_on, set_status, time_slice, intr_on, Kernel, Sleeper, intr_off, running, blocked,
  thread_magic,
}
use operation_system.KernelList.{insert_ordered}
use operation_system.KernelList.Ordered.{IsSorted, insert_ordered-IsSorted}
use operation_system.Interrupt.{intr_yield_on_return}
use operation_system.Sched.{is_idle, thread_current, thread_tick}
use operation_system.Sched.Invariant.{front_or, switched, IsValid, IsValid-frame}
use operation_system.Sched.Steps.{stopped-IsHandover, thread_block_lem}
use operation_system.Timer.{time_less, timer_interrupt, timer_sleep}
use operation_system.Timer.Sleep.{
  due, later, Asleep, AtTick, wake_sleepers-Woken, time_less-IsWeakOrder,
}
use operation_system.Sched.Switch.{switched-IsValid}

abbrev ticked : Kernel → Kernel
ticked k = record k {
  idle_ticks = if is_idle k k.current then k.idle_ticks + 1 else k.idle_ticks;
  kernel_ticks = if is_idle k k.current then k.kernel_ticks else k.kernel_ticks + 1;
  thread_ticks = (k.thread_ticks + 1) % 2 ^ 32;
  yield_on_return =
      if leb time_slice ((k.thread_ticks + 1) % 2 ^ 32) then true else k.yield_on_return;
}

tick_lem : (idle : ℕ) (k : Kernel) → AtTick idle k → thread_tick k ≡ some (ticked k)
unfolding thread_tick thread_current intr_yield_on_return
tick_lem idle k a = ground (arith, a.valid.cur_magic, a.valid.cur_running, a.context)

AtTick-ticks :
    (idle : ℕ) (k : Kernel) → AtTick idle k → AtTick idle (record k { ticks = k.ticks + 1 })
AtTick-ticks idle k a = record {
  valid = IsValid-frame _ a.valid refl refl refl refl;
  context = a.context;
  off = a.off;
}

AtTick-ticked : (idle : ℕ) (k : Kernel) → AtTick idle k → AtTick idle (ticked k)
AtTick-ticked idle k a = record {
  valid = IsValid-frame (ticked k) a.valid refl refl refl refl;
  context = a.context;
  off = a.off;
}

Asleep-ticks :
    (idle : ℕ) (k : Kernel) (fs : List Sleeper)
    → Asleep idle k fs
    → Asleep idle (record k { ticks = k.ticks + 1 }) fs
Asleep-ticks idle k [] s = tt
Asleep-ticks idle k (f ∷ fs) s = (s.0, s.1, s.2, s.3, Asleep-ticks idle k fs s.4)

-- The timer interrupt with the priority scheduler, where the run queue is valid, the sleep list is
-- in order of wakeup time and its sleepers are different blocked threads: it fails no assertion, it
-- leaves asleep exactly the sleepers whose time is after the new tick, every other one is on the
-- ready list, the run queue is valid and the interrupted thread is still the current one.
pub timer_interrupt-wakes_due :
    (idle : ℕ) (k : Kernel)
    → AtTick idle k
    → k.thread_mlfqs ≡ false
    → IsSorted time_less k.sleep_list
    → Asleep idle k k.sleep_list
    → (k' : Kernel) × (timer_interrupt k ≡ some k')
      × AtTick idle k'
      × (k'.sleep_list ≡ later (k.ticks + 1) k.sleep_list)
      × All (λ f. has f.t k'.ready_list ≡ true) (due (k.ticks + 1) k.sleep_list)
      × (k'.current ≡ k.current)
unfolding timer_interrupt
timer_interrupt-wakes_due idle k a m o s =
    let (k', q, w) =
      wake_sleepers-Woken idle k.sleep_list now (AtTick-ticks idle k a) o
        (Asleep-ticks idle k k.sleep_list s) in
    (
      ticked k',
      ground (arith, tick_lem idle k' w.tick, w.mlfqs),
      AtTick-ticked idle k' w.tick,
      w.rest,
      w.woken,
      w.current,
    )
  where
    now : Kernel
    now = record k { ticks = k.ticks + 1 }

current_lem :
    (k : Kernel)
    → (k.threads k.current).magic ≡ thread_magic
    → (k.threads k.current).status ≡ running
    → thread_current k ≡ some k.current
unfolding thread_current
current_lem k m r = ground arith

module _ {idle : ℕ} {k : Kernel} (v : IsValid idle k) where
  -- Where the run queue invariant holds and the sleep list is in order of wakeup time,
  -- timer_sleep(n) outside an interrupt with interrupts on fails no assertion and puts the caller
  -- on the sleep list with a wakeup time n ticks from now, keeps the list in order of wakeup time,
  -- and keeps the run queue invariant; if another thread runs then, the caller is blocked.
  pub timer_sleep-IsSorted :
      (n : ℕ)
      → k.in_external_intr ≡ false
      → k.intr_level ≡ intr_on
      → IsSorted time_less k.sleep_list
      → (k' : Kernel) × (timer_sleep n k ≡ some k')
        × IsValid idle k'
        × IsSorted time_less k'.sleep_list
        × (k'.sleep_list
            ≡ insert_ordered time_less
                (record { wakeup_time = k.ticks + n; t = k.current })
                k.sleep_list)
        × (k'.current ≢ k.current → (k'.threads k.current).status ≡ blocked)
  unfolding timer_sleep
  timer_sleep-IsSorted n task on o = (
    switched (front_or idle k.ready_list)
        (record (set_status k.current blocked queued) { intr_level = intr_off }),
    ground (arith, cur, thread_block_lem valid task refl),
    switched-IsValid (stopped-IsHandover valid blocked k.all_list (λ e. cc) (λ e. cc)),
    (insert_ordered-IsSorted time_less time_less-IsWeakOrder f k.sleep_list o).0,
    refl,
    λ h. ground arith,
  )
    where
      f : Sleeper
      f = record { wakeup_time = k.ticks + n; t = k.current }

      queued : Kernel
      queued = record k {
        intr_level = intr_off;
        sleep_list = insert_ordered time_less f k.sleep_list;
      }

      valid : IsValid idle queued
      valid = IsValid-frame queued v refl refl refl refl

      cur : thread_current (record k { intr_level = intr_off }) ≡ some k.current
      cur = current_lem (record k { intr_level = intr_off }) v.cur_magic v.cur_running
