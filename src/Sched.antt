-- ===== src/Sched.antt =====
-- pintos/src/threads/thread.c: the ready queue, the context switch and the four ways a thread
-- changes its status. `none` is a failed ASSERT. A function that switches returns the state at the
-- point where the next thread leaves schedule(); what the caller still does then is one
-- intr_set_level(), which belongs to whichever thread runs.
pub mod Invariant
pub mod Switch
pub mod Steps
pub mod Safety
pub mod Priority
pub mod Fair
pub mod Sample
mod Tests
use operation_system.Base.{
  ℕ, ◌+◌, ◌^◌, ◌%◌, Bool, false, not, ◌&&◌, Option, none, some, List, [], ◌∷◌, leb, ltb, ◌==◌,
  if◌then◌else◌, has, erase, assert, ◌>>=◌, ◌>>◌,
}
use operation_system.Kernel.{
  Kernel, Status, running, ready, blocked, dying, status_eq, is_off, thread_magic, time_slice,
  set_status, prio,
}
use operation_system.KernelList.{insert_ordered}
use operation_system.Interrupt.{intr_context, intr_disable, intr_set_level, intr_yield_on_return}

abbrev pub is_thread : Kernel → ℕ → Bool
is_thread k t = (k.threads t).magic == thread_magic

abbrev pub status_is : Status → ℕ → Kernel → Bool
status_is s t k = status_eq (k.threads t).status s

-- `t == idle_thread`.
abbrev pub is_idle : Kernel → ℕ → Bool
is_idle k t = elim k.idle_thread [ none ↦ false | some i ↦ i == t ]

unfoldable pub thread_current : Kernel → Option ℕ
thread_current k = do
  assert (is_thread k k.current)
  assert (status_is running k.current k)
  some k.current

unfoldable pub priority_greater : Kernel → ℕ → ℕ → Bool
priority_greater k a b = ltb (prio k b) (prio k a)

-- The chosen thread, and the state with it off the ready list; `none` if there is no idle thread.
unfoldable pub next_thread_to_run : Kernel → Option (ℕ × Kernel)
next_thread_to_run k = elim k.ready_list [
  | [] ↦ elim k.idle_thread [ none ↦ none | some i ↦ some (i, k) ]
  | t ∷ ts ↦ some (t, record k { ready_list = ts })
]

-- palloc_free_page(prev) is recorded in `freed`.
unfoldable pub thread_schedule_tail : Option ℕ → Kernel → Option Kernel
thread_schedule_tail prev k = do
  assert (is_off k.intr_level)
  let k1 = record (set_status k.current running k) { thread_ticks = 0 }
  elim prev [
    | none ↦ some k1
    | some p ↦
        if status_is dying p k1 && not (p == k1.initial_thread)
        then (do assert (not (p == k1.current)); some (record k1 { freed = p ∷ k1.freed }))
        else some k1
  ]

-- switch_threads(cur, next) makes `next` the running thread, and returns in it with `cur`.
unfoldable pub schedule : Kernel → Option Kernel
unfolding next_thread_to_run thread_schedule_tail
schedule k = do
  r ← next_thread_to_run k
  assert (is_off k.intr_level)
  assert (not (status_is running k.current k))
  assert (is_thread k r.0)
  thread_schedule_tail (if k.current == r.0 then none else some k.current)
      (record r.1 { current = r.0 })

unfoldable pub thread_block : Kernel → Option Kernel
unfolding intr_context thread_current
thread_block k = do
  assert (not (intr_context k))
  assert (is_off k.intr_level)
  cur ← thread_current k
  schedule (set_status cur blocked k)

unfoldable pub thread_unblock : ℕ → Kernel → Option Kernel
unfolding intr_disable priority_greater
thread_unblock t k = do
  assert (is_thread k t)
  let (old_level, k1) = intr_disable k
  assert (status_is blocked t k1)
  let k2 = record k1 { ready_list = insert_ordered (priority_greater k1) t k1.ready_list }
  intr_set_level old_level (set_status t ready k2)

-- Up to the return of schedule(); intr_set_level(old_level) is the resumed thread's.
unfoldable pub thread_yield : Kernel → Option Kernel
unfolding intr_context intr_disable thread_current priority_greater
thread_yield k = do
  cur ← thread_current k
  assert (not (intr_context k))
  let (old_level, k1) = intr_disable k
  let queue = insert_ordered (priority_greater k1) cur k1.ready_list
  let k2 = record k1 { ready_list = if is_idle k cur then k1.ready_list else queue }
  schedule (set_status cur ready k2)

-- Without user programs, process_exit() is not compiled in.
unfoldable pub thread_exit : Kernel → Option Kernel
unfolding intr_context intr_disable thread_current
thread_exit k = do
  assert (not (intr_context k))
  let (old_level, k1) = intr_disable k
  cur ← thread_current k1
  assert (has cur k1.all_list)
  schedule (set_status cur dying (record k1 { all_list = erase cur k1.all_list }))

-- Called from the timer interrupt.
unfoldable pub thread_tick : Kernel → Option Kernel
unfolding thread_current intr_yield_on_return
thread_tick k = do
  t ← thread_current k
  let k1 =
      if is_idle k t
      then record k { idle_ticks = k.idle_ticks + 1 }
      else record k { kernel_ticks = k.kernel_ticks + 1 }
  let k2 = record k1 { thread_ticks = (k1.thread_ticks + 1) % 2 ^ 32 }
  if leb time_slice k2.thread_ticks then intr_yield_on_return k2 else some k2

-- The loop of thread_foreach over all_list; the functions passed to it leave the list alone.
unfoldable pub foreach_from : (ℕ → Kernel → Kernel) → List ℕ → Kernel → Kernel
foreach_from func [] k = k
foreach_from func (t ∷ ts) k = foreach_from func ts (func t k)

unfoldable pub thread_foreach : (ℕ → Kernel → Kernel) → Kernel → Option Kernel
unfolding foreach_from
thread_foreach func k = do assert (is_off k.intr_level); some (foreach_from func k.all_list k)
