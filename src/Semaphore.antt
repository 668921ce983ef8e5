-- ===== src/Semaphore.antt =====
-- pintos/src/threads/synch.c: counting semaphores. sema_down() is a loop round a sleep: one round
-- of it is a step of the model, which either finishes or leaves the caller asleep; a caller that is
-- woken runs the loop again.
pub mod Wake
mod Tests
use operation_system.Base.{
  ℕ, zero, suc, ◌+◌, ◌-◌, ◌%◌, ◌^◌, Bool, true, false, not, Option, none, some, List, [], ◌∷◌, ◌++◌,
  ltb, ◌==◌, if◌then◌else◌, erase, update, assert, ◌>>=◌, ◌>>◌,
}
use operation_system.Kernel.{Kernel, Thread, Semaphore, prio}
use operation_system.KernelList.{list_min}
use operation_system.Interrupt.{intr_context, intr_disable, intr_set_level}
use operation_system.Sched.{thread_current, thread_block, thread_unblock, thread_yield}

abbrev pub set_sema : ℕ → Semaphore → Kernel → Kernel
set_sema s sema k = record k { semas = update k.semas s sema }

unfoldable pub sema_init : ℕ → ℕ → Kernel → Kernel
sema_init s value k = set_sema s (record { value = value; waiters = [] }) k

-- Where a call of sema_down() stands after a round.
pub data Down : Type 0 where
  finished : Kernel → Down  -- the value was taken; interrupts are still off
  asleep : Kernel → Down  -- the caller waits; another thread runs

unfoldable pub sema_down_round : ℕ → Kernel → Option Down
sema_down_round s k =
    let sema = k.semas s in
    let sleep : Option Down = (do
      cur ← thread_current k
      k1 ← thread_block (set_sema s (record sema { waiters = sema.waiters ++ (cur ∷ []) }) k)
      some (asleep k1)) in
    if sema.value == 0
    then sleep
    else some (finished (set_sema s (record sema { value = sema.value - 1 }) k))

-- The first round, and the interrupt level that the caller restores when it has finished.
unfoldable pub sema_down : ℕ → Kernel → Option Down
unfolding intr_context intr_disable sema_down_round
sema_down s k = do
  assert (not (intr_context k))
  let (old_level, k1) = intr_disable k
  d ← sema_down_round s k1
  elim d [
    | finished k2 ↦ (do k3 ← intr_set_level old_level k2; some (finished k3))
    | asleep k2 ↦ some (asleep k2)
  ]

unfoldable pub sema_try_down : ℕ → Kernel → Option (Bool × Kernel)
unfolding intr_disable
sema_try_down s k =
    let (old_level, k1) = intr_disable k in
    let sema = k1.semas s in
    if ltb 0 sema.value
    then (do
      k2 ← intr_set_level old_level (set_sema s (record sema { value = sema.value - 1 }) k1)
      some (true, k2))
    else (do k2 ← intr_set_level old_level k1; some (false, k2))

unfoldable pub thread_priority_greater : Kernel → ℕ → ℕ → Bool
thread_priority_greater k a b = ltb (prio k b) (prio k a)

-- The waiter of highest priority, if any, is taken off the list and made ready.
unfoldable pub wake_one : ℕ → Kernel → Option Kernel
unfolding thread_priority_greater
wake_one s k = elim (list_min (thread_priority_greater k) (k.semas s).waiters) [
  | none ↦ some k
  | some t ↦
      thread_unblock t (set_sema s (record (k.semas s) { waiters = erase t (k.semas s).waiters }) k)
]

-- The state in which sema_up() has counted and woken, before it yields.
unfoldable pub sema_post : ℕ → Kernel → Option Kernel
unfolding wake_one
sema_post s k = do
  k1 ← wake_one s k
  some (set_sema s (record (k1.semas s) { value = ((k1.semas s).value + 1) % 2 ^ 32 }) k1)

-- Outside an interrupt the caller yields; intr_set_level(old_level) is then the resumed thread's.
unfoldable pub sema_up : ℕ → Kernel → Option Kernel
unfolding intr_context intr_disable
sema_up s k = do
  let (old_level, k1) = intr_disable k
  k2 ← sema_post s k1
  if intr_context k2 then intr_set_level old_level k2 else thread_yield k2
