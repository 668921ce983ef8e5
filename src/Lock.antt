-- ===== src/Lock.antt =====
-- pintos/src/threads/synch.c: locks. A call that sleeps ends at the switch; `lock_acquire_resume`
-- is what the sleeper runs when it is scheduled again.
pub mod Inherit
mod Frames
pub mod Mutex
mod Tests
use operation_system.Base.{
  ℕ, zero, suc, Bool, true, false, not, ◌&&◌, Option, none, some, List, [], ◌∷◌, ◌==◌,
  if◌then◌else◌, update, length, assert, ◌>>=◌, ◌>>◌,
}
use operation_system.Kernel.{Kernel, Thread, Semaphore, set_thread}
use operation_system.Interrupt.{intr_context, intr_disable, intr_set_level}
use operation_system.Sched.{thread_current}
use operation_system.Donation.{donate, donate_chain, donate_priority_update, drop_donations}
use operation_system.Semaphore.{
  Down, finished, asleep, sema_init, sema_down, sema_down_round, sema_try_down, sema_up,
}

abbrev pub set_holder : ℕ → Option ℕ → Kernel → Kernel
set_holder l h k = record k { holder = update k.holder l h }

unfoldable pub lock_init : ℕ → Kernel → Kernel
unfolding sema_init
lock_init l k = sema_init l 1 (set_holder l none k)

abbrev pub is_holder : Option ℕ → ℕ → Bool
is_holder none t = false
is_holder (some h) t = h == t

unfoldable pub lock_held_by_current_thread : ℕ → Kernel → Option Bool
lock_held_by_current_thread l k = do cur ← thread_current k; some (is_holder (k.holder l) cur)

-- The donation of lock_acquire(), with `fuel` rounds for the walk along the holders.
unfoldable pub lock_donate : ℕ → ℕ → Kernel → Option Kernel
lock_donate fuel l k = elim (k.holder l) [
  | none ↦ some k
  | some h ↦
      if k.thread_mlfqs
      then some k
      else (do cur ← thread_current k; donate_chain fuel (some h) (donate l cur h k))
]

-- `ASSERT(lock->holder == NULL); lock->holder = thread_current();`
unfoldable pub lock_take : ℕ → Kernel → Option Kernel
lock_take l k = do
  assert (elim (k.holder l) [ none ↦ true | some h ↦ false ])
  cur ← thread_current k
  some (set_holder l (some cur) k)

-- After a round of sema_down() the lock is taken, unless the caller sleeps.
unfoldable pub take_after : ℕ → Down → Option Down
unfolding lock_take
take_after l (finished k) = do k1 ← lock_take l k; some (finished k1)
take_after l (asleep k) = some (asleep k)

unfoldable pub lock_acquire : ℕ → ℕ → Kernel → Option Down
unfolding intr_context intr_disable lock_held_by_current_thread lock_donate
lock_acquire fuel l k = do
  assert (not (intr_context k))
  held ← lock_held_by_current_thread l k
  assert (not held)
  let (old_level, k1) = intr_disable k
  k2 ← lock_donate fuel l k1
  k3 ← intr_set_level old_level k2
  d ← sema_down l k3
  take_after l d

-- A sleeper in lock_acquire() is scheduled again: another round, with interrupts off.
unfoldable pub lock_acquire_resume : ℕ → Kernel → Option Down
lock_acquire_resume l k = do d ← sema_down_round l k; take_after l d

unfoldable pub lock_try_acquire : ℕ → Kernel → Option (Bool × Kernel)
unfolding lock_held_by_current_thread
lock_try_acquire l k = do
  held ← lock_held_by_current_thread l k
  assert (not held)
  r ← sema_try_down l k
  if r.0 then (do cur ← thread_current r.1; some (true, set_holder l (some cur) r.1)) else some r

-- The donations for the lock end and the holder's priority is renewed.
unfoldable pub end_donations : ℕ → ℕ → Kernel → Kernel
end_donations l cur k =
    let r = drop_donations l (k.threads cur).donate_priority k in
    donate_priority_update cur
      (set_thread cur (record (r.1.threads cur) { donate_priority = r.0 }) r.1)

-- The part of lock_release() that runs before sema_up().
unfoldable pub lock_clear : ℕ → Kernel → Option Kernel
unfolding intr_disable lock_held_by_current_thread
lock_clear l k = do
  held ← lock_held_by_current_thread l k
  assert held
  let (old_level, k1) = intr_disable k
  cur ← thread_current k1
  let k2 = if k1.thread_mlfqs then k1 else end_donations l cur k1
  assert (is_holder (k2.holder l) cur)
  intr_set_level old_level (set_holder l none k2)

unfoldable pub lock_release : ℕ → Kernel → Option Kernel
unfolding lock_clear
lock_release l k = do k1 ← lock_clear l k; sema_up l k1
