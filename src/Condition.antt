-- ===== src/Condition.antt =====
-- pintos/src/threads/synch.c: condition variables. A waiter is named by the address of the
-- semaphore in the `struct semaphore_elem` on its stack.
pub mod Signal
mod Tests
use operation_system.Base.{
  ℕ, zero, suc, Bool, true, false, not, Option, none, some, List, [], ◌∷◌, ◌++◌, ltb, if◌then◌else◌,
  erase, update, assert, ◌>>=◌, ◌>>◌,
}
use operation_system.Kernel.{Kernel, Semaphore, prio}
use operation_system.Interrupt.{intr_context}
use operation_system.Semaphore.{sema_init, sema_up}
use operation_system.Lock.{lock_held_by_current_thread, lock_release}

abbrev pub set_cond : ℕ → List ℕ → Kernel → Kernel
set_cond c waiters k = record k { conds = update k.conds c waiters }

unfoldable pub cond_init : ℕ → Kernel → Kernel
cond_init c k = set_cond c [] k

-- cond_wait() up to the yield in lock_release(); `waiter` is the new semaphore on the caller's
-- stack. The caller goes on with sema_down(waiter), and then with lock_acquire(lock).
unfoldable pub cond_wait_enter : ℕ → ℕ → ℕ → Kernel → Option Kernel
unfolding intr_context sema_init
cond_wait_enter c lock waiter k = do
  assert (not (intr_context k))
  held ← lock_held_by_current_thread lock k
  assert held
  let k1 = sema_init waiter 0 k
  lock_release lock (set_cond c (k1.conds c ++ (waiter ∷ [])) k1)

-- `list_front(&s->waiters)`, with its assertion that the list is not empty.
unfoldable pub front_waiter : ℕ → Kernel → Option ℕ
front_waiter s k = elim (k.semas s).waiters [ [] ↦ none | t ∷ _ ↦ some t ]

unfoldable pub cond_sema_priority_greater : Kernel → ℕ → ℕ → Option Bool
unfolding front_waiter
cond_sema_priority_greater k a b = do
  ta ← front_waiter a k
  tb ← front_waiter b k
  some (ltb (prio k tb) (prio k ta))

-- list_min with that comparison, which may fail its assertion.
unfoldable pub cond_min_from : Kernel → ℕ → List ℕ → Option ℕ
cond_min_from k m [] = some m
cond_min_from k m (e ∷ es) = do
  less ← cond_sema_priority_greater k e m
  cond_min_from k (if less then e else m) es

unfoldable pub cond_signal : ℕ → ℕ → Kernel → Option Kernel
unfolding intr_context cond_min_from
cond_signal c lock k = do
  assert (not (intr_context k))
  held ← lock_held_by_current_thread lock k
  assert held
  elim (k.conds c) [
    | [] ↦ some k
    | w ∷ ws ↦ (do m ← cond_min_from k w ws; sema_up m (set_cond c (erase m (w ∷ ws)) k))
  ]

-- Where a call of cond_broadcast() stands after a round of its loop.
pub data Broadcast : Type 0 where
  all_woken : Kernel → Broadcast
  signalled : Kernel → Broadcast  -- another thread may run; the caller tests the list again

unfoldable pub cond_broadcast_round : ℕ → ℕ → Kernel → Option Broadcast
unfolding cond_signal
cond_broadcast_round c lock k = elim (k.conds c) [
  | [] ↦ some (all_woken k)
  | _ ∷ _ ↦ (do k1 ← cond_signal c lock k; some (signalled k1))
]
