-- ===== src/Intq.antt =====
-- pintos/src/devices/intq.c: the byte queue between interrupt handlers and kernel threads. The
-- buffer is a function of the index; a call that would wait takes the queue's lock and blocks.
pub mod Queue
mod Tests
use operation_system.Base.{
  ℕ, zero, suc, ◌+◌, ◌%◌, Bool, true, false, not, ◌&&◌, Option, none, some, ◌==◌, if◌then◌else◌,
  update, assert, ◌>>=◌, ◌>>◌,
}
use operation_system.Kernel.{Kernel, is_off}
use operation_system.Interrupt.{intr_context}
use operation_system.Sched.{thread_current, thread_block, thread_unblock}

abbrev pub intq_bufsize : ℕ
intq_bufsize = 64

-- `struct intq`.
pub record Intq : Type 0 where
  pub lock : ℕ
  pub not_full : Option ℕ
  pub not_empty : Option ℕ
  pub buf : ℕ → ℕ
  pub head : ℕ
  pub tail : ℕ

-- The position after `pos`.
unfoldable pub next : ℕ → ℕ
next pos = (pos + 1) % intq_bufsize

abbrev pub is_empty : Intq → Bool
is_empty q = q.head == q.tail

abbrev pub is_full : Intq → Bool
is_full q = next q.head == q.tail

unfoldable pub intq_init : ℕ → Intq → Intq
intq_init lock q = record q { lock = lock; not_full = none; not_empty = none; head = 0; tail = 0 }

unfoldable pub intq_empty : Intq → Kernel → Option Bool
intq_empty q k = do assert (is_off k.intr_level); some (is_empty q)

unfoldable pub intq_full : Intq → Kernel → Option Bool
intq_full q k = do assert (is_off k.intr_level); some (is_full q)

-- The thread that waits, if any, is made ready.
unfoldable pub wake_waiter : Option ℕ → Kernel → Option Kernel
wake_waiter none k = some k
wake_waiter (some t) k = thread_unblock t k

-- signal(q, &q->not_full)
unfoldable pub signal_not_full : Intq → Kernel → Option (Intq × Kernel)
unfolding wake_waiter
signal_not_full q k = do
  assert (is_off k.intr_level)
  assert (not (is_full q))
  k1 ← wake_waiter q.not_full k
  some (record q { not_full = none }, k1)

-- signal(q, &q->not_empty)
unfoldable pub signal_not_empty : Intq → Kernel → Option (Intq × Kernel)
unfolding wake_waiter
signal_not_empty q k = do
  assert (is_off k.intr_level)
  assert (not (is_empty q))
  k1 ← wake_waiter q.not_empty k
  some (record q { not_empty = none }, k1)

-- wait(q, &q->not_full), up to the switch.
unfoldable pub wait_not_full : Intq → Kernel → Option (Intq × Kernel)
unfolding intr_context
wait_not_full q k = do
  assert (not (intr_context k))
  assert (is_off k.intr_level)
  assert (is_full q)
  cur ← thread_current k
  k1 ← thread_block k
  some (record q { not_full = some cur }, k1)

-- wait(q, &q->not_empty), up to the switch.
unfoldable pub wait_not_empty : Intq → Kernel → Option (Intq × Kernel)
unfolding intr_context
wait_not_empty q k = do
  assert (not (intr_context k))
  assert (is_off k.intr_level)
  assert (is_empty q)
  cur ← thread_current k
  k1 ← thread_block k
  some (record q { not_empty = some cur }, k1)

-- intq_getc() past its loop, where the queue is not empty: the byte, the queue and the state.
unfoldable pub intq_getc_ready : Intq → Kernel → Option (ℕ × Intq × Kernel)
unfolding intq_empty signal_not_full
intq_getc_ready q k = do
  assert (is_off k.intr_level)
  empty ← intq_empty q k
  assert (not empty)
  r ← signal_not_full (record q { tail = next q.tail }) k
  some (q.buf q.tail, r.0, r.1)

-- intq_putc() past its loop, where the queue is not full.
unfoldable pub intq_putc_ready : Intq → ℕ → Kernel → Option (Intq × Kernel)
unfolding intq_full signal_not_empty
intq_putc_ready q byte k = do
  assert (is_off k.intr_level)
  full ← intq_full q k
  assert (not full)
  signal_not_empty (record q { buf = update q.buf q.head byte; head = next q.head }) k
