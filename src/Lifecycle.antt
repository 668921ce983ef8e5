-- ===== src/Lifecycle.antt =====
-- pintos/src/threads/thread.c: how a thread comes into being. The page is palloc_get_page()'s
-- result, an argument here. allocate_tid() takes and gives back tid_lock round `take_tid`, and may
-- switch there; so thread_create() is in two parts, before and after it.
pub mod Preempt
mod Tests
use operation_system.Base.{
  ℕ, zero, suc, ◌+◌, ◌-◌, ◌%◌, Bool, true, false, not, ◌&&◌, Option, none, some, List, [], ◌∷◌,
  ◌++◌, leb, ltb, ◌==◌, if◌then◌else◌, assert, ◌>>=◌, ◌>>◌,
}
use operation_system.Base.Int.{ℤ, pos}
use operation_system.Kernel.{
  Kernel, Thread, Status, running, blocked, prio, pri_min, pri_max, pri_default, pgsize,
  thread_magic, set_thread, is_off,
}
use operation_system.Sched.{is_thread, thread_current, thread_unblock, thread_yield}

-- strlcpy() into a buffer of `n + 1` bytes: what stands before the terminator.
abbrev pub take : ℕ → List ℕ → List ℕ
take zero xs = []
take (suc n) [] = []
take (suc n) (x ∷ xs) = x ∷ take n xs

abbrev pub fresh_thread : ℕ → List ℕ → ℕ → Thread
fresh_thread t name priority = record {
  tid = 0;
  status = blocked;
  name = take 15 name;
  stack = t + pgsize;
  base_priority = priority;
  donate_priority = [];
  priority = priority;
  waiting_lock = none;
  nice = pos 0;
  recent_cpu = pos 0;
  magic = thread_magic;
}

-- The new thread's nice and recent_cpu under the feedback queue scheduler.
unfoldable pub inherit_mlfqs : ℕ → Kernel → Option Kernel
inherit_mlfqs t k =
    let copied : Option Kernel = (do
      cur ← thread_current k
      let parent = k.threads cur
      some (
          set_thread t (record (k.threads t) { nice = parent.nice; recent_cpu = parent.recent_cpu })
            k)) in
    if not k.thread_mlfqs
    then some k
    else (if t == k.initial_thread
        then some (set_thread t (record (k.threads t) { nice = pos 0; recent_cpu = pos 0 }) k)
        else copied)

unfoldable pub init_thread : ℕ → List ℕ → ℕ → Kernel → Option Kernel
unfolding inherit_mlfqs
init_thread t name priority k = do
  assert (leb pri_min priority && leb priority pri_max)
  k1 ← inherit_mlfqs t (set_thread t (fresh_thread t name priority) k)
  some (record k1 { all_list = k1.all_list ++ (t ∷ []) })

unfoldable pub alloc_frame : ℕ → ℕ → Kernel → Option Kernel
alloc_frame t size k = do
  assert (is_thread k t)
  assert (size % 4 == 0)
  some (set_thread t (record (k.threads t) { stack = (k.threads t).stack - size }) k)

-- The critical section of allocate_tid().
unfoldable pub take_tid : Kernel → ℕ × Kernel
take_tid k = (k.next_tid, record k { next_tid = k.next_tid + 1 })

-- thread_create() up to allocate_tid(); `none` in the pair is TID_ERROR.
unfoldable pub thread_create_enter :
    (page : Option ℕ) (name : List ℕ) (priority : ℕ) → Kernel → Option (Option ℕ × Kernel)
unfolding init_thread
thread_create_enter none name priority k = some (none, k)
thread_create_enter (some t) name priority k = do
  k1 ← init_thread t name priority k
  some (some t, k1)

-- The three frames on the new thread's stack: 12, 4 and 28 bytes.
unfoldable pub alloc_frames : ℕ → Kernel → Option Kernel
unfolding alloc_frame
alloc_frames t k = do k1 ← alloc_frame t 12 k; k2 ← alloc_frame t 4 k1; alloc_frame t 28 k2

-- thread_create() from allocate_tid() on, up to the switch if it yields.
unfoldable pub thread_create_finish : (t tid : ℕ) → Kernel → Option Kernel
unfolding alloc_frames
thread_create_finish t tid k = do
  k1 ← alloc_frames t (set_thread t (record (k.threads t) { tid = tid }) k)
  k2 ← thread_unblock t k1
  cur ← thread_current k2
  if ltb (prio k2 cur) (prio k2 t) then thread_yield k2 else some k2

-- thread_init(): the running code becomes the first thread. The lock and the lists are empty.
unfoldable pub thread_init : (t : ℕ) → Kernel → Option Kernel
unfolding init_thread take_tid
thread_init t k = do
  assert (is_off k.intr_level)
  k1 ←
      init_thread t (b'm' ∷ b'a' ∷ b'i' ∷ b'n' ∷ []) pri_default
        (record k { ready_list = []; all_list = []; initial_thread = t })
  let (tid, k2) = take_tid (set_thread t (record (k1.threads t) { status = running }) k1)
  let k3 = set_thread t (record (k2.threads t) { tid = tid }) k2
  some (if k3.thread_mlfqs then record k3 { load_avg = pos 0 } else k3)
