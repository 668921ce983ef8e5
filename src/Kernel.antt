-- ===== src/Kernel.antt =====
-- The state of the kernel that threads/thread.c, threads/synch.c, threads/interrupt.c and
-- devices/timer.c share. A thread is named by the address of its page, a semaphore, a lock or a
-- condition variable by its address; the store maps addresses to contents. A lock is named by the
-- address of the semaphore in it. The intrusive lists hold the addresses of their elements.
use operation_system.Base.{ℕ, ◌^◌, Bool, true, false, Option, List, ◌==◌, update}
use operation_system.Base.Int.{ℤ}

-- `enum thread_status`.
pub data Status : Type 0 where
  running ready blocked dying : Status

-- The value of the enumerator.
abbrev pub status_tag : Status → ℕ
status_tag running = 0
status_tag ready = 1
status_tag blocked = 2
status_tag dying = 3

-- `s == t` on `enum thread_status`.
abbrev pub status_eq : Status → Status → Bool
status_eq s t = status_tag s == status_tag t

-- `enum intr_level`.
pub data IntrLevel : Type 0 where
  intr_off intr_on : IntrLevel

abbrev pub is_off : IntrLevel → Bool
is_off intr_off = true
is_off intr_on = false

-- `struct donate_elem`: the lock and the thread that donates its priority for it.
pub record DonateElem : Type 0 where
  pub lock : ℕ
  pub donor : ℕ

-- `struct thread`, with `elem` and `allelem` in the lists of `Kernel`.
pub record Thread : Type 0 where
  pub tid : ℕ
  pub status : Status
  pub name : List ℕ
  pub stack : ℕ
  pub base_priority : ℕ
  pub donate_priority : List DonateElem
  pub priority : ℕ
  pub waiting_lock : Option ℕ
  pub nice : ℤ
  pub recent_cpu : ℤ
  pub magic : ℕ

-- `struct semaphore`.
pub record Semaphore : Type 0 where
  pub value : ℕ
  pub waiters : List ℕ

-- `struct foo` of timer.c: an entry of the sleep list.
pub record Sleeper : Type 0 where
  pub wakeup_time : ℕ
  pub t : ℕ

pub record Kernel : Type 0 where
  pub threads : ℕ → Thread
  pub semas : ℕ → Semaphore
  pub holder : ℕ → Option ℕ  -- `holder` of each lock
  pub conds : ℕ → List ℕ  -- `waiters` of each condition, by the addresses of their semaphores
  pub ready_list : List ℕ
  pub all_list : List ℕ
  pub idle_thread : Option ℕ
  pub initial_thread : ℕ
  pub current : ℕ  -- running_thread()
  pub intr_level : IntrLevel
  pub in_external_intr : Bool
  pub yield_on_return : Bool
  pub thread_ticks : ℕ
  pub idle_ticks : ℕ
  pub kernel_ticks : ℕ
  pub load_avg : ℤ
  pub thread_mlfqs : Bool
  pub next_tid : ℕ
  pub ticks : ℕ
  pub sleep_list : List Sleeper
  pub freed : List ℕ  -- the pages given back by palloc_free_page(), newest first

abbrev pub thread_magic : ℕ
thread_magic = 0xcd6abf4b

abbrev pub pri_min : ℕ
pri_min = 0

abbrev pub pri_default : ℕ
pri_default = 31

abbrev pub pri_max : ℕ
pri_max = 63

abbrev pub time_slice : ℕ
time_slice = 4

abbrev pub pgsize : ℕ
pgsize = 2 ^ 12

abbrev pub set_thread : ℕ → Thread → Kernel → Kernel
set_thread t th k = record k { threads = update k.threads t th }

abbrev pub set_status : ℕ → Status → Kernel → Kernel
set_status t s k = set_thread t (record (k.threads t) { status = s }) k

-- `t->priority`.
abbrev pub prio : Kernel → ℕ → ℕ
prio k t = (k.threads t).priority
