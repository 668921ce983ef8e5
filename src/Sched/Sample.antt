-- ===== src/Sched/Sample.antt =====
-- A kernel with a running thread 1, the ready threads 2 and 3, the blocked thread 4 and the idle
-- thread 9.
use operation_system.Base.{ℕ, refl, false, none, some, [], ◌∷◌, arith, ◌==◌, if◌then◌else◌}
use operation_system.Base.Int.{pos}
use operation_system.Kernel.{
  Kernel, Thread, Status, running, ready, blocked, intr_on, intr_off, thread_magic,
}
use operation_system.Sched.Invariant.{IsValid}
use operation_system.Sched.Priority.{IsHighest}

abbrev pub sample_status : ℕ → Status
sample_status t =
    if t == 1 then running else if t == 2 then ready else if t == 3 then ready else blocked

-- The priorities are 31, 31, 20, 50 and 0.
abbrev pub sample_priority : ℕ → ℕ
sample_priority t =
    if t == 1 then 31 else if t == 2 then 31 else if t == 3 then 20 else if t == 4 then 50 else 0

abbrev pub sample_thread : ℕ → Thread
sample_thread t = record {
  tid = t;
  status = sample_status t;
  name = [];
  stack = 8192;
  base_priority = sample_priority t;
  donate_priority = [];
  priority = sample_priority t;
  waiting_lock = none;
  nice = pos 0;
  recent_cpu = pos 0;
  magic = thread_magic;
}

abbrev pub sample : Kernel
sample = record {
  threads = sample_thread;
  semas = λ s. record { value = 0; waiters = [] };
  holder = λ l. none;
  conds = λ c. [];
  ready_list = 2 ∷ 3 ∷ [];
  all_list = 1 ∷ 9 ∷ 2 ∷ 3 ∷ 4 ∷ [];
  idle_thread = some 9;
  initial_thread = 7;
  current = 1;
  intr_level = intr_on;
  in_external_intr = false;
  yield_on_return = false;
  thread_ticks = 0;
  idle_ticks = 0;
  kernel_ticks = 0;
  load_avg = pos 0;
  thread_mlfqs = false;
  next_tid = 5;
  ticks = 10;
  sleep_list = [];
  freed = [];
}

abbrev pub sample_off : Kernel
sample_off = record sample { intr_level = intr_off }

pub sample-IsValid : IsValid 9 sample
sample-IsValid = record {
  run_queue = record {
    idle_thread = refl;
    idle_magic = refl;
    idle_off = refl;
    queued = λ t p. ground arith;
    magic = λ t p. refl;
    once = λ t. ground arith;
    complete = λ t p n. ground arith;
  };
  cur_magic = refl;
  cur_running = refl;
  only_running = λ t p. ground arith;
}

pub sample-IsHighest : IsHighest sample
sample-IsHighest = record { ordered = ((omega arith, tt), (tt, tt)); highest = λ t p. ground arith }
