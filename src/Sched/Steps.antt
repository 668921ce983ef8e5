-- ===== src/Sched/Steps.antt =====
-- thread_unblock, thread_block, thread_yield and thread_exit keep the run queue invariant, and fail
-- no assertion where it holds.
use operation_system.Base.{
  count-has, ℕ, ◌≡◌, refl, ◌≢◌, true, false, some, List, arith, if◌then◌else◌, has, erase,
}
use operation_system.Kernel.{
  Kernel, Status, running, ready, blocked, dying, intr_off, thread_magic, set_status,
}
use operation_system.KernelList.{insert_ordered}
use operation_system.KernelList.Address.{has-insert_ordered, count-insert_ordered}
use operation_system.Interrupt.{intr_set_level}
use operation_system.Sched.{
  is_idle, priority_greater, thread_block, thread_unblock, thread_yield, thread_exit,
}
use operation_system.Sched.Invariant.{IsValid, IsHandover, front_or, switched, schedule_lem}

-- The state that thread_unblock(t) leaves.
abbrev pub unblocked : ℕ → Kernel → Kernel
unblocked t k = record (set_status t ready k) {
  ready_list = insert_ordered (priority_greater k) t k.ready_list;
}

-- An external interrupt runs with interrupts off.
abbrev pub ContextIsOff : Kernel → Type 0
ContextIsOff k = k.in_external_intr ≡ true → k.intr_level ≡ intr_off

pub thread_unblock_lem :
    (t : ℕ) (k : Kernel)
    → (k.threads t).magic ≡ thread_magic
    → (k.threads t).status ≡ blocked
    → ContextIsOff k
    → thread_unblock t k ≡ some (unblocked t k)
unfolding thread_unblock intr_set_level
thread_unblock_lem t k m b c = ground arith

pub unblocked-IsValid :
    {idle : ℕ} (t : ℕ) {k : Kernel}
    → IsValid idle k
    → (k.threads t).magic ≡ thread_magic
    → (k.threads t).status ≡ blocked
    → t ≢ idle
    → IsValid idle (unblocked t k)
unblocked-IsValid {idle} t {k} v m b n = record {
  run_queue = record {
    idle_thread = v.idle_thread;
    idle_magic = ground (arith, v.idle_magic);
    idle_off =
        ground (arith, v.idle_off, has-insert_ordered (priority_greater k) idle t k.ready_list);
    queued =
        λ u p. ground (arith, v.queued u, has-insert_ordered (priority_greater k) u t k.ready_list);
    magic =
        λ u p. ground (arith, v.magic u, has-insert_ordered (priority_greater k) u t k.ready_list);
    once = λ u. ground (
      arith,
      v.once u,
      v.queued u,
      count-insert_ordered (priority_greater k) u t k.ready_list,
      count-has u k.ready_list,
    );
    complete = λ u p q.
        ground (arith, v.complete u, has-insert_ordered (priority_greater k) u t k.ready_list);
  };
  cur_magic = ground (arith, v.cur_magic);
  cur_running = ground (arith, v.cur_running);
  only_running = λ u p. ground (arith, v.only_running u);
}

module _ {idle : ℕ} {k : Kernel} (v : IsValid idle k) where
  open v use {cur_magic, cur_running, only_running, queued, magic, once, complete, idle_off}

  -- The current thread blocks or dies.
  pub stopped-IsHandover :
      (s : Status) (all : List ℕ)
      → s ≢ ready
      → s ≢ running
      → IsHandover idle
          (record (set_status k.current s k) { all_list = all; intr_level = intr_off })
  stopped-IsHandover s all n r = record {
    run_queue = record {
      idle_thread = v.idle_thread;
      idle_magic = ground (arith, v.idle_magic);
      idle_off = idle_off;
      queued = λ u p. ground (arith, queued u);
      magic = λ u p. ground (arith, magic u);
      once = once;
      complete = λ u p q. ground (arith, complete u);
    };
    off = refl;
    none_running = λ u p. ground (arith, only_running u);
  }

  -- The state in which thread_yield() calls schedule().
  abbrev pub yielding : Kernel
  yielding = record (set_status k.current ready k) {
    ready_list =
        if is_idle k k.current
        then k.ready_list
        else insert_ordered (priority_greater k) k.current k.ready_list;
    intr_level = intr_off;
  }

  pub yielding-IsHandover : IsHandover idle yielding
  yielding-IsHandover = record {
    run_queue = record {
      idle_thread = v.idle_thread;
      idle_magic = ground (arith, v.idle_magic);
      idle_off = ground (
        arith,
        idle_off,
        v.idle_thread,
        has-insert_ordered (priority_greater k) idle k.current k.ready_list,
      );
      queued = λ u p.
          ground
            (arith, queued u, has-insert_ordered (priority_greater k) u k.current k.ready_list);
      magic = λ u p. ground (
        arith,
        magic u,
        cur_magic,
        has-insert_ordered (priority_greater k) u k.current k.ready_list,
      );
      once = λ u. ground (
        arith,
        once u,
        queued u,
        cur_running,
        count-insert_ordered (priority_greater k) u k.current k.ready_list,
        count-has u k.ready_list,
      );
      complete = λ u p q. ground (
        arith,
        complete u,
        v.idle_thread,
        has-insert_ordered (priority_greater k) u k.current k.ready_list,
      );
    };
    off = refl;
    none_running = λ u p. ground (arith, only_running u);
  }

  module _ (task : k.in_external_intr ≡ false) where
    pub thread_yield_lem :
        thread_yield k ≡ some (switched (front_or idle yielding.ready_list) yielding)
    unfolding thread_yield
    thread_yield_lem =
        ground (arith, cur_magic, cur_running, task, schedule_lem yielding-IsHandover)

    -- thread_block() with interrupts off.
    pub thread_block_lem :
        k.intr_level ≡ intr_off
        → thread_block k
          ≡ some (
              switched
                (front_or idle k.ready_list)
                (record (set_status k.current blocked k) { intr_level = intr_off }))
    unfolding thread_block
    thread_block_lem off = ground (
      arith,
      cur_magic,
      cur_running,
      task,
      schedule_lem (stopped-IsHandover blocked k.all_list (λ e. cc) (λ e. cc)),
    )

    abbrev pub exiting : Kernel
    exiting = record (set_status k.current dying k) {
      all_list = erase k.current k.all_list;
      intr_level = intr_off;
    }

    pub thread_exit_lem :
        has k.current k.all_list ≡ true
        → thread_exit k ≡ some (switched (front_or idle k.ready_list) exiting)
    unfolding thread_exit
    thread_exit_lem listed = ground (
      arith,
      cur_magic,
      cur_running,
      task,
      schedule_lem (stopped-IsHandover dying (erase k.current k.all_list) (λ e. cc) (λ e. cc)),
    )
