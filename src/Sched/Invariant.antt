-- ===== src/Sched/Invariant.antt =====
-- The run queue invariant of thread.c, and the one rule for schedule() that its callers share.
use operation_system.Base.{
  ap₂, ap₂, sym, ap, ◌∙◌, ℕ, ◌≤◌, ◌≡◌, refl, ◌≢◌, true, false, not, ◌&&◌, none, some, List, [], ◌∷◌,
  arith, ◌==◌, if◌then◌else◌, has, count,
}
use operation_system.Kernel.{Kernel, running, ready, dying, intr_off, thread_magic, set_status}
use operation_system.Sched.{status_is, next_thread_to_run, thread_schedule_tail, schedule}

-- The ready list holds just the ready threads, each once, and never the idle thread, which exists.
pub record IsQueued (idle : ℕ) (k : Kernel) : Type 0 where
  pub idle_thread : k.idle_thread ≡ some idle
  pub idle_magic : (k.threads idle).magic ≡ thread_magic
  pub idle_off : has idle k.ready_list ≡ false
  pub queued : (t : ℕ) → has t k.ready_list ≡ true → (k.threads t).status ≡ ready
  pub magic : (t : ℕ) → has t k.ready_list ≡ true → (k.threads t).magic ≡ thread_magic
  pub once : (t : ℕ) → count t k.ready_list ≤ 1
  pub complete : (t : ℕ) → (k.threads t).status ≡ ready → t ≢ idle → has t k.ready_list ≡ true

-- Besides, the current thread is the one that is running.
pub record IsValid (idle : ℕ) (k : Kernel) : Type 0 where
  pub run_queue : IsQueued idle k
  pub open run_queue use *
  pub cur_magic : (k.threads k.current).magic ≡ thread_magic
  pub cur_running : (k.threads k.current).status ≡ running
  pub only_running : (t : ℕ) → (k.threads t).status ≡ running → t ≡ k.current

-- schedule() is entered with interrupts off and nobody running.
pub record IsHandover (idle : ℕ) (k : Kernel) : Type 0 where
  pub run_queue : IsQueued idle k
  pub open run_queue use *
  pub off : k.intr_level ≡ intr_off
  pub none_running : (t : ℕ) → (k.threads t).status ≢ running

-- The thread that next_thread_to_run() chooses, and what it leaves on the list.
abbrev pub front_or : ℕ → List ℕ → ℕ
front_or idle [] = idle
front_or idle (t ∷ ts) = t

abbrev pub rest : List ℕ → List ℕ
rest [] = []
rest (t ∷ ts) = ts

-- The state after the switch.
abbrev pub switched : ℕ → Kernel → Kernel
switched next k = record (set_status next running k) {
  ready_list = rest k.ready_list;
  current = next;
  thread_ticks = 0;
  freed =
      if not (k.current == next)
        && (status_is dying k.current k && not (k.current == k.initial_thread))
      then k.current ∷ k.freed
      else k.freed;
}

next_lem :
    (idle : ℕ) (k : Kernel) (l : List ℕ)
    → k.idle_thread ≡ some idle
    → k.ready_list ≡ l
    → next_thread_to_run k ≡ some (front_or idle l, record k { ready_list = rest l })
unfolding next_thread_to_run
next_lem idle k [] h e = ground arith
next_lem idle k (t ∷ ts) h e = ground arith

tail_lem :
    (k : Kernel) (prev next : ℕ) (l : List ℕ)
    → k.intr_level ≡ intr_off
    → thread_schedule_tail
        (if prev == next then none else some prev)
        (record k { current = next; ready_list = l })
      ≡ some (record (set_status next running k) {
        ready_list = l;
        current = next;
        thread_ticks = 0;
        freed =
            if not (prev == next) && (status_is dying prev k && not (prev == k.initial_thread))
            then prev ∷ k.freed
            else k.freed;
      })
unfolding thread_schedule_tail
tail_lem k prev next l off = ground arith

module _ {idle : ℕ} {k : Kernel} (h : IsHandover idle k) where
  abbrev next : ℕ
  next = front_or idle k.ready_list

  front_magic : (l : List ℕ) → k.ready_list ≡ l → (k.threads (front_or idle l)).magic ≡ thread_magic
  front_magic [] e = h.idle_magic
  front_magic (t ∷ ts) e = ground (arith, h.magic t)

  -- schedule() never fails an assertion, and runs the front of the ready list, or the idle thread.
  pub schedule_lem : schedule k ≡ some (switched (front_or idle k.ready_list) k)
  unfolding schedule
  schedule_lem = ground (
    arith,
    next_lem idle k k.ready_list h.idle_thread refl,
    h.off,
    h.none_running k.current,
    front_magic k.ready_list refl,
    tail_lem k k.current next (rest k.ready_list) h.off,
  )

-- The invariant reads only four fields.
pub IsValid-frame :
    {idle : ℕ} {k : Kernel} (k' : Kernel)
    → IsValid idle k
    → k'.threads ≡ k.threads
    → k'.ready_list ≡ k.ready_list
    → k'.idle_thread ≡ k.idle_thread
    → k'.current ≡ k.current
    → IsValid idle k'
IsValid-frame {idle} {k} k' v th rl it cu = record {
  run_queue = record {
    idle_thread = it ∙ v.idle_thread;
    idle_magic = ap (λ f. (f idle).magic) th ∙ v.idle_magic;
    idle_off = ap (has idle) rl ∙ v.idle_off;
    queued = λ t p. ap (λ f. (f t).status) th ∙ v.queued t (sym (ap (has t) rl) ∙ p);
    magic = λ t p. ap (λ f. (f t).magic) th ∙ v.magic t (sym (ap (has t) rl) ∙ p);
    once = λ t. omega (arith, v.once t, ap (count t) rl);
    complete = λ t p n. ap (has t) rl ∙ v.complete t (sym (ap (λ f. (f t).status) th) ∙ p) n;
  };
  cur_magic = ap₂ (λ f c. (f c).magic) th cu ∙ v.cur_magic;
  cur_running = ap₂ (λ f c. (f c).status) th cu ∙ v.cur_running;
  only_running = λ t p. v.only_running t (sym (ap (λ f. (f t).status) th) ∙ p) ∙ sym cu;
}
