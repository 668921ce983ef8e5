-- ===== src/Sched/Safety.antt =====
-- The four status changes of thread.c as their callers see them.
use operation_system.Base.{
  if◌then◌else◌, [], ◌∷◌, ◌==◌, erase, sym, ◌∷◌, sym, erase, ℕ, ◌≡◌, refl, ◌≢◌, true, false, some,
  List, arith, has,
}
use operation_system.Kernel.{Kernel, ready, blocked, dying, intr_off, thread_magic}
use operation_system.Sched.{thread_block, thread_unblock, thread_yield, thread_exit}
use operation_system.Sched.Invariant.{IsValid, front_or}
use operation_system.Sched.Switch.{switched-IsValid}
use operation_system.Sched.Steps.{
  ContextIsOff, unblocked, thread_unblock_lem, unblocked-IsValid, yielding-IsHandover,
  thread_yield_lem, stopped-IsHandover, thread_block_lem, thread_exit_lem,
}

module _ {idle : ℕ} {k : Kernel} (v : IsValid idle k) where
  -- Where the run queue invariant holds, thread_unblock(t) of a blocked thread that has the magic
  -- number and is not the idle thread, with interrupts off if in an external interrupt, fails no
  -- assertion and keeps the run queue invariant; t becomes ready, and the current thread keeps
  -- running.
  pub thread_unblock-IsValid :
      (t : ℕ)
      → (k.threads t).magic ≡ thread_magic
      → (k.threads t).status ≡ blocked
      → t ≢ idle
      → ContextIsOff k
      → (k' : Kernel) × (thread_unblock t k ≡ some k')
        × IsValid idle k'
        × ((k'.threads t).status ≡ ready)
        × (k'.current ≡ k.current)
  thread_unblock-IsValid t m b n c =
      (unblocked t k, thread_unblock_lem t k m b c, unblocked-IsValid t v m b n, ground arith, refl)

  -- Where the run queue invariant holds, thread_yield() outside an external interrupt fails no
  -- assertion and keeps the run queue invariant; it leaves interrupts off for the thread that it
  -- switches to.
  pub thread_yield-IsValid :
      k.in_external_intr ≡ false
      → (k' : Kernel) × (thread_yield k ≡ some k') × IsValid idle k' × (k'.intr_level ≡ intr_off)
  thread_yield-IsValid task =
      (_, thread_yield_lem v task, switched-IsValid (yielding-IsHandover v), refl)

  -- Where the run queue invariant holds, thread_block() outside an external interrupt with
  -- interrupts off fails no assertion and keeps the run queue invariant; the front of the ready
  -- list runs, or the idle thread if it is empty, and unless that is the caller itself the caller
  -- is blocked.
  pub thread_block-IsValid :
      k.in_external_intr ≡ false
      → k.intr_level ≡ intr_off
      → (k' : Kernel) × (thread_block k ≡ some k')
        × IsValid idle k'
        × (k'.current ≡ front_or idle k.ready_list)
        × (k'.current ≢ k.current → (k'.threads k.current).status ≡ blocked)
  thread_block-IsValid task off = (
    _,
    thread_block_lem v task off,
    switched-IsValid (stopped-IsHandover v blocked k.all_list (λ e. cc) (λ e. cc)),
    refl,
    λ n. ground arith,
  )

  front-ne-current :
      (l : List ℕ) → k.ready_list ≡ l → k.current ≢ idle → front_or idle l ≢ k.current
  front-ne-current [] e n = λ q. n (sym q)
  front-ne-current (t ∷ l) e n = λ q. ground (arith, v.queued t, v.cur_running)

  -- Where the run queue invariant holds, thread_exit() of a listed thread other than the idle
  -- thread, outside an external interrupt, fails no assertion and keeps the run queue invariant;
  -- another thread runs, the caller is dying and off the list of all threads by one entry, and its
  -- page is freed unless it is the initial thread's.
  pub thread_exit-IsValid :
      k.in_external_intr ≡ false
      → has k.current k.all_list ≡ true
      → k.current ≢ idle
      → (k' : Kernel) × (thread_exit k ≡ some k')
        × IsValid idle k'
        × (k'.current ≢ k.current)
        × ((k'.threads k.current).status ≡ dying)
        × (k'.all_list ≡ erase k.current k.all_list)
        × (k'.freed ≡ (if k.current == k.initial_thread then k.freed else k.current ∷ k.freed))
  thread_exit-IsValid task listed n = (
    _,
    thread_exit_lem v task listed,
    switched-IsValid (stopped-IsHandover v dying (erase k.current k.all_list) (λ e. cc) (λ e. cc)),
    front-ne-current k.ready_list refl n,
    ground (arith, front-ne-current k.ready_list refl n),
    refl,
    ground (arith, front-ne-current k.ready_list refl n),
  )
