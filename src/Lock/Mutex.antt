-- ===== src/Lock/Mutex.antt =====
-- Mutual exclusion of the locks of synch.c under every interleaving. lock_acquire() and
-- lock_release() enable interrupts between taking the semaphore and writing the holder, and between
-- clearing the holder and giving the semaphore back: there other threads run, and so they do
-- between any two steps here.
use operation_system.Base.{
  ℕ_discrete, update_self, Bool-cases, Option-cases, ◌∙◌, ℕ, ◌+◌, ◌%◌, ◌^◌, ◌≤◌, ◌≡◌, refl, inl,
  inr, true, false, Bool, none, some, arith, update, ap, sym,
}
use operation_system.Kernel.{Kernel}
use operation_system.Sched.{thread_current}
use operation_system.Semaphore.{finished, asleep, sema_down_round, sema_try_down, sema_post}
use operation_system.Lock.{set_holder, lock_init, lock_take, lock_clear}
use operation_system.Lock.Frames.{
  down-finished, down-asleep, try_down-took, take-holder, post-value, clear-holder,
}

-- Where a thread stands with one lock.
pub data Phase : Type 0 where
  outside : Phase
  taken : Phase  -- past sema_down(), before `lock->holder = thread_current()`
  inside : Phase  -- holds the lock
  released : Phase  -- past `lock->holder = NULL`, before sema_up()

abbrev pub busy : Phase → Bool
busy outside = false
busy taken = true
busy inside = true
busy released = true

-- A step of the current thread with the lock, or of anything else that leaves the lock alone.
pub data Step (l : ℕ) (k : Kernel) (ph : ℕ → Phase) : Kernel → (ℕ → Phase) → Type 0 where
  down :
      {k' : Kernel}
      → ph k.current ≡ outside
      → sema_down_round l k ≡ some (finished k')
      → Step l k ph k' (update ph k.current taken)
  sleep :
      {k' : Kernel}
      → ph k.current ≡ outside
      → sema_down_round l k ≡ some (asleep k')
      → Step l k ph k' ph
  try_down :
      {k' : Kernel}
      → ph k.current ≡ outside
      → sema_try_down l k ≡ some (true, k')
      → Step l k ph k' (update ph k.current taken)
  take :
      {k' : Kernel}
      → ph k.current ≡ taken
      → lock_take l k ≡ some k'
      → Step l k ph k' (update ph k.current inside)
  clear : {k' : Kernel} → lock_clear l k ≡ some k' → Step l k ph k' (update ph k.current released)
  post :
      {k' : Kernel}
      → ph k.current ≡ released
      → sema_post l k ≡ some k'
      → Step l k ph k' (update ph k.current outside)
  other :
      {k' : Kernel}
      → (k'.semas l).value ≡ (k.semas l).value
      → k'.holder l ≡ k.holder l
      → Step l k ph k' ph

-- From lock_init() on, with no thread in the lock.
pub data Reach (l : ℕ) : Kernel → (ℕ → Phase) → Type 0 where
  start : (k : Kernel) → Reach l (lock_init l k) (λ _. outside)
  later : {k k' : Kernel} {ph ph' : ℕ → Phase} → Reach l k ph → Step l k ph k' ph' → Reach l k' ph'

pub record Inv (l : ℕ) (k : Kernel) (ph : ℕ → Phase) : Type 0 where
  pub low : (k.semas l).value ≤ 1
  pub free : (k.semas l).value ≡ 1 → (t : ℕ) → busy (ph t) ≡ false
  pub used : (k.semas l).value ≡ 0 → (t : ℕ) × (busy (ph t) ≡ true)
  pub unique : (t u : ℕ) → busy (ph t) ≡ true → busy (ph u) ≡ true → t ≡ u
  pub owner : (t : ℕ) → k.holder l ≡ some t → ph t ≡ inside
  pub holds : (t : ℕ) → ph t ≡ inside → k.holder l ≡ some t

Inv-init : (l : ℕ) (k : Kernel) → Inv l (lock_init l k) (λ _. outside)
unfolding lock_init
Inv-init l k = record {
  low = ground arith;
  free = λ e t. refl;
  used = λ e. absurd (ground arith);
  unique = λ t u p q. cc;
  owner = λ t e. ground arith;
  holds = λ t e. ground arith;
}

module _ {l : ℕ} {k : Kernel} {ph : ℕ → Phase} (v : Inv l k ph) where
  open v use {low, free, used, unique, owner, holds}

  -- The semaphore is taken: nobody was busy, and now the current thread is.
  taken-Inv :
      {k' : Kernel}
      → ph k.current ≡ outside
      → (k.semas l).value ≡ (k'.semas l).value + 1
      → k'.holder l ≡ k.holder l
      → Inv l k' (update ph k.current taken)
  taken-Inv {k'} o e h = record {
    low = omega arith;
    free = λ q t. absurd (omega arith);
    used = λ q. (k.current, ground arith);
    unique = λ t u p q. ground (arith, free (omega arith) t, free (omega arith) u);
    owner = λ t q. ground (arith, owner t, free (omega arith) t);
    holds = λ t q. ground (arith, holds t);
  }

  -- The holder is written by the one busy thread, and it was NULL.
  held-Inv :
      {k' : Kernel}
      → ph k.current ≡ taken
      → (k'.semas l).value ≡ (k.semas l).value
      → k'.holder l ≡ some k.current
      → Inv l k' (update ph k.current inside)
  held-Inv {k'} o e h = record {
    low = omega (arith, low);
    free = λ q t. ground (arith, free (e' q) k.current);
    used = λ q. (k.current, ground arith);
    unique = λ t u p q. ground (arith, unique t k.current, unique u k.current);
    owner = λ t q. ground arith;
    holds = λ t q. ground (arith, unique t k.current);
  }
    where
      e' : (k'.semas l).value ≡ 1 → (k.semas l).value ≡ 1
      e' q = omega arith

  -- The holder gives up the lock, and is the one busy thread.
  cleared-Inv :
      {k' : Kernel}
      → k.holder l ≡ some k.current
      → (k'.semas l).value ≡ (k.semas l).value
      → k'.holder l ≡ none
      → Inv l k' (update ph k.current released)
  cleared-Inv {k'} o e h = record {
    low = omega (arith, low);
    free = λ q t. ground (arith, owner k.current o, free (omega arith) k.current);
    used = λ q. (k.current, ground arith);
    unique = λ t u p q. ground (arith, owner k.current o, unique t k.current, unique u k.current);
    owner = λ t q. ground arith;
    holds = λ t q. ground (arith, owner k.current o, unique t k.current);
  }

  -- The value goes back up, and nobody is busy.
  posted-Inv :
      {k' : Kernel}
      → ph k.current ≡ released
      → (k'.semas l).value ≡ ((k.semas l).value + 1) % 2 ^ 32
      → k'.holder l ≡ k.holder l
      → Inv l k' (update ph k.current outside)
  posted-Inv {k'} o e h = record {
    low = omega (arith, zero_value);
    free = λ q t. ground (arith, unique t k.current, Bool-cases (busy (ph t)));
    used = λ q. absurd (omega (arith, zero_value));
    unique = λ t u p q. ground (arith, unique t k.current, unique u k.current);
    owner = λ t q. ground (arith, owner t, unique t k.current);
    holds = λ t q. ground (arith, holds t);
  }
    where
      zero_value : (k.semas l).value ≡ 0
      zero_value = elim (ℕ_discrete (k.semas l).value 1) [
        | yes one ↦ ground (arith, free one k.current)
        | no two ↦ omega (arith, low)
      ]

  same-Inv :
      {k' : Kernel}
      → (k'.semas l).value ≡ (k.semas l).value
      → k'.holder l ≡ k.holder l
      → Inv l k' ph
  same-Inv {k'} e h = record {
    low = omega (arith, low);
    free = λ q t. free (omega arith) t;
    used = λ q. used (omega arith);
    unique = unique;
    owner = λ t q. owner t (sym h ∙ q);
    holds = λ t q. h ∙ holds t q;
  }

Step-Inv :
    {l : ℕ} {k k' : Kernel} {ph ph' : ℕ → Phase} → Inv l k ph → Step l k ph k' ph' → Inv l k' ph'
Step-Inv {l} {k} v (down {k' = j} o e) =
    let (p, q, h, c) = down-finished l k j e in taken-Inv v {k' = j} o q (ap (λ f. f l) h)
Step-Inv {l} {k} v (sleep {k' = j} o e) =
    let (p, q, h) = down-asleep l k j e in same-Inv v {k' = j} (q ∙ sym p) (ap (λ f. f l) h)
Step-Inv {l} {k} v (try_down {k' = j} o e) =
    let (q, h, c) = try_down-took l k j e in taken-Inv v {k' = j} o q (ap (λ f. f l) h)
Step-Inv {l} {k} v (take {k' = j} o e) =
    let (n, h, q) = take-holder l k j e in
    held-Inv v {k' = j} o (ap (λ f. (f l).value) q) (ap (λ f. f l) h ∙ update_self k.holder l _)
Step-Inv {l} {k} v (clear {k' = j} e) =
    let (o, h, q) = clear-holder l k j e in
    cleared-Inv v {k' = j} o (ap (λ f. (f l).value) q) (ap (λ f. f l) h ∙ update_self k.holder l _)
Step-Inv {l} {k} v (post {k' = j} o e) =
    let (q, h) = post-value l k j e in posted-Inv v {k' = j} o q (ap (λ f. f l) h)
Step-Inv v (other {k' = j} e h) = same-Inv v {k' = j} e h

pub Reach-Inv : {l : ℕ} {k : Kernel} {ph : ℕ → Phase} → Reach l k ph → Inv l k ph
Reach-Inv {l} (start k) = Inv-init l k
Reach-Inv (later r st) = Step-Inv (Reach-Inv r) st

-- In every state reachable from lock_init(), at most one thread is between sema_down() and
-- sema_up() of the lock, the holder's part included.
pub mutual_exclusion :
    {l : ℕ} {k : Kernel} {ph : ℕ → Phase}
    → Reach l k ph
    → (t u : ℕ) → busy (ph t) ≡ true
    → busy (ph u) ≡ true
    → t ≡ u
mutual_exclusion r t u p q = (Reach-Inv r).unique t u p q

-- `ASSERT(lock->holder == NULL)` in lock_acquire() never fails: in every reachable state in which
-- the current thread has taken the semaphore and passes the checks of thread_current(), writing the
-- holder succeeds, and then the lock is that thread's.
pub lock_take-succeeds :
    {l : ℕ} {k : Kernel} {ph : ℕ → Phase}
    → Reach l k ph
    → ph k.current ≡ taken
    → thread_current k ≡ some k.current
    → (k' : Kernel) × (lock_take l k ≡ some k') × (k'.holder l ≡ some k.current)
unfolding lock_take
lock_take-succeeds {l} {k} {ph} r p c =
    (set_holder l (some k.current) k, ground (arith, vacant), ground arith)
  where
    vacant : k.holder l ≡ none
    vacant = elim (Option-cases (k.holder l)) [
      | inl q ↦ q
      | inr (t, q) ↦ ground (arith, (Reach-Inv r).owner t q, (Reach-Inv r).unique t k.current)
    ]
