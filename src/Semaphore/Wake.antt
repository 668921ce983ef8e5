-- ===== src/Semaphore/Wake.antt =====
-- sema_up: which waiter it wakes.
use operation_system.Base.{
  All-middle, ℕ, ◌+◌, ◌%◌, ◌^◌, ◌≤◌, ◌<◌, ◌≡◌, refl, true, false, Bool, some, List, [], ◌∷◌, ◌++◌,
  arith, ap, ◌∙◌, subst, All, All-map, erase, has,
}
use operation_system.Kernel.{Kernel, prio, ready, blocked, thread_magic}
use operation_system.KernelList.{list_min}
use operation_system.KernelList.Ordered.{IsWeakOrder, list_min-first}
use operation_system.Sched.{priority_greater}
use operation_system.Sched.Steps.{ContextIsOff, unblocked, thread_unblock_lem}
use operation_system.Semaphore.{thread_priority_greater, sema_post, set_sema}
use operation_system.KernelList.Address.{has-insert_ordered}

thread_priority_greater-IsWeakOrder : (k : Kernel) → IsWeakOrder (thread_priority_greater k)
unfolding thread_priority_greater
thread_priority_greater-IsWeakOrder k = record {
  asym = λ x y h. ground arith;
  chain = λ x y z h g. ground arith;
}

list_min-some :
    (less : ℕ → ℕ → Bool) (x : ℕ) (xs : List ℕ) → (t : ℕ) × (list_min less (x ∷ xs) ≡ some t)
unfolding list_min
list_min-some less x xs = (_, refl)

erase-append :
    (t : ℕ) (front back : List ℕ)
    → has t front ≡ false
    → erase t (front ++ (t ∷ back)) ≡ front ++ back
erase-append t [] back h = ground arith
erase-append t (x ∷ front) back h = ground (arith, erase-append t front back)

not-has-front :
    (k : Kernel) (t : ℕ) (front : List ℕ)
    → All (λ u. thread_priority_greater k t u ≡ true) front
    → has t front ≡ false
unfolding thread_priority_greater
not-has-front k t [] h = refl
not-has-front k t (x ∷ front) h = ground (arith, not-has-front k t front h.1, ap (prio k))

All-higher :
    (k : Kernel) (t : ℕ) (l : List ℕ)
    → All (λ u. thread_priority_greater k t u ≡ true) l
    → All (λ u. prio k u < prio k t) l
unfolding thread_priority_greater
All-higher k t l h = All-map (λ u q. ground arith) l h

All-not_higher :
    (k : Kernel) (t : ℕ) (l : List ℕ)
    → All (λ u. thread_priority_greater k u t ≡ false) l
    → All (λ u. prio k u ≤ prio k t) l
unfolding thread_priority_greater
All-not_higher k t l h = All-map (λ u q. ground arith) l h

module _ (s t : ℕ) (k : Kernel) where
  abbrev dequeued : Kernel
  dequeued = set_sema s (record (k.semas s) { waiters = erase t (k.semas s).waiters }) k

  abbrev posted : Kernel
  posted =
      set_sema s
        (record { waiters = erase t (k.semas s).waiters; value = ((k.semas s).value + 1) % 2 ^ 32 })
        (unblocked t dequeued)

  sema_post_lem :
      list_min (thread_priority_greater k) (k.semas s).waiters ≡ some t
      → (k.threads t).magic ≡ thread_magic
      → (k.threads t).status ≡ blocked
      → ContextIsOff k
      → sema_post s k ≡ some posted
  unfolding sema_post
  sema_post_lem e m b c = ground (arith, thread_unblock_lem t dequeued m b c)

  posted-ready : ((posted.threads t).status ≡ ready) × (has t posted.ready_list ≡ true)
  posted-ready = (
    ground arith,
    ground (arith, has-insert_ordered (priority_greater dequeued) t t k.ready_list),
  )

  posted-waiters : (posted.semas s).waiters ≡ erase t (k.semas s).waiters
  posted-waiters = ground arith

  posted-value : (posted.semas s).value ≡ ((k.semas s).value + 1) % 2 ^ 32
  posted-value = ground arith

-- sema_up() on a semaphore with waiters, before it yields: where the waiters are blocked threads
-- and an external interrupt runs with interrupts off, it wakes the waiter that has a higher
-- priority than all before it and no lower one than any behind it, which becomes ready and leaves
-- the list; the others keep their order, and the value goes up by one, modulo 2^32.
pub sema_post-wakes_highest :
    (s w : ℕ) (ws : List ℕ) (k : Kernel)
    → (k.semas s).waiters ≡ w ∷ ws
    → All (λ t. ((k.threads t).magic ≡ thread_magic) × ((k.threads t).status ≡ blocked)) (w ∷ ws)
    → ContextIsOff k
    → (k' : Kernel) × (t : ℕ) × (front back : List ℕ) × (sema_post s k ≡ some k')
      × (w ∷ ws ≡ front ++ (t ∷ back))
      × All (λ u. prio k u < prio k t) front
      × All (λ u. prio k u ≤ prio k t) back
      × ((k'.threads t).status ≡ ready)
      × (has t k'.ready_list ≡ true)
      × ((k'.semas s).waiters ≡ front ++ back)
      × ((k'.semas s).value ≡ ((k.semas s).value + 1) % 2 ^ 32)
sema_post-wakes_highest s w ws k e bl c = (
  posted s t k,
  t,
  front,
  back,
  sema_post_lem s t k (rw e m) both.0 both.1 c,
  q,
  All-higher k t front f,
  All-not_higher k t back b,
  (posted-ready s t k).0,
  (posted-ready s t k).1,
  posted-waiters s t k
      ∙ (ap (erase t) (e ∙ q) ∙ erase-append t front back (not-has-front k t front f)),
  posted-value s t k,
)
  where
    chosen : (t : ℕ) × (list_min (thread_priority_greater k) (w ∷ ws) ≡ some t)
    chosen = list_min-some (thread_priority_greater k) w ws

    open chosen use {«0» as t, «1» as m}

    split :
        (front back : List ℕ) × (w ∷ ws ≡ front ++ (t ∷ back))
        × All (λ u. thread_priority_greater k t u ≡ true) front
        × All (λ u. thread_priority_greater k u t ≡ false) back
    split =
        list_min-first (thread_priority_greater k) (thread_priority_greater-IsWeakOrder k) (w ∷ ws)
          t m

    open split use {«0» as front, «1» as back, «2» as q, «3» as f, «4» as b}

    both : ((k.threads t).magic ≡ thread_magic) × ((k.threads t).status ≡ blocked)
    both =
        All-middle (λ u. ((k.threads u).magic ≡ thread_magic) × ((k.threads u).status ≡ blocked))
          front t back (subst (All _) q bl)
