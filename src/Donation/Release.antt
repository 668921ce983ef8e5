-- ===== src/Donation/Release.antt =====
-- Registering a donation, and ending the donations for a lock.
use operation_system.Base.{
  ◌||◌, ◌&&◌, ℕ, ◌≡◌, refl, inl, inr, false, Bool, Option, none, some, List, [], ◌∷◌, arith, ◌==◌,
  if◌then◌else◌, Bool-cases,
}
use operation_system.Kernel.{Kernel, DonateElem, prio}
use operation_system.Donation.{clear_waiting, drop_donations}

-- The entries for other locks, in their order.
abbrev pub others : ℕ → List DonateElem → List DonateElem
others l [] = []
others l (d ∷ ds) = if d.lock == l then others l ds else d ∷ others l ds

-- `t` has an entry for `l` on the list.
abbrev pub donates : ℕ → ℕ → List DonateElem → Bool
donates l t [] = false
donates l t (d ∷ ds) = (d.lock == l && d.donor == t) || donates l t ds

-- What a thread waits for once the donations for `l` have ended.
abbrev pub waits_after : ℕ → ℕ → List DonateElem → Kernel → Option ℕ
waits_after l t ds k = elim (k.threads t).waiting_lock [
  | none ↦ none
  | some m ↦ if m == l && donates l t ds then none else some m
]

module _ (l : ℕ) where
  clear_waiting-waiting :
      (d t : ℕ) (k : Kernel)
      → ((clear_waiting l d k).threads t).waiting_lock ≡ (elim (k.threads t).waiting_lock [
        | none ↦ none
        | some m ↦ if m == l && d == t then none else some m
      ])
  unfolding clear_waiting
  clear_waiting-waiting d t k = ground arith

  pub clear_waiting-frame :
      (d t : ℕ) (k : Kernel)
      → let k' = clear_waiting l d k in
        (prio k' t ≡ prio k t)
        × ((k'.threads t).status ≡ (k.threads t).status)
        × ((k'.threads t).donate_priority ≡ (k.threads t).donate_priority)
        × ((k'.threads t).base_priority ≡ (k.threads t).base_priority)
        × (k'.holder ≡ k.holder)
        × (k'.semas ≡ k.semas)
  unfolding clear_waiting
  clear_waiting-frame d t k =
      (ground arith, ground arith, ground arith, ground arith, ground arith, ground arith)

  drop_donations-kept :
      (ds : List DonateElem) (k : Kernel) → (drop_donations l ds k).0 ≡ others l ds
  unfolding drop_donations
  drop_donations-kept [] k = refl
  drop_donations-kept (d ∷ ds) k =
      ground (arith, drop_donations-kept ds (if d.lock == l then clear_waiting l d.donor k else k))

  drop_donations-waiting :
      (ds : List DonateElem) (t : ℕ) (k : Kernel)
      → ((drop_donations l ds k).1.threads t).waiting_lock ≡ waits_after l t ds k
  unfolding drop_donations
  drop_donations-waiting [] t k = ground arith
  drop_donations-waiting (d ∷ ds) t k = elim (Bool-cases (d.lock == l)) [
    | inl e ↦ rw e (
        ground (
          arith,
          drop_donations-waiting ds t (clear_waiting l d.donor k),
          clear_waiting-waiting d.donor t k,
        ))
    | inr e ↦ rw e (ground (arith, drop_donations-waiting ds t k))
  ]

  pub drop_donations-frame :
      (ds : List DonateElem) (t : ℕ) (k : Kernel)
      → let k' = (drop_donations l ds k).1 in
        (prio k' t ≡ prio k t)
        × ((k'.threads t).status ≡ (k.threads t).status)
        × ((k'.threads t).donate_priority ≡ (k.threads t).donate_priority)
        × ((k'.threads t).base_priority ≡ (k.threads t).base_priority)
        × (k'.holder ≡ k.holder)
        × (k'.semas ≡ k.semas)
  unfolding drop_donations
  drop_donations-frame [] t k = (refl, refl, refl, refl, refl, refl)
  drop_donations-frame (d ∷ ds) t k = elim (Bool-cases (d.lock == l)) [
    | inl e ↦ rw e (
        ground (
          arith,
          drop_donations-frame ds t (clear_waiting l d.donor k),
          clear_waiting-frame d.donor t k,
        ))
    | inr e ↦ rw e (drop_donations-frame ds t k)
  ]

  -- The loop of lock_release keeps just the donations for other locks, in their order; each thread
  -- that donates for the lock and waits for it waits no longer, and no other wait ends; it changes
  -- no priority, base priority, status or donors' list in the store, no holder and no semaphore.
  pub drop_donations_lem :
      (ds : List DonateElem) (k : Kernel)
      → ((drop_donations l ds k).0 ≡ others l ds)
        × ((t : ℕ) → ((drop_donations l ds k).1.threads t).waiting_lock ≡ waits_after l t ds k)
        × ((t : ℕ)
            → let k' = (drop_donations l ds k).1 in
              (prio k' t ≡ prio k t)
              × ((k'.threads t).status ≡ (k.threads t).status)
              × ((k'.threads t).donate_priority ≡ (k.threads t).donate_priority)
              × ((k'.threads t).base_priority ≡ (k.threads t).base_priority)
              × (k'.holder ≡ k.holder)
              × (k'.semas ≡ k.semas))
  drop_donations_lem ds k = (
    drop_donations-kept ds k,
    λ t. drop_donations-waiting ds t k,
    λ t. drop_donations-frame ds t k,
  )
