-- ===== src/Lock/Inherit.antt =====
-- Priority inheritance: what the donation of lock_acquire() achieves.
use operation_system.Base.{
  ==→eq, ◌⊎◌, ==-refl, ℕ, ◌+◌, ◌<◌, ◌≡◌, refl, false, Bool, some, List, [], ◌∷◌, arith, ◌==◌,
  if◌then◌else◌, Bool-cases, inl, inr, ap, sym, ◌∙◌, subst,
}
use operation_system.Kernel.{set_thread, Kernel, DonateElem, prio}
use operation_system.KernelList.{insert_ordered}
use operation_system.Donation.{donor_greater, donate, donate_chain}
use operation_system.Donation.Update.{Donor, here, there}
use operation_system.Donation.Chain.{
  WaitsFor, Registered, SettledBut, Settled, donate_chain-Settled, donate_chain-total,
  donate_chain-WaitsFor,
}
use operation_system.Sched.{thread_current}
use operation_system.Lock.{lock_donate}

insert_ordered-Donor_new :
    (f : DonateElem → DonateElem → Bool) (d : DonateElem) (ds : List DonateElem)
    → Donor d.donor (insert_ordered f d ds)
unfolding insert_ordered
insert_ordered-Donor_new f d [] = here refl
insert_ordered-Donor_new f d (e ∷ ds) = elim (Bool-cases (f d e)) [
  | inl p ↦ rw p (here refl)
  | inr p ↦ rw p (there (insert_ordered-Donor_new f d ds))
]

insert_ordered-Donor :
    (f : DonateElem → DonateElem → Bool) (d : DonateElem) (u : ℕ) (ds : List DonateElem)
    → Donor u ds
    → Donor u (insert_ordered f d ds)
unfolding insert_ordered
insert_ordered-Donor f d u [] h = elim h [ ]
insert_ordered-Donor f d u (e ∷ ds) (here q) = elim (Bool-cases (f d e)) [
  | inl p ↦ rw p (there (here q))
  | inr p ↦ rw p (here q)
]
insert_ordered-Donor f d u (e ∷ ds) (there q) = elim (Bool-cases (f d e)) [
  | inl p ↦ rw p (there (there q))
  | inr p ↦ rw p (there (insert_ordered-Donor f d u ds q))
]

module _ (l cur h : ℕ) (k : Kernel) where
  abbrev donated : Kernel
  donated = donate l cur h k

  donate-prio : (t : ℕ) → prio donated t ≡ prio k t
  unfolding donate
  donate-prio t = ground arith

  donate-holder : (m : ℕ) → donated.holder m ≡ k.holder m
  unfolding donate
  donate-holder m = refl

  donate-waiting :
      (t : ℕ)
      → (donated.threads t).waiting_lock ≡ (if cur == t then some l else (k.threads t).waiting_lock)
  unfolding donate
  donate-waiting t = ground arith

  abbrev waiting : Kernel
  waiting = set_thread cur (record (k.threads cur) { waiting_lock = some l }) k

  donate-list :
      (t : ℕ)
      → (donated.threads t).donate_priority ≡ (
          if h == t
          then insert_ordered
              (donor_greater waiting)
              (record { lock = l; donor = cur })
              (k.threads t).donate_priority
          else (k.threads t).donate_priority)
  unfolding donate
  donate-list t = ground arith

  donate-Donor_new : Donor cur (donated.threads h).donate_priority
  donate-Donor_new =
      rw (donate-list h, ==-refl h)
        (insert_ordered-Donor_new _ (record { lock = l; donor = cur }) _)

  donate-Donor :
      (u t : ℕ)
      → Donor u (k.threads t).donate_priority
      → Donor u (donated.threads t).donate_priority
  donate-Donor u t d = elim (Bool-cases (h == t)) [
    | inl e ↦
        rw (donate-list t, e) (insert_ordered-Donor _ (record { lock = l; donor = cur }) u _ d)
    | inr e ↦ rw (donate-list t, e) d
  ]

  -- A wait after the donation is the new one, or one from before.
  donate-WaitsFor :
      k.holder l ≡ some h
      → (u t : ℕ) → WaitsFor donated u t
      → ((u ≡ cur) × (t ≡ h)) ⊎ (WaitsFor k u t)
  donate-WaitsFor o u t (m, w, q) = elim (Bool-cases (cur == u)) [
    | inl e ↦
        inl (sym (==→eq cur u e), ground (arith, donate-waiting u, w, e, donate-holder m, q, o))
    | inr e ↦ inr (m, ground (arith, donate-waiting u, w, e), sym (donate-holder m) ∙ q)
  ]

  donate-Registered : k.holder l ≡ some h → Registered k → Registered donated
  donate-Registered o r u t w = elim (donate-WaitsFor o u t w) [
    | inl (e, g) ↦
        subst (λ x. Donor x (donated.threads t).donate_priority) (sym e)
          (subst (λ x. Donor cur (donated.threads x).donate_priority) (sym g) donate-Donor_new)
    | inr v ↦ donate-Donor u t (r u t v)
  ]

  donate-SettledBut : k.holder l ≡ some h → Settled k → SettledBut (some h) donated
  donate-SettledBut o s u t w n = elim (donate-WaitsFor o u t w) [
    | inl (e, g) ↦ absurd (n (ap some (sym g)))
    | inr v ↦ omega (arith, s u t v, donate-prio u, donate-prio t)
  ]

lock_donate_lem :
    (fuel l h : ℕ) (k : Kernel)
    → k.thread_mlfqs ≡ false
    → k.holder l ≡ some h
    → thread_current k ≡ some k.current
    → lock_donate fuel l k ≡ donate_chain fuel (some h) (donate l k.current h k)
unfolding lock_donate
lock_donate_lem fuel l h k m o c = ground arith

lock_donate-Settled :
    (fuel l h : ℕ) (k k' : Kernel)
    → Registered k
    → Settled k
    → k.thread_mlfqs ≡ false
    → k.holder l ≡ some h
    → thread_current k ≡ some k.current
    → lock_donate fuel l k ≡ some k'
    → Settled k'
lock_donate-Settled fuel l h k k' r s m o c e =
    donate_chain-Settled fuel (some h) (donate l k.current h k) k'
      (donate-Registered l k.current h k o r) (donate-SettledBut l k.current h k o s)
      (sym (lock_donate_lem fuel l h k m o c) ∙ e)

-- The donation of lock_acquire() for a held lock, with the priority scheduler, where every waiter
-- is registered with its holder, no holder has a lower priority than a waiter, and waiting is not
-- circular: there is a rank that falls from each waiter to the holder and from the caller to the
-- lock's holder; the caller passes the checks of thread_current(). With fuel above the holder's
-- rank by two the donation ends, and then no thread, the new waiter included, waits for a lock
-- whose holder has a lower priority.
pub lock_donate-inherits :
    (rank : ℕ → ℕ) (fuel l h : ℕ) (k : Kernel)
    → ((u t : ℕ) → WaitsFor k u t → rank t < rank u)
    → rank h < rank k.current
    → rank h + 1 < fuel
    → Registered k
    → Settled k
    → k.thread_mlfqs ≡ false
    → k.holder l ≡ some h
    → thread_current k ≡ some k.current
    → (k' : Kernel) × (lock_donate fuel l k ≡ some k') × Settled k' × WaitsFor k' k.current h
lock_donate-inherits rank fuel l h k f g n r s m o c =
    let (k', e) =
      donate_chain-total rank fuel h (donate l k.current h k)
        (λ u t w. falls u t (donate-WaitsFor l k.current h k o u t w)) n in
    let q = lock_donate_lem fuel l h k m o c ∙ e in
    (
      k',
      q,
      lock_donate-Settled fuel l h k k' r s m o c q,
      donate_chain-WaitsFor fuel (some h) (donate l k.current h k) k' k.current h e (
        l,
        ground (arith, donate-waiting l k.current h k k.current),
        donate-holder l k.current h k l ∙ o,
      ),
    )
  where
    falls : (u t : ℕ) → ((u ≡ k.current) × (t ≡ h)) ⊎ (WaitsFor k u t) → rank t < rank u
    falls u t (inl (e, q)) = rw (e, q) g
    falls u t (inr w) = f u t w
