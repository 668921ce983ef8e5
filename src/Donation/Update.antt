-- ===== src/Donation/Update.antt =====
-- donate_priority_update computes the maximum of the base priority and the donors' priorities.
use operation_system.Base.{
  ap, ℕ, ◌≤◌, ◌≡◌, refl, ◌≢◌, ◌⊎◌, inl, inr, List, [], ◌∷◌, arith, ltb, if◌then◌else◌, Bool-cases,
}
use operation_system.Kernel.{Kernel, DonateElem, prio}
use operation_system.Donation.{donation_max, donate_priority_update}

-- An entry of the donors' list.
pub data Donor (u : ℕ) : List DonateElem → Type 0 where
  here : {d : DonateElem} {ds : List DonateElem} → d.donor ≡ u → Donor u (d ∷ ds)
  there : {d : DonateElem} {ds : List DonateElem} → Donor u ds → Donor u (d ∷ ds)

donation_max-ge : (k : Kernel) (p : ℕ) (ds : List DonateElem) → p ≤ donation_max k p ds
unfolding donation_max
donation_max-ge k p [] = omega arith
donation_max-ge k p (d ∷ ds) =
    ground (arith, donation_max-ge k p ds, donation_max-ge k (prio k d.donor) ds)

pub donation_max-bound :
    (k : Kernel) (p u : ℕ) (ds : List DonateElem) → Donor u ds → prio k u ≤ donation_max k p ds
unfolding donation_max
donation_max-bound k p u [] h = elim h [ ]
donation_max-bound k p u (d ∷ ds) (here e) =
    ground (arith, donation_max-ge k p ds, donation_max-ge k (prio k d.donor) ds, ap (prio k) e)
donation_max-bound k p u (d ∷ ds) (there h) =
    donation_max-bound k (if ltb p (prio k d.donor) then prio k d.donor else p) u ds h

donation_max-attained :
    (k : Kernel) (p : ℕ) (ds : List DonateElem)
    → (donation_max k p ds ≡ p) ⊎ ((u : ℕ) × Donor u ds × (donation_max k p ds ≡ prio k u))
unfolding donation_max
donation_max-attained k p [] = inl refl
donation_max-attained k p (d ∷ ds) = elim (Bool-cases (ltb p (prio k d.donor))) [
  | inl b ↦ rw b (elim (donation_max-attained k (prio k d.donor) ds) [
    | inl e ↦ inr (d.donor, here refl, e)
    | inr (u, h, e) ↦ inr (u, there h, e)
  ])
  | inr b ↦
      rw b (elim (donation_max-attained k p ds) [
        | inl e ↦ inl e
        | inr (u, h, e) ↦ inr (u, there h, e)
      ])
]

pub prio-update_self :
    (t : ℕ) (k : Kernel)
    → prio (donate_priority_update t k) t
      ≡ donation_max k (k.threads t).base_priority (k.threads t).donate_priority
unfolding donate_priority_update
prio-update_self t k = ground arith

pub prio-update_ne : (t u : ℕ) (k : Kernel) → u ≢ t → prio (donate_priority_update t k) u ≡ prio k u
unfolding donate_priority_update
prio-update_ne t u k n = ground arith

-- After donate_priority_update(t) the priority of t is the greatest of its base priority and the
-- priorities that its donors had: at least each of them, and one of them. No other thread's
-- priority changes.
pub donate_priority_update-max :
    (t : ℕ) (k : Kernel)
    → let k' = donate_priority_update t k in
      ((k.threads t).base_priority ≤ prio k' t)
      × ((u : ℕ) → Donor u (k.threads t).donate_priority → prio k u ≤ prio k' t)
      × ((prio k' t ≡ (k.threads t).base_priority)
          ⊎ ((u : ℕ) × Donor u (k.threads t).donate_priority × (prio k' t ≡ prio k u)))
      × ((u : ℕ) → u ≢ t → prio k' u ≡ prio k u)
donate_priority_update-max t k = rw (prio-update_self t k) (
  donation_max-ge k base ds,
  λ u h. donation_max-bound k base u ds h,
  donation_max-attained k base ds,
  λ u n. prio-update_ne t u k n,
)
  where
    base : ℕ
    base = (k.threads t).base_priority

    ds : List DonateElem
    ds = (k.threads t).donate_priority
