-- ===== src/Donation/Chain.antt =====
-- The walk along waiting_lock and holder: when it ends, and what it leaves.
use operation_system.Base.{
  eq_of_some, ℕ_discrete, ℕ, zero, suc, ◌+◌, ◌≤◌, ◌<◌, ◌≡◌, refl, ◌≢◌, Option, none, some, arith,
  Option-cases, inl, inr, sym, ◌∙◌, subst, ap,
}
use operation_system.Kernel.{Kernel, prio}
use operation_system.Donation.{donate_priority_update, donate_chain}
use operation_system.Donation.Update.{Donor, prio-update_ne, donate_priority_update-max}

-- `u` waits for a lock that `h` holds.
abbrev pub WaitsFor : Kernel → ℕ → ℕ → Type 0
WaitsFor k u h = (l : ℕ) × ((k.threads u).waiting_lock ≡ some l) × (k.holder l ≡ some h)

-- Every waiter has an entry on the list of the holder.
abbrev pub Registered : Kernel → Type 0
Registered k = (u h : ℕ) → WaitsFor k u h → Donor u (k.threads h).donate_priority

-- No holder, but possibly `t`, has a lower priority than a thread that waits for it.
abbrev pub SettledBut : Option ℕ → Kernel → Type 0
SettledBut t k = (u h : ℕ) → WaitsFor k u h → t ≢ some h → prio k u ≤ prio k h

-- No thread waits for a lock whose holder has a lower priority than its own.
abbrev pub Settled : Kernel → Type 0
Settled k = (u h : ℕ) → WaitsFor k u h → prio k u ≤ prio k h

module _ (t : ℕ) (k : Kernel) where
  waiting_lock-update :
      (u : ℕ) → ((donate_priority_update t k).threads u).waiting_lock ≡ (k.threads u).waiting_lock
  unfolding donate_priority_update
  waiting_lock-update u = ground arith

  donate_priority-update :
      (u : ℕ)
      → ((donate_priority_update t k).threads u).donate_priority ≡ (k.threads u).donate_priority
  unfolding donate_priority_update
  donate_priority-update u = ground arith

  pub holder-update : (donate_priority_update t k).holder ≡ k.holder
  unfolding donate_priority_update
  holder-update = refl

  WaitsFor-update : (u h : ℕ) → WaitsFor (donate_priority_update t k) u h → WaitsFor k u h
  WaitsFor-update u h (l, w, o) =
      (l, sym (waiting_lock-update u) ∙ w, ap (λ f. f l) (sym holder-update) ∙ o)

  Registered-update : Registered k → Registered (donate_priority_update t k)
  Registered-update r u h w = rw (donate_priority-update h) (r u h (WaitsFor-update u h w))

  -- After `t` is renewed the waits for `t` are in order, and so are all but those of `t` itself.
  update-settles :
      Registered k
      → SettledBut (some t) k
      → (u h : ℕ) → WaitsFor (donate_priority_update t k) u h
      → u ≢ t
      → prio (donate_priority_update t k) u ≤ prio (donate_priority_update t k) h
  update-settles r s u h w n = elim (ℕ_discrete h t) [
    | yes e ↦
        let d : Donor u (k.threads t).donate_priority =
          subst (λ x. Donor u (k.threads x).donate_priority) e (r u h (WaitsFor-update u h w)) in
        rw (e, prio-update_ne t u k n) ((donate_priority_update-max t k).1 u d)
    | no ne ↦
        rw (prio-update_ne t u k n, prio-update_ne t h k ne)
          (s u h (WaitsFor-update u h w) (λ e. ground arith))
  ]

  update-WaitsFor : (u h : ℕ) → WaitsFor k u h → WaitsFor (donate_priority_update t k) u h
  update-WaitsFor u h (l, w, o) = (l, waiting_lock-update u ∙ w, ap (λ f. f l) holder-update ∙ o)

  -- Where the walk goes on to the holder of `l`, only the wait of `t` for it may be out of order.
  update-SettledBut :
      (l : ℕ)
      → Registered k
      → SettledBut (some t) k
      → ((donate_priority_update t k).threads t).waiting_lock ≡ some l
      → SettledBut ((donate_priority_update t k).holder l) (donate_priority_update t k)
  update-SettledBut l r s e u h (m, w, o) n = elim (ℕ_discrete u t) [
    | yes q ↦ absurd (n (ap (donate_priority_update t k).holder (same q) ∙ o))
    | no q ↦ update-settles r s u h (m, w, o) q
  ]
    where
      same : u ≡ t → l ≡ m
      same q =
          eq_of_some
            (sym e ∙ (ap (λ x. ((donate_priority_update t k).threads x).waiting_lock) (sym q) ∙ w))

  update-Settled :
      Registered k
      → SettledBut (some t) k
      → ((donate_priority_update t k).threads t).waiting_lock ≡ none
      → Settled (donate_priority_update t k)
  update-Settled r s e u h (m, w, o) = elim (ℕ_discrete u t) [
    | yes q ↦ absurd (differ q)
    | no q ↦ update-settles r s u h (m, w, o) q
  ]
    where
      differ : u ≡ t → ⊥
      differ q =
          let both : none ≡ some m =
            sym e ∙ (ap (λ x. ((donate_priority_update t k).threads x).waiting_lock) (sym q) ∙ w) in
          cc

donate_chain-zero : (t : Option ℕ) (k : Kernel) → donate_chain 0 t k ≡ none
unfolding donate_chain
donate_chain-zero t k = refl

donate_chain-done : (fuel : ℕ) (k : Kernel) → donate_chain (suc fuel) none k ≡ some k
unfolding donate_chain
donate_chain-done fuel k = refl

module _ (fuel t : ℕ) where
  donate_chain-last :
      (k : Kernel)
      → ((donate_priority_update t k).threads t).waiting_lock ≡ none
      → donate_chain (suc fuel) (some t) k ≡ some (donate_priority_update t k)
  unfolding donate_chain
  donate_chain-last k q = ground arith

  donate_chain-next :
      (l : ℕ) (k : Kernel)
      → ((donate_priority_update t k).threads t).waiting_lock ≡ some l
      → donate_chain (suc fuel) (some t) k
        ≡ donate_chain fuel ((donate_priority_update t k).holder l) (donate_priority_update t k)
  unfolding donate_chain
  donate_chain-next l k q = ground arith

-- If every waiter is registered with the holder, and only the waits for the thread where the walk
-- starts may be out of order, then whenever the walk ends no thread waits for a lock whose holder
-- has a lower priority than its own.
pub donate_chain-Settled :
    (fuel : ℕ) (t : Option ℕ) (k k' : Kernel)
    → Registered k
    → SettledBut t k
    → donate_chain fuel t k ≡ some k'
    → Settled k'
donate_chain-Settled zero t k k' r s e = absurd (ground (arith, donate_chain-zero t k))
donate_chain-Settled (suc fuel) none k k' r s e =
    subst Settled (eq_of_some (sym (donate_chain-done fuel k) ∙ e))
      (λ u h w. s u h w (λ q. ground arith))
donate_chain-Settled (suc fuel) (some t) k k' r s e =
    elim (Option-cases ((donate_priority_update t k).threads t).waiting_lock) [
      | inl q ↦
          subst Settled (eq_of_some (sym (donate_chain-last fuel t k q) ∙ e))
            (update-Settled t k r s q)
      | inr (l, q) ↦
          donate_chain-Settled fuel ((donate_priority_update t k).holder l)
            (donate_priority_update t k) k' (Registered-update t k r)
            (update-SettledBut t k l r s q) (sym (donate_chain-next fuel t l k q) ∙ e)
    ]

-- The walk leaves every wait as it was.
pub donate_chain-WaitsFor :
    (fuel : ℕ) (t : Option ℕ) (k k' : Kernel) (u h : ℕ)
    → donate_chain fuel t k ≡ some k'
    → WaitsFor k u h
    → WaitsFor k' u h
donate_chain-WaitsFor zero t k k' u h e w = absurd (ground (arith, donate_chain-zero t k))
donate_chain-WaitsFor (suc fuel) none k k' u h e w =
    subst (λ j. WaitsFor j u h) (eq_of_some (sym (donate_chain-done fuel k) ∙ e)) w
donate_chain-WaitsFor (suc fuel) (some t) k k' u h e w =
    elim (Option-cases ((donate_priority_update t k).threads t).waiting_lock) [
      | inl q ↦
          subst (λ j. WaitsFor j u h) (eq_of_some (sym (donate_chain-last fuel t k q) ∙ e))
            (update-WaitsFor t k u h w)
      | inr (l, q) ↦
          donate_chain-WaitsFor fuel ((donate_priority_update t k).holder l)
            (donate_priority_update t k) k' u h (sym (donate_chain-next fuel t l k q) ∙ e)
            (update-WaitsFor t k u h w)
    ]

-- Enough rounds for a walk that starts at `t`.
abbrev Suffices : (ℕ → ℕ) → Option ℕ → ℕ → Type 0
Suffices rank none fuel = 0 < fuel
Suffices rank (some t) fuel = rank t + 1 < fuel

chain_ends :
    (rank : ℕ → ℕ) (fuel : ℕ) (t : Option ℕ) (k : Kernel)
    → ((u h : ℕ) → WaitsFor k u h → rank h < rank u)
    → Suffices rank t fuel
    → (k' : Kernel) × (donate_chain fuel t k ≡ some k')
chain_ends rank zero none k r f = absurd (omega arith)
chain_ends rank zero (some t) k r f = absurd (omega arith)
chain_ends rank (suc fuel) none k r f = (k, donate_chain-done fuel k)
chain_ends rank (suc fuel) (some t) k r f =
    elim (Option-cases ((donate_priority_update t k).threads t).waiting_lock) [
      | inl q ↦ (_, donate_chain-last fuel t k q)
      | inr (l, q) ↦
          let (k', e) =
            chain_ends rank fuel ((donate_priority_update t k).holder l)
              (donate_priority_update t k) (λ u h w. r u h (WaitsFor-update t k u h w))
              (closer l q ((donate_priority_update t k).holder l) refl) in
          (k', donate_chain-next fuel t l k q ∙ e)
    ]
  where
    closer :
        (l : ℕ)
        → ((donate_priority_update t k).threads t).waiting_lock ≡ some l
        → (o : Option ℕ) → (donate_priority_update t k).holder l ≡ o
        → Suffices rank o fuel
    closer l q none e = omega arith
    closer l q (some h) e = omega (arith, r t h (WaitsFor-update t k t h (l, q, e)))

-- The walk of lock_acquire ends where waiting is not circular: with a rank that falls from each
-- waiter to the holder, any fuel above the rank of the start by two suffices.
pub donate_chain-total :
    (rank : ℕ → ℕ) (fuel t : ℕ) (k : Kernel)
    → ((u h : ℕ) → WaitsFor k u h → rank h < rank u)
    → rank t + 1 < fuel
    → (k' : Kernel) × (donate_chain fuel (some t) k ≡ some k')
donate_chain-total rank fuel t k r f = chain_ends rank fuel (some t) k r f

-- Where waiting is circular the walk never ends: if each thread of a set waits for a lock that a
-- thread of the set holds, no number of rounds suffices from any of them.
pub donate_chain-circular :
    (P : ℕ → Type 0) (fuel t : ℕ) (k : Kernel)
    → ((u : ℕ) → P u → (h : ℕ) × WaitsFor k u h × P h)
    → P t
    → donate_chain fuel (some t) k ≡ none
donate_chain-circular P zero t k c p = donate_chain-zero (some t) k
donate_chain-circular P (suc fuel) t k c p =
    let (h, w, ph) = c t p in
    let (l, q, o) = update-WaitsFor t k t h w in
    donate_chain-next fuel t l k q
    ∙ (ap (λ x. donate_chain fuel x (donate_priority_update t k)) o
        ∙ donate_chain-circular P fuel h (donate_priority_update t k)
            (λ u pu. let (g, v, pg) = c u pu in (g, update-WaitsFor t k u g v, pg)) ph)
