-- ===== src/Stdlib/Search.antt =====
-- binary_search ends and finds a match if there is one.
use operation_system.Base.{
  ltb→le, ltb→lt, ℕ, zero, suc, ◌+◌, ◌-◌, ◌/◌, ◌≤◌, ◌<◌, ◌≡◌, refl, Bool, true, false, Option, none,
  some, arith, ltb, Bool-cases, inl, inr,
}
use operation_system.Base.Int.{ℤ, pos, ltb_ℤ}
use operation_system.Stdlib.{binary_search, search_from}

module _ {ℓ} {A : Type ℓ} (key : A) (array : ℕ → A) (compare : A → A → ℤ) where
  -- The key is less than an element, or greater.
  abbrev pub below : ℕ → Bool
  below i = ltb_ℤ (compare key (array i)) (pos 0)

  abbrev pub above : ℕ → Bool
  above i = ltb_ℤ (pos 0) (compare key (array i))

  -- The array is sorted as far as the key can tell.
  pub record IsSortedFor (cnt : ℕ) : Type 0 where
    pub below_later : (i j : ℕ) → i ≤ j → j < cnt → below i ≡ true → below j ≡ true
    pub above_earlier : (i j : ℕ) → i ≤ j → j < cnt → above j ≡ true → above i ≡ true

  -- What a search comes to.
  abbrev pub Searched : (cnt : ℕ) → Option ℕ → Type 0
  Searched cnt (some i) = (i < cnt) × (below i ≡ false) × (above i ≡ false)
  Searched cnt none = (i : ℕ) → i < cnt → below i ≡ false → above i ≡ false → ⊥

  -- The same of the elements from `first` on and before `last`.
  abbrev SearchedIn : (first last : ℕ) → Option ℕ → Type 0
  SearchedIn first last (some i) = (first ≤ i) × (i < last) × (below i ≡ false) × (above i ≡ false)
  SearchedIn first last none =
      (i : ℕ) → first ≤ i → i < last → below i ≡ false → above i ≡ false → ⊥

  SearchedIn-below :
      (cnt first last m : ℕ) (r : Option ℕ)
      → IsSortedFor cnt
      → last ≤ cnt
      → m < last
      → below m ≡ true
      → SearchedIn first m r
      → SearchedIn first last r
  SearchedIn-below cnt first last m (some i) s l h b r = (r.0, omega (arith, r.1), r.2, r.3)
  SearchedIn-below cnt first last m none s l h b r = λ i f u p q. elim (Bool-cases (ltb i m)) [
    | inl e ↦ r i f (ltb→lt i m e) p q
    | inr e ↦ absurd (ground (arith, s.below_later m i (ltb→le i m e) (omega arith) b))
  ]

  SearchedIn-above :
      (cnt first last m : ℕ) (r : Option ℕ)
      → IsSortedFor cnt
      → last ≤ cnt
      → first ≤ m
      → m < last
      → above m ≡ true
      → SearchedIn (m + 1) last r
      → SearchedIn first last r
  SearchedIn-above cnt first last m (some i) s l f h b r = (omega (arith, r.0), r.1, r.2, r.3)
  SearchedIn-above cnt first last m none s l f h b r = λ i g u p q. elim (Bool-cases (ltb m i)) [
    | inl e ↦ r i (omega (arith, ltb→lt m i e)) u p q
    | inr e ↦ absurd (ground (arith, s.above_earlier i m (ltb→le m i e) (omega arith) b))
  ]

  search_from_lem :
      (fuel cnt first last : ℕ)
      → IsSortedFor cnt
      → last ≤ cnt
      → first ≤ last
      → last < first + fuel
      → (r : Option ℕ) × (search_from fuel key array first last compare ≡ some r)
        × SearchedIn first last r
  unfolding search_from
  search_from_lem zero cnt first last s l o f = absurd (omega arith)
  search_from_lem (suc fuel) cnt first last s l o f =
      let m = first + (last - first) / 2 in
      elim (Bool-cases (ltb first last)) [
        | inr e ↦ (none, rw e refl, λ i g u. absurd (omega (arith, ltb→le first last e)))
        | inl e ↦
            let less = ltb→lt first last e in
            elim (Bool-cases (below m)) [
              | inl b ↦
                  let (r, q, a) =
                    search_from_lem fuel cnt first m s (omega (arith, less)) (omega arith)
                      (omega (arith, less)) in
                  (
                    r,
                    rw (e, b) q,
                    SearchedIn-below cnt first last m r s l (omega (arith, less)) b a,
                  )
              | inr b ↦ elim (Bool-cases (above m)) [
                | inl c ↦
                    let (r, q, a) =
                      search_from_lem fuel cnt (m + 1) last s l (omega (arith, less))
                        (omega (arith, less)) in
                    (
                      r,
                      rw (e, b, c) q,
                      SearchedIn-above cnt first last m r s l (omega arith) (omega (arith, less)) c
                          a,
                    )
                | inr c ↦ (some m, rw (e, b, c) refl, (omega arith, omega (arith, less), b, c))
              ]
            ]
      ]

  -- In an array of `cnt` elements that is sorted as far as comparisons with the key can tell,
  -- binary_search() ends, and returns a match, which is neither less nor greater than the key, or a null
  -- pointer where there is none.
  pub binary_search-Searched :
      (cnt : ℕ)
      → IsSortedFor cnt
      → (r : Option ℕ) × (binary_search key array cnt compare ≡ some r) × Searched cnt r
  unfolding binary_search
  binary_search-Searched cnt s =
      let (r, q, a) =
        search_from_lem (cnt + 1) cnt 0 cnt s (omega arith) (omega arith) (omega arith) in
      (r, q, whole r a)
    where
      whole : (r : Option ℕ) → SearchedIn 0 cnt r → Searched cnt r
      whole (some i) a = (a.1, a.2, a.3)
      whole none a = λ i u p q. a i (omega arith) u p q
