-- ===== src/KernelList/Ordered.antt =====
-- What list_insert_ordered, list_min and list_max of lib/kernel/list.c promise for a comparison
-- that is a strict weak order.
use mathlib.Core.List.{Perm}
use mathlib.Core.List.Perm
use operation_system.Base.{
  sym, ◌≡◌, refl, ◌⊎◌, inl, inr, Bool, true, false, some, List, [], ◌∷◌, ◌++◌, arith, Bool-cases,
  All, All-map, ap,
}
use operation_system.KernelList.{insert_ordered, list_min_from, list_min}

-- `list_less_func`: neither both ways round, and "not less" composes.
pub record IsWeakOrder {ℓ} {A : Type ℓ} (less : A → A → Bool) : Type ℓ where
  pub asym : (x y : A) → less x y ≡ true → less y x ≡ false
  pub chain : (x y z : A) → less y x ≡ false → less z y ≡ false → less z x ≡ false

module _ {ℓ} {A : Type ℓ} (less : A → A → Bool) where
  -- No element is less than one that stands before it.
  abbrev pub IsSorted : List A → Type ℓ
  IsSorted [] = Unit
  IsSorted (x ∷ xs) = All (λ y. less y x ≡ false) xs × IsSorted xs

  pub insert_ordered-perm : (x : A) (ys : List A) → Perm (insert_ordered less x ys) (x ∷ ys)
  unfolding insert_ordered
  insert_ordered-perm x [] = Perm.rfl
  insert_ordered-perm x (y ∷ ys) = elim (Bool-cases (less x y)) [
    | inl p ↦ rw p Perm.rfl
    | inr p ↦ rw p (Perm.trans (Perm.cons y (insert_ordered-perm x ys)) (Perm.swap x y ys))
  ]

  pub All-insert_ordered {κ} :
      (P : A → Type κ) (x : A) (ys : List A) → P x → All P ys → All P (insert_ordered less x ys)
  unfolding insert_ordered
  All-insert_ordered P x [] px h = (px, tt)
  All-insert_ordered P x (y ∷ ys) px h = elim (Bool-cases (less x y)) [
    | inl p ↦ rw p (px, h)
    | inr p ↦ rw p (h.0, All-insert_ordered P x ys px h.1)
  ]

  -- list_insert_ordered passes every element that the new one is not less than: it comes after all
  -- its equals, so equal elements leave the front of the list in the order of insertion.
  pub insert_ordered-append :
      (x : A) (front back : List A)
      → All (λ y. less x y ≡ false) front
      → insert_ordered less x (front ++ back) ≡ front ++ insert_ordered less x back
  unfolding insert_ordered
  insert_ordered-append x [] back h = refl
  insert_ordered-append x (y ∷ front) back h =
      rw h.0 (ap (λ l. y ∷ l) (insert_ordered-append x front back h.1))

  module _ (w : IsWeakOrder less) where
    less_trans : (x y z : A) → less x y ≡ true → less y z ≡ true → less x z ≡ true
    less_trans x y z p q = elim (Bool-cases (less x z)) [
      | inl r ↦ r
      | inr r ↦ ground (arith, w.asym x y p, w.chain z x y r)
    ]

    less_of_not_less : (x y z : A) → less x z ≡ true → less y z ≡ false → less x y ≡ true
    less_of_not_less x y z p q = elim (Bool-cases (less x y)) [
      | inl r ↦ r
      | inr r ↦ ground (arith, w.chain z y x q r)
    ]

    order_lem : (x : A) (ys : List A) → IsSorted ys → IsSorted (insert_ordered less x ys)
    unfolding insert_ordered
    order_lem x [] s = (tt, tt)
    order_lem x (y ∷ ys) s = elim (Bool-cases (less x y)) [
      | inl p ↦ rw p ((w.asym x y p, All-map (λ z h. w.chain x y z (w.asym x y p) h) ys s.0), s)
      | inr p ↦ rw p (All-insert_ordered (λ z. less z y ≡ false) x ys p s.0, order_lem x ys s.1)
    ]

    -- Behind every element that the new one is not less than and before all that it is less than,
    -- with the others as they were.
    abbrev pub Inserted : A → List A → List A → Type ℓ
    Inserted x ys r =
        (front back : List A) × (ys ≡ front ++ back)
        × (r ≡ front ++ (x ∷ back))
        × All (λ y. less x y ≡ false) front
        × All (λ y. less x y ≡ true) back

    inserted_lem : (x : A) (ys : List A) → IsSorted ys → Inserted x ys (insert_ordered less x ys)
    unfolding insert_ordered
    inserted_lem x [] s = ([], [], refl, refl, tt, tt)
    inserted_lem x (y ∷ ys) s = elim (Bool-cases (less x y)) [
      | inl p ↦
          rw p ([], y ∷ ys, refl, refl, tt, (p, All-map (λ z h. less_of_not_less x z y p h) ys s.0))
      | inr p ↦
          let (front, back, e, g, f, b) = inserted_lem x ys s.1 in
          rw p (y ∷ front, back, ap (λ l. y ∷ l) e, ap (λ l. y ∷ l) g, (p, f), b)
    ]

    -- For a comparison that is a strict weak order, list_insert_ordered on a sorted list returns a
    -- sorted list: the elements of the old one in their order, with the new one behind every element
    -- that it is not less than and before all that it is less than.
    pub insert_ordered-IsSorted :
        (x : A) (ys : List A)
        → IsSorted ys
        → IsSorted (insert_ordered less x ys) × Inserted x ys (insert_ordered less x ys)
    insert_ordered-IsSorted x ys s = (order_lem x ys s, inserted_lem x ys s)

    -- What the loop returns: its start, if nothing is less, or the first least element after it.
    abbrev Least : A → List A → A → Type ℓ
    Least m xs r =
        ((r ≡ m) × All (λ y. less y m ≡ false) xs)
        ⊎ ((front back : List A) × (xs ≡ front ++ (r ∷ back))
            × (less r m ≡ true)
            × All (λ y. less r y ≡ true) front
            × All (λ y. less y r ≡ false) back)

    list_min_from-Least : (m : A) (xs : List A) → Least m xs (list_min_from less m xs)
    unfolding list_min_from
    list_min_from-Least m [] = inl (refl, tt)
    list_min_from-Least m (x ∷ xs) = elim (Bool-cases (less x m)) [
      | inl p ↦ rw p (elim (list_min_from-Least x xs) [
        | inl (e, h) ↦ inr ([], xs, ap (λ a. a ∷ xs) (sym e), rw e p, tt, rw e h)
        | inr (front, back, e, q, h, g) ↦
            inr (x ∷ front, back, ap (λ l. x ∷ l) e, less_trans _ x m q p, (q, h), g)
      ])
      | inr p ↦ rw p (elim (list_min_from-Least m xs) [
        | inl (e, h) ↦ inl (e, (refl, h))
        | inr (front, back, e, q, h, g) ↦
            inr (x ∷ front, back, ap (λ l. x ∷ l) e, q, (less_of_not_less _ x m q p, h), g)
      ])
    ]

    -- list_min returns an element that is less than all before it, and that none after it is less
    -- than: the first of the least ones.
    pub list_min-first :
        (xs : List A) (r : A)
        → list_min less xs ≡ some r
        → (front back : List A) × (xs ≡ front ++ (r ∷ back))
          × All (λ y. less r y ≡ true) front
          × All (λ y. less y r ≡ false) back
    unfolding list_min
    list_min-first [] r h = absurd (ground arith)
    list_min-first (x ∷ xs) r h =
        let e : list_min_from less x xs ≡ r = ground arith in
        rw e at (elim (list_min_from-Least x xs) as (λ _. Split (list_min_from less x xs)) [
          | inl (q, g) ↦ ([], xs, ap (λ a. a ∷ xs) (sym q), tt, rw q g)
          | inr (front, back, q, p, f, g) ↦ (x ∷ front, back, ap (λ l. x ∷ l) q, (p, f), g)
        ])
      where
        Split : A → Type ℓ
        Split r =
            (front back : List A) × (x ∷ xs ≡ front ++ (r ∷ back))
            × All (λ y. less r y ≡ true) front
            × All (λ y. less y r ≡ false) back
