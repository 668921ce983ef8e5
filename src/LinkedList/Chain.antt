-- ===== src/LinkedList/Chain.antt =====
-- The sequence of elements that the links of a list represent.
use operation_system.Base.{
  ℕ, ◌≡◌, refl, ◌≢◌, true, false, List, [], ◌∷◌, ◌++◌, arith, has, ◌∙◌, ◌||◌,
}
use operation_system.LinkedList.{Links, ListHeader}

-- From `a` the links lead over `xs` to `b`, and back.
abbrev pub Linked : Links → ℕ → List ℕ → ℕ → Type 0
Linked h a [] b = (h.next a ≡ b) × (h.prev b ≡ a)
Linked h a (x ∷ xs) b = (h.next a ≡ x) × (h.prev x ≡ a) × Linked h x xs b

-- No address stands twice.
abbrev pub Distinct : List ℕ → Type 0
Distinct [] = Unit
Distinct (x ∷ xs) = (has x xs ≡ false) × Distinct xs

-- The list with header `l` holds `xs`: the links run between its two ends over the elements, and the
-- two ends and the elements are different addresses, none of them null.
pub record Holds (h : Links) (l : ListHeader) (xs : List ℕ) : Type 0 where
  pub linked : Linked h l.head xs l.tail
  pub first : h.prev l.head ≡ 0
  pub last : h.next l.tail ≡ 0
  pub addresses : Distinct (l.head ∷ l.tail ∷ xs)
  pub mapped : has 0 (l.head ∷ l.tail ∷ xs) ≡ false

-- The last address of `a ∷ xs`, and the first of `xs` and then `b`.
abbrev pub last_or : ℕ → List ℕ → ℕ
last_or a [] = a
last_or a (x ∷ xs) = last_or x xs

abbrev pub first_or : ℕ → List ℕ → ℕ
first_or b [] = b
first_or b (x ∷ xs) = x

pub last_or-has : (a : ℕ) (xs : List ℕ) → has (last_or a xs) (a ∷ xs) ≡ true
last_or-has a [] = ground arith
last_or-has a (x ∷ xs) = ground (arith, last_or-has x xs)

pub Linked-ends :
    (h : Links) (a : ℕ) (xs : List ℕ) (b : ℕ)
    → Linked h a xs b
    → (h.next (last_or a xs) ≡ b) × (h.prev b ≡ last_or a xs)
Linked-ends h a [] b p = p
Linked-ends h a (x ∷ xs) b p = Linked-ends h x xs b p.2

-- A chain splits at each of its elements.
pub Linked-split :
    (h : Links) (a : ℕ) (front : List ℕ) (x : ℕ) (back : List ℕ) (b : ℕ)
    → Linked h a (front ++ (x ∷ back)) b
    → Linked h a front x × Linked h x back b
Linked-split h a [] x back b p = ((p.0, p.1), p.2)
Linked-split h a (y ∷ front) x back b p =
    let (q, r) = Linked-split h y front x back b p.2 in ((p.0, p.1, q), r)

pub Linked-join :
    (h : Links) (a : ℕ) (front : List ℕ) (x : ℕ) (back : List ℕ) (b : ℕ)
    → Linked h a front x
    → Linked h x back b
    → Linked h a (front ++ (x ∷ back)) b
Linked-join h a [] x back b p q = (p.0, p.1, q)
Linked-join h a (y ∷ front) x back b p q = (p.0, p.1, Linked-join h y front x back b p.2 q)

-- A chain depends on the links out of its elements only, and a new end needs two of them.
pub Linked-end :
    (h h' : Links) (a : ℕ) (xs : List ℕ) (b c : ℕ)
    → Linked h a xs b
    → has a xs ≡ false
    → Distinct xs
    → ((u : ℕ) → has u (a ∷ xs) ≡ true → u ≢ last_or a xs → h'.next u ≡ h.next u)
    → ((u : ℕ) → has u xs ≡ true → h'.prev u ≡ h.prev u)
    → h'.next (last_or a xs) ≡ c
    → h'.prev c ≡ last_or a xs
    → Linked h' a xs c
Linked-end h h' a [] b c p n d f g e r = (e, r)
Linked-end h h' a (x ∷ xs) b c p n d f g e r = (
  f a (ground arith) (λ q. ground (arith, last_or-has x xs)) ∙ p.0,
  g x (ground arith) ∙ p.1,
  Linked-end h h' x xs b c p.2 d.0 d.1 (λ u m. f u (ground arith)) (λ u m. g u (ground arith)) e r,
)

-- Or a new start.
pub Linked-start :
    (h h' : Links) (a c : ℕ) (xs : List ℕ) (b : ℕ)
    → Linked h a xs b
    → Distinct xs
    → has b xs ≡ false
    → ((u : ℕ) → has u xs ≡ true → h'.next u ≡ h.next u)
    → ((u : ℕ) → has u (b ∷ xs) ≡ true → u ≢ first_or b xs → h'.prev u ≡ h.prev u)
    → h'.next c ≡ first_or b xs
    → h'.prev (first_or b xs) ≡ c
    → Linked h' c xs b
Linked-start h h' a c [] b p d n f g e r = (e, r)
Linked-start h h' a c (x ∷ xs) b p d n f g e r = (
  e,
  r,
  Linked-end h h' x xs b b p.2 d.0 d.1 (λ u m q. f u m)
      (λ u m. g u (ground arith) (λ q. ground arith))
      (f (last_or x xs) (last_or-has x xs) ∙ (Linked-ends h x xs b p.2).0)
      (g b (ground arith) (λ q. ground arith) ∙ (Linked-ends h x xs b p.2).1),
)

pub first_or-has : (b : ℕ) (xs : List ℕ) → has (first_or b xs) (b ∷ xs) ≡ true
first_or-has b [] = ground arith
first_or-has b (x ∷ xs) = ground arith

-- A chain splits between two elements, and at its ends.
pub Linked-append :
    (h : Links) (a : ℕ) (front back : List ℕ) (b : ℕ)
    → Linked h a (front ++ back) b
    → Linked h a front (first_or b back) × Linked h (last_or a front) back b
Linked-append h a [] [] b p = (p, p)
Linked-append h a [] (x ∷ back) b p = ((p.0, p.1), p)
Linked-append h a (y ∷ front) back b p =
    let (q, r) = Linked-append h y front back b p.2 in ((p.0, p.1, q), r)

pub Linked-glue :
    (h : Links) (a : ℕ) (front back : List ℕ) (b : ℕ)
    → Linked h a front (first_or b back)
    → Linked h (last_or a front) back b
    → Linked h a (front ++ back) b
Linked-glue h a [] back b p q = q
Linked-glue h a (y ∷ front) back b p q = (p.0, p.1, Linked-glue h y front back b p.2 q)

pub has-append : (u : ℕ) (front back : List ℕ) → has u (front ++ back) ≡ (has u front || has u back)
has-append u [] back = refl
has-append u (x ∷ front) back = ground (arith, has-append u front back)

-- Different addresses are so on both sides, and none is on both.
pub Distinct-append :
    (front back : List ℕ)
    → Distinct (front ++ back)
    → Distinct front × Distinct back × ((u : ℕ) → has u front ≡ true → has u back ≡ false)
Distinct-append [] back d = (tt, d, λ u m. absurd (ground arith))
Distinct-append (x ∷ front) back d =
    let (p, q, r) = Distinct-append front back d.1 in
    (
      (ground (arith, d.0, has-append x front back), p),
      q,
      λ u m. ground (arith, r u, d.0, has-append x front back),
    )

pub append-Distinct :
    (front back : List ℕ)
    → Distinct front
    → Distinct back
    → ((u : ℕ) → has u front ≡ true → has u back ≡ false)
    → Distinct (front ++ back)
append-Distinct [] back p q r = q
append-Distinct (x ∷ front) back p q r = (
  ground (arith, r x, p.0, has-append x front back),
  append-Distinct front back p.1 q (λ u m. r u (ground arith)),
)
