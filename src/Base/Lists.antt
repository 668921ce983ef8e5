-- ===== src/Base/Lists.antt =====
-- Lists over the native numbers, predicates on them, and families indexed by an address.
use Prim.Native.Nat.{ℕ, suc, ◌+◌, ◌<◌}
use mathlib.Core.Logic.{inl, inr}
use mathlib.Core.Path.{subst, ◌≡◌}
use mathlib.Core.Bool.{Bool, true, false, ◌||◌}
use mathlib.Core.List.{List, [], ◌∷◌, ◌++◌}
use native.Mathlib.Omega.{arith}
use operation_system.Base.Tests.{Bool-cases, ==→eq, ◌==◌, if◌then◌else◌}

-- One entry of a family indexed by an address is written.
abbrev pub update {ℓ} : {A : Type ℓ} → (ℕ → A) → ℕ → A → ℕ → A
update f p v q = if p == q then v else f q

pub update_self {ℓ} : {A : Type ℓ} (f : ℕ → A) (p : ℕ) (v : A) → update f p v p ≡ v
update_self f p v = ground arith

module _ {ℓ} {A : Type ℓ} where
  abbrev pub length : List A → ℕ
  length [] = 0
  length (x ∷ xs) = suc (length xs)

  pub length-append : (xs ys : List A) → length (xs ++ ys) ≡ length xs + length ys
  length-append [] ys = omega arith
  length-append (x ∷ xs) ys = omega (arith, length-append xs ys)

-- A predicate by recursion computes to tuples, which the tactics read and build.
abbrev pub All {ℓ κ} : {A : Type ℓ} → (A → Type κ) → List A → Type κ
All P [] = Unit
All P (x ∷ xs) = P x × All P xs

pub All-map {ℓ κ μ} :
    {A : Type ℓ} {P : A → Type κ} {Q : A → Type μ} (f : (x : A) → P x → Q x) (xs : List A)
    → All P xs
    → All Q xs
All-map f [] h = tt
All-map f (x ∷ xs) h = (f x h.0, All-map f xs h.1)

-- Membership in a list of addresses, as a test.
abbrev pub has : ℕ → List ℕ → Bool
has a [] = false
has a (x ∷ xs) = (x == a) || has a xs

-- How often an address stands in a list.
abbrev pub count : ℕ → List ℕ → ℕ
count a [] = 0
count a (x ∷ xs) = count a xs + (if x == a then 1 else 0)

-- The first occurrence of an address is taken out.
abbrev pub erase : ℕ → List ℕ → List ℕ
erase a [] = []
erase a (x ∷ xs) = if x == a then xs else x ∷ erase a xs

pub count-erase :
    (a b : ℕ) (xs : List ℕ)
    → count a (erase b xs) + (if b == a then (if has b xs then 1 else 0) else 0) ≡ count a xs
count-erase a b [] = ground arith
count-erase a b (x ∷ xs) = ground (arith, count-erase a b xs)

pub has-count : (a : ℕ) (xs : List ℕ) → has a xs ≡ true → 0 < count a xs
has-count a [] h = absurd (ground arith)
has-count a (x ∷ xs) h = ground (arith, has-count a xs)

pub count-has : (a : ℕ) (xs : List ℕ) → 0 < count a xs → has a xs ≡ true
count-has a [] h = absurd (omega arith)
count-has a (x ∷ xs) h = ground (arith, count-has a xs)

-- What holds of a whole list holds of an address on it.
pub All-has {κ} : (P : ℕ → Type κ) (t : ℕ) (l : List ℕ) → All P l → has t l ≡ true → P t
All-has P t [] a h = absurd (ground arith)
All-has P t (x ∷ l) a h = elim (Bool-cases (x == t)) [
  | inl e ↦ subst P (==→eq x t e) a.0
  | inr e ↦ All-has P t l a.1 (ground arith)
]

pub All-of_has {κ} : (P : ℕ → Type κ) (l : List ℕ) → ((t : ℕ) → has t l ≡ true → P t) → All P l
All-of_has P [] h = tt
All-of_has P (x ∷ l) h = (h x (ground arith), All-of_has P l λ t e. h t (ground arith))

pub All-middle {ℓ κ} :
    {A : Type ℓ} (P : A → Type κ) (front : List A) (x : A) (back : List A)
    → All P (front ++ (x ∷ back))
    → P x
All-middle P [] x back h = h.0
All-middle P (y ∷ front) x back h = All-middle P front x back h.1
