-- ===== src/Text/Search.antt =====
-- strstr finds the first place where the needle stands.
use operation_system.Base.{
  ltb→le, ltb→lt, ℕ, zero, suc, ◌+◌, ◌-◌, ◌<◌, ◌≡◌, refl, true, false, Option, none, some, List, [],
  ◌∷◌, arith, leb, ltb, ap, ◌∙◌, sym, ◌↔◌, Bool-cases, inl, inr, ==→eq, subst,
}
use operation_system.Text.{char_at, find_from, has_prefix, string_from, strlen, strstr}

-- The needle stands in the haystack from position `i` on.
abbrev pub StandsAt : (haystack needle : List ℕ) → ℕ → Type 0
StandsAt haystack needle i =
    (j : ℕ) → j < strlen needle → char_at haystack (i + j) ≡ char_at needle j

-- What a search for the first place comes to, among the places before `n`.
abbrev pub IsFirst : (haystack needle : List ℕ) (n : ℕ) → Option ℕ → Type 0
IsFirst haystack needle n none = (j : ℕ) → j < n → StandsAt haystack needle j → ⊥
IsFirst haystack needle n (some i) =
    (i < n) × StandsAt haystack needle i × ((j : ℕ) → j < i → StandsAt haystack needle j → ⊥)

-- The needle stands at the start.
abbrev Starts : List ℕ → List ℕ → Type 0
Starts s needle = (j : ℕ) → j < strlen needle → char_at s j ≡ char_at needle j

Starts-cons :
    (s t : List ℕ) (c : ℕ) (needle : List ℕ)
    → char_at s 0 ≡ c
    → ((j : ℕ) → char_at s (suc j) ≡ char_at t j)
    → Starts t needle
    → Starts s (c ∷ needle)
unfolding strlen
Starts-cons s t c needle e g h zero l = e
Starts-cons s t c needle e g h (suc j) l = g j ∙ h j (omega arith)

has_prefix-Starts : (s needle : List ℕ) → has_prefix s needle ≡ true → Starts s needle
unfolding has_prefix strlen
has_prefix-Starts s [] e = λ j l. absurd (omega arith)
has_prefix-Starts [] (c ∷ needle) e =
    Starts-cons [] [] c needle (sym (==→eq c 0 (ground arith))) (λ j. refl)
      (has_prefix-Starts [] needle (ground arith))
has_prefix-Starts (x ∷ s) (c ∷ needle) e =
    Starts-cons (x ∷ s) s c needle (==→eq x c (ground arith)) (λ j. refl)
      (has_prefix-Starts s needle (ground arith))

Starts-has_prefix : (s needle : List ℕ) → Starts s needle → has_prefix s needle ≡ true
unfolding has_prefix strlen
Starts-has_prefix s [] h = refl
Starts-has_prefix [] (c ∷ needle) h =
    ground (arith, h 0 (omega arith), Starts-has_prefix [] needle (λ j l. h (suc j) (omega arith)))
Starts-has_prefix (x ∷ s) (c ∷ needle) h =
    ground (arith, h 0 (omega arith), Starts-has_prefix s needle (λ j l. h (suc j) (omega arith)))

char_at-string_from : (i j : ℕ) (s : List ℕ) → char_at (string_from i s) j ≡ char_at s (i + j)
char_at-string_from zero j s = ap (char_at s) (omega arith)
char_at-string_from (suc i) j [] = refl
char_at-string_from (suc i) j (c ∷ s) = char_at-string_from i j s ∙ ap (char_at (c ∷ s)) (shift i j)
  where
    shift : (i j : ℕ) → suc (i + j) ≡ suc i + j
    shift i j = omega arith

prefix-StandsAt :
    (h needle : List ℕ) (i : ℕ) → (has_prefix (string_from i h) needle ≡ true) ↔ StandsAt h needle i
prefix-StandsAt h needle i = (
  λ e j l. sym (char_at-string_from i j h) ∙ has_prefix-Starts (string_from i h) needle e j l,
  λ a. Starts-has_prefix (string_from i h) needle (λ j l. char_at-string_from i j h ∙ a j l),
)

-- The search from place `i` on is for the first place, if none is before.
find_from-IsFirst :
    (n i : ℕ) (h needle : List ℕ)
    → ((j : ℕ) → j < i → StandsAt h needle j → ⊥)
    → IsFirst h needle (i + n) (find_from n i h needle)
unfolding find_from
find_from-IsFirst zero i h needle b = λ j l. b j (omega arith)
find_from-IsFirst (suc n) i h needle b = elim (Bool-cases (has_prefix (string_from i h) needle)) [
  | inl e ↦ rw e (omega arith, (prefix-StandsAt h needle i).0 e, b)
  | inr e ↦ rw e (
      subst (λ m. IsFirst h needle m (find_from n (i + 1) h needle)) (shift i n)
        (find_from-IsFirst n (i + 1) h needle (λ j l a. earlier e j l a)))
]
  where
    shift : (i n : ℕ) → i + 1 + n ≡ i + suc n
    shift i n = omega arith

    earlier :
        has_prefix (string_from i h) needle ≡ false → (j : ℕ) → j < i + 1 → StandsAt h needle j → ⊥
    earlier e j l a = elim (Bool-cases (ltb j i)) [
      | inl q ↦ b j (ltb→lt j i q) a
      | inr q ↦
          let same : j ≡ i = omega (arith, ltb→le j i q) in
          absurd (ground (arith, (prefix-StandsAt h needle i).1 (subst (StandsAt h needle) same a)))
    ]

-- strstr() returns the first place in the haystack where all of the needle stands, or a null pointer
-- where there is none.
pub strstr-IsFirst :
    (haystack needle : List ℕ)
    → IsFirst haystack needle (strlen haystack + 1 - strlen needle) (strstr haystack needle)
unfolding strstr
strstr-IsFirst h needle = elim (Bool-cases (leb (strlen needle) (strlen h))) [
  | inl e ↦ rw e (
      subst (λ m. IsFirst h needle m (find_from (strlen h - strlen needle + 1) 0 h needle))
        (ground arith)
        (find_from-IsFirst (strlen h - strlen needle + 1) 0 h needle (λ j l. absurd (omega arith))))
  | inr e ↦ rw e (λ j l. absurd (ground arith))
]
