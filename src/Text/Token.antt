-- ===== src/Text/Token.antt =====
-- strtok_r cuts the string at delimiters.
use operation_system.Base.{
  subst, ◌≢◌, ℕ, ◌≡◌, refl, true, false, Option, none, some, List, [], ◌∷◌, ◌++◌, arith, ap, ◌∙◌,
  sym, All, Bool-cases, inl, inr,
}
use operation_system.Text.{is_in, skip_delimiters, strtok_r, take_token}

-- The string after a token: at its end, or after the delimiter.
pub data Cut (delimiters : List ℕ) : List ℕ → List ℕ → Type 0 where
  end : Cut delimiters [] []
  delimiter : (c : ℕ) (rest : List ℕ) → is_in c delimiters ≡ true → Cut delimiters (c ∷ rest) rest

-- What strtok_r() makes of a string: delimiters, then a token of at least one character with no
-- delimiter in it, then the rest; or delimiters only.
abbrev pub Tokenized : (delimiters s : List ℕ) → Option (List ℕ) → List ℕ → Type 0
Tokenized delimiters s none rest = All (λ c. is_in c delimiters ≡ true) s × (rest ≡ [])
Tokenized delimiters s (some token) rest =
    (front after : List ℕ) × (s ≡ front ++ (token ++ after))
    × All (λ c. is_in c delimiters ≡ true) front
    × All (λ c. is_in c delimiters ≡ false) token
    × (token ≢ [])
    × Cut delimiters after rest

-- A string after the delimiters are skipped: it does not start with one.
abbrev NoDelimiter : List ℕ → List ℕ → Type 0
NoDelimiter delimiters [] = Unit
NoDelimiter delimiters (c ∷ s) = is_in c delimiters ≡ false

skip_lem :
    (s delimiters : List ℕ)
    → (front : List ℕ) × (s ≡ front ++ skip_delimiters s delimiters)
      × All (λ c. is_in c delimiters ≡ true) front
      × NoDelimiter delimiters (skip_delimiters s delimiters)
unfolding skip_delimiters
skip_lem [] delimiters = ([], refl, tt, tt)
skip_lem (c ∷ s) delimiters = elim (Bool-cases (is_in c delimiters)) [
  | inl e ↦
      let (front, q, a, n) = skip_lem s delimiters in rw e (c ∷ front, ap (λ l. c ∷ l) q, (e, a), n)
  | inr e ↦ rw e ([], refl, tt, e)
]

take_lem :
    (s delimiters : List ℕ)
    → (after : List ℕ) × (s ≡ (take_token s delimiters).0 ++ after)
      × All (λ c. is_in c delimiters ≡ false) (take_token s delimiters).0
      × Cut delimiters after (take_token s delimiters).1
unfolding take_token
take_lem [] delimiters = ([], refl, tt, end)
take_lem (c ∷ s) delimiters = elim (Bool-cases (is_in c delimiters)) [
  | inl e ↦ rw e (c ∷ s, refl, tt, delimiter c s e)
  | inr e ↦
      let (after, q, a, n) = take_lem s delimiters in rw e (after, ap (λ l. c ∷ l) q, (e, a), n)
]

append-nil : (s : List ℕ) → s ++ [] ≡ s
append-nil [] = refl
append-nil (c ∷ s) = ap (λ l. c ∷ l) (append-nil s)

take-nonempty :
    (c : ℕ) (s delimiters : List ℕ)
    → is_in c delimiters ≡ false
    → (take_token (c ∷ s) delimiters).0 ≢ []
unfolding take_token
take-nonempty c s delimiters e = rw e (λ q. absurd (ground arith))

cut_lem :
    (delimiters s front skipped : List ℕ)
    → s ≡ front ++ skipped
    → All (λ c. is_in c delimiters ≡ true) front
    → NoDelimiter delimiters skipped
    → (let r : Option (List ℕ) × List ℕ = elim skipped [
      | [] ↦ (none, [])
      | c ∷ rest ↦ (some (take_token (c ∷ rest) delimiters).0, (take_token (c ∷ rest) delimiters).1)
    ] in
        Tokenized delimiters s r.0 r.1)
cut_lem delimiters s front [] q a n =
    (subst (All (λ c. is_in c delimiters ≡ true)) (sym (q ∙ append-nil front)) a, refl)
cut_lem delimiters s front (c ∷ rest) q a n =
    let (after, e, b, k) = take_lem (c ∷ rest) delimiters in
    (front, after, q ∙ ap (λ l. front ++ l) e, a, b, take-nonempty c rest delimiters n, k)

-- strtok_r() cuts a string into delimiters, a token of at least one character with no delimiter in it,
-- which it returns, and the string after the end of the token or after the one delimiter there, which
-- it saves; from a string of delimiters only it returns a null pointer and saves its end.
pub strtok_r-Tokenized :
    (s delimiters : List ℕ)
    → Tokenized delimiters s (strtok_r s delimiters).0 (strtok_r s delimiters).1
unfolding strtok_r
strtok_r-Tokenized s delimiters =
    let (front, q, a, n) = skip_lem s delimiters in
    cut_lem delimiters s front (skip_delimiters s delimiters) q a n
