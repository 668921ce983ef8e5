-- ===== src/Arithmetic/Division.antt =====
-- Division by a 32-bit number is exact; the remainder is cut to 32 bits.
use native.Mathlib.Nat.{
  div-le_self, mod-eq_of_lt, mod-eq-sub-mul-div, mul-div-le, add-mul-div_left, mod-lt, div-add-mod,
  div-lt_iff_lt-mul,
}
use operation_system.Base.{
  ℕ, ◌+◌, ◌-◌, ◌*◌, ◌/◌, ◌%◌, ◌^◌, ◌≤◌, ◌<◌, ◌≡◌, refl, true, false, not, some, arith, ltb, ◌==◌,
  ap, sym, ◌∙◌, subst,
}
use operation_system.Arithmetic.{sub_64, udiv64, udiv_short, umod64}

-- The dividend of the instruction.
abbrev rest_of : ℕ → ℕ → ℕ
rest_of n d = 2 ^ 32 * (n / 2 ^ 32 % d) + n % 2 ^ 32

whole_lem : (n d : ℕ) → 2 ^ 32 * (n / 2 ^ 32 % d) + n % 2 ^ 32 + d * (2 ^ 32 * (n / 2 ^ 32 / d)) ≡ n
whole_lem n d = grind (arith, div-add-mod (n / 2 ^ 32) d)

quotient_lem : (n d : ℕ) → 0 < d → rest_of n d / d + 2 ^ 32 * (n / 2 ^ 32 / d) ≡ n / d
quotient_lem n d p =
    sym (add-mul-div_left (rest_of n d) (2 ^ 32 * (n / 2 ^ 32 / d)) p)
    ∙ ap (λ m. m / d) (whole_lem n d)

rest_bound : (n d : ℕ) → 0 < d → rest_of n d < 2 ^ 32 * d
rest_bound n d p = grind (arith, mod-lt (n / 2 ^ 32) p)

udiv_short_lem :
    (n d : ℕ)
    → 0 < d
    → rest_of n d < 2 ^ 64
    → rest_of n d / d < 2 ^ 32
    → rest_of n d / d + 2 ^ 32 * (n / 2 ^ 32 / d) < 2 ^ 64
    → udiv_short n d ≡ some (rest_of n d / d + 2 ^ 32 * (n / 2 ^ 32 / d))
unfolding udiv_short
udiv_short_lem n d p r f q =
    let e : ltb (rest_of n d / d) (2 ^ 32) ≡ true = ground arith in
    let given : not (d == 0) ≡ true = ground arith in
    let low : rest_of n d % 2 ^ 64 ≡ rest_of n d = omega (arith, r) in
    rw (given, low, e) (ap some (omega (arith, q)))

-- For a 64-bit number and a divisor of 32 bits that is not 0, udiv64() does not trap and returns the
-- quotient.
pub udiv64-quotient : (n d : ℕ) → n < 2 ^ 64 → 0 < d → d < 2 ^ 32 → udiv64 n d ≡ some (n / d)
unfolding udiv64
udiv64-quotient n d l p h =
    let small : (d / 2 ^ 32 == 0) ≡ true = ground arith in
    let fits : rest_of n d / d < 2 ^ 32 = (div-lt_iff_lt-mul p).1 (rest_bound n d p) in
    let below : rest_of n d < 2 ^ 64 = omega (arith, rest_bound n d p) in
    let whole : rest_of n d / d + 2 ^ 32 * (n / 2 ^ 32 / d) < 2 ^ 64 =
      subst (λ m. m < 2 ^ 64) (sym (quotient_lem n d p)) (omega (arith, div-le_self n d)) in
    rw small (udiv_short_lem n d p below fits whole ∙ ap some (quotient_lem n d p))

sub_64_lem : (a b : ℕ) → b ≤ a → a < 2 ^ 64 → sub_64 a b ≡ a - b
sub_64_lem a b h l = omega arith

umod64_lem : (n d q : ℕ) → udiv64 n d ≡ some q → umod64 n d ≡ some (sub_64 n (d * q) % 2 ^ 32)
unfolding umod64
umod64_lem n d q e = rw e refl

-- For a 64-bit number and a divisor of 32 bits that is not 0, umod64() returns the remainder.
pub umod64-remainder : (n d : ℕ) → n < 2 ^ 64 → 0 < d → d < 2 ^ 32 → umod64 n d ≡ some (n % d)
umod64-remainder n d l p h =
    umod64_lem n d (n / d) (udiv64-quotient n d l p h)
    ∙ ap some (
        ap (λ m. m % 2 ^ 32) (sub_64_lem n (d * (n / d)) (mul-div-le n d) l)
        ∙ (ap (λ m. m % 2 ^ 32) (sym (mod-eq-sub-mul-div n d)) ∙ omega (arith, mod-lt n p)))

-- For a divisor of more than 32 bits and a smaller number, where the remainder is the number, umod64()
-- returns its low 32 bits only.
pub umod64-truncates :
    (n d : ℕ) → n < d → 2 ^ 32 ≤ d → d < 2 ^ 64 → (n % d ≡ n) × (umod64 n d ≡ some (n % 2 ^ 32))
unfolding udiv64
umod64-truncates n d h l b =
    let large : (d / 2 ^ 32 == 0) ≡ false = ground arith in
    let less : ltb n d ≡ true = ground arith in
    (mod-eq_of_lt h, umod64_lem n d 0 (rw (large, less) refl) ∙ ap some (grind arith))
