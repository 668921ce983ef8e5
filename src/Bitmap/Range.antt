-- ===== src/Bitmap/Range.antt =====
-- What the operations on one bit and on a range of bits do to the bits of a bitmap.
use operation_system.Base.{
  ℕ, zero, suc, ◌+◌, ◌/◌, ◌%◌, ◌^◌, ◌≤◌, ◌<◌, ◌≡◌, refl, Bool, true, false, not, ◌&&◌, some, arith,
  leb, ltb, ◌==◌, if◌then◌else◌, ap, sym, ◌∙◌, Bool-cases, inl, inr,
}
use operation_system.Bitmap.{
  bitmap_reset, bitmap_mark, Bitmap, elem_bits, same, bitmap_set, bitmap_test, set_from,
  bitmap_set_multiple, contains_from, bitmap_contains,
}

-- Bit number `i`, wherever it is stored.
abbrev pub bit : Bitmap → ℕ → Bool
bit b i = b.bits (i / elem_bits) (i % elem_bits)

-- `i` lies in the range of `cnt` bits from `start` on.
abbrev pub in_range : (start cnt i : ℕ) → Bool
in_range start cnt i = leb start i && ltb i (start + cnt)

-- `b'` is `b` with the bits of a range set to `value`.
pub record IsFilled (start cnt : ℕ) (value : Bool) (b b' : Bitmap) : Type 0 where
  pub size : b'.bit_cnt ≡ b.bit_cnt
  pub bits : (i : ℕ) → bit b' i ≡ (if in_range start cnt i then value else bit b i)

same_place : (i j : ℕ) → i / 32 ≡ j / 32 → i % 32 ≡ j % 32 → i ≡ j
same_place i j p q = omega arith

bitmap_set_lem :
    (idx : ℕ) (value : Bool) (b : Bitmap)
    → idx < b.bit_cnt
    → (b' : Bitmap) × (bitmap_set idx value b ≡ some b') × IsFilled idx 1 value b b'
unfolding bitmap_set bitmap_mark bitmap_reset
bitmap_set_lem idx true b h = (
  bitmap_mark idx b,
  ground arith,
  record { size = refl; bits = λ i. ground (arith, same_place i idx) },
)
bitmap_set_lem idx false b h = (
  bitmap_reset idx b,
  ground arith,
  record { size = refl; bits = λ i. ground (arith, same_place i idx) },
)

bitmap_test_lem : (idx : ℕ) (b : Bitmap) → idx < b.bit_cnt → bitmap_test idx b ≡ some (bit b idx)
unfolding bitmap_test
bitmap_test_lem idx b h = ground arith

set_from-step :
    (value : Bool) (n p : ℕ) (b b1 : Bitmap)
    → p < 2 ^ 32
    → bitmap_set p value b ≡ some b1
    → set_from value (suc n) p b ≡ set_from value n (p + 1) b1
unfolding set_from
set_from-step value n p b b1 h e = ground arith

set_from-done : (value : Bool) (p : ℕ) (b : Bitmap) → set_from value 0 p b ≡ some b
unfolding set_from
set_from-done value p b = refl

set_from_lem :
    (value : Bool) (n p : ℕ) (b : Bitmap)
    → p + n ≤ b.bit_cnt
    → b.bit_cnt < 2 ^ 32
    → (b' : Bitmap) × (set_from value n p b ≡ some b') × IsFilled p n value b b'
set_from_lem value zero p b h s =
    (b, set_from-done value p b, record { size = refl; bits = λ i. ground arith })
set_from_lem value (suc n) p b h s =
    let (b1, e, f) = bitmap_set_lem p value b (omega arith) in
    let (b2, g, r) =
      set_from_lem value n (p + 1) b1 (omega (arith, f.size)) (omega (arith, f.size)) in
    (
      b2,
      set_from-step value n p b b1 (omega arith) e ∙ g,
      record { size = r.size ∙ f.size; bits = λ i. ground (arith, r.bits i, f.bits i) },
    )

-- On a range inside a bitmap of fewer than 2^32 bits bitmap_set_multiple() fails no assertion, sets
-- every bit of the range to the value, and changes neither another bit nor the size.
pub bitmap_set_multiple-IsFilled :
    (start cnt : ℕ) (value : Bool) (b : Bitmap)
    → start + cnt ≤ b.bit_cnt
    → b.bit_cnt < 2 ^ 32
    → (b' : Bitmap) × (bitmap_set_multiple start cnt value b ≡ some b')
      × IsFilled start cnt value b b'
unfolding bitmap_set_multiple
bitmap_set_multiple-IsFilled start cnt value b h s =
    let (b', e, f) = set_from_lem value cnt start b h s in (b', ground arith, f)

-- Every bit of the range is `value`.
abbrev pub AllBits : Bitmap → (start cnt : ℕ) → Bool → Type 0
AllBits b start cnt value = (i : ℕ) → in_range start cnt i ≡ true → bit b i ≡ value

-- What bitmap_contains(value) answers, and why.
abbrev pub Answers : Bitmap → (start cnt : ℕ) → Bool → Bool → Type 0
Answers b start cnt value true = (i : ℕ) × (in_range start cnt i ≡ true) × (bit b i ≡ value)
Answers b start cnt value false = AllBits b start cnt (not value)

contains_from-step :
    (value : Bool) (n p : ℕ) (b : Bitmap)
    → p < b.bit_cnt
    → b.bit_cnt < 2 ^ 32
    → contains_from value (suc n) p b
      ≡ (if same (bit b p) value then some true else contains_from value n (p + 1) b)
unfolding contains_from bitmap_test
contains_from-step value n p b h s = ground arith

contains_from-done : (value : Bool) (p : ℕ) (b : Bitmap) → contains_from value 0 p b ≡ some false
unfolding contains_from
contains_from-done value p b = refl

same→eq : (x y : Bool) → same x y ≡ true → x ≡ y
same→eq true y h = sym h
same→eq false y h = ground arith

same→ne : (x y : Bool) → same x y ≡ false → x ≡ not y
same→ne true y h = ground arith
same→ne false y h = ground arith

Answers-later :
    (b : Bitmap) (n p : ℕ) (value r : Bool)
    → bit b p ≡ not value
    → Answers b (p + 1) n value r
    → Answers b p (suc n) value r
Answers-later b n p value true h (i, q, e) = (i, ground arith, e)
Answers-later b n p value false h f =
    λ i q. elim (Bool-cases (i == p)) [ inl e ↦ ground arith | inr e ↦ f i (ground arith) ]

contains_from_lem :
    (value : Bool) (n p : ℕ) (b : Bitmap)
    → p + n ≤ b.bit_cnt
    → b.bit_cnt < 2 ^ 32
    → (r : Bool) × (contains_from value n p b ≡ some r) × Answers b p n value r
contains_from_lem value zero p b h s =
    (false, contains_from-done value p b, λ i q. absurd (ground arith))
contains_from_lem value (suc n) p b h s = elim (Bool-cases (same (bit b p) value)) [
  | inl e ↦ (
    true,
    contains_from-step value n p b (omega arith) s
        ∙ ap (λ c. if c then some true else contains_from value n (p + 1) b) e,
    (p, ground arith, same→eq (bit b p) value e),
  )
  | inr e ↦
      let (r, g, a) = contains_from_lem value n (p + 1) b (omega arith) s in
      (
        r,
        contains_from-step value n p b (omega arith) s
            ∙ (ap (λ c. if c then some true else contains_from value n (p + 1) b) e ∙ g),
        Answers-later b n p value r (same→ne (bit b p) value e) a,
      )
]

-- On a range inside a bitmap of fewer than 2^32 bits bitmap_contains() fails no assertion; if it
-- answers true then a bit of the range is the value, and if it answers false then none is.
pub bitmap_contains-Answers :
    (start cnt : ℕ) (value : Bool) (b : Bitmap)
    → start + cnt ≤ b.bit_cnt
    → b.bit_cnt < 2 ^ 32
    → (r : Bool) × (bitmap_contains start cnt value b ≡ some r) × Answers b start cnt value r
unfolding bitmap_contains
bitmap_contains-Answers start cnt value b h s =
    let (r, e, a) = contains_from_lem value cnt start b h s in (r, ground arith, a)
