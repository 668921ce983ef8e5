-- ===== src/Bitmap/Scan.antt =====
-- bitmap_scan finds the first group of equal bits, and bitmap_scan_and_flip flips just that group.
use operation_system.Base.{
  ℕ, zero, suc, ◌+◌, ◌-◌, ◌^◌, ◌≤◌, ◌<◌, ◌≡◌, refl, ◌≢◌, ◌⊎◌, inl, inr, Bool, true, false, not,
  some, arith, leb, ◌==◌, if◌then◌else◌, sym, ◌∙◌, Bool-cases,
}
use operation_system.Bitmap.{
  Bitmap, bitmap_error, bitmap_contains, scan_from, bitmap_scan, bitmap_set_multiple,
  bitmap_scan_and_flip,
}
use operation_system.Bitmap.Range.{
  IsFilled, AllBits, Answers, bitmap_contains-Answers, bitmap_set_multiple-IsFilled,
}

-- No group of `cnt` such bits starts from `start` on and before `stop`.
abbrev pub NoGroup : Bitmap → (start stop cnt : ℕ) → Bool → Type 0
NoGroup b start stop cnt value =
    (i : ℕ) → start ≤ i → i < stop → i + cnt ≤ b.bit_cnt → ¬ AllBits b i cnt value

-- `r` is where the first group from `start` on begins.
pub record IsFirst (b : Bitmap) (start cnt : ℕ) (value : Bool) (r : ℕ) : Type 0 where
  pub from : start ≤ r
  pub inside : r + cnt ≤ b.bit_cnt
  pub group : AllBits b r cnt value
  pub first : NoGroup b start r cnt value

-- What a scan returns.
abbrev pub Scanned : Bitmap → (start cnt : ℕ) → Bool → ℕ → Type 0
Scanned b start cnt value r =
    IsFirst b start cnt value r ⊎ ((r ≡ bitmap_error) × NoGroup b start (b.bit_cnt + 1) cnt value)

not-not : (x : Bool) → not (not x) ≡ x
not-not true = refl
not-not false = refl

not_same : (x : Bool) → x ≢ not x
not_same true = λ e. cc
not_same false = λ e. cc

scan_from-step :
    (cnt : ℕ) (value : Bool) (n i : ℕ) (b : Bitmap) (c : Bool)
    → bitmap_contains i cnt (not value) b ≡ some c
    → scan_from cnt value (suc n) i b ≡ (if c then scan_from cnt value n (i + 1) b else some i)
unfolding scan_from
scan_from-step cnt value n i b c e = ground arith

scan_from-done :
    (cnt : ℕ) (value : Bool) (i : ℕ) (b : Bitmap) → scan_from cnt value 0 i b ≡ some bitmap_error
unfolding scan_from
scan_from-done cnt value i b = refl

Scanned-later :
    (b : Bitmap) (i cnt : ℕ) (value : Bool) (r : ℕ)
    → ¬ AllBits b i cnt value
    → Scanned b (i + 1) cnt value r
    → Scanned b i cnt value r
Scanned-later b i cnt value r unmet (inl f) = inl (record {
  from = omega (arith, f.from);
  inside = f.inside;
  group = f.group;
  first = λ j h g o. elim (Bool-cases (i == j)) [
    | inl e ↦ λ q. unmet (λ m p. q m (ground arith))
    | inr e ↦ f.first j (ground arith) g o
  ];
})
Scanned-later b i cnt value r unmet (inr (e, none_later)) = inr (
  e,
  λ j h g o. elim (Bool-cases (i == j)) [
    | inl q ↦ λ a. unmet (λ m p. a m (ground arith))
    | inr q ↦ none_later j (ground arith) g o
  ],
)

refuted :
    (b : Bitmap) (i cnt : ℕ) (value : Bool)
    → Answers b i cnt (not value) true
    → ¬ AllBits b i cnt value
refuted b i cnt value (j, p, e) = λ a. not_same value (sym (a j p) ∙ e)

-- One round of the loop, with what the later ones return.
round :
    (cnt : ℕ) (value : Bool) (n i : ℕ) (b : Bitmap) (c : Bool)
    → i + cnt ≤ b.bit_cnt
    → bitmap_contains i cnt (not value) b ≡ some c
    → Answers b i cnt (not value) c
    → (r : ℕ) × (scan_from cnt value n (i + 1) b ≡ some r) × Scanned b (i + 1) cnt value r
    → (r : ℕ) × (scan_from cnt value (suc n) i b ≡ some r) × Scanned b i cnt value r
round cnt value n i b true h q a (r, g, f) = (
  r,
  scan_from-step cnt value n i b true q ∙ g,
  Scanned-later b i cnt value r (refuted b i cnt value a) f,
)
round cnt value n i b false h q a later = (
  i,
  scan_from-step cnt value n i b false q,
  inl (record {
    from = omega arith;
    inside = h;
    group = λ j p. a j p ∙ not-not value;
    first = λ j p g o. absurd (omega arith);
  }),
)

scan_from_lem :
    (cnt : ℕ) (value : Bool) (n i : ℕ) (b : Bitmap)
    → n ≡ b.bit_cnt + 1 - cnt - i
    → b.bit_cnt < 2 ^ 32
    → (r : ℕ) × (scan_from cnt value n i b ≡ some r) × Scanned b i cnt value r
scan_from_lem cnt value zero i b e s =
    (bitmap_error, scan_from-done cnt value i b, inr (refl, λ j h g o. absurd (omega arith)))
scan_from_lem cnt value (suc n) i b e s =
    let (c, q, a) = bitmap_contains-Answers i cnt (not value) b (omega arith) s in
    round cnt value n i b c (omega arith) q a (scan_from_lem cnt value n (i + 1) b (omega arith) s)

-- On a bitmap of fewer than 2^32 bits, from a position inside it or at its end, bitmap_scan() fails
-- no assertion; it returns the first position from there on where a group of that many such bits
-- begins, or BITMAP_ERROR if there is none.
pub bitmap_scan-Scanned :
    (start cnt : ℕ) (value : Bool) (b : Bitmap)
    → start ≤ b.bit_cnt
    → b.bit_cnt < 2 ^ 32
    → (r : ℕ) × (bitmap_scan start cnt value b ≡ some r) × Scanned b start cnt value r
unfolding bitmap_scan
bitmap_scan-Scanned start cnt value b h s = elim (Bool-cases (leb cnt b.bit_cnt)) [
  | inl e ↦
      let (r, g, f) =
        scan_from_lem cnt value (b.bit_cnt - cnt + 1 - start) start b (ground arith) s in
      (r, ground arith, f)
  | inr e ↦ (bitmap_error, ground arith, inr (refl, λ i p g o. absurd (ground arith)))
]

-- What bitmap_scan_and_flip() leaves: the first group with each bit flipped, or all as it was.
abbrev pub Flipped : (start cnt : ℕ) → Bool → Bitmap → ℕ → Bitmap → Type 0
Flipped start cnt value b r b' =
    (IsFirst b start cnt value r × IsFilled r cnt (not value) b b')
    ⊎ ((r ≡ bitmap_error) × NoGroup b start (b.bit_cnt + 1) cnt value × (b' ≡ b))

flip_lem :
    (start cnt : ℕ) (value : Bool) (b b1 : Bitmap) (r : ℕ)
    → bitmap_scan start cnt value b ≡ some r
    → (if r == bitmap_error then some b else bitmap_set_multiple r cnt (not value) b) ≡ some b1
    → bitmap_scan_and_flip start cnt value b ≡ some (r, b1)
unfolding bitmap_scan_and_flip
flip_lem start cnt value b b1 r e g = ground arith

-- On a bitmap of fewer than 2^32 - 1 bits, from a position inside it or at its end and for a group
-- of one bit or more, bitmap_scan_and_flip() fails no assertion; it returns the first position from
-- there on where a group of that many such bits begins, and flips the bits of that group and no
-- other, or it returns BITMAP_ERROR if there is none, and changes nothing.
pub bitmap_scan_and_flip-Flipped :
    (start cnt : ℕ) (value : Bool) (b : Bitmap)
    → start ≤ b.bit_cnt
    → b.bit_cnt < bitmap_error
    → 0 < cnt
    → (r : ℕ) × (b' : Bitmap) × (bitmap_scan_and_flip start cnt value b ≡ some (r, b'))
      × Flipped start cnt value b r b'
bitmap_scan_and_flip-Flipped start cnt value b h s _ =
    let (r, e, f) = bitmap_scan-Scanned start cnt value b h (omega arith) in finish r e f
  where
    finish :
        (r : ℕ)
        → bitmap_scan start cnt value b ≡ some r
        → Scanned b start cnt value r
        → (r : ℕ) × (b' : Bitmap) × (bitmap_scan_and_flip start cnt value b ≡ some (r, b'))
          × Flipped start cnt value b r b'
    finish r e (inl f) =
        let (b', g, p) = bitmap_set_multiple-IsFilled r cnt (not value) b f.inside (omega arith) in
        (r, b', flip_lem start cnt value b b' r e (ground (arith, f.inside)), inl (f, p))
    finish r e (inr (q, unmet)) =
        (r, b, flip_lem start cnt value b b r e (ground arith), inr (q, unmet, refl))
