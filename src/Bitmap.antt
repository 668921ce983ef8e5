-- ===== src/Bitmap.antt =====
-- pintos/src/lib/kernel/bitmap.c. An element of the array is the function from its bit positions, so
-- that the OR with a mask of one bit sets that bit. size_t has 32 bits; `none` is a failed ASSERT.
-- Allocation and files are left out.
pub mod Range
pub mod Scan
mod Tests
use operation_system.Base.{
  ℕ, zero, suc, ◌+◌, ◌-◌, ◌*◌, ◌/◌, ◌%◌, ◌^◌, Bool, true, false, not, Option, none, some, leb, ltb,
  ◌==◌, if◌then◌else◌, assert, ◌>>=◌, ◌>>◌,
}

-- `elem_type`, by the position of the bit.
abbrev pub Elem : Type 0
Elem = ℕ → Bool

abbrev pub elem_bits : ℕ
elem_bits = 32

-- `struct bitmap`.
pub record Bitmap : Type 0 where
  pub bit_cnt : ℕ
  pub bits : ℕ → Elem

abbrev pub bitmap_error : ℕ
bitmap_error = 2 ^ 32 - 1

unfoldable pub elem_idx : ℕ → ℕ
elem_idx bit_idx = bit_idx / elem_bits

-- `1 << (bit_idx % ELEM_BITS)`
unfoldable pub bit_mask : ℕ → Elem
bit_mask bit_idx = λ i. i == bit_idx % elem_bits

-- DIV_ROUND_UP (bit_cnt, ELEM_BITS)
unfoldable pub elem_cnt : ℕ → ℕ
elem_cnt bit_cnt = (bit_cnt + elem_bits - 1) % 2 ^ 32 / elem_bits

unfoldable pub byte_cnt : ℕ → ℕ
unfolding elem_cnt
byte_cnt bit_cnt = 4 * elem_cnt bit_cnt

-- `sizeof (struct bitmap)` is 8.
unfoldable pub bitmap_buf_size : ℕ → ℕ
unfolding byte_cnt
bitmap_buf_size bit_cnt = 8 + byte_cnt bit_cnt

unfoldable pub bitmap_size : Bitmap → ℕ
bitmap_size b = b.bit_cnt

-- Each element but number `idx` is kept, and that one is changed bit by bit.
abbrev pub change : (Bool → Bool → Bool) → ℕ → Elem → Bitmap → Bitmap
change op idx mask b = record b {
  bits = λ e i. if e == idx then op (b.bits e i) (mask i) else b.bits e i;
}

-- `|=`, `&= ~` and `^=` on one bit.
abbrev pub or_bit : Bool → Bool → Bool
or_bit x m = if m then true else x

abbrev pub clear_bit : Bool → Bool → Bool
clear_bit x m = if m then false else x

abbrev pub xor_bit : Bool → Bool → Bool
xor_bit x m = if m then not x else x

unfoldable pub bitmap_mark : ℕ → Bitmap → Bitmap
unfolding elem_idx bit_mask
bitmap_mark bit_idx b = change or_bit (elem_idx bit_idx) (bit_mask bit_idx) b

unfoldable pub bitmap_reset : ℕ → Bitmap → Bitmap
unfolding elem_idx bit_mask
bitmap_reset bit_idx b = change clear_bit (elem_idx bit_idx) (bit_mask bit_idx) b

unfoldable pub bitmap_flip : ℕ → Bitmap → Bitmap
unfolding elem_idx bit_mask
bitmap_flip bit_idx b = change xor_bit (elem_idx bit_idx) (bit_mask bit_idx) b

unfoldable pub bitmap_set : ℕ → Bool → Bitmap → Option Bitmap
unfolding bitmap_mark bitmap_reset
bitmap_set idx value b = do
  assert (ltb idx b.bit_cnt)
  some (if value then bitmap_mark idx b else bitmap_reset idx b)

-- `(b->bits[elem_idx (idx)] & bit_mask (idx)) != 0`: the mask has one bit.
unfoldable pub bitmap_test : ℕ → Bitmap → Option Bool
unfolding elem_idx
bitmap_test idx b = do assert (ltb idx b.bit_cnt); some (b.bits (elem_idx idx) (idx % elem_bits))

-- The loop of bitmap_set_multiple, `n` rounds from position `p` on.
unfoldable pub set_from : Bool → (n p : ℕ) → Bitmap → Option Bitmap
unfolding bitmap_set
set_from value zero p b = some b
set_from value (suc n) p b = do b1 ← bitmap_set (p % 2 ^ 32) value b; set_from value n (p + 1) b1

unfoldable pub bitmap_set_multiple : (start cnt : ℕ) → Bool → Bitmap → Option Bitmap
unfolding set_from
bitmap_set_multiple start cnt value b = do
  assert (leb start b.bit_cnt)
  assert (leb ((start + cnt) % 2 ^ 32) b.bit_cnt)
  set_from value cnt start b

unfoldable pub bitmap_set_all : Bool → Bitmap → Option Bitmap
unfolding bitmap_set_multiple bitmap_size
bitmap_set_all value b = bitmap_set_multiple 0 (bitmap_size b) value b

-- bitmap_create_in_buf, where `bits` is what the buffer holds.
unfoldable pub bitmap_create_in_buf : (bit_cnt block_size : ℕ) → (ℕ → Elem) → Option Bitmap
unfolding bitmap_buf_size bitmap_set_all
bitmap_create_in_buf bit_cnt block_size bits = do
  assert (leb (bitmap_buf_size bit_cnt) block_size)
  bitmap_set_all false (record { bit_cnt = bit_cnt; bits = bits })

-- `==` on bool.
abbrev pub same : Bool → Bool → Bool
same true y = y
same false y = not y

-- The loop of bitmap_count.
unfoldable pub count_from : Bool → (n p value_cnt : ℕ) → Bitmap → Option ℕ
unfolding bitmap_test
count_from value zero p value_cnt b = some value_cnt
count_from value (suc n) p value_cnt b = do
  t ← bitmap_test (p % 2 ^ 32) b
  count_from value n (p + 1) (if same t value then value_cnt + 1 else value_cnt) b

unfoldable pub bitmap_count : (start cnt : ℕ) → Bool → Bitmap → Option ℕ
unfolding count_from
bitmap_count start cnt value b = do
  assert (leb start b.bit_cnt)
  assert (leb ((start + cnt) % 2 ^ 32) b.bit_cnt)
  count_from value cnt start 0 b

-- The loop of bitmap_contains.
unfoldable pub contains_from : Bool → (n p : ℕ) → Bitmap → Option Bool
unfolding bitmap_test
contains_from value zero p b = some false
contains_from value (suc n) p b =
    let next : Option Bool = contains_from value n (p + 1) b in
    (do t ← bitmap_test (p % 2 ^ 32) b; if same t value then some true else next)

unfoldable pub bitmap_contains : (start cnt : ℕ) → Bool → Bitmap → Option Bool
unfolding contains_from
bitmap_contains start cnt value b = do
  assert (leb start b.bit_cnt)
  assert (leb ((start + cnt) % 2 ^ 32) b.bit_cnt)
  contains_from value cnt start b

unfoldable pub bitmap_any : (start cnt : ℕ) → Bitmap → Option Bool
unfolding bitmap_contains
bitmap_any start cnt b = bitmap_contains start cnt true b

unfoldable pub bitmap_none : (start cnt : ℕ) → Bitmap → Option Bool
unfolding bitmap_contains
bitmap_none start cnt b = do c ← bitmap_contains start cnt true b; some (not c)

unfoldable pub bitmap_all : (start cnt : ℕ) → Bitmap → Option Bool
unfolding bitmap_contains
bitmap_all start cnt b = do c ← bitmap_contains start cnt false b; some (not c)

-- The loop of bitmap_scan, `n` rounds from `i` on.
unfoldable pub scan_from : (cnt : ℕ) → Bool → (n i : ℕ) → Bitmap → Option ℕ
unfolding bitmap_contains
scan_from cnt value zero i b = some bitmap_error
scan_from cnt value (suc n) i b =
    let next : Option ℕ = scan_from cnt value n (i + 1) b in
    (do c ← bitmap_contains i cnt (not value) b; if c then next else some i)

-- The rounds from `start` to `last` are `last + 1 - start`, none if `start` is above.
unfoldable pub bitmap_scan : (start cnt : ℕ) → Bool → Bitmap → Option ℕ
unfolding scan_from
bitmap_scan start cnt value b = do
  assert (leb start b.bit_cnt)
  if leb cnt b.bit_cnt
      then scan_from cnt value (b.bit_cnt - cnt + 1 - start) start b
      else some bitmap_error

unfoldable pub bitmap_scan_and_flip : (start cnt : ℕ) → Bool → Bitmap → Option (ℕ × Bitmap)
unfolding bitmap_scan bitmap_set_multiple
bitmap_scan_and_flip start cnt value b = do
  idx ← bitmap_scan start cnt value b
  b1 ← if idx == bitmap_error then some b else bitmap_set_multiple idx cnt (not value) b
  some (idx, b1)
