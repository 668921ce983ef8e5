-- ===== src/Arithmetic.antt =====
-- pintos/src/lib/arithmetic.c: division of 64-bit numbers. A signed number is the unsigned one with the
-- same bits. `none` is the divide error of the DIVL instruction or of a division by zero.
pub mod Division
mod Tests
use operation_system.Base.{
  ℕ, ◌+◌, ◌-◌, ◌*◌, ◌/◌, ◌%◌, ◌^◌, Bool, true, false, not, ◌&&◌, ◌||◌, Option, none, some, leb, ltb,
  ◌==◌, if◌then◌else◌, assert, ◌>>=◌, ◌>>◌,
}

-- a - b on uint64_t.
abbrev pub sub_64 : ℕ → ℕ → ℕ
sub_64 a b = (a + (2 ^ 64 - b % 2 ^ 64)) % 2 ^ 64

unfoldable pub divl : (n d : ℕ) → Option ℕ
divl n d = do assert (not (d == 0) && ltb (n / d) (2 ^ 32)); some (n / d)

-- A step of nlz: `k` bits are counted and shifted out if the number is no larger than the limit.
abbrev pub shift_out : (limit k : ℕ) → ℕ × ℕ → ℕ × ℕ
shift_out limit k (n, x) = if leb x limit then (n + k, x * 2 ^ k % 2 ^ 32) else (n, x)

unfoldable pub nlz : ℕ → ℕ
nlz x =
    (shift_out 0x7fffffff 1 (
      shift_out 0x3fffffff 2
        (shift_out 0x0fffffff 4 (shift_out 0x00ffffff 8 (shift_out 0x0000ffff 16 (0, x)))))).0

-- The divisor fits in 32 bits.
unfoldable pub udiv_short : (n d : ℕ) → Option ℕ
unfolding divl
udiv_short n d = do
  let b = 2 ^ 32
  let n1 = n / 2 ^ 32
  let n0 = n % 2 ^ 32
  assert (not (d == 0))
  q ← divl ((b * (n1 % d) + n0) % 2 ^ 64) d
  some ((q + b * (n1 / d)) % 2 ^ 64)

-- It does not, and is no larger than the other number.
unfoldable pub udiv_long : (n d : ℕ) → Option ℕ
unfolding divl nlz
udiv_long n d = do
  let d1 = d / 2 ^ 32
  let s = nlz d1
  r ← divl (n / 2) (d * 2 ^ s % 2 ^ 64 / 2 ^ 32)
  let q = r / 2 ^ (31 - s)
  let q1 = sub_64 q 1
  some (if ltb (sub_64 n (q1 * d)) d then q1 else q)

unfoldable pub udiv64 : (n d : ℕ) → Option ℕ
unfolding udiv_short udiv_long
udiv64 n d = if d / 2 ^ 32 == 0 then udiv_short n d else if ltb n d then some 0 else udiv_long n d

-- The result is a uint32_t.
unfoldable pub umod64 : (n d : ℕ) → Option ℕ
unfolding udiv64
umod64 n d = do q ← udiv64 n d; some (sub_64 n (d * q) % 2 ^ 32)

abbrev pub is_negative : ℕ → Bool
is_negative n = leb (2 ^ 63) n

abbrev pub abs_64 : ℕ → ℕ
abs_64 n = if is_negative n then sub_64 0 n else n

unfoldable pub sdiv64 : (n d : ℕ) → Option ℕ
unfolding udiv64
sdiv64 n d = do
  q ← udiv64 (abs_64 n) (abs_64 d)
  let same_sign = (is_negative n && is_negative d) || (not (is_negative n) && not (is_negative d))
  some (if same_sign then q else sub_64 0 q)

-- The int32_t that is the result, widened again by its sign.
abbrev pub through_int32 : ℕ → ℕ
through_int32 n = if ltb (n % 2 ^ 32) (2 ^ 31) then n % 2 ^ 32 else n % 2 ^ 32 + (2 ^ 64 - 2 ^ 32)

unfoldable pub smod64 : (n d : ℕ) → Option ℕ
unfolding sdiv64
smod64 n d = do q ← sdiv64 n d; some (through_int32 (sub_64 n (d * q)))

unfoldable pub divdi3 : (n d : ℕ) → Option ℕ
unfolding sdiv64
divdi3 n d = sdiv64 n d

unfoldable pub moddi3 : (n d : ℕ) → Option ℕ
unfolding smod64
moddi3 n d = smod64 n d

unfoldable pub udivdi3 : (n d : ℕ) → Option ℕ
unfolding udiv64
udivdi3 n d = udiv64 n d

unfoldable pub umoddi3 : (n d : ℕ) → Option ℕ
unfolding umod64
umoddi3 n d = umod64 n d
