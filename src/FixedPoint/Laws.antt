-- ===== src/FixedPoint/Laws.antt =====
-- What the conversions of fixed-point.h return.
use operation_system.Base.{◌/◌, ℕ, suc, ◌+◌, ◌*◌, ◌^◌, ◌≤◌, ◌<◌, ◌≡◌, refl, arith}
use operation_system.Base.Int.{ℤ, pos, negsuc, sub_ℕ, abs, ◌+ℤ◌, ◌-ℤ◌, ◌*ℤ◌, ◌/ℤ◌, to_int32}
use operation_system.FixedPoint.{fp_f, fp_from_int, fp_to_int_trunc, fp_to_int_round}

round-pos : (n : ℕ) → n + 2 ^ 13 < 2 ^ 31 → fp_to_int_round (pos n) ≡ pos ((n + 2 ^ 13) / fp_f)
unfolding fp_to_int_round ◌/ℤ◌ ◌+ℤ◌ ◌-ℤ◌ to_int32
round-pos n h = ground arith

round-negsuc :
    (n : ℕ)
    → suc n + 2 ^ 13 < 2 ^ 31
    → fp_to_int_round (negsuc n) ≡ sub_ℕ 0 ((suc n + 2 ^ 13) / fp_f)
unfolding fp_to_int_round ◌/ℤ◌ ◌+ℤ◌ ◌-ℤ◌ to_int32
round-negsuc n h = ground arith

from_int-pos : (n : ℕ) → n < 2 ^ 17 → fp_from_int (pos n) ≡ pos (n * fp_f)
unfolding fp_from_int ◌*ℤ◌ to_int32
from_int-pos n h = ground arith

from_int-negsuc : (n : ℕ) → suc n < 2 ^ 17 → fp_from_int (negsuc n) ≡ negsuc (n * fp_f + 16383)
unfolding fp_from_int ◌*ℤ◌ to_int32
from_int-negsuc n h = ground arith

-- Converting an integer of an absolute value below 2^17 to fixed point and back gives it again, by
-- truncation and by rounding.
pub fp_to_int-fp_from_int :
    (n : ℤ)
    → abs n < 2 ^ 17
    → (fp_to_int_trunc (fp_from_int n) ≡ n) × (fp_to_int_round (fp_from_int n) ≡ n)
unfolding fp_to_int_trunc ◌/ℤ◌
fp_to_int-fp_from_int (pos n) h =
    rw (from_int-pos n (omega arith))
      (ground arith, rw (round-pos (n * fp_f) (omega arith)) (ground arith))
fp_to_int-fp_from_int (negsuc n) h =
    rw (from_int-negsuc n (omega arith))
      (ground arith, rw (round-negsuc (n * fp_f + 16383) (omega arith)) (ground arith))

nearest-pos : (n m : ℕ) → m ≡ (n + 2 ^ 13) / fp_f → 2 * abs (pos n -ℤ pos m *ℤ pos fp_f) ≤ fp_f
unfolding ◌*ℤ◌ ◌-ℤ◌
nearest-pos n m h = ground arith

nearest-negsuc :
    (n m : ℕ) → m ≡ (suc n + 2 ^ 13) / fp_f → 2 * abs (negsuc n -ℤ sub_ℕ 0 m *ℤ pos fp_f) ≤ fp_f
unfolding ◌*ℤ◌ ◌-ℤ◌
nearest-negsuc n m h = ground arith

-- Rounding is to the nearest integer: for every fixed-point number x of an absolute value below
-- 2^31 - 2^13, where the sum that rounds does not overflow, twice the distance of x from 2^14 times
-- the rounded integer is at most 2^14.
pub fp_to_int_round-nearest :
    (x : ℤ) → abs x + 2 ^ 13 < 2 ^ 31 → 2 * abs (x -ℤ fp_to_int_round x *ℤ pos fp_f) ≤ fp_f
fp_to_int_round-nearest (pos n) h = rw (round-pos n (omega arith)) (nearest-pos n _ refl)
fp_to_int_round-nearest (negsuc n) h = rw (round-negsuc n (omega arith)) (nearest-negsuc n _ refl)

-- Where that sum does not overflow, the rounded integer is at least as far from zero as the
-- truncated one, by at most one.
pub fp_to_int_round-trunc :
    (x : ℤ)
    → abs x + 2 ^ 13 < 2 ^ 31
    → (abs (fp_to_int_trunc x) ≤ abs (fp_to_int_round x))
      × (abs (fp_to_int_round x) ≤ abs (fp_to_int_trunc x) + 1)
unfolding fp_to_int_trunc ◌/ℤ◌
fp_to_int_round-trunc (pos n) h = rw (round-pos n (omega arith)) (omega arith)
fp_to_int_round-trunc (negsuc n) h = rw (round-negsuc n (omega arith)) (ground arith)
