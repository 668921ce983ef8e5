-- ===== src/FixedPoint/Tests.antt =====
-- fixed-point.h at concrete numbers.
use operation_system.Base.{◌≡◌, refl, ◌*◌, ◌≤◌, ◌^◌, ◌-◌, arith}
use operation_system.Base.Int.{pos, negsuc, abs, ◌+ℤ◌, ◌-ℤ◌, ◌*ℤ◌, ◌/ℤ◌, to_int32}
use operation_system.FixedPoint.{fp_f, fp_to_int_round, fp_div}
use operation_system.FixedPoint.Laws.{fp_to_int_round-nearest}

fp_to_int_round-nearest_example :
    2 * abs (negsuc 24575 -ℤ fp_to_int_round (negsuc 24575) *ℤ pos fp_f) ≤ fp_f
fp_to_int_round-nearest_example = fp_to_int_round-nearest (negsuc 24575) (omega arith)

-- 59/60 of a load of 1.5, in the order that the scheduler computes it.
fp_div-thirds : fp_div (pos 2) (pos 3) ≡ pos 10922
unfolding fp_div to_int32 ◌*ℤ◌ ◌/ℤ◌
fp_div-thirds = refl

-- The rounding of the largest `int` overflows.
fp_to_int_round-largest : fp_to_int_round (pos (2 ^ 31 - 1)) ≡ negsuc 131_070
unfolding fp_to_int_round to_int32 ◌+ℤ◌ ◌-ℤ◌ ◌/ℤ◌
fp_to_int_round-largest = refl
