-- ===== src/FixedPoint.antt =====
-- pintos/src/threads/fixed-point.h: 17.14 fixed-point numbers in an `int`. C leaves the overflow of a
-- signed sum or product undefined; the code that the repository's build makes at -O0 wraps it modulo
-- 2^32, and so does each sum, difference and product here. The divisions that trap, by zero and of
-- the least `int` by -1, are not modelled.
pub mod Laws
mod Tests
use operation_system.Base.{ℕ, ◌+◌, ◌*◌, ◌^◌, Bool, if◌then◌else◌}
use operation_system.Base.Int.{ℤ, pos, negsuc, ◌+ℤ◌, ◌-ℤ◌, ◌*ℤ◌, ◌/ℤ◌, ltb_ℤ, to_int32}

-- FP_F: 1 << 14.
abbrev pub fp_f : ℕ
fp_f = 2 ^ 14

unfoldable pub fp_from_int : ℤ → ℤ
fp_from_int n = to_int32 (n *ℤ pos fp_f)

unfoldable pub fp_to_int_trunc : ℤ → ℤ
fp_to_int_trunc x = x /ℤ pos fp_f

unfoldable pub fp_to_int_round : ℤ → ℤ
fp_to_int_round x =
    if ltb_ℤ x (pos 0)
    then to_int32 (x -ℤ pos (2 ^ 13)) /ℤ pos fp_f
    else to_int32 (x +ℤ pos (2 ^ 13)) /ℤ pos fp_f

unfoldable pub fp_add : ℤ → ℤ → ℤ
fp_add x y = to_int32 (x +ℤ y)

unfoldable pub fp_sub : ℤ → ℤ → ℤ
fp_sub x y = to_int32 (x -ℤ y)

unfoldable pub fp_add_int : ℤ → ℤ → ℤ
fp_add_int x n = to_int32 (x +ℤ to_int32 (n *ℤ pos fp_f))

unfoldable pub fp_sub_int : ℤ → ℤ → ℤ
fp_sub_int x n = to_int32 (x -ℤ to_int32 (n *ℤ pos fp_f))

-- The product and the quotient are taken in 64 bits and cast back.
unfoldable pub fp_mul : ℤ → ℤ → ℤ
fp_mul x y = to_int32 (x *ℤ y /ℤ pos fp_f)

unfoldable pub fp_mul_int : ℤ → ℤ → ℤ
fp_mul_int x n = to_int32 (x *ℤ n)

unfoldable pub fp_div : ℤ → ℤ → ℤ
fp_div x y = to_int32 (x *ℤ pos fp_f /ℤ y)

unfoldable pub fp_div_int : ℤ → ℤ → ℤ
fp_div_int x n = x /ℤ n
