-- ===== src/Arithmetic/Tests.antt =====
-- Division at concrete numbers.
use operation_system.Base.{◌-◌, ◌+◌, ◌/◌, ◌%◌, ◌^◌, ◌≡◌, refl, some, arith}
use operation_system.Arithmetic.{nlz, sdiv64, udiv64, umod64, umoddi3}
use operation_system.Arithmetic.Division.{udiv64-quotient, umod64-truncates}

udiv64-quotient_example : udiv64 (2 ^ 40 + 17) 1000 ≡ some ((2 ^ 40 + 17) / 1000)
udiv64-quotient_example =
    udiv64-quotient (2 ^ 40 + 17) 1000 (omega arith) (omega arith) (omega arith)

umod64-truncates_example :
    ((2 ^ 33 + 5) % 2 ^ 40 ≡ 2 ^ 33 + 5)
    × (umod64 (2 ^ 33 + 5) (2 ^ 40) ≡ some ((2 ^ 33 + 5) % 2 ^ 32))
umod64-truncates_example =
    umod64-truncates (2 ^ 33 + 5) (2 ^ 40) (omega arith) (omega arith) (omega arith)

-- The remainder of 2^33 + 5 by 2^40 comes out as 5.
umoddi3_test : umoddi3 (2 ^ 33 + 5) (2 ^ 40) ≡ some 5
unfolding umoddi3
umoddi3_test = refl

-- The branch for long divisors, and a negative number, -7 by 2.
udiv64_long_test : udiv64 (2 ^ 63) (2 ^ 33 + 1) ≡ some (2 ^ 63 / (2 ^ 33 + 1))
unfolding udiv64
udiv64_long_test = refl

sdiv64_test : sdiv64 (2 ^ 64 - 7) 2 ≡ some (2 ^ 64 - 3)
unfolding sdiv64
sdiv64_test = refl

nlz_test : nlz 1 ≡ 31
unfolding nlz
nlz_test = refl
