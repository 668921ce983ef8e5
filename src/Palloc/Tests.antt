-- ===== src/Palloc/Tests.antt =====
-- Two pools of four free pages each.
use operation_system.Base.{ℕ, ◌≡◌, refl, true, false, Option, none, some, arith}
use operation_system.Bitmap.{Bitmap}
use operation_system.Palloc.{Pools, PallocFlags, palloc_get_multiple, palloc_free_multiple}
use operation_system.Palloc.Grant.{IsValid}
use operation_system.Palloc.Disjoint.{Disjoint, palloc_get_multiple-Disjoint}
use operation_system.Palloc.Release.{SameUse, palloc_free_multiple-get_multiple}

abbrev all_free : Bitmap
all_free = record { bit_cnt = 4; bits = λ e i. false }

abbrev pools : Pools
pools = record {
  kernel_pool = record { lock = 100; used_map = all_free; base = 0x10_0000 };
  user_pool = record { lock = 200; used_map = all_free; base = 0x10_4000 };
  memory = λ a. 7;
}

pools-IsValid : IsValid pools
pools-IsValid = record {
  kernel = record { aligned = refl; mapped = omega arith; fits = omega arith };
  user = record { aligned = refl; mapped = omega arith; fits = omega arith };
  apart = omega arith;
}

abbrev zeroed : PallocFlags
zeroed = record { pal_assert = false; pal_zero = true; pal_user = false }

-- What a call returns, or the pools themselves.
abbrev returned : Option (ℕ × Pools) → ℕ × Pools
returned none = (0, pools)
returned (some r) = r

abbrev first : ℕ × Pools
first = returned (palloc_get_multiple zeroed 2 pools)

abbrev second : ℕ × Pools
second = returned (palloc_get_multiple zeroed 1 first.1)

first_lem : palloc_get_multiple zeroed 2 pools ≡ some (first.0, first.1)
unfolding palloc_get_multiple
first_lem = refl

first_address : first.0 ≡ 0x10_0000
unfolding palloc_get_multiple
first_address = refl

second_lem : palloc_get_multiple zeroed 1 first.1 ≡ some (second.0, second.1)
unfolding palloc_get_multiple
second_lem = refl

second_address : second.0 ≡ 0x10_2000
unfolding palloc_get_multiple
second_address = refl

palloc_get_multiple-Disjoint_example : Disjoint first.0 2 second.0 1
palloc_get_multiple-Disjoint_example =
    palloc_get_multiple-Disjoint zeroed zeroed 2 1 pools first.1 second.1 first.0 second.0
      pools-IsValid (omega arith) (omega arith) first_lem (omega (arith, first_address)) second_lem
      (omega (arith, second_address))

palloc_free_multiple-get_multiple_example :
    (qs : Pools) × (palloc_free_multiple first.0 2 first.1 ≡ some qs) × SameUse pools qs
palloc_free_multiple-get_multiple_example =
    palloc_free_multiple-get_multiple zeroed 2 pools first.1 first.0 pools-IsValid (omega arith)
      first_lem (omega (arith, first_address))
