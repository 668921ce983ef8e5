-- ===== src/Stdlib/Tests.antt =====
-- The functions of stdlib.c at concrete arguments.
use operation_system.Base.{
  ℕ, ◌*◌, ◌≡◌, refl, Option, some, [], ◌∷◌, arith, ltb, if◌then◌else◌, ◌>>=◌,
}
use operation_system.Base.Int.{ℤ, pos, negsuc, ◌-ℤ◌, ◌*ℤ◌}
use operation_system.Stdlib.{atoi, binary_search, sort}
use operation_system.Stdlib.Search.{IsSortedFor, Searched, binary_search-Searched}

abbrev compare_numbers : ℕ → ℕ → ℤ
compare_numbers a b = if ltb a b then negsuc 0 else if ltb b a then pos 1 else pos 0

-- Doubles are sorted.
doubles-IsSortedFor : IsSortedFor 6 (λ i. 2 * i) compare_numbers 5
doubles-IsSortedFor = record {
  below_later = λ i j h l b. ground arith;
  above_earlier = λ i j h l b. ground arith;
}

binary_search-Searched_example :
    (r : Option ℕ) × (binary_search 6 (λ i. 2 * i) 5 compare_numbers ≡ some r)
    × Searched 6 (λ i. 2 * i) compare_numbers 5 r
binary_search-Searched_example =
    binary_search-Searched 6 (λ i. 2 * i) compare_numbers 5 doubles-IsSortedFor

binary_search_test : binary_search 6 (λ i. 2 * i) 5 compare_numbers ≡ some (some 3)
unfolding binary_search
binary_search_test = refl

-- " -12x" is read as -12.
atoi_test : atoi (32 ∷ (45 ∷ (49 ∷ (50 ∷ (120 ∷ []))))) ≡ negsuc 11
unfolding atoi ◌-ℤ◌ ◌*ℤ◌
atoi_test = refl

-- 3, 1, 2 are sorted.
abbrev three : ℕ → ℕ
three i = if ltb i 1 then 3 else if ltb i 2 then 1 else 2

sort_test :
    (sort three 3 compare_numbers >>= λ a. some (a 0 ∷ (a 1 ∷ (a 2 ∷ []))))
    ≡ some (1 ∷ (2 ∷ (3 ∷ [])))
unfolding sort
sort_test = refl
