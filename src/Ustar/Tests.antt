-- ===== src/Ustar/Tests.antt =====
-- The name "/../a" is stripped, and an octal field is read.
use operation_system.Base.{◌-◌, ◌≡◌, refl, some, [], ◌∷◌, ltb, if◌then◌else◌}
use operation_system.Ustar.{octal_digit, parse_octal_field, strip_antisocial_prefixes}

strip_test : strip_antisocial_prefixes (47 ∷ (46 ∷ (46 ∷ (47 ∷ (97 ∷ []))))) ≡ 97 ∷ []
unfolding strip_antisocial_prefixes
strip_test = refl

octal_test : parse_octal_field (λ i. if ltb i 3 then octal_digit 420 (2 - i) else 0) 8 ≡ some 420
unfolding parse_octal_field
octal_test = refl
