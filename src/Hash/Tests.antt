-- ===== src/Hash/Tests.antt =====
-- Hash tables at concrete elements: two are equal if they agree but for the last digit.
use operation_system.Base.{
  ℕ, ◌/◌, ◌≡◌, refl, Bool, true, none, some, [], ◌∷◌, arith, ltb, if◌then◌else◌,
}
use operation_system.Hash.{
  Hash, hash_bytes, hash_delete, hash_find, hash_insert, ideal_bucket_cnt, is_same, rehash,
}
use operation_system.Hash.Init.{four, four-IsMap}
use operation_system.Hash.Map.{IsMap, hash_find-hash_delete, hash_find-hash_insert, kept}
use operation_system.Hash.Rehash.{Rehashed, rehash-Rehashed}

abbrev key_less : ℕ → ℕ → Bool
key_less a b = ltb (a / 10) (b / 10)

abbrev empty : Hash
empty = four (λ i. []) (λ e. e / 10) key_less

empty-IsMap : IsMap empty
empty-IsMap =
    four-IsMap (λ i. []) (λ e. e / 10) key_less (λ x y e. ground arith) (λ x. ground arith)
      (λ x y z p q. ground arith)

hash_find-hash_insert_example :
    IsMap (hash_insert true 14 empty).1
    × ((hash_insert true 14 empty).0 ≡ hash_find empty 14)
    × ((x : ℕ)
        → hash_find (hash_insert true 14 empty).1 x
          ≡ (if is_same empty 14 x then some (kept 14 (hash_find empty 14)) else hash_find empty x))
hash_find-hash_insert_example = hash_find-hash_insert true 14 empty empty-IsMap (omega arith)

one-IsMap : IsMap (hash_insert true 14 empty).1
one-IsMap = (hash_find-hash_insert true 14 empty empty-IsMap (omega arith)).0

hash_find-hash_delete_example :
    IsMap (hash_delete true 19 (hash_insert true 14 empty).1).1
    × ((hash_delete true 19 (hash_insert true 14 empty).1).0
        ≡ hash_find (hash_insert true 14 empty).1 19)
    × ((x : ℕ)
        → hash_find (hash_delete true 19 (hash_insert true 14 empty).1).1 x ≡ (
            if is_same (hash_insert true 14 empty).1 19 x
            then none
            else hash_find (hash_insert true 14 empty).1 x))
hash_find-hash_delete_example =
    hash_find-hash_delete true 19 (hash_insert true 14 empty).1 one-IsMap

-- The one element that is equal to 19 is 14, and the table is as its two buckets say.
found_test : (hash_delete true 19 (hash_insert true 14 empty).1).0 ≡ some 14
unfolding hash_delete hash_insert
found_test = refl

rehash-Rehashed_example :
    Rehashed true (hash_insert true 14 empty).1 (rehash true (hash_insert true 14 empty).1)
rehash-Rehashed_example = rehash-Rehashed true (hash_insert true 14 empty).1 one-IsMap.valid

-- 24 elements want 12 buckets, rounded down to a power of 2.
ideal_bucket_cnt_test : ideal_bucket_cnt 24 ≡ 8
unfolding ideal_bucket_cnt
ideal_bucket_cnt_test = refl

-- The known values of the function for no byte and for "a".
hash_bytes_none_test : hash_bytes [] ≡ 2166136261
unfolding hash_bytes
hash_bytes_none_test = refl

hash_bytes_test : hash_bytes (97 ∷ []) ≡ 0x050c5d7e
unfolding hash_bytes
hash_bytes_test = refl
