-- ===== src/Hash/Init.antt =====
-- A new table is the empty map.
use operation_system.Base.{
  ℕ, ◌≡◌, refl, Bool, true, not, ◌&&◌, none, some, List, [], arith, ltb, if◌then◌else◌,
}
use operation_system.Hash.{Hash, find_elem, hash_clear, hash_find, hash_init, is_power_of_2}
use operation_system.Hash.Bucket.{bit_and_le}
use operation_system.Hash.Map.{IsMap}

-- The table with four empty buckets.
abbrev pub four : (ℕ → List ℕ) → (ℕ → ℕ) → (ℕ → ℕ → Bool) → Hash
four buckets hash less = record {
  elem_cnt = 0;
  bucket_cnt = 4;
  buckets = λ i. if ltb i 4 then [] else buckets i;
  hash = hash;
  less = less;
}

-- Neither of two elements is less.
abbrev pub same_by : (ℕ → ℕ → Bool) → ℕ → ℕ → Bool
same_by less x y = not (less x y) && not (less y x)

four_is_power : is_power_of_2 4 ≡ true
unfolding is_power_of_2
four_is_power = refl

pub four-IsMap :
    (buckets : ℕ → List ℕ) (hash : ℕ → ℕ) (less : ℕ → ℕ → Bool)
    → ((x y : ℕ) → same_by less x y ≡ true → hash x ≡ hash y)
    → ((x : ℕ) → same_by less x x ≡ true)
    → ((x y z : ℕ) → same_by less x y ≡ true → same_by less y z ≡ true → same_by less x z ≡ true)
    → IsMap (four buckets hash less)
four-IsMap buckets hash less a r t = record {
  valid = record {
    power = four_is_power;
    small = omega arith;
    placed = λ i x u m. absurd (ground arith);
    counted = refl;
    fits = omega arith;
  };
  agrees = a;
  same_refl = r;
  same_trans = t;
  single = λ x. omega arith;
  unique = λ x y p q e. absurd (omega arith);
}

-- Where malloc() succeeds, and equal elements have equal hash values and equality is reflexive and
-- transitive for the given functions, hash_init() returns true and leaves a table that is a map and
-- finds nothing, whatever the new buckets held.
pub hash_init-IsMap :
    (buckets : ℕ → List ℕ) (hash : ℕ → ℕ) (less : ℕ → ℕ → Bool)
    → ((x y : ℕ) → same_by less x y ≡ true → hash x ≡ hash y)
    → ((x : ℕ) → same_by less x x ≡ true)
    → ((x y z : ℕ) → same_by less x y ≡ true → same_by less y z ≡ true → same_by less x z ≡ true)
    → (h : Hash) × (hash_init (some buckets) hash less ≡ some h)
      × IsMap h
      × ((x : ℕ) → hash_find h x ≡ none)
unfolding hash_init hash_clear hash_find find_elem
hash_init-IsMap buckets hash less a r t = (
  four buckets hash less,
  refl,
  four-IsMap buckets hash less a r t,
  λ x. ground (arith, bit_and_le (hash x) 3),
)
