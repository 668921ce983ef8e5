-- ===== src/Hash/Bucket.antt =====
-- What a hash table holds, its well-formedness, and what a search of it finds.
use Prim.Native.Nat.{bit_and, bit_and-bitwise, digits, min}
use operation_system.Base.{
  update_self, update, ==→eq, Bool-cases, inr, inl, ◌⊎◌, ℕ, zero, suc, ◌+◌, ◌/◌, ◌^◌, ◌≤◌, ◌<◌, ◌≡◌,
  refl, true, false, Option, none, some, List, [], ◌∷◌, arith, ◌==◌, count, length, sym, subst, ap,
}
use operation_system.Hash.{
  Hash, find_bucket, find_elem, hash_find, is_power_of_2, is_same, pred_size,
}

-- A conjunction of bits is at most either number.
digits_le : (n a b : ℕ) → digits (λ b. 0) min n a b ≤ b
digits_le zero a b = omega arith
digits_le (suc n) zero b = omega arith
digits_le (suc n) (suc a) b = omega (arith, digits_le n (suc a / 2) (b / 2))

pub bit_and_le : (a b : ℕ) → bit_and a b ≤ b
bit_and_le a b = omega (arith, bit_and-bitwise a b, digits_le a a b)

-- f 0 + ... + f (n - 1)
abbrev pub sum : ℕ → (ℕ → ℕ) → ℕ
sum zero f = 0
sum (suc n) f = sum n f + f n

pub sum-ext : (n : ℕ) (f g : ℕ → ℕ) → ((i : ℕ) → i < n → f i ≡ g i) → sum n f ≡ sum n g
sum-ext zero f g e = refl
sum-ext (suc n) f g e = omega (arith, e n (omega arith), sum-ext n f g (λ i h. e i (omega arith)))

-- Two families that agree but at one place.
pub sum-except :
    (n p : ℕ) (f g : ℕ → ℕ)
    → p < n
    → ((i : ℕ) → i < n → (i == p) ≡ false → f i ≡ g i)
    → sum n f + g p ≡ sum n g + f p
sum-except zero p f g h e = absurd (omega arith)
sum-except (suc n) p f g h e = elim (compare_last n p) [
  | inl q ↦
      subst (λ m. sum n f + f n + g m ≡ sum n g + g n + f m) q
        (omega (arith, sum-ext n f g (λ i u. e i (omega arith) (ground arith))))
  | inr q ↦ omega (
    arith,
    e n (omega arith) (ground arith),
    sum-except n p f g (ground arith) (λ i u. e i (omega arith)),
  )
]
  where
    compare_last : (n p : ℕ) → (n ≡ p) ⊎ ((n == p) ≡ false)
    compare_last n p = ground arith

pub sum-at :
    (n p : ℕ) (f : ℕ → ℕ) → p < n → ((i : ℕ) → i < n → (i == p) ≡ false → f i ≡ 0) → sum n f ≡ f p
sum-at n p f h e = omega (arith, sum-except n p f (λ i. 0) h e, sum-zero n)
  where
    sum-zero : (n : ℕ) → sum n (λ i. 0) ≡ 0
    sum-zero zero = refl
    sum-zero (suc n) = omega (arith, sum-zero n)

-- A measure of the buckets after one is written.
pub sum-update :
    (n p : ℕ) (b : ℕ → List ℕ) (v : List ℕ) (m : List ℕ → ℕ)
    → p < n
    → sum n (λ i. m (update b p v i)) + m (b p) ≡ sum n (λ i. m (b i)) + m v
sum-update n p b v m h =
    subst (λ w. sum n (λ i. m (update b p v i)) + m (b p) ≡ sum n (λ i. m (b i)) + m w)
      (update_self b p v)
      (sum-except n p (λ i. m (update b p v i)) (λ i. m (b i)) h (λ i u e. ground arith))

-- How often an element is in the table.
abbrev pub held : Hash → ℕ → ℕ
held h x = sum h.bucket_cnt (λ i. count x (h.buckets i))

-- Each element is in the bucket that its hash value gives, the number of buckets is a power of 2, and
-- the count of the elements is right.
pub record IsValid (h : Hash) : Type 0 where
  pub power : is_power_of_2 h.bucket_cnt ≡ true
  pub small : h.bucket_cnt < 2 ^ 32
  pub placed : (i x : ℕ) → i < h.bucket_cnt → 0 < count x (h.buckets i) → find_bucket h x ≡ i
  pub counted : h.elem_cnt ≡ sum h.bucket_cnt (λ i. length (h.buckets i))
  pub fits : h.elem_cnt < 2 ^ 32

-- Equal elements have equal hash values.
abbrev pub Agrees : Hash → Type 0
Agrees h = (x y : ℕ) → is_same h x y ≡ true → h.hash x ≡ h.hash y

pub power-positive : (x : ℕ) → is_power_of_2 x ≡ true → 0 < x
unfolding is_power_of_2
power-positive x h = ground arith

pub find_bucket-lt : (h : Hash) → IsValid h → (x : ℕ) → find_bucket h x < h.bucket_cnt
find_bucket-lt h v x = omega (
  arith,
  v.small,
  power-positive h.bucket_cnt v.power,
  bit_and_le (h.hash x) (pred_size h.bucket_cnt),
)

-- An element is only in its own bucket.
pub held-bucket :
    (h : Hash) → IsValid h → (x : ℕ) → held h x ≡ count x (h.buckets (find_bucket h x))
held-bucket h v x =
    sum-at h.bucket_cnt (find_bucket h x) (λ i. count x (h.buckets i)) (find_bucket-lt h v x)
      (λ i u e. ground (arith, v.placed i x u))

-- What a search comes to: an equal element of the table, or none where there is no such one.
abbrev pub Finds : Hash → (ℕ → ℕ) → ℕ → Option ℕ → Type 0
Finds h members e none = (x : ℕ) → 0 < members x → is_same h x e ≡ false
Finds h members e (some x) = (0 < members x) × (is_same h x e ≡ true)

Finds-first :
    (h : Hash) (y : ℕ) (xs : List ℕ) (e : ℕ)
    → is_same h y e ≡ true
    → Finds h (λ x. count x (y ∷ xs)) e (some y)
Finds-first h y xs e s = (ground arith, s)

Finds-rest :
    (h : Hash) (y : ℕ) (xs : List ℕ) (e : ℕ) (r : Option ℕ)
    → is_same h y e ≡ false
    → Finds h (λ x. count x xs) e r
    → Finds h (λ x. count x (y ∷ xs)) e r
Finds-rest h y xs e none s f = λ x m. elim (Bool-cases (y == x)) [
  | inl q ↦ subst (λ z. is_same h z e ≡ false) (==→eq y x q) s
  | inr q ↦ f x (ground arith)
]
Finds-rest h y xs e (some z) s f = (ground (arith, f.0), f.1)

find_elem-Finds : (h : Hash) (xs : List ℕ) (e : ℕ) → Finds h (λ x. count x xs) e (find_elem h xs e)
unfolding find_elem
find_elem-Finds h [] e = λ x m. absurd (omega arith)
find_elem-Finds h (y ∷ xs) e = elim (Bool-cases (is_same h y e)) [
  | inl s ↦ rw s (Finds-first h y xs e s)
  | inr s ↦ rw s (Finds-rest h y xs e (find_elem h xs e) s (find_elem-Finds h xs e))
]

-- Where equal elements have equal hash values, an element of the table that is equal to another is
-- in the bucket of that one.
Finds-bucket :
    (h : Hash) (e : ℕ) (r : Option ℕ)
    → IsValid h
    → Agrees h
    → Finds h (λ x. count x (h.buckets (find_bucket h e))) e r
    → Finds h (held h) e r
Finds-bucket h e none v a f = λ x m. elim (Bool-cases (is_same h x e)) [
  | inl s ↦ f x (
      subst (λ b. 0 < count x (h.buckets b))
        (ap (λ k. bit_and k (pred_size h.bucket_cnt)) (a x e s))
        (subst (λ n. 0 < n) (held-bucket h v x) m))
  | inr s ↦ s
]
Finds-bucket h e (some x) v a f = (
  subst (λ n. 0 < n) (sym (held-bucket h v x))
      (subst (λ b. 0 < count x (h.buckets b))
        (sym (ap (λ k. bit_and k (pred_size h.bucket_cnt)) (a x e f.1))) f.0),
  f.1,
)

-- In a well-formed table with equal hash values for equal elements, hash_find() returns an element
-- of the table that is equal to the given one, or a null pointer where there is no such element.
pub hash_find-Finds : (h : Hash) (e : ℕ) → IsValid h → Agrees h → Finds h (held h) e (hash_find h e)
unfolding hash_find
hash_find-Finds h e v a =
    Finds-bucket h e (hash_find h e) v a (find_elem-Finds h (h.buckets (find_bucket h e)) e)
