-- ===== src/Hash.antt =====
-- pintos/src/lib/kernel/hash.c: hash tables. An element is named by its address; the buckets are the
-- sequences of the elements on their lists. `room` says whether malloc() succeeds.
pub mod Bucket
pub mod Rehash
pub mod Update
pub mod Map
pub mod Init
mod Tests
use Prim.Native.Nat.{bit_and, bit_xor}
use operation_system.Base.{
  ℕ, zero, suc, ◌+◌, ◌-◌, ◌*◌, ◌/◌, ◌%◌, ◌^◌, Bool, true, false, not, ◌&&◌, Option, none, some,
  List, [], ◌∷◌, ◌++◌, ltb, ◌==◌, if◌then◌else◌, update, erase,
}

-- `struct hash`, with the auxiliary data given to the two functions.
pub record Hash : Type 0 where
  pub elem_cnt : ℕ
  pub bucket_cnt : ℕ
  pub buckets : ℕ → List ℕ
  pub hash : ℕ → ℕ
  pub less : ℕ → ℕ → Bool

-- x - 1 on size_t.
abbrev pub pred_size : ℕ → ℕ
pred_size x = (x + (2 ^ 32 - 1)) % 2 ^ 32

abbrev pub find_bucket : Hash → ℕ → ℕ
find_bucket h e = bit_and (h.hash e) (pred_size h.bucket_cnt)

-- Neither of two elements is less.
abbrev pub is_same : Hash → ℕ → ℕ → Bool
is_same h x e = not (h.less x e) && not (h.less e x)

unfoldable pub find_elem : Hash → List ℕ → ℕ → Option ℕ
find_elem h [] e = none
find_elem h (x ∷ xs) e = if is_same h x e then some x else find_elem h xs e

unfoldable pub turn_off_least_1bit : ℕ → ℕ
turn_off_least_1bit x = bit_and x (pred_size x)

unfoldable pub is_power_of_2 : ℕ → Bool
unfolding turn_off_least_1bit
is_power_of_2 x = not (x == 0) && (turn_off_least_1bit x == 0)

abbrev pub best_elems_per_bucket : ℕ
best_elems_per_bucket = 2

-- The loop of rehash on the number of buckets.
unfoldable pub round_down : (fuel x : ℕ) → ℕ
unfolding is_power_of_2 turn_off_least_1bit
round_down zero x = x
round_down (suc fuel) x = if is_power_of_2 x then x else round_down fuel (turn_off_least_1bit x)

unfoldable pub ideal_bucket_cnt : ℕ → ℕ
unfolding round_down
ideal_bucket_cnt elem_cnt =
    let new_bucket_cnt = elem_cnt / best_elems_per_bucket in
    let at_least_4 = if ltb new_bucket_cnt 4 then 4 else new_bucket_cnt in
    round_down at_least_4 at_least_4

-- list_push_front() on one of the buckets.
abbrev pub push_bucket : ℕ → ℕ → Hash → Hash
push_bucket bucket e h = record h { buckets = update h.buckets bucket (e ∷ h.buckets bucket) }

-- Each element of an old bucket goes to its new one.
unfoldable pub move_elems : List ℕ → Hash → Hash
move_elems [] h = h
move_elems (e ∷ es) h = move_elems es (push_bucket (find_bucket h e) e h)

-- The old buckets, `n` of them from number `i` on.
unfoldable pub move_buckets : (n i : ℕ) → (ℕ → List ℕ) → Hash → Hash
unfolding move_elems
move_buckets zero i old h = h
move_buckets (suc n) i old h = move_buckets n (i + 1) old (move_elems (old i) h)

unfoldable pub rehash : (room : Bool) → Hash → Hash
unfolding ideal_bucket_cnt move_buckets
rehash room h =
    let new_bucket_cnt = ideal_bucket_cnt h.elem_cnt in
    if new_bucket_cnt == h.bucket_cnt
    then h
    else if room
    then move_buckets h.bucket_cnt 0 h.buckets
        (record h { bucket_cnt = new_bucket_cnt; buckets = λ i. [] })
    else h

unfoldable pub insert_elem : (bucket e : ℕ) → Hash → Hash
insert_elem bucket e h = record (push_bucket bucket e h) { elem_cnt = (h.elem_cnt + 1) % 2 ^ 32 }

-- list_remove() takes the element off the list that it is on.
unfoldable pub remove_elem : ℕ → Hash → Hash
remove_elem e h = record h { elem_cnt = pred_size h.elem_cnt; buckets = λ i. erase e (h.buckets i) }

-- hash_clear with a destructor: the elements in the order of its calls, bucket by bucket.
unfoldable pub drained : (n i : ℕ) → (ℕ → List ℕ) → List ℕ
drained zero i buckets = []
drained (suc n) i buckets = buckets i ++ drained n (i + 1) buckets

-- The elements that the destructor, if there is one, is called for, and the table.
unfoldable pub hash_clear : (destructor : Bool) → Hash → List ℕ × Hash
unfolding drained
hash_clear destructor h = (
  if destructor then drained h.bucket_cnt 0 h.buckets else [],
  record h { elem_cnt = 0; buckets = λ i. if ltb i h.bucket_cnt then [] else h.buckets i },
)

-- The new buckets hold anything; `none` is the result false.
unfoldable pub hash_init : (room : Option (ℕ → List ℕ)) → (ℕ → ℕ) → (ℕ → ℕ → Bool) → Option Hash
unfolding hash_clear
hash_init none hash less = none
hash_init (some buckets) hash less =
    some
      (hash_clear false
        (record { elem_cnt = 0; bucket_cnt = 4; buckets = buckets; hash = hash; less = less })).1

-- The elements that the destructor is called for before the buckets are freed.
unfoldable pub hash_destroy : (destructor : Bool) → Hash → List ℕ
unfolding hash_clear
hash_destroy destructor h = if destructor then (hash_clear true h).0 else []

unfoldable pub hash_insert : (room : Bool) → ℕ → Hash → Option ℕ × Hash
unfolding find_elem insert_elem rehash
hash_insert room new h =
    let bucket = find_bucket h new in
    let old = find_elem h (h.buckets bucket) new in
    (old, rehash room (elim old [ none ↦ insert_elem bucket new h | some o ↦ h ]))

unfoldable pub hash_replace : (room : Bool) → ℕ → Hash → Option ℕ × Hash
unfolding find_elem insert_elem remove_elem rehash
hash_replace room new h =
    let bucket = find_bucket h new in
    let old = find_elem h (h.buckets bucket) new in
    let h1 : Hash = elim old [ none ↦ h | some o ↦ remove_elem o h ] in
    (old, rehash room (insert_elem bucket new h1))

unfoldable pub hash_find : Hash → ℕ → Option ℕ
unfolding find_elem
hash_find h e = find_elem h (h.buckets (find_bucket h e)) e

unfoldable pub hash_delete : (room : Bool) → ℕ → Hash → Option ℕ × Hash
unfolding find_elem remove_elem rehash
hash_delete room e h =
    let found = find_elem h (h.buckets (find_bucket h e)) e in
    (found, elim found [ none ↦ h | some o ↦ rehash room (remove_elem o h) ])

-- The calls of an action that changes a state and leaves the table as it is.
unfoldable pub apply_elems {ℓ} : {S : Type ℓ} → (ℕ → S → S) → List ℕ → S → S
apply_elems action [] s = s
apply_elems action (e ∷ es) s = apply_elems action es (action e s)

unfoldable pub apply_buckets {ℓ} : {S : Type ℓ} → (ℕ → S → S) → (n i : ℕ) → (ℕ → List ℕ) → S → S
unfolding apply_elems
apply_buckets action zero i buckets s = s
apply_buckets action (suc n) i buckets s =
    apply_buckets action n (i + 1) buckets (apply_elems action (buckets i) s)

unfoldable pub hash_apply {ℓ} : {S : Type ℓ} → (ℕ → S → S) → Hash → S → S
unfolding apply_buckets
hash_apply action h s = apply_buckets action h.bucket_cnt 0 h.buckets s

-- `struct hash_iterator` on a given table; the element is the head of the bucket's list before the
-- first step and none at the end of the table.
pub data Cursor : Type 0 where
  at_head : Cursor
  at_elem : ℕ → Cursor
  at_end : Cursor

pub record HashIterator : Type 0 where
  pub bucket : ℕ
  pub elem : Cursor

unfoldable pub hash_first : HashIterator
hash_first = record { bucket = 0; elem = at_head }

-- The element after one of a list; none is the list's tail.
abbrev pub front_of : List ℕ → Option ℕ
front_of [] = none
front_of (x ∷ xs) = some x

unfoldable pub after_elem : ℕ → List ℕ → Option ℕ
after_elem e [] = none
after_elem e (x ∷ xs) = if x == e then front_of xs else after_elem e xs

-- The loop of hash_next, with `n` buckets after bucket number `b`.
unfoldable pub next_bucket : (n b : ℕ) → (ℕ → List ℕ) → Option ℕ → HashIterator
next_bucket n b buckets (some e) = record { bucket = b; elem = at_elem e }
next_bucket zero b buckets none = record { bucket = b + 1; elem = at_end }
next_bucket (suc n) b buckets none = next_bucket n (b + 1) buckets (front_of (buckets (b + 1)))

-- `none` is a step from the end of the table, through a null pointer.
unfoldable pub hash_next : Hash → HashIterator → Option HashIterator
unfolding after_elem next_bucket
hash_next h i = elim i.elem [
  | at_head ↦ some (
      next_bucket (h.bucket_cnt - (i.bucket + 1)) i.bucket h.buckets
        (front_of (h.buckets i.bucket)))
  | at_elem e ↦ some (
      next_bucket (h.bucket_cnt - (i.bucket + 1)) i.bucket h.buckets
        (after_elem e (h.buckets i.bucket)))
  | at_end ↦ none
]

unfoldable pub hash_cur : HashIterator → Cursor
hash_cur i = i.elem

unfoldable pub hash_size : Hash → ℕ
hash_size h = h.elem_cnt

unfoldable pub hash_empty : Hash → Bool
hash_empty h = h.elem_cnt == 0

abbrev pub fnv_32_prime : ℕ
fnv_32_prime = 16777619

abbrev pub fnv_32_basis : ℕ
fnv_32_basis = 2166136261

-- The loop of hash_bytes over the bytes that are left.
unfoldable pub fnv_from : List ℕ → ℕ → ℕ
fnv_from [] hash = hash
fnv_from (b ∷ bytes) hash = fnv_from bytes (bit_xor (hash * fnv_32_prime % 2 ^ 32) b)

unfoldable pub hash_bytes : List ℕ → ℕ
unfolding fnv_from
hash_bytes bytes = fnv_from bytes fnv_32_basis

-- The characters of the string before its null byte.
unfoldable pub hash_string : List ℕ → ℕ
unfolding fnv_from
hash_string s = fnv_from s fnv_32_basis

-- The four bytes of an int, given as the unsigned number with the same bits.
unfoldable pub hash_int : ℕ → ℕ
unfolding hash_bytes
hash_int i = hash_bytes (i % 256 ∷ (i / 256 % 256 ∷ (i / 65536 % 256 ∷ (i / 16777216 % 256 ∷ []))))
