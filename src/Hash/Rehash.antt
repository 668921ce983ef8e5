-- ===== src/Hash/Rehash.antt =====
-- A new number of buckets keeps the elements of the table.
use operation_system.Base.{
  ℕ, zero, suc, ◌+◌, ◌/◌, ◌^◌, ◌≤◌, ◌<◌, ◌≡◌, refl, Bool, true, false, List, [], ◌∷◌, arith, ltb,
  ◌==◌, if◌then◌else◌, count, length, sym, subst, ap, ◌∙◌, update, inl, inr, Bool-cases, ==→eq,
}
use operation_system.Hash.{
  Hash, find_bucket, ideal_bucket_cnt, is_power_of_2, move_buckets, move_elems, pred_size, rehash,
  round_down, turn_off_least_1bit,
}
use operation_system.Hash.Bucket.{
  sum-update, IsValid, bit_and_le, held, power-positive, sum, sum-ext,
}

turn_off_lem :
    (x : ℕ)
    → 0 < x
    → x < 2 ^ 32
    → is_power_of_2 x ≡ false
    → (0 < turn_off_least_1bit x) × (turn_off_least_1bit x < x)
unfolding is_power_of_2 turn_off_least_1bit
turn_off_lem x p s n = (ground arith, omega (arith, bit_and_le x (pred_size x)))

-- The loop ends at a power of 2 that is no larger.
round_down_lem :
    (fuel x : ℕ)
    → x ≤ fuel
    → 0 < x
    → x < 2 ^ 32
    → (is_power_of_2 (round_down fuel x) ≡ true) × (round_down fuel x ≤ x)
unfolding round_down
round_down_lem zero x f p s = absurd (omega arith)
round_down_lem (suc fuel) x f p s = elim (Bool-cases (is_power_of_2 x)) [
  | inl e ↦ (ground arith, ground arith)
  | inr e ↦
      let (q, l) = turn_off_lem x p s e in
      let (a, b) =
        round_down_lem fuel (turn_off_least_1bit x) (omega (arith, l)) q (omega (arith, l)) in
      (ground arith, ground arith)
]

pub ideal_bucket_cnt_lem :
    (n : ℕ)
    → n < 2 ^ 32
    → (is_power_of_2 (ideal_bucket_cnt n) ≡ true)
      × (ideal_bucket_cnt n < 2 ^ 32)
      × (ideal_bucket_cnt n ≤ 4 + n / 2)
unfolding ideal_bucket_cnt
ideal_bucket_cnt_lem n h =
    let m = if ltb (n / 2) 4 then 4 else n / 2 in
    let (a, b) = round_down_lem m m (omega arith) (ground arith) (ground arith) in
    (a, ground arith, ground arith)

-- What a new family of buckets holds more than an old one.
pub record Grown (h : Hash) (old new : ℕ → List ℕ) (members : ℕ → ℕ) (n : ℕ) : Type 0 where
  pub placed :
      ((i x : ℕ) → i < h.bucket_cnt → 0 < count x (old i) → find_bucket h x ≡ i)
      → (i x : ℕ) → i < h.bucket_cnt
      → 0 < count x (new i)
      → find_bucket h x ≡ i
  pub held :
      (x : ℕ)
      → sum h.bucket_cnt (λ i. count x (new i))
        ≡ sum h.bucket_cnt (λ i. count x (old i)) + members x
  pub lengths : sum h.bucket_cnt (λ i. length (new i)) ≡ sum h.bucket_cnt (λ i. length (old i)) + n

sum-first : (n i : ℕ) (f : ℕ → ℕ) → sum (suc n) (λ j. f (i + j)) ≡ f i + sum n (λ j. f (i + 1 + j))
sum-first zero i f = omega (arith, ap f (shift i))
  where
    shift : (i : ℕ) → i + 0 ≡ i
    shift i = omega arith
sum-first (suc n) i f = omega (arith, sum-first n i f, ap f (shift i n))
  where
    shift : (i n : ℕ) → i + suc n ≡ i + 1 + n
    shift i n = omega arith

pub Grown-push :
    (h : Hash) (old : ℕ → List ℕ) (e : ℕ)
    → find_bucket h e < h.bucket_cnt
    → Grown h old
        (update old (find_bucket h e) (e ∷ old (find_bucket h e)))
        (λ x. if e == x then 1 else 0)
        1
Grown-push h old e b = record {
  placed = λ p i x u m. elim (Bool-cases (e == x)) [
    | inl q ↦ subst (λ y. find_bucket h y ≡ i) (==→eq e x q) (ground (arith, p i e u))
    | inr q ↦ p i x u (ground arith)
  ];
  held = λ x. omega (arith, grow_lem (λ l. count x l));
  lengths = omega (arith, grow_lem length);
}
  where
    grow_lem :
        (m : List ℕ → ℕ)
        → sum h.bucket_cnt (λ i. m (update old (find_bucket h e) (e ∷ old (find_bucket h e)) i))
            + m (old (find_bucket h e))
          ≡ sum h.bucket_cnt (λ i. m (old i)) + m (e ∷ old (find_bucket h e))
    grow_lem m = sum-update h.bucket_cnt (find_bucket h e) old (e ∷ old (find_bucket h e)) m b

Grown-none : (h : Hash) (old : ℕ → List ℕ) → Grown h old old (λ x. 0) 0
Grown-none h old = record { placed = λ p. p; held = λ x. omega arith; lengths = omega arith }

Grown-join :
    (h : Hash) (a b c : ℕ → List ℕ) (f g k : ℕ → ℕ) (m n t : ℕ)
    → Grown h a b f m
    → Grown h b c g n
    → ((x : ℕ) → k x ≡ f x + g x)
    → t ≡ m + n
    → Grown h a c k t
Grown-join h a b c f g k m n t u v e q = record {
  placed = λ p. v.placed (u.placed p);
  held = λ x. omega (arith, u.held x, v.held x, e x);
  lengths = omega (arith, u.lengths, v.lengths);
}

-- The moves only write the buckets.
abbrev with_buckets : Hash → (ℕ → List ℕ) → Hash
with_buckets h b = record h { buckets = b }

module _ (h : Hash) (inside : (e : ℕ) → find_bucket h e < h.bucket_cnt) where
  move_elems-Grown :
      (es : List ℕ) (old : ℕ → List ℕ)
      → (new : ℕ → List ℕ) × (move_elems es (with_buckets h old) ≡ with_buckets h new)
        × Grown h old new (λ x. count x es) (length es)
  unfolding move_elems
  move_elems-Grown [] old = (old, refl, Grown-none h old)
  move_elems-Grown (e ∷ es) old =
      let next = update old (find_bucket h e) (e ∷ old (find_bucket h e)) in
      let (new, q, g) = move_elems-Grown es next in
      (
        new,
        q,
        Grown-join h old next new (λ x. if e == x then 1 else 0) (λ x. count x es) _ 1 (length es) _
            (Grown-push h old e (inside e)) g (λ x. omega arith) (omega arith),
      )

  move_buckets-Grown :
      (n i : ℕ) (from old : ℕ → List ℕ)
      → (new : ℕ → List ℕ) × (move_buckets n i from (with_buckets h old) ≡ with_buckets h new)
        × Grown h old new
            (λ x. sum n (λ j. count x (from (i + j))))
            (sum n (λ j. length (from (i + j))))
  unfolding move_buckets
  move_buckets-Grown zero i from old = (old, refl, Grown-none h old)
  move_buckets-Grown (suc n) i from old =
      let (next, q, g) = move_elems-Grown (from i) old in
      let (new, r, k) = move_buckets-Grown n (i + 1) from next in
      (
        new,
        ap (move_buckets n (i + 1) from) q ∙ r,
        Grown-join h old next new (λ x. count x (from i)) _ _ (length (from i)) _ _ g k
            (λ x. sum-first n i (λ j. count x (from j))) (sum-first n i (λ j. length (from j))),
      )

-- What rehash() leaves.
pub record Rehashed (room : Bool) (h h' : Hash) : Type 0 where
  pub valid : IsValid h'
  pub held : (x : ℕ) → held h' x ≡ held h x
  pub elem_cnt : h'.elem_cnt ≡ h.elem_cnt
  pub hash : h'.hash ≡ h.hash
  pub less : h'.less ≡ h.less
  pub bucket_cnt : room ≡ true → h'.bucket_cnt ≤ 4 + h.elem_cnt / 2

Rehashed-same :
    (room : Bool) (h : Hash)
    → IsValid h
    → (room ≡ true → h.bucket_cnt ≤ 4 + h.elem_cnt / 2)
    → Rehashed room h h
Rehashed-same room h v b = record {
  valid = v;
  held = λ x. refl;
  elem_cnt = refl;
  hash = refl;
  less = refl;
  bucket_cnt = b;
}

sum-nothing : (n : ℕ) → sum n (λ i. 0) ≡ 0
sum-nothing zero = refl
sum-nothing (suc n) = omega (arith, sum-nothing n)

sum-from_nothing : (m n : ℕ) (f : ℕ → ℕ) → sum m (λ i. 0) + sum n (λ j. f (0 + j)) ≡ sum n f
sum-from_nothing m n f =
    omega (arith, sum-nothing m, sum-ext n (λ j. f (0 + j)) f (λ i h. ap f (omega arith)))

-- The table that the elements move to, before the first of them.
abbrev emptied : Hash → Hash
emptied h = record h { bucket_cnt = ideal_bucket_cnt h.elem_cnt; buckets = λ i. [] }

emptied-inside :
    (h : Hash) → h.elem_cnt < 2 ^ 32 → (e : ℕ) → find_bucket (emptied h) e < (emptied h).bucket_cnt
emptied-inside h f e =
    let (p, s, b) = ideal_bucket_cnt_lem h.elem_cnt f in
    omega (
      arith,
      power-positive (ideal_bucket_cnt h.elem_cnt) p,
      bit_and_le (h.hash e) (pred_size (ideal_bucket_cnt h.elem_cnt)),
    )

moved-Rehashed :
    (room : Bool) (h : Hash)
    → IsValid h
    → Rehashed room h (move_buckets h.bucket_cnt 0 h.buckets (emptied h))
moved-Rehashed room h v =
    let (p, s, b) = ideal_bucket_cnt_lem h.elem_cnt v.fits in
    let (new, q, g) =
      move_buckets-Grown (emptied h) (emptied-inside h v.fits) h.bucket_cnt 0 h.buckets (λ i. []) in
    subst (Rehashed room h) (sym q) (record {
      valid = record {
        power = p;
        small = s;
        placed = g.placed (λ i x u m. absurd (omega arith));
        counted =
            v.counted
            ∙ sym (
                g.lengths
                ∙ sum-from_nothing (ideal_bucket_cnt h.elem_cnt) h.bucket_cnt
                    (λ i. length (h.buckets i)));
        fits = v.fits;
      };
      held = λ x.
          g.held x
          ∙ sum-from_nothing (ideal_bucket_cnt h.elem_cnt) h.bucket_cnt
              (λ i. count x (h.buckets i));
      elem_cnt = refl;
      hash = refl;
      less = refl;
      bucket_cnt = λ r. b;
    })

-- In a well-formed table rehash() ends, and whether or not malloc() succeeds it leaves a well-formed
-- table with the same elements, each as often as before, the same count and the same functions; where
-- malloc() succeeds there are then at most 4 buckets more than half the number of the elements.
pub rehash-Rehashed : (room : Bool) (h : Hash) → IsValid h → Rehashed room h (rehash room h)
unfolding rehash
rehash-Rehashed room h v = elim (Bool-cases (ideal_bucket_cnt h.elem_cnt == h.bucket_cnt)) [
  | inl e ↦ rw e (Rehashed-same room h v (λ r. few h v e))
  | inr e ↦ rw e (go room)
]
  where
    few :
        (h : Hash)
        → IsValid h
        → (ideal_bucket_cnt h.elem_cnt == h.bucket_cnt) ≡ true
        → h.bucket_cnt ≤ 4 + h.elem_cnt / 2
    few h v e = let (p, s, b) = ideal_bucket_cnt_lem h.elem_cnt v.fits in ground (arith, b)

    go :
        (r : Bool)
        → Rehashed r h (if r then move_buckets h.bucket_cnt 0 h.buckets (emptied h) else h)
    go true = moved-Rehashed true h v
    go false = Rehashed-same false h v (λ r. absurd (ground arith))
