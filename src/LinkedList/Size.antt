-- ===== src/LinkedList/Size.antt =====
-- list_init, list_size and list_pop_front on the sequence of elements.
use operation_system.Base.{
  ℕ, zero, suc, ◌+◌, ◌%◌, ◌^◌, ◌<◌, ◌≡◌, refl, ◌≢◌, false, some, List, [], ◌∷◌, arith, has, length,
  ◌∙◌, ap,
}
use operation_system.LinkedList.{
  Links, ListHeader, list_init, list_next, size_from, list_size, list_remove, list_pop_front,
}
use operation_system.LinkedList.Chain.{Linked, Holds, first_or}
use operation_system.LinkedList.Insert.{following, list_remove-Holds}

-- list_init() of two different headers, not null, leaves an empty list.
pub list_init-Holds :
    (h : Links) (l : ListHeader)
    → l.head ≢ 0
    → l.tail ≢ 0
    → l.head ≢ l.tail
    → Holds (list_init l h) l []
unfolding list_init
list_init-Holds h l a b d = record {
  linked = (ground arith, ground arith);
  first = ground arith;
  last = ground arith;
  addresses = (ground arith, (refl, tt));
  mapped = ground arith;
}

size_from-end :
    (fuel : ℕ) (l : ListHeader) (cnt : ℕ) (h : Links)
    → size_from (suc fuel) l l.tail cnt h ≡ some cnt
unfolding size_from
size_from-end fuel l cnt h = ground arith

size_from-step :
    (fuel : ℕ) (l : ListHeader) (e cnt : ℕ) (h : Links)
    → e ≢ l.tail
    → e ≢ 0
    → h.prev e ≢ 0
    → h.next e ≢ 0
    → size_from (suc fuel) l e cnt h ≡ size_from fuel l (h.next e) ((cnt + 1) % 2 ^ 32) h
unfolding size_from list_next
size_from-step fuel l e cnt h t z p n = ground arith

size_from_lem :
    (fuel : ℕ) (l : ListHeader) (h : Links) (a : ℕ) (xs : List ℕ) (cnt : ℕ)
    → Linked h a xs l.tail
    → has l.tail xs ≡ false
    → has 0 (a ∷ l.tail ∷ xs) ≡ false
    → length xs < fuel
    → cnt + length xs < 2 ^ 32
    → size_from fuel l (first_or l.tail xs) cnt h ≡ some (cnt + length xs)
size_from_lem zero l h a xs cnt p t z f s = absurd (omega arith)
size_from_lem (suc fuel) l h a [] cnt p t z f s = size_from-end fuel l cnt h ∙ ap some (omega arith)
size_from_lem (suc fuel) l h a (x ∷ xs) cnt p t z f s =
    size_from-step fuel l x cnt h (λ e. ground arith) (λ e. ground arith) (λ e. ground (arith, p.1))
      (λ e. ground (arith, following h x xs l.tail p.2, null_first xs))
    ∙ (ap (λ e. size_from fuel l e ((cnt + 1) % 2 ^ 32) h) (following h x xs l.tail p.2)
        ∙ (ap (λ c. size_from fuel l (first_or l.tail xs) c h) small
            ∙ (size_from_lem fuel l h x xs (cnt + 1) p.2 (ground arith) (ground arith) (omega arith)
                  (omega arith)
                ∙ ap some (omega arith))))
  where
    small : (cnt + 1) % 2 ^ 32 ≡ cnt + 1
    small = omega arith

    null_first : (ys : List ℕ) → has 0 (l.tail ∷ ys) ≡ false → first_or l.tail ys ≢ 0
    null_first [] q e = ground arith
    null_first (y ∷ ys) q e = ground arith

-- With fuel above the number of elements, and fewer than 2^32 of them, list_size() returns that
-- number and fails no assertion.
pub list_size-length :
    (fuel : ℕ) (l : ListHeader) (h : Links) (xs : List ℕ)
    → Holds h l xs
    → length xs < fuel
    → length xs < 2 ^ 32
    → list_size fuel l h ≡ some (length xs)
unfolding list_size
list_size-length fuel l h xs v f s =
    ap (λ e. size_from fuel l e 0 h) (following h l.head xs l.tail v.linked)
    ∙ (size_from_lem fuel l h l.head xs 0 v.linked (ground (arith, v.addresses.1.0)) v.mapped f
          (omega arith)
        ∙ ap some (omega arith))

pop_lem :
    (h h' : Links) (l : ListHeader) (x n : ℕ)
    → h.next l.head ≡ x
    → x ≢ l.tail
    → list_remove x h ≡ some (n, h')
    → list_pop_front l h ≡ some (x, h')
unfolding list_pop_front
pop_lem h h' l x n e t r = ground arith

-- list_pop_front() of a list that is not empty fails no assertion, returns the first element and
-- leaves the others in their order.
pub list_pop_front-Holds :
    (h : Links) (l : ListHeader) (x : ℕ) (xs : List ℕ)
    → Holds h l (x ∷ xs)
    → (h' : Links) × (list_pop_front l h ≡ some (x, h')) × Holds h' l xs
list_pop_front-Holds h l x xs v =
    let (h', e, w) = list_remove-Holds h l [] xs x v in
    (
      h',
      pop_lem h h' l x (first_or l.tail xs) v.linked.0 (λ q. ground (arith, v.addresses.1.0)) e,
      w,
    )
