-- ===== src/Stdlib.antt =====
-- pintos/src/lib/stdlib.c, and the two functions of lib/ctype.h that it uses. An array is the function
-- from the index of an element to the element; overflow of an int, which C leaves open, is left out.
pub mod Search
mod Tests
use operation_system.Base.{
  ℕ, zero, suc, ◌+◌, ◌-◌, ◌*◌, ◌/◌, Bool, true, false, not, ◌&&◌, ◌||◌, Option, none, some, List,
  [], ◌∷◌, leb, ltb, ◌==◌, if◌then◌else◌, update, ◌>>=◌,
}
use operation_system.Base.Int.{ℤ, pos, negsuc, ◌*ℤ◌, ◌-ℤ◌, ltb_ℤ}

abbrev pub isdigit : ℕ → Bool
isdigit c = leb 48 c && leb c 57

-- ' ', '\f', '\n', '\r', '\t' or '\v'
abbrev pub isspace : ℕ → Bool
isspace c = (c == 32) || ((c == 12) || ((c == 10) || ((c == 13) || ((c == 9) || (c == 11)))))

unfoldable pub skip_spaces : List ℕ → List ℕ
skip_spaces [] = []
skip_spaces (c ∷ s) = if isspace c then skip_spaces s else c ∷ s

-- The digits make the value smaller.
unfoldable pub parse_digits : List ℕ → ℤ → ℤ
parse_digits [] value = value
parse_digits (c ∷ s) value =
    let rest = parse_digits s ((value *ℤ pos 10) -ℤ pos (c - 48)) in
    if isdigit c then rest else value

abbrev pub parse_sign : List ℕ → Bool × List ℕ
parse_sign [] = (false, [])
parse_sign (c ∷ s) = if c == 43 then (false, s) else if c == 45 then (true, s) else (false, c ∷ s)

unfoldable pub atoi : List ℕ → ℤ
unfolding skip_spaces parse_digits
atoi s =
    let (negative, digits) = parse_sign (skip_spaces s) in
    let value = parse_digits digits (pos 0) in if not negative then pos 0 -ℤ value else value

module _ {ℓ} {A : Type ℓ} where
  -- Indexes from 1.
  unfoldable pub do_swap : (ℕ → A) → (a_idx b_idx : ℕ) → ℕ → A
  do_swap array a_idx b_idx =
      update (update array (a_idx - 1) (array (b_idx - 1))) (b_idx - 1) (array (a_idx - 1))

  unfoldable pub do_compare : (ℕ → A) → (a_idx b_idx : ℕ) → (A → A → ℤ) → ℤ
  do_compare array a_idx b_idx compare = compare (array (a_idx - 1)) (array (b_idx - 1))

  -- The index of the largest among an element and its children.
  unfoldable pub largest : (ℕ → A) → (i cnt : ℕ) → (A → A → ℤ) → ℕ
  unfolding do_compare
  largest array i cnt compare =
      let left = 2 * i in
      let right = 2 * i + 1 in
      let max1 =
        if leb left cnt && ltb_ℤ (pos 0) (do_compare array left i compare) then left else i in
      if leb right cnt && ltb_ℤ (pos 0) (do_compare array right max1 compare) then right else max1

  -- The loop, on fuel.
  unfoldable pub heapify_from : (fuel : ℕ) → (ℕ → A) → (i cnt : ℕ) → (A → A → ℤ) → Option (ℕ → A)
  unfolding do_swap largest
  heapify_from zero array i cnt compare = none
  heapify_from (suc fuel) array i cnt compare =
      let max = largest array i cnt compare in
      let rest = heapify_from fuel (do_swap array i max) max cnt compare in
      if max == i then some array else rest

  unfoldable pub heapify : (ℕ → A) → (i cnt : ℕ) → (A → A → ℤ) → Option (ℕ → A)
  unfolding heapify_from
  heapify array i cnt compare = heapify_from (cnt + 1) array i cnt compare

  -- The first loop of sort, from element `i` down.
  unfoldable pub build_heap : (i cnt : ℕ) → (A → A → ℤ) → (ℕ → A) → Option (ℕ → A)
  unfolding heapify
  build_heap zero cnt compare array = some array
  build_heap (suc i) cnt compare array =
      heapify array (suc i) cnt compare >>= build_heap i cnt compare

  -- The second, for the elements from `i` + 1 down to 2.
  unfoldable pub take_heap : (i : ℕ) → (A → A → ℤ) → (ℕ → A) → Option (ℕ → A)
  unfolding do_swap heapify
  take_heap zero compare array = some array
  take_heap (suc i) compare array =
      heapify (do_swap array 1 (suc (suc i))) 1 (suc i) compare >>= take_heap i compare

  unfoldable pub sort : (ℕ → A) → (cnt : ℕ) → (A → A → ℤ) → Option (ℕ → A)
  unfolding build_heap take_heap
  sort array cnt compare = do
    heap ← build_heap (cnt / 2) cnt compare array
    take_heap (cnt - 1) compare heap

  unfoldable pub qsort : (ℕ → A) → (cnt : ℕ) → (A → A → ℤ) → Option (ℕ → A)
  unfolding sort
  qsort array cnt compare = sort array cnt compare

  -- The loop of binary_search, on fuel: the index of a match; `none` outside is the end of the fuel.
  unfoldable pub search_from :
      (fuel : ℕ) (key : A) (array : ℕ → A) (first last : ℕ) → (A → A → ℤ) → Option (Option ℕ)
  search_from zero key array first last compare = none
  search_from (suc fuel) key array first last compare =
      let middle = first + (last - first) / 2 in
      let cmp = compare key (array middle) in
      let below = search_from fuel key array first middle compare in
      let above = search_from fuel key array (middle + 1) last compare in
      if ltb first last
      then (if ltb_ℤ cmp (pos 0)
          then below
          else if ltb_ℤ (pos 0) cmp
          then above
          else some (some middle))
      else some none

  unfoldable pub binary_search :
      (key : A) (array : ℕ → A) (cnt : ℕ) → (A → A → ℤ) → Option (Option ℕ)
  unfolding search_from
  binary_search key array cnt compare = search_from (cnt + 1) key array 0 cnt compare

  unfoldable pub bsearch : (key : A) (array : ℕ → A) (cnt : ℕ) → (A → A → ℤ) → Option (Option ℕ)
  unfolding binary_search
  bsearch key array cnt compare = binary_search key array cnt compare
