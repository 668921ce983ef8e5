-- ===== src/LinkedList.antt =====
-- pintos/src/lib/kernel/list.c: the links of the doubly linked lists. An element is named by its
-- address, a null pointer is 0, and `none` is a failed ASSERT or a loop that has not ended within
-- its fuel. A store is kept for the `prev` and one for the `next` of every element.
pub mod Chain
pub mod Insert
pub mod Size
mod Tests
use operation_system.Base.{
  ℕ, zero, suc, ◌+◌, ◌%◌, ◌^◌, Bool, true, false, not, ◌&&◌, ◌||◌, Option, none, some, ◌==◌,
  if◌then◌else◌, update, assert, ◌>>=◌, ◌>>◌,
}

-- `struct list_elem`, for all addresses.
pub record Links : Type 0 where
  pub prev : ℕ → ℕ
  pub next : ℕ → ℕ

-- `struct list`: the addresses of its two headers.
pub record ListHeader : Type 0 where
  pub head : ℕ
  pub tail : ℕ

-- `elem->prev = v` and `elem->next = v`.
abbrev pub set_prev : (elem v : ℕ) → Links → Links
set_prev elem v h = record h { prev = update h.prev elem v }

abbrev pub set_next : (elem v : ℕ) → Links → Links
set_next elem v h = record h { next = update h.next elem v }

abbrev pub is_null : ℕ → Bool
is_null p = p == 0

abbrev pub is_head : Links → ℕ → Bool
is_head h e = not (is_null e) && (is_null (h.prev e) && not (is_null (h.next e)))

abbrev pub is_interior : Links → ℕ → Bool
is_interior h e = not (is_null e) && (not (is_null (h.prev e)) && not (is_null (h.next e)))

abbrev pub is_tail : Links → ℕ → Bool
is_tail h e = not (is_null e) && (not (is_null (h.prev e)) && is_null (h.next e))

unfoldable pub list_init : ListHeader → Links → Links
list_init l h =
    set_next l.tail 0 (set_prev l.tail l.head (set_next l.head l.tail (set_prev l.head 0 h)))

abbrev pub list_begin : ListHeader → Links → ℕ
list_begin l h = h.next l.head

abbrev pub list_end : ListHeader → ℕ
list_end l = l.tail

abbrev pub list_rbegin : ListHeader → Links → ℕ
list_rbegin l h = h.prev l.tail

abbrev pub list_rend : ListHeader → ℕ
list_rend l = l.head

unfoldable pub list_next : ℕ → Links → Option ℕ
list_next elem h = do assert (is_head h elem || is_interior h elem); some (h.next elem)

unfoldable pub list_prev : ℕ → Links → Option ℕ
list_prev elem h = do assert (is_interior h elem || is_tail h elem); some (h.prev elem)

unfoldable pub list_insert : (before elem : ℕ) → Links → Option Links
list_insert before elem h = do
  assert (is_interior h before || is_tail h before)
  assert (not (is_null elem))
  let h1 = set_prev elem (h.prev before) h
  let h2 = set_next elem before h1
  let h3 = set_next (h2.prev before) elem h2
  some (set_prev before elem h3)

unfoldable pub list_splice : (before first last : ℕ) → Links → Option Links
unfolding list_prev
list_splice before first last h =
    let moved : Option Links = (do
      final ← list_prev last h
      assert (is_interior h first)
      assert (is_interior h final)
      let h1 = set_next (h.prev first) (h.next final) h
      let h2 = set_prev (h1.next final) (h1.prev first) h1
      let h3 = set_prev first (h2.prev before) h2
      let h4 = set_next final before h3
      let h5 = set_next (h4.prev before) first h4
      some (set_prev before final h5)) in
    do assert (is_interior h before || is_tail h before); if first == last then some h else moved

unfoldable pub list_push_front : ListHeader → ℕ → Links → Option Links
unfolding list_insert
list_push_front l elem h = list_insert (list_begin l h) elem h

unfoldable pub list_push_back : ListHeader → ℕ → Links → Option Links
unfolding list_insert
list_push_back l elem h = list_insert (list_end l) elem h

-- The element that followed, and the links.
unfoldable pub list_remove : ℕ → Links → Option (ℕ × Links)
list_remove elem h = do
  assert (is_interior h elem)
  let h1 = set_next (h.prev elem) (h.next elem) h
  let h2 = set_prev (h1.next elem) (h1.prev elem) h1
  some (h2.next elem, h2)

abbrev pub list_empty : ListHeader → Links → Bool
list_empty l h = list_begin l h == list_end l

unfoldable pub list_front : ListHeader → Links → Option ℕ
list_front l h = do assert (not (list_empty l h)); some (h.next l.head)

unfoldable pub list_back : ListHeader → Links → Option ℕ
list_back l h = do assert (not (list_empty l h)); some (h.prev l.tail)

unfoldable pub list_pop_front : ListHeader → Links → Option (ℕ × Links)
unfolding list_front list_remove
list_pop_front l h = do front ← list_front l h; r ← list_remove front h; some (front, r.1)

unfoldable pub list_pop_back : ListHeader → Links → Option (ℕ × Links)
unfolding list_back list_remove
list_pop_back l h = do back ← list_back l h; r ← list_remove back h; some (back, r.1)

-- The loop of list_size, from `e` on.
unfoldable pub size_from : (fuel : ℕ) → ListHeader → (e cnt : ℕ) → Links → Option ℕ
unfolding list_next
size_from zero l e cnt h = none
size_from (suc fuel) l e cnt h =
    let more : Option ℕ = (do e1 ← list_next e h; size_from fuel l e1 ((cnt + 1) % 2 ^ 32) h) in
    if e == list_end l then some cnt else more

unfoldable pub list_size : (fuel : ℕ) → ListHeader → Links → Option ℕ
unfolding size_from
list_size fuel l h = size_from fuel l (list_begin l h) 0 h

-- The loop of list_reverse: each element's links are swapped, and `e->prev` is then the next one.
unfoldable pub reverse_from : (fuel : ℕ) → ListHeader → ℕ → Links → Option Links
reverse_from zero l e h = none
reverse_from (suc fuel) l e h =
    let h1 = set_next e (h.prev e) (set_prev e (h.next e) h) in
    let more : Option Links = reverse_from fuel l (h1.prev e) h1 in
    if e == list_end l then some h else more

-- The two swaps after the loop.
abbrev pub swap_ends : ListHeader → Links → Links
swap_ends l h =
    let h1 = set_prev l.tail (h.next l.head) (set_next l.head (h.prev l.tail) h) in
    let first = h1.next l.head in
    let last = h1.prev l.tail in set_next last (h1.prev first) (set_prev first (h1.next last) h1)

unfoldable pub list_reverse : (fuel : ℕ) → ListHeader → Links → Option Links
unfolding reverse_from
list_reverse fuel l h =
    let reversed : Option Links = (do
      h1 ← reverse_from fuel l (list_begin l h) h
      some (swap_ends l h1)) in
    if list_empty l h then some h else reversed
