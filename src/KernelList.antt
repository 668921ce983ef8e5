-- ===== src/KernelList.antt =====
-- pintos/src/lib/kernel/list.c, the algorithms that take a comparison, over the sequence of a
-- list's elements. The pointer operations below them are in LinkedList.
pub mod Ordered
pub mod Address
mod Tests
use operation_system.Base.{Bool, Option, none, some, List, [], ◌∷◌, if◌then◌else◌}

module _ {ℓ} {A : Type ℓ} (less : A → A → Bool) where
  -- list_insert_ordered: before the first element that the new one is less than.
  unfoldable pub insert_ordered : A → List A → List A
  insert_ordered x [] = x ∷ []
  insert_ordered x (y ∷ ys) = if less x y then x ∷ y ∷ ys else y ∷ insert_ordered x ys

  -- The loop of list_min, from the least element so far.
  unfoldable pub list_min_from : A → List A → A
  list_min_from m [] = m
  list_min_from m (x ∷ xs) = list_min_from (if less x m then x else m) xs

  -- list_min; the tail of an empty list is `none`.
  unfoldable pub list_min : List A → Option A
  unfolding list_min_from
  list_min [] = none
  list_min (x ∷ xs) = some (list_min_from x xs)

  -- The loop of list_max, from the greatest element so far.
  unfoldable pub list_max_from : A → List A → A
  list_max_from m [] = m
  list_max_from m (x ∷ xs) = list_max_from (if less m x then x else m) xs

  unfoldable pub list_max : List A → Option A
  unfolding list_max_from
  list_max [] = none
  list_max (x ∷ xs) = some (list_max_from x xs)
