-- ===== src/LinkedList/Tests.antt =====
-- A list with header 1, 2 and the elements 5, 6 and 7.
use operation_system.Base.{ℕ, ◌≡◌, refl, Option, some, none, [], ◌∷◌, arith, ◌==◌, if◌then◌else◌}
use operation_system.LinkedList.{
  Links, ListHeader, list_init, list_insert, list_remove, list_reverse, list_size,
}
use operation_system.LinkedList.Chain.{Holds}
use operation_system.LinkedList.Insert.{list_insert-Holds, list_remove-Holds}
use operation_system.LinkedList.Size.{list_init-Holds, list_size-length}

abbrev header : ListHeader
header = record { head = 1; tail = 2 }

abbrev three : Links
three = record {
  next = λ e.
      if e == 1 then 5 else if e == 5 then 6 else if e == 6 then 7 else if e == 7 then 2 else 0;
  prev = λ e.
      if e == 2 then 7 else if e == 7 then 6 else if e == 6 then 5 else if e == 5 then 1 else 0;
}

three-Holds : Holds three header (5 ∷ 6 ∷ 7 ∷ [])
three-Holds = record {
  linked = (refl, refl, (refl, refl, (refl, refl, (refl, refl))));
  first = refl;
  last = refl;
  addresses = (refl, (refl, (refl, (refl, (refl, tt)))));
  mapped = refl;
}

abbrev front_of : Option Links → Option ℕ
front_of none = none
front_of (some h) = some (h.next 1)

reverse_lem : front_of (list_reverse 9 header three) ≡ some 7
unfolding list_reverse
reverse_lem = refl

empty-Holds : Holds (list_init header three) header []
empty-Holds = list_init-Holds three header (λ e. cc) (λ e. cc) (λ e. cc)

list_insert-Holds_example :
    (h' : Links) × (list_insert 6 9 three ≡ some h') × Holds h' header (5 ∷ 9 ∷ 6 ∷ 7 ∷ [])
list_insert-Holds_example =
    list_insert-Holds three header (5 ∷ []) (6 ∷ 7 ∷ []) 9 three-Holds refl (λ e. cc)

list_remove-Holds_example :
    (h' : Links) × (list_remove 7 three ≡ some (2, h')) × Holds h' header (5 ∷ 6 ∷ [])
list_remove-Holds_example = list_remove-Holds three header (5 ∷ 6 ∷ []) [] 7 three-Holds

list_size-length_example : list_size 4 header three ≡ some 3
list_size-length_example =
    list_size-length 4 header three (5 ∷ 6 ∷ 7 ∷ []) three-Holds (omega arith) (omega arith)
