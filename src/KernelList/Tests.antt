-- ===== src/KernelList/Tests.antt =====
-- The ordered list operations on numbers.
use operation_system.Base.{◌≡◌, refl, some, [], ◌∷◌, arith, ltb}
use operation_system.KernelList.{insert_ordered, list_min}
use operation_system.KernelList.Ordered.{IsWeakOrder, IsSorted, Inserted, insert_ordered-IsSorted}

less-IsWeakOrder : IsWeakOrder ltb
less-IsWeakOrder = record { asym = λ x y h. ground arith; chain = λ x y z h g. ground arith }

insert_ordered-IsSorted_example :
    IsSorted ltb (insert_ordered ltb 4 (3 ∷ 4 ∷ 9 ∷ []))
    × Inserted ltb less-IsWeakOrder 4 (3 ∷ 4 ∷ 9 ∷ []) (insert_ordered ltb 4 (3 ∷ 4 ∷ 9 ∷ []))
insert_ordered-IsSorted_example =
    insert_ordered-IsSorted ltb less-IsWeakOrder 4 (3 ∷ 4 ∷ 9 ∷ [])
      ((refl, (refl, tt)), ((refl, tt), (tt, tt)))

least : list_min ltb (5 ∷ 2 ∷ 7 ∷ 2 ∷ []) ≡ some 2
unfolding list_min
least = refl
