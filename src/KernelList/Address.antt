-- ===== src/KernelList/Address.antt =====
-- list_insert_ordered over lists of addresses: which addresses it leaves, and how often.
use operation_system.Base.{
  ℕ, ◌+◌, ◌≡◌, ◌||◌, Bool, List, [], ◌∷◌, arith, ◌==◌, if◌then◌else◌, has, count,
}
use operation_system.KernelList.{insert_ordered}

module _ (less : ℕ → ℕ → Bool) (a x : ℕ) where
  pub has-insert_ordered : (ys : List ℕ) → has a (insert_ordered less x ys) ≡ (x == a) || has a ys
  unfolding insert_ordered
  has-insert_ordered [] = ground arith
  has-insert_ordered (y ∷ ys) = ground (arith, has-insert_ordered ys)

  pub count-insert_ordered :
      (ys : List ℕ) → count a (insert_ordered less x ys) ≡ (if x == a then 1 else 0) + count a ys
  unfolding insert_ordered
  count-insert_ordered [] = ground arith
  count-insert_ordered (y ∷ ys) = ground (arith, count-insert_ordered ys)
