-- ===== src/Hash/Update.antt =====
-- Inserting, replacing and deleting change the elements of the table as they say.
use operation_system.Base.{
  ℕ, ◌+◌, ◌^◌, ◌≤◌, ◌<◌, ◌≡◌, refl, Bool, Option, none, some, List, [], ◌∷◌, arith, ◌==◌,
  if◌then◌else◌, count, count-erase, erase, count-has, length, subst, ap, ◌∙◌,
}
use operation_system.Hash.{
  Hash, find_bucket, hash_delete, hash_find, hash_insert, hash_replace, insert_elem, rehash,
  remove_elem,
}
use operation_system.Hash.Bucket.{
  held-bucket, Agrees, Finds, IsValid, find_bucket-lt, hash_find-Finds, held, sum, sum-except,
}
use operation_system.Hash.Rehash.{Grown-push, rehash-Rehashed}

-- A well-formed table with the elements of another less some and more some; the numbers say how often
-- each address was taken out and added. The functions are the same.
pub record Changed (h h' : Hash) (removed added : ℕ → ℕ) : Type 0 where
  pub valid : IsValid h'
  pub held : (x : ℕ) → held h' x + removed x ≡ held h x + added x
  pub hash : h'.hash ≡ h.hash
  pub less : h'.less ≡ h.less

abbrev pub only : ℕ → ℕ → ℕ
only e x = if e == x then 1 else 0

abbrev pub nothing : ℕ → ℕ
nothing x = 0

insert_elem-Changed :
    (e : ℕ) (h : Hash)
    → IsValid h
    → h.elem_cnt + 1 < 2 ^ 32
    → Changed h (insert_elem (find_bucket h e) e h) nothing (only e)
unfolding insert_elem
insert_elem-Changed e h v f =
    let g = Grown-push h h.buckets e (find_bucket-lt h v e) in
    record {
      valid = record {
        power = v.power;
        small = v.small;
        placed = g.placed v.placed;
        counted = omega (arith, g.lengths, v.counted);
        fits = omega arith;
      };
      held = λ x. omega (arith, g.held x);
      hash = refl;
      less = refl;
    }

erase-absent : (e : ℕ) (xs : List ℕ) → count e xs ≡ 0 → erase e xs ≡ xs
erase-absent e [] h = refl
erase-absent e (x ∷ xs) h = ground (arith, ap (λ l. x ∷ l) (erase-absent e xs (ground arith)))

length-erase : (e : ℕ) (xs : List ℕ) → 0 < count e xs → length (erase e xs) + 1 ≡ length xs
length-erase e [] h = absurd (omega arith)
length-erase e (x ∷ xs) h = ground (arith, length-erase e xs)

module _ (e : ℕ) (h : Hash) (v : IsValid h)
    (present : 0 < count e (h.buckets (find_bucket h e))) where
  sum-erase :
      (m : List ℕ → ℕ)
      → sum h.bucket_cnt (λ i. m (erase e (h.buckets i))) + m (h.buckets (find_bucket h e))
        ≡ sum h.bucket_cnt (λ i. m (h.buckets i)) + m (erase e (h.buckets (find_bucket h e)))
  sum-erase m =
      sum-except h.bucket_cnt (find_bucket h e) (λ i. m (erase e (h.buckets i)))
        (λ i. m (h.buckets i)) (find_bucket-lt h v e)
        (λ i u q. ap m (erase-absent e (h.buckets i) (ground (arith, v.placed i e u))))

  count-erase_le : (x : ℕ) (xs : List ℕ) → count x (erase e xs) ≤ count x xs
  count-erase_le x xs = omega (arith, count-erase x e xs)

  remove_elem-Changed : Changed h (remove_elem e h) (only e) nothing
  unfolding remove_elem
  remove_elem-Changed = record {
    valid = record {
      power = v.power;
      small = v.small;
      placed = λ i x u c. v.placed i x u (omega (arith, count-erase_le x (h.buckets i)));
      counted = omega (
        arith,
        sum-erase length,
        v.counted,
        v.fits,
        length-erase e (h.buckets (find_bucket h e)) present,
      );
      fits = omega arith;
    };
    held = λ x. ground (
      arith,
      sum-erase (λ l. count x l),
      count-erase x e (h.buckets (find_bucket h e)),
      count-has e (h.buckets (find_bucket h e)) present,
    );
    hash = refl;
    less = refl;
  }

  remove_elem-size : (remove_elem e h).elem_cnt + 1 ≡ h.elem_cnt
  unfolding remove_elem
  remove_elem-size = omega (
    arith,
    sum-erase length,
    v.counted,
    v.fits,
    length-erase e (h.buckets (find_bucket h e)) present,
  )

Changed-rehash :
    (room : Bool) (h h' : Hash) (removed added : ℕ → ℕ)
    → Changed h h' removed added
    → Changed h (rehash room h') removed added
Changed-rehash room h h' removed added c =
    let r = rehash-Rehashed room h' c.valid in
    record {
      valid = r.valid;
      held = λ x. omega (arith, r.held x, c.held x);
      hash = r.hash ∙ c.hash;
      less = r.less ∙ c.less;
    }

-- What is taken out, if anything is, and what goes in where nothing is there yet.
abbrev pub each : Option ℕ → ℕ → ℕ
each none = nothing
each (some x) = only x

abbrev pub fresh : ℕ → Option ℕ → ℕ → ℕ
fresh new none = only new
fresh new (some x) = nothing

Changed-none : (h : Hash) → IsValid h → Changed h h nothing nothing
Changed-none h v = record { valid = v; held = λ x. omega arith; hash = refl; less = refl }

-- An element that a search found is on its bucket's list.
found-present :
    (h : Hash) (e x : ℕ)
    → IsValid h
    → Finds h (held h) e (some x)
    → 0 < count x (h.buckets (find_bucket h x))
found-present h e x v f = subst (λ n. 0 < n) (held-bucket h v x) f.0

insert_old :
    (new : ℕ) (h : Hash)
    → IsValid h
    → h.elem_cnt + 1 < 2 ^ 32
    → (old : Option ℕ)
    → Changed h
        (elim old [ none ↦ insert_elem (find_bucket h new) new h | some o ↦ h ])
        nothing
        (fresh new old)
insert_old new h v f none = insert_elem-Changed new h v f
insert_old new h v f (some o) = Changed-none h v

-- In a well-formed table with equal hash values for equal elements and room in the count for one more,
-- hash_insert() returns an element that is equal to the new one or a null pointer where there is none,
-- and leaves a well-formed table that has the new element once more in the second case, and else just
-- the same elements. The allocation in rehash() may fail or not.
pub hash_insert-Changed :
    (room : Bool) (new : ℕ) (h : Hash)
    → IsValid h
    → Agrees h
    → h.elem_cnt + 1 < 2 ^ 32
    → Finds h (held h) new (hash_insert room new h).0
      × Changed h (hash_insert room new h).1 nothing (fresh new (hash_insert room new h).0)
unfolding hash_insert hash_find
hash_insert-Changed room new h v a f = (
  hash_find-Finds h new v a,
  Changed-rehash room h _ nothing _ (insert_old new h v f (hash_find h new)),
)

delete_old :
    (room : Bool) (e : ℕ) (h : Hash)
    → IsValid h
    → (found : Option ℕ) → Finds h (held h) e found
    → Changed h
        (elim found [ none ↦ h | some o ↦ rehash room (remove_elem o h) ])
        (each found)
        nothing
delete_old room e h v none f = Changed-none h v
delete_old room e h v (some o) f =
    Changed-rehash room h (remove_elem o h) (only o) nothing
      (remove_elem-Changed o h v (found-present h e o v f))

-- In a well-formed table with equal hash values for equal elements, hash_delete() returns an element
-- that is equal to the given one or a null pointer where there is none, and leaves a well-formed table
-- with that element once less in the first case, and else just the same elements.
pub hash_delete-Changed :
    (room : Bool) (e : ℕ) (h : Hash)
    → IsValid h
    → Agrees h
    → Finds h (held h) e (hash_delete room e h).0
      × Changed h (hash_delete room e h).1 (each (hash_delete room e h).0) nothing
unfolding hash_delete hash_find
hash_delete-Changed room e h v a =
    let f = hash_find-Finds h e v a in (f, delete_old room e h v (hash_find h e) f)

replace_old :
    (new : ℕ) (h : Hash)
    → IsValid h
    → h.elem_cnt + 1 < 2 ^ 32
    → (old : Option ℕ) → Finds h (held h) new old
    → Changed h
        (insert_elem (find_bucket h new) new (elim old [ none ↦ h | some o ↦ remove_elem o h ]))
        (each old)
        (only new)
unfolding remove_elem
replace_old new h v f none q = insert_elem-Changed new h v f
replace_old new h v f (some o) q =
    let present = found-present h new o v q in
    let c = remove_elem-Changed o h v present in
    let size = remove_elem-size o h v present in
    let d = insert_elem-Changed new (remove_elem o h) c.valid (omega (arith, size, v.fits)) in
    record {
      valid = d.valid;
      held = λ x. omega (arith, c.held x, d.held x);
      hash = d.hash ∙ c.hash;
      less = d.less ∙ c.less;
    }

-- In a well-formed table with equal hash values for equal elements and room in the count for one more,
-- hash_replace() returns an element that is equal to the new one or a null pointer where there is none,
-- and leaves a well-formed table that has that element once less, if there was one, and the new element
-- once more.
pub hash_replace-Changed :
    (room : Bool) (new : ℕ) (h : Hash)
    → IsValid h
    → Agrees h
    → h.elem_cnt + 1 < 2 ^ 32
    → Finds h (held h) new (hash_replace room new h).0
      × Changed h (hash_replace room new h).1 (each (hash_replace room new h).0) (only new)
unfolding hash_replace hash_find
hash_replace-Changed room new h v a f =
    let q = hash_find-Finds h new v a in
    (q, Changed-rehash room h _ _ (only new) (replace_old new h v f (hash_find h new) q))
