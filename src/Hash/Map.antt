-- ===== src/Hash/Map.antt =====
-- A hash table whose comparison is an order is a finite map from the classes of equal elements to the
-- elements.
use operation_system.Base.{
  ◌⊎◌, ltb→lt, ℕ, ◌+◌, ◌^◌, ◌≤◌, ◌<◌, ◌≡◌, refl, Bool, true, false, not, ◌&&◌, Option, none, some,
  arith, ltb, ◌==◌, if◌then◌else◌, sym, subst, ap, ◌∙◌, inl, inr, Bool-cases, ==→eq,
}
use operation_system.Hash.{Hash, hash_delete, hash_find, hash_insert, is_same}
use operation_system.Hash.Bucket.{Agrees, Finds, IsValid, hash_find-Finds, held}
use operation_system.Hash.Update.{
  Changed, each, fresh, hash_delete-Changed, hash_insert-Changed, nothing, only,
}

-- A well-formed table whose functions are as hash.h wants them: equal elements have equal hash values,
-- and equality is reflexive and transitive. No two elements of the table are equal.
pub record IsMap (h : Hash) : Type 0 where
  pub valid : IsValid h
  pub agrees : Agrees h
  pub same_refl : (x : ℕ) → is_same h x x ≡ true
  pub same_trans : (x y z : ℕ) → is_same h x y ≡ true → is_same h y z ≡ true → is_same h x z ≡ true
  pub single : (x : ℕ) → held h x ≤ 1
  pub unique : (x y : ℕ) → 0 < held h x → 0 < held h y → is_same h x y ≡ true → x ≡ y

is_same_sym : (h : Hash) (x y : ℕ) → is_same h x y ≡ is_same h y x
is_same_sym h x y = ground arith

-- What a search finds is determined.
Finds-unique :
    (h : Hash) (x : ℕ) (r s : Option ℕ)
    → IsMap h
    → Finds h (held h) x r
    → Finds h (held h) x s
    → r ≡ s
Finds-unique h x none none m f g = refl
Finds-unique h x none (some z) m f g = absurd (ground (arith, f z g.0, g.1))
Finds-unique h x (some y) none m f g = absurd (ground (arith, g y f.0, f.1))
Finds-unique h x (some y) (some z) m f g =
    ap some (m.unique y z f.0 g.0 (m.same_trans y x z f.1 (is_same_sym h x z ∙ g.1)))

hash_find_unique :
    (h : Hash) (x : ℕ) (r : Option ℕ) → IsMap h → Finds h (held h) x r → hash_find h x ≡ r
hash_find_unique h x r m f = Finds-unique h x _ r m (hash_find-Finds h x m.valid m.agrees) f

module _ (h h' : Hash) (removed added : ℕ → ℕ) (c : Changed h h' removed added) where
  same_eq : (x y : ℕ) → is_same h' x y ≡ is_same h x y
  same_eq x y = ap (λ l. not (l x y) && not (l y x)) c.less

  -- The part of a map's conditions that is about the functions.
  Changed-IsMap :
      IsMap h
      → ((x : ℕ) → held h' x ≤ 1)
      → ((x y : ℕ) → 0 < held h' x → 0 < held h' y → is_same h x y ≡ true → x ≡ y)
      → IsMap h'
  Changed-IsMap m s u = record {
    valid = c.valid;
    agrees = λ x y e.
        ap (λ g. g x) c.hash ∙ (m.agrees x y (sym (same_eq x y) ∙ e) ∙ sym (ap (λ g. g y) c.hash));
    same_refl = λ x. same_eq x x ∙ m.same_refl x;
    same_trans = λ x y z p q.
        same_eq x z ∙ m.same_trans x y z (sym (same_eq x y) ∙ p) (sym (same_eq y z) ∙ q);
    single = s;
    unique = λ x y p q e. u x y p q (sym (same_eq x y) ∙ e);
  }

-- The element that the table has after an insertion.
abbrev pub kept : ℕ → Option ℕ → ℕ
kept new none = new
kept new (some o) = o

-- What an element of the table is after the insertion of a new one.
grown-cases :
    (h h' : Hash) (new y : ℕ) (old : Option ℕ)
    → Changed h h' nothing (fresh new old)
    → 0 < held h' y
    → (new ≡ y) ⊎ (0 < held h y)
grown-cases h h' new y none c p = elim (Bool-cases (new == y)) [
  | inl e ↦ inl (==→eq new y e)
  | inr e ↦ inr (ground (arith, c.held y))
]
grown-cases h h' new y (some o) c p = inr (omega (arith, c.held y))

-- An element is not in the table if no equal one is.
absent : (h : Hash) (x : ℕ) → IsMap h → Finds h (held h) x none → held h x ≡ 0
absent h x m f = elim (Bool-cases (ltb 0 (held h x))) [
  | inl e ↦ absurd (ground (arith, f x (ltb→lt 0 (held h x) e), m.same_refl x))
  | inr e ↦ ground arith
]

insert_unique :
    (h h' : Hash) (new x y : ℕ)
    → IsMap h
    → Finds h (held h) new none
    → Changed h h' nothing (only new)
    → 0 < held h' x
    → 0 < held h' y
    → is_same h x y ≡ true
    → x ≡ y
insert_unique h h' new x y m f c p q e = elim (grown-cases h h' new x none c p) [
  | inl a ↦ elim (grown-cases h h' new y none c q) [
    | inl b ↦ sym a ∙ b
    | inr b ↦ absurd (ground (arith, f y b, is_same_sym h y x ∙ e, ap (is_same h y) a))
  ]
  | inr a ↦ elim (grown-cases h h' new y none c q) [
    | inl b ↦ absurd (ground (arith, f x a, e, ap (is_same h x) b))
    | inr b ↦ m.unique x y a b e
  ]
]

insert-IsMap :
    (h h' : Hash) (new : ℕ) (old : Option ℕ)
    → IsMap h
    → Finds h (held h) new old
    → Changed h h' nothing (fresh new old)
    → IsMap h'
insert-IsMap h h' new (some o) m f c =
    Changed-IsMap h h' nothing nothing c m (λ x. omega (arith, c.held x, m.single x))
      (λ x y p q e. m.unique x y (omega (arith, c.held x)) (omega (arith, c.held y)) e)
insert-IsMap h h' new none m f c =
    Changed-IsMap h h' nothing (only new) c m
      (λ x. ground (arith, c.held x, m.single x, absent h new m f))
      (λ x y p q e. insert_unique h h' new x y m f c p q e)

insert-Finds :
    (h h' : Hash) (new x : ℕ) (old r : Option ℕ)
    → IsMap h
    → Finds h (held h) new old
    → Finds h (held h) x r
    → Changed h h' nothing (fresh new old)
    → Finds h' (held h') x (if is_same h new x then some (kept new old) else r)
insert-Finds h h' new x old r m f g c = elim (Bool-cases (is_same h new x)) [
  | inl e ↦ rw e (stored old f c e)
  | inr e ↦ rw e (others r g e)
]
  where
    stored :
        (old : Option ℕ)
        → Finds h (held h) new old
        → Changed h h' nothing (fresh new old)
        → is_same h new x ≡ true
        → Finds h' (held h') x (some (kept new old))
    stored none f c e = (ground (arith, c.held new), same_eq h h' nothing (only new) c new x ∙ e)
    stored (some o) f c e = (
      omega (arith, c.held o, f.0),
      same_eq h h' nothing nothing c o x ∙ m.same_trans o new x f.1 e,
    )

    others :
        (r : Option ℕ) → Finds h (held h) x r → is_same h new x ≡ false → Finds h' (held h') x r
    others none g e = λ y p.
        same_eq h h' nothing (fresh new old) c y x ∙ elim (grown-cases h h' new y old c p) [
          | inl a ↦ subst (λ z. is_same h z x ≡ false) a e
          | inr a ↦ g y a
        ]
    others (some z) g e =
        (omega (arith, c.held z, g.0), same_eq h h' nothing (fresh new old) c z x ∙ g.1)

-- In a table that is a map, with room in the count for one more, hash_insert() leaves a map that finds
-- for each element equal to the new one the element that was there, or the new one where none was,
-- and for every other element what was found before. The allocation in rehash() may fail or not.
pub hash_find-hash_insert :
    (room : Bool) (new : ℕ) (h : Hash)
    → IsMap h
    → h.elem_cnt + 1 < 2 ^ 32
    → IsMap (hash_insert room new h).1
      × ((hash_insert room new h).0 ≡ hash_find h new)
      × ((x : ℕ)
          → hash_find (hash_insert room new h).1 x
            ≡ (if is_same h new x then some (kept new (hash_find h new)) else hash_find h x))
hash_find-hash_insert room new h m b =
    let (f, c) = hash_insert-Changed room new h m.valid m.agrees b in
    let q = sym (hash_find_unique h new _ m f) in
    let n = insert-IsMap h _ new _ m f c in
    (
      n,
      q,
      λ x.
          hash_find_unique _ x _ n
            (insert-Finds h _ new x _ (hash_find h x) m f (hash_find-Finds h x m.valid m.agrees) c)
          ∙ ap (λ o. if is_same h new x then some (kept new o) else hash_find h x) q,
    )

delete-IsMap : (h h' : Hash) (r : Option ℕ) → IsMap h → Changed h h' (each r) nothing → IsMap h'
delete-IsMap h h' r m c =
    Changed-IsMap h h' (each r) nothing c m (λ x. omega (arith, c.held x, m.single x))
      (λ x y p q e. m.unique x y (omega (arith, c.held x)) (omega (arith, c.held y)) e)

delete-Finds :
    (h h' : Hash) (e x : ℕ) (found r : Option ℕ)
    → IsMap h
    → Finds h (held h) e found
    → Finds h (held h) x r
    → Changed h h' (each found) nothing
    → Finds h' (held h') x (if is_same h e x then none else r)
delete-Finds h h' e x found r m f g c = elim (Bool-cases (is_same h e x)) [
  | inl s ↦ rw s (λ y p. same_eq h h' (each found) nothing c y x ∙ gone found f c s y p)
  | inr s ↦ rw s (others r g s)
]
  where
    gone :
        (found : Option ℕ)
        → Finds h (held h) e found
        → Changed h h' (each found) nothing
        → is_same h e x ≡ true
        → (y : ℕ) → 0 < held h' y
        → is_same h y x ≡ false
    gone none f c s y p = elim (Bool-cases (is_same h y x)) [
      | inl t ↦ absurd (
          ground
            (arith, f y (omega (arith, c.held y)), m.same_trans y x e t (is_same_sym h x e ∙ s)))
      | inr t ↦ t
    ]
    gone (some o) f c s y p = elim (Bool-cases (is_same h y x)) [
      | inl t ↦
          let same = m.unique y o (omega (arith, c.held y)) f.0 (
            m.same_trans y e o (m.same_trans y x e t (is_same_sym h x e ∙ s))
              (is_same_sym h e o ∙ f.1)) in
          absurd (ground (arith, c.held y, m.single y, same))
      | inr t ↦ t
    ]

    remains :
        (found : Option ℕ)
        → Finds h (held h) e found
        → Changed h h' (each found) nothing
        → is_same h e x ≡ false
        → (z : ℕ) → 0 < held h z
        → is_same h z x ≡ true
        → 0 < held h' z
    remains none f c s z a t = omega (arith, c.held z)
    remains (some o) f c s z a t = elim (Bool-cases (o == z)) [
      | inl q ↦ absurd (
          ground (
            arith,
            m.same_trans e z x
                (subst (λ w. is_same h e w ≡ true) (==→eq o z q) (is_same_sym h e o ∙ f.1)) t,
          ))
      | inr q ↦ ground (arith, c.held z)
    ]

    others : (r : Option ℕ) → Finds h (held h) x r → is_same h e x ≡ false → Finds h' (held h') x r
    others none g s = λ y p. same_eq h h' (each found) nothing c y x ∙ g y (omega (arith, c.held y))
    others (some z) g s =
        (remains found f c s z g.0 g.1, same_eq h h' (each found) nothing c z x ∙ g.1)

-- In a table that is a map, hash_delete() returns what hash_find() finds and leaves a map that finds
-- nothing for the elements equal to the given one and what was found before for every other element.
pub hash_find-hash_delete :
    (room : Bool) (e : ℕ) (h : Hash)
    → IsMap h
    → IsMap (hash_delete room e h).1
      × ((hash_delete room e h).0 ≡ hash_find h e)
      × ((x : ℕ)
          → hash_find (hash_delete room e h).1 x ≡ (if is_same h e x then none else hash_find h x))
hash_find-hash_delete room e h m =
    let (f, c) = hash_delete-Changed room e h m.valid m.agrees in
    let q = sym (hash_find_unique h e _ m f) in
    let n = delete-IsMap h _ _ m c in
    (
      n,
      q,
      λ x.
          hash_find_unique _ x _ n
            (delete-Finds h _ e x _ (hash_find h x) m f (hash_find-Finds h x m.valid m.agrees) c),
    )
