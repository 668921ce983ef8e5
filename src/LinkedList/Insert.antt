-- ===== src/LinkedList/Insert.antt =====
-- list_insert and list_remove on the links are insertion and removal on the sequence.
use operation_system.Base.{ℕ, ◌≡◌, ◌≢◌, true, false, some, List, [], ◌∷◌, ◌++◌, arith, has}
use operation_system.LinkedList.{Links, ListHeader, set_prev, set_next, list_insert, list_remove}
use operation_system.LinkedList.Chain.{
  Linked, Distinct, Holds, last_or, first_or, last_or-has, first_or-has, Linked-ends, Linked-split,
  Linked-join, Linked-end, Linked-start, Linked-append, Linked-glue, has-append, Distinct-append,
  append-Distinct,
}

-- The addresses on the two sides of a place in a list.
record IsApart (l : ListHeader) (front back : List ℕ) : Type 0 where
  front_distinct : Distinct front
  back_distinct : Distinct back
  head_out : has l.head front ≡ false
  tail_out : has l.tail back ≡ false
  sides : (u : ℕ) → has u (l.head ∷ front) ≡ true → has u (l.tail ∷ back) ≡ false

apart :
    (l : ListHeader) (front back : List ℕ)
    → Distinct (l.head ∷ l.tail ∷ (front ++ back))
    → IsApart l front back
apart l front back d =
    let (p, q, r) = Distinct-append front back d.1.1 in
    record {
      front_distinct = p;
      back_distinct = q;
      head_out = ground (arith, d.0, has-append l.head front back);
      tail_out = ground (arith, d.1.0, has-append l.tail front back);
      sides = λ u m.
          ground
            (arith, r u, d.0, d.1.0, has-append l.head front back, has-append l.tail front back);
    }

module _ (h : Links) (before elem p : ℕ) where
  abbrev inserted : Links
  inserted = set_prev before elem (set_next p elem (set_next elem before (set_prev elem p h)))

  insert_lem :
      before ≢ 0
      → p ≢ 0
      → elem ≢ 0
      → elem ≢ before
      → h.prev before ≡ p
      → list_insert before elem h ≡ some inserted
  unfolding list_insert
  insert_lem b q e n r = ground arith

-- Inserting an element that is not in a list before one of its elements, or before its tail, fails
-- no assertion, and leaves the list with the element at that place and the others as they were.
pub list_insert-Holds :
    (h : Links) (l : ListHeader) (front back : List ℕ) (elem : ℕ)
    → Holds h l (front ++ back)
    → has elem (l.head ∷ l.tail ∷ (front ++ back)) ≡ false
    → elem ≢ 0
    → (h' : Links) × (list_insert (first_or l.tail back) elem h ≡ some h')
      × Holds h' l (front ++ (elem ∷ back))
list_insert-Holds h l front back elem v out n = (
  new,
  insert_lem h before elem p (λ e. ground (arith, nonnull, before_in, has-append before front back))
      (λ e. ground (arith, nonnull, p_in, has-append p front back)) n
      (λ e. ground (arith, out_back, before_in)) (Linked-ends h l.head front before chain.0).1,
  record {
    linked =
        Linked-join new l.head front elem back l.tail
          (Linked-end h new l.head front before elem chain.0 s.head_out s.front_distinct
            (λ u m q. ground (arith, out_front))
            (λ u m. ground (arith, out_front, s.sides u, before_in)) (ground arith)
            (ground (arith, out_back, before_in)))
          (Linked-start h new p elem back l.tail chain.1 s.back_distinct s.tail_out
            (λ u m. ground (arith, out_back, s.sides p p_in)) (λ u m q. ground (arith, out_back))
            (ground (arith, out_front, p_in)) (ground arith));
    first = ground (arith, v.first, out_front, s.sides l.head, before_in);
    last = ground (arith, v.last, out_back, s.sides p p_in);
    addresses = (
      ground (
        arith,
        v.addresses.0,
        out_front,
        has-append l.head front back,
        has-append l.head front (elem ∷ back),
      ),
      (
        ground (
          arith,
          v.addresses.1.0,
          out_back,
          has-append l.tail front back,
          has-append l.tail front (elem ∷ back),
        ),
        append-Distinct front (elem ∷ back) s.front_distinct
            (ground (arith, out_back), s.back_distinct)
            (λ u m. ground (arith, out_front, s.sides u)),
      ),
    );
    mapped = ground (arith, nonnull, has-append 0 front back, has-append 0 front (elem ∷ back));
  },
)
  where
    before : ℕ
    before = first_or l.tail back

    p : ℕ
    p = last_or l.head front

    new : Links
    new = inserted h before elem p

    s : IsApart l front back
    s = apart l front back v.addresses

    chain : Linked h l.head front before × Linked h p back l.tail
    chain = Linked-append h l.head front back l.tail v.linked

    nonnull : has 0 (l.head ∷ l.tail ∷ (front ++ back)) ≡ false
    nonnull = v.mapped

    p_in : has p (l.head ∷ front) ≡ true
    p_in = last_or-has l.head front

    before_in : has before (l.tail ∷ back) ≡ true
    before_in = first_or-has l.tail back

    out_front : has elem (l.head ∷ front) ≡ false
    out_front = ground (arith, out, has-append elem front back)

    out_back : has elem (l.tail ∷ back) ≡ false
    out_back = ground (arith, out, has-append elem front back)

pub following :
    (h : Links) (a : ℕ) (xs : List ℕ) (b : ℕ) → Linked h a xs b → h.next a ≡ first_or b xs
following h a [] b p = p.0
following h a (x ∷ xs) b p = p.0

module _ (h : Links) (elem p n : ℕ) where
  abbrev removed : Links
  removed = set_prev n p (set_next p n h)

  remove_lem :
      elem ≢ 0
      → p ≢ 0
      → n ≢ 0
      → p ≢ elem
      → h.prev elem ≡ p
      → h.next elem ≡ n
      → list_remove elem h ≡ some (n, removed)
  unfolding list_remove
  remove_lem b q e r s t = ground arith

-- Removing an element of a list fails no assertion, returns the element that followed it, or the
-- tail, and leaves the list with the others as they were.
pub list_remove-Holds :
    (h : Links) (l : ListHeader) (front back : List ℕ) (elem : ℕ)
    → Holds h l (front ++ (elem ∷ back))
    → (h' : Links) × (list_remove elem h ≡ some (first_or l.tail back, h'))
      × Holds h' l (front ++ back)
list_remove-Holds h l front back elem v = (
  new,
  remove_lem h elem p n (λ e. ground (arith, nonnull, has-append elem front (elem ∷ back)))
      (λ e. ground (arith, nonnull, p_in, has-append p front (elem ∷ back)))
      (λ e. ground (arith, nonnull, n_in, has-append n front (elem ∷ back)))
      (λ e. ground (arith, s.sides p, p_in)) (Linked-ends h l.head front elem chain.0).1 after,
  record {
    linked =
        Linked-glue new l.head front back l.tail
          (Linked-end h new l.head front elem n chain.0 s.head_out s.front_distinct
            (λ u m q. ground arith) (λ u m. ground (arith, s.sides u, n_in)) (ground arith)
            (ground arith))
          (Linked-start h new elem p back l.tail chain.1 s.back_distinct.1
            (ground (arith, s.tail_out)) (λ u m. ground (arith, s.sides p p_in))
            (λ u m q. ground arith) (ground arith) (ground arith));
    first = ground (arith, v.first, s.sides l.head, n_in);
    last = ground (arith, v.last, s.sides p p_in);
    addresses = (
      ground (
        arith,
        v.addresses.0,
        has-append l.head front back,
        has-append l.head front (elem ∷ back),
      ),
      (
        ground (
          arith,
          v.addresses.1.0,
          has-append l.tail front back,
          has-append l.tail front (elem ∷ back),
        ),
        append-Distinct front back s.front_distinct s.back_distinct.1
            (λ u m. ground (arith, s.sides u)),
      ),
    );
    mapped = ground (arith, nonnull, has-append 0 front back, has-append 0 front (elem ∷ back));
  },
)
  where
    p : ℕ
    p = last_or l.head front

    n : ℕ
    n = first_or l.tail back

    new : Links
    new = removed h elem p n

    s : IsApart l front (elem ∷ back)
    s = apart l front (elem ∷ back) v.addresses

    chain : Linked h l.head front elem × Linked h elem back l.tail
    chain = Linked-split h l.head front elem back l.tail v.linked

    after : h.next elem ≡ n
    after = following h elem back l.tail chain.1

    nonnull : has 0 (l.head ∷ l.tail ∷ (front ++ (elem ∷ back))) ≡ false
    nonnull = v.mapped

    p_in : has p (l.head ∷ front) ≡ true
    p_in = last_or-has l.head front

    n_in : has n (l.tail ∷ back) ≡ true
    n_in = first_or-has l.tail back
