-- ===== src/Palloc/Disjoint.antt =====
-- Pages are granted to one owner at a time.
use operation_system.Base.{
  ℕ, ◌+◌, ◌*◌, ◌≤◌, ◌<◌, ◌≡◌, ◌⊎◌, inl, inr, Bool, true, false, Option, none, some, arith, leb,
  if◌then◌else◌, ap, sym, ◌∙◌, subst, Bool-cases, eq_of_some,
}
use operation_system.Kernel.{pgsize}
use operation_system.Bitmap.{Bitmap}
use operation_system.Bitmap.Range.{in_range, IsFilled, AllBits}
use operation_system.Palloc.{Pool, Pools, PallocFlags, palloc_get_multiple}
use operation_system.Palloc.Grant.{IsPool, IsValid, IsGranted, palloc_get_multiple-Outcome}

abbrev null_or_panic : Bool → Pools → Option (ℕ × Pools)
null_or_panic a ps = if a then none else some (0, ps)

null_lem : (a : Bool) (p : ℕ) (ps ps' : Pools) → null_or_panic a ps ≡ some (p, ps') → 0 < p → ⊥
null_lem true p ps ps' e h = ground arith
null_lem false p ps ps' e h = ground arith

-- A call that returns pages has granted them.
pub granted_lem :
    (flags : PallocFlags) (cnt : ℕ) (ps ps' : Pools) (pages : ℕ)
    → IsValid ps
    → 0 < cnt
    → palloc_get_multiple flags cnt ps ≡ some (pages, ps')
    → 0 < pages
    → (idx : ℕ) × IsGranted flags.pal_user cnt ps pages ps' idx
granted_lem flags cnt ps ps' pages v h e p = elim (palloc_get_multiple-Outcome flags cnt ps v h) [
  | inl (q, idx, qs, g, z, i, m) ↦
      let same : (q, qs) ≡ (pages, ps') = eq_of_some (sym g ∙ e) in
      (idx, subst (λ x. IsGranted flags.pal_user cnt ps x.0 x.1 idx) same i)
  | inr (x, g) ↦ absurd (null_lem flags.pal_assert pages ps ps' (sym g ∙ e) p)
]

IsPool-same :
    (p q : Pool) → q.base ≡ p.base → q.used_map.bit_cnt ≡ p.used_map.bit_cnt → IsPool p → IsPool q
IsPool-same p q b s v = record {
  aligned = rw b v.aligned;
  mapped = omega (arith, v.mapped);
  fits = omega (arith, v.fits);
}

pub IsGranted-IsValid :
    (user : Bool) (cnt : ℕ) (ps ps' : Pools) (pages idx : ℕ)
    → IsValid ps
    → IsGranted user cnt ps pages ps' idx
    → IsValid ps'
IsGranted-IsValid true cnt ps ps' pages idx v g = record {
  kernel = subst IsPool (sym g.other_pool) v.kernel;
  user = IsPool-same ps.user_pool ps'.user_pool g.base_same g.used.size v.user;
  apart = omega (
    arith,
    v.apart,
    g.base_same,
    ap (λ p. p.base) g.other_pool,
    ap (λ p. p.used_map.bit_cnt) g.other_pool,
  );
}
IsGranted-IsValid false cnt ps ps' pages idx v g = record {
  kernel = IsPool-same ps.kernel_pool ps'.kernel_pool g.base_same g.used.size v.kernel;
  user = subst IsPool (sym g.other_pool) v.user;
  apart = omega (arith, v.apart, g.base_same, g.used.size, ap (λ p. p.base) g.other_pool);
}

-- Two ranges of addresses have no page in common.
abbrev pub Disjoint : (p c q d : ℕ) → Type 0
Disjoint p c q d = (p + pgsize * c ≤ q) ⊎ (q + pgsize * d ≤ p)

clash :
    (b b' : Bitmap) (i c j d m : ℕ)
    → IsFilled i c true b b'
    → AllBits b' j d false
    → in_range i c m ≡ true
    → in_range j d m ≡ true
    → ⊥
clash b b' i c j d m f a p q = ground (arith, f.bits m, a m q)

apart_bits :
    (b b' : Bitmap) (i c j d : ℕ)
    → IsFilled i c true b b'
    → AllBits b' j d false
    → 0 < c
    → 0 < d
    → (i + c ≤ j) ⊎ (j + d ≤ i)
apart_bits b b' i c j d f a hc hd = elim (Bool-cases (leb i j)) [
  | inl e ↦ (elim (Bool-cases (leb (i + c) j)) [
    | inl p ↦ inl (ground arith)
    | inr p ↦ absurd (clash b b' i c j d j f a (ground arith) (ground arith))
  ])
  | inr e ↦ (elim (Bool-cases (leb (j + d) i)) [
    | inl p ↦ inr (ground arith)
    | inr p ↦ absurd (clash b b' i c j d i f a (ground arith) (ground arith))
  ])
]

scaled :
    (base i c j d : ℕ)
    → (i + c ≤ j) ⊎ (j + d ≤ i)
    → Disjoint (base + pgsize * i) c (base + pgsize * j) d
scaled base i c j d (inl h) = inl (omega arith)
scaled base i c j d (inr h) = inr (omega arith)

separate :
    (u w : Bool) (c d : ℕ) (ps ps1 ps2 : Pools) (p q i j : ℕ)
    → IsValid ps
    → 0 < c
    → 0 < d
    → IsGranted u c ps p ps1 i
    → IsGranted w d ps1 q ps2 j
    → Disjoint p c q d
separate true true c d ps ps1 ps2 p q i j v hc hd g h =
    rw (g.address, h.address, g.base_same)
      (scaled ps.user_pool.base i c j d (apart_bits _ _ i c j d g.used h.free hc hd))
separate false false c d ps ps1 ps2 p q i j v hc hd g h =
    rw (g.address, h.address, g.base_same)
      (scaled ps.kernel_pool.base i c j d (apart_bits _ _ i c j d g.used h.free hc hd))
separate true false c d ps ps1 ps2 p q i j v hc hd g h = inr (
    omega (
      arith,
      v.apart,
      g.address,
      h.address,
      h.inside,
      ap (λ x. x.base) g.other_pool,
      ap (λ x. x.used_map.bit_cnt) g.other_pool,
    ))
separate false true c d ps ps1 ps2 p q i j v hc hd g h =
    inl (omega (arith, v.apart, g.address, h.address, g.inside, ap (λ x. x.base) g.other_pool))

-- Two calls of palloc_get_multiple() in a row on valid pools, of one page or more each and with any
-- flags, return groups with no page in common, if neither returns a null pointer.
pub palloc_get_multiple-Disjoint :
    (flags flags' : PallocFlags) (c d : ℕ) (ps ps1 ps2 : Pools) (p q : ℕ)
    → IsValid ps
    → 0 < c
    → 0 < d
    → palloc_get_multiple flags c ps ≡ some (p, ps1)
    → 0 < p
    → palloc_get_multiple flags' d ps1 ≡ some (q, ps2)
    → 0 < q
    → Disjoint p c q d
palloc_get_multiple-Disjoint flags flags' c d ps ps1 ps2 p q v hc hd e hp g hq =
    let (i, a) = granted_lem flags c ps ps1 p v hc e hp in
    let w = IsGranted-IsValid flags.pal_user c ps ps1 p i v a in
    let (j, b) = granted_lem flags' d ps1 ps2 q w hd g hq in
    separate flags.pal_user flags'.pal_user c d ps ps1 ps2 p q i j v hc hd a b
