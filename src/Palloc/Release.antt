-- ===== src/Palloc/Release.antt =====
-- palloc_free_multiple gives back what palloc_get_multiple has granted.
use operation_system.Base.{
  ℕ, ◌+◌, ◌-◌, ◌*◌, ◌/◌, ◌%◌, ◌^◌, ◌≤◌, ◌<◌, ◌≡◌, Bool, true, false, some, arith, ap, sym, ◌∙◌,
}
use operation_system.Kernel.{pgsize}
use operation_system.Bitmap.{Bitmap, bitmap_all, bitmap_contains, bitmap_set_multiple}
use operation_system.Bitmap.Range.{
  bit, IsFilled, AllBits, Answers, bitmap_contains-Answers, bitmap_set_multiple-IsFilled,
}
use operation_system.Palloc.{
  Pool, Pools, PallocFlags, pool_of, set_map, memset, page_from_pool, owner, palloc_get_multiple,
  palloc_free_multiple,
}
use operation_system.Palloc.Grant.{IsPool, IsValid, IsGranted}
use operation_system.Palloc.Disjoint.{granted_lem, IsGranted-IsValid}

-- The test of page_from_pool is that the address lies in the pool.
page_from_pool_lem :
    (p : Pool) (idx : ℕ)
    → IsPool p
    → idx < p.used_map.bit_cnt
    → page_from_pool p (p.base + pgsize * idx) ≡ true
unfolding page_from_pool
page_from_pool_lem p idx v h = ground (arith, v.aligned)

not_from_pool_lem :
    (p : Pool) (pages : ℕ)
    → IsPool p
    → p.base + pgsize * p.used_map.bit_cnt ≤ pages
    → page_from_pool p pages ≡ false
unfolding page_from_pool
not_from_pool_lem p pages v h = ground (arith, v.aligned)

owner_lem :
    (user : Bool) (ps : Pools) (idx : ℕ)
    → IsValid ps
    → idx < (pool_of user ps).used_map.bit_cnt
    → owner ((pool_of user ps).base + pgsize * idx) ps ≡ some user
unfolding owner
owner_lem false ps idx v h = ground (arith, page_from_pool_lem ps.kernel_pool idx v.kernel h)
owner_lem true ps idx v h = ground (
  arith,
  page_from_pool_lem ps.user_pool idx v.user h,
  not_from_pool_lem ps.kernel_pool (ps.user_pool.base + pgsize * idx) v.kernel
      (omega (arith, v.apart)),
)

bitmap_all_lem :
    (idx cnt : ℕ) (b : Bitmap)
    → idx + cnt ≤ b.bit_cnt
    → b.bit_cnt < 2 ^ 32
    → AllBits b idx cnt true
    → bitmap_all idx cnt b ≡ some true
unfolding bitmap_all
bitmap_all_lem idx cnt b h s a =
    let (r, e, w) = bitmap_contains-Answers idx cnt false b h s in answered r e w
  where
    answered :
        (r : Bool)
        → bitmap_contains idx cnt false b ≡ some r
        → Answers b idx cnt false r
        → bitmap_all idx cnt b ≡ some true
    answered true e (i, p, q) = absurd (ground (arith, a i p))
    answered false e w = ground arith

free_lem :
    (user : Bool) (pages idx cnt : ℕ) (ps : Pools) (b' : Bitmap)
    → owner pages ps ≡ some user
    → pages % pgsize ≡ 0
    → 0 < pages
    → 0 < cnt
    → pages / pgsize - (pool_of user ps).base / pgsize ≡ idx
    → bitmap_all idx cnt (pool_of user ps).used_map ≡ some true
    → bitmap_set_multiple idx cnt false (pool_of user ps).used_map ≡ some b'
    → palloc_free_multiple pages cnt ps
      ≡ some (set_map user b' (memset pages 0xcc (pgsize * cnt) ps))
unfolding palloc_free_multiple
free_lem user pages idx cnt ps b' o z p c e a g = ground arith

-- The maps of the two states have the same bits.
abbrev pub SameUse : Pools → Pools → Type 0
SameUse ps qs =
    (user : Bool) (i : ℕ) → bit (pool_of user qs).used_map i ≡ bit (pool_of user ps).used_map i

restored :
    (b b1 b2 : Bitmap) (idx cnt i : ℕ)
    → AllBits b idx cnt false
    → IsFilled idx cnt true b b1
    → IsFilled idx cnt false b1 b2
    → bit b2 i ≡ bit b i
restored b b1 b2 idx cnt i a f g = ground (arith, a i, f.bits i, g.bits i)

same_use :
    (user : Bool) (cnt : ℕ) (ps ps' : Pools) (pages idx : ℕ) (b : Bitmap) (v s : ℕ)
    → IsGranted user cnt ps pages ps' idx
    → IsFilled idx cnt false (pool_of user ps').used_map b
    → SameUse ps (set_map user b (memset pages v s ps'))
same_use true cnt ps ps' pages idx b v s g f true i =
    restored ps.user_pool.used_map ps'.user_pool.used_map b idx cnt i g.free g.used f
same_use true cnt ps ps' pages idx b v s g f false i = ap (λ p. bit p.used_map i) g.other_pool
same_use false cnt ps ps' pages idx b v s g f true i = ap (λ p. bit p.used_map i) g.other_pool
same_use false cnt ps ps' pages idx b v s g f false i =
    restored ps.kernel_pool.used_map ps'.kernel_pool.used_map b idx cnt i g.free g.used f

-- Pages that palloc_get_multiple() has returned on valid pools can be given back: then
-- palloc_free_multiple() of that group fails no assertion, and the same pages are in use as before
-- the two calls.
pub palloc_free_multiple-get_multiple :
    (flags : PallocFlags) (cnt : ℕ) (ps ps' : Pools) (pages : ℕ)
    → IsValid ps
    → 0 < cnt
    → palloc_get_multiple flags cnt ps ≡ some (pages, ps')
    → 0 < pages
    → (qs : Pools) × (palloc_free_multiple pages cnt ps' ≡ some qs) × SameUse ps qs
palloc_free_multiple-get_multiple flags cnt ps ps' pages v h e p =
    let (idx, g) = granted_lem flags cnt ps ps' pages v h e p in
    let w : IsPool (pool_of flags.pal_user ps) = side flags.pal_user in
    let t = IsGranted-IsValid flags.pal_user cnt ps ps' pages idx v g in
    let room : idx + cnt ≤ (pool_of flags.pal_user ps').used_map.bit_cnt =
      omega (arith, g.inside, g.used.size) in
    let small : (pool_of flags.pal_user ps').used_map.bit_cnt < 2 ^ 32 =
      omega (arith, w.fits, g.used.size) in
    let (b, q, f) =
      bitmap_set_multiple-IsFilled idx cnt false (pool_of flags.pal_user ps').used_map room small in
    (
      _,
      free_lem flags.pal_user pages idx cnt ps' b
          (ap (λ a. owner a ps') (g.address ∙ ap (λ x. x + pgsize * idx) (sym g.base_same))
            ∙ owner_lem flags.pal_user ps' idx t (omega arith))
          (omega (arith, g.address, w.aligned)) p h
          (omega (arith, g.address, g.base_same, w.aligned))
          (bitmap_all_lem idx cnt (pool_of flags.pal_user ps').used_map room small
            (λ i m. ground (arith, g.used.bits i)))
          q,
      same_use flags.pal_user cnt ps ps' pages idx b 0xcc (pgsize * cnt) g f,
    )
  where
    side : (user : Bool) → IsPool (pool_of user ps)
    side true = v.user
    side false = v.kernel
