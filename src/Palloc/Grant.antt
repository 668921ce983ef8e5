-- ===== src/Palloc/Grant.antt =====
-- What palloc_get_multiple grants.
use operation_system.Base.{
  ℕ, ◌+◌, ◌*◌, ◌%◌, ◌^◌, ◌≤◌, ◌<◌, ◌≡◌, refl, ◌≢◌, ◌⊎◌, inl, inr, Bool, true, false, not, none,
  some, arith, if◌then◌else◌, ap, ◌∙◌,
}
use operation_system.Kernel.{pgsize}
use operation_system.Bitmap.{Bitmap, bitmap_error, bitmap_scan_and_flip}
use operation_system.Bitmap.Range.{bit, IsFilled, AllBits}
use operation_system.Bitmap.Scan.{NoGroup, Flipped, bitmap_scan_and_flip-Flipped}
use operation_system.Palloc.{
  Pool, Pools, PallocFlags, pool_of, set_map, memset, palloc_get_multiple,
}

-- A pool of whole pages inside the address space.
pub record IsPool (p : Pool) : Type 0 where
  pub aligned : p.base % pgsize ≡ 0
  pub mapped : 0 < p.base
  pub fits : p.base + pgsize * p.used_map.bit_cnt < 2 ^ 32

-- The user pool begins where the kernel pool has ended.
pub record IsValid (ps : Pools) : Type 0 where
  pub kernel : IsPool ps.kernel_pool
  pub user : IsPool ps.user_pool
  pub apart : ps.kernel_pool.base + pgsize * ps.kernel_pool.used_map.bit_cnt ≤ ps.user_pool.base

IsPool-pool_of : (user : Bool) (ps : Pools) → IsValid ps → IsPool (pool_of user ps)
IsPool-pool_of true ps v = v.user
IsPool-pool_of false ps v = v.kernel

-- The pages from number `idx` on were free, and are now in use, and nothing else has changed.
pub record IsGranted (user : Bool) (cnt : ℕ) (ps : Pools) (pages : ℕ) (ps' : Pools) (idx : ℕ)
    : Type 0 where
  pub address : pages ≡ (pool_of user ps).base + pgsize * idx
  pub inside : idx + cnt ≤ (pool_of user ps).used_map.bit_cnt
  pub free : AllBits (pool_of user ps).used_map idx cnt false
  pub used : IsFilled idx cnt true (pool_of user ps).used_map (pool_of user ps').used_map
  pub base_same : (pool_of user ps').base ≡ (pool_of user ps).base
  pub other_pool : pool_of (not user) ps' ≡ pool_of (not user) ps

-- No group of that many free pages is in the pool.
abbrev pub Exhausted : Bool → ℕ → Pools → Type 0
Exhausted user cnt ps = let b = (pool_of user ps).used_map in NoGroup b 0 (b.bit_cnt + 1) cnt false

get_found :
    (flags : PallocFlags) (cnt : ℕ) (ps : Pools) (r : ℕ) (b' : Bitmap)
    → 0 < cnt
    → bitmap_scan_and_flip 0 cnt false (pool_of flags.pal_user ps).used_map ≡ some (r, b')
    → r ≢ bitmap_error
    → (pool_of flags.pal_user ps).base + pgsize * r < 2 ^ 32
    → 0 < (pool_of flags.pal_user ps).base
    → palloc_get_multiple flags cnt ps
      ≡ some (
        (pool_of flags.pal_user ps).base + pgsize * r,
        if flags.pal_zero
            then memset
                ((pool_of flags.pal_user ps).base + pgsize * r)
                0
                (pgsize * cnt)
                (set_map flags.pal_user b' ps)
            else set_map flags.pal_user b' ps,
      )
unfolding palloc_get_multiple
get_found flags cnt ps r b' h e n f z = ground arith

get_none :
    (flags : PallocFlags) (cnt : ℕ) (ps : Pools) (b' : Bitmap)
    → 0 < cnt
    → bitmap_scan_and_flip 0 cnt false (pool_of flags.pal_user ps).used_map
      ≡ some (bitmap_error, b')
    → palloc_get_multiple flags cnt ps
      ≡ (if flags.pal_assert then none else some (0, set_map flags.pal_user b' ps))
unfolding palloc_get_multiple
get_none flags cnt ps b' h e = ground arith

set_map_self : (user : Bool) (ps : Pools) → set_map user (pool_of user ps).used_map ps ≡ ps
set_map_self true ps = refl
set_map_self false ps = refl

set_map-pool :
    (user zero : Bool) (b : Bitmap) (ps : Pools) (dst size : ℕ)
    → let ps' = if zero then memset dst 0 size (set_map user b ps) else set_map user b ps in
      ((pool_of user ps').used_map ≡ b)
      × ((pool_of user ps').base ≡ (pool_of user ps).base)
      × (pool_of (not user) ps' ≡ pool_of (not user) ps)
set_map-pool true true b ps dst size = (refl, refl, refl)
set_map-pool true false b ps dst size = (refl, refl, refl)
set_map-pool false true b ps dst size = (refl, refl, refl)
set_map-pool false false b ps dst size = (refl, refl, refl)

-- What the call comes to: pages that were free, or none where no such group is free.
abbrev pub Outcome : PallocFlags → ℕ → Pools → Type 0
Outcome flags cnt ps =
    ((pages idx : ℕ) × (ps' : Pools) × (palloc_get_multiple flags cnt ps ≡ some (pages, ps'))
      × (0 < pages)
      × IsGranted flags.pal_user cnt ps pages ps' idx
      × (flags.pal_zero ≡ true → (a : ℕ) → pages ≤ a → a < pages + pgsize * cnt → ps'.memory a ≡ 0))
    ⊎ (Exhausted flags.pal_user cnt ps
        × (palloc_get_multiple flags cnt ps ≡ (if flags.pal_assert then none else some (0, ps))))

-- On valid pools palloc_get_multiple() of one page or more either returns the address of a group of
-- that many pages, all free before and all in use after, filled with zeros if PAL_ZERO is set, with
-- no other page's use and nothing of the other pool changed; or no such group is free in the pool,
-- and it panics with PAL_ASSERT and returns a null pointer without, and changes nothing.
pub palloc_get_multiple-Outcome :
    (flags : PallocFlags) (cnt : ℕ) (ps : Pools) → IsValid ps → 0 < cnt → Outcome flags cnt ps
palloc_get_multiple-Outcome flags cnt ps v h =
    let (r, b', e, f) =
      bitmap_scan_and_flip-Flipped 0 cnt false pool.used_map (omega arith) (omega (arith, w.fits))
        h in
    outcome r b' e f
  where
    pool : Pool
    pool = pool_of flags.pal_user ps

    w : IsPool pool
    w = IsPool-pool_of flags.pal_user ps v

    outcome :
        (r : ℕ) (b' : Bitmap)
        → bitmap_scan_and_flip 0 cnt false pool.used_map ≡ some (r, b')
        → Flipped 0 cnt false pool.used_map r b'
        → Outcome flags cnt ps
    outcome r b' e (inl (f, g)) =
        let (m, s, o) =
          set_map-pool flags.pal_user flags.pal_zero b' ps (pool.base + pgsize * r)
            (pgsize * cnt) in
        inl (
          pool.base + pgsize * r,
          r,
          _,
          get_found flags cnt ps r b' h e (omega (arith, f.inside, w.fits))
              (omega (arith, f.inside, w.fits)) w.mapped,
          omega (arith, w.mapped),
          record {
            address = refl;
            inside = f.inside;
            free = f.group;
            used = record {
              size = ap (λ x. x.bit_cnt) m ∙ g.size;
              bits = λ i. ap (λ x. bit x i) m ∙ g.bits i;
            };
            base_same = s;
            other_pool = o;
          },
          λ z a p q. ground arith,
        )
    outcome r b' e (inr (q, full, same)) = inr (
      full,
      get_none flags cnt ps b' h (e ∙ ap (λ x. some (x, b')) q)
          ∙ ap (λ x. if flags.pal_assert then none else some (0, x))
              (ap (λ x. set_map flags.pal_user x ps) same ∙ set_map_self flags.pal_user ps),
    )
