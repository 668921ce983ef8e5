-- ===== src/Palloc.antt =====
-- pintos/src/threads/palloc.c: the two pools of pages. An address is a number below 2^32, a null
-- pointer 0, and `none` a panic or a failed ASSERT. What the locks of the pools do is in Lock: here
-- a caller has the pool to itself.
pub mod Grant
pub mod Disjoint
pub mod Release
mod Tests
use operation_system.Base.{
  ℕ, ◌+◌, ◌-◌, ◌*◌, ◌/◌, ◌%◌, ◌^◌, Bool, true, false, not, ◌&&◌, ◌||◌, Option, none, some, leb, ltb,
  ◌==◌, if◌then◌else◌, assert, ◌>>=◌, ◌>>◌,
}
use operation_system.Kernel.{pgsize}
use operation_system.Bitmap.{
  Bitmap, Elem, bitmap_error, bitmap_all, bitmap_buf_size, bitmap_create_in_buf, bitmap_size,
  bitmap_scan_and_flip, bitmap_set_multiple,
}

-- `enum palloc_flags`: whether each is set.
pub record PallocFlags : Type 0 where
  pub pal_assert : Bool
  pub pal_zero : Bool
  pub pal_user : Bool

-- `struct pool`.
pub record Pool : Type 0 where
  pub lock : ℕ
  pub used_map : Bitmap
  pub base : ℕ

-- The pools and the memory, by address.
pub record Pools : Type 0 where
  pub kernel_pool : Pool
  pub user_pool : Pool
  pub memory : ℕ → ℕ

abbrev pub pg_ofs : ℕ → ℕ
pg_ofs va = va % pgsize

abbrev pub pg_no : ℕ → ℕ
pg_no va = va / pgsize

-- `flags & PAL_USER ? &user_pool : &kernel_pool`
abbrev pub pool_of : Bool → Pools → Pool
pool_of user ps = if user then ps.user_pool else ps.kernel_pool

abbrev pub set_map : Bool → Bitmap → Pools → Pools
set_map true used ps = record ps { user_pool = record ps.user_pool { used_map = used } }
set_map false used ps = record ps { kernel_pool = record ps.kernel_pool { used_map = used } }

-- `memset (dst, value, size)`
abbrev pub memset : (dst value size : ℕ) → Pools → Pools
memset dst value size ps = record ps {
  memory = λ a. if leb dst a && ltb a (dst + size) then value else ps.memory a;
}

unfoldable pub page_from_pool : Pool → ℕ → Bool
unfolding bitmap_size
page_from_pool pool page =
    leb (pg_no pool.base) (pg_no page)
    && ltb (pg_no page) (pg_no pool.base + bitmap_size pool.used_map)

-- The address of page number `page_idx` of the pool, or null.
abbrev pub page_address : Pool → ℕ → ℕ
page_address pool page_idx =
    if page_idx == bitmap_error then 0 else (pool.base + pgsize * page_idx) % 2 ^ 32

-- The address, and the state.
unfoldable pub palloc_get_multiple : PallocFlags → ℕ → Pools → Option (ℕ × Pools)
unfolding bitmap_scan_and_flip
palloc_get_multiple flags page_cnt ps =
    let pool = pool_of flags.pal_user ps in
    let found : Option (ℕ × Pools) = (do
      r ← bitmap_scan_and_flip 0 page_cnt false pool.used_map
      let pages = page_address pool r.0
      let ps1 = set_map flags.pal_user r.1 ps
      if pages == 0
          then (if flags.pal_assert then none else some (0, ps1))
          else some
              (pages, if flags.pal_zero then memset pages 0 (pgsize * page_cnt) ps1 else ps1)) in
    if page_cnt == 0 then some (0, ps) else found

unfoldable pub palloc_get_page : PallocFlags → Pools → Option (ℕ × Pools)
unfolding palloc_get_multiple
palloc_get_page flags ps = palloc_get_multiple flags 1 ps

-- Which pool the page is from; NOT_REACHED() is `none`.
unfoldable pub owner : ℕ → Pools → Option Bool
unfolding page_from_pool
owner pages ps =
    if page_from_pool ps.kernel_pool pages
    then some false
    else if page_from_pool ps.user_pool pages
    then some true
    else none

unfoldable pub palloc_free_multiple : (pages page_cnt : ℕ) → Pools → Option Pools
unfolding owner
palloc_free_multiple pages page_cnt ps =
    let freed : Option Pools = (do
      user ← owner pages ps
      let pool = pool_of user ps
      let page_idx = pg_no pages - pg_no pool.base
      let ps1 = memset pages 0xcc (pgsize * page_cnt) ps
      used ← bitmap_all page_idx page_cnt pool.used_map
      assert used
      map1 ← bitmap_set_multiple page_idx page_cnt false pool.used_map
      some (set_map user map1 ps1)) in
    do assert (pg_ofs pages == 0); if (pages == 0) || (page_cnt == 0) then some ps else freed

unfoldable pub palloc_free_page : ℕ → Pools → Option Pools
unfolding palloc_free_multiple
palloc_free_page page ps = palloc_free_multiple page 1 ps

-- The pool of the lock `lock`; `buffer` is what the memory at `base` holds.
unfoldable pub init_pool : (lock base page_cnt : ℕ) → (ℕ → Elem) → Option Pool
unfolding bitmap_buf_size bitmap_create_in_buf
init_pool lock base page_cnt buffer = do
  let bm_pages = (bitmap_buf_size page_cnt + pgsize - 1) / pgsize
  assert (leb bm_pages page_cnt)
  used ← bitmap_create_in_buf (page_cnt - bm_pages) (bm_pages * pgsize) buffer
  some (record { lock = lock; used_map = used; base = base + bm_pages * pgsize })

abbrev pub phys_base : ℕ
phys_base = 0xc000_0000

unfoldable pub ptov : ℕ → Option ℕ
ptov paddr = do assert (ltb paddr phys_base); some ((paddr + phys_base) % 2 ^ 32)

unfoldable pub palloc_init :
    (user_page_limit init_ram_pages kernel_lock user_lock : ℕ)
    → (ℕ → ℕ → Elem)
    → (ℕ → ℕ)
    → Option Pools
unfolding init_pool ptov
palloc_init user_page_limit init_ram_pages kernel_lock user_lock buffer memory = do
  free_start ← ptov (1024 * 1024)
  free_end ← ptov (init_ram_pages * pgsize)
  let free_pages = (free_end - free_start) / pgsize
  let half = free_pages / 2
  let user_pages = if ltb user_page_limit half then user_page_limit else half
  let kernel_pages = free_pages - user_pages
  let user_start = free_start + kernel_pages * pgsize
  kernel ← init_pool kernel_lock free_start kernel_pages (buffer free_start)
  user ← init_pool user_lock user_start user_pages (buffer user_start)
  some (record { kernel_pool = kernel; user_pool = user; memory = memory })
