-- ===== src/Malloc.antt =====
-- pintos/src/threads/malloc.c: blocks of memory, on the page allocator. Addresses and sizes are numbers
-- below 2^32, a null pointer is 0, and `none` is a failed ASSERT. The headers of the arenas are kept by
-- the arena's address, none where there is no valid one; a descriptor is its index. A caller has the
-- descriptors to itself: their locks are left out.
mod Tests
use operation_system.Base.{
  ℕ, zero, suc, ◌+◌, ◌-◌, ◌*◌, ◌/◌, ◌%◌, ◌^◌, Bool, true, false, not, ◌&&◌, ◌||◌, Option, none,
  some, List, [], ◌∷◌, ◌++◌, leb, ltb, ◌==◌, if◌then◌else◌, update, erase, assert, ◌>>=◌, ◌>>◌,
}
use operation_system.Kernel.{pgsize}
use operation_system.Palloc.{
  PallocFlags, Pools, memset, palloc_free_multiple, palloc_free_page, palloc_get_multiple,
  palloc_get_page, pg_ofs,
}

-- `struct desc`; a free block is its address.
pub record Desc : Type 0 where
  pub block_size : ℕ
  pub blocks_per_arena : ℕ
  pub free_list : List ℕ

-- `struct arena` with a valid magic number; no descriptor is a big block.
pub record Arena : Type 0 where
  pub desc : Option ℕ
  pub free_cnt : ℕ

abbrev pub sizeof_arena : ℕ
sizeof_arena = 12

pub record Heap : Type 0 where
  pub pools : Pools
  pub descs : ℕ → Desc
  pub desc_cnt : ℕ
  pub arenas : ℕ → Option Arena

abbrev pub set_arena : ℕ → Option Arena → Heap → Heap
set_arena a arena h = record h { arenas = update h.arenas a arena }

abbrev pub set_free_list : ℕ → List ℕ → Heap → Heap
set_free_list d blocks h = record h {
  descs = update h.descs d (record (h.descs d) { free_list = blocks });
}

-- The loop of malloc_init, on fuel; 10 descriptors have room.
unfoldable pub init_descs : (fuel block_size : ℕ) → Heap → Option Heap
init_descs zero block_size h = some h
init_descs (suc fuel) block_size h = do
  let desc : Desc = record {
    block_size = block_size;
    blocks_per_arena = (pgsize - sizeof_arena) / block_size;
    free_list = [];
  }
  let h1 : Heap = record h { descs = update h.descs h.desc_cnt desc; desc_cnt = h.desc_cnt + 1 }
  let more : Option Heap = (do assert (leb h1.desc_cnt 10); init_descs fuel (block_size * 2) h1)
  if ltb block_size (pgsize / 2) then more else some h

unfoldable pub malloc_init : Heap → Option Heap
unfolding init_descs
malloc_init h = init_descs 11 16 h

abbrev pub pg_round_down : ℕ → ℕ
pg_round_down va = va - va % pgsize

-- The address of the arena, and the arena.
unfoldable pub block_to_arena : ℕ → Heap → Option (ℕ × Arena)
block_to_arena b h = do
  let a = pg_round_down b
  assert (not (a == 0))
  arena ← h.arenas a
  assert (elim arena.desc [
    | none ↦ pg_ofs b == sizeof_arena
    | some d ↦ (pg_ofs b - sizeof_arena) % (h.descs d).block_size == 0
  ])
  some (a, arena)

-- The block of an arena of the descriptor.
unfoldable pub arena_to_block : (a idx : ℕ) → Desc → Option ℕ
arena_to_block a idx desc = do
  assert (ltb idx desc.blocks_per_arena)
  some (a + sizeof_arena + idx * desc.block_size)

-- The blocks from number `idx` on, `n` of them.
unfoldable pub arena_blocks : (n a idx : ℕ) → Desc → Option (List ℕ)
unfolding arena_to_block
arena_blocks zero a idx desc = some []
arena_blocks (suc n) a idx desc = do
  b ← arena_to_block a idx desc
  rest ← arena_blocks n a (idx + 1) desc
  some (b ∷ rest)

-- The smallest descriptor whose blocks are large enough, among `n` from number `d` on.
unfoldable pub find_desc : (n d size : ℕ) → Heap → Option ℕ
find_desc zero d size h = none
find_desc (suc n) d size h =
    if leb size (h.descs d).block_size then some d else find_desc n (d + 1) size h

abbrev pub no_flags : PallocFlags
no_flags = record { pal_assert = false; pal_zero = false; pal_user = false }

-- The number of pages of a big block; the sums wrap.
unfoldable pub big_page_cnt : ℕ → ℕ
big_page_cnt size = (size + sizeof_arena + (pgsize - 1)) % 2 ^ 32 / pgsize

unfoldable pub malloc_big : ℕ → Heap → Option (ℕ × Heap)
unfolding palloc_get_multiple big_page_cnt
malloc_big size h = do
  let page_cnt = big_page_cnt size
  (a, ps) ← palloc_get_multiple no_flags page_cnt h.pools
  let h1 = record h { pools = ps }
  if a == 0
      then some (0, h1)
      else some
          (a + sizeof_arena, set_arena a (some (record { desc = none; free_cnt = page_cnt })) h1)

-- A new arena for an empty free list; false if there is no page.
unfoldable pub refill : (d : ℕ) → Heap → Option (Bool × Heap)
unfolding palloc_get_page arena_blocks
refill d h = do
  (a, ps) ← palloc_get_page no_flags h.pools
  let desc = h.descs d
  let h1 = record h { pools = ps }
  blocks ← arena_blocks desc.blocks_per_arena a 0 desc
  let arena : Arena = record { desc = some d; free_cnt = desc.blocks_per_arena }
  let filled = set_free_list d (desc.free_list ++ blocks) (set_arena a (some arena) h1)
  if a == 0 then some (false, h1) else some (true, filled)

-- A block from the free list.
unfoldable pub take_block : (d : ℕ) → Heap → Option (ℕ × Heap)
unfolding block_to_arena
take_block d h = elim (h.descs d).free_list [
  | [] ↦ none
  | b ∷ blocks ↦ (do
    (a, arena) ← block_to_arena b (set_free_list d blocks h)
    some (
      b,
      set_arena a (some (record arena { free_cnt = arena.free_cnt - 1 }))
          (set_free_list d blocks h),
    ))
]

abbrev pub is_empty_list : List ℕ → Bool
is_empty_list [] = true
is_empty_list (b ∷ blocks) = false

unfoldable pub malloc : (size : ℕ) → Heap → Option (ℕ × Heap)
unfolding find_desc malloc_big refill take_block
malloc size h =
    let small : ℕ → Option (ℕ × Heap) = λ d. (do
      (ok, h1) ← if is_empty_list (h.descs d).free_list then refill d h else some (true, h)
      if ok then take_block d h1 else some (0, h1)) in
    if size == 0
    then some (0, h)
    else elim (find_desc h.desc_cnt 0 size h) [ none ↦ malloc_big size h | some d ↦ small d ]

-- The size that calloc computes, and whether its check passes.
abbrev pub product_32 : ℕ → ℕ → ℕ
product_32 a b = a * b % 2 ^ 32

abbrev pub product_fits : ℕ → ℕ → Bool
product_fits a b = not (ltb (product_32 a b) a || ltb (product_32 a b) b)

unfoldable pub calloc : (a b : ℕ) → Heap → Option (ℕ × Heap)
unfolding malloc
calloc a b h = do
  let size = product_32 a b
  (p, h1) ← if product_fits a b then malloc size h else some (0, h)
  some (p, if p == 0 then h1 else record h1 { pools = memset p 0 size h1.pools })

unfoldable pub block_bytes : (block : ℕ) → Heap → Option ℕ
unfolding block_to_arena
block_bytes block h = do
  (a, arena) ← block_to_arena block h
  some (elim arena.desc [
    | none ↦ pgsize * arena.free_cnt - pg_ofs block
    | some d ↦ (h.descs d).block_size
  ])

-- A list without some blocks.
abbrev pub remove_blocks : List ℕ → List ℕ → List ℕ
remove_blocks [] l = l
remove_blocks (b ∷ blocks) l = remove_blocks blocks (erase b l)

unfoldable pub free : (p : ℕ) → Heap → Option Heap
unfolding block_to_arena arena_blocks palloc_free_page palloc_free_multiple
free p h =
    let freed : Option Heap = (do
      (a, arena) ← block_to_arena p h
      elim arena.desc [
        | none ↦ (do
          ps ← palloc_free_multiple a arena.free_cnt h.pools
          some (set_arena a none (record h { pools = ps })))
        | some d ↦ (do
          let desc = h.descs d
          let listed : List ℕ = p ∷ desc.free_list
          let free_cnt = arena.free_cnt + 1
          let h1 =
              set_arena a (some (record arena { free_cnt = free_cnt })) (
                set_free_list d listed (record h { pools = memset p 0xcc desc.block_size h.pools }))
          let emptied : Option Heap = (do
            assert (free_cnt == desc.blocks_per_arena)
            blocks ← arena_blocks desc.blocks_per_arena a 0 desc
            ps ← palloc_free_page a h1.pools
            some (
                set_arena a none
                  (set_free_list d (remove_blocks blocks listed) (record h1 { pools = ps }))))
          if leb desc.blocks_per_arena free_cnt then emptied else some h1)
      ]) in
    if p == 0 then some h else freed

-- memcpy() between blocks.
abbrev pub copy_block : (dst src size : ℕ) → Pools → Pools
copy_block dst src size ps = record ps {
  memory =
      λ i. if leb dst i && ltb i (dst + size) then ps.memory (src + (i - dst)) else ps.memory i;
}

unfoldable pub realloc : (old_block new_size : ℕ) → Heap → Option (ℕ × Heap)
unfolding malloc free block_bytes
realloc old_block new_size h =
    let released : Option (ℕ × Heap) = (do h1 ← free old_block h; some (0, h1)) in
    let moved : Option (ℕ × Heap) = (do
      (new_block, h1) ← malloc new_size h
      let copied : Option (ℕ × Heap) = (do
        old_size ← block_bytes old_block h1
        let min_size = if ltb new_size old_size then new_size else old_size
        h2 ← free old_block (record h1 { pools = copy_block new_block old_block min_size h1.pools })
        some (new_block, h2))
      if (old_block == 0) || (new_block == 0) then some (new_block, h1) else copied) in
    if new_size == 0 then released else moved
