-- ===== src/PageDirectory.antt =====
-- pintos/src/userprog/pagedir.c, with threads/pte.h: page directories. Their entries are the words of
-- the memory of the page allocator; an address is a number below 2^32, a null pointer 0, and `none` a
-- failed ASSERT. Re-activating a directory changes nothing but what the processor has cached, which is
-- not modelled; the register CR3 is the address of the active directory.
use Prim.Native.Nat.{bit_and, bit_or}
use operation_system.Base.{
  ℕ, zero, suc, ◌+◌, ◌-◌, ◌*◌, ◌/◌, ◌%◌, ◌^◌, Bool, true, false, not, ◌&&◌, ◌||◌, Option, some, leb,
  ltb, ◌==◌, if◌then◌else◌, assert, ◌>>=◌, ◌>>◌,
}
use operation_system.Kernel.{pgsize}
use operation_system.Palloc.{
  PallocFlags, Pools, palloc_free_page, palloc_get_page, pg_ofs, phys_base, ptov,
}
use operation_system.FileSystem.InodeTable.{bytes_word, word_byte}

abbrev pub pte_addr : ℕ
pte_addr = 0xfffff000

abbrev pub pte_p : ℕ
pte_p = 0x1

abbrev pub pte_w : ℕ
pte_w = 0x2

abbrev pub pte_u : ℕ
pte_u = 0x4

abbrev pub pte_a : ℕ
pte_a = 0x20

abbrev pub pte_d : ℕ
pte_d = 0x40

abbrev pub has_flag : (entry flag : ℕ) → Bool
has_flag entry flag = not (bit_and entry flag == 0)

-- `entry & ~flag`
abbrev pub clear_flag : (entry flag : ℕ) → ℕ
clear_flag entry flag = bit_and entry (2 ^ 32 - 1 - flag)

abbrev pub pd_no : ℕ → ℕ
pd_no va = va / 2 ^ 22

abbrev pub pt_no : ℕ → ℕ
pt_no va = va / 2 ^ 12 % 2 ^ 10

abbrev pub is_user_vaddr : ℕ → Bool
is_user_vaddr va = ltb va phys_base

unfoldable pub vtop : ℕ → Option ℕ
vtop va = do assert (leb phys_base va); some (va - phys_base)

unfoldable pub pde_create : ℕ → Option ℕ
unfolding vtop
pde_create pt = do
  assert (pg_ofs pt == 0)
  p ← vtop pt
  some (bit_or (bit_or (bit_or p pte_u) pte_p) pte_w)

unfoldable pub pde_get_pt : ℕ → Option ℕ
unfolding ptov
pde_get_pt pde = do assert (has_flag pde pte_p); ptov (bit_and pde pte_addr)

unfoldable pub pte_create_kernel : (page : ℕ) (writable : Bool) → Option ℕ
unfolding vtop
pte_create_kernel page writable = do
  assert (pg_ofs page == 0)
  p ← vtop page
  some (bit_or (bit_or p pte_p) (if writable then pte_w else 0))

unfoldable pub pte_create_user : (page : ℕ) (writable : Bool) → Option ℕ
unfolding pte_create_kernel
pte_create_user page writable = do pte ← pte_create_kernel page writable; some (bit_or pte pte_u)

unfoldable pub pte_get_page : ℕ → Option ℕ
unfolding ptov
pte_get_page pte = ptov (bit_and pte pte_addr)

-- The word at an address, and after it is written.
abbrev pub read_word : ℕ → Pools → ℕ
read_word a ps = bytes_word ps.memory a

abbrev pub write_word : (a v : ℕ) → Pools → Pools
write_word a v ps = record ps {
  memory = λ i. if leb a i && ltb i (a + 4) then word_byte v (i - a) else ps.memory i;
}

abbrev pub get_flags : (pal_zero : Bool) → PallocFlags
get_flags pal_zero = record { pal_assert = false; pal_zero = pal_zero; pal_user = false }

-- memcpy() of a page.
abbrev pub copy_page : (dst src : ℕ) → Pools → Pools
copy_page dst src ps = record ps {
  memory =
      λ i. if leb dst i && ltb i (dst + pgsize) then ps.memory (src + (i - dst)) else ps.memory i;
}

-- `init_page_dir` is the directory of the kernel.
unfoldable pub pagedir_create : (init_page_dir : ℕ) → Pools → Option (ℕ × Pools)
unfolding palloc_get_page
pagedir_create init_page_dir ps = do
  (pd, ps1) ← palloc_get_page (get_flags false) ps
  some (pd, if pd == 0 then ps1 else copy_page pd init_page_dir ps1)

-- The pages of a page table: `n` entries from address `pte` on.
unfoldable pub free_pages : (n pte : ℕ) → Pools → Option Pools
unfolding pte_get_page palloc_free_page
free_pages zero pte ps = some ps
free_pages (suc n) pte ps = do
  let entry = read_word pte ps
  let freed : Option Pools = (do page ← pte_get_page entry; palloc_free_page page ps)
  ps1 ← if has_flag entry pte_p then freed else some ps
  free_pages n (pte + 4) ps1

-- The page tables of a directory.
unfoldable pub free_tables : (n pde : ℕ) → Pools → Option Pools
unfolding pde_get_pt free_pages palloc_free_page
free_tables zero pde ps = some ps
free_tables (suc n) pde ps = do
  let entry = read_word pde ps
  let freed : Option Pools = (do
    pt ← pde_get_pt entry
    ps1 ← free_pages (pgsize / 4) pt ps
    palloc_free_page pt ps1)
  ps1 ← if has_flag entry pte_p then freed else some ps
  free_tables n (pde + 4) ps1

unfoldable pub pagedir_destroy : (init_page_dir pd : ℕ) → Pools → Option Pools
unfolding free_tables palloc_free_page
pagedir_destroy init_page_dir pd ps =
    let destroyed : Option Pools = (do
      assert (not (pd == init_page_dir))
      ps1 ← free_tables (pd_no phys_base) pd ps
      palloc_free_page pd ps1) in
    if pd == 0 then some ps else destroyed

-- The address of the entry in the page table that a directory's entry leads to.
unfoldable pub entry_in : (pde vaddr : ℕ) → Option ℕ
unfolding pde_get_pt
entry_in pde vaddr = do pt ← pde_get_pt pde; some (pt + 4 * pt_no vaddr)

unfoldable pub lookup_page : (pd vaddr : ℕ) (create : Bool) → Pools → Option (ℕ × Pools)
unfolding palloc_get_page pde_create entry_in
lookup_page pd vaddr create ps = do
  assert (not (pd == 0))
  assert (not create || is_user_vaddr vaddr)
  let pde = pd + 4 * pd_no vaddr
  let found : Option (ℕ × Pools) = (do pte ← entry_in (read_word pde ps) vaddr; some (pte, ps))
  let created : Option (ℕ × Pools) = (do
    (pt, ps1) ← palloc_get_page (get_flags true) ps
    let linked : Option (ℕ × Pools) = (do
      entry ← pde_create pt
      let ps2 = write_word pde entry ps1
      pte ← entry_in (read_word pde ps2) vaddr
      some (pte, ps2))
    if pt == 0 then some (0, ps1) else linked)
  if not (read_word pde ps == 0) then found else if create then created else some (0, ps)

unfoldable pub pagedir_set_page :
    (init_page_dir init_ram_pages pd upage kpage : ℕ) (writable : Bool)
    → Pools
    → Option (Bool × Pools)
unfolding vtop lookup_page pte_create_user
pagedir_set_page init_page_dir init_ram_pages pd upage kpage writable ps = do
  assert (pg_ofs upage == 0)
  assert (pg_ofs kpage == 0)
  assert (is_user_vaddr upage)
  frame ← vtop kpage
  assert (ltb (frame / 2 ^ 12) init_ram_pages)
  assert (not (pd == init_page_dir))
  (pte, ps1) ← lookup_page pd upage true ps
  let mapped : Option (Bool × Pools) = (do
    assert (not (has_flag (read_word pte ps1) pte_p))
    entry ← pte_create_user kpage writable
    some (true, write_word pte entry ps1))
  if pte == 0 then some (false, ps1) else mapped

unfoldable pub pagedir_get_page : (pd uaddr : ℕ) → Pools → Option ℕ
unfolding lookup_page pte_get_page
pagedir_get_page pd uaddr ps = do
  assert (is_user_vaddr uaddr)
  (pte, ps1) ← lookup_page pd uaddr false ps
  let present : Option ℕ = (do page ← pte_get_page (read_word pte ps1); some (page + pg_ofs uaddr))
  if not (pte == 0) && has_flag (read_word pte ps1) pte_p then present else some 0

unfoldable pub pagedir_clear_page : (pd upage : ℕ) → Pools → Option Pools
unfolding lookup_page
pagedir_clear_page pd upage ps = do
  assert (pg_ofs upage == 0)
  assert (is_user_vaddr upage)
  (pte, ps1) ← lookup_page pd upage false ps
  let entry = read_word pte ps1
  let present = not (pte == 0) && has_flag entry pte_p
  some (if present then write_word pte (clear_flag entry pte_p) ps1 else ps1)

-- A flag of the entry for a page; there may be no entry.
unfoldable pub entry_flag : (pd vpage flag : ℕ) → Pools → Option Bool
unfolding lookup_page
entry_flag pd vpage flag ps = do
  (pte, ps1) ← lookup_page pd vpage false ps
  some (not (pte == 0) && has_flag (read_word pte ps1) flag)

unfoldable pub set_entry_flag : (pd vpage flag : ℕ) (value : Bool) → Pools → Option Pools
unfolding lookup_page
set_entry_flag pd vpage flag value ps = do
  (pte, ps1) ← lookup_page pd vpage false ps
  let entry = read_word pte ps1
  let changed = if value then bit_or entry flag else clear_flag entry flag
  some (if pte == 0 then ps1 else write_word pte changed ps1)

unfoldable pub pagedir_is_dirty : (pd vpage : ℕ) → Pools → Option Bool
unfolding entry_flag
pagedir_is_dirty pd vpage ps = entry_flag pd vpage pte_d ps

unfoldable pub pagedir_set_dirty : (pd vpage : ℕ) (dirty : Bool) → Pools → Option Pools
unfolding set_entry_flag
pagedir_set_dirty pd vpage dirty ps = set_entry_flag pd vpage pte_d dirty ps

unfoldable pub pagedir_is_accessed : (pd vpage : ℕ) → Pools → Option Bool
unfolding entry_flag
pagedir_is_accessed pd vpage ps = entry_flag pd vpage pte_a ps

unfoldable pub pagedir_set_accessed : (pd vpage : ℕ) (accessed : Bool) → Pools → Option Pools
unfolding set_entry_flag
pagedir_set_accessed pd vpage accessed ps = set_entry_flag pd vpage pte_a accessed ps

-- The new value of CR3, the physical address.
unfoldable pub pagedir_activate : (init_page_dir pd : ℕ) → Option ℕ
unfolding vtop
pagedir_activate init_page_dir pd = vtop (if pd == 0 then init_page_dir else pd)

unfoldable pub active_pd : (cr3 : ℕ) → Option ℕ
unfolding ptov
active_pd cr3 = ptov cr3
