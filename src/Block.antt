-- ===== src/Block.antt =====
-- pintos/src/devices/block.c: block devices and their sectors. A sector is the function from the
-- offset to the byte. The driver below a device is one that keeps what is written to it. `none` is a
-- panic or a failed ASSERT; printing is left out.
use operation_system.Base.{
  ℕ, ◌+◌, ◌%◌, ◌^◌, Bool, not, Option, some, ltb, ◌==◌, update, assert, ◌>>◌,
}

abbrev pub block_sector_size : ℕ
block_sector_size = 512

-- `enum block_type`; the first four are the roles.
pub data BlockType : Type 0 where
  block_kernel block_filesys block_scratch block_swap block_raw block_foreign : BlockType

-- The value of the enumerator.
abbrev pub block_type_tag : BlockType → ℕ
block_type_tag block_kernel = 0
block_type_tag block_filesys = 1
block_type_tag block_scratch = 2
block_type_tag block_swap = 3
block_type_tag block_raw = 4
block_type_tag block_foreign = 5

abbrev pub block_role_cnt : ℕ
block_role_cnt = 4

-- `struct block`, and the sectors that its driver keeps.
pub record Block : Type 0 where
  pub type : BlockType
  pub size : ℕ
  pub sectors : ℕ → ℕ → ℕ
  pub read_cnt : ℕ
  pub write_cnt : ℕ

-- check_sector() passes.
abbrev pub check_sector : ℕ → Block → Bool
check_sector sector b = ltb sector b.size

-- The bytes of the sector, and the device.
unfoldable pub block_read : ℕ → Block → Option ((ℕ → ℕ) × Block)
block_read sector b = do
  assert (check_sector sector b)
  some (b.sectors sector, record b { read_cnt = (b.read_cnt + 1) % 2 ^ 64 })

unfoldable pub block_write : ℕ → (ℕ → ℕ) → Block → Option Block
block_write sector buffer b = do
  assert (check_sector sector b)
  assert (not (block_type_tag b.type == block_type_tag block_foreign))
  some (record b {
    sectors = update b.sectors sector buffer;
    write_cnt = (b.write_cnt + 1) % 2 ^ 64;
  })

unfoldable pub block_size : Block → ℕ
block_size b = b.size

-- The table of roles.
unfoldable pub block_get_role : BlockType → (ℕ → Option ℕ) → Option (Option ℕ)
block_get_role role block_by_role = do
  assert (ltb (block_type_tag role) block_role_cnt)
  some (block_by_role (block_type_tag role))

unfoldable pub block_set_role : BlockType → Option ℕ → (ℕ → Option ℕ) → Option (ℕ → Option ℕ)
block_set_role role block block_by_role = do
  assert (ltb (block_type_tag role) block_role_cnt)
  some (update block_by_role (block_type_tag role) block)
