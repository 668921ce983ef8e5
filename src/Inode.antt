-- ===== src/Inode.antt =====
-- pintos/src/filesys/inode.c: reading and writing the bytes of an inode. Offsets and sizes are not
-- negative. A buffer is the function from the index to the byte. `memory` says whether the bounce
-- buffer can be allocated.
pub mod Read
pub mod Write
mod Tests
use operation_system.Base.{
  ℕ, zero, suc, ◌+◌, ◌-◌, ◌/◌, ◌%◌, ◌^◌, Bool, true, false, not, ◌&&◌, ◌||◌, Option, none, some,
  leb, ltb, ◌==◌, if◌then◌else◌, assert, ◌>>=◌, ◌>>◌,
}
use operation_system.Block.{Block, block_sector_size, block_read, block_write}

-- `struct inode_disk`; its magic number and the unused part are constant.
pub record InodeDisk : Type 0 where
  pub start : ℕ
  pub length : ℕ

-- `struct inode`.
pub record Inode : Type 0 where
  pub sector : ℕ
  pub open_cnt : ℕ
  pub removed : Bool
  pub deny_write_cnt : ℕ
  pub disk : InodeDisk

unfoldable pub bytes_to_sectors : ℕ → ℕ
bytes_to_sectors size = (size + block_sector_size - 1) / block_sector_size

-- -1 as a sector number.
abbrev pub no_sector : ℕ
no_sector = 2 ^ 32 - 1

unfoldable pub byte_to_sector : Inode → ℕ → ℕ
byte_to_sector inode pos =
    if ltb pos inode.disk.length then inode.disk.start + pos / block_sector_size else no_sector

unfoldable pub inode_length : Inode → ℕ
inode_length inode = inode.disk.length

abbrev pub min_of : ℕ → ℕ → ℕ
min_of a b = if ltb a b then a else b

-- The bytes from the offset on that lie in one sector, in the inode and in the request. The rest of
-- the inode is negative past its end, where the loop stops as it does at 0.
abbrev pub chunk_size : Inode → (size offset : ℕ) → ℕ
chunk_size inode size offset =
    min_of size
      (min_of (inode.disk.length - offset) (block_sector_size - offset % block_sector_size))

-- `memcpy (dst + to, src + from, size)`
abbrev pub memcpy : (dst : ℕ → ℕ) (to : ℕ) (src : ℕ → ℕ) (from size : ℕ) → ℕ → ℕ
memcpy dst to src from size =
    λ i. if leb to i && ltb i (to + size) then src (from + (i - to)) else dst i

-- A round of the loop of inode_read_at copies `chunk` bytes to the buffer; `none` inside means that
-- the loop breaks for want of memory.
unfoldable pub read_chunk :
    (memory : Bool) (inode : Inode) (chunk offset bytes_read : ℕ) (buffer : ℕ → ℕ)
    → Block
    → Option (Option ((ℕ → ℕ) × Block))
unfolding block_read byte_to_sector
read_chunk memory inode chunk offset bytes_read buffer dev =
    let sector_idx = byte_to_sector inode offset in
    let sector_ofs = offset % block_sector_size in
    if (sector_ofs == 0) && (chunk == block_sector_size)
    then (do
      r ← block_read sector_idx dev
      some (some (memcpy buffer bytes_read r.0 0 block_sector_size, r.1)))
    else if memory
    then (do
      r ← block_read sector_idx dev
      some (some (memcpy buffer bytes_read r.0 sector_ofs chunk, r.1)))
    else some none

-- The loop, on fuel: the bytes read, the buffer and the device.
unfoldable pub read_from :
    (fuel : ℕ) (memory : Bool) (inode : Inode) (size offset bytes_read : ℕ) (buffer : ℕ → ℕ)
    → Block
    → Option (ℕ × (ℕ → ℕ) × Block)
unfolding read_chunk
read_from zero memory inode size offset bytes_read buffer dev = none
read_from (suc fuel) memory inode size offset bytes_read buffer dev =
    let chunk = chunk_size inode size offset in
    let more : Option (ℕ × (ℕ → ℕ) × Block) = (do
      r ← read_chunk memory inode chunk offset bytes_read buffer dev
      elim r [
        | none ↦ some (bytes_read, buffer, dev)
        | some (buffer1, dev1) ↦
            read_from fuel memory inode (size - chunk) (offset + chunk) (bytes_read + chunk) buffer1
              dev1
      ]) in
    if (size == 0) || (chunk == 0) then some (bytes_read, buffer, dev) else more

unfoldable pub inode_read_at :
    (memory : Bool) (inode : Inode) (buffer : ℕ → ℕ) (size offset : ℕ)
    → Block
    → Option (ℕ × (ℕ → ℕ) × Block)
unfolding read_from
inode_read_at memory inode buffer size offset dev =
    read_from (suc size) memory inode size offset 0 buffer dev

-- A round of the loop of inode_write_at.
unfoldable pub write_chunk :
    (memory : Bool) (inode : Inode) (chunk offset bytes_written : ℕ) (buffer : ℕ → ℕ)
    → Block
    → Option (Option Block)
unfolding block_read block_write byte_to_sector
write_chunk memory inode chunk offset bytes_written buffer dev =
    let sector_idx = byte_to_sector inode offset in
    let sector_ofs = offset % block_sector_size in
    let sector_left = block_sector_size - sector_ofs in
    if (sector_ofs == 0) && (chunk == block_sector_size)
    then (do dev1 ← block_write sector_idx (λ i. buffer (bytes_written + i)) dev; some (some dev1))
    else if memory
    then (do
      r ←
          if ltb 0 sector_ofs || ltb chunk sector_left
          then block_read sector_idx dev
          else some ((λ i. 0), dev)
      dev1 ← block_write sector_idx (memcpy r.0 sector_ofs buffer bytes_written chunk) r.1
      some (some dev1))
    else some none

unfoldable pub write_from :
    (fuel : ℕ) (memory : Bool) (inode : Inode) (size offset bytes_written : ℕ) (buffer : ℕ → ℕ)
    → Block
    → Option (ℕ × Block)
unfolding write_chunk
write_from zero memory inode size offset bytes_written buffer dev = none
write_from (suc fuel) memory inode size offset bytes_written buffer dev =
    let chunk = chunk_size inode size offset in
    let more : Option (ℕ × Block) = (do
      r ← write_chunk memory inode chunk offset bytes_written buffer dev
      elim r [
        | none ↦ some (bytes_written, dev)
        | some dev1 ↦
            write_from fuel memory inode (size - chunk) (offset + chunk) (bytes_written + chunk)
              buffer dev1
      ]) in
    if (size == 0) || (chunk == 0) then some (bytes_written, dev) else more

unfoldable pub inode_write_at :
    (memory : Bool) (inode : Inode) (buffer : ℕ → ℕ) (size offset : ℕ) → Block → Option (ℕ × Block)
unfolding write_from
inode_write_at memory inode buffer size offset dev =
    if not (inode.deny_write_cnt == 0)
    then some (0, dev)
    else write_from (suc size) memory inode size offset 0 buffer dev
