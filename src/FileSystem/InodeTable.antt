-- ===== src/FileSystem/InodeTable.antt =====
-- pintos/src/filesys/inode.c: creating inodes on the disk, and the table of the open ones.
pub mod Create
use operation_system.Base.{
  ℕ, zero, suc, ◌+◌, ◌-◌, ◌*◌, ◌/◌, ◌%◌, ◌^◌, ◌≤◌, Bool, true, false, not, Option, none, some, List,
  [], ◌∷◌, leb, ltb, ◌==◌, if◌then◌else◌, erase, update, assert, ◌>>=◌, ◌>>◌,
}
use operation_system.Block.{Block, block_read, block_write}
use operation_system.Inode.{Inode, InodeDisk, bytes_to_sectors}
use operation_system.FileSystem.{FileSystem}
use operation_system.FileSystem.FreeMap.{free_map_allocate, free_map_release}

abbrev pub inode_magic : ℕ
inode_magic = 0x494e4f44

-- Byte `i` of a 32-bit word, the lowest first, and the word of four bytes.
abbrev pub word_byte : ℕ → ℕ → ℕ
word_byte v i =
    if i == 0
    then v % 256
    else if i == 1
    then v / 256 % 256
    else if i == 2
    then v / 65536 % 256
    else v / 16777216 % 256

abbrev pub bytes_word : (ℕ → ℕ) → ℕ → ℕ
bytes_word bytes p =
    bytes p + 256 * bytes (p + 1) + 65536 * bytes (p + 2) + 16777216 * bytes (p + 3)

-- The sector that holds an inode.
abbrev pub disk_bytes : InodeDisk → ℕ → ℕ
disk_bytes d i =
    if ltb i 4
    then word_byte d.start i
    else if ltb i 8
    then word_byte d.length (i - 4)
    else if ltb i 12
    then word_byte inode_magic (i - 8)
    else 0

abbrev pub bytes_disk : (ℕ → ℕ) → InodeDisk
bytes_disk bytes = record { start = bytes_word bytes 0; length = bytes_word bytes 4 }

abbrev pub set_inode : ℕ → Inode → FileSystem → FileSystem
set_inode p inode fs = record fs { inodes = update fs.inodes p inode }

unfoldable pub inode_init : FileSystem → FileSystem
inode_init fs = record fs { open_inodes = [] }

-- The loop of inode_create, `n` sectors from number `s` on.
unfoldable pub zero_sectors : (n s : ℕ) → Block → Option Block
unfolding block_write
zero_sectors zero s dev = some dev
zero_sectors (suc n) s dev = do dev1 ← block_write s (λ i. 0) dev; zero_sectors n (s + 1) dev1

-- `memory` says whether calloc() succeeds, `bounce` is for the free map file.
unfoldable pub inode_create :
    (memory bounce : Bool) (sector length : ℕ) → FileSystem → Option (Bool × FileSystem)
unfolding bytes_to_sectors free_map_allocate block_write zero_sectors
inode_create memory bounce sector length fs =
    let sectors = bytes_to_sectors length in
    let made : Option (Bool × FileSystem) = (do
      (found, fs1) ← free_map_allocate bounce sectors fs
      elim found [
        | none ↦ some (false, fs1)
        | some start ↦ (do
          dev1 ←
              block_write sector (disk_bytes (record { start = start; length = length })) fs1.device
          dev2 ← zero_sectors sectors start dev1
          some (true, record fs1 { device = dev2 }))
      ]) in
    if memory then made else some (false, fs)

-- The first inode of the list that is open for the sector.
unfoldable pub find_open : ℕ → (ℕ → Inode) → List ℕ → Option ℕ
find_open sector inodes [] = none
find_open sector inodes (p ∷ ps) =
    if (inodes p).sector == sector then some p else find_open sector inodes ps

unfoldable pub inode_reopen : Option ℕ → FileSystem → FileSystem
inode_reopen none fs = fs
inode_reopen (some p) fs =
    set_inode p (record (fs.inodes p) { open_cnt = (fs.inodes p).open_cnt + 1 }) fs

-- `room` is what malloc() returns. The inode, or a null pointer.
unfoldable pub inode_open :
    (room : Option ℕ) (sector : ℕ) → FileSystem → Option (Option ℕ × FileSystem)
unfolding find_open inode_reopen block_read
inode_open room sector fs =
    let fresh : Option (Option ℕ × FileSystem) = elim room [
      | none ↦ some (none, fs)
      | some p ↦ (do
        (bytes, dev) ← block_read sector fs.device
        let inode : Inode = record {
          sector = sector;
          open_cnt = 1;
          removed = false;
          deny_write_cnt = 0;
          disk = bytes_disk bytes;
        }
        some (
          some p,
          set_inode p inode (record fs { device = dev; open_inodes = p ∷ fs.open_inodes }),
        ))
    ] in
    elim (find_open sector fs.inodes fs.open_inodes) [
      | some p ↦ some (some p, inode_reopen (some p) fs)
      | none ↦ fresh
    ]

unfoldable pub inode_get_inumber : ℕ → FileSystem → ℕ
inode_get_inumber p fs = (fs.inodes p).sector

-- The sectors of a removed inode are given back.
unfoldable pub release_inode : (memory : Bool) → Inode → FileSystem → Option FileSystem
unfolding free_map_release bytes_to_sectors
release_inode memory inode fs = do
  fs1 ← free_map_release memory inode.sector 1 fs
  free_map_release memory inode.disk.start (bytes_to_sectors inode.disk.length) fs1

-- The count is at least 1 for an inode that somebody has open.
unfoldable pub inode_close : (memory : Bool) → Option ℕ → FileSystem → Option FileSystem
unfolding release_inode
inode_close memory none fs = some fs
inode_close memory (some p) fs =
    let inode = record (fs.inodes p) { open_cnt = (fs.inodes p).open_cnt - 1 } in
    let fs1 = set_inode p inode fs in
    let unlisted = record fs1 { open_inodes = erase p fs1.open_inodes } in
    if (fs.inodes p).open_cnt == 1
    then (if inode.removed then release_inode memory inode unlisted else some unlisted)
    else some fs1

unfoldable pub inode_remove : ℕ → FileSystem → FileSystem
inode_remove p fs = set_inode p (record (fs.inodes p) { removed = true }) fs

unfoldable pub inode_deny_write : ℕ → FileSystem → Option FileSystem
inode_deny_write p fs = do
  let inode = record (fs.inodes p) { deny_write_cnt = (fs.inodes p).deny_write_cnt + 1 }
  assert (leb inode.deny_write_cnt inode.open_cnt)
  some (set_inode p inode fs)

unfoldable pub inode_allow_write : ℕ → FileSystem → Option FileSystem
inode_allow_write p fs = do
  let inode = fs.inodes p
  assert (ltb 0 inode.deny_write_cnt)
  assert (leb inode.deny_write_cnt inode.open_cnt)
  some (set_inode p (record inode { deny_write_cnt = inode.deny_write_cnt - 1 }) fs)
