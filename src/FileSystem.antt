-- ===== src/FileSystem.antt =====
-- The state that pintos/src/filesys shares: the device, the free map and the table of open inodes.
-- Of filesys/file.c the reads and writes, which the free map uses. An inode in memory is named by
-- its address; an open file belongs to one caller and is a value.
pub mod FreeMap
pub mod InodeTable
pub mod OpenFile
pub mod Directory
pub mod Names
use operation_system.Base.{
  ℕ, ◌+◌, Bool, true, false, not, Option, none, some, List, [], assert, ◌>>=◌, ◌>>◌,
}
use operation_system.Bitmap.{Bitmap}
use operation_system.Block.{Block}
use operation_system.Inode.{Inode, inode_read_at, inode_write_at}

-- `struct file`.
pub record File : Type 0 where
  pub inode : ℕ
  pub pos : ℕ
  pub deny_write : Bool

pub record FileSystem : Type 0 where
  pub device : Block  -- fs_device
  pub free_map : Bitmap
  pub free_map_file : Option File
  pub inodes : ℕ → Inode
  pub open_inodes : List ℕ

abbrev pub free_map_sector : ℕ
free_map_sector = 0

abbrev pub root_dir_sector : ℕ
root_dir_sector = 1

-- inode_read_at() on an inode of the table: the count, the buffer and the state.
unfoldable pub read_inode :
    (memory : Bool) (inode : ℕ) (buffer : ℕ → ℕ) (size offset : ℕ)
    → FileSystem
    → Option (ℕ × (ℕ → ℕ) × FileSystem)
unfolding inode_read_at
read_inode memory inode buffer size offset fs = do
  (n, out, dev) ← inode_read_at memory (fs.inodes inode) buffer size offset fs.device
  some (n, out, record fs { device = dev })

unfoldable pub write_inode :
    (memory : Bool) (inode : ℕ) (buffer : ℕ → ℕ) (size offset : ℕ)
    → FileSystem
    → Option (ℕ × FileSystem)
unfolding inode_write_at
write_inode memory inode buffer size offset fs = do
  (n, dev) ← inode_write_at memory (fs.inodes inode) buffer size offset fs.device
  some (n, record fs { device = dev })

unfoldable pub file_read_at :
    (memory : Bool)
    → File
    → (buffer : ℕ → ℕ) (size file_ofs : ℕ) → FileSystem
    → Option (ℕ × (ℕ → ℕ) × FileSystem)
unfolding read_inode
file_read_at memory file buffer size file_ofs fs =
    read_inode memory file.inode buffer size file_ofs fs

unfoldable pub file_write_at :
    (memory : Bool)
    → File
    → (buffer : ℕ → ℕ) (size file_ofs : ℕ) → FileSystem
    → Option (ℕ × FileSystem)
unfolding write_inode
file_write_at memory file buffer size file_ofs fs =
    write_inode memory file.inode buffer size file_ofs fs

-- The count, the buffer, and the file with its position advanced.
unfoldable pub file_read :
    (memory : Bool)
    → File
    → (buffer : ℕ → ℕ) (size : ℕ) → FileSystem
    → Option (ℕ × (ℕ → ℕ) × File × FileSystem)
unfolding read_inode
file_read memory file buffer size fs = do
  (n, out, fs1) ← read_inode memory file.inode buffer size file.pos fs
  some (n, out, record file { pos = file.pos + n }, fs1)

unfoldable pub file_write :
    (memory : Bool)
    → File
    → (buffer : ℕ → ℕ) (size : ℕ) → FileSystem
    → Option (ℕ × File × FileSystem)
unfolding write_inode
file_write memory file buffer size fs = do
  (n, fs1) ← write_inode memory file.inode buffer size file.pos fs
  some (n, record file { pos = file.pos + n }, fs1)
