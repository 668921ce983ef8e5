-- ===== src/FileSystem/Names.antt =====
-- pintos/src/filesys/filesys.c, and the free map's file in free-map.c. `allocated` says whether calloc()
-- succeeds, `memory` whether a bounce buffer can be allocated; `none` is a panic.
use operation_system.Base.{
  ℕ, Bool, false, not, ◌&&◌, Option, none, some, List, ◌==◌, if◌then◌else◌, assert, ◌>>=◌, ◌>>◌,
}
use operation_system.Bitmap.{Elem}
use operation_system.Block.{Block}
use operation_system.FileSystem.{File, FileSystem, free_map_sector, root_dir_sector}
use operation_system.FileSystem.Directory.{
  Dir, dir_add, dir_close, dir_create, dir_lookup, dir_open_root, dir_remove,
}
use operation_system.FileSystem.FreeMap.{
  bitmap_file_size, bitmap_read, bitmap_write, free_map_allocate, free_map_init, free_map_release,
}
use operation_system.FileSystem.InodeTable.{inode_create, inode_init, inode_open}
use operation_system.FileSystem.OpenFile.{file_close, file_open}

-- The free map file, opened; a null pointer is a panic.
unfoldable pub open_free_map_file :
    (allocated memory : Bool) (room : Option ℕ) → FileSystem → Option (File × FileSystem)
unfolding inode_open file_open
open_free_map_file allocated memory room fs = do
  (inode, fs1) ← inode_open room free_map_sector fs
  (opened, fs2) ← file_open allocated memory inode fs1
  file ← opened
  some (file, record fs2 { free_map_file = some file })

unfoldable pub free_map_open :
    (allocated memory : Bool) (room : Option ℕ) → FileSystem → Option FileSystem
unfolding open_free_map_file bitmap_read
free_map_open allocated memory room fs = do
  (file, fs1) ← open_free_map_file allocated memory room fs
  (ok, map1, fs2) ← bitmap_read memory fs1.free_map file fs1
  assert ok
  some (record fs2 { free_map = map1 })

unfoldable pub free_map_close : (memory : Bool) → FileSystem → Option FileSystem
unfolding file_close
free_map_close memory fs = file_close memory fs.free_map_file fs

unfoldable pub free_map_create :
    (allocated memory : Bool) (room : Option ℕ) → FileSystem → Option FileSystem
unfolding inode_create bitmap_file_size open_free_map_file bitmap_write
free_map_create allocated memory room fs = do
  (made, fs1) ← inode_create allocated memory free_map_sector (bitmap_file_size fs.free_map) fs
  assert made
  (file, fs2) ← open_free_map_file allocated memory room fs1
  (ok, fs3) ← bitmap_write memory fs2.free_map file fs2
  assert ok
  some fs3

unfoldable pub do_format :
    (allocated memory : Bool) (room : Option ℕ) → FileSystem → Option FileSystem
unfolding free_map_create dir_create free_map_close
do_format allocated memory room fs = do
  fs1 ← free_map_create allocated memory room fs
  (made, fs2) ← dir_create allocated memory root_dir_sector 16 fs1
  assert made
  free_map_close memory fs2

-- The device that has the role, if any; `bits` and the two `room`s are what malloc() returns.
unfoldable pub filesys_init :
    (allocated memory : Bool) (bits : Option (ℕ → Elem)) (room1 room2 : Option ℕ) (format : Bool)
    (device : Option Block)
    → FileSystem
    → Option FileSystem
unfolding inode_init free_map_init do_format free_map_open
filesys_init allocated memory bits room1 room2 format device fs = do
  fs_device ← device
  fs1 ← free_map_init bits (inode_init (record fs { device = fs_device }))
  fs2 ← if format then do_format allocated memory room1 fs1 else some fs1
  free_map_open allocated memory room2 fs2

unfoldable pub filesys_done : (memory : Bool) → FileSystem → Option FileSystem
unfolding free_map_close
filesys_done memory fs = free_map_close memory fs

-- The chain of conditions of filesys_create: success, and the sector of the inode or 0.
unfoldable pub create_steps :
    (allocated memory : Bool)
    → Option Dir
    → (name : List ℕ) (initial_size : ℕ) (e : ℕ → ℕ) → FileSystem
    → Option (Bool × ℕ × FileSystem)
unfolding free_map_allocate inode_create dir_add
create_steps allocated memory none name initial_size e fs = some (false, 0, fs)
create_steps allocated memory (some dir) name initial_size e fs = do
  (found, fs1) ← free_map_allocate memory 1 fs
  elim found [
    | none ↦ some (false, 0, fs1)
    | some inode_sector ↦ (do
      (made, fs2) ← inode_create allocated memory inode_sector initial_size fs1
      let added : Option (Bool × ℕ × FileSystem) = (do
        (ok, fs3) ← dir_add memory dir name inode_sector e fs2
        some (ok, inode_sector, fs3))
      if made then added else some (false, inode_sector, fs2))
  ]

unfoldable pub filesys_create :
    (allocated memory : Bool) (room : Option ℕ) (name : List ℕ) (initial_size : ℕ) (e : ℕ → ℕ)
    → FileSystem
    → Option (Bool × FileSystem)
unfolding dir_open_root create_steps free_map_release dir_close
filesys_create allocated memory room name initial_size e fs = do
  (dir, fs1) ← dir_open_root allocated memory room fs
  (success, inode_sector, fs2) ← create_steps allocated memory dir name initial_size e fs1
  let undo = not success && not (inode_sector == 0)
  fs3 ← if undo then free_map_release memory inode_sector 1 fs2 else some fs2
  fs4 ← dir_close memory dir fs3
  some (success, fs4)

-- `room` is for the directory's inode, `room1` for the file's.
unfoldable pub filesys_open :
    (allocated memory : Bool) (room room1 : Option ℕ) (name : List ℕ) (e : ℕ → ℕ)
    → FileSystem
    → Option (Option File × FileSystem)
unfolding dir_open_root dir_lookup dir_close file_open
filesys_open allocated memory room room1 name e fs = do
  (dir, fs1) ← dir_open_root allocated memory room fs
  (inode, fs2) ← elim dir [
    | none ↦ some (none, fs1)
    | some d ↦ dir_lookup memory room1 d name e fs1
  ]
  fs3 ← dir_close memory dir fs2
  file_open allocated memory inode fs3

unfoldable pub filesys_remove :
    (allocated memory : Bool) (room room1 : Option ℕ) (name : List ℕ) (e : ℕ → ℕ)
    → FileSystem
    → Option (Bool × FileSystem)
unfolding dir_open_root dir_remove dir_close
filesys_remove allocated memory room room1 name e fs = do
  (dir, fs1) ← dir_open_root allocated memory room fs
  (success, fs2) ← elim dir [
    | none ↦ some (false, fs1)
    | some d ↦ dir_remove memory room1 d name e fs1
  ]
  fs3 ← dir_close memory dir fs2
  some (success, fs3)
