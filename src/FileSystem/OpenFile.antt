-- ===== src/FileSystem/OpenFile.antt =====
-- pintos/src/filesys/file.c: opening and closing files, and their positions.
use operation_system.Base.{ℕ, Bool, true, false, Option, none, some, if◌then◌else◌, ◌>>=◌}
use operation_system.Inode.{inode_length}
use operation_system.FileSystem.{File, FileSystem}
use operation_system.FileSystem.InodeTable.{
  inode_allow_write, inode_close, inode_deny_write, inode_reopen,
}

-- `memory` says whether calloc() succeeds, `bounce` is for the free map file.
unfoldable pub file_open :
    (memory bounce : Bool) (inode : Option ℕ) → FileSystem → Option (Option File × FileSystem)
unfolding inode_close
file_open memory bounce none fs = some (none, fs)
file_open memory bounce (some p) fs =
    let refused : Option (Option File × FileSystem) = (do
      fs1 ← inode_close bounce (some p) fs
      some (none, fs1)) in
    if memory then some (some (record { inode = p; pos = 0; deny_write = false }), fs) else refused

unfoldable pub file_reopen :
    (memory bounce : Bool) → File → FileSystem → Option (Option File × FileSystem)
unfolding file_open inode_reopen
file_reopen memory bounce file fs =
    file_open memory bounce (some file.inode) (inode_reopen (some file.inode) fs)

unfoldable pub file_deny_write : File → FileSystem → Option (File × FileSystem)
unfolding inode_deny_write
file_deny_write file fs =
    let denied : Option (File × FileSystem) = (do
      fs1 ← inode_deny_write file.inode fs
      some (record file { deny_write = true }, fs1)) in
    if file.deny_write then some (file, fs) else denied

unfoldable pub file_allow_write : File → FileSystem → Option (File × FileSystem)
unfolding inode_allow_write
file_allow_write file fs =
    let allowed : Option (File × FileSystem) = (do
      fs1 ← inode_allow_write file.inode fs
      some (record file { deny_write = false }, fs1)) in
    if file.deny_write then allowed else some (file, fs)

unfoldable pub file_close : (bounce : Bool) → Option File → FileSystem → Option FileSystem
unfolding file_allow_write inode_close
file_close bounce none fs = some fs
file_close bounce (some file) fs = do
  (closed, fs1) ← file_allow_write file fs
  inode_close bounce (some closed.inode) fs1

unfoldable pub file_length : File → FileSystem → ℕ
unfolding inode_length
file_length file fs = inode_length (fs.inodes file.inode)

unfoldable pub file_seek : File → ℕ → File
file_seek file new_pos = record file { pos = new_pos }

unfoldable pub file_tell : File → ℕ
file_tell file = file.pos
