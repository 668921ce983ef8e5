-- ===== src/FileSystem/InodeTable/Create.antt =====
-- A new inode is a file of zeros, and opening an inode again gives the same one.
use operation_system.Base.{ℕ, ◌+◌, ◌≤◌, ◌<◌, ◌≡◌, false, ◌&&◌, leb, ltb}
use operation_system.Block.{Block}
use operation_system.FileSystem.{FileSystem}

-- What the loop leaves: zeros in the `n` sectors from `s` on, the others as they were.
record IsZeroed (n s : ℕ) (dev dev' : Block) : Type 0 where
  zeros : (t i : ℕ) → s ≤ t → t < s + n → dev'.sectors t i ≡ 0
  others : (t i : ℕ) → (leb s t && ltb t (s + n)) ≡ false → dev'.sectors t i ≡ dev.sectors t i
  size : dev'.size ≡ dev.size
  type : dev'.type ≡ dev.type
