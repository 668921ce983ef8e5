-- ===== src/FileSystem/Directory.antt =====
-- pintos/src/filesys/directory.c. `memory` says whether a bounce buffer can be allocated, `room` is
-- what malloc() returns for an inode, and a local `struct dir_entry` is its 20 bytes.
pub mod Lookup
pub mod Add
pub mod Find
mod Tests
use operation_system.Base.{
  ℕ, zero, suc, ◌+◌, ◌-◌, ◌*◌, ◌/◌, ◌%◌, ◌^◌, Bool, true, false, not, ◌&&◌, ◌||◌, Option, none,
  some, List, [], ◌∷◌, leb, ltb, ◌==◌, if◌then◌else◌, update, assert, ◌>>=◌, ◌>>◌,
}
use operation_system.Base.Int.{ℤ, pos, negsuc}
use operation_system.Text.{strcmp, strlcpy, strlen}
use operation_system.FileSystem.{FileSystem, read_inode, root_dir_sector, write_inode}
use operation_system.FileSystem.InodeTable.{
  bytes_word, inode_close, inode_create, inode_open, inode_remove, inode_reopen, word_byte,
}

-- `struct dir`; the inode by its address.
pub record Dir : Type 0 where
  pub inode : ℕ
  pub pos : ℕ

-- `sizeof (struct dir_entry)`, and where its members are.
abbrev pub entry_size : ℕ
entry_size = 20

abbrev pub name_offset : ℕ
name_offset = 4

abbrev pub in_use_offset : ℕ
in_use_offset = 19

abbrev pub name_max : ℕ
name_max = 14

abbrev pub in_use : (ℕ → ℕ) → Bool
in_use e = not (e in_use_offset == 0)

abbrev pub is_zero : ℤ → Bool
is_zero (pos n) = n == 0
is_zero (negsuc n) = false

-- `e.in_use && !strcmp (name, e.name)`
abbrev pub is_named : List ℕ → (ℕ → ℕ) → Bool
is_named name e = in_use e && is_zero (strcmp name name_offset e)

unfoldable pub dir_create :
    (memory bounce : Bool) (sector entry_cnt : ℕ) → FileSystem → Option (Bool × FileSystem)
unfolding inode_create
dir_create memory bounce sector entry_cnt fs =
    inode_create memory bounce sector (entry_cnt * entry_size) fs

-- `allocated` says whether calloc() succeeds; the inode is closed on failure.
unfoldable pub dir_open :
    (allocated memory : Bool) → Option ℕ → FileSystem → Option (Option Dir × FileSystem)
unfolding inode_close
dir_open allocated memory none fs = some (none, fs)
dir_open allocated memory (some p) fs =
    let closed : Option (Option Dir × FileSystem) = (do
      fs1 ← inode_close memory (some p) fs
      some (none, fs1)) in
    if allocated then some (some (record { inode = p; pos = 0 }), fs) else closed

unfoldable pub dir_open_root :
    (allocated memory : Bool) (room : Option ℕ) → FileSystem → Option (Option Dir × FileSystem)
unfolding inode_open dir_open
dir_open_root allocated memory room fs = do
  (inode, fs1) ← inode_open room root_dir_sector fs
  dir_open allocated memory inode fs1

unfoldable pub dir_reopen :
    (allocated memory : Bool) → Dir → FileSystem → Option (Option Dir × FileSystem)
unfolding inode_reopen dir_open
dir_reopen allocated memory dir fs =
    dir_open allocated memory (some dir.inode) (inode_reopen (some dir.inode) fs)

unfoldable pub dir_close : (memory : Bool) → Option Dir → FileSystem → Option FileSystem
unfolding inode_close
dir_close memory none fs = some fs
dir_close memory (some dir) fs = inode_close memory (some dir.inode) fs

unfoldable pub dir_get_inode : Dir → ℕ
dir_get_inode dir = dir.inode

-- The loop of lookup, on fuel: the entry and its offset.
unfoldable pub lookup_from :
    (fuel : ℕ) (memory : Bool) (inode : ℕ) (name : List ℕ) (e : ℕ → ℕ) (ofs : ℕ)
    → FileSystem
    → Option (Option ((ℕ → ℕ) × ℕ) × FileSystem)
unfolding read_inode strcmp
lookup_from zero memory inode name e ofs fs = none
lookup_from (suc fuel) memory inode name e ofs fs = do
  (n, e1, fs1) ← read_inode memory inode e entry_size ofs fs
  let more = lookup_from fuel memory inode name e1 (ofs + entry_size) fs1
  if n == entry_size
      then (if is_named name e1 then some (some (e1, ofs), fs1) else more)
      else some (none, fs1)

-- One round for each entry, and one that reads past the end.
abbrev pub entry_rounds : ℕ → FileSystem → ℕ
entry_rounds inode fs = suc ((fs.inodes inode).disk.length / entry_size)

unfoldable pub lookup :
    (memory : Bool)
    → Dir
    → (name : List ℕ) (e : ℕ → ℕ) → FileSystem
    → Option (Option ((ℕ → ℕ) × ℕ) × FileSystem)
unfolding lookup_from
lookup memory dir name e fs = lookup_from (entry_rounds dir.inode fs) memory dir.inode name e 0 fs

-- The inode, or a null pointer, which is the result false.
unfoldable pub dir_lookup :
    (memory : Bool) (room : Option ℕ)
    → Dir
    → (name : List ℕ) (e : ℕ → ℕ) → FileSystem
    → Option (Option ℕ × FileSystem)
unfolding lookup inode_open
dir_lookup memory room dir name e fs = do
  (found, fs1) ← lookup memory dir name e fs
  elim found [ none ↦ some (none, fs1) | some entry ↦ inode_open room (bytes_word entry.0 0) fs1 ]

-- The loop of dir_add, on fuel: the bytes read last and the offset of a free slot or the end.
unfoldable pub free_from :
    (fuel : ℕ) (memory : Bool) (inode : ℕ) (e : ℕ → ℕ) (ofs : ℕ)
    → FileSystem
    → Option ((ℕ → ℕ) × ℕ × FileSystem)
unfolding read_inode
free_from zero memory inode e ofs fs = none
free_from (suc fuel) memory inode e ofs fs = do
  (n, e1, fs1) ← read_inode memory inode e entry_size ofs fs
  let more = free_from fuel memory inode e1 (ofs + entry_size) fs1
  if (n == entry_size) && in_use e1 then more else some (e1, ofs, fs1)

-- The entry that is written over the bytes of another.
abbrev pub new_entry : (name : List ℕ) (inode_sector : ℕ) → (ℕ → ℕ) → ℕ → ℕ
new_entry name inode_sector e j =
    if ltb j name_offset
    then word_byte inode_sector j
    else (strlcpy name_offset name (name_max + 1) (update e in_use_offset 1)).1 j

unfoldable pub dir_add :
    (memory : Bool)
    → Dir
    → (name : List ℕ) (inode_sector : ℕ) (e : ℕ → ℕ) → FileSystem
    → Option (Bool × FileSystem)
unfolding strlen lookup free_from write_inode
dir_add memory dir name inode_sector e fs =
    let written : Option (Bool × FileSystem) = (do
      (found, fs1) ← lookup memory dir name e fs
      let added : Option (Bool × FileSystem) = (do
        (e2, ofs, fs2) ← free_from (entry_rounds dir.inode fs1) memory dir.inode e 0 fs1
        (n, fs3) ← write_inode memory dir.inode (new_entry name inode_sector e2) entry_size ofs fs2
        some (n == entry_size, fs3))
      elim found [ some entry ↦ some (false, fs1) | none ↦ added ]) in
    if (strlen name == 0) || ltb name_max (strlen name) then some (false, fs) else written

unfoldable pub dir_remove :
    (memory : Bool) (room : Option ℕ)
    → Dir
    → (name : List ℕ) (e : ℕ → ℕ) → FileSystem
    → Option (Bool × FileSystem)
unfolding lookup inode_open write_inode inode_remove inode_close
dir_remove memory room dir name e fs = do
  (found, fs1) ← lookup memory dir name e fs
  elim found [
    | none ↦ some (false, fs1)
    | some entry ↦ (do
      (inode, fs2) ← inode_open room (bytes_word entry.0 0) fs1
      elim inode [
        | none ↦ some (false, fs2)
        | some p ↦ (do
          (n, fs3) ←
              write_inode memory dir.inode (update entry.0 in_use_offset 0) entry_size entry.1 fs2
          let removed = n == entry_size
          fs4 ← inode_close memory (some p) (if removed then inode_remove p fs3 else fs3)
          some (removed, fs4))
      ])
  ]

-- The characters before the null byte, of at most `n`.
abbrev pub string_in : (n p : ℕ) → (ℕ → ℕ) → List ℕ
string_in zero p mem = []
string_in (suc n) p mem = if mem p == 0 then [] else mem p ∷ string_in n (p + 1) mem

-- The name in its own buffer, if there is a further entry, and the directory.
unfoldable pub readdir_from :
    (fuel : ℕ) (memory : Bool)
    → Dir
    → (e name : ℕ → ℕ) → FileSystem
    → Option (Option (ℕ → ℕ) × Dir × FileSystem)
unfolding read_inode strlcpy
readdir_from zero memory dir e name fs = none
readdir_from (suc fuel) memory dir e name fs = do
  (n, e1, fs1) ← read_inode memory dir.inode e entry_size dir.pos fs
  let dir1 = record dir { pos = dir.pos + entry_size }
  let entry_name = string_in (name_max + 1) name_offset e1
  let more = readdir_from fuel memory dir1 e1 name fs1
  let next : Option (Option (ℕ → ℕ) × Dir × FileSystem) =
      (if in_use e1
        then some (some (strlcpy 0 entry_name (name_max + 1) name).1, dir1, fs1)
        else more)
  if n == entry_size then next else some (none, dir, fs1)

unfoldable pub dir_readdir :
    (memory : Bool)
    → Dir
    → (e name : ℕ → ℕ) → FileSystem
    → Option (Option (ℕ → ℕ) × Dir × FileSystem)
unfolding readdir_from
dir_readdir memory dir e name fs = readdir_from (entry_rounds dir.inode fs) memory dir e name fs
