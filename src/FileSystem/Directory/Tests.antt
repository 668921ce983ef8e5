-- ===== src/FileSystem/Directory/Tests.antt =====
-- A directory of two entries, in sector 2 of a device of 8, and a new file.
use operation_system.Base.{
  ◌≤◌, ◌>>=◌, ℕ, ◌<◌, ◌≡◌, refl, Bool, true, false, Option, none, some, List, [], ◌∷◌, arith,
}
use operation_system.Block.{block_filesys}
use operation_system.Inode.{bytes_to_sectors}
use operation_system.Inode.Read.{OnDevice}
use operation_system.FileSystem.{FileSystem}
use operation_system.FileSystem.FreeMap.{free_map_allocate}
use operation_system.FileSystem.InodeTable.{bytes_word}
use operation_system.FileSystem.Directory.{name_max, strlen, Dir, dir_add, lookup}
use operation_system.FileSystem.Directory.Find.{Added, dir_add-Added, lookup-dir_add}
use operation_system.Text.{strlen}

abbrev sample : FileSystem
sample = record {
  device = record {
    type = block_filesys;
    size = 8;
    sectors = λ s i. 0;
    read_cnt = 0;
    write_cnt = 0;
  };
  free_map = record { bit_cnt = 8; bits = λ e i. false };
  free_map_file = none;
  inodes = λ p. record {
    sector = 1;
    open_cnt = 1;
    removed = false;
    deny_write_cnt = 0;
    disk = record { start = 2; length = 40 };
  };
  open_inodes = [];
}

abbrev root : Dir
root = record { inode = 0; pos = 0 }

abbrev name : List ℕ
name = 97 ∷ (98 ∷ [])

root-OnDevice : OnDevice (sample.inodes 0) sample.device
root-OnDevice = λ p h. omega arith

name_given : 0 < strlen name
unfolding strlen
name_given = omega arith

name_short : strlen name ≤ name_max
unfolding strlen
name_short = omega arith

dir_add-Added_example :
    (ok : Bool) × (fs' : FileSystem) × (dir_add true root name 5 (λ j. 0) sample ≡ some (ok, fs'))
    × Added sample fs' 0 name 5 ok
    × (fs'.inodes ≡ sample.inodes)
    × (fs'.device.size ≡ sample.device.size)
dir_add-Added_example =
    dir_add-Added root name 5 (λ j. 0) sample name_given name_short (omega arith) root-OnDevice
      (λ e. ground arith) refl

lookup-dir_add_example :
    (ok : Bool) × (fs' : FileSystem) × (dir_add true root name 5 (λ j. 0) sample ≡ some (ok, fs'))
    × (ok ≡ true
        → (entry : ℕ → ℕ) × (ofs : ℕ) × (fs'' : FileSystem) × (lookup true root name (λ j. 0) fs'
            ≡ some (some (entry, ofs), fs''))
          × (bytes_word entry 0 ≡ 5))
lookup-dir_add_example =
    lookup-dir_add root name 5 (λ j. 0) (λ j. 0) sample name_given name_short (omega arith)
      root-OnDevice (λ e. ground arith) refl

-- The whole of a call that succeeds.
dir_add_test : (dir_add true root name 5 (λ j. 0) sample >>= λ r. some r.0) ≡ some true
unfolding dir_add
dir_add_test = refl

-- The two sectors of a file of 600 bytes are taken from the map.
abbrev state_of : Option (Option ℕ × FileSystem) → FileSystem
state_of none = sample
state_of (some r) = r.1

abbrev after : FileSystem
after = state_of (free_map_allocate true (bytes_to_sectors 600) sample)
