-- ===== src/Inode/Tests.antt =====
-- A file of 600 bytes in the sectors 2 and 3 of a device of 8.
use operation_system.Base.{ℕ, ◌+◌, ◌<◌, ◌≡◌, ◌≢◌, refl, true, false, some, arith}
use operation_system.Block.{Block, block_filesys, block_foreign}
use operation_system.Inode.{Inode, inode_read_at, inode_write_at}
use operation_system.Inode.Read.{OnDevice, available}
use operation_system.Inode.Write.{
  HasWritten, inode_read_at-inode_write_at, inode_write_at-HasWritten,
}

abbrev disk8 : Block
disk8 = record {
  type = block_filesys;
  size = 8;
  sectors = λ s i. s + i;
  read_cnt = 0;
  write_cnt = 0;
}

abbrev inode600 : Inode
inode600 = record {
  sector = 1;
  open_cnt = 1;
  removed = false;
  deny_write_cnt = 0;
  disk = record { start = 2; length = 600 };
}

disk8-OnDevice : OnDevice inode600 disk8
disk8-OnDevice = λ p h. omega arith

not_foreign : disk8.type ≢ block_foreign
not_foreign = λ e. ground arith

inode_write_at-HasWritten_example :
    (dev' : Block) × (inode_write_at true inode600 (λ i. 7) 700 500 disk8
      ≡ some (available inode600 700 500, dev'))
    × HasWritten inode600 500 0 (available inode600 700 500) (λ i. 7) disk8 dev'
inode_write_at-HasWritten_example =
    inode_write_at-HasWritten inode600 (λ i. 7) 700 500 disk8 disk8-OnDevice not_foreign refl

inode_read_at-inode_write_at_example :
    (n : ℕ) × (dev1 dev2 : Block) × (out : ℕ → ℕ) × (inode_write_at true inode600
        (λ i. 7)
        700
        500
        disk8
      ≡ some (n, dev1))
    × (inode_read_at true inode600 (λ i. 0) 700 500 dev1 ≡ some (n, out, dev2))
    × (n ≡ available inode600 700 500)
    × ((i : ℕ) → i < n → out i ≡ 7)
inode_read_at-inode_write_at_example =
    inode_read_at-inode_write_at inode600 (λ i. 7) (λ i. 0) 700 500 disk8 disk8-OnDevice not_foreign
      refl

-- 100 bytes are left from offset 500 on.
available_test : available inode600 700 500 ≡ 100
available_test = refl
