-- ===== src/FileSystem/FreeMap.antt =====
-- pintos/src/filesys/free-map.c, and of lib/kernel/bitmap.c what reads and writes files.
use operation_system.Base.{
  ◌||◌, ℕ, zero, suc, ◌+◌, ◌-◌, ◌*◌, ◌/◌, ◌%◌, ◌^◌, Bool, true, false, ◌&&◌, Option, none, some,
  ltb, ◌==◌, if◌then◌else◌, assert, ◌>>=◌, ◌>>◌,
}
use operation_system.Bitmap.{
  Bitmap, Elem, elem_bits, elem_cnt, byte_cnt, bitmap_error, bitmap_all, bitmap_mark,
  bitmap_scan_and_flip, bitmap_set_all, bitmap_set_multiple,
}
use operation_system.Block.{block_size}
use operation_system.FileSystem.{
  File, FileSystem, file_read_at, file_write_at, free_map_sector, root_dir_sector,
}

abbrev pub bit_value : Bool → ℕ
bit_value true = 1
bit_value false = 0

-- The value of the `n` bits of an element from position `p` on, the lowest first.
abbrev pub bits_value : (n p : ℕ) → Elem → ℕ
bits_value zero p e = 0
bits_value (suc n) p e = bit_value (e p) + 2 * bits_value n (p + 1) e

-- Byte `i` of `b->bits`, in the byte order of the machine.
abbrev pub bits_byte : Bitmap → ℕ → ℕ
bits_byte b i = bits_value 8 (8 * (i % 4)) (b.bits (i / 4))

-- The elements that a sequence of bytes stands for.
abbrev pub bytes_bits : (ℕ → ℕ) → ℕ → Elem
bytes_bits bytes e i = bytes (4 * e + i / 8) / 2 ^ (i % 8) % 2 == 1

-- `bits & last_mask (b)`: the bits of the last element that are in use.
abbrev pub mask_last : Bitmap → Bitmap
mask_last b = record b {
  bits = λ e i.
      if e == elem_cnt b.bit_cnt - 1
      then b.bits e i && ((b.bit_cnt % elem_bits == 0) || ltb i (b.bit_cnt % elem_bits))
      else b.bits e i;
}

unfoldable pub bitmap_file_size : Bitmap → ℕ
unfolding byte_cnt
bitmap_file_size b = byte_cnt b.bit_cnt

-- Whether the map was written.
unfoldable pub bitmap_write :
    (memory : Bool) → Bitmap → File → FileSystem → Option (Bool × FileSystem)
unfolding byte_cnt file_write_at
bitmap_write memory b file fs = do
  let size = byte_cnt b.bit_cnt
  (n, fs1) ← file_write_at memory file (bits_byte b) size 0 fs
  some (n == size, fs1)

unfoldable pub bitmap_read :
    (memory : Bool) → Bitmap → File → FileSystem → Option (Bool × Bitmap × FileSystem)
unfolding byte_cnt file_read_at elem_cnt
bitmap_read memory b file fs =
    let filled : Option (Bool × Bitmap × FileSystem) = (do
      let size = byte_cnt b.bit_cnt
      (n, out, fs1) ← file_read_at memory file (bits_byte b) size 0 fs
      some (n == size, mask_last (record b { bits = bytes_bits out }), fs1)) in
    if ltb 0 b.bit_cnt then filled else some (true, b, fs)

-- The new bitmap is the one that malloc() gave room for; `none` is the panic.
unfoldable pub free_map_init : (room : Option (ℕ → Elem)) → FileSystem → Option FileSystem
unfolding block_size bitmap_set_all bitmap_mark
free_map_init none fs = none
free_map_init (some bits) fs = do
  b ← bitmap_set_all false (record { bit_cnt = block_size fs.device; bits = bits })
  some (record fs { free_map = bitmap_mark root_dir_sector (bitmap_mark free_map_sector b) })

-- The first of the sectors, if there are so many.
unfoldable pub free_map_allocate :
    (memory : Bool) (cnt : ℕ) → FileSystem → Option (Option ℕ × FileSystem)
unfolding bitmap_scan_and_flip bitmap_write bitmap_set_multiple
free_map_allocate memory cnt fs = do
  (sector, map1) ← bitmap_scan_and_flip 0 cnt false fs.free_map
  let fs1 = record fs { free_map = map1 }
  let saved : Option (Option ℕ × FileSystem) = elim fs1.free_map_file [
    | none ↦ some (some sector, fs1)
    | some file ↦ (do
      (ok, fs2) ← bitmap_write memory map1 file fs1
      let undone : Option (Option ℕ × FileSystem) = (do
        map2 ← bitmap_set_multiple sector cnt false map1
        some (none, record fs2 { free_map = map2 }))
      if ok then some (some sector, fs2) else undone)
  ]
  if sector == bitmap_error then some (none, fs1) else saved

-- Without a free map file the write goes through a null pointer.
unfoldable pub free_map_release : (memory : Bool) (sector cnt : ℕ) → FileSystem → Option FileSystem
unfolding bitmap_all bitmap_set_multiple bitmap_write
free_map_release memory sector cnt fs = do
  used ← bitmap_all sector cnt fs.free_map
  assert used
  map1 ← bitmap_set_multiple sector cnt false fs.free_map
  file ← fs.free_map_file
  r ← bitmap_write memory map1 file (record fs { free_map = map1 })
  some r.1
