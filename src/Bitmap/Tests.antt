-- ===== src/Bitmap/Tests.antt =====
-- A bitmap of 40 bits, so of two elements, with bits 31 and 32 set.
use operation_system.Base.{ℕ, ◌≡◌, refl, true, some, arith, ◌==◌, ◌||◌, ◌&&◌}
use operation_system.Bitmap.{bitmap_scan, Bitmap, bitmap_count, bitmap_flip, bitmap_scan_and_flip}
use operation_system.Bitmap.Scan.{Flipped, bitmap_scan_and_flip-Flipped}

abbrev forty : Bitmap
forty = record { bit_cnt = 40; bits = λ e i. ((e == 0) && (i == 31)) || ((e == 1) && (i == 0)) }

count_lem : bitmap_count 30 5 true forty ≡ some 2
unfolding bitmap_count
count_lem = refl

flip_lem : bitmap_count 30 5 true (bitmap_flip 32 forty) ≡ some 1
unfolding bitmap_count bitmap_flip
flip_lem = refl

bitmap_scan_and_flip-Flipped_example :
    (r : ℕ) × (b' : Bitmap) × (bitmap_scan_and_flip 0 2 true forty ≡ some (r, b'))
    × Flipped 0 2 true forty r b'
bitmap_scan_and_flip-Flipped_example =
    bitmap_scan_and_flip-Flipped 0 2 true forty (omega arith) (omega arith) (omega arith)

-- For no bits at all the result is the start.
scan_nothing : bitmap_scan_and_flip 7 0 true forty ≡ some (7, forty)
unfolding bitmap_scan_and_flip bitmap_scan
scan_nothing = refl
