-- ===== src/Malloc/Tests.antt =====
-- The check of calloc passes for a product that does not fit in 32 bits.
use operation_system.Base.{◌*◌, ◌^◌, ◌≡◌, refl, true, ◌&&◌, ltb}
use operation_system.Malloc.{big_page_cnt, product_fits}

product_fits_test : product_fits 0x10001 0x10001 && ltb (2 ^ 32) (0x10001 * 0x10001) ≡ true
product_fits_test = refl

-- A request of 2^32 - 1 bytes is for one page.
big_page_cnt_test : big_page_cnt 0xffffffff ≡ 1
unfolding big_page_cnt
big_page_cnt_test = refl
