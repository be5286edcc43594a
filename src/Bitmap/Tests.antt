-- ===== src/Bitmap/Tests.antt =====
-- Runs of the bitmap's functions, and its theorems at concrete bitmaps.
use wjos.Common.{◌≡◌, refl, some, [], ◌∷◌}
use wjos.Bitmap.{
  Bitmap, byte_count, init, get_bit, set_bit, is_set, alloc_nbits, fill, put_bit, scan, search_from,
}

-- Ten bits over two bytes: 0 and 1 are set, and 3.
abbrev ten : Bitmap
ten = record { bit_count = 10; bits = 11 ∷ 0 ∷ [] }

abbrev full : Bitmap
full = record { bit_count = 2; bits = 3 ∷ [] }

-- The second bit is taken, the first is free.
alloc_ten : alloc_nbits ten 0 1 ≡ (some 2, record { bit_count = 10; bits = 15 ∷ 0 ∷ [] })
unfolding alloc_nbits search_from scan get_bit set_bit put_bit
alloc_ten = refl

-- A run of two is found at 2, over bit 3 that is taken.
alloc_two : (alloc_nbits ten 0 2).0 ≡ some 2
unfolding alloc_nbits search_from scan get_bit set_bit put_bit
alloc_two = refl

init_ones : is_set (init (0 ∷ 0 ∷ []) 9 1) 8 ≡ 1
unfolding is_set init fill get_bit byte_count
init_ones = refl
