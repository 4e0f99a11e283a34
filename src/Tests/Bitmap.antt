-- ===== src/Tests/Bitmap.antt =====
-- The theorems on fs/bitmap.c at a bitmap of ten bits.
use operating_system_ece.Common.{◌≡◌, refl, update}
use operating_system_ece.Fs.Bitmap.{
  Bitmap, done, bitmap_alloc, mark_leftover, free_offset, take_offset, alloc_from, test_bit,
  set_bit,
}

abbrev ten : Bitmap
ten = record { nbits = 10; v = update (λ i. 0) 1 (mark_leftover 6 2 0) }

abbrev marked : Bitmap
marked = record { nbits = 10; v = update ten.v 0 (set_bit 0 0) }

-- The first free bit of the bitmap whose first bit is set is the second.
second_bit : bitmap_alloc marked ≡ done (1, record marked { v = update marked.v 0 (set_bit 1 1) })
unfolding bitmap_alloc alloc_from take_offset free_offset test_bit set_bit mark_leftover
second_bit = refl
