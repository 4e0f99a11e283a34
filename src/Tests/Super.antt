-- ===== src/Tests/Super.antt =====
-- The theorems on fs/super.c and fs/bitmap.c at a file system of ten data blocks.
use operating_system_ece.Common.{ℕ, ◌%◌, ◌≡◌, refl, true, ◌==◌, if◌then◌else◌, arith, update}
use operating_system_ece.Fs.Bitmap.{
  Bitmap, bitmap_alloc, mark_leftover, set_bit, bitmap_create, bitmap_nr_allocated, count_from,
  bitmap_isset, test_bit,
}
use operating_system_ece.Fs.Bitmap.Bits.{IsBitmap}
use operating_system_ece.Fs.Bitmap.Alloc.{Allocates, bitmap_alloc_lem}
use operating_system_ece.Fs.Bitmap.Make.{bitmap_create_lem}
use operating_system_ece.Fs.Super.{DsuperBlock, SuperBlock, testfs_alloc_block, testfs_free_block}
use operating_system_ece.Fs.Super.Blocks.{
  Consistent, AllocsBlock, FreesBlock, testfs_alloc_block-Consistent, testfs_free_block-Consistent,
}

abbrev pub layout : DsuperBlock → ℕ → ℕ
layout d i = if i == 20 then d.used_block_count % 256 else 0

abbrev pub blocks : Bitmap
blocks = record { nbits = 10; v = update (λ i. 0) 1 (mark_leftover 6 2 0) }

abbrev pub fresh : SuperBlock
fresh = record {
  sb = record {
    inode_freemap_start = 1;
    block_freemap_start = 2;
    inode_blocks_start = 18;
    data_blocks_start = 146;
    used_inode_count = 0;
    used_block_count = 0;
    max_fs_blocks = 10;
  };
  dev = λ pos. if pos == 16385 then 252 else 0;
  inode_freemap = record { nbits = 0; v = λ i. 0 };
  block_freemap = blocks;
}

pub blocks-IsBitmap : IsBitmap blocks
unfolding bitmap_create
blocks-IsBitmap = (bitmap_create_lem true true 10 (omega arith)).0

bitmap_alloc_lem_example : Allocates blocks (bitmap_alloc blocks)
bitmap_alloc_lem_example = bitmap_alloc_lem blocks blocks-IsBitmap

none_used : 0 ≡ bitmap_nr_allocated blocks
unfolding bitmap_nr_allocated count_from bitmap_isset test_bit mark_leftover set_bit
none_used = refl

last_word : mark_leftover 6 2 0 ≡ 252
unfolding mark_leftover set_bit
last_word = refl

pub fresh-Consistent : Consistent layout fresh
fresh-Consistent = record {
  bitmap = blocks-IsBitmap;
  counted = none_used;
  behind_super = omega arith;
  before_data = omega arith;
  small = omega arith;
  freemap = λ i l. let last = last_word in ground arith;
  super = λ i l. ground arith;
}

testfs_alloc_block-Consistent_example : AllocsBlock layout fresh (testfs_alloc_block layout fresh)
testfs_alloc_block-Consistent_example = testfs_alloc_block-Consistent layout fresh fresh-Consistent

testfs_free_block-Consistent_example :
    FreesBlock layout fresh 147 (testfs_free_block layout fresh 147)
testfs_free_block-Consistent_example =
    testfs_free_block-Consistent layout fresh 147 fresh-Consistent
