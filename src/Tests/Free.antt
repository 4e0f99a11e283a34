-- ===== src/Tests/Free.antt =====
-- testfs_free_blocks (fs/read_write.c) of a file with one block.
use operating_system_ece.Common.{
  ℕ, ◌<◌, ◌≡◌, refl, true, false, ◌==◌, some, ℤ, pos, negsuc, Bool-cases, if◌then◌else◌, arith,
  update, inl, inr, ap, sym, subst, ◌∙◌,
}
use operating_system_ece.Fs.Bitmap.{
  done, bitmap_alloc, bitmap_isset, alloc_from, take_offset, free_offset, test_bit, set_bit,
}
use operating_system_ece.Fs.Super.{
  SuperBlock, testfs_alloc_block, take_block, testfs_write_super_block, testfs_write_block_freemap,
}
use operating_system_ece.Fs.Super.Blocks.{Consistent, AllocsBlock, testfs_alloc_block-Consistent}
use operating_system_ece.Fs.File.{File}
use operating_system_ece.Fs.File.Gains.{used, Sound}
use operating_system_ece.Fs.Free.{testfs_free_blocks}
use operating_system_ece.Fs.Free.Direct.{Slots, slots_of}
use operating_system_ece.Fs.Free.Blocks.{span, Emptied, testfs_free_blocks-Emptied}
use operating_system_ece.Tests.Super.{layout, blocks, fresh, fresh-Consistent}

-- The file system of ten blocks with the first one in use
abbrev taken : SuperBlock
taken =
    testfs_write_super_block layout
      (record (testfs_write_block_freemap
        (record fresh { block_freemap = record blocks { v = update blocks.v 0 1 } }) 0) {
          sb = record fresh.sb { used_block_count = 1 };
        })

first_block : testfs_alloc_block layout fresh ≡ done (146, taken)
unfolding testfs_alloc_block take_block bitmap_alloc alloc_from take_offset free_offset test_bit
    set_bit testfs_write_super_block testfs_write_block_freemap
first_block = refl

taken-Consistent : Consistent layout taken
taken-Consistent =
    (subst (AllocsBlock layout fresh) first_block
      (testfs_alloc_block-Consistent layout fresh fresh-Consistent)).6

abbrev small_file : File
small_file = record {
  fs = taken;
  inode = record {
    node = record {
      i_type = pos 1;
      i_block_nr = λ k. if k == 2 then pos 146 else pos 0;
      i_indirect = pos 0;
      i_dindirect = pos 0;
      block_count = pos 1;
      i_size = pos 20000;
    };
    dirty = false;
    i_nr = 3;
    i_count = pos 1;
  };
}

used_first : used taken 146 ≡ true
unfolding bitmap_isset test_bit testfs_write_super_block testfs_write_block_freemap
used_first = refl

taken-Sound : Sound layout taken
unfolding testfs_write_super_block testfs_write_block_freemap
taken-Sound = record { consistent = taken-Consistent; ints = omega arith }

abbrev magnitude : ℤ → ℕ
magnitude (pos n) = n
magnitude (negsuc n) = n

slot_at : (k : ℕ) → k < 2 → slots_of small_file k ≡ pos 0
slot_at k l = let t : (k == 2) ≡ false = ground arith in rw t refl

small_file-Slots : Slots taken (slots_of small_file) 0 (span layout 20000)
small_file-Slots = (
  λ j l b. elim (Bool-cases (j == 2)) [
    | inl y ↦ rw y (inr (146, refl, omega arith, used_first))
    | inr z ↦ rw z (inl refl)
  ],
  λ i j m l c d p q. ap magnitude (sym p ∙ slot_at i (omega arith)),
)

testfs_free_blocks-Emptied_example :
    (f' : File) × (testfs_free_blocks layout small_file ≡ some f')
    × Emptied layout 20000 small_file f'
testfs_free_blocks-Emptied_example =
    testfs_free_blocks-Emptied layout small_file 20000 taken-Sound refl (omega arith)
      small_file-Slots refl refl
