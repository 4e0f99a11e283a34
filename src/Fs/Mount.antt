-- ===== src/Fs/Mount.antt =====
-- fs/super.c: making, opening and closing a file system, as fs/mktestfs.c does it.
pub mod Reopens
pub mod Makes
use operating_system_ece.Common.{
  ℕ, ◌+◌, ◌*◌, ◌==◌, Bool, true, false, ltb, Option, none, some, if◌then◌else◌,
}
use operating_system_ece.Fs.Bitmap.{
  Bitmap, Run, done, failed, aborted, bits_per_word, bitmap_create,
}
use operating_system_ece.Fs.Device.{Device, block_size, write_blocks, zero_blocks, read_blocks}
use operating_system_ece.Fs.Super.{DsuperBlock, SuperBlock, testfs_write_super_block}
use operating_system_ece.Fs.Inodes.{nr_inode_blocks}

-- SUPER_BLOCK_SIZE, INODE_FREEMAP_SIZE and BLOCK_FREEMAP_SIZE
abbrev pub super_block_size : ℕ
super_block_size = 1

abbrev pub inode_freemap_size : ℕ
inode_freemap_size = 1

abbrev pub block_freemap_size : ℕ
block_freemap_size = 16

-- NULL in the place of a bitmap, which has bits otherwise
abbrev pub null_bitmap : Bitmap
null_bitmap = record { nbits = 0; v = λ i. 0 }

abbrev pub is_null : Bitmap → Bool
is_null b = b.nbits == 0

-- The super block of a new file system
abbrev pub new_super_block : ℕ → DsuperBlock
new_super_block max_fs_blocks = record {
  inode_freemap_start = super_block_size;
  block_freemap_start = super_block_size + inode_freemap_size;
  inode_blocks_start = super_block_size + inode_freemap_size + block_freemap_size;
  data_blocks_start = super_block_size + inode_freemap_size + block_freemap_size + nr_inode_blocks;
  used_inode_count = 0;
  used_block_count = 0;
  max_fs_blocks = max_fs_blocks;
}

unfoldable pub testfs_make_inode_freemap : SuperBlock → SuperBlock
testfs_make_inode_freemap s = record s {
  dev = zero_blocks s.dev s.sb.inode_freemap_start inode_freemap_size;
}

unfoldable pub testfs_make_block_freemap : SuperBlock → SuperBlock
testfs_make_block_freemap s = record s {
  dev = zero_blocks s.dev s.sb.block_freemap_start block_freemap_size;
}

-- The map of inodes is large enough for the inode blocks, which the code checks by its constants.
unfoldable pub testfs_make_inode_blocks : SuperBlock → SuperBlock
testfs_make_inode_blocks s = record s {
  dev = zero_blocks s.dev s.sb.inode_blocks_start nr_inode_blocks;
}

-- A bitmap whose words are read from the device
abbrev pub read_bitmap : Device → ℕ → ℕ → Bitmap → Bitmap
read_bitmap dev start nr b = record b {
  v = λ i. if ltb i (nr * block_size) then read_blocks dev start i else b.v i;
}

-- Behind the two calls of bitmap_create in testfs_init_super_block
abbrev pub init_bitmaps : DsuperBlock → Device → Run Bitmap → Run Bitmap → Run SuperBlock
init_bitmaps d dev failed created = failed
init_bitmaps d dev aborted created = aborted
init_bitmaps d dev (done b) failed = failed
init_bitmaps d dev (done b) aborted = aborted
init_bitmaps d dev (done b) (done c) = done (record {
  sb = d;
  dev = dev;
  inode_freemap = read_bitmap dev d.inode_freemap_start inode_freemap_size b;
  block_freemap = read_bitmap dev d.block_freemap_start block_freemap_size c;
})

-- `memory` tells whether each call of `malloc` succeeds, and `parse` gets the super block out of its block, as
-- the compiler lays it out; `failed` is -ENOMEM. The file of the device can be opened.
unfoldable pub testfs_init_super_block :
    (ℕ → Bool) → ((ℕ → ℕ) → DsuperBlock) → Device → Run SuperBlock
unfolding bitmap_create
testfs_init_super_block memory parse dev =
    if memory 0
    then init_bitmaps (parse (read_blocks dev 0)) dev
        (bitmap_create (memory 1) (memory 2) (block_size * inode_freemap_size * bits_per_word))
        (bitmap_create (memory 3) (memory 4) (block_size * block_freemap_size * bits_per_word))
    else failed

-- A map that is written when the file system is closed
abbrev pub write_bitmap : Device → Bitmap → ℕ → ℕ → Device
write_bitmap dev b start nr = if is_null b then dev else write_blocks dev b.v start nr

module _ (layout : DsuperBlock → ℕ → ℕ) where
  -- `blank` is the device in front of it.
  unfoldable pub testfs_make_super_block : Device → ℕ → SuperBlock
  testfs_make_super_block blank max_fs_blocks = testfs_write_super_block layout (record {
    sb = new_super_block max_fs_blocks;
    dev = blank;
    inode_freemap = null_bitmap;
    block_freemap = null_bitmap;
  })

  -- `idle` tells that no inode is in memory, which inode_hash_destroy asserts. The device is left.
  unfoldable pub testfs_close_super_block : Bool → SuperBlock → Option Device
  testfs_close_super_block idle s =
      let written = testfs_write_super_block layout s in
      let inodes =
        write_bitmap written.dev s.inode_freemap s.sb.inode_freemap_start inode_freemap_size in
      if idle
      then some (write_bitmap inodes s.block_freemap s.sb.block_freemap_start block_freemap_size)
      else none

  -- What mktestfs does up to the first closing
  unfoldable pub make_file_system : Device → ℕ → Option Device
  unfolding testfs_make_super_block testfs_make_inode_freemap testfs_make_block_freemap
      testfs_make_inode_blocks testfs_close_super_block
  make_file_system blank max_fs_blocks =
      let made = testfs_make_super_block blank max_fs_blocks in
      testfs_close_super_block true
        (testfs_make_inode_blocks (testfs_make_block_freemap (testfs_make_inode_freemap made)))
