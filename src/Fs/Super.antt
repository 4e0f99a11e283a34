-- ===== src/Fs/Super.antt =====
-- fs/super.c: the super block and the allocation of blocks and inodes.
pub mod Blocks
use operating_system_ece.Common.{
  ℕ, zero, suc, ◌+◌, ◌-◌, ◌*◌, ◌/◌, ◌%◌, ◌^◌, Bool, true, false, leb, ltb, if◌then◌else◌,
}
use operating_system_ece.Fs.Bitmap.{
  Bitmap, Run, done, failed, aborted, bits_per_word, bitmap_alloc, bitmap_unmark,
}
use operating_system_ece.Fs.Device.{Device, block_size, write_blocks, zero_blocks}

-- struct dsuper_block
pub record DsuperBlock : Type 0 where
  pub inode_freemap_start : ℕ
  pub block_freemap_start : ℕ
  pub inode_blocks_start : ℕ
  pub data_blocks_start : ℕ
  pub used_inode_count : ℕ
  pub used_block_count : ℕ
  pub max_fs_blocks : ℕ

-- struct super_block
pub record SuperBlock : Type 0 where
  pub sb : DsuperBlock
  pub dev : Device
  pub inode_freemap : Bitmap
  pub block_freemap : Bitmap

abbrev pub bits_per_block : ℕ
bits_per_block = block_size * bits_per_word

-- The arithmetic of `u32`
abbrev pub wrap32 : ℕ → ℕ
wrap32 n = n % 2 ^ 32

unfoldable pub testfs_write_block_freemap : SuperBlock → ℕ → SuperBlock
testfs_write_block_freemap s block_nr =
    let nr = block_nr / bits_per_block in
    record s {
      dev =
          write_blocks s.dev (λ i. s.block_freemap.v (nr * block_size + i))
            (s.sb.block_freemap_start + nr) 1;
    }

unfoldable pub testfs_write_inode_freemap : SuperBlock → ℕ → SuperBlock
testfs_write_inode_freemap s inode_nr =
    let nr = inode_nr / bits_per_block in
    record s {
      dev =
          write_blocks s.dev (λ i. s.inode_freemap.v (nr * block_size + i))
            (s.sb.inode_freemap_start + nr) 1;
    }

-- `layout` gives the block that holds the super block's members: the compiler lays them out, and
-- zeros follow them.
module _ (layout : DsuperBlock → ℕ → ℕ) where
  unfoldable pub testfs_write_super_block : SuperBlock → SuperBlock
  testfs_write_super_block s = record s { dev = write_blocks s.dev (layout s.sb) 0 1 }

  -- Behind testfs_get_block_freemap, which bitmap_alloc gives its result: `failed` is -ENOSPC. The test
  -- `phy_block_nr < 0` stands for that result alone where the number is below 2 ^ 31, as it is for every
  -- map of at most 2 ^ 20 bits whose blocks start below 2 ^ 30.
  unfoldable pub take_block : SuperBlock → Run (ℕ × Bitmap) → Run (ℕ × SuperBlock)
  take_block s failed = failed
  take_block s aborted = aborted
  take_block s (done (index, b)) =
      let s1 = testfs_write_block_freemap (record s { block_freemap = b }) index in
      let d : DsuperBlock = record s1.sb {
        used_block_count = wrap32 (s1.sb.used_block_count + 1);
      } in
      done (wrap32 (d.data_blocks_start + index), testfs_write_super_block (record s1 { sb = d }))

  unfoldable pub testfs_alloc_block : SuperBlock → Run (ℕ × SuperBlock)
  unfolding take_block
  testfs_alloc_block s =
      if leb s.sb.max_fs_blocks s.sb.used_block_count
      then failed
      else take_block s (bitmap_alloc s.block_freemap)

  -- Behind the call of bitmap_unmark in testfs_put_block_freemap
  unfoldable pub put_block : SuperBlock → ℕ → Run Bitmap → Run SuperBlock
  put_block s nr failed = aborted
  put_block s nr aborted = aborted
  put_block s nr (done b) =
      let s1 = testfs_write_block_freemap (record s { block_freemap = b }) nr in
      if ltb 0 s1.sb.used_block_count
      then (let d : DsuperBlock = record s1.sb { used_block_count = s1.sb.used_block_count - 1 } in
          done (testfs_write_super_block (record s1 { sb = d })))
      else aborted

  -- `block_nr` is not negative; `aborted` is a failed assertion.
  unfoldable pub testfs_free_block : SuperBlock → ℕ → Run SuperBlock
  unfolding put_block
  testfs_free_block s block_nr =
      let s0 : SuperBlock = record s { dev = zero_blocks s.dev block_nr 1 } in
      if ltb block_nr s.sb.data_blocks_start
      then aborted
      else put_block s0 (block_nr - s.sb.data_blocks_start)
          (bitmap_unmark s0.block_freemap (block_nr - s.sb.data_blocks_start))

  unfoldable pub take_inode : SuperBlock → Run (ℕ × Bitmap) → Run (ℕ × SuperBlock)
  take_inode s failed = failed
  take_inode s aborted = aborted
  take_inode s (done (index, b)) =
      let s1 = testfs_write_inode_freemap (record s { inode_freemap = b }) index in
      let d : DsuperBlock = record s1.sb {
        used_inode_count = wrap32 (s1.sb.used_inode_count + 1);
      } in
      done (index, testfs_write_super_block (record s1 { sb = d }))

  unfoldable pub testfs_get_inode_freemap : SuperBlock → Run (ℕ × SuperBlock)
  unfolding take_inode
  testfs_get_inode_freemap s = take_inode s (bitmap_alloc s.inode_freemap)

  unfoldable pub put_inode : SuperBlock → ℕ → Run Bitmap → Run SuperBlock
  put_inode s nr failed = aborted
  put_inode s nr aborted = aborted
  put_inode s nr (done b) =
      let s1 = testfs_write_inode_freemap (record s { inode_freemap = b }) nr in
      if ltb 0 s1.sb.used_inode_count
      then (let d : DsuperBlock = record s1.sb { used_inode_count = s1.sb.used_inode_count - 1 } in
          done (testfs_write_super_block (record s1 { sb = d })))
      else aborted

  unfoldable pub testfs_put_inode_freemap : SuperBlock → ℕ → Run SuperBlock
  unfolding put_inode
  testfs_put_inode_freemap s inode_nr =
      put_inode s inode_nr (bitmap_unmark s.inode_freemap inode_nr)
