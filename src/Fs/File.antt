-- ===== src/Fs/File.antt =====
-- fs/inode.c and fs/read_write.c: how a file gets and gives back its blocks.
pub mod Gains
pub mod Frees
use operating_system_ece.Common.{
  ℕ, suc, ◌+◌, ◌-◌, ◌*◌, ◌/◌, ◌%◌, Bool, true, false, not, ltb, ◌==◌, Option, none, some, ℤ, pos,
  negsuc, is_negative, is_zero, increment, decrement, update, if◌then◌else◌,
}
use operating_system_ece.Fs.Bitmap.{Run, done, failed, aborted}
use operating_system_ece.Fs.Device.{Device, block_size, read_blocks, write_blocks}
use operating_system_ece.Fs.Super.{DsuperBlock, SuperBlock, testfs_alloc_block, testfs_free_block}
use operating_system_ece.Fs.Inode.{
  Dinode, Inode, nr_direct_blocks, nr_indirect_blocks, to_int, int_at, store_int,
}
use operating_system_ece.Fs.Read.{max_file_size, efbig, Got, got, overrun, zeros, testfs_read_block}

-- -ENOSPC
abbrev pub enospc : ℤ
enospc = negsuc 27

-- An inode in memory with the file system that it points to
pub record File : Type 0 where
  pub fs : SuperBlock
  pub inode : Inode

-- What a call returns with the file that it leaves. `none` ends the program: an assertion fails, an
-- access is outside a buffer, or the device is read or written at a negative block.
abbrev pub Returned : Type 0
Returned = Option (ℤ × File)

infixl 5 ◌>>=◌
abbrev pub ◌>>=◌ {ℓ κ} : {A : Type ℓ} {B : Type κ} → Option A → (A → Option B) → Option B
none >>= f = none
some a >>= f = f a

-- A change of the members of the inode on the device
abbrev pub with_node : File → Dinode → File
with_node f d = record f { inode = record f.inode { node = d } }

abbrev pub mark_dirty : File → File
mark_dirty f = record f { inode = record f.inode { dirty = true } }

abbrev pub with_device : File → Device → File
with_device f dev = record f { fs = record f.fs { dev = dev } }

-- `read_blocks` and `write_blocks` of one block
abbrev pub read_block : File → ℤ → Option (ℕ → ℕ)
read_block f (pos n) = some (read_blocks f.fs.dev n)
read_block f (negsuc n) = none

abbrev pub write_block : File → (ℕ → ℕ) → ℤ → Option File
write_block f block (pos n) = some (with_device f (write_blocks f.fs.dev block n 1))
write_block f block (negsuc n) = none

module _ (layout : DsuperBlock → ℕ → ℕ) where
  -- Behind the call of testfs_alloc_block in testfs_alloc_block_for_inode
  unfoldable pub charge : File → Run (ℕ × SuperBlock) → Returned
  charge f failed = some (enospc, f)
  charge f aborted = none
  charge f (done (n, s)) =
      let phy_block_nr = to_int n in
      let f' : File = record f { fs = s } in
      if is_negative phy_block_nr
      then some (phy_block_nr, f')
      else some (
        phy_block_nr,
        mark_dirty (
            with_node f'
              (record f.inode.node { block_count = increment f.inode.node.block_count })),
      )

  unfoldable pub testfs_alloc_block_for_inode : File → Returned
  unfolding charge
  testfs_alloc_block_for_inode f = charge f (testfs_alloc_block layout f.fs)

  -- Behind the call of testfs_free_block in testfs_free_block_from_inode
  unfoldable pub discharge : File → Run SuperBlock → Option File
  discharge f failed = none
  discharge f aborted = none
  discharge f (done s) = some (
      mark_dirty (
        with_node (record f { fs = s })
          (record f.inode.node { block_count = decrement f.inode.node.block_count })))

  unfoldable pub testfs_free_block_from_inode : File → ℤ → Option File
  unfolding discharge
  testfs_free_block_from_inode f (negsuc n) = none
  testfs_free_block_from_inode f (pos n) =
      if n == 0 then some f else discharge f (testfs_free_block layout f.fs n)
