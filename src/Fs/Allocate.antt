-- ===== src/Fs/Allocate.antt =====
-- fs/read_write.c: testfs_allocate_block.
pub mod Slots
pub mod Tree
pub mod Direct
pub mod Indirect
pub mod Layers
pub mod Thirds
pub mod Doubly
pub mod Failures
pub mod Adds
use operating_system_ece.Common.{
  ℕ, suc, ◌+◌, ◌-◌, ◌*◌, ◌/◌, ◌%◌, Bool, true, false, not, ltb, ◌==◌, Option, none, some, ℤ, pos,
  negsuc, is_negative, is_zero, update, if◌then◌else◌,
}
use operating_system_ece.Fs.Device.{block_size}
use operating_system_ece.Fs.Super.{DsuperBlock}
use operating_system_ece.Fs.Inode.{Dinode, nr_direct_blocks, nr_indirect_blocks, int_at, store_int}
use operating_system_ece.Fs.Read.{max_file_size, efbig, Got, got, overrun, zeros, testfs_read_block}
use operating_system_ece.Fs.File.{
  File, Returned, ◌>>=◌, with_node, read_block, write_block, testfs_alloc_block_for_inode,
  testfs_free_block_from_inode,
}

-- A block of numbers that has been read, or made: whether it is new, its numbers, and the file. Or the
-- call returns an error.
pub data Opened : Type 0 where
  opened : Bool → (ℕ → ℕ) → File → Opened
  refused : ℤ → File → Opened

-- The block of the third layer, with the doubly indirect block as it is then
pub data Third : Type 0 where
  third : Bool → (ℕ → ℕ) → (ℕ → ℕ) → File → Third
  no_third : ℤ → File → Third

-- The members of the inode that change
abbrev pub set_direct : File → ℕ → ℤ → File
set_direct f k n =
    with_node f (record f.inode.node { i_block_nr = update f.inode.node.i_block_nr k n })

abbrev pub set_indirect : File → ℤ → File
set_indirect f n = with_node f (record f.inode.node { i_indirect = n })

abbrev pub set_dindirect : File → ℤ → File
set_dindirect f n = with_node f (record f.inode.node { i_dindirect = n })

-- The number of the block is kept where it is not an error.
abbrev pub keep_block : ℤ × File → (File → ℤ → File) → ℤ × File
keep_block (r, f) set = if is_negative r then (r, f) else (r, set f r)

abbrev pub open_new : ℤ × File → (File → ℤ → File) → Opened
open_new (r, f) set = if is_negative r then refused r f else opened true zeros (set f r)

module _ (layout : DsuperBlock → ℕ → ℕ) where
  unfoldable pub allocate_direct : File → ℕ → Returned
  allocate_direct f k =
      if is_zero (f.inode.node.i_block_nr k)
      then (do
        r ← testfs_alloc_block_for_inode layout f
        some (keep_block r (λ f' n. set_direct f' k n)))
      else none

  unfoldable pub open_indirect : File → Option Opened
  open_indirect f =
      if is_zero f.inode.node.i_indirect
      then (do r ← testfs_alloc_block_for_inode layout f; some (open_new r set_indirect))
      else (do block ← read_block f f.inode.node.i_indirect; some (opened false block f))

  -- Behind the call of testfs_alloc_block_for_inode for the data block
  unfoldable pub link_indirect : Bool → (ℕ → ℕ) → ℕ → ℤ × File → Returned
  link_indirect new block k (r, f) =
      if is_negative r
      then (if new
          then (do
            f' ← testfs_free_block_from_inode layout f f.inode.node.i_indirect
            some (r, set_indirect f' (pos 0)))
          else some (r, f))
      else (do f' ← write_block f (store_int block k r) f.inode.node.i_indirect; some (r, f'))

  unfoldable pub fill_indirect : ℕ → Opened → Returned
  fill_indirect k (refused r f) = some (r, f)
  fill_indirect k (opened new block f) =
      if is_zero (int_at block k)
      then (testfs_alloc_block_for_inode layout f >>= link_indirect new block k)
      else none

  unfoldable pub allocate_indirect : File → ℕ → Returned
  unfolding open_indirect fill_indirect link_indirect
  allocate_indirect f k = open_indirect f >>= fill_indirect k

  unfoldable pub open_dindirect : File → Option Opened
  open_dindirect f =
      if is_zero f.inode.node.i_dindirect
      then (do r ← testfs_alloc_block_for_inode layout f; some (open_new r set_dindirect))
      else (do block ← read_block f f.inode.node.i_dindirect; some (opened false block f))

  unfoldable pub link_third : (ℕ → ℕ) → ℕ → ℤ × File → Option Third
  link_third dindirect i (r, f) = if is_negative r then some (no_third r f) else (do
    f' ← write_block f (store_int dindirect i r) f.inode.node.i_dindirect
    some (third true (store_int dindirect i r) zeros f'))

  unfoldable pub open_third : (ℕ → ℕ) → ℕ → File → Option Third
  open_third dindirect i f =
      if is_zero (int_at dindirect i)
      then (testfs_alloc_block_for_inode layout f >>= link_third dindirect i)
      else (do block ← read_block f (int_at dindirect i); some (third false dindirect block f))

  -- Behind the failed allocation of the data block
  unfoldable pub undo_third : Bool → (ℕ → ℕ) → ℕ → File → Option ((ℕ → ℕ) × File)
  undo_third false dindirect i f = some (dindirect, f)
  undo_third true dindirect i f = do
    f1 ← testfs_free_block_from_inode layout f (int_at dindirect i)
    f2 ← write_block f1 (store_int dindirect i (pos 0)) f1.inode.node.i_dindirect
    some (store_int dindirect i (pos 0), f2)

  -- The code gives back `i_indirect` here, and forgets `i_dindirect`.
  unfoldable pub undo_dindirect : Bool → File → Option File
  undo_dindirect false f = some f
  undo_dindirect true f = do
    f' ← testfs_free_block_from_inode layout f f.inode.node.i_indirect
    some (set_dindirect f' (pos 0))

  unfoldable pub link_doubly : Bool → Bool → (ℕ → ℕ) → (ℕ → ℕ) → ℕ → ℕ → ℤ × File → Returned
  link_doubly new_top new_third dindirect block i j (r, f) =
      if is_negative r
      then (do
        (_, f1) ← undo_third new_third dindirect i f
        f2 ← undo_dindirect new_top f1
        some (r, f2))
      else (do
        f1 ← write_block f (store_int block j r) (int_at dindirect i)
        if new_third
            then (do f2 ← write_block f1 dindirect f1.inode.node.i_dindirect; some (r, f2))
            else some (r, f1))

  unfoldable pub fill_third : Bool → ℕ → ℕ → Third → Returned
  fill_third new_top i j (no_third r f) = some (r, f)
  fill_third new_top i j (third new dindirect block f) =
      testfs_alloc_block_for_inode layout f >>= link_doubly new_top new dindirect block i j

  -- An index outside the doubly indirect block ends the program here.
  unfoldable pub fill_doubly : ℕ → ℕ → Opened → Returned
  unfolding open_third link_third fill_third link_doubly undo_third undo_dindirect
  fill_doubly i j (refused r f) = some (r, f)
  fill_doubly i j (opened new block f) =
      if ltb i (block_size / 4) then (open_third block i f >>= fill_third new i j) else none

  unfoldable pub allocate_doubly : File → ℕ → Returned
  unfolding open_dindirect fill_doubly
  allocate_doubly f n =
      open_dindirect f >>= fill_doubly (n / (block_size / 4)) (n % (block_size / 4))

  unfoldable pub allocate_at : File → ℕ → Returned
  unfolding allocate_direct allocate_indirect allocate_doubly
  allocate_at f log_block_nr =
      if ltb log_block_nr nr_direct_blocks
      then allocate_direct f log_block_nr
      else if ltb (log_block_nr - nr_direct_blocks) nr_indirect_blocks
      then allocate_indirect f (log_block_nr - nr_direct_blocks)
      else allocate_doubly f (log_block_nr - nr_direct_blocks - nr_indirect_blocks)

  -- Behind the call of testfs_read_block
  unfoldable pub allocate_behind : File → ℕ → Got → Option (ℤ × (ℕ → ℕ) × File)
  unfolding allocate_at
  allocate_behind f log_block_nr overrun = none
  allocate_behind f log_block_nr (got phy_block_nr block) =
      if is_zero phy_block_nr
      then (do (r, f') ← allocate_at f log_block_nr; some (r, block, f'))
      else some (phy_block_nr, block, f)

  -- `log_block_nr` is not negative (the code asserts it); `block` is what the caller's buffer holds.
  unfoldable pub testfs_allocate_block : File → ℕ → (ℕ → ℕ) → Option (ℤ × (ℕ → ℕ) × File)
  unfolding allocate_behind
  testfs_allocate_block f log_block_nr block =
      if ltb max_file_size log_block_nr
      then some (efbig, block, f)
      else allocate_behind f log_block_nr
          (testfs_read_block f.fs.dev f.inode.node log_block_nr block)
