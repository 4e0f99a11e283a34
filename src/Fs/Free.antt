-- ===== src/Fs/Free.antt =====
-- testfs_free_blocks (fs/read_write.c) and testfs_remove_inode (fs/inode.c).
pub mod Direct
pub mod Blocks
use operating_system_ece.Common.{
  ℕ, zero, suc, ◌+◌, ◌-◌, ◌/◌, ◌%◌, ◌^◌, Bool, true, false, ltb, leb, ◌==◌, Option, none, some,
  List, ℤ, pos, negsuc, is_zero, update, if◌then◌else◌,
}
use operating_system_ece.Fs.Bitmap.{Run, done, failed, aborted}
use operating_system_ece.Fs.Device.{block_size}
use operating_system_ece.Fs.Super.{DsuperBlock, SuperBlock, testfs_put_inode_freemap}
use operating_system_ece.Fs.Inode.{
  Dinode, Inode, nr_direct_blocks, nr_indirect_blocks, to_int, int_at, is_positive,
}
use operating_system_ece.Fs.File.{
  File, ◌>>=◌, with_node, mark_dirty, read_block, testfs_free_block_from_inode,
}
use operating_system_ece.Fs.Inodes.{
  Inodes, inode_hash_find, change_inode, with_chain, chain_of, testfs_sync_inode, testfs_put_inode,
}

-- DIVROUNDUP of the size, as the 32 bits that are kept of it
abbrev pub quotient_word : ℤ → ℕ
quotient_word (pos n) = (n + (block_size - 1)) / block_size % 2 ^ 32
quotient_word (negsuc n) = (2 ^ 32 - (n + 1 - (block_size - 1)) / block_size % 2 ^ 32) % 2 ^ 32

-- `e_block_nr`, or 0 where this `int` is negative: then no loop is entered. (For the 2058 numbers next to
-- -2 ^ 31 the subtractions from it are undefined.)
abbrev pub not_negative : ℤ → ℕ
not_negative (pos n) = n
not_negative (negsuc n) = 0

abbrev pub blocks_of : ℤ → ℕ
blocks_of size = not_negative (to_int (quotient_word size))

-- The rounds of a loop up to `e` and up to `limit`
abbrev pub at_most : ℕ → ℕ → ℕ
at_most e limit = if ltb e limit then e else limit

abbrev pub clear_slot : ℕ → File → File
clear_slot k f =
    with_node f (record f.inode.node { i_block_nr = update f.inode.node.i_block_nr k (pos 0) })

module _ (layout : DsuperBlock → ℕ → ℕ) where
  -- A round of the loop over the direct blocks
  unfoldable pub free_slot : ℕ → File → Option File
  free_slot k f = if is_zero (f.inode.node.i_block_nr k) then some f else (do
    f' ← testfs_free_block_from_inode layout f (f.inode.node.i_block_nr k)
    some (clear_slot k f'))

  -- So many rounds of it, from `k` on
  unfoldable pub free_direct : ℕ → ℕ → File → Option File
  unfolding free_slot
  free_direct zero k f = some f
  free_direct (suc rounds) k f = free_slot k f >>= λ f'. free_direct rounds (k + 1) f'

  -- The loop over the numbers in the indirect block
  unfoldable pub free_entries : ℕ → ℕ → (ℕ → ℕ) → File → Option File
  free_entries zero k block f = some f
  free_entries (suc rounds) k block f =
      testfs_free_block_from_inode layout f (int_at block k) >>= λ f'.
      free_entries rounds (k + 1) block f'

  unfoldable pub free_indirect : ℕ → File → Option File
  unfolding free_entries
  free_indirect e f =
      if is_positive f.inode.node.i_indirect
      then (do
        block ← read_block f f.inode.node.i_indirect
        f1 ← free_entries (at_most e nr_indirect_blocks) 0 block f
        f2 ← testfs_free_block_from_inode layout f1 f1.inode.node.i_indirect
        some (with_node f2 (record f2.inode.node { i_indirect = pos 0 })))
      else some f

  -- A block that is freed and counted in `total_number`
  abbrev pub free_counted : ℤ → ℕ → File → Option (File × ℕ)
  free_counted nr total f =
      if is_zero nr
      then some (f, total)
      else (do f' ← testfs_free_block_from_inode layout f nr; some (f', total + 1))

  -- The inner loop over the doubly indirect blocks; it ends when `total_number` has come to `e`.
  unfoldable pub free_thirds : ℕ → ℕ → ℕ → (ℕ → ℕ) → File × ℕ → Option (File × ℕ)
  free_thirds zero j e third (f, total) = some (f, total)
  free_thirds (suc rounds) j e third (f, total) = elim (ltb total e) [
    | true ↦ free_counted (int_at third j) total f >>= λ r. free_thirds rounds (j + 1) e third r
    | false ↦ some (f, total)
  ]

  -- A round of the outer loop: the table itself is counted like the blocks in it.
  unfoldable pub free_second : ℤ → ℕ → File × ℕ → Option (File × ℕ)
  unfolding free_thirds
  free_second nr e (f, total) = if is_zero nr then some (f, total) else (do
    third ← read_block f nr
    (f1, n) ← free_thirds nr_indirect_blocks 0 e third (f, total)
    f2 ← testfs_free_block_from_inode layout f1 nr
    some (f2, n + 1))

  unfoldable pub free_seconds : ℕ → ℕ → ℕ → (ℕ → ℕ) → File × ℕ → Option (File × ℕ)
  unfolding free_second
  free_seconds zero i e second (f, total) = some (f, total)
  free_seconds (suc rounds) i e second (f, total) = elim (ltb total e) [
    | true ↦
        free_second (int_at second i) e (f, total) >>= λ r. free_seconds rounds (i + 1) e second r
    | false ↦ some (f, total)
  ]

  unfoldable pub free_dindirect : ℕ → File → Option File
  unfolding free_seconds
  free_dindirect e f =
      if is_positive f.inode.node.i_dindirect
      then (do
        second ← read_block f f.inode.node.i_dindirect
        (f1, n) ← free_seconds nr_indirect_blocks 0 e second (f, 0)
        f2 ← testfs_free_block_from_inode layout f1 f1.inode.node.i_dindirect
        some (with_node f2 (record f2.inode.node { i_dindirect = pos 0 })))
      else some f

  -- The last part is left out where the file has fewer blocks than the direct and indirect ones.
  unfoldable pub testfs_free_blocks : File → Option File
  unfolding free_direct free_indirect free_dindirect
  testfs_free_blocks f = do
    let e : ℕ = blocks_of f.inode.node.i_size
    let behind : ℕ = nr_direct_blocks + nr_indirect_blocks
    f1 ← free_direct (at_most e nr_direct_blocks) 0 f
    f2 ← free_indirect (e - nr_direct_blocks) f1
    f3 ← if leb behind e then free_dindirect (e - behind) f2 else some f2
    some (mark_dirty (with_node f3 (record f3.inode.node { i_size = pos 0 })))

-- `bzero` of a `struct dinode`
abbrev pub zero_dinode : Dinode
zero_dinode = record {
  i_type = pos 0;
  i_block_nr = λ k. pos 0;
  i_indirect = pos 0;
  i_dindirect = pos 0;
  block_count = pos 0;
  i_size = pos 0;
}

module _ (hash : ℕ → ℕ) (layout : DsuperBlock → ℕ → ℕ) where
  -- Behind testfs_put_inode_freemap
  abbrev pub removed : Inodes → ℕ → Inode → Run SuperBlock → Option Inodes
  removed t nr x failed = none
  removed t nr x aborted = none
  removed t nr x (done s) = do
    let y : Inode = record x { node = zero_dinode; dirty = true }
    t1 ←
        testfs_sync_inode hash
          (with_chain hash (record t { super = s }) nr (change_inode (chain_of hash t nr) y)) nr
    testfs_put_inode hash t1 nr

  -- Behind testfs_free_blocks; a block that is left fails an assertion.
  abbrev pub remove_freed : Inodes → ℕ → File → Option Inodes
  remove_freed t nr f =
      if is_zero f.inode.node.block_count
      then removed t nr f.inode (testfs_put_inode_freemap layout f.fs nr)
      else none

  -- Behind the search for the inode, to which the code has a pointer
  abbrev pub remove_found : Inodes → ℕ → Option Inode → Option Inodes
  remove_found t nr none = none
  remove_found t nr (some x) =
      testfs_free_blocks layout (record { fs = t.super; inode = x }) >>= remove_freed t nr

  unfoldable pub testfs_remove_inode : Inodes → ℕ → Option Inodes
  unfolding testfs_free_blocks
  testfs_remove_inode t nr = remove_found t nr (inode_hash_find (chain_of hash t nr) nr)
