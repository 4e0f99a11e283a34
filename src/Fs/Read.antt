-- ===== src/Fs/Read.antt =====
-- fs/read_write.c: testfs_read_block.
pub mod Addresses
pub mod Data
use operating_system_ece.Common.{
  ℕ, ◌+◌, ◌-◌, ◌*◌, ◌/◌, ◌%◌, Bool, true, false, ltb, ℤ, pos, negsuc, if◌then◌else◌,
}
use operating_system_ece.Fs.Device.{Device, block_size, read_blocks}
use operating_system_ece.Fs.Inode.{
  Dinode, nr_direct_blocks, nr_indirect_blocks, int_at, is_positive,
}

-- MAX_FILE_SIZE, in blocks
abbrev pub max_file_size : ℕ
max_file_size = nr_direct_blocks + nr_indirect_blocks + nr_indirect_blocks * nr_indirect_blocks

-- EFBIG, which the code returns as it is
abbrev pub efbig : ℤ
efbig = pos 27

-- What the call returns, with what it leaves in `block`; or it reads behind the end of `block`.
pub data Got : Type 0 where
  got : ℤ → (ℕ → ℕ) → Got
  overrun : Got

-- `bzero(block, BLOCK_SIZE)`
abbrev pub zeros : ℕ → ℕ
zeros i = 0

-- The physical block is read, or zeros where there is none.
unfoldable pub load : Device → ℤ → Got
load dev phy_block_nr = elim phy_block_nr [
  | pos n ↦ if ltb 0 n then got (pos n) (read_blocks dev n) else got (pos n) zeros
  | negsuc n ↦ got (negsuc n) zeros
]

-- The block with the number `nr`, if it is positive
abbrev pub with_block : Device → ℤ → ((ℕ → ℕ) → Got) → Got → Got
with_block dev (pos n) found missing = if ltb 0 n then found (read_blocks dev n) else missing
with_block dev (negsuc n) found missing = missing

-- A block behind the doubly indirect one; `log_block_nr` counts from the first of them.
unfoldable pub read_doubly : Device → Dinode → ℕ → Got
unfolding load
read_doubly dev inode log_block_nr =
    let layer_three_pointer_offset = log_block_nr % (block_size / 4) in
    let layer_three_block_offset = log_block_nr / (block_size / 4) in
    with_block dev inode.i_dindirect
      (λ second.
        if ltb layer_three_block_offset (block_size / 4)
        then (let phy_block_nr = int_at second layer_three_block_offset in
            with_block dev phy_block_nr
              (λ third. load dev (int_at third layer_three_pointer_offset))
              (got phy_block_nr zeros))
        else overrun)
      (got (pos 0) zeros)

-- A block behind the indirect one
unfoldable pub read_indirect : Device → Dinode → ℕ → Got
unfolding load
read_indirect dev inode log_block_nr =
    with_block dev inode.i_indirect (λ first. load dev (int_at first log_block_nr))
      (load dev (pos 0))

-- `log_block_nr` is not negative (the code asserts it); `block` is what the caller's buffer holds.
unfoldable pub testfs_read_block : Device → Dinode → ℕ → (ℕ → ℕ) → Got
unfolding load read_doubly read_indirect
testfs_read_block dev inode log_block_nr block =
    if ltb max_file_size log_block_nr
    then got efbig block
    else if ltb log_block_nr nr_direct_blocks
    then load dev (inode.i_block_nr log_block_nr)
    else if ltb (log_block_nr - nr_direct_blocks) nr_indirect_blocks
    then read_indirect dev inode (log_block_nr - nr_direct_blocks)
    else read_doubly dev inode (log_block_nr - nr_direct_blocks - nr_indirect_blocks)
