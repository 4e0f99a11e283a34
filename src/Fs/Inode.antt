-- ===== src/Fs/Inode.antt =====
-- fs/inode.h: the inode on the device, and the numbers in a block.
pub mod Numbers
use operating_system_ece.Common.{
  ℕ, ◌+◌, ◌-◌, ◌*◌, ◌/◌, ◌%◌, ◌^◌, ◌==◌, Bool, false, ltb, ℤ, pos, negsuc, if◌then◌else◌,
}

-- NR_DIRECT_BLOCKS, and NR_INDIRECT_BLOCKS with an `int` of four bytes
abbrev pub nr_direct_blocks : ℕ
nr_direct_blocks = 10

abbrev pub nr_indirect_blocks : ℕ
nr_indirect_blocks = 2048

-- struct dinode; its numbers are signed
pub record Dinode : Type 0 where
  pub i_type : ℤ
  pub i_block_nr : ℕ → ℤ
  pub i_indirect : ℤ
  pub i_dindirect : ℤ
  pub block_count : ℤ
  pub i_size : ℤ

-- A number of 32 bits as an `int`
abbrev pub to_int : ℕ → ℤ
to_int word = if ltb word (2 ^ 31) then pos word else negsuc (2 ^ 32 - 1 - word)

-- `((int *) block)[index]`, the lowest byte first
unfoldable pub int_at : (ℕ → ℕ) → ℕ → ℤ
int_at block index =
    let at = 4 * index in
    to_int (block at + 256 * block (at + 1) + 65536 * block (at + 2) + 16777216 * block (at + 3))

abbrev pub to_word : ℤ → ℕ
to_word (pos n) = n % 2 ^ 32
to_word (negsuc n) = 2 ^ 32 - 1 - n % 2 ^ 32

-- The byte of a number at an offset
abbrev pub byte_of : ℕ → ℕ → ℕ
byte_of word offset =
    if offset == 0
    then word % 256
    else if offset == 1
    then word / 256 % 256
    else if offset == 2
    then word / 65536 % 256
    else word / 16777216 % 256

-- `((int *) block)[index] = n`
unfoldable pub store_int : (ℕ → ℕ) → ℕ → ℤ → ℕ → ℕ
store_int block index n i = if i / 4 == index then byte_of (to_word n) (i % 4) else block i

-- `n > 0`
abbrev pub is_positive : ℤ → Bool
is_positive (pos n) = ltb 0 n
is_positive (negsuc n) = false

-- struct inode without its place in the hash table and the super block; `dirty` is its only flag
pub record Inode : Type 0 where
  pub node : Dinode
  pub dirty : Bool
  pub i_nr : ℕ
  pub i_count : ℤ
