-- ===== src/Fs/Read/Data.antt =====
-- testfs_read_data (fs/read_write.c): reading a part of a file into a buffer.
pub mod Rounds
pub mod Steps
pub mod Bytes
use operating_system_ece.Common.{
  ℕ, zero, suc, ◌+◌, ◌-◌, ◌*◌, ◌/◌, ◌%◌, ◌^◌, Bool, true, false, ltb, leb, ◌&&◌, ◌==◌, ℤ, pos,
  negsuc, if◌then◌else◌,
}
use operating_system_ece.Fs.Device.{Device, block_size}
use operating_system_ece.Fs.Inode.{Dinode, to_int}
use operating_system_ece.Fs.Read.{max_file_size, efbig, Got, got, overrun, testfs_read_block}

-- What the call returns with the caller's buffer; or it reads behind the end of a block; or the loop does
-- not end within its fuel.
pub data Transfer : Type 0 where
  transfer : ℤ → (ℕ → ℕ) → Transfer
  behind_block : Transfer
  spins : Transfer

-- The loop ends with `block_nr`, `block_ix`, the place in the buffer and the buffer, or the call ends.
pub data Round : Type 0 where
  left : ℕ → ℕ → ℕ → (ℕ → ℕ) → Round
  stopped : Transfer → Round

-- The arithmetic of a `size_t`
abbrev pub wrap64 : ℕ → ℕ
wrap64 n = n % 2 ^ 64

-- `memcpy(buf + at, block + ix, n)`
abbrev pub copy_in : (ℕ → ℕ) → ℕ → (ℕ → ℕ) → ℕ → ℕ → ℕ → ℕ
copy_in buf at block ix n k = if leb at k && ltb k (at + n) then block (ix + (k - at)) else buf k

-- `end > in->in.i_size`
abbrev pub exceeds : ℕ → ℤ → Bool
exceeds end (pos n) = ltb n end
exceeds end (negsuc n) = true

-- `in->in.i_size - start` as a `size_t`
abbrev pub rest_of : ℤ → ℕ → ℕ
rest_of (pos n) start = if leb start n then n - start else 2 ^ 64 - (start - n)
rest_of (negsuc n) start = 2 ^ 64 - (start + n + 1)

-- A block has been read, or not.
abbrev pub with_read : Got → (ℕ → ℕ) → ((ℕ → ℕ) → Transfer) → Transfer
with_read overrun buf k = behind_block
with_read (got (negsuc n) block) buf k = transfer (negsuc n) buf
with_read (got (pos n) block) buf k = k block

abbrev pub round_read : Got → (ℕ → ℕ) → ((ℕ → ℕ) → Round) → Round
round_read overrun buf k = stopped behind_block
round_read (got (negsuc n) block) buf k = stopped (transfer (negsuc n) buf)
round_read (got (pos n) block) buf k = k block

-- The loop; `stack` is what the array `block` holds at first.
unfoldable pub read_rounds : ℕ → Device → Dinode → (ℕ → ℕ) → ℕ → ℕ → ℕ → ℕ → (ℕ → ℕ) → Round
read_rounds zero dev inode stack block_nr block_ix need at buf = stopped spins
read_rounds (suc fuel) dev inode stack block_nr block_ix need at buf =
    if ltb block_size (wrap64 (block_ix + need))
    then if leb max_file_size block_nr
      then stopped (transfer efbig buf)
      else round_read (testfs_read_block dev inode block_nr stack) buf (λ block.
        read_rounds fuel dev inode stack (block_nr + 1) 0 (need - (block_size - block_ix))
          (at + (block_size - block_ix)) (copy_in buf at block block_ix (block_size - block_ix)))
    else left block_nr block_ix at buf

-- The last copy, of `size` bytes
unfoldable pub read_last : Device → Dinode → (ℕ → ℕ) → ℕ → Round → Transfer
read_last dev inode stack size (stopped r) = r
read_last dev inode stack size (left block_nr block_ix at buf) =
    if leb max_file_size block_nr
    then transfer efbig buf
    else with_read (testfs_read_block dev inode block_nr stack) buf (λ block.
      if ltb block_size (block_ix + size)
      then behind_block
      else transfer (to_int (size % 2 ^ 32)) (copy_in buf at block block_ix size))

-- Behind the cut at the end of the file
unfoldable pub read_size : Device → Dinode → (ℕ → ℕ) → (ℕ → ℕ) → ℕ → ℕ → Transfer
unfolding read_rounds read_last
read_size dev inode stack buf start size = read_last dev inode stack size (
    read_rounds ((start % block_size + size) / block_size + 1) dev inode stack (start / block_size)
      (start % block_size) size 0 buf)

-- `size` is below 2 ^ 63, so that the cast to off_t keeps it.
unfoldable pub testfs_read_data : Device → Dinode → (ℕ → ℕ) → (ℕ → ℕ) → ℕ → ℕ → Transfer
unfolding read_size
testfs_read_data dev inode stack buf start size =
    if leb max_file_size (start / block_size)
    then transfer efbig buf
    else read_size dev inode stack buf start
        (if exceeds (start + size) inode.i_size then rest_of inode.i_size start else size)
