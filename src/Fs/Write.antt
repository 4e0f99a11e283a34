-- ===== src/Fs/Write.antt =====
-- testfs_write_data (fs/read_write.c): writing a buffer to a part of a file.
pub mod Rounds
use operating_system_ece.Common.{
  ℕ, zero, suc, ◌+◌, ◌-◌, ◌*◌, ◌/◌, ◌%◌, ◌^◌, Bool, true, false, ltb, leb, ◌&&◌, ◌==◌, Option, none,
  some, ℤ, pos, negsuc, if◌then◌else◌,
}
use operating_system_ece.Fs.Device.{Device, block_size, write_blocks}
use operating_system_ece.Fs.Super.{DsuperBlock}
use operating_system_ece.Fs.Inode.{to_int}
use operating_system_ece.Fs.Read.{max_file_size, efbig}
use operating_system_ece.Fs.Read.Data.{wrap64, copy_in}
use operating_system_ece.Fs.File.{File, with_node, mark_dirty, with_device}
use operating_system_ece.Fs.Allocate.{testfs_allocate_block}

-- What the call returns with the file; or the program ends; or the loop does not end within its fuel.
pub data Stored : Type 0 where
  stored : ℤ → File → Stored
  crashed : Stored
  endless : Stored

-- The loop ends with `block_nr`, `need_to_write`, the place in the buffer, the array `block` and the file,
-- or the call ends.
pub data Written : Type 0 where
  written : ℕ → ℤ → ℕ → (ℕ → ℕ) → File → Written
  failed_with : Stored → Written

-- The size that the code sets when a write fails
abbrev pub too_big : File → File
too_big f = mark_dirty (with_node f (record f.inode.node { i_size = pos 34376597504 }))

-- `MAX(in->in.i_size, end)`
abbrev pub at_least : ℤ → ℕ → ℤ
at_least (pos n) end = pos (if ltb n end then end else n)
at_least (negsuc n) end = pos end

abbrev pub grow : File → ℕ → ℕ → File
grow f start size =
    if ltb 0 size
    then mark_dirty
        (with_node f (record f.inode.node { i_size = at_least f.inode.node.i_size (start + size) }))
    else mark_dirty f

-- `need_to_write > BLOCK_SIZE`
abbrev pub more_blocks : ℤ → Bool
more_blocks (pos n) = ltb block_size n
more_blocks (negsuc n) = false

abbrev pub minus_block : ℤ → ℤ
minus_block (pos n) = pos (n - block_size)
minus_block (negsuc n) = negsuc (n + block_size)

-- `write_blocks(in->sb, block, p, 1)`
abbrev pub put_buffer : File → (ℕ → ℕ) → ℕ → File
put_buffer f block p = with_device f (write_blocks f.fs.dev block p 1)

-- Behind testfs_allocate_block in the loop
abbrev pub with_allocated : Option (ℤ × (ℕ → ℕ) × File) → (ℕ → (ℕ → ℕ) → File → Written) → Written
with_allocated none k = failed_with crashed
with_allocated (some (negsuc n, block, f)) k = failed_with (stored (negsuc n) (too_big f))
with_allocated (some (pos p, block, f)) k = k p block f

module _ (layout : DsuperBlock → ℕ → ℕ) (buf : ℕ → ℕ) where
  -- The loop
  unfoldable pub write_rounds : ℕ → File → ℕ → ℤ → ℕ → (ℕ → ℕ) → Written
  write_rounds zero f block_nr need at block = failed_with endless
  write_rounds (suc fuel) f block_nr need at block =
      if more_blocks need
      then with_allocated (testfs_allocate_block layout f block_nr block) (λ p block f'.
        write_rounds fuel (put_buffer f' (copy_in block 0 buf at block_size) p) (block_nr + 1)
          (minus_block need) (at + block_size) (copy_in block 0 buf at block_size))
      else written block_nr need at block f

  -- `memcpy(block + block_ix, buf, need_to_write)` reads and writes within its arrays, or not.
  unfoldable pub store_last : ℕ → ℕ → ℕ → ℤ → ℕ → ℕ → (ℕ → ℕ) → File → Stored
  store_last start size ix (negsuc n) at p block f = crashed
  store_last start size ix (pos n) at p block f =
      if ltb block_size (ix + n)
      then crashed
      else stored (to_int (size % 2 ^ 32))
          (grow (put_buffer f (copy_in block ix buf at n) p) start size)

  -- Behind testfs_allocate_block for the last block
  unfoldable pub last_allocated : ℕ → ℕ → ℕ → ℤ → ℕ → Option (ℤ × (ℕ → ℕ) × File) → Stored
  unfolding store_last
  last_allocated start size ix need at none = crashed
  last_allocated start size ix need at (some (negsuc n, block, f)) = stored (negsuc n) (too_big f)
  last_allocated start size ix need at (some (pos p, block, f)) =
      store_last start size ix need at p block f

  -- The last block, which is also the first one where the write lies in one block
  unfoldable pub write_last : ℕ → ℕ → ℕ → Written → Stored
  unfolding last_allocated
  write_last start size ix (failed_with r) = r
  write_last start size ix (written block_nr need at block f) =
      if leb max_file_size block_nr
      then stored (negsuc 26) (too_big f)
      else last_allocated start size ix need at (testfs_allocate_block layout f block_nr block)

  -- Behind testfs_allocate_block for the first of several blocks, `first` bytes of which are written
  unfoldable pub first_allocated : ℕ → ℕ → ℕ → ℕ → Option (ℤ × (ℕ → ℕ) × File) → Written
  unfolding write_rounds
  first_allocated size ix first block_nr none = failed_with crashed
  first_allocated size ix first block_nr (some (negsuc n, block, f)) =
      failed_with (stored (negsuc n) f)
  first_allocated size ix first block_nr (some (pos p, block, f)) =
      write_rounds (size / block_size + 1) (put_buffer f (copy_in block ix buf 0 first) p)
        (block_nr + 1) (to_int ((size - first) % 2 ^ 32)) first (copy_in block ix buf 0 first)

  -- `block` is what the array holds at first; `start` is not negative.
  unfoldable pub testfs_write_data : File → (ℕ → ℕ) → ℕ → ℕ → Stored
  unfolding write_last first_allocated
  testfs_write_data f block start size =
      if leb max_file_size (start / block_size)
      then stored efbig f
      else if ltb block_size (wrap64 (start % block_size + size))
      then write_last start size 0 (
          first_allocated size (start % block_size) (block_size - start % block_size)
            (start / block_size) (testfs_allocate_block layout f (start / block_size) block))
      else write_last start size (start % block_size)
          (written (start / block_size) (to_int (size % 2 ^ 32)) 0 block f)
