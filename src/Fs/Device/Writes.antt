-- ===== src/Fs/Device/Writes.antt =====
-- Reading the device (fs/block.c) after a write.
use operating_system_ece.Common.{
  ℕ, ◌+◌, ◌-◌, ◌*◌, ◌<◌, ◌≡◌, ◌≢◌, refl, false, ltb, leb, ◌&&◌, arith,
}
use operating_system_ece.Fs.Device.{Device, block_size, read_blocks, write_blocks}

pub read_blocks-write_blocks_same :
    (dev : Device) (block : ℕ → ℕ) (n i : ℕ)
    → i < block_size
    → read_blocks (write_blocks dev block n 1) n i ≡ block i
unfolding read_blocks write_blocks
read_blocks-write_blocks_same dev block n i l =
    let inside : (n * block_size + i) - n * block_size ≡ i = omega arith in ground arith

pub read_blocks-write_blocks_other :
    (dev : Device) (block : ℕ → ℕ) (n m i : ℕ)
    → n ≢ m
    → i < block_size
    → read_blocks (write_blocks dev block m 1) n i ≡ read_blocks dev n i
unfolding read_blocks write_blocks
read_blocks-write_blocks_other dev block n m i ne l =
    let out : (leb (m * block_size) (n * block_size + i)
          && ltb (n * block_size + i) ((m + 1) * block_size))
        ≡ false =
      ground arith in
    rw out refl
