-- ===== src/Fs/Device.antt =====
-- fs/block.c: reading and writing whole blocks of the device. An error of the device ends the program.
pub mod Writes
use operating_system_ece.Common.{ℕ, zero, suc, ◌+◌, ◌-◌, ◌*◌, ◌&&◌, leb, ltb, if◌then◌else◌}

-- BLOCK_SIZE of fs/testfs.h
abbrev pub block_size : ℕ
block_size = 8192

-- The bytes of the device, by position
abbrev pub Device : Type 0
Device = ℕ → ℕ

unfoldable pub write_blocks : Device → (ℕ → ℕ) → ℕ → ℕ → Device
write_blocks dev blocks start nr pos =
    if leb (start * block_size) pos && ltb pos ((start + nr) * block_size)
    then blocks (pos - start * block_size)
    else dev pos

-- The rounds of `zero_blocks`
unfoldable pub zero_blocks : Device → ℕ → ℕ → Device
unfolding write_blocks
zero_blocks dev start zero = dev
zero_blocks dev start (suc nr) = zero_blocks (write_blocks dev (λ i. 0) start 1) (start + 1) nr

unfoldable pub read_blocks : Device → ℕ → ℕ → ℕ
read_blocks dev start i = dev (start * block_size + i)
