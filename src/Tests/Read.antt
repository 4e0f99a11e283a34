-- ===== src/Tests/Read.antt =====
-- The theorems on testfs_read_block at a device with a small file.
use operating_system_ece.Common.{
  ltb, Bool-cases, inl, inr, ◌+◌, ◌*◌, ◌≡◌, refl, ◌==◌, if◌then◌else◌, pos, arith,
}
use operating_system_ece.Fs.Device.{Device, read_blocks}
use operating_system_ece.Fs.Inode.{Dinode, int_at}
use operating_system_ece.Fs.Read.{got, testfs_read_block}
use operating_system_ece.Fs.Read.Addresses.{indirect, physical, content, read_block_at}
use operating_system_ece.Fs.Read.Data.{testfs_read_data}
use operating_system_ece.Fs.Read.Data.Steps.{IsReadable, Reads, copied}
use operating_system_ece.Fs.Read.Data.Bytes.{testfs_read_data-Reads}

-- Block 3 is an indirect block whose entry 1 is the block 7, and block 7 begins with the byte 42.
abbrev disk : Device
disk i = if i == 3 * 8192 + 4 then 7 else if i == 7 * 8192 then 42 else 0

abbrev file : Dinode
file = record {
  i_type = pos 1;
  i_block_nr = λ k. pos 0;
  i_indirect = pos 3;
  i_dindirect = pos 3;
  block_count = pos 2;
  i_size = pos 98304;
}

read_block_at_example :
    testfs_read_block disk file 11 (λ i. 1)
    ≡ got (physical disk file (indirect 1)) (content disk (physical disk file (indirect 1)))
read_block_at_example = read_block_at disk file (indirect 1) (λ i. 1) (omega arith)

physical_block : physical disk file (indirect 1) ≡ pos 7
unfolding int_at read_blocks
physical_block = refl

-- A file with its ten direct blocks
abbrev ten_blocks : Dinode
ten_blocks = record file { i_block_nr = λ k. pos 7; i_indirect = pos 0; i_dindirect = pos 0 }

ten_blocks-IsReadable : IsReadable disk ten_blocks
ten_blocks-IsReadable n l = elim (Bool-cases (ltb n 10)) [
  | inl y ↦ rw y (7, refl)
  | inr z ↦ elim (Bool-cases (ltb n 2058)) [
    | inl y ↦ rw (z, y) (0, refl)
    | inr w ↦ rw (z, w) (0, refl)
  ]
]

-- A read over the border of two blocks that is cut at the end of the file
testfs_read_data-Reads_example :
    Reads disk ten_blocks 98300 4
      (copied 98300 4)
      (λ i. 9)
      (testfs_read_data disk ten_blocks (λ i. 1) (λ i. 9) 98300 20)
testfs_read_data-Reads_example =
    testfs_read_data-Reads disk ten_blocks (λ i. 1) ten_blocks-IsReadable 98300 20 98304 (λ i. 9)
      refl (omega arith) (omega arith) (omega arith) (omega arith)
