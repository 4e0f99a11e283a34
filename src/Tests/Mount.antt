-- ===== src/Tests/Mount.antt =====
-- The theorems on making, closing and opening a file system (fs/super.c).
use operating_system_ece.Common.{
  ◌+◌, ◌*◌, ◌/◌, ◌%◌, ◌^◌, ◌<◌, ℕ, ◌≡◌, refl, Bool, true, ◌==◌, some, arith, if◌then◌else◌,
}
use operating_system_ece.Fs.Device.{Device}
use operating_system_ece.Fs.Super.{DsuperBlock, SuperBlock}
use operating_system_ece.Fs.Inode.{byte_of}
use operating_system_ece.Fs.Mount.{
  new_super_block, testfs_init_super_block, testfs_close_super_block,
}
use operating_system_ece.Fs.Mount.Reopens.{
  Fits, inode_bits, block_bits, Parses, Standard, Reopens, close-Reopens,
}

-- The words of a super block in the order of its members, the lower half of the last one first
abbrev member : DsuperBlock → ℕ → ℕ
member d w =
    if w == 0
    then d.inode_freemap_start
    else if w == 1
    then d.block_freemap_start
    else if w == 2
    then d.inode_blocks_start
    else if w == 3
    then d.data_blocks_start
    else if w == 4
    then d.used_inode_count
    else if w == 5
    then d.used_block_count
    else if w == 6
    then d.max_fs_blocks % 2 ^ 32
    else if w == 7
    then d.max_fs_blocks / 2 ^ 32
    else 0

-- The bytes of the words, the lowest first
abbrev layout : DsuperBlock → ℕ → ℕ
layout d i = byte_of (member d (i / 4)) (i % 4)

abbrev word_of : (ℕ → ℕ) → ℕ → ℕ
word_of block w =
    block (4 * w)
    + 256 * block (4 * w + 1)
    + 65536 * block (4 * w + 2)
    + 16777216 * block (4 * w + 3)

abbrev parse : (ℕ → ℕ) → DsuperBlock
parse block = record {
  inode_freemap_start = word_of block 0;
  block_freemap_start = word_of block 1;
  inode_blocks_start = word_of block 2;
  data_blocks_start = word_of block 3;
  used_inode_count = word_of block 4;
  used_block_count = word_of block 5;
  max_fs_blocks = word_of block 6 + 2 ^ 32 * word_of block 7;
}

-- The bytes of a number of 32 bits
word-bytes :
    (n : ℕ)
    → n < 2 ^ 32
    → byte_of n 0 + 256 * byte_of n 1 + 65536 * byte_of n 2 + 16777216 * byte_of n 3 ≡ n
word-bytes n l = omega arith

-- A word of the block whose bytes are those of a number
read_word :
    (block : ℕ → ℕ) (w n : ℕ)
    → n < 2 ^ 32
    → block (4 * w) ≡ byte_of n 0
    → block (4 * w + 1) ≡ byte_of n 1
    → block (4 * w + 2) ≡ byte_of n 2
    → block (4 * w + 3) ≡ byte_of n 3
    → word_of block w ≡ n
read_word block w n l a b c d = rw (a, b, c, d) (word-bytes n l)

halves : (low high n : ℕ) → low ≡ n % 2 ^ 32 → high ≡ n / 2 ^ 32 → low + 2 ^ 32 * high ≡ n
halves low high n a b = omega arith

-- Super blocks with the same members
members :
    (a b : DsuperBlock)
    → a.inode_freemap_start ≡ b.inode_freemap_start
    → a.block_freemap_start ≡ b.block_freemap_start
    → a.inode_blocks_start ≡ b.inode_blocks_start
    → a.data_blocks_start ≡ b.data_blocks_start
    → a.used_inode_count ≡ b.used_inode_count
    → a.used_block_count ≡ b.used_block_count
    → a.max_fs_blocks ≡ b.max_fs_blocks
    → a ≡ b
members a b p q r s t u v = λ i. record {
  inode_freemap_start = p i;
  block_freemap_start = q i;
  inode_blocks_start = r i;
  data_blocks_start = s i;
  used_inode_count = t i;
  used_block_count = u i;
  max_fs_blocks = v i;
}

layout-Parses : Parses layout parse
layout-Parses d block fits same =
    let last = fits.max_blocks_fit in
    let w0 : word_of block 0 ≡ d.inode_freemap_start =
      read_word block 0 (d.inode_freemap_start) (fits.inode_freemap_fits) (same 0 (omega arith))
        (same 1 (omega arith)) (same 2 (omega arith)) (same 3 (omega arith)) in
    let w1 : word_of block 1 ≡ d.block_freemap_start =
      read_word block 1 (d.block_freemap_start) (fits.block_freemap_fits) (same 4 (omega arith))
        (same 5 (omega arith)) (same 6 (omega arith)) (same 7 (omega arith)) in
    let w2 : word_of block 2 ≡ d.inode_blocks_start =
      read_word block 2 (d.inode_blocks_start) (fits.inode_blocks_fit) (same 8 (omega arith))
        (same 9 (omega arith)) (same 10 (omega arith)) (same 11 (omega arith)) in
    let w3 : word_of block 3 ≡ d.data_blocks_start =
      read_word block 3 (d.data_blocks_start) (fits.data_blocks_fit) (same 12 (omega arith))
        (same 13 (omega arith)) (same 14 (omega arith)) (same 15 (omega arith)) in
    let w4 : word_of block 4 ≡ d.used_inode_count =
      read_word block 4 (d.used_inode_count) (fits.used_inodes_fit) (same 16 (omega arith))
        (same 17 (omega arith)) (same 18 (omega arith)) (same 19 (omega arith)) in
    let w5 : word_of block 5 ≡ d.used_block_count =
      read_word block 5 (d.used_block_count) (fits.used_blocks_fit) (same 20 (omega arith))
        (same 21 (omega arith)) (same 22 (omega arith)) (same 23 (omega arith)) in
    let w6 : word_of block 6 ≡ d.max_fs_blocks % 2 ^ 32 =
      read_word block 6 (d.max_fs_blocks % 2 ^ 32) (omega arith) (same 24 (omega arith))
        (same 25 (omega arith)) (same 26 (omega arith)) (same 27 (omega arith)) in
    let w7 : word_of block 7 ≡ d.max_fs_blocks / 2 ^ 32 =
      read_word block 7 (d.max_fs_blocks / 2 ^ 32) (omega arith) (same 28 (omega arith))
        (same 29 (omega arith)) (same 30 (omega arith)) (same 31 (omega arith)) in
    members (parse block) d w0 w1 w2 w3 w4 w5
      (halves (word_of block 6) (word_of block 7) d.max_fs_blocks w6 w7)

abbrev memory : ℕ → Bool
memory i = true

-- A device that holds anything
abbrev blank : Device
blank pos = 7

-- A file system with the first inode and the second data block in use
abbrev in_use : SuperBlock
in_use = record {
  sb = record (new_super_block 1000) { used_inode_count = 1; used_block_count = 1 };
  dev = blank;
  inode_freemap = record { nbits = inode_bits; v = λ i. if i == 0 then 1 else 0 };
  block_freemap = record { nbits = block_bits; v = λ i. if i == 0 then 2 else 0 };
}

in_use-Standard : Standard layout in_use
in_use-Standard = record {
  inode_bits_all = refl;
  block_bits_all = refl;
  inode_map = refl;
  block_map = refl;
}

in_use-Fits : Fits in_use.sb
in_use-Fits = record {
  inode_freemap_fits = omega arith;
  block_freemap_fits = omega arith;
  inode_blocks_fit = omega arith;
  data_blocks_fit = omega arith;
  used_inodes_fit = omega arith;
  used_blocks_fit = omega arith;
  max_blocks_fit = omega arith;
}

close-Reopens_example :
    (dev : Device) × (testfs_close_super_block layout true in_use ≡ some dev)
    × Reopens layout in_use (testfs_init_super_block memory parse dev)
close-Reopens_example =
    close-Reopens layout memory parse in_use (λ i. refl) layout-Parses in_use-Standard in_use-Fits
