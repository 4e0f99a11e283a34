-- ===== src/Fs/Read/Data/Steps.antt =====
-- testfs_read_data (fs/read_write.c): the bytes of a file, and the steps of the call.
use operating_system_ece.Common.{
  ℕ, suc, ◌+◌, ◌-◌, ◌/◌, ◌%◌, ◌^◌, ◌<◌, ◌≤◌, ◌≡◌, refl, true, false, ltb, leb, ℤ, pos, arith,
  if◌then◌else◌, Bool-cases, inl, inr, ◌∙◌, ap, subst,
}
use operating_system_ece.Fs.Device.{Device, block_size}
use operating_system_ece.Fs.Inode.{Dinode, nr_direct_blocks, nr_indirect_blocks}
use operating_system_ece.Fs.Read.{max_file_size, got, testfs_read_block}
use operating_system_ece.Fs.Read.Addresses.{
  Address, direct, indirect, doubly, IsAddress, number, physical, content, read_block_at,
}
use operating_system_ece.Fs.Read.Data.{
  Transfer, transfer, behind_block, spins, left, wrap64, copy_in, read_rounds, read_last,
}

-- The address of a logical block
abbrev pub logical : ℕ → Address
logical n =
    if ltb n nr_direct_blocks
    then direct n
    else if ltb n (nr_direct_blocks + nr_indirect_blocks)
    then indirect (n - nr_direct_blocks)
    else doubly ((n - nr_direct_blocks - nr_indirect_blocks) / nr_indirect_blocks)
        ((n - nr_direct_blocks - nr_indirect_blocks) % nr_indirect_blocks)

-- The physical block of a logical one, and what it holds
abbrev pub block_nr_at : Device → Dinode → ℕ → ℤ
block_nr_at dev inode n = physical dev inode (logical n)

abbrev pub block_at : Device → Dinode → ℕ → ℕ → ℕ
block_at dev inode n = content dev (block_nr_at dev inode n)

-- The byte of a file at a position
abbrev pub file_byte : Device → Dinode → ℕ → ℕ
file_byte dev inode at = block_at dev inode (at / block_size) (at % block_size)

-- No block of the file has a negative number.
abbrev pub IsReadable : Device → Dinode → Type 0
IsReadable dev inode = (n : ℕ) → n < max_file_size → (p : ℕ) × (block_nr_at dev inode n ≡ pos p)

logical_lem : (n : ℕ) → n < max_file_size → IsAddress (logical n) × (number (logical n) ≡ n)
logical_lem n l = elim (Bool-cases (ltb n nr_direct_blocks)) [
  | inl y ↦ rw y (ground arith, refl)
  | inr z ↦ elim (Bool-cases (ltb n (nr_direct_blocks + nr_indirect_blocks))) [
    | inl y ↦ rw (z, y) (ground arith, ground arith)
    | inr w ↦ rw (z, w) ((ground arith, ground arith), ground arith)
  ]
]

read_block_lem :
    (dev : Device) (inode : Dinode) (stack : ℕ → ℕ) (n : ℕ)
    → n < max_file_size
    → testfs_read_block dev inode n stack ≡ got (block_nr_at dev inode n) (block_at dev inode n)
read_block_lem dev inode stack n l =
    let (valid, same) = logical_lem n l in
    subst
      (λ m.
        testfs_read_block dev inode m stack ≡ got (block_nr_at dev inode n) (block_at dev inode n))
      same (read_block_at dev inode (logical n) stack valid)

-- What a read is to do that writes `count` bytes to the buffer and returns `size`
abbrev pub Reads : Device → Dinode → ℕ → ℕ → ℕ → (ℕ → ℕ) → Transfer → Type 0
Reads dev inode start size count buf (transfer r buf') =
    (r ≡ pos size)
    × ((k : ℕ) → buf' k ≡ (if ltb k count then file_byte dev inode (start + k) else buf k))
Reads dev inode start size count buf behind_block = ⊥
Reads dev inode start size count buf spins = ⊥

-- The number of bytes that are written to the buffer
abbrev pub copied : ℕ → ℕ → ℕ
copied start size =
    if ltb block_size (start % block_size + size)
    then size + (block_size - start % block_size)
    else size

-- The number of bytes that a read is cut to at the end of the file
abbrev pub asked : ℕ → ℕ → ℕ → ℕ
asked end start size = if ltb end (start + size) then end - start else size

pub copy_in-inside :
    (buf : ℕ → ℕ) (at : ℕ) (block : ℕ → ℕ) (ix n k : ℕ)
    → at ≤ k
    → k < at + n
    → copy_in buf at block ix n k ≡ block (ix + (k - at))
copy_in-inside buf at block ix n k l b =
    let one : leb at k ≡ true = ground arith in
    let two : ltb k (at + n) ≡ true = ground arith in rw (one, two) refl

pub copy_in-before :
    (buf : ℕ → ℕ) (at : ℕ) (block : ℕ → ℕ) (ix n k : ℕ)
    → k < at
    → copy_in buf at block ix n k ≡ buf k
copy_in-before buf at block ix n k l = let one : leb at k ≡ false = ground arith in rw one refl

pub copy_in-behind :
    (buf : ℕ → ℕ) (at : ℕ) (block : ℕ → ℕ) (ix n k : ℕ)
    → at + n ≤ k
    → copy_in buf at block ix n k ≡ buf k
copy_in-behind buf at block ix n k l =
    let one : leb at k ≡ true = ground arith in
    let two : ltb k (at + n) ≡ false = ground arith in rw (one, two) refl

module _ (dev : Device) (inode : Dinode) (stack : ℕ → ℕ) (readable : IsReadable dev inode) where
  pub readable_lem :
      (n : ℕ)
      → n < max_file_size
      → (p : ℕ) × (testfs_read_block dev inode n stack ≡ got (pos p) (block_at dev inode n))
  readable_lem n l =
      let (p, e) = readable n l in
      (p, read_block_lem dev inode stack n l ∙ ap (λ x. got x (block_at dev inode n)) e)

  -- The loop is left where the rest lies in one block.
  pub rounds_leave :
      (fuel nr ix need at : ℕ) (buf : ℕ → ℕ)
      → ix + need ≤ block_size
      → read_rounds (suc fuel) dev inode stack nr ix need at buf ≡ left nr ix at buf
  unfolding read_rounds
  rounds_leave fuel nr ix need at buf l =
      let last : ltb block_size (wrap64 (ix + need)) ≡ false = ground arith in rw last refl

  pub rounds_go :
      (fuel nr ix need at : ℕ) (buf : ℕ → ℕ)
      → nr < max_file_size
      → ix ≤ block_size
      → block_size < ix + need
      → ix + need < 2 ^ 64
      → read_rounds (suc fuel) dev inode stack nr ix need at buf
        ≡ read_rounds fuel dev inode stack
            (nr + 1)
            0
            (need - (block_size - ix))
            (at + (block_size - ix))
            (copy_in buf at (block_at dev inode nr) ix (block_size - ix))
  unfolding read_rounds
  rounds_go fuel nr ix need at buf l b more small =
      let (p, e) = readable_lem nr l in
      let again : ltb block_size (wrap64 (ix + need)) ≡ true = ground arith in
      let in_file : leb max_file_size nr ≡ false = ground arith in rw (again, in_file, e) refl

  pub last_lem :
      (size nr ix at : ℕ) (buf : ℕ → ℕ)
      → nr < max_file_size
      → ix + size ≤ block_size
      → read_last dev inode stack size (left nr ix at buf)
        ≡ transfer (pos size) (copy_in buf at (block_at dev inode nr) ix size)
  unfolding read_last
  last_lem size nr ix at buf l b =
      let (p, e) = readable_lem nr l in
      let in_file : leb max_file_size nr ≡ false = ground arith in
      let in_block : ltb block_size (ix + size) ≡ false = ground arith in
      let small : ltb (size % 2 ^ 32) (2 ^ 31) ≡ true = ground arith in
      let same : size % 2 ^ 32 ≡ size = omega arith in
      rw (in_file, e, in_block, small)
        (ap (λ n. transfer (pos n) (copy_in buf at (block_at dev inode nr) ix size)) same)
