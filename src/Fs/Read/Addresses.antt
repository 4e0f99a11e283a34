-- ===== src/Fs/Read/Addresses.antt =====
-- testfs_read_block (fs/read_write.c): the tree of blocks of a file.
use operating_system_ece.Common.{
  ℕ, ◌+◌, ◌-◌, ◌*◌, ◌/◌, ◌%◌, ◌<◌, ◌≡◌, refl, true, false, ltb, ℤ, pos, negsuc, if◌then◌else◌,
  arith, Bool-cases, inl, inr,
}
use operating_system_ece.Fs.Device.{Device, block_size, read_blocks}
use operating_system_ece.Fs.Inode.{Dinode, nr_direct_blocks, nr_indirect_blocks, int_at}
use operating_system_ece.Fs.Read.{
  max_file_size, got, overrun, zeros, load, with_block, read_doubly, read_indirect,
  testfs_read_block,
}

-- Where the number of a block stands: in the inode, in its indirect block, or in a block of the doubly
-- indirect block
pub data Address : Type 0 where
  direct : ℕ → Address
  indirect : ℕ → Address
  doubly : ℕ → ℕ → Address

abbrev pub IsAddress : Address → Type 0
IsAddress (direct k) = k < nr_direct_blocks
IsAddress (indirect k) = k < nr_indirect_blocks
IsAddress (doubly i j) = (i < nr_indirect_blocks) × (j < nr_indirect_blocks)

-- The logical blocks in the order of the tree
abbrev pub number : Address → ℕ
number (direct k) = k
number (indirect k) = nr_direct_blocks + k
number (doubly i j) = nr_direct_blocks + nr_indirect_blocks + (i * nr_indirect_blocks + j)

-- The number at an index of a block that may be missing
abbrev pub child : Device → ℤ → ℤ → ℕ → ℤ
child dev missing (pos n) k = if ltb 0 n then int_at (read_blocks dev n) k else missing
child dev missing (negsuc n) k = missing

-- The physical block at an address
abbrev pub physical : Device → Dinode → Address → ℤ
physical dev inode (direct k) = inode.i_block_nr k
physical dev inode (indirect k) = child dev (pos 0) inode.i_indirect k
physical dev inode (doubly i j) =
    let second = child dev (pos 0) inode.i_dindirect i in child dev second second j

-- What a physical block holds: a missing block reads as zeros.
abbrev pub content : Device → ℤ → ℕ → ℕ
content dev (pos n) = if ltb 0 n then read_blocks dev n else zeros
content dev (negsuc n) = zeros

load_lem : (dev : Device) (n : ℤ) → load dev n ≡ got n (content dev n)
unfolding load
load_lem dev (pos n) = elim (Bool-cases (ltb 0 n)) [ inl y ↦ rw y refl | inr z ↦ rw z refl ]
load_lem dev (negsuc n) = refl

first_lem :
    (dev : Device) (n : ℤ) (k : ℕ)
    → with_block dev n (λ first. load dev (int_at first k)) (load dev (pos 0))
      ≡ got (child dev (pos 0) n k) (content dev (child dev (pos 0) n k))
first_lem dev (pos n) k = elim (Bool-cases (ltb 0 n)) [
  | inl y ↦ rw y (load_lem dev (int_at (read_blocks dev n) k))
  | inr z ↦ rw z (load_lem dev (pos 0))
]
first_lem dev (negsuc n) k = load_lem dev (pos 0)

third_lem :
    (dev : Device) (n : ℤ) (j : ℕ)
    → with_block dev n (λ third. load dev (int_at third j)) (got n zeros)
      ≡ got (child dev n n j) (content dev (child dev n n j))
third_lem dev (pos n) j = elim (Bool-cases (ltb 0 n)) [
  | inl y ↦ rw y (load_lem dev (int_at (read_blocks dev n) j))
  | inr z ↦ rw z (rw z refl)
]
third_lem dev (negsuc n) j = refl

second_lem :
    (dev : Device) (n : ℤ) (i j : ℕ)
    → ltb i (block_size / 4) ≡ true
    → with_block dev n
        (λ second.
          if ltb i (block_size / 4)
          then with_block dev
              (int_at second i)
              (λ third. load dev (int_at third j))
              (got (int_at second i) zeros)
          else overrun)
        (got (pos 0) zeros)
      ≡ got
          (child dev (child dev (pos 0) n i) (child dev (pos 0) n i) j)
          (content dev (child dev (child dev (pos 0) n i) (child dev (pos 0) n i) j))
second_lem dev (pos n) i j l = elim (Bool-cases (ltb 0 n)) [
  | inl y ↦ rw (y, l) (third_lem dev (int_at (read_blocks dev n) i) j)
  | inr z ↦ rw z refl
]
second_lem dev (negsuc n) i j l = refl

read_indirect_lem :
    (dev : Device) (inode : Dinode) (k : ℕ)
    → read_indirect dev inode k
      ≡ got (physical dev inode (indirect k)) (content dev (physical dev inode (indirect k)))
unfolding read_indirect
read_indirect_lem dev inode k = first_lem dev inode.i_indirect k

read_doubly_lem :
    (dev : Device) (inode : Dinode) (i j : ℕ)
    → i < nr_indirect_blocks
    → j < nr_indirect_blocks
    → read_doubly dev inode (i * nr_indirect_blocks + j)
      ≡ got (physical dev inode (doubly i j)) (content dev (physical dev inode (doubly i j)))
unfolding read_doubly
read_doubly_lem dev inode i j a b =
    let quotient : (i * nr_indirect_blocks + j) / (block_size / 4) ≡ i = omega arith in
    let remainder : (i * nr_indirect_blocks + j) % (block_size / 4) ≡ j = omega arith in
    rw (quotient, remainder) (second_lem dev inode.i_dindirect i j (ground arith))

-- At the number of an address `testfs_read_block` returns the physical block at that address and reads
-- its content; a block that the tree does not have reads as zeros.
pub read_block_at :
    (dev : Device) (inode : Dinode) (a : Address) (block : ℕ → ℕ)
    → IsAddress a
    → testfs_read_block dev inode (number a) block
      ≡ got (physical dev inode a) (content dev (physical dev inode a))
unfolding testfs_read_block
read_block_at dev inode (direct k) block v =
    let t1 : ltb max_file_size k ≡ false = ground arith in
    let t2 : ltb k nr_direct_blocks ≡ true = ground arith in
    rw (t1, t2) (load_lem dev (inode.i_block_nr k))
read_block_at dev inode (indirect k) block v =
    let t1 : ltb max_file_size (nr_direct_blocks + k) ≡ false = ground arith in
    let t2 : ltb (nr_direct_blocks + k) nr_direct_blocks ≡ false = ground arith in
    let t3 : nr_direct_blocks + k - nr_direct_blocks ≡ k = omega arith in
    let t4 : ltb k nr_indirect_blocks ≡ true = ground arith in
    rw (t1, t2, t3, t4) (read_indirect_lem dev inode k)
read_block_at dev inode (doubly i j) block (a, b) =
    let offset : ℕ = i * nr_indirect_blocks + j in
    let log : ℕ = nr_direct_blocks + nr_indirect_blocks + offset in
    let t1 : ltb max_file_size log ≡ false = ground arith in
    let t2 : ltb log nr_direct_blocks ≡ false = ground arith in
    let t3 : ltb (log - nr_direct_blocks) nr_indirect_blocks ≡ false = ground arith in
    let t4 : log - nr_direct_blocks - nr_indirect_blocks ≡ offset = omega arith in
    rw (t1, t2, t3, t4) (read_doubly_lem dev inode i j a b)

-- The logical block MAX_FILE_SIZE passes the check of the size: where the file has a doubly indirect
-- block the code reads behind the end of the buffer that holds it.
pub read_block_overrun :
    (dev : Device) (inode : Dinode) (d : ℕ) (block : ℕ → ℕ)
    → 0 < d
    → inode.i_dindirect ≡ pos d
    → testfs_read_block dev inode max_file_size block ≡ overrun
unfolding testfs_read_block read_doubly
read_block_overrun dev inode d block l e =
    let some : ltb 0 d ≡ true = ground arith in rw (e, read_doubly) (rw some refl)
