-- ===== src/Fs/Inode/Numbers.antt =====
-- The numbers in a block (fs/inode.h, fs/read_write.c): reading them back after a write.
use operating_system_ece.Common.{
  ℕ, ◌+◌, ◌*◌, ◌/◌, ◌%◌, ◌^◌, ◌<◌, ◌≡◌, refl, ◌∙◌, ◌==◌, ℤ, pos, negsuc, arith, ap, if◌then◌else◌,
  Bool-cases, inl, inr,
}
use operating_system_ece.Fs.Device.{block_size}
use operating_system_ece.Fs.Inode.{int_at, store_int, to_int, to_word, byte_of, nr_indirect_blocks}
use operating_system_ece.Fs.Read.{zeros}

-- The values of an `int`
abbrev pub IsInt : ℤ → Type 0
IsInt (pos n) = n < 2 ^ 31
IsInt (negsuc n) = n < 2 ^ 31

pub to_int-to_word : (n : ℤ) → IsInt n → to_int (to_word n) ≡ n
to_int-to_word (pos n) h = ground arith
to_int-to_word (negsuc n) h = ground arith

store_int-byte :
    (block : ℕ → ℕ) (index k offset i : ℕ) (n : ℤ)
    → i ≡ 4 * k + offset
    → offset < 4
    → store_int block index n i ≡ (if k == index then byte_of (to_word n) offset else block i)
unfolding store_int
store_int-byte block index k offset i n e l =
    let quotient : i / 4 ≡ k = omega arith in
    let remainder : i % 4 ≡ offset = omega arith in rw (quotient, remainder) refl

pub to_word-lt : (n : ℤ) → IsInt n → to_word n < 2 ^ 32
to_word-lt (pos n) h = omega arith
to_word-lt (negsuc n) h = omega arith

pub bytes_lem :
    (w : ℕ)
    → w < 2 ^ 32
    → byte_of w 0 + 256 * byte_of w 1 + 65536 * byte_of w 2 + 16777216 * byte_of w 3 ≡ w
bytes_lem w h = omega arith

-- A number of 32 bits that was stored in a block, negative ones included, is read back at its index; at
-- every other index the block has the number that it had.
pub int_at-store_int :
    (block : ℕ → ℕ) (index k : ℕ) (n : ℤ)
    → IsInt n
    → int_at (store_int block index n) k ≡ (if k == index then n else int_at block k)
unfolding int_at
int_at-store_int block index k n h =
    let byte = λ (offset : ℕ) (e : offset < 4).
      store_int-byte block index k offset (4 * k + offset) n refl e in
    let b0 = store_int-byte block index k 0 (4 * k) n (omega arith) (omega arith) in
    elim (Bool-cases (k == index)) [
      | inl y ↦
          rw (b0, byte 1 (omega arith), byte 2 (omega arith), byte 3 (omega arith), y)
            (ap to_int (bytes_lem (to_word n) (to_word-lt n h)) ∙ to_int-to_word n h)
      | inr z ↦ rw (b0, byte 1 (omega arith), byte 2 (omega arith), byte 3 (omega arith), z) refl
    ]

pub int_at-zeros : (k : ℕ) → int_at zeros k ≡ pos 0
unfolding int_at
int_at-zeros k = refl

-- Blocks with the same bytes have the same numbers.
pub int_at-same :
    (a b : ℕ → ℕ) (k : ℕ)
    → ((i : ℕ) → i < block_size → a i ≡ b i)
    → k < nr_indirect_blocks
    → int_at a k ≡ int_at b k
unfolding int_at
int_at-same a b k h l =
    rw
      (
        h (4 * k) (omega arith),
        h (4 * k + 1) (omega arith),
        h (4 * k + 2) (omega arith),
        h (4 * k + 3) (omega arith),
      )
      refl
