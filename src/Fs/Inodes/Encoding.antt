-- ===== src/Fs/Inodes/Encoding.antt =====
-- The inodes on the device (fs/inode.c): reading one back after it was stored.
use operating_system_ece.Common.{
  ℕ, ◌+◌, ◌-◌, ◌*◌, ◌/◌, ◌%◌, ◌^◌, ◌<◌, ◌≤◌, ◌≡◌, ◌≢◌, refl, true, false, ltb, ◌==◌, ℤ, pos, negsuc,
  arith, if◌then◌else◌, Bool-cases, inl, inr, ◌∙◌, ap, sym, subst,
}
use operating_system_ece.Fs.Device.{block_size}
use operating_system_ece.Fs.Inode.{Dinode, nr_direct_blocks, to_int, to_word, byte_of, int_at}
use operating_system_ece.Fs.Inode.Numbers.{
  IsInt, int_at-same, to_int-to_word, to_word-lt, bytes_lem,
}
use operating_system_ece.Fs.Inodes.{
  inodes_per_block, to_long, long_word, dinode_at, dinode_word, store_dinode,
}

-- The values of an `off_t`
abbrev pub IsLong : ℤ → Type 0
IsLong (pos n) = n < 2 ^ 63
IsLong (negsuc n) = n < 2 ^ 63

-- The members have the values of their types.
pub record IsDinode (d : Dinode) : Type 0 where
  pub type_int : IsInt d.i_type
  pub direct_int : (k : ℕ) → k < nr_direct_blocks → IsInt (d.i_block_nr k)
  pub indirect_int : IsInt d.i_indirect
  pub dindirect_int : IsInt d.i_dindirect
  pub count_int : IsInt d.block_count
  pub size_long : IsLong d.i_size

-- The members are the same.
pub record SameDinode (d d' : Dinode) : Type 0 where
  pub same_type : d.i_type ≡ d'.i_type
  pub same_direct : (k : ℕ) → k < nr_direct_blocks → d.i_block_nr k ≡ d'.i_block_nr k
  pub same_indirect : d.i_indirect ≡ d'.i_indirect
  pub same_dindirect : d.i_dindirect ≡ d'.i_dindirect
  pub same_count : d.block_count ≡ d'.block_count
  pub same_size : d.i_size ≡ d'.i_size

store_dinode-byte :
    (block : ℕ → ℕ) (index k offset i : ℕ) (d : Dinode)
    → i ≡ 4 * k + offset
    → offset < 4
    → store_dinode block index d i
      ≡ (if k / 16 == index then byte_of (to_word (dinode_word d (k % 16))) offset else block i)
unfolding store_dinode
store_dinode-byte block index k offset i d e l =
    let one : i / 64 ≡ k / 16 = omega arith in
    let two : i / 4 % 16 ≡ k % 16 = omega arith in
    let three : i % 4 ≡ offset = omega arith in rw (one, two, three) refl

-- A word of the stored inode, and a word of another one
word-here :
    (block : ℕ → ℕ) (index k : ℕ) (d : Dinode)
    → k / 16 ≡ index
    → IsInt (dinode_word d (k % 16))
    → int_at (store_dinode block index d) k ≡ dinode_word d (k % 16)
unfolding int_at
word-here block index k d e h =
    let byte = λ (offset : ℕ) (e : offset < 4).
      store_dinode-byte block index k offset (4 * k + offset) d refl e in
    let b0 = store_dinode-byte block index k 0 (4 * k) d (omega arith) (omega arith) in
    let y : (k / 16 == index) ≡ true = ground arith in
    rw (b0, byte 1 (omega arith), byte 2 (omega arith), byte 3 (omega arith), y)
      (ap to_int
          (bytes_lem (to_word (dinode_word d (k % 16))) (to_word-lt (dinode_word d (k % 16)) h))
        ∙ to_int-to_word (dinode_word d (k % 16)) h)

word-other :
    (block : ℕ → ℕ) (index k : ℕ) (d : Dinode)
    → k / 16 ≢ index
    → int_at (store_dinode block index d) k ≡ int_at block k
unfolding int_at
word-other block index k d ne =
    let byte = λ (offset : ℕ) (e : offset < 4).
      store_dinode-byte block index k offset (4 * k + offset) d refl e in
    let b0 = store_dinode-byte block index k 0 (4 * k) d (omega arith) (omega arith) in
    let z : (k / 16 == index) ≡ false = ground arith in
    rw (b0, byte 1 (omega arith), byte 2 (omega arith), byte 3 (omega arith), z) refl

word_lem :
    (block : ℕ → ℕ) (index w k : ℕ) (n : ℤ) (d : Dinode)
    → k ≡ 16 * index + w
    → w < 16
    → dinode_word d w ≡ n
    → IsInt n
    → int_at (store_dinode block index d) k ≡ n
word_lem block index w k n d e l same h =
    let place : k % 16 ≡ w = omega arith in
    let at : dinode_word d (k % 16) ≡ n = ap (dinode_word d) place ∙ same in
    word-here block index k d (omega arith) (subst IsInt (sym at) h) ∙ at

to_word-to_int : (w : ℕ) → w < 2 ^ 32 → to_word (to_int w) ≡ w
to_word-to_int w l = elim (Bool-cases (ltb w (2 ^ 31))) [
  | inl y ↦ rw y (omega arith)
  | inr z ↦ let big : 2 ^ 31 ≤ w = ground arith in rw z (omega arith)
]

to_int-IsInt : (w : ℕ) → w < 2 ^ 32 → IsInt (to_int w)
to_int-IsInt w l = elim (Bool-cases (ltb w (2 ^ 31))) [
  | inl y ↦ let small : w < 2 ^ 31 = ground arith in rw y small
  | inr z ↦ let big : 2 ^ 31 ≤ w = ground arith in rw z (omega arith)
]

to_long-long_word : (n : ℤ) → IsLong n → to_long (long_word n) ≡ n
to_long-long_word (pos n) h = ground arith
to_long-long_word (negsuc n) h = ground arith

long_word-lt : (n : ℤ) → IsLong n → long_word n < 2 ^ 64
long_word-lt (pos n) h = omega arith
long_word-lt (negsuc n) h = omega arith

direct_word : (d : Dinode) (k : ℕ) → k < 10 → dinode_word d (1 + k) ≡ d.i_block_nr k
unfolding dinode_word
direct_word d k l =
    let one : (1 + k == 0) ≡ false = ground arith in
    let two : ltb (1 + k) 11 ≡ true = ground arith in
    let three : 1 + k - 1 ≡ k = omega arith in rw (one, two, three) refl

-- An inode that is stored in a block is read back.
pub dinode_at-store_dinode :
    (block : ℕ → ℕ) (index : ℕ) (d : Dinode)
    → IsDinode d
    → SameDinode (dinode_at (store_dinode block index d) index) d
unfolding dinode_at dinode_word
dinode_at-store_dinode block index d h = record {
  same_type =
      word_lem block index 0 (16 * index) d.i_type d (omega arith) (omega arith) refl h.type_int;
  same_direct = λ k l.
      word_lem block index (1 + k) (16 * index + 1 + k) (d.i_block_nr k) d (omega arith)
        (omega arith) (direct_word d k l) (h.direct_int k l);
  same_indirect =
      word_lem block index 11 (16 * index + 11) d.i_indirect d refl (omega arith) refl
        h.indirect_int;
  same_dindirect =
      word_lem block index 12 (16 * index + 12) d.i_dindirect d refl (omega arith) refl
        h.dindirect_int;
  same_count =
      word_lem block index 13 (16 * index + 13) d.block_count d refl (omega arith) refl h.count_int;
  same_size =
      let bound = long_word-lt d.i_size h.size_long in
      let low : ℕ = long_word d.i_size % 2 ^ 32 in
      let high : ℕ = long_word d.i_size / 2 ^ 32 in
      let one =
        word_lem block index 14 (16 * index + 14) (to_int low) d refl (omega arith) refl
          (to_int-IsInt low (omega arith)) in
      let two =
        word_lem block index 15 (16 * index + 15) (to_int high) d refl (omega arith) refl
          (to_int-IsInt high (omega arith)) in
      let whole : low + 2 ^ 32 * high ≡ long_word d.i_size = omega arith in
      ap
        (λ x.
          to_long
            (to_word x + 2 ^ 32 * to_word (int_at (store_dinode block index d) (16 * index + 15))))
        one
      ∙ ap (λ x. to_long (to_word (to_int low) + 2 ^ 32 * to_word x)) two
      ∙ ap (λ x. to_long (x + 2 ^ 32 * to_word (to_int high))) (to_word-to_int low (omega arith))
      ∙ ap (λ x. to_long (low + 2 ^ 32 * x)) (to_word-to_int high (omega arith))
      ∙ ap to_long whole
      ∙ to_long-long_word d.i_size h.size_long;
}

-- The other inodes of the block are as they were.
pub dinode_at-other :
    (block : ℕ → ℕ) (index other : ℕ) (d : Dinode)
    → other ≢ index
    → SameDinode (dinode_at (store_dinode block index d) other) (dinode_at block other)
unfolding dinode_at
dinode_at-other block index other d ne = record {
  same_type = word-other block index (16 * other) d (λ e. ne (omega arith));
  same_direct = λ k l. word-other block index (16 * other + 1 + k) d (λ e. ne (omega arith));
  same_indirect = word-other block index (16 * other + 11) d (λ e. ne (omega arith));
  same_dindirect = word-other block index (16 * other + 12) d (λ e. ne (omega arith));
  same_count = word-other block index (16 * other + 13) d (λ e. ne (omega arith));
  same_size =
      ap
        (λ x.
          to_long
            (to_word x + 2 ^ 32 * to_word (int_at (store_dinode block index d) (16 * other + 15))))
        (word-other block index (16 * other + 14) d (λ e. ne (omega arith)))
      ∙ ap (λ x. to_long (to_word (int_at block (16 * other + 14)) + 2 ^ 32 * to_word x))
          (word-other block index (16 * other + 15) d (λ e. ne (omega arith)));
}

-- Blocks with the same bytes have the same inodes.
pub dinode_at-same :
    (a b : ℕ → ℕ) (index : ℕ)
    → ((i : ℕ) → i < block_size → a i ≡ b i)
    → index < inodes_per_block
    → SameDinode (dinode_at a index) (dinode_at b index)
unfolding dinode_at
dinode_at-same a b index h l = record {
  same_type = int_at-same a b (16 * index) h (omega arith);
  same_direct = λ k m. int_at-same a b (16 * index + 1 + k) h (omega arith);
  same_indirect = int_at-same a b (16 * index + 11) h (omega arith);
  same_dindirect = int_at-same a b (16 * index + 12) h (omega arith);
  same_count = int_at-same a b (16 * index + 13) h (omega arith);
  same_size =
      ap (λ x. to_long (to_word x + 2 ^ 32 * to_word (int_at a (16 * index + 15))))
        (int_at-same a b (16 * index + 14) h (omega arith))
      ∙ ap (λ x. to_long (to_word (int_at b (16 * index + 14)) + 2 ^ 32 * to_word x))
          (int_at-same a b (16 * index + 15) h (omega arith));
}

pub SameDinode-trans : (a b c : Dinode) → SameDinode a b → SameDinode b c → SameDinode a c
SameDinode-trans a b c f g = record {
  same_type = f.same_type ∙ g.same_type;
  same_direct = λ k l. f.same_direct k l ∙ g.same_direct k l;
  same_indirect = f.same_indirect ∙ g.same_indirect;
  same_dindirect = f.same_dindirect ∙ g.same_dindirect;
  same_count = f.same_count ∙ g.same_count;
  same_size = f.same_size ∙ g.same_size;
}
