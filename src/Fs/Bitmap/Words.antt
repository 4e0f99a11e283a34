-- ===== src/Fs/Bitmap/Words.antt =====
-- One byte of a bitmap (fs/bitmap.c): what its bits are after a bit is set or cleared.
use operating_system_ece.Common.{
  ℕ, zero, suc, ◌+◌, ◌<◌, ◌≤◌, ◌≡◌, refl, Bool, true, false, not, ◌&&◌, ◌||◌, ltb, ◌==◌, arith,
  if◌then◌else◌, Bool-cases, inl, inr,
}
use operating_system_ece.Fs.Bitmap.{test_bit, set_bit, clear_bit, word_allbits}

-- A test holds of every number from `from` up to `from + count`.
every : (ℕ → Bool) → ℕ → ℕ → Bool
every test from zero = true
every test from (suc count) = if test from then every test (from + 1) count else false

every-at :
    (test : ℕ → Bool) (count from k : ℕ)
    → from ≤ k
    → k < from + count
    → every test from count ≡ true
    → test k ≡ true
unfolding every
every-at test zero from k a b h = absurd (omega arith)
every-at test (suc count) from k a b h = elim (Bool-cases (k == from)) [
  | inl y ↦ let here : k ≡ from = ground arith in rw here (ground arith)
  | inr n ↦ every-at test count (from + 1) k (ground arith) (omega arith) (ground arith)
]

-- Two truth values are the same.
abbrev same : Bool → Bool → Bool
same true b = b
same false b = not b

same→eq : (a b : Bool) → same a b ≡ true → a ≡ b
same→eq true true h = refl
same→eq true false h = cc
same→eq false true h = cc
same→eq false false h = refl

-- All that is needed of a byte `w` and two offsets.
abbrev byte_law : ℕ → ℕ → ℕ → Bool
byte_law w o p =
    same (test_bit (set_bit w o) p) ((p == o) || test_bit w p)
    && same (test_bit (clear_bit w o) p) (not (p == o) && test_bit w p)
    && ltb (set_bit w o) 256
    && ltb (clear_bit w o) 256

byte_table : every (λ w. every (λ o. every (λ p. byte_law w o p) 0 8) 0 8) 0 256 ≡ true
unfolding every test_bit set_bit clear_bit
byte_table = refl

byte_lem : (w o p : ℕ) → w < 256 → o < 8 → p < 8 → byte_law w o p ≡ true
byte_lem w o p hw ho hp =
    let of_word =
      every-at (λ w. every (λ o. every (λ p. byte_law w o p) 0 8) 0 8) 256 0 w (omega arith)
        (omega arith) byte_table in
    let of_offset =
      every-at (λ o. every (λ p. byte_law w o p) 0 8) 8 0 o (omega arith) (omega arith) of_word in
    every-at (λ p. byte_law w o p) 8 0 p (omega arith) (omega arith) of_offset

-- What a byte is after one of its bits is set or cleared.
pub record ByteLaws (w o p : ℕ) : Type 0 where
  pub set : test_bit (set_bit w o) p ≡ ((p == o) || test_bit w p)
  pub clear : test_bit (clear_bit w o) p ≡ (not (p == o) && test_bit w p)
  pub set_byte : set_bit w o < 256
  pub clear_byte : clear_bit w o < 256

split_and : (a b : Bool) → (a && b) ≡ true → (a ≡ true) × (b ≡ true)
split_and a b h = ground arith

pub byte_laws : (w o p : ℕ) → w < 256 → o < 8 → p < 8 → ByteLaws w o p
byte_laws w o p hw ho hp =
    let all = byte_lem w o p hw ho hp in
    let (abc, d) =
      split_and
        (same (test_bit (set_bit w o) p) ((p == o) || test_bit w p)
          && same (test_bit (clear_bit w o) p) (not (p == o) && test_bit w p)
          && ltb (set_bit w o) 256)
        (ltb (clear_bit w o) 256) all in
    let (ab, c) =
      split_and
        (same (test_bit (set_bit w o) p) ((p == o) || test_bit w p)
          && same (test_bit (clear_bit w o) p) (not (p == o) && test_bit w p))
        (ltb (set_bit w o) 256) abc in
    let (a, b) =
      split_and (same (test_bit (set_bit w o) p) ((p == o) || test_bit w p))
        (same (test_bit (clear_bit w o) p) (not (p == o) && test_bit w p)) ab in
    record {
      set = same→eq _ _ a;
      clear = same→eq _ _ b;
      set_byte = ground (arith, c);
      clear_byte = ground (arith, d);
    }

-- A byte with all its bits set is 0xff, and the other way round.
abbrev full_law : ℕ → Bool
full_law w = same (w == word_allbits) (every (test_bit w) 0 8)

full_table : every full_law 0 256 ≡ true
unfolding every test_bit
full_table = refl

full_lem : (w : ℕ) → w < 256 → (w == word_allbits) ≡ every (test_bit w) 0 8
full_lem w hw =
    same→eq (w == word_allbits) (every (test_bit w) 0 8)
      (every-at full_law 256 0 w (omega arith) (omega arith) full_table)

every-intro :
    (test : ℕ → Bool) (count from : ℕ)
    → ((k : ℕ) → k < from + count → test k ≡ true)
    → every test from count ≡ true
unfolding every
every-intro test zero from h = refl
every-intro test (suc count) from h =
    rw (h from (omega arith)) (every-intro test count (from + 1) (λ k l. h k (omega arith)))

pub full_bits : (w o : ℕ) → w < 256 → w ≡ word_allbits → o < 8 → test_bit w o ≡ true
full_bits w o hw e ho =
    let law = full_lem w hw in
    every-at (test_bit w) 8 0 o (omega arith) (omega arith) (ground (arith, law))

pub full_of_bits : (w : ℕ) → w < 256 → ((o : ℕ) → o < 8 → test_bit w o ≡ true) → w ≡ word_allbits
full_of_bits w hw h =
    let law = full_lem w hw in
    let all = every-intro (test_bit w) 8 0 (λ k l. h k (omega arith)) in ground (arith, law, all)

zero_table : every (λ p. not (test_bit 0 p)) 0 8 ≡ true
unfolding every test_bit
zero_table = refl

pub zero_bits : (p : ℕ) → p < 8 → test_bit 0 p ≡ false
zero_bits p l =
    let clear = every-at (λ p. not (test_bit 0 p)) 8 0 p (omega arith) (omega arith) zero_table in
    ground arith
