-- ===== src/Fs/Bitmap/Bits.antt =====
-- bitmap_mark and bitmap_unmark (fs/bitmap.c) bit by bit.
use operating_system_ece.Common.{
  ℕ, ◌+◌, ◌*◌, ◌^◌, ◌<◌, ◌≤◌, ◌≡◌, refl, Bool, true, false, not, arith, ltb, ◌==◌, if◌then◌else◌,
  update, Bool-cases, inl, inr, ◌⊎◌,
}
use operating_system_ece.Fs.Bitmap.{
  Bitmap, Run, done, failed, aborted, bits_per_word, word_of, offset_of, set_bit, clear_bit,
  divroundup, bitmap_isset, bitmap_mark, bitmap_unmark,
}
use operating_system_ece.Fs.Bitmap.Words.{byte_laws}

-- The number of words
abbrev pub words : Bitmap → ℕ
words b = divroundup b.nbits bits_per_word

-- Every word is a byte, the number of bits is small enough to be rounded up, and the bits behind the
-- last one are marked as in use.
pub record IsBitmap (b : Bitmap) : Type 0 where
  pub bytes : (i : ℕ) → b.v i < 256
  pub small : b.nbits + 7 < 2 ^ 32
  pub leftover : (i : ℕ) → b.nbits ≤ i → i < words b * bits_per_word → bitmap_isset b i ≡ true

-- The bitmap `b'` is `b` but for bit `i`, which is `x`.
pub record Writes (b b' : Bitmap) (i : ℕ) (x : Bool) : Type 0 where
  pub bits : (j : ℕ) → bitmap_isset b' j ≡ (if j == i then x else bitmap_isset b j)
  pub others : (j : ℕ) → (j == word_of i) ≡ false → b'.v j ≡ b.v j
  pub size : b'.nbits ≡ b.nbits
  pub valid : IsBitmap b'

isset-set :
    (b : Bitmap) (i j : ℕ)
    → ((k : ℕ) → b.v k < 256)
    → bitmap_isset
        (record b { v = update b.v (word_of i) (set_bit (b.v (word_of i)) (offset_of i)) })
        j
      ≡ (if j == i then true else bitmap_isset b j)
unfolding bitmap_isset
isset-set b i j h = ground (
  arith,
  byte_laws (b.v (word_of i)) (offset_of i) (offset_of j) (h (word_of i)) (omega arith)
      (omega arith),
)

isset-clear :
    (b : Bitmap) (i j : ℕ)
    → ((k : ℕ) → b.v k < 256)
    → bitmap_isset
        (record b { v = update b.v (word_of i) (clear_bit (b.v (word_of i)) (offset_of i)) })
        j
      ≡ (if j == i then false else bitmap_isset b j)
unfolding bitmap_isset
isset-clear b i j h = ground (
  arith,
  byte_laws (b.v (word_of i)) (offset_of i) (offset_of j) (h (word_of i)) (omega arith)
      (omega arith),
)

pub set-Writes :
    (b : Bitmap) (i : ℕ)
    → IsBitmap b
    → Writes b
        (record b { v = update b.v (word_of i) (set_bit (b.v (word_of i)) (offset_of i)) })
        i
        true
set-Writes b i h = record {
  bits = λ j. isset-set b i j h.bytes;
  others = λ j n. ground arith;
  size = refl;
  valid = record {
    bytes = λ k. ground (
      arith,
      h.bytes k,
      byte_laws (b.v (word_of i)) (offset_of i) 0 (h.bytes (word_of i)) (omega arith) (omega arith),
    );
    small = h.small;
    leftover = λ j a l. ground (arith, isset-set b i j h.bytes, h.leftover j a l);
  };
}

clear-Writes :
    (b : Bitmap) (i : ℕ)
    → IsBitmap b
    → i < b.nbits
    → Writes b
        (record b { v = update b.v (word_of i) (clear_bit (b.v (word_of i)) (offset_of i)) })
        i
        false
clear-Writes b i h lt = record {
  bits = λ j. isset-clear b i j h.bytes;
  others = λ j n. ground arith;
  size = refl;
  valid = record {
    bytes = λ k. ground (
      arith,
      h.bytes k,
      byte_laws (b.v (word_of i)) (offset_of i) 0 (h.bytes (word_of i)) (omega arith) (omega arith),
    );
    small = h.small;
    leftover = λ j a l. ground (arith, isset-clear b i j h.bytes, h.leftover j a l);
  };
}

-- What `bitmap_mark` and `bitmap_unmark` do: an index out of range, or a bit that has the new value
-- already, fails an assertion; otherwise that one bit is written.
abbrev pub Flips : Bitmap → ℕ → Bool → Run Bitmap → Type 0
Flips b i x (done b') = (i < b.nbits) × (bitmap_isset b i ≡ not x) × Writes b b' i x
Flips b i x aborted = (b.nbits ≤ i) ⊎ (bitmap_isset b i ≡ x)
Flips b i x failed = ⊥

-- `bitmap_mark` of a clear bit in range sets that bit and no other, and keeps the bitmap valid; else
-- it fails an assertion.
pub bitmap_mark_lem : (b : Bitmap) (i : ℕ) → IsBitmap b → Flips b i true (bitmap_mark b i)
unfolding bitmap_mark
bitmap_mark_lem b i h = elim (Bool-cases (ltb i b.nbits)) [
  | inl l ↦ elim (Bool-cases (bitmap_isset b i)) [
    | inl y ↦ rw (l, y) (inr y)
    | inr n ↦ rw (l, n) (ground arith, n, set-Writes b i h)
  ]
  | inr g ↦ rw g (inl (ground arith))
]

-- `bitmap_unmark` of a set bit in range clears that bit and no other, and keeps the bitmap valid;
-- else it fails an assertion.
pub bitmap_unmark_lem : (b : Bitmap) (i : ℕ) → IsBitmap b → Flips b i false (bitmap_unmark b i)
unfolding bitmap_unmark
bitmap_unmark_lem b i h = elim (Bool-cases (ltb i b.nbits)) [
  | inl l ↦ elim (Bool-cases (bitmap_isset b i)) [
    | inl y ↦ rw (l, y) (ground arith, y, clear-Writes b i h (ground arith))
    | inr n ↦ rw (l, n) (inr n)
  ]
  | inr g ↦ rw g (inl (ground arith))
]
