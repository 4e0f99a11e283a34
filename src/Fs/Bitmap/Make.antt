-- ===== src/Fs/Bitmap/Make.antt =====
-- bitmap_create (fs/bitmap.c).
use operating_system_ece.Common.{
  ℕ, zero, suc, ◌+◌, ◌-◌, ◌*◌, ◌/◌, ◌^◌, ◌<◌, ◌≤◌, ◌≡◌, refl, Bool, true, false, ◌&&◌, ◌||◌, arith,
  ltb, leb, ◌==◌, update, Bool-cases, inl, inr, ◌∙◌,
}
use operating_system_ece.Fs.Bitmap.{
  Bitmap, Run, done, failed, aborted, bits_per_word, word_of, offset_of, test_bit, set_bit,
  divroundup, bitmap_isset, bitmap_create, mark_leftover,
}
use operating_system_ece.Fs.Bitmap.Words.{byte_laws, zero_bits}
use operating_system_ece.Fs.Bitmap.Bits.{IsBitmap}

mark_leftover-byte : (rounds j w : ℕ) → w < 256 → j + rounds ≤ 8 → mark_leftover rounds j w < 256
unfolding mark_leftover
mark_leftover-byte zero j w h l = h
mark_leftover-byte (suc rounds) j w h l =
    let law = byte_laws w j 0 h (omega arith) (omega arith) in
    mark_leftover-byte rounds (j + 1) (set_bit w j) law.set_byte (omega arith)

mark_leftover-bit :
    (rounds j w p : ℕ)
    → w < 256
    → j + rounds ≤ 8
    → p < 8
    → test_bit (mark_leftover rounds j w) p ≡ ((leb j p && ltb p (j + rounds)) || test_bit w p)
unfolding mark_leftover
mark_leftover-bit zero j w p h l lp = ground arith
mark_leftover-bit (suc rounds) j w p h l lp =
    let law = byte_laws w j p h (omega arith) lp in
    let rest = mark_leftover-bit rounds (j + 1) (set_bit w j) p law.set_byte (omega arith) lp in
    rest ∙ ground (arith, law.set)

-- An empty bitmap whose last word has its bits from `over` on marked.
abbrev marked : ℕ → ℕ → ℕ → Bitmap
marked nbits ix over = record {
  nbits = nbits;
  v = update (λ i. 0) ix (mark_leftover (bits_per_word - over) over 0);
}

module _ (nbits ix over : ℕ) (e : nbits ≡ ix * bits_per_word + over) (some_over : 0 < over)
    (part : over < bits_per_word) where
  marked-bit :
      (i : ℕ) → i < (ix + 1) * bits_per_word → bitmap_isset (marked nbits ix over) i ≡ leb nbits i
  unfolding bitmap_isset
  marked-bit i l = elim (Bool-cases (word_of i == ix)) [
    | inl y ↦
        let bit =
          mark_leftover-bit (bits_per_word - over) over 0 (offset_of i) (omega arith) (omega arith)
            (omega arith) in
        rw (y, bit, zero_bits (offset_of i) (omega arith)) (ground arith)
    | inr n ↦ rw (n, zero_bits (offset_of i) (omega arith)) (ground arith)
  ]

  marked-IsBitmap : nbits + 7 < 2 ^ 32 → IsBitmap (marked nbits ix over)
  marked-IsBitmap small = record {
    bytes = λ i.
        ground
          (arith, mark_leftover-byte (bits_per_word - over) over 0 (omega arith) (omega arith));
    small = small;
    leftover = λ i a l. marked-bit i (omega arith) ∙ ground arith;
  }

unset : (nbits i : ℕ) → bitmap_isset (record { nbits = nbits; v = λ i. 0 }) i ≡ false
unfolding bitmap_isset
unset nbits i = zero_bits (offset_of i) (omega arith)

-- What `bitmap_create` ends with.
abbrev pub Creates : Bool → Bool → ℕ → Run Bitmap → Type 0
Creates first second nbits (done b) =
    IsBitmap b
    × (b.nbits ≡ nbits)
    × ((i : ℕ) → i < nbits → bitmap_isset b i ≡ false)
    × (first && second ≡ true)
Creates first second nbits failed = (first && second) ≡ false
Creates first second nbits aborted = ⊥

-- `bitmap_create` of a size that can be rounded up to words in 32 bits makes a valid bitmap of that
-- size with every bit clear; it returns -ENOMEM exactly when one of the two allocations fails, and
-- no assertion fails.
pub bitmap_create_lem :
    (first second : Bool) (nbits : ℕ)
    → nbits + 7 < 2 ^ 32
    → Creates first second nbits (bitmap_create first second nbits)
unfolding bitmap_create
bitmap_create_lem false second nbits small = refl
bitmap_create_lem true false nbits small = refl
bitmap_create_lem true true nbits small =
    elim (Bool-cases (ltb (nbits / bits_per_word) (divroundup nbits bits_per_word))) [
      | inl part ↦
          let ix : ℕ = divroundup nbits bits_per_word - 1 in
          let over : ℕ = nbits - ix * bits_per_word in
          let e : nbits ≡ ix * bits_per_word + over = ground arith in
          let some_over : 0 < over = ground arith in
          let below : over < bits_per_word = ground arith in
          let t2 : (nbits / bits_per_word == ix) ≡ true = ground arith in
          let t3 : ltb 0 over ≡ true = ground arith in
          let t4 : ltb over bits_per_word ≡ true = ground arith in
          rw (part, t2, t3, t4)
            (
              marked-IsBitmap nbits ix over e some_over below small,
              refl,
              (λ i l. marked-bit nbits ix over e some_over below i (omega arith) ∙ ground arith),
              refl,
            )
      | inr whole ↦ rw whole (
        record {
          bytes = λ i. omega arith;
          small = small;
          leftover = λ i a l. absurd (ground arith);
        },
        refl,
        (λ i l. unset nbits i),
        refl,
      )
    ]
