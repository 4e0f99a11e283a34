-- ===== src/Fs/Bitmap/Alloc.antt =====
-- bitmap_alloc (fs/bitmap.c).
use operating_system_ece.Common.{
  ℕ, zero, suc, ◌+◌, ◌*◌, ◌<◌, ◌≤◌, ◌≡◌, ◌≢◌, refl, true, false, Option, none, some, arith, ltb,
  ◌==◌, update, Bool-cases, inl, inr, subst,
}
use operating_system_ece.Fs.Bitmap.{
  Bitmap, Run, done, failed, aborted, bits_per_word, word_allbits, word_of, offset_of, test_bit,
  set_bit, bitmap_isset, free_offset, take_offset, alloc_from, bitmap_alloc,
}
use operating_system_ece.Fs.Bitmap.Words.{full_bits, full_of_bits}
use operating_system_ece.Fs.Bitmap.Bits.{IsBitmap, Writes, words, set-Writes}

-- The first clear offset from `from` on.
record FirstClear (w from o : ℕ) : Type 0 where
  reached : from ≤ o
  clear : test_bit w o ≡ false
  before : (j : ℕ) → from ≤ j → j < o → test_bit w j ≡ true

abbrev Offset : ℕ → ℕ → ℕ → Option ℕ → Type 0
Offset w from rounds none = (j : ℕ) → from ≤ j → j < from + rounds → test_bit w j ≡ true
Offset w from rounds (some o) = FirstClear w from o × (o < from + rounds)

free_offset_lem : (rounds from w : ℕ) → Offset w from rounds (free_offset rounds from w)
unfolding free_offset
free_offset_lem zero from w = λ j a b. absurd (omega arith)
free_offset_lem (suc rounds) from w = elim (Bool-cases (test_bit w from)) [
  | inr n ↦ rw n (
    record { reached = omega arith; clear = n; before = λ j a b. absurd (omega arith) },
    omega arith,
  )
  | inl y ↦ rw y (further (free_offset rounds (from + 1) w) (free_offset_lem rounds (from + 1) w) y)
]
  where
    at_or_above :
        (j : ℕ)
        → from ≤ j
        → test_bit w from ≡ true
        → (from + 1 ≤ j → test_bit w j ≡ true)
        → test_bit w j ≡ true
    at_or_above j a y above = elim (Bool-cases (j == from)) [
      | inl e ↦ let here : from ≡ j = ground arith in rw here at y
      | inr n ↦ above (ground arith)
    ]

    further :
        (r : Option ℕ)
        → Offset w (from + 1) rounds r
        → test_bit w from ≡ true
        → Offset w from (suc rounds) r
    further none h y = λ j a b. at_or_above j a y (λ l. h j l (omega arith))
    further (some o) (h, l) y = (
      record {
        reached = omega (arith, h.reached);
        clear = h.clear;
        before = λ j a b. at_or_above j a y (λ l. h.before j l b);
      },
      omega arith,
    )

-- What `bitmap_alloc` does: it sets the first clear bit and returns its index, or there is none.
abbrev pub Allocates : Bitmap → Run (ℕ × Bitmap) → Type 0
Allocates b (done (i, b')) =
    (i < b.nbits)
    × (bitmap_isset b i ≡ false)
    × ((j : ℕ) → j < i → bitmap_isset b j ≡ true)
    × Writes b b' i true
Allocates b failed = (j : ℕ) → j < b.nbits → bitmap_isset b j ≡ true
Allocates b aborted = ⊥

isset-at :
    (b : Bitmap) (ix o : ℕ)
    → o < bits_per_word
    → bitmap_isset b (ix * bits_per_word + o) ≡ test_bit (b.v ix) o
unfolding bitmap_isset
isset-at b ix o l =
    let word : word_of (ix * bits_per_word + o) ≡ ix = omega arith in
    let offset : offset_of (ix * bits_per_word + o) ≡ o = omega arith in rw (word, offset) refl

-- Setting bit `o` of word `ix`
set_at-Writes :
    (b : Bitmap) (ix o : ℕ)
    → IsBitmap b
    → o < bits_per_word
    → Writes b (record b { v = update b.v ix (set_bit (b.v ix) o) }) (ix * bits_per_word + o) true
set_at-Writes b ix o h l =
    let word : word_of (ix * bits_per_word + o) ≡ ix = omega arith in
    let offset : offset_of (ix * bits_per_word + o) ≡ o = omega arith in
    subst
      (λ x.
        Writes b (record b { v = update b.v x (set_bit (b.v x) o) }) (ix * bits_per_word + o) true)
      word
      (subst
        (λ x.
          Writes b
            (record b {
              v =
                  update b.v (word_of (ix * bits_per_word + o))
                    (set_bit (b.v (word_of (ix * bits_per_word + o))) x);
            })
            (ix * bits_per_word + o) true)
        offset (set-Writes b (ix * bits_per_word + o) h))

module _ (b : Bitmap) (h : IsBitmap b) where
  -- The bits of a word, of which those before it are set.
  next_word :
      (ix : ℕ)
      → ((j : ℕ) → j < ix * bits_per_word → bitmap_isset b j ≡ true)
      → b.v ix ≡ word_allbits
      → (j : ℕ) → j < (ix + 1) * bits_per_word
      → bitmap_isset b j ≡ true
  unfolding bitmap_isset
  next_word ix before full j l = elim (Bool-cases (ltb j (ix * bits_per_word))) [
    | inl y ↦ before j (ground arith)
    | inr n ↦
        let here : word_of j ≡ ix = ground arith in
        rw here (full_bits (b.v ix) (offset_of j) (h.bytes ix) full (omega arith))
  ]

  earlier :
      (ix o : ℕ)
      → ((j : ℕ) → j < ix * bits_per_word → bitmap_isset b j ≡ true)
      → FirstClear (b.v ix) 0 o
      → o < bits_per_word
      → (j : ℕ) → j < ix * bits_per_word + o
      → bitmap_isset b j ≡ true
  unfolding bitmap_isset
  earlier ix o before first small j l = elim (Bool-cases (ltb j (ix * bits_per_word))) [
    | inl y ↦ before j (ground arith)
    | inr n ↦
        let at : ix * bits_per_word ≤ j = ground arith in
        let here : word_of j ≡ ix = omega arith in
        rw here (first.before (offset_of j) (omega arith) (omega arith))
  ]

  take_offset-Allocates :
      (ix : ℕ) (r : Option ℕ)
      → ix < words b
      → ((j : ℕ) → j < ix * bits_per_word → bitmap_isset b j ≡ true)
      → b.v ix ≢ word_allbits
      → Offset (b.v ix) 0 bits_per_word r
      → Allocates b (take_offset b ix r)
  unfolding take_offset
  take_offset-Allocates ix none lt before part all =
      part (full_of_bits (b.v ix) (h.bytes ix) (λ o l. all o (omega arith) (omega arith)))
  take_offset-Allocates ix (some o) lt before part (first, l) =
      let index : ℕ = ix * bits_per_word + o in
      let clear : bitmap_isset b index ≡ false = rw (isset-at b ix o (omega arith)) first.clear in
      elim (Bool-cases (ltb index b.nbits)) [
        | inl y ↦ rw y (
          ground arith,
          clear,
          earlier ix o before first (omega arith),
          set_at-Writes b ix o h (omega arith),
        )
        | inr n ↦
            let taken : bitmap_isset b index ≡ true =
              h.leftover index (ground arith) (omega arith) in
            absurd (grind arith)
      ]

  alloc_from-Allocates :
      (rounds ix : ℕ)
      → ix + rounds ≡ words b
      → ((j : ℕ) → j < ix * bits_per_word → bitmap_isset b j ≡ true)
      → Allocates b (alloc_from rounds ix b)
  unfolding alloc_from
  alloc_from-Allocates zero ix e before = λ j l. before j (omega (arith, h.small))
  alloc_from-Allocates (suc rounds) ix e before = elim (Bool-cases (b.v ix == word_allbits)) [
    | inl y ↦
        rw y
          (alloc_from-Allocates rounds (ix + 1) (omega arith) (next_word ix before (ground arith)))
    | inr n ↦ rw n (
        take_offset-Allocates ix (free_offset bits_per_word 0 (b.v ix)) (omega arith) before
          (ground arith) (free_offset_lem bits_per_word 0 (b.v ix)))
  ]

-- `bitmap_alloc` sets the lowest clear bit of a valid bitmap, and no other, and returns its index,
-- which is in range; it returns -ENOSPC only if every bit is set, and no assertion fails.
pub bitmap_alloc_lem : (b : Bitmap) → IsBitmap b → Allocates b (bitmap_alloc b)
unfolding bitmap_alloc
bitmap_alloc_lem b h =
    alloc_from-Allocates b h (words b) 0 (omega arith) (λ j l. absurd (omega arith))
