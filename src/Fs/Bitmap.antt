-- ===== src/Fs/Bitmap.antt =====
-- fs/bitmap.c and fs/bitmap.h: fixed-size arrays of bits.
pub mod Words
pub mod Bits
pub mod Alloc
pub mod Count
pub mod Make
use Prim.Native.Nat.{bit_and, bit_or}
use operating_system_ece.Common.{
  ℕ, zero, suc, ◌+◌, ◌-◌, ◌*◌, ◌/◌, ◌%◌, ◌^◌, Bool, true, false, not, Option, none, some, ltb, ◌==◌,
  if◌then◌else◌, update,
}

-- BITS_PER_WORD and WORD_ALLBITS
abbrev pub bits_per_word : ℕ
bits_per_word = 8

abbrev pub word_allbits : ℕ
word_allbits = 0xff

-- struct bitmap: `v` is read at the indices of its words only.
pub record Bitmap : Type 0 where
  pub nbits : ℕ
  pub v : ℕ → ℕ

-- DIVROUNDUP of fs/common.h on `u_int32_t`
abbrev pub divroundup : ℕ → ℕ → ℕ
divroundup a b = (a + b - 1) % 2 ^ 32 / b

-- `(WORD_TYPE)1 << offset`
abbrev pub mask_of : ℕ → ℕ
mask_of offset = 2 ^ offset % 2 ^ 8

-- `word & mask` as a truth value
unfoldable pub test_bit : ℕ → ℕ → Bool
test_bit word offset = not (bit_and word (mask_of offset) == 0)

unfoldable pub set_bit : ℕ → ℕ → ℕ
set_bit word offset = bit_or word (mask_of offset)

-- `word & ~mask`, kept in an unsigned char
unfoldable pub clear_bit : ℕ → ℕ → ℕ
clear_bit word offset = bit_and word (word_allbits - mask_of offset)

-- What a call of bitmap.c ends with; `aborted` is a failed assertion.
pub data Run {ℓ} (A : Type ℓ) : Type ℓ where
  done : A → Run A
  failed : Run A
  aborted : Run A

-- The leftover bits of the last word are marked, from `j` on.
unfoldable pub mark_leftover : ℕ → ℕ → ℕ → ℕ
mark_leftover zero j word = word
mark_leftover (suc rounds) j word = mark_leftover rounds (j + 1) (set_bit word j)

-- `first` and `second` tell whether the two calls of `malloc` succeed; `failed` is -ENOMEM.
unfoldable pub bitmap_create : Bool → Bool → ℕ → Run Bitmap
unfolding mark_leftover
bitmap_create false second nbits = failed
bitmap_create true false nbits = failed
bitmap_create true true nbits =
    let words = divroundup nbits bits_per_word in
    let ix = words - 1 in
    let overbits = nbits - ix * bits_per_word in
    if ltb (nbits / bits_per_word) words
    then (if nbits / bits_per_word == ix
        then (if ltb 0 overbits
            then (if ltb overbits bits_per_word
                then done (record {
                  nbits = nbits;
                  v = update (λ i. 0) ix (mark_leftover (bits_per_word - overbits) overbits 0);
                })
                else aborted)
            else aborted)
        else aborted)
    else done (record { nbits = nbits; v = λ i. 0 })

unfoldable pub bitmap_getsize : Bitmap → ℕ
bitmap_getsize b = b.nbits

-- The inner loop of `bitmap_alloc`: the first offset whose bit is clear.
unfoldable pub free_offset : ℕ → ℕ → ℕ → Option ℕ
free_offset zero offset word = none
free_offset (suc rounds) offset word =
    let rest = free_offset rounds (offset + 1) word in
    if test_bit word offset then rest else some offset

unfoldable pub take_offset : Bitmap → ℕ → Option ℕ → Run (ℕ × Bitmap)
take_offset b ix none = aborted
take_offset b ix (some offset) =
    let index = ix * bits_per_word + offset in
    if ltb index b.nbits
    then done (index, record b { v = update b.v ix (set_bit (b.v ix) offset) })
    else aborted

-- The outer loop of `bitmap_alloc`; `failed` is -ENOSPC.
unfoldable pub alloc_from : ℕ → ℕ → Bitmap → Run (ℕ × Bitmap)
unfolding take_offset free_offset
alloc_from zero ix b = failed
alloc_from (suc rounds) ix b =
    let rest = alloc_from rounds (ix + 1) b in
    if b.v ix == word_allbits then rest else take_offset b ix (free_offset bits_per_word 0 (b.v ix))

unfoldable pub bitmap_alloc : Bitmap → Run (ℕ × Bitmap)
unfolding alloc_from
bitmap_alloc b = alloc_from (divroundup b.nbits bits_per_word) 0 b

-- bitmap_translate: the word of a bit and the offset in it
abbrev pub word_of : ℕ → ℕ
word_of bitno = bitno / bits_per_word

abbrev pub offset_of : ℕ → ℕ
offset_of bitno = bitno % bits_per_word

unfoldable pub bitmap_isset : Bitmap → ℕ → Bool
bitmap_isset b index = test_bit (b.v (word_of index)) (offset_of index)

unfoldable pub bitmap_mark : Bitmap → ℕ → Run Bitmap
bitmap_mark b index =
    if ltb index b.nbits
    then (if bitmap_isset b index
        then aborted
        else done (record b {
          v = update b.v (word_of index) (set_bit (b.v (word_of index)) (offset_of index));
        }))
    else aborted

unfoldable pub bitmap_unmark : Bitmap → ℕ → Run Bitmap
bitmap_unmark b index =
    if ltb index b.nbits
    then (if bitmap_isset b index
        then done (record b {
          v = update b.v (word_of index) (clear_bit (b.v (word_of index)) (offset_of index));
        })
        else aborted)
    else aborted

-- The loop of `bitmap_nr_allocated` from bit `i` on.
unfoldable pub count_from : ℕ → ℕ → Bitmap → ℕ → ℕ
count_from zero i b nr = nr
count_from (suc rounds) i b nr =
    count_from rounds (i + 1) b (if bitmap_isset b i then nr + 1 else nr)

unfoldable pub bitmap_nr_allocated : Bitmap → ℕ
unfolding count_from
bitmap_nr_allocated b = count_from b.nbits 0 b 0
