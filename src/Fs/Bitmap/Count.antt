-- ===== src/Fs/Bitmap/Count.antt =====
-- bitmap_nr_allocated (fs/bitmap.c) and bitmap_alloc.
use operating_system_ece.Common.{
  if◌then◌else◌, sym, ℕ, zero, suc, ◌+◌, ◌<◌, ◌≤◌, ◌≡◌, refl, true, false, arith, ◌==◌, Bool-cases,
  inl, inr, ap, ◌∙◌,
}
use operating_system_ece.Fs.Bitmap.{
  Bitmap, Run, done, failed, aborted, bitmap_isset, bitmap_alloc, count_from, bitmap_nr_allocated,
}
use operating_system_ece.Fs.Bitmap.Bits.{IsBitmap, Writes}
use operating_system_ece.Fs.Bitmap.Alloc.{Allocates, bitmap_alloc_lem}

count_from-suc :
    (rounds i : ℕ) (b : Bitmap) (nr : ℕ)
    → count_from rounds i b (nr + 1) ≡ count_from rounds i b nr + 1
unfolding count_from
count_from-suc zero i b nr = refl
count_from-suc (suc rounds) i b nr = elim (Bool-cases (bitmap_isset b i)) [
  | inl y ↦ rw y (count_from-suc rounds (i + 1) b (nr + 1))
  | inr n ↦ rw n (count_from-suc rounds (i + 1) b nr)
]

module _ (b b' : Bitmap) (k : ℕ)
    (w : (j : ℕ) → bitmap_isset b' j ≡ (if j == k then true else bitmap_isset b j)) where
  -- Behind the bit that is set nothing changes.
  same_behind : (rounds i nr : ℕ) → k < i → count_from rounds i b' nr ≡ count_from rounds i b nr
  unfolding count_from
  same_behind zero i nr l = refl
  same_behind (suc rounds) i nr l =
      let bit : bitmap_isset b' i ≡ bitmap_isset b i = ground (arith, w i) in
      rw bit (same_behind rounds (i + 1) _ (omega arith))

  one_more :
      (rounds i nr : ℕ)
      → i ≤ k
      → k < i + rounds
      → bitmap_isset b k ≡ false
      → count_from rounds i b' nr ≡ count_from rounds i b nr + 1
  unfolding count_from
  one_more zero i nr a l c = absurd (omega arith)
  one_more (suc rounds) i nr a l c = elim (Bool-cases (i == k)) [
    | inl e ↦
        let here : i ≡ k = ground arith in
        let clear : bitmap_isset b i ≡ false = rw here c in
        let set : bitmap_isset b' i ≡ true = ground (arith, w i) in
        rw (clear, set)
          (same_behind rounds (i + 1) (nr + 1) (omega arith) ∙ count_from-suc rounds (i + 1) b nr)
    | inr n ↦
        let bit : bitmap_isset b' i ≡ bitmap_isset b i = ground (arith, w i) in
        rw bit (one_more rounds (i + 1) _ (ground arith) (omega arith) c)
  ]

all_counted :
    (b : Bitmap) (rounds i nr : ℕ)
    → ((j : ℕ) → j < i + rounds → bitmap_isset b j ≡ true)
    → count_from rounds i b nr ≡ nr + rounds
unfolding count_from
all_counted b zero i nr h = omega arith
all_counted b (suc rounds) i nr h =
    rw (h i (omega arith))
      (all_counted b rounds (i + 1) (nr + 1) (λ j l. h j (omega arith)) ∙ omega arith)

back :
    (b b' : Bitmap) (k : ℕ)
    → Writes b b' k false
    → bitmap_isset b k ≡ true
    → (j : ℕ) → bitmap_isset b j ≡ (if j == k then true else bitmap_isset b' j)
back b b' k w set j = elim (Bool-cases (j == k)) [
  | inl y ↦ let here : j ≡ k = ground arith in rw (y, here) set
  | inr n ↦ rw n (let same = w.bits j in ground arith)
]

pub clear-nr_allocated :
    (b b' : Bitmap) (k : ℕ)
    → Writes b b' k false
    → k < b.nbits
    → bitmap_isset b k ≡ true
    → bitmap_nr_allocated b ≡ bitmap_nr_allocated b' + 1
unfolding bitmap_nr_allocated
clear-nr_allocated b b' k w l set =
    let clear : bitmap_isset b' k ≡ false = ground (arith, w.bits k) in
    one_more b' b k (back b b' k w set) b.nbits 0 0 (omega arith) (omega arith) clear
    ∙ ap (λ n. count_from n 0 b' 0 + 1) (sym w.size)

pub set-nr_allocated :
    (b b' : Bitmap) (k : ℕ)
    → Writes b b' k true
    → k < b.nbits
    → bitmap_isset b k ≡ false
    → bitmap_nr_allocated b' ≡ bitmap_nr_allocated b + 1
unfolding bitmap_nr_allocated
set-nr_allocated b b' k w l clear =
    ap (λ n. count_from n 0 b' 0) w.size
    ∙ one_more b b' k w.bits b.nbits 0 0 (omega arith) (omega arith) clear

count_from-le : (b : Bitmap) (rounds i nr : ℕ) → count_from rounds i b nr ≤ nr + rounds
unfolding count_from
count_from-le b zero i nr = omega arith
count_from-le b (suc rounds) i nr = elim (Bool-cases (bitmap_isset b i)) [
  | inl y ↦ rw y (let rest = count_from-le b rounds (i + 1) (nr + 1) in omega arith)
  | inr n ↦ rw n (let rest = count_from-le b rounds (i + 1) nr in omega arith)
]

pub nr_allocated-le : (b : Bitmap) → bitmap_nr_allocated b ≤ b.nbits
unfolding bitmap_nr_allocated
nr_allocated-le b = let all = count_from-le b b.nbits 0 0 in omega arith

-- How `bitmap_alloc` changes the number of set bits.
abbrev pub Counts : Bitmap → Run (ℕ × Bitmap) → Type 0
Counts b (done (i, b')) = bitmap_nr_allocated b' ≡ bitmap_nr_allocated b + 1
Counts b failed = bitmap_nr_allocated b ≡ b.nbits
Counts b aborted = ⊥

Allocates-Counts : (b : Bitmap) (r : Run (ℕ × Bitmap)) → Allocates b r → Counts b r
unfolding bitmap_nr_allocated
Allocates-Counts b (done (i, b')) (l, c, before, w) =
    ap (λ n. count_from n 0 b' 0) w.size
    ∙ one_more b b' i w.bits b.nbits 0 0 (omega arith) (omega arith) c
Allocates-Counts b failed all = all_counted b b.nbits 0 0 (λ j l. all j (omega arith)) ∙ omega arith
Allocates-Counts b aborted h = h

-- On a valid bitmap `bitmap_nr_allocated` is one more after `bitmap_alloc` has found a bit, and
-- `bitmap_alloc` returns -ENOSPC only when `bitmap_nr_allocated` is the size of the bitmap.
pub alloc-nr_allocated : (b : Bitmap) → IsBitmap b → Counts b (bitmap_alloc b)
alloc-nr_allocated b h = Allocates-Counts b (bitmap_alloc b) (bitmap_alloc_lem b h)
