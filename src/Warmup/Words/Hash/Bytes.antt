-- ===== src/Warmup/Words/Hash/Bytes.antt =====
-- The bytes that lookup3 reads, and its results (warmup/wc.c).
use operating_system_ece.Common.{
  ℕ, zero, suc, ◌+◌, ◌-◌, ◌*◌, ◌/◌, ◌^◌, ◌<◌, ◌≤◌, ◌≡◌, refl, true, false, ltb, ◌==◌, ◌⊎◌, inl, inr,
  ◌∙◌, ap, sym, subst, if◌then◌else◌, Bool-cases, arith,
}
use std.Path.{fun_ext}
use operating_system_ece.Warmup.Words.Hash.{
  word32, add32, Mixed, mix, final, word_at, mix_words, tail_byte, mix_bytes, mix_tail,
  lookup3_tail, lookup3_rounds, lookup3,
}

-- The first `n` bytes are the same.
abbrev pub Agree : (ℕ → ℕ) → (ℕ → ℕ) → ℕ → Type 0
Agree key other n = (i : ℕ) → i < n → key i ≡ other i

tail_byte-Agree :
    (key other : ℕ → ℕ) (n i shift : ℕ)
    → Agree key other n
    → tail_byte key n i shift ≡ tail_byte other n i shift
tail_byte-Agree key other n i shift same = elim (Bool-cases (ltb i n)) [
  | inl y ↦ rw y (ap (λ x. x * 2 ^ shift) (same i (ground arith)))
  | inr z ↦ rw z refl
]

mix_tail-Agree :
    (key other : ℕ → ℕ) (n : ℕ) (m : Mixed)
    → Agree key other n
    → mix_tail key n m ≡ mix_tail other n m
unfolding mix_tail
mix_tail-Agree key other n m same =
    ap (λ t. mix_bytes t m)
      (fun_ext (λ i. fun_ext (λ shift. tail_byte-Agree key other n i shift same)))

lookup3_tail-Agree :
    (key other : ℕ → ℕ) (n : ℕ) (m : Mixed)
    → Agree key other n
    → lookup3_tail key n m ≡ lookup3_tail other n m
unfolding lookup3_tail
lookup3_tail-Agree key other n m same =
    ap (λ t. if n == 0 then m.c else (final t).c) (mix_tail-Agree key other n m same)

word_at-Agree :
    (key other : ℕ → ℕ) (n i : ℕ) → Agree key other n → i + 3 < n → word_at key i ≡ word_at other i
word_at-Agree key other n i same below = rw (same i (omega arith)) (
    rw (same (i + 1) (omega arith))
      (rw (same (i + 2) (omega arith)) (rw (same (i + 3) (omega arith)) refl)))

mix_words-Agree :
    (key other : ℕ → ℕ) (n : ℕ) (m : Mixed)
    → Agree key other n
    → 12 < n
    → mix_words key m ≡ mix_words other m
mix_words-Agree key other n m same below =
    let mixed : ℕ → ℕ → ℕ → Mixed =
      λ x y z. mix (record { a = add32 m.a x; b = add32 m.b y; c = add32 m.c z }) in
    ap (λ x. mixed x (word_at key 4) (word_at key 8))
      (word_at-Agree key other n 0 same (omega arith))
    ∙ ap (λ y. mixed (word_at other 0) y (word_at key 8))
        (word_at-Agree key other n 4 same (omega arith))
    ∙ ap (λ z. mixed (word_at other 0) (word_at other 4) z)
        (word_at-Agree key other n 8 same (omega arith))

round_lem :
    (fuel : ℕ) (key : ℕ → ℕ) (n : ℕ) (m : Mixed)
    → 12 < n
    → lookup3_rounds (suc fuel) key n m
      ≡ lookup3_rounds fuel (λ i. key (12 + i)) (n - 12) (mix_words key m)
unfolding lookup3_rounds
round_lem fuel key n m l = let t : ltb 12 n ≡ true = ground arith in rw (lookup3_rounds, t) refl

last_lem :
    (fuel : ℕ) (key : ℕ → ℕ) (n : ℕ) (m : Mixed)
    → n ≤ 12
    → lookup3_rounds fuel key n m ≡ lookup3_tail key n m
unfolding lookup3_rounds
last_lem zero key n m l = refl
last_lem (suc fuel) key n m l =
    let t : ltb 12 n ≡ false = ground arith in rw (lookup3_rounds, t) refl

more_or_last : (n : ℕ) → (12 < n) ⊎ (n ≤ 12)
more_or_last n = elim (Bool-cases (ltb 12 n)) [
  | inl y ↦ inl (ground arith)
  | inr z ↦ inr (ground arith)
]

rounds-Agree :
    (fuel : ℕ) (key other : ℕ → ℕ) (n : ℕ) (m : Mixed)
    → Agree key other n
    → lookup3_rounds fuel key n m ≡ lookup3_rounds fuel other n m
unfolding lookup3_rounds
rounds-Agree zero key other n m same = lookup3_tail-Agree key other n m same
rounds-Agree (suc fuel) key other n m same = elim (more_or_last n) [
  | inl l ↦
      round_lem fuel key n m l
      ∙ rounds-Agree fuel (λ i. key (12 + i)) (λ i. other (12 + i)) (n - 12) (mix_words key m)
          (λ i j. same (12 + i) (omega arith))
      ∙ ap (lookup3_rounds fuel (λ i. other (12 + i)) (n - 12))
          (mix_words-Agree key other n m same l)
      ∙ sym (round_lem fuel other n m l)
  | inr l ↦
      last_lem (suc fuel) key n m l
      ∙ lookup3_tail-Agree key other n m same
      ∙ sym (last_lem (suc fuel) other n m l)
]

-- More fuel than the rounds need changes nothing.
rounds-Enough :
    (fuel more : ℕ) (key : ℕ → ℕ) (n : ℕ) (m : Mixed)
    → n ≤ 12 * fuel
    → lookup3_rounds (fuel + more) key n m ≡ lookup3_rounds fuel key n m
rounds-Enough zero more key n m l =
    last_lem (0 + more) key n m (omega arith) ∙ sym (last_lem 0 key n m (omega arith))
rounds-Enough (suc fuel) more key n m l = elim (more_or_last n) [
  | inl b ↦
      ap (λ f. lookup3_rounds f key n m) (next fuel more)
      ∙ round_lem (fuel + more) key n m b
      ∙ rounds-Enough fuel more (λ i. key (12 + i)) (n - 12) (mix_words key m) (omega arith)
      ∙ sym (round_lem fuel key n m b)
  | inr b ↦ last_lem (suc fuel + more) key n m b ∙ sym (last_lem (suc fuel) key n m b)
]
  where
    next : (fuel more : ℕ) → suc fuel + more ≡ suc (fuel + more)
    next fuel more = omega arith

word32_below : (x : ℕ) → word32 x < 2 ^ 32
word32_below x = ground arith

final_below : (m : Mixed) → (final m).c < 2 ^ 32
unfolding final
final_below m = word32_below _

tail_below :
    (key : ℕ → ℕ) (n : ℕ) (m : Mixed) → (n ≡ 0 → m.c < 2 ^ 32) → lookup3_tail key n m < 2 ^ 32
unfolding lookup3_tail
tail_below key n m start = elim (Bool-cases (n == 0)) [
  | inl y ↦ rw y (start (ground arith))
  | inr z ↦ rw z (final_below (mix_tail key n m))
]

rounds_below :
    (fuel : ℕ) (key : ℕ → ℕ) (n : ℕ) (m : Mixed)
    → (n ≡ 0 → m.c < 2 ^ 32)
    → lookup3_rounds fuel key n m < 2 ^ 32
unfolding lookup3_rounds
rounds_below zero key n m start = tail_below key n m start
rounds_below (suc fuel) key n m start = elim (more_or_last n) [
  | inl l ↦
      subst (λ x. x < 2 ^ 32) (sym (round_lem fuel key n m l))
        (rounds_below fuel (λ i. key (12 + i)) (n - 12) (mix_words key m)
          (λ e. absurd (omega arith)))
  | inr l ↦ subst (λ x. x < 2 ^ 32) (sym (last_lem (suc fuel) key n m l)) (tail_below key n m start)
]

-- lookup3 reads the bytes of the key only, its result is a number of 32 bits, and more rounds than it is given
-- change nothing: its loop ends.
pub lookup3-Bounded :
    (key : ℕ → ℕ) (n initval : ℕ)
    → (lookup3 key n initval < 2 ^ 32)
      × ((other : ℕ → ℕ) → Agree key other n → lookup3 key n initval ≡ lookup3 other n initval)
      × ((more : ℕ) (m : Mixed)
          → lookup3_rounds (n / 12 + 1 + more) key n m ≡ lookup3_rounds (n / 12 + 1) key n m)
unfolding lookup3
lookup3-Bounded key n initval = (
  rounds_below (n / 12 + 1) key n (first n initval) (λ e. word32_below _),
  λ other same. rounds-Agree (n / 12 + 1) key other n (first n initval) same,
  λ more m. rounds-Enough (n / 12 + 1) more key n m (omega arith),
)
  where
    first : ℕ → ℕ → Mixed
    first n initval =
        let start = word32 (word32 (0xdeadbeef + word32 (word32 n * 4)) + initval) in
        record { a = start; b = start; c = start }
