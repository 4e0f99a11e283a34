-- ===== src/Common/Lists.antt =====
-- Lists measured and indexed by native numbers, and lists of distinct numbers.
use Prim.Native.Nat.{ℕ, zero, suc, ◌+◌, ◌≤◌, ◌<◌}
use mathlib.Core.Path.{◌≡◌, refl}
use mathlib.Core.Bool.{Bool, true, false, ◌||◌}
use mathlib.Core.List.{List, [], ◌∷◌, ◌++◌}
use native.Mathlib.Omega.{arith}
use operating_system_ece.Common.Tests.{◌==◌, if◌then◌else◌}

module _ {ℓ} {A : Type ℓ} where
  abbrev pub length : List A → ℕ
  length [] = 0
  length (x ∷ xs) = suc (length xs)

  pub length-append : (xs ys : List A) → length (xs ++ ys) ≡ length xs + length ys
  length-append [] ys = omega arith
  length-append (x ∷ xs) ys = omega (arith, length-append xs ys)

abbrev pub mem : ℕ → List ℕ → Bool
mem a [] = false
mem a (x ∷ xs) = (x == a) || mem a xs

-- No number twice.
abbrev pub Distinct : List ℕ → Type 0
Distinct [] = Unit {0}
Distinct (x ∷ xs) = (mem x xs ≡ false) × Distinct xs

-- Every number below `n`.
abbrev pub Below : ℕ → List ℕ → Type 0
Below n [] = Unit {0}
Below n (x ∷ xs) = (x < n) × Below n xs

-- The list without the first `w`.
unfoldable pub erase : ℕ → List ℕ → List ℕ
erase w [] = []
erase w (x ∷ xs) = if x == w then xs else x ∷ erase w xs

pub mem-append : (a : ℕ) (xs ys : List ℕ) → mem a (xs ++ ys) ≡ (mem a xs || mem a ys)
mem-append a [] ys = refl
mem-append a (x ∷ xs) ys = ground (arith, mem-append a xs ys)

pub Distinct-append :
    (xs : List ℕ) (a : ℕ) → Distinct xs → mem a xs ≡ false → Distinct (xs ++ (a ∷ []))
Distinct-append [] a d h = ground arith
Distinct-append (x ∷ xs) a d h = ground (arith, Distinct-append xs a, mem-append x xs (a ∷ []))

pub Below-append : (n : ℕ) (xs : List ℕ) (a : ℕ) → Below n xs → a < n → Below n (xs ++ (a ∷ []))
Below-append n [] a b h = ground arith
Below-append n (x ∷ xs) a b h = (b.0, Below-append n xs a b.1 h)

pub mem-erase_self : (w : ℕ) (xs : List ℕ) → Distinct xs → mem w (erase w xs) ≡ false
unfolding erase
mem-erase_self w [] d = refl
mem-erase_self w (x ∷ xs) d = ground (arith, mem-erase_self w xs)

pub mem-erase-false : (a w : ℕ) (xs : List ℕ) → mem a xs ≡ false → mem a (erase w xs) ≡ false
unfolding erase
mem-erase-false a w [] h = refl
mem-erase-false a w (x ∷ xs) h = ground (arith, mem-erase-false a w xs)

pub Distinct-erase : (w : ℕ) (xs : List ℕ) → Distinct xs → Distinct (erase w xs)
unfolding erase
Distinct-erase w [] d = d
Distinct-erase w (x ∷ xs) d = ground (arith, Distinct-erase w xs d.1, mem-erase-false x w xs)

pub Below-erase : (n w : ℕ) (xs : List ℕ) → Below n xs → Below n (erase w xs)
unfolding erase
Below-erase n w [] b = b
Below-erase n w (x ∷ xs) b = ground (arith, Below-erase n w xs b.1)

pub length-erase : (w : ℕ) (xs : List ℕ) → length xs ≤ suc (length (erase w xs))
unfolding erase
length-erase w [] = omega arith
length-erase w (x ∷ xs) = ground (arith, length-erase w xs)

pub Below-lt : (n a : ℕ) (xs : List ℕ) → Below n xs → mem a xs ≡ true → a < n
Below-lt n a [] b h = absurd (cc)
Below-lt n a (x ∷ xs) b h = ground (arith, Below-lt n a xs b.1)

Below-pred : (n : ℕ) (xs : List ℕ) → Below (suc n) xs → mem n xs ≡ false → Below n xs
Below-pred n [] b h = b
Below-pred n (x ∷ xs) b h = ground (arith, Below-pred n xs b.1)

-- Distinct numbers below `n` are at most `n` many.
pub length-le-bound : (n : ℕ) (xs : List ℕ) → Distinct xs → Below n xs → length xs ≤ n
length-le-bound zero [] d b = omega arith
length-le-bound zero (x ∷ xs) d b = absurd (omega (arith, b.0))
length-le-bound (suc n) xs d b =
    let rest : Below n (erase n xs) =
      Below-pred n (erase n xs) (Below-erase (suc n) n xs b) (mem-erase_self n xs d) in
    omega (arith, length-le-bound n (erase n xs) (Distinct-erase n xs d) rest, length-erase n xs)
