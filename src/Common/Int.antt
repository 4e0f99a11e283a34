-- ===== src/Common/Int.antt =====
-- The `int` values that the code compares: `negsuc n` is -(n + 1).
use Prim.Native.Nat.{ℕ, zero, suc, ◌+◌}
use mathlib.Core.Bool.{Bool, true, false}
use mathlib.Core.Option.{Option, none, some}
use operating_system_ece.Common.Tests.{◌==◌}

pub data ℤ : Type 0 where
  pos : ℕ → ℤ
  negsuc : ℕ → ℤ

-- A number against an index that is -1 where it is `none`.
abbrev pub same_index : ℤ → Option ℕ → Bool
same_index (pos n) (some m) = n == m
same_index (pos n) none = false
same_index (negsuc n) (some m) = false
same_index (negsuc n) none = n == 0

-- Two such indices.
abbrev pub same_link : Option ℕ → Option ℕ → Bool
same_link (some n) (some m) = n == m
same_link (some n) none = false
same_link none (some m) = false
same_link none none = true

abbrev pub is_negative : ℤ → Bool
is_negative (pos n) = false
is_negative (negsuc n) = true

abbrev pub is_zero : ℤ → Bool
is_zero (pos n) = n == 0
is_zero (negsuc n) = false

-- `n + 1` and `n - 1`
unfoldable pub increment : ℤ → ℤ
increment (pos n) = pos (n + 1)
increment (negsuc zero) = pos 0
increment (negsuc (suc n)) = negsuc n

unfoldable pub decrement : ℤ → ℤ
decrement (pos zero) = negsuc 0
decrement (pos (suc n)) = pos n
decrement (negsuc n) = negsuc (n + 1)
