-- ===== src/Warmup/Words/Hash.antt =====
-- stringToHash (warmup/wc.c): the hash of a word.
pub mod Bytes
use Prim.Native.Nat.{bit_or, bit_xor}
use operating_system_ece.Common.{
  ℕ, zero, suc, ◌+◌, ◌-◌, ◌*◌, ◌/◌, ◌%◌, ◌^◌, Bool, true, false, ltb, ◌==◌, List, [], ◌∷◌, length,
  if◌then◌else◌,
}

-- The arithmetic of `uint32_t`
abbrev pub word32 : ℕ → ℕ
word32 n = n % 2 ^ 32

abbrev pub add32 : ℕ → ℕ → ℕ
add32 x y = word32 (x + y)

abbrev pub sub32 : ℕ → ℕ → ℕ
sub32 x y = word32 (x + (2 ^ 32 - y))

unfoldable pub rot : ℕ → ℕ → ℕ
rot x k = bit_or (word32 (x * 2 ^ k)) (x / 2 ^ (32 - k))

-- The three numbers that are mixed
pub record Mixed : Type 0 where
  pub a : ℕ
  pub b : ℕ
  pub c : ℕ

-- A line of `mix`: `x -= z; x ^= rot(z, k); z += y`
abbrev pub mix_line : ℕ → ℕ → ℕ → ℕ → ℕ × ℕ
mix_line x y z k = (bit_xor (sub32 x z) (rot z k), add32 z y)

unfoldable pub mix : Mixed → Mixed
unfolding rot
mix m =
    let (a1, c1) = mix_line m.a m.b m.c 4 in
    let (b1, a2) = mix_line m.b c1 a1 6 in
    let (c2, b2) = mix_line c1 a2 b1 8 in
    let (a3, c3) = mix_line a2 b2 c2 16 in
    let (b3, a4) = mix_line b2 c3 a3 19 in
    let (c4, b4) = mix_line c3 a4 b3 4 in record { a = a4; b = b4; c = c4 }

-- A step of `final`: `x ^= y; x -= rot(y, k)`
abbrev pub final_step : ℕ → ℕ → ℕ → ℕ
final_step x y k = sub32 (bit_xor x y) (rot y k)

unfoldable pub final : Mixed → Mixed
unfolding rot
final m =
    let c1 = final_step m.c m.b 14 in
    let a1 = final_step m.a c1 11 in
    let b1 = final_step m.b a1 25 in
    let c2 = final_step c1 b1 16 in
    let a2 = final_step a1 c2 4 in
    let b2 = final_step b1 a2 14 in
    let c3 = final_step c2 b2 24 in record { a = a2; b = b2; c = c3 }

-- `*(data32Bit)`, the lowest byte first
abbrev pub word_at : (ℕ → ℕ) → ℕ → ℕ
word_at key i = key i + 256 * key (i + 1) + 65536 * key (i + 2) + 16777216 * key (i + 3)

abbrev pub mix_words : (ℕ → ℕ) → Mixed → Mixed
mix_words key m = mix (record {
  a = add32 m.a (word_at key 0);
  b = add32 m.b (word_at key 4);
  c = add32 m.c (word_at key 8);
})

-- `((uint32_t) k[i]) << shift` in a case of the switch that is reached where `length` is more than `i`
abbrev pub tail_byte : (ℕ → ℕ) → ℕ → ℕ → ℕ → ℕ
tail_byte k n i shift = if ltb i n then k i * 2 ^ shift else 0

abbrev pub mix_bytes : (ℕ → ℕ → ℕ) → Mixed → Mixed
mix_bytes byte m = record {
  a = add32 (add32 (add32 (add32 m.a (byte 3 24)) (byte 2 16)) (byte 1 8)) (byte 0 0);
  b = add32 (add32 (add32 (add32 m.b (byte 7 24)) (byte 6 16)) (byte 5 8)) (byte 4 0);
  c = add32 (add32 (add32 (add32 m.c (byte 11 24)) (byte 10 16)) (byte 9 8)) (byte 8 0);
}

-- The cases fall through, from `length` down.
unfoldable pub mix_tail : (ℕ → ℕ) → ℕ → Mixed → Mixed
mix_tail k n m = mix_bytes (tail_byte k n) m

-- Behind the loop
unfoldable pub lookup3_tail : (ℕ → ℕ) → ℕ → Mixed → ℕ
unfolding mix_tail final
lookup3_tail k n m = if n == 0 then m.c else (final (mix_tail k n m)).c

-- The loop, from `key` on; a round takes twelve bytes.
unfoldable pub lookup3_rounds : ℕ → (ℕ → ℕ) → ℕ → Mixed → ℕ
unfolding lookup3_tail mix
lookup3_rounds zero key n m = lookup3_tail key n m
lookup3_rounds (suc fuel) key n m = elim (ltb 12 n) [
  | true ↦ lookup3_rounds fuel (λ i. key (12 + i)) (n - 12) (mix_words key m)
  | false ↦ lookup3_tail key n m
]

unfoldable pub lookup3 : (ℕ → ℕ) → ℕ → ℕ → ℕ
unfolding lookup3_rounds
lookup3 key n initval =
    let start = word32 (word32 (0xdeadbeef + word32 (word32 n * 4)) + initval) in
    lookup3_rounds (n / 12 + 1) key n (record { a = start; b = start; c = start })

-- The bytes of a string, with the NUL behind them
unfoldable pub byte_of_string : List ℕ → ℕ → ℕ
byte_of_string [] i = 0
byte_of_string (c ∷ s) zero = c
byte_of_string (c ∷ s) (suc i) = byte_of_string s i

unfoldable pub string_to_hash : List ℕ → ℕ → ℕ
unfolding lookup3 byte_of_string
string_to_hash word hashTableSize =
    lookup3 (byte_of_string word) (length word) 12345 % hashTableSize
