-- ===== src/Tests/Words.antt =====
-- The theorems on warmup/wc.c, on short texts.
use operating_system_ece.Common.{ℕ, ◌+◌, ◌/◌, ◌^◌, ◌<◌, ◌≡◌, refl, some, List, [], ◌∷◌}
use operating_system_ece.Warmup.Words.{same_word, overrun, parse_string, wc_init}
use operating_system_ece.Warmup.Words.Hash.{
  Mixed, lookup3, lookup3_rounds, byte_of_string, string_to_hash,
}
use operating_system_ece.Warmup.Words.Hash.Bytes.{Agree, lookup3-Bounded}
use operating_system_ece.Warmup.Words.Parse.{words, pieces, nonempty, ends_from}
use operating_system_ece.Warmup.Words.Counts.{occurrences}
use operating_system_ece.Warmup.Words.Loop.{cleared, wc_init-Overrun}

-- "ab", a space, "c", two spaces, "ab" and the end of a line
abbrev line_of_words : List ℕ
line_of_words = 97 ∷ 98 ∷ 32 ∷ 99 ∷ 32 ∷ 32 ∷ 97 ∷ 98 ∷ 10 ∷ []

line-words : words line_of_words ≡ (97 ∷ 98 ∷ []) ∷ (99 ∷ []) ∷ (97 ∷ 98 ∷ []) ∷ []
unfolding pieces nonempty
line-words = refl

line-occurrences : occurrences (97 ∷ 98 ∷ []) (words line_of_words) ≡ 2
unfolding occurrences pieces nonempty same_word
line-occurrences = refl

line-parse : parse_string line_of_words ≡ some (97 ∷ 98 ∷ [], 32 ∷ 99 ∷ 32 ∷ 32 ∷ 97 ∷ 98 ∷ 10 ∷ [])
unfolding parse_string
line-parse = refl

-- A text that ends behind "ab"
abbrev cut_text : List ℕ
cut_text = 32 ∷ 97 ∷ 98 ∷ []

wc_init-Overrun_example : wc_init cleared cut_text ≡ overrun
unfolding ends_from
wc_init-Overrun_example = wc_init-Overrun cleared cut_text refl

-- Fourteen letters
abbrev long_word : List ℕ
long_word = 97 ∷ 98 ∷ 99 ∷ 100 ∷ 101 ∷ 102 ∷ 103 ∷ 104 ∷ 105 ∷ 106 ∷ 107 ∷ 108 ∷ 109 ∷ 110 ∷ []

lookup3-Bounded_example :
    (lookup3 (byte_of_string long_word) 14 12345 < 2 ^ 32)
    × ((other : ℕ → ℕ)
        → Agree (byte_of_string long_word) other 14
        → lookup3 (byte_of_string long_word) 14 12345 ≡ lookup3 other 14 12345)
    × ((more : ℕ) (m : Mixed)
        → lookup3_rounds (14 / 12 + 1 + more) (byte_of_string long_word) 14 m
          ≡ lookup3_rounds (14 / 12 + 1) (byte_of_string long_word) 14 m)
lookup3-Bounded_example = lookup3-Bounded (byte_of_string long_word) 14 12345

hash_of_ab : string_to_hash (97 ∷ 98 ∷ []) 16777216 ≡ 6506702
unfolding string_to_hash
hash_of_ab = refl

hash_of_long : string_to_hash long_word 16777216 ≡ 14596784
unfolding string_to_hash
hash_of_long = refl
