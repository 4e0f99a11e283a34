-- ===== src/Warmup/Words/Loop.antt =====
-- The loop of wc_init and the output of wc_output (warmup/wc.c).
use operating_system_ece.Common.{
  ℕ, zero, suc, ◌+◌, ◌<◌, ◌≡◌, refl, true, false, Option, none, some, List, [], ◌∷◌, length, arith,
  ◌∙◌, sym,
}
use operating_system_ece.Warmup.Words.{
  Word, Table, Counted, counted, overrun, parse_string, count_parsed, count_words, hash_size,
  wc_init,
}
use operating_system_ece.Warmup.Words.Hash.{string_to_hash}
use operating_system_ece.Warmup.Words.Parse.{
  words, ends_from, terminated, Parses, parse_string-Parses,
}
use operating_system_ece.Warmup.Words.Counts.{occurrences, Tallied}

-- The counts `f` and those of the words of `text`
abbrev total : (Word → ℕ) → List ℕ → Word → ℕ
total f text w = f w + occurrences w (words text)

module _ (hash : Word → ℕ) where
  -- The loop ended with a table that has the counts `f`.
  abbrev Ended : Counted → (Word → ℕ) → Type 0
  Ended c f = (table : Table) × (c ≡ counted table) × Tallied hash table f

  count_words-parsed :
      (fuel c : ℕ) (text : List ℕ) (table : Table) (w : Word) (d : ℕ) (rest : List ℕ)
      → parse_string (c ∷ text) ≡ some (w, d ∷ rest)
      → count_words hash (suc fuel) (c ∷ text) table
        ≡ count_words hash fuel rest (count_parsed hash table w)
  unfolding count_words
  count_words-parsed fuel c text table w d rest e = rw (count_words, e) refl

  count_words-overrun :
      (fuel c : ℕ) (text : List ℕ) (table : Table)
      → parse_string (c ∷ text) ≡ none
      → count_words hash (suc fuel) (c ∷ text) table ≡ overrun
  unfolding count_words
  count_words-overrun fuel c text table e = rw (count_words, e) refl

  -- The loop counts texts as it is to.
  abbrev Counting : ℕ → Type 0
  Counting fuel =
      (text : List ℕ) (table : Table) (f : Word → ℕ)
      → length text < fuel
      → terminated text ≡ true
      → Tallied hash table f
      → Ended (count_words hash fuel text table) (total f text)

  abbrev Overrunning : ℕ → Type 0
  Overrunning fuel =
      (text : List ℕ) (table : Table)
      → length text < fuel
      → terminated text ≡ false
      → count_words hash fuel text table ≡ overrun

  round-Overrun :
      (fuel c : ℕ) (text : List ℕ) (table : Table) (o : Option (Word × List ℕ))
      → Overrunning fuel
      → length text < fuel
      → terminated (c ∷ text) ≡ false
      → parse_string (c ∷ text) ≡ o
      → Parses (c ∷ text) o
      → count_words hash (suc fuel) (c ∷ text) table ≡ overrun
  round-Overrun fuel c text table none running enough e q p =
      count_words-overrun fuel c text table q
  round-Overrun fuel c text table (some (w, [])) running enough e q p = absurd p
  round-Overrun fuel c text table (some (w, d ∷ rest)) running enough e q (p, l, k) =
      count_words-parsed fuel c text table w d rest q
      ∙ running rest (count_parsed hash table w) (omega arith) (sym (k true) ∙ e)

  count_words-Overrun : (fuel : ℕ) → Overrunning fuel
  unfolding ends_from
  count_words-Overrun zero text table enough e = absurd (omega arith)
  count_words-Overrun (suc fuel) [] table enough e = absurd (cc)
  count_words-Overrun (suc fuel) (c ∷ text) table enough e =
      round-Overrun fuel c text table (parse_string (c ∷ text)) (count_words-Overrun fuel)
        (omega arith) e refl (parse_string-Parses (c ∷ text))

-- A table whose memory was cleared
abbrev pub cleared : Table
cleared i = record { key = none; count = 0; next = [] }

-- If the text ends inside a word, wc_init reads behind the end of the array, whatever the memory of its table
-- holds.
pub wc_init-Overrun :
    (memory : Table) (text : List ℕ) → terminated text ≡ false → wc_init memory text ≡ overrun
unfolding wc_init
wc_init-Overrun memory text e =
    count_words-Overrun (λ w. string_to_hash w hash_size) (length text + 1) text memory
      (omega arith) e
