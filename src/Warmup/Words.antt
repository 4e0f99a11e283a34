-- ===== src/Warmup/Words.antt =====
-- warmup/wc.c: the words of a text, counted in a hash table.
pub mod Hash
pub mod Parse
pub mod Chains
pub mod Counts
pub mod Loop
use operating_system_ece.Common.{
  ℕ, zero, suc, ◌+◌, ◌-◌, ◌*◌, Bool, true, false, ltb, leb, ◌&&◌, ◌||◌, ◌==◌, Option, none, some,
  List, [], ◌∷◌, ◌++◌, update, length, if◌then◌else◌,
}
use operating_system_ece.Warmup.Words.Hash.{string_to_hash}

-- The bytes of a word, or of a text
abbrev pub Word : Type 0
Word = List ℕ

-- `strcmp(w, v) == 0`
unfoldable pub same_word : Word → Word → Bool
same_word [] [] = true
same_word [] (d ∷ v) = false
same_word (c ∷ w) [] = false
same_word (c ∷ w) (d ∷ v) = c == d && same_word w v

-- `isspace`
abbrev pub is_space : ℕ → Bool
is_space c = c == 32 || (leb 9 c && leb c 13)

-- The characters that end a word
abbrev pub is_end : ℕ → Bool
is_end c = is_space c || c == 0

abbrev pub in_front : ℕ → Option (Word × List ℕ) → Option (Word × List ℕ)
in_front c none = none
in_front c (some (w, text)) = some (c ∷ w, text)

-- The word at the front of the text from `current_index` on, which may be empty (NULL), and the text from
-- the character that ends it. `none` is an access behind the end of the array: a character is read before
-- `current_index` is compared with the size.
unfoldable pub parse_string : List ℕ → Option (Word × List ℕ)
parse_string [] = none
parse_string (c ∷ text) =
    let rest = parse_string text in if is_end c then some ([], c ∷ text) else in_front c rest

-- An entry of the hash table, with the nodes behind it
pub record Component : Type 0 where
  pub key : Option Word
  pub count : ℕ
  pub next : List (Word × ℕ)

abbrev pub Table : Type 0
Table = ℕ → Component

-- The loop over the nodes
unfoldable pub count_node : List (Word × ℕ) → Word → List (Word × ℕ)
count_node [] w = (w, 1) ∷ []
count_node ((k, n) ∷ rest) w =
    let counted = count_node rest w in if same_word k w then (k, n + 1) ∷ rest else (k, n) ∷ counted

-- A word that was found is counted in its entry, in a node behind it, or in a new node.
unfoldable pub count_word : Component → Option Word → Word → Component
unfolding count_node
count_word row none w = record row { key = some w; count = 1 }
count_word row (some k) w =
    if same_word k w
    then record row { count = row.count + 1 }
    else record row { next = count_node row.next w }

-- The table; or a character behind the end of the text is read; or the fuel is out.
pub data Counted : Type 0 where
  counted : Table → Counted
  overrun : Counted
  spins : Counted

-- The nodes of an entry, as they are printed
unfoldable pub entry_output : Component → Option Word → List (Word × ℕ)
entry_output row none = []
entry_output row (some k) = (k, row.count) ∷ row.next

-- `wc_output` for the first entries
unfoldable pub output_from : Table → ℕ → List (Word × ℕ)
unfolding entry_output
output_from table zero = []
output_from table (suc n) = output_from table n ++ entry_output (table n) (table n).key

abbrev pub hash_size : ℕ
hash_size = 16777216

-- The words with their counts in the order in which they are printed
unfoldable pub wc_output : Table → List (Word × ℕ)
unfolding output_from
wc_output table = output_from table hash_size

-- `hash` gives the entry of a word.
module _ (hash : Word → ℕ) where
  -- What the loop of wc_init does with a word: an empty one is passed over.
  unfoldable pub count_parsed : Table → Word → Table
  unfolding count_word
  count_parsed table [] = table
  count_parsed table (c ∷ w) =
      update table (hash (c ∷ w))
        (count_word (table (hash (c ∷ w))) (table (hash (c ∷ w))).key (c ∷ w))

  -- The loop of wc_init; the index passes the character that ended the word.
  unfoldable pub count_words : ℕ → List ℕ → Table → Counted
  unfolding parse_string count_parsed
  count_words zero text table = spins
  count_words (suc fuel) [] table = counted table
  count_words (suc fuel) (c ∷ text) table = elim (parse_string (c ∷ text)) [
    | none ↦ overrun
    | some (w, []) ↦ overrun
    | some (w, d ∷ rest) ↦ count_words fuel rest (count_parsed table w)
  ]

-- `memory` is what `malloc` leaves in the table.
unfoldable pub wc_init : Table → List ℕ → Counted
unfolding count_words
wc_init memory text = count_words (λ w. string_to_hash w hash_size) (length text + 1) text memory
