-- ===== src/Warmup/Words/Parse.antt =====
-- parse_string (warmup/wc.c), and the words of a text.
use operating_system_ece.Common.{
  ℕ, ◌<◌, ◌≡◌, refl, Bool, true, false, Option, none, some, List, [], ◌∷◌, length, arith,
  if◌then◌else◌, Bool-cases, inl, inr, ◌⊎◌, ◌∙◌, ap,
}
use operating_system_ece.Warmup.Words.{Word, same_word, is_end, in_front, parse_string}

pub same_word_refl : (w : Word) → same_word w w ≡ true
unfolding same_word
same_word_refl [] = refl
same_word_refl (c ∷ w) = ground (arith, same_word_refl w)

same_word→eq : (w v : Word) → same_word w v ≡ true → w ≡ v
unfolding same_word
same_word→eq [] [] e = refl
same_word→eq [] (d ∷ v) e = cc
same_word→eq (c ∷ w) [] e = cc
same_word→eq (c ∷ w) (d ∷ v) e =
    let one : c ≡ d = ground arith in
    let two : same_word w v ≡ true = ground arith in
    ap (λ x. x ∷ w) one ∙ ap (λ y. d ∷ y) (same_word→eq w v two)

-- Two words are the same or `strcmp` says that they differ.
pub compare_words : (w v : Word) → (w ≡ v) ⊎ (same_word w v ≡ false)
compare_words w v = elim (Bool-cases (same_word w v)) [
  | inl y ↦ inl (same_word→eq w v y)
  | inr z ↦ inr z
]

-- The pieces of a text between the characters that end a word: the first one, and the others
unfoldable pub pieces : List ℕ → Word × List Word
pieces [] = ([], [])
pieces (c ∷ text) = let (w, ws) = pieces text in if is_end c then ([], w ∷ ws) else (c ∷ w, ws)

-- The pieces that are not empty
unfoldable pub nonempty : List Word → List Word
nonempty [] = []
nonempty ([] ∷ ws) = nonempty ws
nonempty ((c ∷ w) ∷ ws) = (c ∷ w) ∷ nonempty ws

abbrev pub words : List ℕ → List Word
words text = let (w, ws) = pieces text in nonempty (w ∷ ws)

-- The last character of a text, where it has one, ends a word.
unfoldable pub ends_from : Bool → List ℕ → Bool
ends_from b [] = b
ends_from b (c ∷ text) = ends_from (is_end c) text

abbrev pub terminated : List ℕ → Bool
terminated text = ends_from true text

-- What `parse_string` is to return
abbrev pub Parses : List ℕ → Option (Word × List ℕ) → Type 0
Parses text none = ends_from false text ≡ false
Parses text (some (w, [])) = ⊥
Parses text (some (w, c ∷ rest)) =
    (pieces text ≡ (w, (pieces rest).0 ∷ (pieces rest).1))
    × (length rest < length text)
    × ((b : Bool) → ends_from b text ≡ terminated rest)

in_front-Parses :
    (c : ℕ) (text : List ℕ) (o : Option (Word × List ℕ))
    → is_end c ≡ false
    → Parses text o
    → Parses (c ∷ text) (in_front c o)
unfolding pieces ends_from
in_front-Parses c text none e h = rw e h
in_front-Parses c text (some (w, [])) e h = h
in_front-Parses c text (some (w, d ∷ rest)) e (p, l, t) =
    (rw e (ap (λ q. (c ∷ q.0, q.1)) p), omega arith, λ b. t (is_end c))

end-Parses : (c : ℕ) (text : List ℕ) → is_end c ≡ true → Parses (c ∷ text) (some ([], c ∷ text))
unfolding pieces ends_from
end-Parses c text e = (rw e refl, omega arith, λ b. rw e refl)

pub parse_string-Parses : (text : List ℕ) → Parses text (parse_string text)
unfolding parse_string ends_from
parse_string-Parses [] = refl
parse_string-Parses (c ∷ text) = elim (Bool-cases (is_end c)) [
  | inl y ↦ rw y (end-Parses c text y)
  | inr z ↦ rw z (in_front-Parses c text (parse_string text) z (parse_string-Parses text))
]
