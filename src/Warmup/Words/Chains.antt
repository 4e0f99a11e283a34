-- ===== src/Warmup/Words/Chains.antt =====
-- Counting a word in an entry of the hash table (warmup/wc.c).
use operating_system_ece.Common.{
  ℕ, ◌+◌, ◌≡◌, ◌≢◌, refl, true, false, Option, none, some, List, [], ◌∷◌, ◌++◌, if◌then◌else◌,
  Bool-cases, inl, inr, ◌∙◌, ap, sym,
}
use operating_system_ece.Warmup.Words.{
  Word, same_word, Component, count_node, count_word, entry_output,
}
use operating_system_ece.Warmup.Words.Parse.{same_word_refl, compare_words}

-- The lines of a word among the lines of an output
unfoldable pub select : Word → List (Word × ℕ) → List (Word × ℕ)
select w [] = []
select w ((k, n) ∷ rest) =
    let found = select w rest in if same_word k w then (k, n) ∷ found else found

pub select-append :
    (w : Word) (l m : List (Word × ℕ)) → select w (l ++ m) ≡ select w l ++ select w m
unfolding select
select-append w [] m = refl
select-append w ((k, n) ∷ l) m = elim (Bool-cases (same_word k w)) [
  | inl y ↦ rw y (ap (λ r. (k, n) ∷ r) (select-append w l m))
  | inr z ↦ rw z (select-append w l m)
]

-- One more of a word
abbrev pub bump : Word → List (Word × ℕ) → List (Word × ℕ)
bump w [] = (w, 1) ∷ []
bump w ((k, n) ∷ rest) = (k, n + 1) ∷ rest

-- The lines of an entry
abbrev pub lines : Component → List (Word × ℕ)
lines row = entry_output row row.key

select-same :
    (w v : Word) (n : ℕ) (l : List (Word × ℕ)) → w ≡ v → select v ((w, n) ∷ l) ≡ (w, n) ∷ select v l
unfolding select
select-same w v n l e =
    let y : same_word w v ≡ true = ap (same_word w) (sym e) ∙ same_word_refl w in rw y refl

select-other :
    (w v : Word) (n : ℕ) (l : List (Word × ℕ))
    → same_word w v ≡ false
    → select v ((w, n) ∷ l) ≡ select v l
unfolding select
select-other w v n l e = rw e refl

-- What counting a word is to do to the lines of each word
abbrev pub bumped : Word → Word → List (Word × ℕ) → List (Word × ℕ)
bumped w v l = if same_word w v then bump v l else l

pub bumped-same : (w v : Word) (l : List (Word × ℕ)) → w ≡ v → bumped w v l ≡ bump v l
bumped-same w v l e =
    let y : same_word w v ≡ true = ap (same_word w) (sym e) ∙ same_word_refl w in rw y refl

pub bumped-other : (w v : Word) (l : List (Word × ℕ)) → same_word w v ≡ false → bumped w v l ≡ l
bumped-other w v l e = rw e refl

node-here :
    (k w : Word) (n : ℕ) (l : List (Word × ℕ)) → k ≡ w → count_node ((k, n) ∷ l) w ≡ (k, n + 1) ∷ l
unfolding count_node
node-here k w n l e =
    let y : same_word k w ≡ true = ap (same_word k) (sym e) ∙ same_word_refl k in rw y refl

node-next :
    (k w : Word) (n : ℕ) (l : List (Word × ℕ))
    → same_word k w ≡ false
    → count_node ((k, n) ∷ l) w ≡ (k, n) ∷ count_node l w
unfolding count_node
node-next k w n l e = rw e refl

select-empty : (v : Word) → select v [] ≡ []
unfolding select
select-empty v = refl

node-last : (w v : Word) → select v ((w, 1) ∷ []) ≡ bumped w v []
node-last w v = elim (compare_words w v) [
  | inl e ↦
      select-same w v 1 [] e
      ∙ ap (λ x. (x, 1) ∷ select v []) e
      ∙ ap (λ l. (v, 1) ∷ l) (select-empty v)
      ∙ sym (bumped-same w v [] e)
  | inr d ↦ select-other w v 1 [] d ∙ select-empty v ∙ sym (bumped-other w v [] d)
]

node-new : (w : Word) → count_node [] w ≡ (w, 1) ∷ []
unfolding count_node
node-new w = refl

-- A word that is another one than `k` is not `v`, if `k` is.
differ : (k w v : Word) → same_word k w ≡ false → k ≡ v → same_word w v ≡ false
differ k w v d e = elim (compare_words w v) [
  | inl q ↦
      let same : same_word k w ≡ true = ap (same_word k) (q ∙ sym e) ∙ same_word_refl k in
      absurd (cc)
  | inr z ↦ z
]

select-count_node :
    (l : List (Word × ℕ)) (w v : Word) → select v (count_node l w) ≡ bumped w v (select v l)
select-count_node [] w v =
    ap (select v) (node-new w) ∙ node-last w v ∙ ap (bumped w v) (sym (select-empty v))
select-count_node ((k, n) ∷ l) w v = elim (compare_words k w) [
  | inl e ↦ ap (select v) (node-here k w n l e) ∙ elim (compare_words k v) [
    | inl f ↦
        select-same k v (n + 1) l f
        ∙ sym (bumped-same w v ((k, n) ∷ select v l) (sym e ∙ f))
        ∙ ap (bumped w v) (sym (select-same k v n l f))
    | inr g ↦
        select-other k v (n + 1) l g
        ∙ sym (select-other k v n l g)
        ∙ sym (bumped-other w v (select v ((k, n) ∷ l)) (ap (λ x. same_word x v) (sym e) ∙ g))
  ]
  | inr d ↦ ap (select v) (node-next k w n l d) ∙ elim (compare_words k v) [
    | inl f ↦
        select-same k v n (count_node l w) f
        ∙ ap (λ r. (k, n) ∷ r)
            (select-count_node l w v ∙ bumped-other w v (select v l) (differ k w v d f))
        ∙ sym (select-same k v n l f)
        ∙ sym (bumped-other w v (select v ((k, n) ∷ l)) (differ k w v d f))
    | inr g ↦
        select-other k v n (count_node l w) g
        ∙ select-count_node l w v
        ∙ ap (bumped w v) (sym (select-other k v n l g))
  ]
]

-- Behind an entry without a word there are no nodes.
abbrev pub IsFresh : Component → Type 0
IsFresh row = row.key ≡ none → row.next ≡ []

lines-empty :
    (row : Component) (w : Word)
    → row.next ≡ []
    → entry_output (count_word row none w) (some w) ≡ count_node (entry_output row none) w
unfolding count_word entry_output count_node
lines-empty row w e = ap (λ l. (w, 1) ∷ l) e

count_word-same :
    (row : Component) (k w : Word)
    → same_word k w ≡ true
    → count_word row (some k) w ≡ record row { count = row.count + 1 }
unfolding count_word
count_word-same row k w e = rw e refl

count_word-other :
    (row : Component) (k w : Word)
    → same_word k w ≡ false
    → count_word row (some k) w ≡ record row { next = count_node row.next w }
unfolding count_word
count_word-other row k w e = rw e refl

lines-key :
    (row : Component) (k w : Word)
    → entry_output (count_word row (some k) w) (some k) ≡ count_node (entry_output row (some k)) w
unfolding entry_output
lines-key row k w = elim (compare_words k w) [
  | inl e ↦
      ap (λ r. entry_output r (some k))
        (count_word-same row k w (ap (same_word k) (sym e) ∙ same_word_refl k))
      ∙ sym (node-here k w row.count row.next e)
  | inr d ↦
      ap (λ r. entry_output r (some k)) (count_word-other row k w d)
      ∙ sym (node-next k w row.count row.next d)
]

key-count_word : (row : Component) (k w : Word) → (count_word row (some k) w).key ≡ row.key
unfolding count_word
key-count_word row k w = elim (Bool-cases (same_word k w)) [ inl y ↦ rw y refl | inr z ↦ rw z refl ]

key-first : (row : Component) (w : Word) → (count_word row none w).key ≡ some w
unfolding count_word
key-first row w = refl

lines-from :
    (row : Component) (o : Option Word) (w : Word)
    → row.key ≡ o
    → (o ≡ none → row.next ≡ [])
    → lines (count_word row o w) ≡ count_node (entry_output row o) w
lines-from row none w e fresh =
    ap (entry_output (count_word row none w)) (key-first row w) ∙ lines-empty row w (fresh refl)
lines-from row (some k) w e fresh =
    ap (entry_output (count_word row (some k) w)) (key-count_word row k w ∙ e) ∙ lines-key row k w

-- Counting a word in its entry adds one to its line, or makes one, and leaves the lines of the others.
pub select-count_word :
    (row : Component) (w v : Word)
    → IsFresh row
    → select v (lines (count_word row row.key w)) ≡ bumped w v (select v (lines row))
select-count_word row w v fresh =
    ap (select v) (lines-from row row.key w refl fresh) ∙ select-count_node (lines row) w v

has_key :
    (row : Component) (o : Option Word) (w : Word) → row.key ≡ o → (count_word row o w).key ≢ none
has_key row none w e = λ n. absurd_some (sym (key-first row w) ∙ n)
  where
    absurd_some : some w ≡ none → ⊥
    absurd_some e = cc
has_key row (some k) w e = λ n. absurd_some k (sym (key-count_word row k w ∙ e) ∙ n)
  where
    absurd_some : (k : Word) → some k ≡ none → ⊥
    absurd_some k e = cc

pub IsFresh-count_word : (row : Component) (w : Word) → IsFresh (count_word row row.key w)
IsFresh-count_word row w = λ e. absurd (has_key row row.key w refl e)
