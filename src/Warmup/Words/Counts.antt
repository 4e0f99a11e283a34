-- ===== src/Warmup/Words/Counts.antt =====
-- The counts of wc_init (warmup/wc.c): the hash table keeps, at the entry of a word's hash, one line for each word
-- that was counted.
use operating_system_ece.Common.{
  ℕ, zero, suc, ◌+◌, ◌≡◌, ◌≢◌, refl, true, false, ltb, ◌==◌, List, [], ◌∷◌, ◌++◌, update, arith,
  if◌then◌else◌, Bool-cases, inl, inr, ◌⊎◌, ◌∙◌, ap, sym, subst,
}
use operating_system_ece.Warmup.Words.{
  Word, same_word, Component, Table, count_word, count_parsed, entry_output, output_from,
}
use operating_system_ece.Warmup.Words.Parse.{compare_words, same_word_refl, nonempty}
use operating_system_ece.Warmup.Words.Chains.{
  select, select-append, bump, lines, bumped, bumped-same, bumped-other, IsFresh, select-count_word,
  IsFresh-count_word,
}

-- The lines of a word that was counted `n` times
unfoldable pub tally : Word → ℕ → List (Word × ℕ)
tally w zero = []
tally w (suc n) = (w, suc n) ∷ []

bump-tally : (w : Word) (n : ℕ) → bump w (tally w n) ≡ tally w (suc n)
unfolding tally
bump-tally w zero = refl
bump-tally w (suc n) = ap (λ m. (w, m) ∷ []) (omega arith)

-- How often a word is in a list of words
unfoldable pub occurrences : Word → List Word → ℕ
occurrences w [] = 0
occurrences w (v ∷ ws) = let rest = occurrences w ws in if same_word v w then suc rest else rest

-- The counts of all words when `w` was counted once more, if it is not empty
unfoldable pub after : Word → (Word → ℕ) → Word → ℕ
after [] f v = f v
after (c ∷ w) f v = if same_word (c ∷ w) v then suc (f v) else f v

pub after-occurrences :
    (w v : Word) (f : Word → ℕ) (ws : List Word)
    → after w f v + occurrences v (nonempty ws) ≡ f v + occurrences v (nonempty (w ∷ ws))
unfolding after occurrences nonempty
after-occurrences [] v f ws = refl
after-occurrences (c ∷ w) v f ws = elim (Bool-cases (same_word (c ∷ w) v)) [
  | inl y ↦ rw y (omega arith)
  | inr z ↦ rw z refl
]

-- What an entry prints for a word
abbrev pub share : ℕ → ℕ → Word → ℕ → List (Word × ℕ)
share h i w n = if h == i then tally w n else []

share-here : (h i : ℕ) (w : Word) (n : ℕ) → h ≡ i → share h i w n ≡ tally w n
share-here h i w n e = let t : (h == i) ≡ true = ground arith in rw t refl

share-else : (h i : ℕ) (w : Word) (n : ℕ) → h ≢ i → share h i w n ≡ []
share-else h i w n d = let t : (h == i) ≡ false = ground arith in rw t refl

module _ (hash : Word → ℕ) where
  -- Each word `w` has its line, with the count `f w`, at the entry of its hash, and nowhere else.
  abbrev pub Tallied : Table → (Word → ℕ) → Type 0
  Tallied table f =
      ((i : ℕ) (w : Word) → select w (lines (table i)) ≡ share (hash w) i w (f w))
      × ((i : ℕ) → IsFresh (table i))

  pub Tallied-eq :
      (table : Table) (f g : Word → ℕ)
      → ((w : Word) → f w ≡ g w)
      → Tallied table f
      → Tallied table g
  Tallied-eq table f g e (t, fresh) = (λ i w. t i w ∙ ap (share (hash w) i w) (e w), fresh)

  after-same : (c : ℕ) (w v : Word) (f : Word → ℕ) → (c ∷ w) ≡ v → after (c ∷ w) f v ≡ suc (f v)
  unfolding after
  after-same c w v f e =
      let y : same_word (c ∷ w) v ≡ true =
        ap (same_word (c ∷ w)) (sym e) ∙ same_word_refl (c ∷ w) in
      rw y refl

  after-other :
      (c : ℕ) (w v : Word) (f : Word → ℕ) → same_word (c ∷ w) v ≡ false → after (c ∷ w) f v ≡ f v
  unfolding after
  after-other c w v f e = rw e refl

  -- The entry that is changed
  share-bumped :
      (c : ℕ) (w v : Word) (f : Word → ℕ) (h : ℕ)
      → h ≡ hash (c ∷ w)
      → bumped (c ∷ w) v (share (hash v) h v (f v)) ≡ share (hash v) h v (after (c ∷ w) f v)
  share-bumped c w v f h q = elim (compare_words (c ∷ w) v) [
    | inl e ↦
        let here : hash v ≡ h = ap hash (sym e) ∙ sym q in
        ap (bumped (c ∷ w) v) (share-here (hash v) h v (f v) here)
        ∙ bumped-same (c ∷ w) v (tally v (f v)) e
        ∙ bump-tally v (f v)
        ∙ ap (tally v) (sym (after-same c w v f e))
        ∙ sym (share-here (hash v) h v (after (c ∷ w) f v) here)
    | inr d ↦
        bumped-other (c ∷ w) v (share (hash v) h v (f v)) d
        ∙ ap (share (hash v) h v) (sym (after-other c w v f d))
  ]

  -- The others
  share-kept :
      (c : ℕ) (w v : Word) (f : Word → ℕ) (i : ℕ)
      → i ≢ hash (c ∷ w)
      → share (hash v) i v (f v) ≡ share (hash v) i v (after (c ∷ w) f v)
  share-kept c w v f i q = elim (compare_words (c ∷ w) v) [
    | inl e ↦
        let off : hash v ≢ i = λ r. q (sym r ∙ ap hash (sym e)) in
        share-else (hash v) i v (f v) off ∙ sym (share-else (hash v) i v (after (c ∷ w) f v) off)
    | inr d ↦ ap (share (hash v) i v) (sym (after-other c w v f d))
  ]

  update-same : (table : Table) (h : ℕ) (row : Component) → update table h row h ≡ row
  update-same table h row = let t : (h == h) ≡ true = ground arith in rw t refl

  update-other :
      (table : Table) (h i : ℕ) (row : Component) → i ≢ h → update table h row i ≡ table i
  update-other table h i row d = let t : (i == h) ≡ false = ground arith in rw t refl

  eq-or-not : (i h : ℕ) → (i ≡ h) ⊎ (i ≢ h)
  eq-or-not i h = elim (Bool-cases (i == h)) [
    | inl y ↦ inl (ground arith)
    | inr z ↦ inr (λ e. absurd (ground arith))
  ]

  count_parsed-same :
      (table : Table) (c : ℕ) (w : Word)
      → count_parsed hash table (c ∷ w)
        ≡ update table
            (hash (c ∷ w))
            (count_word (table (hash (c ∷ w))) (table (hash (c ∷ w))).key (c ∷ w))
  unfolding count_parsed
  count_parsed-same table c w = refl

  -- Counting a word that was parsed
  pub count_parsed-Tallied :
      (table : Table) (f : Word → ℕ) (w : Word)
      → Tallied table f
      → Tallied (count_parsed hash table w) (after w f)
  unfolding count_parsed after
  count_parsed-Tallied table f [] t = t
  count_parsed-Tallied table f (c ∷ w) (t, fresh) = (
    λ i v. elim (eq-or-not i (hash (c ∷ w))) [
      | inl e ↦
          subst
            (λ j.
              select v (lines (count_parsed hash table (c ∷ w) j))
              ≡ share (hash v) j v (after (c ∷ w) f v))
            (sym e)
            (ap (λ r. select v (lines r))
                (update-same table (hash (c ∷ w))
                  (count_word (table (hash (c ∷ w))) (table (hash (c ∷ w))).key (c ∷ w)))
              ∙ select-count_word (table (hash (c ∷ w))) (c ∷ w) v (fresh (hash (c ∷ w)))
              ∙ ap (bumped (c ∷ w) v) (t (hash (c ∷ w)) v)
              ∙ share-bumped c w v f (hash (c ∷ w)) refl)
      | inr d ↦
          ap (λ r. select v (lines r))
            (update-other table (hash (c ∷ w)) i
              (count_word (table (hash (c ∷ w))) (table (hash (c ∷ w))).key (c ∷ w)) d)
          ∙ t i v
          ∙ share-kept c w v f i d
    ],
    λ i. elim (eq-or-not i (hash (c ∷ w))) [
      | inl e ↦
          subst IsFresh
            (sym (
              ap
                (update table (hash (c ∷ w))
                  (count_word (table (hash (c ∷ w))) (table (hash (c ∷ w))).key (c ∷ w)))
                e
              ∙ update-same table (hash (c ∷ w))
                  (count_word (table (hash (c ∷ w))) (table (hash (c ∷ w))).key (c ∷ w))))
            (IsFresh-count_word (table (hash (c ∷ w))) (c ∷ w))
      | inr d ↦
          subst IsFresh
            (sym (
              update-other table (hash (c ∷ w)) i
                (count_word (table (hash (c ∷ w))) (table (hash (c ∷ w))).key (c ∷ w)) d))
            (fresh i)
    ],
  )

  share-append :
      (w : Word) (f : Word → ℕ) (n : ℕ)
      → (if ltb (hash w) n then tally w (f w) else []) ++ share (hash w) n w (f w)
        ≡ (if ltb (hash w) (suc n) then tally w (f w) else [])
  share-append w f n = elim (eq-or-not (hash w) n) [
    | inl e ↦
        let s : ltb (hash w) n ≡ false = ground arith in
        let t : ltb (hash w) (suc n) ≡ true = ground arith in
        let u : (hash w == n) ≡ true = ground arith in rw s (rw t (rw u refl))
    | inr d ↦
        let u : (hash w == n) ≡ false = ground arith in
        let s : ltb (hash w) (suc n) ≡ ltb (hash w) n = ground arith in
        rw u (rw s (append_nil (if ltb (hash w) n then tally w (f w) else [])))
  ]
    where
      append_nil : (l : List (Word × ℕ)) → l ++ [] ≡ l
      append_nil [] = refl
      append_nil (x ∷ l) = ap (λ m. x ∷ m) (append_nil l)

  -- What `wc_output` prints for a word
  pub select-output_from :
      (table : Table) (f : Word → ℕ) (w : Word) (n : ℕ)
      → Tallied table f
      → select w (output_from table n) ≡ (if ltb (hash w) n then tally w (f w) else [])
  unfolding output_from select
  select-output_from table f w zero t = let s : ltb (hash w) 0 ≡ false = ground arith in rw s refl
  select-output_from table f w (suc n) (t, fresh) =
      select-append w (output_from table n) (entry_output (table n) (table n).key)
      ∙ ap (λ l. l ++ select w (lines (table n))) (select-output_from table f w n (t, fresh))
      ∙ ap (λ l. (if ltb (hash w) n then tally w (f w) else []) ++ l) (t n w)
      ∙ share-append w f n
