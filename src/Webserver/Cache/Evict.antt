-- ===== src/Webserver/Cache/Evict.antt =====
-- cache_lookup and evict_LRU_hash (webserver/server_thread.c) on a cache whose rows agree with its list.
use operating_system_ece.Common.{
  ℕ, ◌≤◌, ◌≡◌, ◌≢◌, refl, Bool, true, false, ◌==◌, Option, none, some, List, [], ◌∷◌, is_zero,
  update, arith, if◌then◌else◌, Bool-cases, inl, inr, ◌⊎◌, ◌∙◌, ap, sym,
}
use operating_system_ece.Warmup.Words.{Word}
use operating_system_ece.Warmup.Words.Parse.{compare_words}
use operating_system_ece.Webserver.Cache.{
  FileData, Entry, Cache, Outcome, ended, freed_read, stray, find_file, find_lru, is_short,
  hash_delete, evict_from, looked_up, cache_lookup,
}
use operating_system_ece.Webserver.Cache.Names.{
  name_of, NoTwice, total_size, find_here, find_behind, last_used, set_lru-Moves,
}

abbrev pub file_of : Option Entry → Option FileData
file_of none = none
file_of (some x) = some x.file

-- An entry to which nothing refers
unfoldable pub unused : List Entry → Bool
unused [] = false
unused (x ∷ l) = if is_zero x.reference_count then true else unused l

pub missing_entry : (o : Option Entry) → file_of o ≡ none → o ≡ none
missing_entry none e = refl
missing_entry (some x) e = absurd (cc)

pub same_or_not : (i j : ℕ) → (i ≡ j) ⊎ (i ≢ j)
same_or_not i j = elim (Bool-cases (i == j)) [
  | inl y ↦ inl (ground arith)
  | inr z ↦ inr (λ e. absurd (ground arith))
]

pub update-here :
    (rows : ℕ → List FileData) (i j : ℕ) (row : List FileData) → j ≡ i → update rows i row j ≡ row
update-here rows i j row e = let t : (j == i) ≡ true = ground arith in rw t refl

pub update-else :
    (rows : ℕ → List FileData) (i j : ℕ) (row : List FileData)
    → j ≢ i
    → update rows i row j ≡ rows j
update-else rows i j row d = let t : (j == i) ≡ false = ground arith in rw t refl

-- The end of an eviction by `hash_delete`
deleted_lem :
    (row : List FileData) (name : Word)
    → find_file row name ≢ none
    → hash_delete row name ≡ freed_read
unfolding hash_delete find_file
deleted_lem [] name h = absurd (h refl)
deleted_lem (d ∷ []) name h = refl
deleted_lem (d ∷ e ∷ row) name h = present (find_file (d ∷ e ∷ row) name) h
  where
    present :
        (o : Option FileData)
        → o ≢ none
        → ◌≡◌ {A = Outcome (Bool × Cache)}
            (elim o [ none ↦ stray | some _ ↦ freed_read ])
            freed_read
    present none h = absurd (h refl)
    present (some d) h = refl

module _ (hash : Word → ℕ) where
  -- The rows hold the files of the list, no name stands in the list twice, and the files fit into the cache.
  pub record IsCache (c : Cache) : Type 0 where
    pub found : (w : Word) → find_file (c.rows (hash w)) w ≡ file_of (find_lru c.lru w)
    pub distinct : NoTwice c.lru
    pub counted : c.occupied_cache_size ≡ total_size c.lru
    pub bounded : c.occupied_cache_size ≤ c.max_cache_size

  -- What `cache_lookup` is to do
  abbrev pub LooksUp : Cache → Word → Bool → Option FileData × Cache → Type 0
  LooksUp c w u (o, c') =
      (o ≡ file_of (find_lru c.lru w))
      × (c'.lru ≡ (if u then last_used c.lru w (find_lru c.lru w) else c.lru))
      × (c'.max_cache_size ≡ c.max_cache_size)
      × IsCache c'

  looked_up-LooksUp :
      (c : Cache) (w : Word) (u : Bool) (o : Option FileData)
      → IsCache c
      → o ≡ file_of (find_lru c.lru w)
      → LooksUp c w u (looked_up hash c w u o)
  looked_up-LooksUp c w false none h e = (e, refl, refl, h)
  looked_up-LooksUp c w true none h e =
      (e, ap (last_used c.lru w) (sym (missing_entry (find_lru c.lru w) (sym e))), refl, h)
  looked_up-LooksUp c w false (some d) h e = (e, refl, refl, h)
  looked_up-LooksUp c w true (some d) h e =
      let moved = set_lru-Moves c.lru w h.distinct in
      (
        e,
        moved.order,
        refl,
        record {
          found = λ v. h.found v ∙ ap file_of (sym (moved.same_files v));
          distinct = moved.distinct;
          counted = h.counted ∙ sym moved.same_size;
          bounded = h.bounded;
        },
      )

  -- `cache_lookup` returns the file of that name, if the cache has it. To update means that its entry goes to
  -- the end of the list and the others keep their order; the cache has the same files as before.
  pub cache_lookup-LooksUp :
      (c : Cache) (w : Word) (u : Bool) → IsCache c → LooksUp c w u (cache_lookup hash c w u)
  unfolding cache_lookup
  cache_lookup-LooksUp c w u h =
      looked_up-LooksUp c w u (find_file (c.rows (hash w)) w) h (h.found w)

  -- Each name of a part of the list is in the list.
  abbrev pub IsPart : Cache → List Entry → Type 0
  IsPart c l = (w : Word) → find_lru l w ≢ none → find_lru c.lru w ≢ none

  pub some_not_none : (o : Option Entry) (x : Entry) → o ≡ some x → o ≢ none
  some_not_none o x e = λ n. absurd (cc)

  IsPart-behind : (c : Cache) (x : Entry) (l : List Entry) → IsPart c (x ∷ l) → IsPart c l
  IsPart-behind c x l p w h = p w (elim (compare_words (name_of x) w) [
    | inl e ↦ some_not_none (find_lru (x ∷ l) w) x (find_here x l w e)
    | inr d ↦ λ n. h (sym (find_behind x l w d) ∙ n)
  ])

  row_has :
      (c : Cache) (x : Entry) (l : List Entry)
      → IsCache c
      → IsPart c (x ∷ l)
      → find_file (c.rows (hash (name_of x))) (name_of x) ≢ none
  row_has c x l h p = λ n.
      p (name_of x)
        (some_not_none (find_lru (x ∷ l) (name_of x)) x (find_here x l (name_of x) refl))
        (missing_entry (find_lru c.lru (name_of x)) (sym (h.found (name_of x)) ∙ n))

  -- Where the space is short, the loop over several entries reads freed memory at the first that is unused.
  pub evict_from_lem :
      (c : Cache) (n : ℕ) (l : List Entry)
      → IsCache c
      → IsPart c l
      → is_short c n ≡ true
      → evict_from hash c n l ≡ (if unused l then freed_read else ended (false, c))
  unfolding evict_from unused
  evict_from_lem c n [] h p s = refl
  evict_from_lem c n (x ∷ l) h p s = elim (Bool-cases (is_zero x.reference_count)) [
    | inl y ↦ rw (s, y) (deleted_lem (c.rows (hash (name_of x))) (name_of x) (row_has c x l h p))
    | inr z ↦ rw (s, z) (evict_from_lem c n l h (IsPart-behind c x l p) s)
  ]
