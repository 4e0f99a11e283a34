-- ===== src/Webserver/Cache/Insert.antt =====
-- hashtable_insert (webserver/server_thread.c): the files that the cache holds afterwards.
use operating_system_ece.Common.{
  ℕ, ◌+◌, ◌≤◌, ◌<◌, ◌≡◌, ◌≢◌, refl, Bool, true, false, ltb, none, some, List, [], ◌∷◌, ◌++◌,
  is_zero, update, arith, if◌then◌else◌, Bool-cases, inl, inr, ◌⊎◌, ◌∙◌, ap, sym, subst,
}
use operating_system_ece.Warmup.Words.{Word}
use operating_system_ece.Warmup.Words.Parse.{compare_words}
use operating_system_ece.Webserver.Cache.{
  FileData, Entry, Cache, Outcome, ended, null_read, freed_read, stray, find_file, find_lru,
  is_short, evict_only, evict_entries, evict_lru_hash, insert_entry, insert_evicted,
  hashtable_insert,
}
use operating_system_ece.Webserver.Cache.Names.{name_of, total_size, find_here, find_behind}
use operating_system_ece.Webserver.Cache.Rows.{
  entry_of, file_nil, nothing_listed, insert_entry-IsCache,
}
use operating_system_ece.Webserver.Cache.Evict.{
  file_of, unused, same_or_not, update-here, update-else, IsCache, IsPart, evict_from_lem,
}

-- The list has several entries.
abbrev pub Several : List Entry → Type 0
Several l = (x : Entry) × (y : Entry) × (rest : List Entry) × (l ≡ x ∷ y ∷ rest)

module _ (hash : Word → ℕ) where
  -- What `evict_LRU_hash` is to do where the space is short
  abbrev Evicts : Cache → Outcome (Bool × Cache) → Type 0
  Evicts c (ended (true, c')) =
      (c'.lru ≡ [])
      × (c'.occupied_cache_size ≡ 0)
      × (c'.max_cache_size ≡ c.max_cache_size)
      × IsCache hash c'
      × ((x : Entry) × (c.lru ≡ x ∷ []) × (is_zero x.reference_count ≡ true))
  Evicts c (ended (false, c')) = (c' ≡ c) × (unused c.lru ≡ false)
  Evicts c freed_read = Several c.lru × (unused c.lru ≡ true)
  Evicts c null_read = ⊥
  Evicts c stray = ⊥

  emptied_found :
      (c : Cache) (x : Entry)
      → IsCache hash c
      → c.lru ≡ x ∷ []
      → (w : Word)
      → find_file (update c.rows (hash (name_of x)) [] (hash w)) w ≡ file_of (find_lru [] w)
  emptied_found c x h e w = elim (same_or_not (hash w) (hash (name_of x))) [
    | inl q ↦
        ap (λ row. find_file row w) (update-here c.rows (hash (name_of x)) (hash w) [] q)
        ∙ file_nil w
        ∙ sym (nothing_listed w)
    | inr q ↦
        ap (λ row. find_file row w) (update-else c.rows (hash (name_of x)) (hash w) [] q)
        ∙ h.found w
        ∙ ap (λ l. file_of (find_lru l w)) e
        ∙ ap file_of (elim (compare_words (name_of x) w) [
          | inl y ↦ absurd (q (ap hash (sym y)))
          | inr z ↦ find_behind x [] w z
        ])
  ]

  evict_only-Evicts :
      (c : Cache) (x : Entry) (row : List FileData)
      → IsCache hash c
      → c.lru ≡ x ∷ []
      → is_zero x.reference_count ≡ true
      → c.rows (hash (name_of x)) ≡ row
      → Evicts c (evict_only c (hash (name_of x)) row)
  unfolding total_size
  evict_only-Evicts c x [] h e z q =
      let listed : some x.file ≡ file_of (find_lru c.lru (name_of x)) = sym (
        ap (λ l. file_of (find_lru l (name_of x))) e
        ∙ ap file_of (find_here x [] (name_of x) refl)) in
      let missing = ap (λ row. find_file row (name_of x)) (sym q) ∙ h.found (name_of x) in
      none_some x.file (sym (file_nil (name_of x)) ∙ missing ∙ sym listed)
    where
      none_some : (d : FileData) → none ≡ some d → ⊥
      none_some d e = cc
  evict_only-Evicts c x (d ∷ row) h e z q = (
    refl,
    refl,
    refl,
    record { found = emptied_found c x h e; distinct = tt; counted = refl; bounded = omega arith },
    (x, e, z),
  )

  Several-Evicts :
      (c : Cache) (b : Bool)
      → Several c.lru
      → unused c.lru ≡ b
      → Evicts c (if b then freed_read else ended (false, c))
  Several-Evicts c true l u = (l, u)
  Several-Evicts c false l u = (refl, u)

  evict_entries-Evicts :
      (c : Cache) (n : ℕ) (l : List Entry)
      → IsCache hash c
      → c.lru ≡ l
      → is_short c n ≡ true
      → Evicts c (evict_entries hash c n l)
  unfolding evict_entries unused
  evict_entries-Evicts c n [] h e s = (refl, ap unused e)
  evict_entries-Evicts c n (x ∷ []) h e s = elim (Bool-cases (is_zero x.reference_count)) [
    | inl y ↦ rw y (evict_only-Evicts c x (c.rows (hash (name_of x))) h e y refl)
    | inr z ↦ rw z (refl, ap unused e ∙ rw z refl)
  ]
  evict_entries-Evicts c n (x ∷ y ∷ l) h e s =
      let part : IsPart hash c (x ∷ y ∷ l) = λ w p. subst (λ m. find_lru m w ≢ none) (sym e) p in
      subst (Evicts c) (sym (evict_from_lem hash c n (x ∷ y ∷ l) h part s))
        (Several-Evicts c (unused (x ∷ y ∷ l)) (x, y, l, e) (ap unused e))

  -- What `hashtable_insert` is to do
  abbrev pub Inserts : Cache → FileData → Outcome Cache → Type 0
  Inserts c d (ended c') =
      IsCache hash c'
      × ((c'.lru ≡ c.lru ++ (entry_of d ∷ []))
          ⊎ ((c'.lru ≡ entry_of d ∷ [])
              × ((x : Entry) × (c.lru ≡ x ∷ []) × (is_zero x.reference_count ≡ true)))
          ⊎ ((c' ≡ c)
              × ((c.max_cache_size < d.file_size)
                  ⊎ ((c.max_cache_size < d.file_size + c.occupied_cache_size)
                      × (unused c.lru ≡ false)))))
  Inserts c d freed_read =
      (d.file_size ≤ c.max_cache_size)
      × (c.max_cache_size < d.file_size + c.occupied_cache_size)
      × Several c.lru
      × (unused c.lru ≡ true)
  Inserts c d null_read = ⊥
  Inserts c d stray = ⊥

  nothing_found : (l : List Entry) (w : Word) → l ≡ [] → find_lru l w ≡ none
  unfolding find_lru
  nothing_found l w e = ap (λ m. find_lru m w) e

  insert_evicted-Inserts :
      (c : Cache) (d : FileData) (o : Outcome (Bool × Cache))
      → IsCache hash c
      → d.file_size ≤ c.max_cache_size
      → c.max_cache_size < d.file_size + c.occupied_cache_size
      → Evicts c o
      → Inserts c d (insert_evicted hash d o)
  unfolding insert_entry
  insert_evicted-Inserts c d (ended (true, c')) h fits short (gone, free, max, h', only) = (
    insert_entry-IsCache hash c' d h' (nothing_found c'.lru d.file_name gone) (omega arith),
    inr (inl (ap (λ l. l ++ (entry_of d ∷ [])) gone, only)),
  )
  insert_evicted-Inserts c d (ended (false, c')) h fits short (same, u) =
      (subst (IsCache hash) (sym same) h, inr (inr (same, inr (short, u))))
  insert_evicted-Inserts c d freed_read h fits short (l, u) = (fits, short, l, u)
  insert_evicted-Inserts c d null_read h fits short e = e
  insert_evicted-Inserts c d stray h fits short e = e

  -- Of a file that the cache does not have: it is put at the end of the list where there is space for it, or
  -- in place of the only entry, if nothing refers to that. The cache stays as it is where the file is larger
  -- than the cache, or where something refers to each entry. Otherwise, with several entries of which one is
  -- unused, memory is read that was freed.
  pub hashtable_insert-Inserts :
      (c : Cache) (d : FileData)
      → IsCache hash c
      → find_lru c.lru d.file_name ≡ none
      → Inserts c d (hashtable_insert hash c d)
  unfolding hashtable_insert insert_entry evict_lru_hash
  hashtable_insert-Inserts c d h new = elim (Bool-cases (ltb c.max_cache_size d.file_size)) [
    | inl y ↦ rw y (h, inr (inr (refl, inl (ground arith))))
    | inr z ↦ rw z (elim (Bool-cases (is_short c d.file_size)) [
      | inl y ↦ rw y (
          insert_evicted-Inserts c d (evict_entries hash c d.file_size c.lru) h (ground arith)
            (ground arith) (evict_entries-Evicts c d.file_size c.lru h refl y))
      | inr n ↦ rw n (insert_entry-IsCache hash c d h new (ground arith), inl refl)
    ])
  ]
