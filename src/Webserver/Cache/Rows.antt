-- ===== src/Webserver/Cache/Rows.antt =====
-- A file behind a row and in the list (webserver/server_thread.c).
use operating_system_ece.Common.{
  ℕ, ◌+◌, ◌≤◌, ◌≡◌, refl, true, false, none, some, List, [], ◌∷◌, ◌++◌, pos, update, arith, inl,
  inr, ◌∙◌, ap, sym,
}
use operating_system_ece.Warmup.Words.{Word, same_word}
use operating_system_ece.Warmup.Words.Parse.{compare_words, same_word_refl}
use operating_system_ece.Webserver.Cache.{
  FileData, Entry, Cache, cache_init, find_file, find_lru, insert_entry,
}
use operating_system_ece.Webserver.Cache.Names.{
  total_size, find_last_same, find_last_other, NoTwice-append, total_size-append,
}
use operating_system_ece.Webserver.Cache.Evict.{
  file_of, same_or_not, update-here, update-else, IsCache,
}

-- A new entry
abbrev pub entry_of : FileData → Entry
entry_of d = record { file = d; reference_count = pos 0 }

file_here :
    (d : FileData) (row : List FileData) (w : Word)
    → d.file_name ≡ w
    → find_file (d ∷ row) w ≡ some d
unfolding find_file
file_here d row w e =
    let y : same_word d.file_name w ≡ true =
      ap (same_word d.file_name) (sym e) ∙ same_word_refl d.file_name in
    rw y refl

file_behind :
    (d : FileData) (row : List FileData) (w : Word)
    → same_word d.file_name w ≡ false
    → find_file (d ∷ row) w ≡ find_file row w
unfolding find_file
file_behind d row w e = rw e refl

pub file_nil : (w : Word) → find_file [] w ≡ none
unfolding find_file
file_nil w = refl

-- A row with a file behind it
file_last_same :
    (row : List FileData) (d : FileData) (w : Word)
    → find_file row w ≡ none
    → d.file_name ≡ w
    → find_file (row ++ (d ∷ [])) w ≡ some d
file_last_same [] d w n e = file_here d [] w e
file_last_same (x ∷ row) d w n e = elim (compare_words x.file_name w) [
  | inl q ↦ let t = file_here x row w q in absurd (cc)
  | inr z ↦
      file_behind x (row ++ (d ∷ [])) w z
      ∙ file_last_same row d w (sym (file_behind x row w z) ∙ n) e
]

file_last_other :
    (row : List FileData) (d : FileData) (w : Word)
    → same_word d.file_name w ≡ false
    → find_file (row ++ (d ∷ [])) w ≡ find_file row w
file_last_other [] d w z = file_behind d [] w z
file_last_other (x ∷ row) d w z = elim (compare_words x.file_name w) [
  | inl q ↦ file_here x (row ++ (d ∷ [])) w q ∙ sym (file_here x row w q)
  | inr u ↦
      file_behind x (row ++ (d ∷ [])) w u ∙ file_last_other row d w z ∙ sym (file_behind x row w u)
]

pub nothing_listed : (w : Word) → file_of (find_lru [] w) ≡ none
unfolding find_lru
nothing_listed w = refl

module _ (hash : Word → ℕ) where
  -- A new file in a cache that has the space
  insert_entry-found :
      (c : Cache) (d : FileData)
      → IsCache hash c
      → find_lru c.lru d.file_name ≡ none
      → (w : Word)
      → find_file
          (update c.rows (hash d.file_name) (c.rows (hash d.file_name) ++ (d ∷ [])) (hash w))
          w
        ≡ file_of (find_lru (c.lru ++ (entry_of d ∷ [])) w)
  insert_entry-found c d h new w = elim (compare_words d.file_name w) [
    | inl e ↦
        ap (λ row. find_file row w)
          (update-here c.rows (hash d.file_name) (hash w) (c.rows (hash d.file_name) ++ (d ∷ []))
            (ap hash (sym e)))
        ∙ file_last_same (c.rows (hash d.file_name)) d w
            (ap (λ v. find_file (c.rows (hash d.file_name)) v) (sym e)
              ∙ h.found d.file_name
              ∙ ap file_of new)
            e
        ∙ sym
            (ap file_of (find_last_same c.lru (entry_of d) w (ap (find_lru c.lru) (sym e) ∙ new) e))
    | inr z ↦
        elim (same_or_not (hash w) (hash d.file_name)) [
          | inl e ↦
              ap (λ row. find_file row w)
                (update-here c.rows (hash d.file_name) (hash w)
                  (c.rows (hash d.file_name) ++ (d ∷ [])) e)
              ∙ file_last_other (c.rows (hash d.file_name)) d w z
              ∙ ap (λ i. find_file (c.rows i) w) (sym e)
          | inr q ↦
              ap (λ row. find_file row w)
                (update-else c.rows (hash d.file_name) (hash w)
                  (c.rows (hash d.file_name) ++ (d ∷ [])) q)
        ]
        ∙ h.found w
        ∙ sym (ap file_of (find_last_other c.lru (entry_of d) w z))
  ]

  pub insert_entry-IsCache :
      (c : Cache) (d : FileData)
      → IsCache hash c
      → find_lru c.lru d.file_name ≡ none
      → d.file_size + c.occupied_cache_size ≤ c.max_cache_size
      → IsCache hash (insert_entry hash c d)
  unfolding insert_entry
  insert_entry-IsCache c d h new fits = record {
    found = insert_entry-found c d h new;
    distinct = NoTwice-append c.lru (entry_of d) h.distinct new;
    counted = ap (λ n. n + d.file_size) h.counted ∙ sym (total_size-append c.lru (entry_of d));
    bounded = omega arith;
  }

  pub cache_init-IsCache : (max : ℕ) → IsCache hash (cache_init max (λ i. []))
  unfolding total_size
  cache_init-IsCache max = record {
    found = λ w. file_nil w ∙ sym (nothing_listed w);
    distinct = tt;
    counted = refl;
    bounded = omega arith;
  }
