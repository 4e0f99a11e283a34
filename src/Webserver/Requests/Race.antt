-- ===== src/Webserver/Requests/Race.antt =====
-- do_server_request (webserver/server_thread.c): what may happen between cache_lookup and find_LRU, where the lock of the
-- cache is not held.
use operating_system_ece.Common.{
  ℕ, ◌+◌, ◌≤◌, ◌<◌, ◌≡◌, refl, true, false, ltb, none, some, List, [], ◌∷◌, update, arith, ◌∙◌, ap,
}
use operating_system_ece.Warmup.Words.{Word, same_word}
use operating_system_ece.Webserver.Cache.{
  FileData, Cache, ended, freed_read, cache_init, find_file, find_lru, set_lru, is_short, looked_up,
  cache_lookup, evict_only, evict_lru_hash, insert_entry, insert_evicted, hashtable_insert,
}
use operating_system_ece.Webserver.Cache.Names.{find_here, find_behind, different_sym}
use operating_system_ece.Webserver.Cache.Rows.{
  entry_of, file_nil, nothing_listed, cache_init-IsCache, insert_entry-IsCache,
}
use operating_system_ece.Webserver.Cache.Evict.{file_of, missing_entry, IsCache, update-here}
use operating_system_ece.Webserver.Requests.{
  Request, asks, located, reads, served, take_reference, take_found, search_cache, keep_file,
  store_file, finds, misses, stores, continues, Serves, opened, acts,
}

module _ (hash : Word → ℕ) where
  search-miss :
      (c : Cache) (w : Word)
      → ltb 0 c.max_cache_size ≡ true
      → find_file (c.rows (hash w)) w ≡ none
      → search_cache hash c w ≡ (none, c)
  unfolding search_cache cache_lookup
  search-miss c w positive n = rw positive (ap (looked_up hash c w true) n)

  search-hit :
      (c : Cache) (w : Word) (d : FileData)
      → ltb 0 c.max_cache_size ≡ true
      → find_file (c.rows (hash w)) w ≡ some d
      → search_cache hash c w ≡ (some d, record c { lru = set_lru c.lru w })
  unfolding search_cache cache_lookup
  search-hit c w d positive n = rw positive (ap (looked_up hash c w true) n)

  store-miss :
      (c : Cache) (d : FileData)
      → ltb 0 c.max_cache_size ≡ true
      → find_file (c.rows (hash d.file_name)) d.file_name ≡ none
      → store_file hash c d ≡ hashtable_insert hash c d
  unfolding store_file cache_lookup
  store-miss c d positive n =
      rw positive (ap (λ o. keep_file hash d (looked_up hash c d.file_name false o)) n)

  insert-fits :
      (c : Cache) (d : FileData)
      → ltb c.max_cache_size d.file_size ≡ false
      → is_short c d.file_size ≡ false
      → hashtable_insert hash c d ≡ ended (insert_entry hash c d)
  unfolding hashtable_insert
  insert-fits c d a b = rw a (rw b refl)

  insert-evicts :
      (c : Cache) (d : FileData)
      → ltb c.max_cache_size d.file_size ≡ false
      → is_short c d.file_size ≡ true
      → hashtable_insert hash c d ≡ insert_evicted hash d (evict_lru_hash hash c d.file_size)
  unfolding hashtable_insert
  insert-evicts c d a b = rw a (rw b refl)

  module _ (max : ℕ) (d e : FileData) (small : d.file_size ≤ max) (small' : e.file_size ≤ max)
      (large : max < e.file_size + d.file_size) (other : same_word e.file_name d.file_name ≡ false)
      (other' : same_word d.file_name e.file_name ≡ false) where
    abbrev none_yet : Cache
    none_yet = cache_init max (λ i. [])

    -- The cache with the first file, and with the second in its place
    abbrev first : Cache
    first = insert_entry hash none_yet d

    abbrev second : Cache
    second =
        insert_entry hash
          (record first {
            occupied_cache_size = 0;
            rows = update first.rows (hash d.file_name) [];
            lru = [];
          })
          e

    positive : ltb 0 max ≡ true
    positive = ground arith

    first-IsCache : IsCache hash first
    first-IsCache =
        insert_entry-IsCache hash none_yet d (cache_init-IsCache hash max)
          (missing_entry (find_lru [] d.file_name) (nothing_listed d.file_name)) (omega arith)

    first-lru : first.lru ≡ entry_of d ∷ []
    unfolding insert_entry
    first-lru = refl

    first-max : first.max_cache_size ≡ max
    unfolding insert_entry
    first-max = refl

    stores_first : store_file hash none_yet d ≡ ended first
    stores_first =
        store-miss none_yet d positive (file_nil d.file_name)
        ∙ insert-fits none_yet d (ground arith) (ground arith)

    first-other : find_file (first.rows (hash e.file_name)) e.file_name ≡ none
    first-other =
        first-IsCache.found e.file_name
        ∙ ap (λ l. file_of (find_lru l e.file_name)) first-lru
        ∙ ap file_of (find_behind (entry_of d) [] e.file_name other')
        ∙ nothing_listed e.file_name

    first-here : find_file (first.rows (hash d.file_name)) d.file_name ≡ some d
    first-here =
        first-IsCache.found d.file_name
        ∙ ap (λ l. file_of (find_lru l d.file_name)) first-lru
        ∙ ap file_of (find_here (entry_of d) [] d.file_name refl)

    finds_first : search_cache hash first d.file_name ≡ (some d, first)
    unfolding insert_entry set_lru
    finds_first = search-hit first d.file_name d positive first-here

    first-row : first.rows (hash d.file_name) ≡ d ∷ []
    unfolding insert_entry
    first-row = update-here (λ i. []) (hash d.file_name) (hash d.file_name) (d ∷ []) refl

    evicts_first :
        evict_lru_hash hash first e.file_size
        ≡ ended (
          true,
          record first {
            occupied_cache_size = 0;
            rows = update first.rows (hash d.file_name) [];
            lru = [];
          },
        )
    unfolding evict_lru_hash insert_entry
    evicts_first = ap (evict_only first (hash d.file_name)) first-row

    short : is_short first e.file_size ≡ true
    unfolding insert_entry
    short = ground arith

    stores_second : store_file hash first e ≡ ended second
    stores_second =
        store-miss first e (ap (ltb 0) first-max ∙ positive) first-other
        ∙ insert-evicts first e (ap (λ m. ltb m e.file_size) first-max ∙ ground arith) short
        ∙ ap (insert_evicted hash e) evicts_first

    second_takes : take_reference second d ≡ freed_read
    unfolding take_reference insert_entry
    second_takes = ap (take_found second d) (
        find_behind (entry_of e) [] d.file_name other
        ∙ missing_entry (find_lru [] d.file_name) (nothing_listed d.file_name))

    misses_first : search_cache hash none_yet d.file_name ≡ (none, none_yet)
    misses_first = search-miss none_yet d.file_name positive (file_nil d.file_name)

    misses_second : search_cache hash first e.file_name ≡ (none, first)
    misses_second = search-miss first e.file_name (ap (ltb 0) first-max ∙ positive) first-other

    abbrev At : Cache → List Request → Type 0
    At c threads = Serves hash max (record { cache = c; threads = threads })

    -- The first thread puts its file into the cache and finds it there; the second one has read another file.
    both_ready :
        Serves hash max (record { cache = first; threads = located d ∷ reads e.file_name ∷ [] })
    both_ready =
        let dn = d.file_name in
        let en = e.file_name in
        let s0 : At none_yet (asks dn ∷ asks en ∷ []) = opened (dn ∷ en ∷ []) in
        let s1 : At none_yet (reads dn ∷ asks en ∷ []) =
          acts none_yet [] (asks dn) (asks en ∷ []) (reads dn) none_yet s0
            (misses dn none_yet misses_first) in
        let s2 : At first (served ∷ asks en ∷ []) =
          acts none_yet [] (reads dn) (asks en ∷ []) served first s1
            (stores d first stores_first) in
        let s3 : At first (asks dn ∷ asks en ∷ []) =
          acts first [] served (asks en ∷ []) (asks dn) first s2 (continues dn) in
        let s4 : At first (asks dn ∷ reads en ∷ []) =
          acts first (asks dn ∷ []) (asks en) [] (reads en) first s3
            (misses en first misses_second) in
        acts first [] (asks dn) (reads en ∷ []) (located d) first s4 (finds dn d first finds_first)

    pub second_evicts :
        (c : Cache) × Serves hash max (record { cache = c; threads = located d ∷ served ∷ [] })
        × (take_reference c d ≡ freed_read)
    second_evicts = (
      second,
      acts first (located d ∷ []) (reads e.file_name) [] served second both_ready
          (stores e second stores_second),
      second_takes,
    )

-- Two files with different names that each fit into the cache, but not together: two threads that ask for them come to a
-- state in which one has found its file in the cache but has no reference yet, while the other has evicted it.
-- find_LRU then reads the name in memory that was freed.
pub located_then_evicted :
    (hash : Word → ℕ) (max : ℕ) (d e : FileData)
    → d.file_size ≤ max
    → e.file_size ≤ max
    → max < e.file_size + d.file_size
    → same_word d.file_name e.file_name ≡ false
    → (c : Cache) × Serves hash max (record { cache = c; threads = located d ∷ served ∷ [] })
      × (take_reference c d ≡ freed_read)
located_then_evicted hash max d e small small' large other =
    second_evicts hash max d e small small' large (different_sym d.file_name e.file_name other)
      other
