-- ===== src/Webserver/Requests.antt =====
-- webserver/server_thread.c: do_server_request, whose parts with the cache's lock held are steps of the threads.
pub mod References
pub mod Counts
pub mod Stored
pub mod Kept
pub mod Race
use operating_system_ece.Common.{
  ℕ, zero, suc, ◌+◌, Bool, true, false, ltb, Option, none, some, List, [], ◌∷◌, ◌++◌, ◌≡◌, ℤ, pos,
  increment, decrement, ◌==◌, if◌then◌else◌,
}
use operating_system_ece.Warmup.Words.{Word, same_word}
use operating_system_ece.Webserver.Cache.{
  FileData, Entry, Cache, Outcome, ended, null_read, freed_read, cache_init, find_lru, cache_lookup,
  hashtable_insert,
}

-- `reference_count++` and `reference_count--` in the entry with a name
unfoldable pub count_reference : (ℤ → ℤ) → List Entry → Word → List Entry
count_reference change [] name = []
count_reference change (x ∷ l) name =
    let rest = count_reference change l name in
    if same_word x.file.file_name name
    then record x { reference_count = change x.reference_count } ∷ l
    else x ∷ rest

-- The file that was found may have been evicted since: an empty list gives a NULL, and with any entry the name is
-- read in the file's memory, which was freed.
abbrev pub take_missing : List Entry → Outcome Cache
take_missing [] = null_read
take_missing (x ∷ l) = freed_read

-- Behind find_LRU, for the file `d` that was located: an entry of the same name with another file means that
-- `d` was evicted since, and the name was read in freed memory.
abbrev pub take_found : Cache → FileData → Option Entry → Outcome Cache
take_found c d none = take_missing c.lru
take_found c d (some x) =
    if x.file.address == d.address
    then ended (record c { lru = count_reference increment c.lru d.file_name })
    else freed_read

unfoldable pub take_reference : Cache → FileData → Outcome Cache
unfolding count_reference
take_reference c d = take_found c d (find_lru c.lru d.file_name)

-- Behind request_sendfile the entry is still known by its address; when it has been evicted, its memory was freed.
abbrev pub drop_found : Cache → Word → Option Entry → Outcome Cache
drop_found c name none = freed_read
drop_found c name (some x) = ended (record c { lru = count_reference decrement c.lru name })

unfoldable pub drop_reference : Cache → Word → Outcome Cache
unfolding count_reference
drop_reference c name = drop_found c name (find_lru c.lru name)

module _ (hash : Word → ℕ) where
  -- The first search for a file, if there is a cache
  unfoldable pub search_cache : Cache → Word → Option FileData × Cache
  unfolding cache_lookup
  search_cache c name = if ltb 0 c.max_cache_size then cache_lookup hash c name true else (none, c)

  -- Behind the second search
  abbrev pub keep_file : FileData → Option FileData × Cache → Outcome Cache
  keep_file d (none, c) = hashtable_insert hash c d
  keep_file d (some e, c) = ended c

  -- A file that was read is kept in the cache, if there is one and no other thread has put it there.
  unfoldable pub store_file : Cache → FileData → Outcome Cache
  unfolding cache_lookup hashtable_insert
  store_file c d =
      if ltb 0 c.max_cache_size
      then keep_file d (cache_lookup hash c d.file_name false)
      else ended c

-- What a thread is at with its request: it asks for a file; it has found one in the cache; it sends that, as its
-- reference says; it reads the file itself.
pub data Request : Type 0 where
  asks : Word → Request
  located : FileData → Request
  sends : FileData → Request
  reads : Word → Request
  served : Request

-- The cache with the threads
pub record Requests : Type 0 where
  pub cache : Cache
  pub threads : List Request

abbrev pub asking : List Word → List Request
asking [] = []
asking (name ∷ names) = asks name ∷ asking names

module _ (hash : Word → ℕ) where
  -- What a thread may go on with, at the cache that it leaves. A thread that is done asks for any file.
  pub data Acts (c : Cache) : Request → Request → Cache → Type 0 where
    finds :
        (name : Word) (d : FileData) (c' : Cache)
        → search_cache hash c name ≡ (some d, c')
        → Acts c (asks name) (located d) c'
    misses :
        (name : Word) (c' : Cache)
        → search_cache hash c name ≡ (none, c')
        → Acts c (asks name) (reads name) c'
    takes :
        (d : FileData) (c' : Cache)
        → take_reference c d ≡ ended c'
        → Acts c (located d) (sends d) c'
    drops :
        (d : FileData) (c' : Cache)
        → drop_reference c d.file_name ≡ ended c'
        → Acts c (sends d) served c'
    stores :
        (d : FileData) (c' : Cache)
        → store_file hash c d ≡ ended c'
        → Acts c (reads d.file_name) served c'
    continues : (name : Word) → Acts c served (asks name) c

  -- The states that threads come to which ask for some files at first. One thread goes on at a time, as each holds the
  -- lock of the cache, in any order.
  pub data Serves (max : ℕ) : Requests → Type 0 where
    opened :
        (names : List Word)
        → Serves max (record { cache = cache_init max (λ i. []); threads = asking names })
    acts :
        (c : Cache) (before : List Request) (r : Request) (later : List Request) (r' : Request)
        (c' : Cache)
        → Serves max (record { cache = c; threads = before ++ (r ∷ later) })
        → Acts c r r' c'
        → Serves max (record { cache = c'; threads = before ++ (r' ∷ later) })
