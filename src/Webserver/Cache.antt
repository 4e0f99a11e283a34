-- ===== src/Webserver/Cache.antt =====
-- webserver/server_thread.c: the cache of files, a hash table with a list of its files by their last use.
pub mod Names
pub mod Rows
pub mod Evict
pub mod Insert
use operating_system_ece.Common.{
  ℕ, zero, suc, ◌+◌, Bool, true, false, ltb, Option, none, some, List, [], ◌∷◌, ◌++◌, ℤ, pos,
  is_zero, increment, decrement, update, if◌then◌else◌,
}
use operating_system_ece.Warmup.Words.{Word, same_word}

-- struct file_data, and the address at which it stands
pub record FileData : Type 0 where
  pub address : ℕ
  pub file_name : Word
  pub file_buf : List ℕ
  pub file_size : ℕ

-- struct sorted_data_entry, without the link to the next one
pub record Entry : Type 0 where
  pub file : FileData
  pub reference_count : ℤ

-- struct wc with the list between `head` and `tail`; `rows` has the files behind each entry of the table.
pub record Cache : Type 0 where
  pub max_cache_size : ℕ
  pub occupied_cache_size : ℕ
  pub rows : ℕ → List FileData
  pub lru : List Entry

-- The cache of server_init; `memory` is what `malloc` leaves in the rows.
abbrev pub cache_init : ℕ → (ℕ → List FileData) → Cache
cache_init max_cache_size memory = record {
  max_cache_size = max_cache_size;
  occupied_cache_size = 0;
  rows = memory;
  lru = [];
}

-- What a call ends with. It reads behind a NULL, or in memory that it has freed; `stray` is an entry of the list
-- whose file is not among the several ones of its row, from where on the call is not followed.
pub data Outcome {ℓ} (A : Type ℓ) : Type ℓ where
  ended : A → Outcome A
  null_read : Outcome A
  freed_read : Outcome A
  stray : Outcome A

-- The search for a name in a row
unfoldable pub find_file : List FileData → Word → Option FileData
find_file [] name = none
find_file (d ∷ row) name =
    let found = find_file row name in if same_word d.file_name name then some d else found

unfoldable pub find_lru : List Entry → Word → Option Entry
find_lru [] name = none
find_lru (x ∷ l) name =
    let found = find_lru l name in if same_word x.file.file_name name then some x else found

abbrev pub behind : Entry → Option (Entry × List Entry) → Option (Entry × List Entry)
behind x none = none
behind x (some (y, l)) = some (y, x ∷ l)

-- The entry with a name, and the list without it
unfoldable pub take_entry : List Entry → Word → Option (Entry × List Entry)
take_entry [] name = none
take_entry (x ∷ l) name =
    let taken = take_entry l name in
    if same_word x.file.file_name name then some (x, l) else behind x taken

-- The entry is linked behind the tail.
abbrev pub to_tail : List Entry → Option (Entry × List Entry) → List Entry
to_tail l none = l
to_tail l (some (x, rest)) = rest ++ (x ∷ [])

-- `head == tail` holds for at most one entry.
unfoldable pub set_lru : List Entry → Word → List Entry
unfolding take_entry
set_lru [] name = []
set_lru (x ∷ []) name = x ∷ []
set_lru (x ∷ y ∷ l) name = to_tail (x ∷ y ∷ l) (take_entry (x ∷ y ∷ l) name)

-- `required_size > max_cache_size - occupied_cache_size`, with numbers that may be negative
abbrev pub is_short : Cache → ℕ → Bool
is_short c required_size = ltb c.max_cache_size (required_size + c.occupied_cache_size)

-- From hash_delete on, up to the reading of `iter->next` behind `free(iter)`
unfoldable pub hash_delete : List FileData → Word → Outcome (Bool × Cache)
unfolding find_file
hash_delete [] name = null_read
hash_delete (d ∷ []) name = freed_read
hash_delete (d ∷ e ∷ row) name = elim (find_file (d ∷ e ∷ row) name) [
  | none ↦ stray
  | some _ ↦ freed_read
]

-- The only entry is evicted with the first file of its row, to which the row is cut.
abbrev pub evict_only : Cache → ℕ → List FileData → Outcome (Bool × Cache)
evict_only c index [] = null_read
evict_only c index (d ∷ row) =
    ended (true, record c { occupied_cache_size = 0; rows = update c.rows index []; lru = [] })

-- `hash` is `stringToHash` with the size of the table.
module _ (hash : Word → ℕ) where
  -- The loop over several entries, from `iter` on
  unfoldable pub evict_from : Cache → ℕ → List Entry → Outcome (Bool × Cache)
  unfolding hash_delete
  evict_from c required_size [] = ended (false, c)
  evict_from c required_size (x ∷ iter) =
      let rest = evict_from c required_size iter in
      if is_short c required_size
      then (if is_zero x.reference_count
          then hash_delete (c.rows (hash x.file.file_name)) x.file.file_name
          else rest)
      else ended (true, c)

  unfoldable pub evict_entries : Cache → ℕ → List Entry → Outcome (Bool × Cache)
  unfolding evict_from
  evict_entries c required_size [] = ended (false, c)
  evict_entries c required_size (x ∷ []) =
      if is_zero x.reference_count
      then evict_only c (hash x.file.file_name) (c.rows (hash x.file.file_name))
      else ended (false, c)
  evict_entries c required_size (x ∷ y ∷ l) = evict_from c required_size (x ∷ y ∷ l)

  unfoldable pub evict_lru_hash : Cache → ℕ → Outcome (Bool × Cache)
  unfolding evict_entries
  evict_lru_hash c required_size = evict_entries c required_size c.lru

  -- The part of hashtable_insert where space is available
  unfoldable pub insert_entry : Cache → FileData → Cache
  insert_entry c d =
      let index = hash d.file_name in
      record c {
        rows = update c.rows index (c.rows index ++ (d ∷ []));
        occupied_cache_size = c.occupied_cache_size + d.file_size;
        lru = c.lru ++ ((record { file = d; reference_count = pos 0 }) ∷ []);
      }

  -- Behind evict_LRU_hash
  abbrev pub insert_evicted : FileData → Outcome (Bool × Cache) → Outcome Cache
  insert_evicted d (ended (true, c)) = ended (insert_entry c d)
  insert_evicted d (ended (false, c)) = ended c
  insert_evicted d null_read = null_read
  insert_evicted d freed_read = freed_read
  insert_evicted d stray = stray

  unfoldable pub hashtable_insert : Cache → FileData → Outcome Cache
  unfolding insert_entry evict_lru_hash
  hashtable_insert c d =
      if ltb c.max_cache_size d.file_size
      then ended c
      else if is_short c d.file_size
      then insert_evicted d (evict_lru_hash c d.file_size)
      else ended (insert_entry c d)

  -- Behind the search for the file; `is_update` tells `update` from `no_update`.
  abbrev pub looked_up : Cache → Word → Bool → Option FileData → Option FileData × Cache
  looked_up c name is_update none = (none, c)
  looked_up c name is_update (some d) =
      (some d, if is_update then record c { lru = set_lru c.lru name } else c)

  unfoldable pub cache_lookup : Cache → Word → Bool → Option FileData × Cache
  unfolding find_file set_lru
  cache_lookup c name is_update = looked_up c name is_update (find_file (c.rows (hash name)) name)
