-- ===== src/Tests/Cache.antt =====
-- The theorems on the cache of webserver/server_thread.c, on a cache of a few files.
use operating_system_ece.Common.{ℕ, ◌≡◌, refl, true, [], ◌∷◌, arith}
use operating_system_ece.Warmup.Words.{Word, same_word, hash_size}
use operating_system_ece.Warmup.Words.Hash.{string_to_hash}
use operating_system_ece.Webserver.Cache.{
  FileData, Cache, cache_init, find_file, find_lru, cache_lookup, insert_entry, hashtable_insert,
  set_lru,
}
use operating_system_ece.Webserver.Cache.Rows.{entry_of, cache_init-IsCache, insert_entry-IsCache}
use operating_system_ece.Webserver.Cache.Evict.{IsCache, LooksUp, cache_lookup-LooksUp}
use operating_system_ece.Webserver.Cache.Insert.{Inserts, hashtable_insert-Inserts}

abbrev hash : Word → ℕ
hash w = string_to_hash w hash_size

-- The files "a", "b" and "c"
abbrev file : ℕ → ℕ → FileData
file letter size = record {
  address = letter;
  file_name = letter ∷ [];
  file_buf = [];
  file_size = size;
}

abbrev nothing : Cache
nothing = cache_init 100 (λ i. [])

abbrev with_a : Cache
with_a = insert_entry hash nothing (file 97 60)

with_a-IsCache : IsCache hash with_a
unfolding find_lru
with_a-IsCache =
    insert_entry-IsCache hash nothing (file 97 60) (cache_init-IsCache hash 100) refl (omega arith)

abbrev with_both : Cache
with_both = insert_entry hash with_a (file 98 30)

with_both-IsCache : IsCache hash with_both
unfolding find_lru insert_entry same_word
with_both-IsCache = insert_entry-IsCache hash with_a (file 98 30) with_a-IsCache refl (omega arith)

cache_lookup-LooksUp_example :
    LooksUp hash with_both (97 ∷ []) true (cache_lookup hash with_both (97 ∷ []) true)
cache_lookup-LooksUp_example = cache_lookup-LooksUp hash with_both (97 ∷ []) true with_both-IsCache

lookup_moves :
    (cache_lookup hash with_both (97 ∷ []) true).1.lru
    ≡ entry_of (file 98 30) ∷ entry_of (file 97 60) ∷ []
unfolding cache_lookup insert_entry find_file set_lru same_word string_to_hash
lookup_moves = refl

hashtable_insert-Inserts_example :
    Inserts hash with_a (file 99 70) (hashtable_insert hash with_a (file 99 70))
unfolding find_lru insert_entry same_word
hashtable_insert-Inserts_example =
    hashtable_insert-Inserts hash with_a (file 99 70) with_a-IsCache refl
