-- ===== src/Tests/Requests.antt =====
-- The theorems on do_server_request of webserver/server_thread.c, on a thread that asks twice for a file.
use operating_system_ece.Common.{ℕ, ◌≡◌, refl, [], ◌∷◌, pos, increment, arith}
use operating_system_ece.Warmup.Words.{Word, same_word, hash_size}
use operating_system_ece.Warmup.Words.Hash.{string_to_hash}
use operating_system_ece.Webserver.Cache.{
  FileData, Cache, ended, freed_read, cache_init, find_file, find_lru, cache_lookup, insert_entry,
  hashtable_insert, set_lru,
}
use operating_system_ece.Webserver.Requests.{
  Request, asks, located, sends, reads, served, count_reference, take_reference, drop_reference,
  search_cache, store_file, Serves, opened, acts, misses, stores, continues, finds, takes,
}
use operating_system_ece.Webserver.Requests.Counts.{IsCounted, sending}
use operating_system_ece.Webserver.Requests.Kept.{Serves-IsCounted, Serves-drop_reference}
use operating_system_ece.Webserver.Requests.Race.{located_then_evicted}

abbrev hash : Word → ℕ
hash w = string_to_hash w hash_size

abbrev letter : ℕ → Word
letter c = c ∷ []

abbrev file : ℕ → ℕ → FileData
file c size = record { address = c; file_name = letter c; file_buf = []; file_size = size }

abbrev nothing : Cache
nothing = cache_init 100 (λ i. [])

abbrev kept : Cache
kept = insert_entry hash nothing (file 97 60)

abbrev referenced : Cache
referenced = record kept { lru = (record { file = file 97 60; reference_count = pos 1 }) ∷ [] }

abbrev Run : Cache → Request → Type 0
Run c r = Serves hash 100 (record { cache = c; threads = r ∷ [] })

run_misses : Run nothing (reads (letter 97))
unfolding search_cache cache_lookup find_file
run_misses =
    acts nothing [] (asks (letter 97)) [] (reads (letter 97)) nothing (opened (letter 97 ∷ []))
      (misses (letter 97) nothing refl)

run_stores : Run kept served
unfolding store_file cache_lookup find_file hashtable_insert
run_stores =
    acts nothing [] (reads (letter 97)) [] served kept run_misses (stores (file 97 60) kept refl)

run_finds : Run kept (located (file 97 60))
unfolding search_cache cache_lookup find_file insert_entry set_lru same_word string_to_hash
run_finds =
    acts kept [] (asks (letter 97)) [] (located (file 97 60)) kept
      (acts kept [] served [] (asks (letter 97)) kept run_stores (continues (letter 97)))
      (finds (letter 97) (file 97 60) kept refl)

run_takes : Run referenced (sends (file 97 60))
unfolding take_reference insert_entry find_lru count_reference same_word increment
run_takes =
    acts kept [] (located (file 97 60)) [] (sends (file 97 60)) referenced run_finds
      (takes (file 97 60) referenced refl)

Serves-IsCounted_example : IsCounted hash referenced (sending (sends (file 97 60) ∷ []))
Serves-IsCounted_example =
    Serves-IsCounted hash 100 (record { cache = referenced; threads = sends (file 97 60) ∷ [] })
      run_takes

Serves-drop_reference_example : (c' : Cache) × (drop_reference referenced (letter 97) ≡ ended c')
Serves-drop_reference_example =
    Serves-drop_reference hash 100 referenced [] [] (file 97 60) run_takes

located_then_evicted_example :
    (c : Cache) × Serves hash 100
      (record { cache = c; threads = located (file 97 60) ∷ served ∷ [] })
    × (take_reference c (file 97 60) ≡ freed_read)
unfolding same_word
located_then_evicted_example =
    located_then_evicted hash 100 (file 97 60) (file 98 50) (omega arith) (omega arith)
      (omega arith) refl
