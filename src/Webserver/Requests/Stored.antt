-- ===== src/Webserver/Requests/Stored.antt =====
-- do_server_request (webserver/server_thread.c): the reference counts when a file is put into the cache.
use operating_system_ece.Common.{
  ℕ, ◌≡◌, refl, true, false, ltb, Option, none, some, List, [], ◌∷◌, ◌++◌, ℤ, pos, is_zero, arith,
  Bool-cases, inl, inr, ◌∙◌, ap, sym, subst,
}
use operating_system_ece.Warmup.Words.{Word}
use operating_system_ece.Warmup.Words.Parse.{compare_words}
use operating_system_ece.Webserver.Cache.{
  FileData, Entry, Cache, Outcome, ended, null_read, freed_read, stray, find_lru, cache_lookup,
  hashtable_insert,
}
use operating_system_ece.Webserver.Cache.Names.{
  name_of, find_here, find_behind, find_last_same, find_last_other,
}
use operating_system_ece.Webserver.Cache.Rows.{entry_of}
use operating_system_ece.Webserver.Cache.Evict.{missing_entry}
use operating_system_ece.Webserver.Cache.Insert.{Inserts, hashtable_insert-Inserts}
use operating_system_ece.Webserver.Requests.{keep_file, store_file}
use operating_system_ece.Webserver.Requests.References.{cache_lookup-same}
use operating_system_ece.Webserver.Requests.Counts.{Referenced, IsCounted, Counts, lookup-IsCounted}

-- A list with a new entry behind it
Referenced-new :
    (l : List Entry) (d : FileData) (n : Word → ℕ)
    → find_lru l d.file_name ≡ none
    → ((w : Word) → Referenced (find_lru l w) (n w))
    → (w : Word) → Referenced (find_lru (l ++ (entry_of d ∷ [])) w) (n w)
Referenced-new l d n new r w = elim (compare_words d.file_name w) [
  | inl e ↦
      let gone : find_lru l w ≡ none = ap (find_lru l) (sym e) ∙ new in
      let unsent : n w ≡ 0 = subst (λ o. Referenced o (n w)) gone (r w) in
      subst (λ o. Referenced o (n w)) (sym (find_last_same l (entry_of d) w gone e))
        (ap pos (sym unsent))
  | inr z ↦ subst (λ o. Referenced o (n w)) (sym (find_last_other l (entry_of d) w z)) (r w)
]

zero_of : (i : ℤ) (n : ℕ) → is_zero i ≡ true → i ≡ pos n → n ≡ 0
zero_of i n z e = from n (ap is_zero (sym e) ∙ z)
  where
    from : (n : ℕ) → is_zero (pos n) ≡ true → n ≡ 0
    from n z = ground arith

-- Nothing refers to the only entry, hence no file is being sent.
nothing_sent :
    (l : List Entry) (x : Entry) (n : Word → ℕ)
    → l ≡ x ∷ []
    → is_zero x.reference_count ≡ true
    → ((w : Word) → Referenced (find_lru l w) (n w))
    → (w : Word) → Referenced (find_lru [] w) (n w)
unfolding find_lru
nothing_sent l x n e z r w =
    let k : Referenced (find_lru (x ∷ []) w) (n w) =
      subst (λ m. Referenced (find_lru m w) (n w)) e (r w) in
    elim (compare_words (name_of x) w) [
      | inl q ↦
          zero_of x.reference_count (n w) z (subst (λ o. Referenced o (n w)) (find_here x [] w q) k)
      | inr q ↦ subst (λ o. Referenced o (n w)) (find_behind x [] w q) k
    ]

module _ (hash : Word → ℕ) where
  Inserts-Counts :
      (c : Cache) (d : FileData) (n : Word → ℕ) (o : Outcome Cache)
      → IsCounted hash c n
      → find_lru c.lru d.file_name ≡ none
      → Inserts hash c d o
      → Counts hash n o
  unfolding find_lru
  Inserts-Counts c d n (ended c') (h, r) new (k, inl e) = (
    k,
    λ w. subst (λ l. Referenced (find_lru l w) (n w)) (sym e) (Referenced-new c.lru d n new r w),
  )
  Inserts-Counts c d n (ended c') (h, r) new (k, inr (inl (e, (x, only, z)))) = (
    k,
    λ w.
        subst (λ l. Referenced (find_lru l w) (n w)) (sym e)
          (Referenced-new [] d n refl (nothing_sent c.lru x n only z r) w),
  )
  Inserts-Counts c d n (ended c') (h, r) new (k, inr (inr (same, why))) =
      subst (λ c. IsCounted hash c n) (sym same) (h, r)
  Inserts-Counts c d n null_read k new i = tt
  Inserts-Counts c d n freed_read k new i = tt
  Inserts-Counts c d n stray k new i = tt

  keep_file-Counts :
      (c : Cache) (d : FileData) (n : Word → ℕ) (o : Option FileData) (c1 : Cache)
      → cache_lookup hash c d.file_name false ≡ (o, c1)
      → IsCounted hash c n
      → Counts hash n (keep_file hash d (o, c1))
  keep_file-Counts c d n none c1 e k =
      let (k1, gone) = lookup-IsCounted hash c c1 n d.file_name false none e k in
      let new : find_lru c1.lru d.file_name ≡ none =
        ap (λ q. find_lru q.1.lru d.file_name) (sym e)
        ∙ cache_lookup-same hash c d.file_name false k.0 d.file_name
        ∙ missing_entry (find_lru c.lru d.file_name) (sym gone) in
      Inserts-Counts c1 d n (hashtable_insert hash c1 d) k1 new
        (hashtable_insert-Inserts hash c1 d k1.0 new)
  keep_file-Counts c d n (some x) c1 e k =
      (lookup-IsCounted hash c c1 n d.file_name false (some x) e k).0

  pub store_file-Counts :
      (c : Cache) (d : FileData) (n : Word → ℕ)
      → IsCounted hash c n
      → Counts hash n (store_file hash c d)
  unfolding store_file
  store_file-Counts c d n k = elim (Bool-cases (ltb 0 c.max_cache_size)) [
    | inl y ↦ rw y (
        keep_file-Counts c d n (cache_lookup hash c d.file_name false).0
          (cache_lookup hash c d.file_name false).1 refl k)
    | inr z ↦ rw z k
  ]
