-- ===== src/Webserver/Requests/Kept.antt =====
-- do_server_request (webserver/server_thread.c): what holds in every state that the threads come to.
use operating_system_ece.Common.{
  ℕ, ◌+◌, ◌≡◌, refl, none, some, List, [], ◌∷◌, ◌++◌, arith, ap, sym, subst,
}
use operating_system_ece.Warmup.Words.{Word}
use operating_system_ece.Webserver.Cache.{FileData, Entry, Cache, ended, cache_init, find_lru}
use operating_system_ece.Webserver.Cache.Rows.{nothing_listed, cache_init-IsCache}
use operating_system_ece.Webserver.Cache.Evict.{missing_entry}
use operating_system_ece.Webserver.Requests.{
  Request, asks, located, sends, served, asking, Requests, drop_reference, drop_found, Acts, finds,
  misses, takes, drops, stores, continues, Serves, opened, acts,
}
use operating_system_ece.Webserver.Requests.Counts.{
  weight, sending, sending-middle, sending-asking, Referenced, IsCounted, IsCounted-same, Counts,
  search-IsCounted, take-Counts, drop-Counts, sent_is_found,
}
use operating_system_ece.Webserver.Requests.Stored.{store_file-Counts}

module _ (hash : Word → ℕ) where
  opened-IsCounted :
      (max : ℕ) (names : List Word)
      → IsCounted hash (cache_init max (λ i. [])) (sending (asking names))
  opened-IsCounted max names = (
    cache_init-IsCache hash max,
    λ w.
        subst (λ o. Referenced o (sending (asking names) w))
          (sym (missing_entry (find_lru [] w) (nothing_listed w))) (sending-asking names w),
  )

  -- The counts where thread `r` stands between the others
  abbrev between : List Request → Request → List Request → Word → ℕ
  between before r later w = weight r w + sending (before ++ later) w

  Acts-IsCounted :
      (c c' : Cache) (before later : List Request) (r r' : Request)
      → Acts hash c r r' c'
      → IsCounted hash c (between before r later)
      → IsCounted hash c' (between before r' later)
  Acts-IsCounted c c' before later _ _ (finds name d _ e) k =
      search-IsCounted hash c c' (between before (asks name) later) name (some d) e k
  Acts-IsCounted c c' before later _ _ (misses name _ e) k =
      search-IsCounted hash c c' (between before (asks name) later) name none e k
  Acts-IsCounted c c' before later _ _ (takes d _ e) k =
      subst (Counts hash (between before (sends d) later)) e (
        take-Counts hash c d (between before (located d) later) (between before (sends d) later) k
          (λ v. omega arith))
  Acts-IsCounted c c' before later _ _ (drops d _ e) k =
      subst (Counts hash (between before served later)) e (
        drop-Counts hash c d (between before (sends d) later) (between before served later) k
          (λ v. omega arith))
  Acts-IsCounted c c' before later _ _ (stores d _ e) k =
      subst (Counts hash (between before served later)) e
        (store_file-Counts hash c d (between before served later) k)
  Acts-IsCounted c c' before later _ _ (continues name) k = k

  moved :
      (c : Cache) (before later : List Request) (r : Request)
      → IsCounted hash c (sending (before ++ (r ∷ later)))
      → IsCounted hash c (between before r later)
  moved c before later r k =
      IsCounted-same hash c c (sending (before ++ (r ∷ later))) (between before r later) k.0
        (λ w. refl) (λ w. sym (sending-middle before r later w)) k

  moved_back :
      (c : Cache) (before later : List Request) (r : Request)
      → IsCounted hash c (between before r later)
      → IsCounted hash c (sending (before ++ (r ∷ later)))
  moved_back c before later r k =
      IsCounted-same hash c c (between before r later) (sending (before ++ (r ∷ later))) k.0
        (λ w. refl) (λ w. sending-middle before r later w) k

  -- In every state that the threads come to from a cleared cache, in any order of their steps, the rows of the cache
  -- agree with its list, no name stands in the list twice, the files fit into the cache, and the count of each
  -- entry is the number of threads that send its file.
  pub Serves-IsCounted :
      (max : ℕ) (s : Requests) → Serves hash max s → IsCounted hash s.cache (sending s.threads)
  Serves-IsCounted max _ (opened names) = opened-IsCounted max names
  Serves-IsCounted max _ (acts c before r later r' c' run act) =
      let k = Serves-IsCounted max (record { cache = c; threads = before ++ (r ∷ later) }) run in
      moved_back c' before later r'
        (Acts-IsCounted c c' before later r r' act (moved c before later r k))

  dropped :
      (c : Cache) (name : Word) (x : Entry)
      → find_lru c.lru name ≡ some x
      → (c' : Cache) × (drop_reference c name ≡ ended c')
  unfolding drop_reference
  dropped c name x e = (_, ap (drop_found c name) e)

  -- A thread that has sent a file of the cache gives back its reference without reading freed memory: no
  -- step of another thread has evicted the file.
  pub Serves-drop_reference :
      (max : ℕ) (c : Cache) (before later : List Request) (d : FileData)
      → Serves hash max (record { cache = c; threads = before ++ (sends d ∷ later) })
      → (c' : Cache) × (drop_reference c d.file_name ≡ ended c')
  Serves-drop_reference max c before later d run =
      let k =
        moved c before later (sends d) (
          Serves-IsCounted max (record { cache = c; threads = before ++ (sends d ∷ later) }) run) in
      let (x, e) =
        sent_is_found hash c d (between before (sends d) later) (sending (before ++ later)) k
          (λ v. refl) in
      dropped c d.file_name x e
