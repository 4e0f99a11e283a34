-- ===== src/Webserver/Requests/Counts.antt =====
-- do_server_request (webserver/server_thread.c): the reference counts over the steps of all threads.
use operating_system_ece.Common.{
  ◌==◌, ℕ, suc, ◌+◌, ◌≡◌, refl, Bool, true, false, ltb, Option, none, some, List, [], ◌∷◌, ◌++◌, ℤ,
  pos, increment, decrement, arith, if◌then◌else◌, Bool-cases, inl, inr, ◌∙◌, ap, sym, subst,
}
use operating_system_ece.Warmup.Words.{Word, same_word}
use operating_system_ece.Warmup.Words.Parse.{compare_words, same_word_refl}
use operating_system_ece.Webserver.Cache.{
  FileData, Entry, Cache, Outcome, ended, null_read, freed_read, stray, find_lru, cache_lookup,
}
use operating_system_ece.Webserver.Cache.Evict.{file_of, IsCache, cache_lookup-LooksUp}
use operating_system_ece.Webserver.Requests.{
  Request, asks, located, sends, reads, served, asking, count_reference, take_missing, take_found,
  take_reference, drop_found, drop_reference, search_cache,
}
use operating_system_ece.Webserver.Requests.References.{
  recount, find-count_reference_same, find-count_reference_other, count_reference-IsCache,
  cache_lookup-same,
}

-- A thread that sends a file of the name
abbrev pub weight : Request → Word → ℕ
weight (asks name) w = 0
weight (located d) w = 0
weight (sends d) w = if same_word d.file_name w then 1 else 0
weight (reads name) w = 0
weight served w = 0

-- How many threads send the file of a name
unfoldable pub sending : List Request → Word → ℕ
sending [] w = 0
sending (r ∷ threads) w = weight r w + sending threads w

pub sending-middle :
    (before : List Request) (r : Request) (later : List Request) (w : Word)
    → sending (before ++ (r ∷ later)) w ≡ weight r w + sending (before ++ later) w
unfolding sending
sending-middle [] r later w = refl
sending-middle (x ∷ before) r later w = omega (arith, sending-middle before r later w)

pub sending-asking : (names : List Word) (w : Word) → sending (asking names) w ≡ 0
unfolding sending
sending-asking [] w = refl
sending-asking (name ∷ names) w = omega (arith, sending-asking names w)

-- The entry of a name, if there is one, counts as many references.
abbrev pub Referenced : Option Entry → ℕ → Type 0
Referenced none n = n ≡ 0
Referenced (some x) n = x.reference_count ≡ pos n

module _ (hash : Word → ℕ) where
  -- The cache is in order, and each entry counts the threads that send its file.
  abbrev pub IsCounted : Cache → (Word → ℕ) → Type 0
  IsCounted c n = IsCache hash c × ((w : Word) → Referenced (find_lru c.lru w) (n w))

  pub IsCounted-same :
      (c c' : Cache) (n m : Word → ℕ)
      → IsCache hash c'
      → ((w : Word) → find_lru c'.lru w ≡ find_lru c.lru w)
      → ((w : Word) → m w ≡ n w)
      → IsCounted c n
      → IsCounted c' m
  IsCounted-same c c' n m h f e (k, r) = (
    h,
    λ w.
        subst (λ o. Referenced o (m w)) (sym (f w))
          (subst (Referenced (find_lru c.lru w)) (sym (e w)) (r w)),
  )

  pub lookup-IsCounted :
      (c c' : Cache) (n : Word → ℕ) (w : Word) (u : Bool) (o : Option FileData)
      → cache_lookup hash c w u ≡ (o, c')
      → IsCounted c n
      → IsCounted c' n × (o ≡ file_of (find_lru c.lru w))
  lookup-IsCounted c c' n w u o e (h, r) =
      let looks = cache_lookup-LooksUp hash c w u h in
      (
        IsCounted-same c c' n n (subst (IsCache hash) (ap (λ q. q.1) e) looks.3)
            (λ v. ap (λ q. find_lru q.1.lru v) (sym e) ∙ cache_lookup-same hash c w u h v)
            (λ v. refl) (h, r),
        ap (λ q. q.0) (sym e) ∙ looks.0,
      )

  pub search-IsCounted :
      (c c' : Cache) (n : Word → ℕ) (w : Word) (o : Option FileData)
      → search_cache hash c w ≡ (o, c')
      → IsCounted c n
      → IsCounted c' n
  unfolding search_cache
  search-IsCounted c c' n w o e k = elim (Bool-cases (ltb 0 c.max_cache_size)) [
    | inl y ↦
        let f = ap (λ b. if b then cache_lookup hash c w true else (none, c)) (sym y) ∙ e in
        (lookup-IsCounted c c' n w true o f k).0
    | inr z ↦
        let f = ap (λ b. if b then cache_lookup hash c w true else (none, c)) (sym z) ∙ e in
        subst (λ x. IsCounted x n) (ap (λ q. q.1) f) k
  ]

  -- One more or one less of a name
  Referenced-increment :
      (o : Option Entry) (n : ℕ) (x : Entry)
      → o ≡ some x
      → Referenced o n
      → Referenced (recount increment o) (1 + n)
  unfolding increment
  Referenced-increment none n x e r = absurd (cc)
  Referenced-increment (some y) n x e r = ap increment r ∙ ap pos (omega arith)

  Referenced-decrement :
      (o : Option Entry) (n : ℕ) → Referenced o (1 + n) → Referenced (recount decrement o) n
  unfolding decrement
  Referenced-decrement none n r = absurd (omega arith)
  Referenced-decrement (some y) n r = ap decrement (r ∙ ap pos (succ n))
    where
      succ : (n : ℕ) → 1 + n ≡ suc n
      succ n = omega arith

  weight_self : (d : FileData) (w : Word) → d.file_name ≡ w → weight (sends d) w ≡ 1
  weight_self d w e =
      let y : same_word d.file_name w ≡ true =
        ap (same_word d.file_name) (sym e) ∙ same_word_refl d.file_name in
      rw y refl

  weight_other :
      (d : FileData) (w : Word) → same_word d.file_name w ≡ false → weight (sends d) w ≡ 0
  weight_other d w z = rw z refl

  -- What a change of the count of one entry does
  recount-IsCounted :
      (c : Cache) (change : ℤ → ℤ) (w : Word) (n m : Word → ℕ)
      → IsCounted c n
      → Referenced (recount change (find_lru c.lru w)) (m w)
      → ((v : Word) → same_word w v ≡ false → m v ≡ n v)
      → IsCounted (record c { lru = count_reference change c.lru w }) m
  recount-IsCounted c change w n m (h, r) here other = (
    count_reference-IsCache hash c change w h,
    λ v. elim (compare_words w v) [
      | inl e ↦
          subst (λ u. Referenced (find_lru (count_reference change c.lru w) u) (m u)) e
            (subst (λ o. Referenced o (m w)) (sym (find-count_reference_same change c.lru w)) here)
      | inr d ↦
          subst (λ o. Referenced o (m v)) (sym (find-count_reference_other change c.lru w v d))
            (subst (Referenced (find_lru c.lru v)) (sym (other v d)) (r v))
    ],
  )

  -- What a call that goes on is to leave
  abbrev pub Counts : (Word → ℕ) → Outcome Cache → Type 0
  Counts m (ended c) = IsCounted c m
  Counts m null_read = Unit {0}
  Counts m freed_read = Unit {0}
  Counts m stray = Unit {0}

  take_missing-Counts : (m : Word → ℕ) (l : List Entry) → Counts m (take_missing l)
  take_missing-Counts m [] = tt
  take_missing-Counts m (x ∷ l) = tt

  take_found-Counts :
      (c : Cache) (d : FileData) (n m : Word → ℕ) (o : Option Entry)
      → find_lru c.lru d.file_name ≡ o
      → IsCounted c n
      → ((v : Word) → m v ≡ weight (sends d) v + n v)
      → Counts m (take_found c d o)
  take_found-Counts c d n m none e (h, r) g = take_missing-Counts m c.lru
  take_found-Counts c d n m (some x) e (h, r) g = elim (Bool-cases (x.file.address == d.address)) [
    | inl y ↦ rw y (
        recount-IsCounted c increment d.file_name n m (h, r)
          (subst (Referenced (recount increment (find_lru c.lru d.file_name)))
            (sym (g d.file_name ∙ ap (λ k. k + n d.file_name) (weight_self d d.file_name refl)))
            (Referenced-increment (find_lru c.lru d.file_name) (n d.file_name) x e (r d.file_name)))
          (λ v z. g v ∙ ap (λ k. k + n v) (weight_other d v z) ∙ omega arith))
    | inr z ↦ rw z tt
  ]

  pub take-Counts :
      (c : Cache) (d : FileData) (n m : Word → ℕ)
      → IsCounted c n
      → ((v : Word) → m v ≡ weight (sends d) v + n v)
      → Counts m (take_reference c d)
  unfolding take_reference
  take-Counts c d n m k g = take_found-Counts c d n m (find_lru c.lru d.file_name) refl k g

  -- The entry of a file that is being sent has not been evicted.
  pub sent_is_found :
      (c : Cache) (d : FileData) (n m : Word → ℕ)
      → IsCounted c n
      → ((v : Word) → n v ≡ weight (sends d) v + m v)
      → (x : Entry) × (find_lru c.lru d.file_name ≡ some x)
  sent_is_found c d n m (h, r) g = from (find_lru c.lru d.file_name) (
      subst (Referenced (find_lru c.lru d.file_name))
        (g d.file_name ∙ ap (λ k. k + m d.file_name) (weight_self d d.file_name refl))
        (r d.file_name))
    where
      from : (o : Option Entry) → Referenced o (1 + m d.file_name) → (x : Entry) × (o ≡ some x)
      from none q = absurd (omega arith)
      from (some x) q = (x, refl)

  drop_found-Counts :
      (c : Cache) (d : FileData) (n m : Word → ℕ) (o : Option Entry)
      → IsCounted c n
      → ((v : Word) → n v ≡ weight (sends d) v + m v)
      → Counts m (drop_found c d.file_name o)
  drop_found-Counts c d n m none (h, r) g = tt
  drop_found-Counts c d n m (some x) (h, r) g =
      recount-IsCounted c decrement d.file_name n m (h, r)
        (Referenced-decrement (find_lru c.lru d.file_name) (m d.file_name) (
          subst (Referenced (find_lru c.lru d.file_name))
            (g d.file_name ∙ ap (λ k. k + m d.file_name) (weight_self d d.file_name refl))
            (r d.file_name)))
        (λ v z. sym (g v ∙ ap (λ k. k + m v) (weight_other d v z) ∙ omega arith))

  pub drop-Counts :
      (c : Cache) (d : FileData) (n m : Word → ℕ)
      → IsCounted c n
      → ((v : Word) → n v ≡ weight (sends d) v + m v)
      → Counts m (drop_reference c d.file_name)
  unfolding drop_reference
  drop-Counts c d n m k g = drop_found-Counts c d n m (find_lru c.lru d.file_name) k g
