-- ===== src/Webserver/Requests/References.antt =====
-- The references of do_server_request (webserver/server_thread.c): how each part changes what the list holds.
use operating_system_ece.Common.{
  ℕ, ◌+◌, ◌≡◌, refl, Bool, true, false, Option, none, some, List, [], ◌∷◌, ℤ, Bool-cases, inl, inr,
  ◌∙◌, ap, sym,
}
use operating_system_ece.Warmup.Words.{Word, same_word}
use operating_system_ece.Warmup.Words.Parse.{compare_words, same_word_refl}
use operating_system_ece.Webserver.Cache.{
  FileData, Entry, Cache, find_file, find_lru, looked_up, cache_lookup,
}
use operating_system_ece.Webserver.Cache.Names.{
  name_of, NoTwice, total_size, find_here, find_behind, set_lru-Moves,
}
use operating_system_ece.Webserver.Cache.Evict.{file_of, IsCache}
use operating_system_ece.Webserver.Requests.{count_reference}

abbrev pub recount : (ℤ → ℤ) → Option Entry → Option Entry
recount change none = none
recount change (some x) = some (record x { reference_count = change x.reference_count })

count_here :
    (change : ℤ → ℤ) (x : Entry) (l : List Entry) (w : Word)
    → name_of x ≡ w
    → count_reference change (x ∷ l) w ≡ record x { reference_count = change x.reference_count } ∷ l
unfolding count_reference
count_here change x l w e =
    let y : same_word (name_of x) w ≡ true =
      ap (same_word (name_of x)) (sym e) ∙ same_word_refl (name_of x) in
    rw y refl

count_behind :
    (change : ℤ → ℤ) (x : Entry) (l : List Entry) (w : Word)
    → same_word (name_of x) w ≡ false
    → count_reference change (x ∷ l) w ≡ x ∷ count_reference change l w
unfolding count_reference
count_behind change x l w d = rw d refl

-- The entry with the name has its count changed, and the others stay.
pub find-count_reference_same :
    (change : ℤ → ℤ) (l : List Entry) (w : Word)
    → find_lru (count_reference change l w) w ≡ recount change (find_lru l w)
unfolding count_reference find_lru
find-count_reference_same change [] w = refl
find-count_reference_same change (x ∷ l) w = elim (compare_words (name_of x) w) [
  | inl e ↦
      ap (λ m. find_lru m w) (count_here change x l w e)
      ∙ find_here (record x { reference_count = change x.reference_count }) l w e
      ∙ ap (recount change) (sym (find_here x l w e))
  | inr d ↦
      ap (λ m. find_lru m w) (count_behind change x l w d)
      ∙ find_behind x (count_reference change l w) w d
      ∙ find-count_reference_same change l w
      ∙ ap (recount change) (sym (find_behind x l w d))
]

pub find-count_reference_other :
    (change : ℤ → ℤ) (l : List Entry) (w v : Word)
    → same_word w v ≡ false
    → find_lru (count_reference change l w) v ≡ find_lru l v
unfolding count_reference find_lru
find-count_reference_other change [] w v d = refl
find-count_reference_other change (x ∷ l) w v d = elim (compare_words (name_of x) w) [
  | inl e ↦
      let other : same_word (name_of x) v ≡ false = ap (λ u. same_word u v) e ∙ d in
      ap (λ m. find_lru m v) (count_here change x l w e)
      ∙ find_behind (record x { reference_count = change x.reference_count }) l v other
      ∙ sym (find_behind x l v other)
  | inr z ↦
      ap (λ m. find_lru m v) (count_behind change x l w z) ∙ elim (compare_words (name_of x) v) [
        | inl e ↦ find_here x (count_reference change l w) v e ∙ sym (find_here x l v e)
        | inr u ↦
            find_behind x (count_reference change l w) v u
            ∙ find-count_reference_other change l w v d
            ∙ sym (find_behind x l v u)
      ]
]

file-recount : (change : ℤ → ℤ) (o : Option Entry) → file_of (recount change o) ≡ file_of o
file-recount change none = refl
file-recount change (some x) = refl

-- The files stay.
file-count_reference :
    (change : ℤ → ℤ) (l : List Entry) (w v : Word)
    → file_of (find_lru (count_reference change l w) v) ≡ file_of (find_lru l v)
file-count_reference change l w v = elim (compare_words w v) [
  | inl e ↦
      ap (λ u. file_of (find_lru (count_reference change l w) u)) (sym e)
      ∙ ap file_of (find-count_reference_same change l w)
      ∙ file-recount change (find_lru l w)
      ∙ ap (λ u. file_of (find_lru l u)) e
  | inr d ↦ ap file_of (find-count_reference_other change l w v d)
]

none_of_file : (o p : Option Entry) → file_of o ≡ file_of p → p ≡ none → o ≡ none
none_of_file none p e n = refl
none_of_file (some x) none e n = absurd (cc)
none_of_file (some x) (some y) e n = absurd (cc)

count_reference-NoTwice :
    (change : ℤ → ℤ) (l : List Entry) (w : Word) → NoTwice l → NoTwice (count_reference change l w)
unfolding count_reference
count_reference-NoTwice change [] w h = h
count_reference-NoTwice change (x ∷ l) w (new, h) = elim (Bool-cases (same_word (name_of x) w)) [
  | inl y ↦ rw y (new, h)
  | inr z ↦ rw z (
    none_of_file (find_lru (count_reference change l w) (name_of x)) (find_lru l (name_of x))
        (file-count_reference change l w (name_of x)) new,
    count_reference-NoTwice change l w h,
  )
]

count_reference-total_size :
    (change : ℤ → ℤ) (l : List Entry) (w : Word)
    → total_size (count_reference change l w) ≡ total_size l
unfolding count_reference total_size
count_reference-total_size change [] w = refl
count_reference-total_size change (x ∷ l) w = elim (Bool-cases (same_word (name_of x) w)) [
  | inl y ↦ rw y refl
  | inr z ↦ rw z (ap (λ n. x.file.file_size + n) (count_reference-total_size change l w))
]

module _ (hash : Word → ℕ) where
  pub count_reference-IsCache :
      (c : Cache) (change : ℤ → ℤ) (w : Word)
      → IsCache hash c
      → IsCache hash (record c { lru = count_reference change c.lru w })
  count_reference-IsCache c change w h = record {
    found = λ v. h.found v ∙ sym (file-count_reference change c.lru w v);
    distinct = count_reference-NoTwice change c.lru w h.distinct;
    counted = h.counted ∙ sym (count_reference-total_size change c.lru w);
    bounded = h.bounded;
  }

  looked_up-same :
      (c : Cache) (w : Word) (u : Bool) (o : Option FileData)
      → IsCache hash c
      → (v : Word) → find_lru (looked_up hash c w u o).1.lru v ≡ find_lru c.lru v
  looked_up-same c w u none h v = refl
  looked_up-same c w false (some d) h v = refl
  looked_up-same c w true (some d) h v = (set_lru-Moves c.lru w h.distinct).same_files v

  -- A search for a file leaves every entry.
  pub cache_lookup-same :
      (c : Cache) (w : Word) (u : Bool)
      → IsCache hash c
      → (v : Word) → find_lru (cache_lookup hash c w u).1.lru v ≡ find_lru c.lru v
  unfolding cache_lookup
  cache_lookup-same c w u h v = looked_up-same c w u (find_file (c.rows (hash w)) w) h v
