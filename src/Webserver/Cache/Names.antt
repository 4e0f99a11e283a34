-- ===== src/Webserver/Cache/Names.antt =====
-- The list by last use (webserver/server_thread.c): find_LRU and set_LRU on lists without a name twice.
use operating_system_ece.Common.{
  ℕ, ◌+◌, ◌≡◌, refl, true, false, Option, none, some, List, [], ◌∷◌, ◌++◌, arith, if◌then◌else◌,
  inl, inr, ◌∙◌, ap, sym,
}
use operating_system_ece.Warmup.Words.{Word, same_word}
use operating_system_ece.Warmup.Words.Parse.{compare_words, same_word_refl}
use operating_system_ece.Webserver.Cache.{Entry, find_lru, behind, take_entry, to_tail, set_lru}

abbrev pub name_of : Entry → Word
name_of x = x.file.file_name

-- No name twice
abbrev pub NoTwice : List Entry → Type 0
NoTwice [] = Unit {0}
NoTwice (x ∷ l) = (find_lru l (name_of x) ≡ none) × NoTwice l

-- The sizes of the files together
unfoldable pub total_size : List Entry → ℕ
total_size [] = 0
total_size (x ∷ l) = x.file.file_size + total_size l

pub find_here :
    (x : Entry) (l : List Entry) (w : Word) → name_of x ≡ w → find_lru (x ∷ l) w ≡ some x
unfolding find_lru
find_here x l w e =
    let y : same_word (name_of x) w ≡ true =
      ap (same_word (name_of x)) (sym e) ∙ same_word_refl (name_of x) in
    rw y refl

pub find_behind :
    (x : Entry) (l : List Entry) (w : Word)
    → same_word (name_of x) w ≡ false
    → find_lru (x ∷ l) w ≡ find_lru l w
unfolding find_lru
find_behind x l w d = rw d refl

find_nil : (w : Word) → find_lru [] w ≡ none
unfolding find_lru
find_nil w = refl

-- A search in two lists
abbrev or_else : Option Entry → Option Entry → Option Entry
or_else none o = o
or_else (some x) o = some x

find_append :
    (l m : List Entry) (w : Word) → find_lru (l ++ m) w ≡ or_else (find_lru l w) (find_lru m w)
find_append [] m w = ap (λ o. or_else o (find_lru m w)) (sym (find_nil w))
find_append (x ∷ l) m w = elim (compare_words (name_of x) w) [
  | inl e ↦ find_here x (l ++ m) w e ∙ ap (λ o. or_else o (find_lru m w)) (sym (find_here x l w e))
  | inr d ↦
      find_behind x (l ++ m) w d
      ∙ find_append l m w
      ∙ ap (λ o. or_else o (find_lru m w)) (sym (find_behind x l w d))
]

-- A list with an entry behind it
pub find_last_same :
    (l : List Entry) (x : Entry) (w : Word)
    → find_lru l w ≡ none
    → name_of x ≡ w
    → find_lru (l ++ (x ∷ [])) w ≡ some x
find_last_same l x w n e =
    find_append l (x ∷ []) w ∙ ap (λ o. or_else o (find_lru (x ∷ []) w)) n ∙ find_here x [] w e

or_none : (o : Option Entry) → or_else o none ≡ o
or_none none = refl
or_none (some x) = refl

pub find_last_other :
    (l : List Entry) (x : Entry) (w : Word)
    → same_word (name_of x) w ≡ false
    → find_lru (l ++ (x ∷ [])) w ≡ find_lru l w
find_last_other l x w d =
    find_append l (x ∷ []) w
    ∙ ap (or_else (find_lru l w)) (find_behind x [] w d ∙ find_nil w)
    ∙ or_none (find_lru l w)

pub different_sym : (v w : Word) → same_word v w ≡ false → same_word w v ≡ false
different_sym v w d = elim (compare_words w v) [
  | inl e ↦ let t : same_word v w ≡ true = ap (same_word v) e ∙ same_word_refl v in absurd (cc)
  | inr z ↦ z
]

-- An entry whose name is new keeps the names apart.
pub NoTwice-append :
    (l : List Entry) (x : Entry)
    → NoTwice l
    → find_lru l (name_of x) ≡ none
    → NoTwice (l ++ (x ∷ []))
NoTwice-append [] x h n = (n, tt)
NoTwice-append (y ∷ l) x (new, h) n = elim (compare_words (name_of y) (name_of x)) [
  | inl e ↦ let t = find_here y l (name_of x) e in absurd (cc)
  | inr d ↦ (
    find_last_other l x (name_of y) (different_sym (name_of y) (name_of x) d) ∙ new,
    NoTwice-append l x h (sym (find_behind y l (name_of x) d) ∙ n),
  )
]

pub total_size-append :
    (l : List Entry) (x : Entry) → total_size (l ++ (x ∷ [])) ≡ total_size l + x.file.file_size
unfolding total_size
total_size-append [] x = omega arith
total_size-append (y ∷ l) x = omega (arith, total_size-append l x)

-- The list without the entries of a name
unfoldable pub others_of : List Entry → Word → List Entry
others_of [] w = []
others_of (x ∷ l) w = let rest = others_of l w in if same_word (name_of x) w then rest else x ∷ rest

others_here :
    (x : Entry) (l : List Entry) (w : Word) → name_of x ≡ w → others_of (x ∷ l) w ≡ others_of l w
unfolding others_of
others_here x l w e =
    let y : same_word (name_of x) w ≡ true =
      ap (same_word (name_of x)) (sym e) ∙ same_word_refl (name_of x) in
    rw y refl

others_behind :
    (x : Entry) (l : List Entry) (w : Word)
    → same_word (name_of x) w ≡ false
    → others_of (x ∷ l) w ≡ x ∷ others_of l w
unfolding others_of
others_behind x l w d = rw d refl

none_or_some : (x : Entry) → none ≡ some x → ⊥
none_or_some x e = cc

others_all : (l : List Entry) (w : Word) → find_lru l w ≡ none → others_of l w ≡ l
unfolding others_of
others_all [] w n = refl
others_all (x ∷ l) w n = elim (compare_words (name_of x) w) [
  | inl e ↦ absurd (none_or_some x (sym n ∙ find_here x l w e))
  | inr d ↦ others_behind x l w d ∙ ap (λ m. x ∷ m) (others_all l w (sym (find_behind x l w d) ∙ n))
]

-- The list with the entry of a name at its end
abbrev pub last_used : List Entry → Word → Option Entry → List Entry
last_used l w none = l
last_used l w (some x) = others_of l w ++ (x ∷ [])

-- What `take_entry` is to return
abbrev pub Takes : List Entry → Word → Option (Entry × List Entry) → Type 0
Takes l w none = find_lru l w ≡ none
Takes l w (some (x, rest)) =
    (name_of x ≡ w)
    × ((v : Word) → same_word w v ≡ false → find_lru l v ≡ find_lru rest v)
    × (find_lru l w ≡ some x)
    × (find_lru rest w ≡ none)
    × NoTwice rest
    × (rest ≡ others_of l w)
    × (total_size l ≡ x.file.file_size + total_size rest)

take_here :
    (x : Entry) (l : List Entry) (w : Word)
    → name_of x ≡ w
    → NoTwice (x ∷ l)
    → Takes (x ∷ l) w (some (x, l))
unfolding total_size
take_here x l w e (new, h) = (
  e,
  λ v d. find_behind x l v (ap (λ u. same_word u v) e ∙ d),
  find_here x l w e,
  ap (find_lru l) (sym e) ∙ new,
  h,
  sym (others_here x l w e ∙ others_all l w (ap (find_lru l) (sym e) ∙ new)),
  refl,
)

take_behind :
    (x : Entry) (l : List Entry) (w : Word) (o : Option (Entry × List Entry))
    → same_word (name_of x) w ≡ false
    → find_lru l (name_of x) ≡ none
    → Takes l w o
    → Takes (x ∷ l) w (behind x o)
unfolding total_size
take_behind x l w none d new t = find_behind x l w d ∙ t
take_behind x l w (some (y, rest)) d new (n, others, found, gone, h, order, size) = (
  n,
  λ v e. elim (compare_words (name_of x) v) [
    | inl same ↦ find_here x l v same ∙ sym (find_here x rest v same)
    | inr z ↦ find_behind x l v z ∙ others v e ∙ sym (find_behind x rest v z)
  ],
  find_behind x l w d ∙ found,
  find_behind x rest w d ∙ gone,
  (sym (others (name_of x) (different_sym (name_of x) w d)) ∙ new, h),
  ap (λ m. x ∷ m) order ∙ sym (others_behind x l w d),
  omega arith,
)

pub take_entry-Takes : (l : List Entry) (w : Word) → NoTwice l → Takes l w (take_entry l w)
unfolding take_entry
take_entry-Takes [] w h = find_nil w
take_entry-Takes (x ∷ l) w (new, h) = elim (compare_words (name_of x) w) [
  | inl e ↦
      let y : same_word (name_of x) w ≡ true =
        ap (same_word (name_of x)) (sym e) ∙ same_word_refl (name_of x) in
      rw y (take_here x l w e (new, h))
  | inr d ↦ rw d (take_behind x l w (take_entry l w) d new (take_entry-Takes l w h))
]

-- What `set_LRU` is to leave
pub record Moves (l l' : List Entry) (w : Word) : Type 0 where
  pub same_files : (v : Word) → find_lru l' v ≡ find_lru l v
  pub distinct : NoTwice l'
  pub same_size : total_size l' ≡ total_size l
  pub order : l' ≡ last_used l w (find_lru l w)

to_tail-Moves :
    (l : List Entry) (w : Word) (o : Option (Entry × List Entry))
    → NoTwice l
    → Takes l w o
    → Moves l (to_tail l o) w
to_tail-Moves l w none h t = record {
  same_files = λ v. refl;
  distinct = h;
  same_size = refl;
  order = ap (last_used l w) (sym t);
}
to_tail-Moves l w (some (x, rest)) h (n, others, found, gone, k, order, size) = record {
  same_files = λ v. elim (compare_words w v) [
    | inl e ↦
        find_last_same rest x v (ap (find_lru rest) (sym e) ∙ gone) (n ∙ e)
        ∙ sym found
        ∙ ap (find_lru l) e
    | inr d ↦ find_last_other rest x v (ap (λ u. same_word u v) n ∙ d) ∙ sym (others v d)
  ];
  distinct = NoTwice-append rest x k (ap (find_lru rest) n ∙ gone);
  same_size = omega (arith, total_size-append rest x, size);
  order = ap (λ m. m ++ (x ∷ [])) order ∙ ap (last_used l w) (sym found);
}

pub set_lru-Moves : (l : List Entry) (w : Word) → NoTwice l → Moves l (set_lru l w) w
unfolding set_lru
set_lru-Moves [] w h = record {
  same_files = λ v. refl;
  distinct = h;
  same_size = refl;
  order = ap (last_used [] w) (sym (find_nil w));
}
set_lru-Moves (x ∷ []) w h = record {
  same_files = λ v. refl;
  distinct = h;
  same_size = refl;
  order = elim (compare_words (name_of x) w) [
    | inl e ↦
        ap (λ m. m ++ (x ∷ [])) (sym (others_here x [] w e ∙ others_all [] w (find_nil w)))
        ∙ ap (last_used (x ∷ []) w) (sym (find_here x [] w e))
    | inr d ↦ ap (last_used (x ∷ []) w) (sym (find_behind x [] w d ∙ find_nil w))
  ];
}
set_lru-Moves (x ∷ y ∷ l) w h =
    to_tail-Moves (x ∷ y ∷ l) w (take_entry (x ∷ y ∷ l) w) h (take_entry-Takes (x ∷ y ∷ l) w h)
