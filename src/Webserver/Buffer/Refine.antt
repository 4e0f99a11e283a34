-- ===== src/Webserver/Buffer/Refine.antt =====
-- Proofs on the buffer of webserver/server_thread.c as a queue.
use operating_system_ece.Common.{
  ℕ, ◌+◌, ◌-◌, ◌%◌, ◌<◌, ◌≤◌, ◌≡◌, refl, Bool, true, false, ◌==◌, ltb, leb, if◌then◌else◌, update,
  List, [], ◌∷◌, ◌++◌, length, arith, Bool-cases, Option, none, some, inl, inr, subst,
  length-append, ◌∙◌,
}
use native.Mathlib.Nat.{mod_self, mod-eq_of_lt, add-mod_right}
use operating_system_ece.Webserver.Buffer.{
  Server, Put, waits_full, stored, Take, waits_empty, taken, occupied, advance, server_request,
  put_request, worker_take, server_init,
}

-- The index behind `x` in an array of `max + 1` entries
abbrev pub next_index : ℕ → ℕ → ℕ
next_index max x = if x == max then 0 else x + 1

-- How many entries there are from `o` up to `i`
abbrev pub distance : ℕ → ℕ → ℕ → ℕ
distance max o i = if leb o i then i - o else i + max + 1 - o

-- The entries of the array from index `o` up to index `i` are the list.
abbrev pub Entries : ℕ → (ℕ → ℕ) → ℕ → List ℕ → ℕ → Type 0
Entries max buf o [] i = o ≡ i
Entries max buf o (c ∷ q) i = (buf o ≡ c) × Entries max buf (next_index max o) q i

-- The buffer of a server holds the connections of the list.
pub record Holds (sv : Server) (q : List ℕ) : Type 0 where
  pub some_room : 0 < sv.max_requests
  pub in_range : sv.index_in ≤ sv.max_requests
  pub out_range : sv.index_out ≤ sv.max_requests
  pub room : length q ≤ sv.max_requests
  pub entries : Entries sv.max_requests sv.buf sv.index_out q sv.index_in

module _ (max : ℕ) where
  pub mod_advance : (x : ℕ) → x ≤ max → (x + 1) % (max + 1) ≡ next_index max x
  mod_advance x l = elim (Bool-cases (x == max)) [
    | inl y ↦
        let last : x ≡ max = ground arith in
        rw y (subst (λ m. (x + 1) % (m + 1) ≡ 0) last (mod_self (x + 1)))
    | inr n ↦ rw n (mod-eq_of_lt (ground arith))
  ]

  pub mod_distance :
      (o i : ℕ) → o ≤ max → i ≤ max → (i + max + 1 - o) % (max + 1) ≡ distance max o i
  mod_distance o i a b = elim (Bool-cases (leb o i)) [
    | inl y ↦
        let sum : i + max + 1 - o ≡ (i - o) + (max + 1) = ground arith in
        rw (y, sum) (add-mod_right (i - o) (max + 1) ∙ mod-eq_of_lt (omega arith))
    | inr n ↦ rw n (mod-eq_of_lt (ground arith))
  ]

  Entries-distance :
      (buf : ℕ → ℕ) (q : List ℕ) (o i : ℕ)
      → o ≤ max
      → i ≤ max
      → length q ≤ max
      → Entries max buf o q i
      → distance max o i ≡ length q
  Entries-distance buf [] o i a b l e = ground arith
  Entries-distance buf (c ∷ q) o i a b l (f, e) =
      let rest = Entries-distance buf q (next_index max o) i (ground arith) b (omega arith) e in
      ground arith

  Entries-snoc :
      (buf : ℕ → ℕ) (q : List ℕ) (o i c : ℕ)
      → o ≤ max
      → i ≤ max
      → length q < max
      → Entries max buf o q i
      → Entries max (update buf i c) o (q ++ c ∷ []) (next_index max i)
  Entries-snoc buf [] o i c a b l e = rw e (ground arith, refl)
  Entries-snoc buf (x ∷ q) o i c a b l (f, e) =
      let apart = Entries-distance buf (x ∷ q) o i a b (omega arith) (f, e) in
      let rest = Entries-snoc buf q (next_index max o) i c (ground arith) b (omega arith) e in
      (ground arith, rest)

occupied-length : (sv : Server) (q : List ℕ) → Holds sv q → occupied sv ≡ length q
unfolding occupied
occupied-length sv q h =
    mod_distance sv.max_requests sv.index_out sv.index_in h.out_range h.in_range
    ∙ Entries-distance sv.max_requests sv.buf q sv.index_out sv.index_in h.out_range h.in_range
        h.room h.entries

advance_lem :
    (sv : Server) (x : ℕ) → x ≤ sv.max_requests → advance sv x ≡ next_index sv.max_requests x
unfolding advance
advance_lem sv x l = mod_advance sv.max_requests x l

abbrev pub is_empty : List ℕ → Bool
is_empty [] = true
is_empty (c ∷ q) = false

empty_indices : (sv : Server) (q : List ℕ) → Holds sv q → (sv.index_in == sv.index_out) ≡ is_empty q
empty_indices sv [] h = let e = h.entries in ground arith
empty_indices sv (c ∷ q) h =
    let d =
      Entries-distance sv.max_requests sv.buf (c ∷ q) sv.index_out sv.index_in h.out_range
        h.in_range h.room h.entries in
    ground arith

-- What a round of `put_request` is to do with the queue.
abbrev pub Puts : ℕ → Server → List ℕ → Put → Type 0
Puts c sv q waits_full = length q ≡ sv.max_requests
Puts c sv q (stored sv' signal) =
    Holds sv' (q ++ c ∷ [])
    × (sv'.max_requests ≡ sv.max_requests)
    × (length q < sv.max_requests)
    × (signal ≡ is_empty q)

-- What a round of a worker is to do with the queue.
abbrev pub Takes : Server → List ℕ → Take → Type 0
Takes sv [] waits_empty = Unit {0}
Takes sv [] (taken c sv' signal) = ⊥
Takes sv (x ∷ q) waits_empty = ⊥
Takes sv (x ∷ q) (taken c sv' signal) =
    (c ≡ x)
    × Holds sv' q
    × (sv'.max_requests ≡ sv.max_requests)
    × (signal ≡ (length (x ∷ q) == sv.max_requests))

pub put_request_refines :
    (c : ℕ) (sv : Server) (q : List ℕ) → Holds sv q → Puts c sv q (put_request c sv)
unfolding put_request
put_request_refines c sv q h = elim (Bool-cases (occupied sv == sv.max_requests)) [
  | inl y ↦ let e = occupied-length sv q h in rw y (ground arith)
  | inr n ↦
      let e = occupied-length sv q h in
      let free : length q < sv.max_requests = let r = h.room in ground arith in
      rw (n, advance_lem sv sv.index_in h.in_range, empty_indices sv q h)
        (
          record {
            some_room = h.some_room;
            in_range = let r = h.in_range in ground arith;
            out_range = h.out_range;
            room = omega (arith, length-append q (c ∷ []));
            entries =
                Entries-snoc sv.max_requests sv.buf q sv.index_out sv.index_in c h.out_range
                  h.in_range free h.entries;
          },
          refl,
          free,
          refl,
        )
]

-- With worker threads the connection goes to the queue.
abbrev pub Requests : ℕ → Server → List ℕ → Option Put → Type 0
Requests c sv q none = sv.nr_threads ≡ 0
Requests c sv q (some r) = (0 < sv.nr_threads) × Puts c sv q r

-- Without worker threads `server_request` serves the request itself. With them it waits exactly when
-- max_requests connections are in the buffer; else it puts its connection behind them, and signals
-- `empty` exactly when the buffer was empty.
pub server_request_refines :
    (c : ℕ) (sv : Server) (q : List ℕ) → Holds sv q → Requests c sv q (server_request c sv)
unfolding server_request
server_request_refines c sv q h = elim (Bool-cases (sv.nr_threads == 0)) [
  | inl y ↦ rw y (ground arith)
  | inr n ↦ rw n (ground arith, put_request_refines c sv q h)
]

-- A worker waits exactly when the buffer is empty; else it takes the connection that has been there
-- longest, and signals `full` exactly when the buffer was full.
pub worker_take_refines : (sv : Server) (q : List ℕ) → Holds sv q → Takes sv q (worker_take sv)
unfolding worker_take
worker_take_refines sv [] h = rw (empty_indices sv [] h) tt
worker_take_refines sv (x ∷ q) h =
    let (first, rest) = h.entries in
    rw
      (
        empty_indices sv (x ∷ q) h,
        advance_lem sv sv.index_out h.out_range,
        occupied-length sv (x ∷ q) h,
      )
      (
        first,
        record {
          some_room = h.some_room;
          in_range = h.in_range;
          out_range = let r = h.out_range in ground arith;
          room = let r = h.room in omega arith;
          entries = rest;
        },
        refl,
        refl,
      )

-- A server that is started with room for a request has an empty buffer.
pub server_init_empty :
    (nr_threads max_requests max_cache_size : ℕ) (memory : Server)
    → 0 < max_requests
    → Holds (server_init nr_threads max_requests max_cache_size memory) []
unfolding server_init
server_init_empty nr_threads max_requests max_cache_size memory room =
    let some : ltb 0 max_requests ≡ true = ground arith in
    rw some (record {
      some_room = room;
      in_range = omega arith;
      out_range = omega arith;
      room = omega arith;
      entries = refl;
    })
