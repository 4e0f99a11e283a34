-- ===== src/Thread/Slots.antt =====
-- thread_create (threads/thread.c): the slot that is taken, its stack, and the ready queue.
use operating_system_ece.Common.{
  ℕ, zero, suc, ◌+◌, ◌%◌, ◌<◌, ◌≤◌, ◌≡◌, refl, ap, sym, Bool, true, false, ◌||◌, not, Option, none,
  some, List, [], ◌∷◌, ◌++◌, pos, arith, ◌==◌, mem, update, Bool-cases, inl, inr, Option-cases,
  Distinct-append, Below-append, mem-append,
}
use mathlib.Core.Option.{some-injective, some-ne-none}
use operating_system_ece.Thread.{
  max_threads, min_stack, thread_nomore, stub, ready, Threads, returned, interrupts_off, restore,
}
use operating_system_ece.Thread.Create.{
  is_exit, is_none_state, find_slot, stack_top, enqueue, reclaim, fill_slot, thread_create,
}
use operating_system_ece.Thread.Links.{
  first, last, last_of, succ_of, succ_of-append, succ_of-not_mem, last_of-append,
}
use operating_system_ece.Thread.View.{View, Holds, Gives, code, create}
use operating_system_ece.Thread.Refine.{Holds-restore, idle, busy}

-- A slot that `thread_create` may take.
abbrev pub is_free : Threads → ℕ → Bool
is_free s i = s.stack_null i || is_none_state (s.state i)

-- The threads of the list are slot 0 or have a slot that is not free.
abbrev pub Taken : Threads → List ℕ → Type 0
Taken s [] = Unit {0}
Taken s (x ∷ xs) = ((x == 0) || not (is_free s x)) ≡ true × Taken s xs

-- The slot found is the first free one.
pub record FirstFree (s : Threads) (from i : ℕ) : Type 0 where
  pub reached : from ≤ i
  pub free : is_free s i ≡ true
  pub before : (j : ℕ) → from ≤ j → j < i → is_free s j ≡ false

find_slot-some :
    (rounds from i : ℕ) (s : Threads)
    → find_slot rounds from s ≡ some i
    → FirstFree s from i × (i < from + rounds)
unfolding find_slot
find_slot-some zero from i s e = absurd (cc)
find_slot-some (suc rounds) from i s e = elim (Bool-cases (is_free s from)) [
  | inl y ↦
      let here : from ≡ i = some-injective from i (rw y at e) in
      (
        record {
          reached = omega arith;
          free = rw here at y;
          before = λ j a b. absurd (omega arith);
        },
        omega arith,
      )
  | inr n ↦
      let (ih, bound) = find_slot-some rounds (from + 1) i s (rw n at e) in
      (
        record {
          reached = omega (arith, ih.reached);
          free = ih.free;
          before = λ j a b. elim (Bool-cases (j == from)) [
            | inl same ↦ let here : from ≡ j = ground arith in rw here at n
            | inr other ↦ ih.before j (ground arith) b
          ];
        },
        omega arith,
      )
]

find_slot-none :
    (rounds from : ℕ) (s : Threads)
    → find_slot rounds from s ≡ none
    → (j : ℕ) → from ≤ j
    → j < from + rounds
    → is_free s j ≡ false
unfolding find_slot
find_slot-none zero from s e j a b = absurd (omega arith)
find_slot-none (suc rounds) from s e j a b = elim (Bool-cases (is_free s from)) [
  | inl y ↦ absurd (some-ne-none from (rw y at e))
  | inr n ↦ elim (Bool-cases (j == from)) [
    | inl same ↦ let here : from ≡ j = ground arith in rw here at n
    | inr other ↦ find_slot-none rounds (from + 1) s (rw n at e) j (ground arith) (omega arith)
  ]
]

-- What `thread_create` searches for: the first free slot from 1 to 1023, or no slot if none is free.
abbrev pub Found : Threads → Option ℕ → Type 0
Found s none = (j : ℕ) → 1 ≤ j → j < max_threads → is_free s j ≡ false
Found s (some i) = FirstFree s 1 i × (i < max_threads)

-- The search of `thread_create` finds the first free slot from 1 to 1023, and none only if none of
-- them is free.
pub find_slot_lem : (s : Threads) → Found s (find_slot 1023 1 s)
find_slot_lem s = elim (Option-cases (find_slot 1023 1 s)) [
  | inl e ↦ rw e (λ j a b. find_slot-none 1023 1 s e j a b)
  | inr (i, e) ↦ rw e (find_slot-some 1023 1 i s e)
]

-- A free slot from 1 on is none of the threads that have one.
fresh_slot :
    (s : Threads) (i : ℕ) (q : List ℕ) → Taken s q → is_free s i ≡ true → 1 ≤ i → mem i q ≡ false
fresh_slot s i [] t f l = refl
fresh_slot s i (x ∷ xs) t f l = elim (Bool-cases (x == i)) [
  | inl y ↦ let same : x ≡ i = ground arith in absurd (ground (arith, rw same at t.0))
  | inr n ↦ rw n (fresh_slot s i xs t.1 f l)
]

enqueue-Gives :
    (e : Bool) (i : ℕ) (s : Threads) (t : ℕ) (q : List ℕ)
    → Holds s (record { running = t; ready = q })
    → mem i (t ∷ q) ≡ false
    → i < max_threads
    → Gives (enqueue e i s) (code (pos i), record { running = t; ready = q ++ (i ∷ []) })
unfolding enqueue
enqueue-Gives e i s t [] h f l = rw (idle s h.queue) (
  refl,
  record {
    current = h.current;
    queue = record {
      links = λ a. unfold succ_of first in ground (arith, h.queue.links a);
      head = unfold first in refl;
      tail = unfold last last_of in refl;
    };
    distinct = ground arith;
    below = (h.below.0, (l, tt));
  },
)
enqueue-Gives e i s t (x ∷ xs) h f l =
    rw (busy s x xs h.queue, h.queue.tail)
      (unfold last in
        (
          refl,
          record {
            current = h.current;
            queue = record {
              links = λ a. ground (
                arith,
                h.queue.links a,
                succ_of-append x xs i a h.distinct.1,
                succ_of-not_mem (x ∷ xs) i,
              );
              head = unfold first in h.queue.head;
              tail = ap some (sym (last_of-append x xs i));
            };
            distinct =
                ground
                  (arith, mem-append t (x ∷ xs) (i ∷ []), Distinct-append (x ∷ xs) i h.distinct.1);
            below = (h.below.0, Below-append max_threads (x ∷ xs) i h.below.1 l);
          },
        ))

reclaim-Holds :
    (i : ℕ) (s : Threads) (v : View)
    → Holds s v
    → mem i (v.running ∷ v.ready) ≡ false
    → Holds (reclaim i s) v
unfolding reclaim
reclaim-Holds i s v h f = elim (Bool-cases (is_exit (s.state i))) [
  | inl y ↦ rw y (record {
    current = h.current;
    queue = record {
      links = λ a. ground (arith, h.queue.links a, succ_of-not_mem v.ready i);
      head = h.queue.head;
      tail = h.queue.tail;
    };
    distinct = h.distinct;
    below = h.below;
  })
  | inr n ↦ rw n h
]

module _ {s : Threads} {v : View} where
  create-Gives :
      (slot memory : Option ℕ)
      → Holds s v
      → Taken s (v.running ∷ v.ready)
      → Found (interrupts_off s) slot
      → Gives
          (elim slot [
            | none ↦ returned thread_nomore (restore s.interrupts (interrupts_off s))
            | some iter ↦ fill_slot s.interrupts memory iter (reclaim iter (interrupts_off s))
          ])
          (create slot memory v)
  unfolding create fill_slot
  create-Gives none memory h t f = (refl, Holds-restore s.interrupts h)
  create-Gives (some i) none h t (f, l) =
      let fresh = fresh_slot s i (v.running ∷ v.ready) t f.free f.reached in
      let k = reclaim-Holds i (interrupts_off s) v (Holds-restore false h) fresh in
      (
        refl,
        record {
          current = k.current;
          queue = record { links = k.queue.links; head = k.queue.head; tail = k.queue.tail };
          distinct = k.distinct;
          below = k.below;
        },
      )
  create-Gives (some i) (some p) h t (f, l) =
      let fresh = fresh_slot s i (v.running ∷ v.ready) t f.free f.reached in
      let k = reclaim-Holds i (interrupts_off s) v (Holds-restore false h) fresh in
      let s' = reclaim i (interrupts_off s) in
      let s'' : Threads = record s' {
        stack = update s'.stack i (some p);
        context = update s'.context i (stub (stack_top p));
        stack_null = update s'.stack_null i false;
        state = update s'.state i ready;
      } in
      enqueue-Gives s.interrupts i s'' v.running v.ready
        (record {
          current = k.current;
          queue = record { links = k.queue.links; head = k.queue.head; tail = k.queue.tail };
          distinct = k.distinct;
          below = k.below;
        })
        fresh l

-- `thread_create` puts the first free slot from 1 to 1023 behind the ready threads and returns its
-- number; it returns THREAD_NOMORE only where none of these slots is free, and THREAD_NOMEMORY where
-- `malloc` fails, and then leaves the queue as it was.
pub thread_create_refines :
    (memory : Option ℕ) (s : Threads) (v : View)
    → Holds s v
    → Taken s (v.running ∷ v.ready)
    → (slot : Option ℕ) × Found s slot × Gives (thread_create memory s) (create slot memory v)
unfolding thread_create
thread_create_refines memory s v h t =
    let slot : Option ℕ = find_slot 1023 1 (interrupts_off s) in
    let found = find_slot_lem (interrupts_off s) in
    (slot, same_slots slot found, create-Gives slot memory h t found)
  where
    same_slots : (slot : Option ℕ) → Found (interrupts_off s) slot → Found s slot
    same_slots none h = h
    same_slots (some i) (f, l) =
        (record { reached = f.reached; free = f.free; before = f.before }, l)

-- The stack pointer of a new thread lies in the block that `malloc` returned, at most 23 bytes below
-- its end, and is 8 more than a multiple of 16.
pub stack_top_aligned :
    (p : ℕ)
    → (p + min_stack < stack_top p) × (stack_top p ≤ p + min_stack + 24) × (stack_top p % 16 ≡ 8)
unfolding stack_top
stack_top_aligned p = omega arith
