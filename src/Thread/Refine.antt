-- ===== src/Thread/Refine.antt =====
-- Proofs on thread_yield (threads/thread.c) against the view.
use operating_system_ece.Common.{
  ℕ, zero, suc, ◌+◌, ◌<◌, ◌≡◌, refl, subst, Bool, true, false, ◌&&◌, none, some, List, [], ◌∷◌, pos,
  negsuc, arith, ◌==◌, if◌then◌else◌, mem, Distinct, Below, erase, Bool-cases, inl, inr, update,
  is_none, Distinct-append, Below-append, Distinct-erase, Below-erase, mem-erase_self, mem-append,
  mem-erase-false, Below-lt, ltb,
}
use operating_system_ece.Thread.{
  max_threads, Tid, thread_any, thread_none, thread_invalid, Threads, interrupts_off, returned,
}
use operating_system_ece.Thread.Create.{is_exit}
use operating_system_ece.Thread.Context.{record_exit}
use operating_system_ece.Thread.Yield.{
  Pick, picked, refused, broken, lost, pick, leave, thread_yield,
}
use operating_system_ece.Thread.Links.{first, last}
use operating_system_ece.Thread.View.{
  View, Queued, Holds, code, switch, Gives, behind, yield_any, yield_to, yield, length-Holds,
}
use operating_system_ece.Thread.Pick.{Picks}
use operating_system_ece.Thread.Choose.{pick-any, pick-pos, pick-pos_missing, pick-negsuc}

record_exit-Queued :
    (rounds iter : ℕ) (s : Threads) (q : List ℕ) → Queued s q → Queued (record_exit rounds iter s) q
unfolding record_exit
record_exit-Queued zero iter s q h = h
record_exit-Queued (suc rounds) iter s q h =
    elim (s.exits iter)
      as (λ o.
        Queued
          (elim o [
            | none ↦ record s { exits = update s.exits iter (some s.current) }
            | some t ↦ record_exit rounds (iter + 1) s
          ])
          q) [
            | none ↦ record { links = h.links; head = h.head; tail = h.tail }
            | some t ↦ record_exit-Queued rounds (iter + 1) s q h
          ]

leave-Gives :
    (e : Bool) (p : Pick) (s : Threads) (caller w : ℕ) (q : List ℕ)
    → Picks caller w q p
    → Distinct (w ∷ q)
    → Below max_threads (w ∷ q)
    → Gives (leave e p s) (switch, record { running = w; ready = q })
unfolding leave
leave-Gives e (picked t s') s caller w q h d b = elim (Bool-cases (is_exit (s'.state s'.current))) [
  | inl y ↦ rw y (
      let k = record_exit-Queued max_threads 0 s' q h.1 in
      record {
        current = h.0;
        queue = record { links = k.links; head = k.head; tail = k.tail };
        distinct = d;
        below = b;
      })
  | inr n ↦ rw n (record {
    current = h.0;
    queue = record { links = h.1.links; head = h.1.head; tail = h.1.tail };
    distinct = d;
    below = b;
  })
]
leave-Gives e refused s caller w q h d b = h
leave-Gives e broken s caller w q h d b = h
leave-Gives e lost s caller w q h d b = h

-- The threads of the view stay distinct.
behind-Distinct :
    (b : Bool) (t w : ℕ) (q : List ℕ)
    → Distinct (w ∷ q)
    → Distinct (t ∷ q)
    → (w == t) ≡ false
    → Distinct (w ∷ behind b t q)
unfolding behind
behind-Distinct true t w q d c n = d
behind-Distinct false t w q d c n = ground (arith, mem-append w q (t ∷ []), Distinct-append q t)

behind-Below :
    (b : Bool) (t w : ℕ) (q : List ℕ)
    → Below max_threads (w ∷ q)
    → t < max_threads
    → Below max_threads (w ∷ behind b t q)
unfolding behind
behind-Below true t w q h l = h
behind-Below false t w q h l = (h.0, Below-append max_threads q t h.1 l)

module _ {s : Threads} {v : View} where
  pub Holds-restore : (e : Bool) → Holds s v → Holds (record s { interrupts = e }) v
  Holds-restore e h = record {
    current = h.current;
    queue = record { links = h.queue.links; head = h.queue.head; tail = h.queue.tail };
    distinct = h.distinct;
    below = h.below;
  }

module _ (s : Threads) where
  pub idle : Queued s [] → (is_none s.tail && is_none s.head) ≡ true
  unfolding first last
  idle q = ground (arith, q.tail, q.head)

  pub busy : (x : ℕ) (xs : List ℕ) → Queued s (x ∷ xs) → (is_none s.tail && is_none s.head) ≡ false
  unfolding first last
  busy x xs q = ground (arith, q.tail, q.head)

  not_ready :
      (w : ℕ) (q : List ℕ) → Below max_threads q → ltb max_threads w ≡ true → mem w q ≡ false
  not_ready w q b o = elim (Bool-cases (mem w q)) [
    | inl m ↦ absurd (ground (arith, Below-lt max_threads w q b m))
    | inr n ↦ n
  ]

  taken-Distinct :
      (w : ℕ) (q : List ℕ) (b : Bool)
      → Distinct (s.current ∷ q)
      → (w == s.current) ≡ false
      → Distinct (w ∷ behind b s.current (erase w q))
  taken-Distinct w q b d n =
      let rest = Distinct-erase w q d.1 in
      behind-Distinct b s.current w (erase w q) (mem-erase_self w q d.1, rest)
        (mem-erase-false s.current w q d.0, rest) n

  taken-Below :
      (w : ℕ) (q : List ℕ) (b : Bool)
      → Below max_threads (s.current ∷ q)
      → mem w q ≡ true
      → Below max_threads (w ∷ behind b s.current (erase w q))
  taken-Below w q b h m =
      behind-Below b s.current w (erase w q)
        (Below-lt max_threads w q h.1 m, Below-erase max_threads w q h.1) h.0

  -- `thread_yield` at a thread's number
  yield_pos :
      (b : Bool) (w : ℕ) (q : List ℕ)
      → Holds s (record { running = s.current; ready = q })
      → is_exit (s.state s.current) ≡ b
      → Gives (thread_yield (pos w) s) (yield b (pos w) (record { running = s.current; ready = q }))
  unfolding thread_yield yield leave
  yield_pos b w q h e = elim (Bool-cases (w == s.current)) [
    | inl y ↦ rw y (refl, Holds-restore s.interrupts h)
    | inr n ↦ elim (Bool-cases (ltb max_threads w)) [
      | inl o ↦ rw (n, o, not_ready w q h.below.1 o) (refl, Holds-restore s.interrupts h)
      | inr i ↦ rw (n, i) (in_range q h e n)
    ]
  ]
    where
      in_range :
          (q : List ℕ)
          → Holds s (record { running = s.current; ready = q })
          → is_exit (s.state s.current) ≡ b
          → (w == s.current) ≡ false
          → Gives
              (if is_none s.tail && is_none s.head
                then returned thread_invalid (record s { interrupts = s.interrupts })
                else leave s.interrupts (pick (pos w) (interrupts_off s)) (interrupts_off s))
              (yield_to b w s.current q)
      in_range [] h e n = rw (idle h.queue) (refl, Holds-restore s.interrupts h)
      in_range (x ∷ xs) h e n =
          let off = Holds-restore false h in
          let l = length-Holds s _ h in
          rw (busy x xs h.queue) (elim (Bool-cases (mem w (x ∷ xs))) [
            | inl m ↦ rw m (
                leave-Gives s.interrupts _ _ s.current w _
                  (pick-pos b w x xs e off.queue h.distinct (omega arith) m)
                  (taken-Distinct w (x ∷ xs) b h.distinct n) (taken-Below w (x ∷ xs) b h.below m))
            | inr m ↦
                rw (m, pick-pos_missing w x xs off.queue h.distinct (omega arith) m)
                  (refl, Holds-restore s.interrupts h)
          ])

  -- `thread_yield` at a control code
  yield_negsuc :
      (b : Bool) (n : ℕ) (q : List ℕ)
      → Holds s (record { running = s.current; ready = q })
      → is_exit (s.state s.current) ≡ b
      → Gives
          (thread_yield (negsuc n) s)
          (yield b (negsuc n) (record { running = s.current; ready = q }))
  unfolding thread_yield yield leave
  yield_negsuc b n q h e = elim (Bool-cases (n == 1)) [
    | inl y ↦ rw y (refl, Holds-restore s.interrupts h)
    | inr not_self ↦ elim (Bool-cases (n == 0)) [
      | inl any ↦ let z : n ≡ 0 = ground arith in rw (z) (run_any q h e)
      | inr other ↦ rw (not_self, other) (refuse q h other)
    ]
  ]
    where
      run_any :
          (q : List ℕ)
          → Holds s (record { running = s.current; ready = q })
          → is_exit (s.state s.current) ≡ b
          → Gives
              (if is_none s.tail && is_none s.head
                then returned thread_none (record s { interrupts = s.interrupts })
                else leave s.interrupts (pick thread_any (interrupts_off s)) (interrupts_off s))
              (yield_any b s.current q)
      run_any [] h e = rw (idle h.queue) (refl, Holds-restore s.interrupts h)
      run_any (x ∷ xs) h e =
          let off = Holds-restore false h in
          rw (busy x xs h.queue) (
            leave-Gives s.interrupts _ _ s.current x _ (pick-any b x xs e off.queue h.distinct)
              (behind-Distinct b s.current x xs h.distinct.1 (ground arith) (ground arith))
              (behind-Below b s.current x xs h.below.1 h.below.0))

      refuse :
          (q : List ℕ)
          → Holds s (record { running = s.current; ready = q })
          → (n == 0) ≡ false
          → Gives
              (if ltb 6 n
                then returned thread_invalid (record s { interrupts = s.interrupts })
                else if is_none s.tail && is_none s.head
                then returned thread_invalid (record s { interrupts = s.interrupts })
                else leave s.interrupts (pick (negsuc n) (interrupts_off s)) (interrupts_off s))
              (code thread_invalid, record { running = s.current; ready = q })
      refuse [] h other = elim (Bool-cases (ltb 6 n)) [
        | inl o ↦ rw o (refl, Holds-restore s.interrupts h)
        | inr i ↦ rw (i, idle h.queue) (refl, Holds-restore s.interrupts h)
      ]
      refuse (x ∷ xs) h other =
          let off = Holds-restore false h in
          let l = length-Holds s _ h in
          let skipped = pick-negsuc n x xs off.queue h.distinct (omega arith) other in
          elim (Bool-cases (ltb 6 n)) [
            | inl o ↦ rw o (refl, Holds-restore s.interrupts h)
            | inr i ↦ rw (i, busy x xs h.queue, skipped) (refl, Holds-restore s.interrupts h)
          ]

-- `thread_yield` replies and leaves the queue as the view says, for every argument: the caller goes
-- behind the ready threads unless its state is EXIT.
pub thread_yield_refines :
    (want : Tid) (s : Threads) (v : View)
    → Holds s v
    → Gives (thread_yield want s) (yield (is_exit (s.state v.running)) want v)
thread_yield_refines want s v h =
    subst (λ t. Gives (thread_yield want s) (yield (is_exit (s.state t)) want (at_thread t)))
      h.current (case want (rw (← h.current) at same))
  where
    at_thread : ℕ → View
    at_thread t = record { running = t; ready = v.ready }

    same : Holds s v
    same = h

    case :
        (want : Tid)
        → Holds s (at_thread s.current)
        → Gives
            (thread_yield want s)
            (yield (is_exit (s.state s.current)) want (at_thread s.current))
    case (pos w) k = yield_pos s _ w v.ready k refl
    case (negsuc n) k = yield_negsuc s _ n v.ready k refl
