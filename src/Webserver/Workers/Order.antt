-- ===== src/Webserver/Workers/Order.antt =====
-- Proofs on the order of the connections and on the threads that wait.
use mathlib.Core.List.{append_assoc}
use operating_system_ece.Common.{
  ℕ, ◌+◌, ◌<◌, ◌≤◌, ◌≡◌, refl, true, false, List, [], ◌∷◌, ◌++◌, ltb, ◌==◌, length, arith,
  Bool-cases, inl, inr, ap, sym, ◌∙◌,
}
use operating_system_ece.Webserver.Buffer.{
  Server, Put, waits_full, stored, Take, waits_empty, taken, put_request, worker_take,
}
use operating_system_ece.Webserver.Buffer.Refine.{
  Holds, Puts, Takes, is_empty, put_request_refines, worker_take_refines,
}
use operating_system_ece.Webserver.Workers.{
  System, after_put, after_take, Step, requests, serves, worker_wakes, main_wakes, Reaches, start,
  step,
}

-- What holds in every state that `n` workers come to with a buffer of `max` connections.
record Inv (n max : ℕ) (s : System) : Type 0 where
  queue : List ℕ
  holds : Holds s.server queue
  order : s.accepted ≡ s.served ++ queue
  size : s.server.max_requests ≡ max
  workers : s.awake + s.asleep ≡ n
  worker_left : s.awake ≡ 0 → length queue ≡ 0
  main_left : s.waiting ≡ true → length queue ≡ max

module _ (n max : ℕ) (some : 0 < n) (s : System) (i : Inv n max s) where
  put_order : (c : ℕ) → s.accepted ++ c ∷ [] ≡ s.served ++ (i.queue ++ c ∷ [])
  put_order c = ap (λ t. t ++ c ∷ []) i.order ∙ append_assoc s.served i.queue (c ∷ [])

  non_empty : (q : List ℕ) → false ≡ is_empty q → length q ≡ 0 → ⊥
  non_empty [] e l = ground arith
  non_empty (x ∷ q) e l = omega arith

  after_put-Inv :
      (c : ℕ) (r : Put)
      → s.waiting ≡ false
      → Puts c s.server i.queue r
      → Inv n max (after_put c r s)
  unfolding after_put
  after_put-Inv c waits_full w full = record {
    queue = i.queue;
    holds = i.holds;
    order = i.order;
    size = i.size;
    workers = i.workers;
    worker_left = i.worker_left;
    main_left = λ t. full ∙ i.size;
  }
  after_put-Inv c (stored sv true) w (holds, size, room, e) = elim (Bool-cases (ltb 0 s.asleep)) [
    | inl y ↦ rw y (record {
      queue = i.queue ++ c ∷ [];
      holds = holds;
      order = put_order c;
      size = size ∙ i.size;
      workers = let m = i.workers in ground arith;
      worker_left = λ z. absurd (omega arith);
      main_left = λ t. ground arith;
    })
    | inr none_asleep ↦ rw none_asleep (record {
      queue = i.queue ++ c ∷ [];
      holds = holds;
      order = put_order c;
      size = size ∙ i.size;
      workers = i.workers;
      worker_left = λ z. let m = i.workers in absurd (ground arith);
      main_left = λ t. ground arith;
    })
  ]
  after_put-Inv c (stored sv false) w (holds, size, room, e) = record {
    queue = i.queue ++ c ∷ [];
    holds = holds;
    order = put_order c;
    size = size ∙ i.size;
    workers = i.workers;
    worker_left = λ z. absurd (non_empty i.queue e (i.worker_left z));
    main_left = λ t. ground arith;
  }

  take_order :
      (x : ℕ) (q : List ℕ) (c : ℕ)
      → i.queue ≡ x ∷ q
      → c ≡ x
      → s.accepted ≡ (s.served ++ c ∷ []) ++ q
  take_order x q c e here =
      rw here (i.order ∙ ap (λ t. s.served ++ t) e ∙ sym (append_assoc s.served (x ∷ []) q))

  after_take-Inv :
      (q : List ℕ) (r : Take)
      → i.queue ≡ q
      → 0 < s.awake
      → Takes s.server q r
      → Inv n max (after_take r s)
  unfolding after_take
  after_take-Inv [] waits_empty e w t = record {
    queue = i.queue;
    holds = i.holds;
    order = i.order;
    size = i.size;
    workers = let m = i.workers in omega arith;
    worker_left = λ z. ap length e;
    main_left = i.main_left;
  }
  after_take-Inv (x ∷ q) (taken c sv true) e w (here, holds, size, sig) = record {
    queue = q;
    holds = holds;
    order = take_order x q c e here;
    size = size ∙ i.size;
    workers = i.workers;
    worker_left = λ z. absurd (omega arith);
    main_left = λ t. ground arith;
  }
  after_take-Inv (x ∷ q) (taken c sv false) e w (here, holds, size, sig) = record {
    queue = q;
    holds = holds;
    order = take_order x q c e here;
    size = size ∙ i.size;
    workers = i.workers;
    worker_left = λ z. absurd (omega arith);
    main_left = λ t.
        let full = sym (ap length e) ∙ i.main_left t in let m = i.size in absurd (ground arith);
  }
  after_take-Inv [] (taken c sv signal) e w h = elim h [ ]
  after_take-Inv (x ∷ q) waits_empty e w h = elim h [ ]

Step-Inv : (n max : ℕ) → 0 < n → (s s' : System) → Inv n max s → Step s s' → Inv n max s'
Step-Inv n max some _ _ i (requests s c w) =
    after_put-Inv n max some s i c (put_request c s.server) w
      (put_request_refines c s.server i.queue i.holds)
Step-Inv n max some _ _ i (serves s w) =
    after_take-Inv n max some s i i.queue (worker_take s.server) refl w
      (worker_take_refines s.server i.queue i.holds)
Step-Inv n max some _ _ i (worker_wakes s w) = record {
  queue = i.queue;
  holds = i.holds;
  order = i.order;
  size = i.size;
  workers = let m = i.workers in omega arith;
  worker_left = λ z. absurd (omega arith);
  main_left = i.main_left;
}
Step-Inv n max some _ _ i (main_wakes s) = record {
  queue = i.queue;
  holds = i.holds;
  order = i.order;
  size = i.size;
  workers = i.workers;
  worker_left = i.worker_left;
  main_left = λ t. ground arith;
}

module _ (sv : Server) (some : 0 < sv.nr_threads) (fresh : Holds sv []) where
  Reaches-Inv : (s : System) → Reaches sv s → Inv sv.nr_threads sv.max_requests s
  Reaches-Inv s start = record {
    queue = [];
    holds = fresh;
    order = refl;
    size = refl;
    workers = omega arith;
    worker_left = λ z. refl;
    main_left = λ t. ground arith;
  }
  Reaches-Inv s (step {s = before} {s' = after} r t) =
      Step-Inv sv.nr_threads sv.max_requests some before after (Reaches-Inv before r) t

  -- In every state that a server with worker threads and an empty buffer comes to, the connections that
  -- were put into the buffer are those that were taken out, in the same order, followed by those that
  -- the buffer holds, of which there are at most max_requests.
  pub served_in_order :
      (s : System)
      → Reaches sv s
      → (q : List ℕ) × Holds s.server q
        × (s.accepted ≡ s.served ++ q)
        × (length q ≤ sv.max_requests)
  served_in_order s r =
      let i = Reaches-Inv s r in
      (i.queue, i.holds, i.order, let m = i.size in let h = i.holds.room in omega arith)

  -- In every state that a server with worker threads and an empty buffer comes to, some worker does not
  -- wait while the main thread waits.
  pub never_all_wait : (s : System) → Reaches sv s → s.waiting ≡ true → 0 < s.awake
  never_all_wait s r w =
      let i = Reaches-Inv s r in
      let full = i.main_left w in
      let room = fresh.some_room in
      elim (Bool-cases (s.awake == 0)) [
        | inl y ↦ let left = i.worker_left (ground arith) in absurd (omega arith)
        | inr n ↦ ground arith
      ]
