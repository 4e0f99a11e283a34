-- ===== src/Thread/Exit.antt =====
-- Proofs on thread_exit (threads/thread.c) against the view.
use operating_system_ece.Common.{
  ℕ, ◌≡◌, refl, Bool, true, false, ◌||◌, List, [], ◌∷◌, arith, update, is_none, not,
}
use operating_system_ece.Thread.{
  thread_any, exit, Threads, interrupts_off, Outcome, returned, switched, started, fault, spins,
}
use operating_system_ece.Thread.Create.{is_exit}
use operating_system_ece.Thread.Yield.{after_yield, thread_yield, thread_exit}
use operating_system_ece.Thread.Links.{first, last}
use operating_system_ece.Thread.View.{View, Holds, switch, Gives, yield_any, yield}
use operating_system_ece.Thread.Refine.{Holds-restore, thread_yield_refines}

after_yield-Gives :
    (e : Bool) (o : Outcome) (v : View) → Gives o (switch, v) → Gives (after_yield e o) (switch, v)
unfolding after_yield
after_yield-Gives e (returned r s) v g = absurd g
after_yield-Gives e (switched s) v g = g
after_yield-Gives e (started s) v g = absurd g
after_yield-Gives e fault v g = absurd g
after_yield-Gives e spins v g = absurd g

exit_busy :
    (s : Threads) (t x : ℕ) (xs : List ℕ)
    → Holds s (record { running = t; ready = x ∷ xs })
    → Gives (thread_exit s) (yield_any true t (x ∷ xs))
unfolding thread_exit yield_any yield
exit_busy s t x xs h =
    let some_ready : (not (is_none s.head) || not (is_none s.tail)) ≡ true =
      unfold first last in ground (arith, h.queue.head, h.queue.tail) in
    let s' = record (interrupts_off s) { state = update s.state s.current exit } in
    let dying : is_exit (s'.state t) ≡ true = ground (arith, h.current) in
    let h' : Holds s' (record { running = t; ready = x ∷ xs }) = record {
      current = h.current;
      queue = record { links = h.queue.links; head = h.queue.head; tail = h.queue.tail };
      distinct = h.distinct;
      below = h.below;
    } in
    rw some_ready (
      after_yield-Gives s.interrupts (thread_yield thread_any s') _
        (rw dying at (thread_yield_refines thread_any s' _ h')))

exit_idle :
    (s : Threads) (t : ℕ)
    → Holds s (record { running = t; ready = [] })
    → Gives (thread_exit s) (yield_any true t [])
unfolding thread_exit yield_any
exit_idle s t h =
    let none_ready : (not (is_none s.head) || not (is_none s.tail)) ≡ false =
      unfold first last in ground (arith, h.queue.head, h.queue.tail) in
    let ended : (is_none s.head || is_none s.tail) ≡ true =
      unfold first last in ground (arith, h.queue.head, h.queue.tail) in
    rw (none_ready, ended) (refl, Holds-restore s.interrupts h)

-- `thread_exit` in the last thread returns THREAD_NONE and changes nothing of the queue; in any
-- other it runs the thread at the head, and the caller is not ready any more.
pub thread_exit_refines :
    (s : Threads) (v : View) → Holds s v → Gives (thread_exit s) (yield_any true v.running v.ready)
thread_exit_refines s v h = case v.ready h
  where
    case :
        (q : List ℕ)
        → Holds s (record { running = v.running; ready = q })
        → Gives (thread_exit s) (yield_any true v.running q)
    case [] k = exit_idle s v.running k
    case (x ∷ xs) k = exit_busy s v.running x xs k
