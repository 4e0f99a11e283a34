-- ===== src/Thread/Sleep.antt =====
-- Proofs on thread_sleep (threads/thread.c) against the view.
use operating_system_ece.Common.{
  ℕ, ◌≡◌, refl, subst, Option-cases, ap, sym, Bool, true, false, ◌&&◌, Option, none, some, List, [],
  ◌∷◌, ◌++◌, arith, mem, Distinct, update, is_none, inl, inr,
}
use operating_system_ece.Thread.{thread_none, Threads, Outcome, interrupts_off}
use operating_system_ece.Thread.Wait.{WaitQueue, add_waiter, switch_to_ready, sleep_on}
use operating_system_ece.Thread.Links.{
  first, last, last_of, succ_of, succ_of-not_mem, mem-last_of, last_of-append,
}
use operating_system_ece.Thread.View.{View, Holds, Gives, switch, code}
use operating_system_ece.Thread.Choose.{one_ready, several_ready}
use operating_system_ece.Thread.Refine.{Holds-restore, idle, busy}

-- Each thread of the list is linked to the one behind it.
abbrev pub Linked : (ℕ → Option ℕ) → List ℕ → Type 0
Linked links [] = Unit {0}
Linked links (x ∷ []) = Unit {0}
Linked links (x ∷ y ∷ ys) = (links x ≡ some y) × Linked links (y ∷ ys)

-- The wait queue holds the list, in the order in which the threads went to sleep.
pub record Waits (wq : WaitQueue) (q : List ℕ) : Type 0 where
  pub head : wq.head ≡ first q
  pub tail : wq.tail ≡ last q
  pub linked : Linked wq.links q

Linked-outside :
    (links : ℕ → Option ℕ) (a : ℕ) (t : Option ℕ) (q : List ℕ)
    → Linked links q
    → mem a q ≡ false
    → Linked (update links a t) q
Linked-outside links a t [] h f = h
Linked-outside links a t (x ∷ []) h f = h
Linked-outside links a t (x ∷ y ∷ ys) h f =
    (ground arith, Linked-outside links a t (y ∷ ys) h.1 (ground arith))

Linked-append :
    (links : ℕ → Option ℕ) (x : ℕ) (xs : List ℕ) (t : ℕ)
    → Linked links (x ∷ xs)
    → Distinct (x ∷ xs)
    → Linked (update links (last_of x xs) (some t)) ((x ∷ xs) ++ (t ∷ []))
unfolding last_of
Linked-append links x [] t h d = (ground arith, tt)
Linked-append links x (y ∷ ys) t h d =
    (ground (arith, mem-last_of y ys), Linked-append links y ys t h.1 d.1)

-- The queue that `add_waiter` gives, if it gives one.
abbrev pub WaitsSome : Option WaitQueue → List ℕ → Type 0
WaitsSome none q = ⊥
WaitsSome (some wq) q = Waits wq q

pub add_waiter-Waits :
    (t : ℕ) (wq : WaitQueue) (q : List ℕ)
    → Waits wq q
    → Distinct q
    → WaitsSome (add_waiter t wq) (q ++ (t ∷ []))
unfolding add_waiter
add_waiter-Waits t wq [] h d =
    let empty : (is_none wq.head && is_none wq.tail) ≡ true =
      unfold first last in ground (arith, h.head, h.tail) in
    rw empty
      (record { head = unfold first in refl; tail = unfold last last_of in refl; linked = tt })
add_waiter-Waits t wq (x ∷ xs) h d =
    let more : (is_none wq.head && is_none wq.tail) ≡ false =
      unfold first last in ground (arith, h.head, h.tail) in
    rw (more, h.tail)
      (unfold last in
        (record {
          head = unfold first in h.head;
          tail = ap some (sym (last_of-append x xs t));
          linked = Linked-append wq.links x xs t h.linked d;
        }))

switch_to_ready-Gives :
    (e : Bool) (s : Threads) (t x : ℕ) (xs : List ℕ)
    → Holds s (record { running = t; ready = x ∷ xs })
    → Gives (switch_to_ready e s) (switch, record { running = x; ready = xs })
unfolding switch_to_ready
switch_to_ready-Gives e s t x [] h =
    rw (one_ready x h.queue, h.queue.tail)
      (unfold last last_of in
        record {
          current = refl;
          queue = record {
            links = λ a. unfold succ_of first in ground (arith, h.queue.links a);
            head = unfold first in refl;
            tail = refl;
          };
          distinct = ground arith;
          below = h.below.1;
        })
switch_to_ready-Gives e s t x (y ∷ ys) h =
    rw (several_ready x y ys h.queue h.distinct.1, h.queue.head)
      (unfold first in
        record {
          current = refl;
          queue = record {
            links = λ a. unfold succ_of in ground (arith, h.queue.links a, succ_of-not_mem ys a);
            head = unfold succ_of in ground (arith, h.queue.links x);
            tail = unfold last last_of in h.queue.tail;
          };
          distinct = h.distinct.1;
          below = h.below.1;
        })

-- What a sleeping thread waits behind, and what runs: with no thread ready nothing changes.
abbrev pub Sleeps : View → List ℕ → WaitQueue × Outcome → Type 0
Sleeps v q (wq, out) = elim v.ready [
  | [] ↦ Waits wq q × Gives out (code thread_none, v)
  | x ∷ xs ↦
      Waits wq (q ++ (v.running ∷ [])) × Gives out (switch, record { running = x; ready = xs })
]

sleep_busy :
    (wq : WaitQueue) (q : List ℕ) (s : Threads) (t x : ℕ) (xs : List ℕ)
    → Holds s (record { running = t; ready = x ∷ xs })
    → Waits wq q
    → Distinct q
    → Sleeps (record { running = t; ready = x ∷ xs }) q (sleep_on wq s)
unfolding sleep_on
sleep_busy wq q s t x xs h w d = elim (Option-cases (add_waiter s.current wq)) [
  | inl e ↦ absurd (rw e at added)
  | inr (wq', e) ↦
      rw (busy s x xs h.queue, e)
        (
          subst (λ k. Waits wq' (q ++ (k ∷ []))) h.current (rw e at added),
          switch_to_ready-Gives s.interrupts (interrupts_off s) t x xs (Holds-restore false h),
        )
]
  where
    added : WaitsSome (add_waiter s.current wq) (q ++ (s.current ∷ []))
    added = add_waiter-Waits s.current wq q w d

-- `thread_sleep` puts the caller behind the waiting threads and runs the thread at the head of the
-- ready queue; if no thread is ready it returns THREAD_NONE and both queues stay as they were.
pub sleep_on_refines :
    (wq : WaitQueue) (q : List ℕ) (s : Threads) (v : View)
    → Holds s v
    → Waits wq q
    → Distinct q
    → Sleeps v q (sleep_on wq s)
unfolding sleep_on
sleep_on_refines wq q s v h w d = case v.ready h
  where
    case :
        (r : List ℕ)
        → Holds s (record { running = v.running; ready = r })
        → Sleeps (record { running = v.running; ready = r }) q (sleep_on wq s)
    case [] k = rw (idle s k.queue) (w, (refl, Holds-restore s.interrupts k))
    case (x ∷ xs) k = sleep_busy wq q s v.running x xs k w d
