-- ===== src/Thread/Wake.antt =====
-- Proofs on thread_wakeup (threads/thread.c) against the view.
use operating_system_ece.Common.{
  ℕ, zero, suc, ◌+◌, ◌<◌, ◌≡◌, refl, subst, ap, sym, ◌∙◌, Bool, true, false, ◌&&◌, Option, none,
  some, List, [], ◌∷◌, ◌++◌, pos, arith, mem, length, Distinct, Below, is_none, Option-cases, inl,
  inr, same_link, Distinct-append, Below-append, mem-append, length-le-bound,
}
use mathlib.Core.List.{append_assoc, append-nil}
use mathlib.Core.Option.{some-ne-none}
use operating_system_ece.Thread.{max_threads, Threads, Outcome, interrupts_off}
use operating_system_ece.Thread.Wait.{
  WaitQueue, make_ready, wake_one, wake_last, wake_loop, wake_from,
}
use operating_system_ece.Thread.Links.{
  first, last, last_of, succ_of, succ_of-not_mem, succ_of-append, mem-last_of, last_of-append,
}
use operating_system_ece.Thread.View.{View, Holds, Gives, code}
use operating_system_ece.Thread.Refine.{Holds-restore, idle, busy}
use operating_system_ece.Thread.Sleep.{Waits}

-- The table that `make_ready` gives, if it gives one.
abbrev HoldsSome : Option Threads → View → Type 0
HoldsSome none v = ⊥
HoldsSome (some s) v = Holds s v

make_ready-Holds :
    (i : ℕ) (s : Threads) (t : ℕ) (q : List ℕ)
    → Holds s (record { running = t; ready = q })
    → mem i (t ∷ q) ≡ false
    → i < max_threads
    → HoldsSome (make_ready i s) (record { running = t; ready = q ++ (i ∷ []) })
unfolding make_ready
make_ready-Holds i s t [] h f l = rw (idle s h.queue) (record {
  current = h.current;
  queue = record {
    links = λ a. unfold succ_of first in ground (arith, h.queue.links a);
    head = unfold first in refl;
    tail = unfold last last_of in refl;
  };
  distinct = ground arith;
  below = (h.below.0, (l, tt));
})
make_ready-Holds i s t (x ∷ xs) h f l =
    rw (busy s x xs h.queue, h.queue.tail)
      (unfold last in
        (record {
          current = h.current;
          queue = record {
            links = λ a. ground (
              arith,
              h.queue.links a,
              succ_of-append x xs i a h.distinct.1,
              succ_of-not_mem (x ∷ xs) i,
              mem-last_of x xs,
            );
            head = unfold first in h.queue.head;
            tail = ap some (sym (last_of-append x xs i));
          };
          distinct =
              ground
                (arith, mem-append t (x ∷ xs) (i ∷ []), Distinct-append (x ∷ xs) i h.distinct.1);
          below = (h.below.0, Below-append max_threads (x ∷ xs) i h.below.1 l);
        }))

-- The woken threads: none of them is running, ready or twice in the list.
abbrev pub Apart : View → List ℕ → Type 0
Apart v [] = Unit {0}
Apart v (x ∷ xs) = (mem x (v.running ∷ v.ready) ≡ false) × (mem x xs ≡ false) × Apart v xs

Apart-append :
    (t i : ℕ) (r q : List ℕ)
    → Apart (record { running = t; ready = r }) q
    → mem i q ≡ false
    → Apart (record { running = t; ready = r ++ (i ∷ []) }) q
Apart-append t i r [] a f = tt
Apart-append t i r (x ∷ xs) a f =
    (ground (arith, mem-append x r (i ∷ [])), a.1, Apart-append t i r xs a.2 (ground arith))

-- Every waiting thread is ready behind the others, the wait queue is empty, and the count of the
-- woken threads is returned.
abbrev pub WakesAll : ℕ → View → List ℕ → WaitQueue × Outcome → Type 0
WakesAll n v q (wq, out) = Waits wq [] × Gives out (code (pos n), record v { ready = v.ready ++ q })

wake_last-WakesAll :
    (e : Bool) (count : ℕ) (wq : WaitQueue) (s : Threads) (t : ℕ) (r : List ℕ) (x : ℕ)
    → Holds s (record { running = t; ready = r })
    → Waits wq (x ∷ [])
    → mem x (t ∷ r) ≡ false
    → x < max_threads
    → WakesAll (count + 1) (record { running = t; ready = r }) (x ∷ []) (wake_last e count wq s)
unfolding wake_last first
wake_last-WakesAll e count wq s t r x h w a b =
    let made = make_ready-Holds x s t r h a b in
    elim (Option-cases (make_ready x s)) [
      | inl n ↦ absurd (rw n at made)
      | inr (s', m) ↦
          rw (w.head, m, wake_last)
            (
              record { head = refl; tail = unfold last in refl; linked = tt },
              (refl, Holds-restore e (rw m at made)),
            )
    ]

same_head_tail : (wq : WaitQueue) (x : ℕ) → Waits wq (x ∷ []) → same_link wq.head wq.tail ≡ true
unfolding first last last_of
same_head_tail wq x w = ground (arith, w.head, w.tail)

head_ne_tail :
    (wq : WaitQueue) (x y : ℕ) (ys : List ℕ)
    → Waits wq (x ∷ y ∷ ys)
    → mem x (y ∷ ys) ≡ false
    → same_link wq.head wq.tail ≡ false
unfolding first last last_of
head_ne_tail wq x y ys w f = rw (w.head, w.tail) (ground (arith, mem-last_of y ys))

regroup :
    (t : ℕ) (r : List ℕ) (x : ℕ) (q : List ℕ) (n : ℕ) (out : WaitQueue × Outcome)
    → WakesAll n (record { running = t; ready = r ++ (x ∷ []) }) q out
    → WakesAll n (record { running = t; ready = r }) (x ∷ q) out
regroup t r x q n out k = (
  k.0,
  subst (λ l. Gives out.1 (code (pos n), record { running = t; ready = l }))
      (append_assoc r (x ∷ []) q) k.1,
)

wake_loop-WakesAll :
    (fuel : ℕ) (e : Bool) (count : ℕ) (wq : WaitQueue) (s : Threads) (t : ℕ) (r : List ℕ) (x : ℕ)
    (xs : List ℕ)
    → length xs < fuel
    → Holds s (record { running = t; ready = r })
    → Waits wq (x ∷ xs)
    → Apart (record { running = t; ready = r }) (x ∷ xs)
    → Below max_threads (x ∷ xs)
    → WakesAll
        (count + length (x ∷ xs))
        (record { running = t; ready = r })
        (x ∷ xs)
        (wake_loop fuel e count wq s)
unfolding wake_loop
wake_loop-WakesAll zero e count wq s t r x xs l h w a b = absurd (omega arith)
wake_loop-WakesAll (suc fuel) e count wq s t r x [] l h w a b =
    rw (same_head_tail wq x w, wake_loop) (wake_last-WakesAll e count wq s t r x h w a.0 b.0)
wake_loop-WakesAll (suc fuel) e count wq s t r x (y ∷ ys) l h w a b =
    let made = make_ready-Holds x s t r h a.0 b.0 in
    let heads : wq.head ≡ some x = unfold first in w.head in
    let rest : Waits (record wq { head = wq.links x }) (y ∷ ys) = record {
      head = unfold first in w.linked.0;
      tail = unfold last last_of in w.tail;
      linked = w.linked.1;
    } in
    elim (Option-cases (make_ready x s)) [
      | inl n ↦ absurd (rw n at made)
      | inr (s', m) ↦
          rw (head_ne_tail wq x y ys w a.1, wake_loop)
            (rw (heads, m, wake_loop)
              (subst
                (λ k.
                  WakesAll k (record { running = t; ready = r }) (x ∷ y ∷ ys)
                    (wake_loop fuel e (count + 1) (record wq { head = wq.links x }) s'))
                (omega arith)
                (regroup t r x (y ∷ ys) _ _ (
                  wake_loop-WakesAll fuel e (count + 1) (record wq { head = wq.links x }) s' t
                    (r ++ (x ∷ [])) y ys (omega arith) (rw m at made) rest
                    (Apart-append t x r (y ∷ ys) a.2 a.1) b.1))))
    ]

Apart-Distinct : (v : View) (q : List ℕ) → Apart v q → Distinct q
Apart-Distinct v [] a = tt
Apart-Distinct v (x ∷ xs) a = (a.1, Apart-Distinct v xs a.2)

wake_busy :
    (wq : WaitQueue) (s : Threads) (t : ℕ) (r : List ℕ) (x : ℕ) (xs : List ℕ)
    → Holds s (record { running = t; ready = r })
    → Waits wq (x ∷ xs)
    → Apart (record { running = t; ready = r }) (x ∷ xs)
    → Below max_threads (x ∷ xs)
    → WakesAll (length (x ∷ xs)) (record { running = t; ready = r }) (x ∷ xs) (wake_from wq 1 s)
unfolding wake_from
wake_busy wq s t r x xs h w a b =
    let more : (is_none wq.head && is_none wq.tail) ≡ false =
      unfold first last in ground (arith, w.head, w.tail) in
    let few =
      length-le-bound max_threads (x ∷ xs)
        (Apart-Distinct (record { running = t; ready = r }) (x ∷ xs) a) b in
    rw more (
      subst
        (λ n.
          WakesAll n (record { running = t; ready = r }) (x ∷ xs)
            (wake_loop max_threads s.interrupts 0 wq (interrupts_off s)))
        (omega arith)
        (wake_loop-WakesAll max_threads s.interrupts 0 wq (interrupts_off s) t r x xs
          (omega (arith, few)) (Holds-restore false h) w a b))

-- `thread_wakeup` with `all` 1 puts every waiting thread behind the ready ones in the order in which
-- they went to sleep, empties the wait queue, and returns how many they were.
pub wake_all_refines :
    (wq : WaitQueue) (q : List ℕ) (s : Threads) (v : View)
    → Holds s v
    → Waits wq q
    → Apart v q
    → Below max_threads q
    → WakesAll (length q) v q (wake_from wq 1 s)
unfolding wake_from
wake_all_refines wq [] s v h w a b =
    let empty : (is_none wq.head && is_none wq.tail) ≡ true =
      unfold first last in ground (arith, w.head, w.tail) in
    rw (empty, append-nil) (w, (refl, Holds-restore s.interrupts h))
wake_all_refines wq (x ∷ xs) s v h w a b = wake_busy wq s v.running v.ready x xs h w a b

-- `thread_wakeup` with `all` 0, where two threads or more wait, puts the first of them behind the
-- ready threads and returns 1; the others wait on, in their order.
pub wake_one_refines :
    (wq : WaitQueue) (x y : ℕ) (ys : List ℕ) (s : Threads) (v : View)
    → Holds s v
    → Waits wq (x ∷ y ∷ ys)
    → mem x (v.running ∷ v.ready) ≡ false
    → x < max_threads
    → let (wq', out) = wake_from wq 0 s in
      Waits wq' (y ∷ ys) × Gives out (code (pos 1), record v { ready = v.ready ++ (x ∷ []) })
unfolding wake_from wake_one
wake_one_refines wq x y ys s v h w f l =
    let more : (is_none wq.head && is_none wq.tail) ≡ false =
      unfold first last in ground (arith, w.head, w.tail) in
    let made =
      make_ready-Holds x (interrupts_off s) v.running v.ready (Holds-restore false h) f l in
    elim (Option-cases (make_ready x (interrupts_off s))) [
      | inl n ↦ absurd (rw n at made)
      | inr (s', m) ↦ rw more (
          unfold first in
          rw (w.head, m, wake_one)
            (
              record {
                head = w.linked.0;
                tail = unfold last last_of in w.tail;
                linked = w.linked.1;
              },
              (refl, Holds-restore s.interrupts (rw m at made)),
            ))
    ]

-- Where one thread waits, `thread_wakeup` with `all` 0 makes it ready and returns 1, but leaves the
-- tail of the wait queue at the woken thread: the wait queue is not empty after the call.
pub wake_one_leaves_tail :
    (wq : WaitQueue) (x : ℕ) (s : Threads) (v : View)
    → Holds s v
    → Waits wq (x ∷ [])
    → mem x (v.running ∷ v.ready) ≡ false
    → x < max_threads
    → let (wq', out) = wake_from wq 0 s in
      Gives out (code (pos 1), record v { ready = v.ready ++ (x ∷ []) })
      × (wq'.tail ≡ some x)
      × ¬ Waits wq' []
unfolding wake_from wake_one
wake_one_leaves_tail wq x s v h w f l =
    let more : (is_none wq.head && is_none wq.tail) ≡ false =
      unfold first last in ground (arith, w.head, w.tail) in
    let made =
      make_ready-Holds x (interrupts_off s) v.running v.ready (Holds-restore false h) f l in
    let still : wq.tail ≡ some x = unfold last last_of in w.tail in
    elim (Option-cases (make_ready x (interrupts_off s))) [
      | inl n ↦ absurd (rw n at made)
      | inr (s', m) ↦ rw more (
          unfold first in
          rw (w.head, m, wake_one)
            (
              (refl, Holds-restore s.interrupts (rw m at made)),
              still,
              λ k. some-ne-none x (sym still ∙ unfold last in k.tail),
            ))
    ]
