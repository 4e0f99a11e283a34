-- ===== src/Thread/View.antt =====
-- What the scheduler of threads/thread.c promises: a running thread and a list of ready threads, and
-- how each call changes them; and when the thread table stands for such a view.
use operating_system_ece.Common.{
  Option, none, some, ℕ, suc, ◌<◌, ◌≡◌, Bool, Option, none, some, List, [], ◌∷◌, ◌++◌, pos, negsuc,
  arith, ◌==◌, if◌then◌else◌, length, mem, Distinct, Below, erase, length-le-bound,
}
use operating_system_ece.Thread.{
  max_threads, Tid, thread_invalid, thread_none, thread_nomore, thread_nomemory, State, exit, ready,
  none_state, exit, Threads, Outcome, returned, switched, fault, started, spins,
}
use operating_system_ece.Thread.Links.{first, last, succ_of}

pub record View : Type 0 where
  pub running : ℕ
  pub ready : List ℕ

-- The links, the head and the tail are those of the list `q`, at every thread.
pub record Queued (s : Threads) (q : List ℕ) : Type 0 where
  pub links : (a : ℕ) → s.next a ≡ succ_of q a
  pub head : s.head ≡ first q
  pub tail : s.tail ≡ last q

-- The thread table stands for the view, in which no thread occurs twice.
pub record Holds (s : Threads) (v : View) : Type 0 where
  pub current : s.current ≡ v.running
  pub queue : Queued s v.ready
  pub distinct : Distinct (v.running ∷ v.ready)
  pub below : Below max_threads (v.running ∷ v.ready)

-- What a caller sees: a returned code, or another thread runs.
pub data Reply : Type 0 where
  code : Tid → Reply
  switch : Reply

-- The outcome is the reply, and leaves a table that holds the view.
abbrev pub Gives : Outcome → Reply × View → Type 0
Gives (returned r s) (code r', v) = (r ≡ r') × Holds s v
Gives (returned r s) (switch, v) = ⊥
Gives (switched s) (code r, v) = ⊥
Gives (switched s) (switch, v) = Holds s v
Gives (started s) (r, v) = ⊥
Gives fault (r, v) = ⊥
Gives spins (r, v) = ⊥

-- The caller goes behind the ready threads, unless it exits.
unfoldable pub behind : Bool → ℕ → List ℕ → List ℕ
behind exiting t q = if exiting then q else q ++ (t ∷ [])

-- Run the thread at the head.
unfoldable pub yield_any : Bool → ℕ → List ℕ → Reply × View
unfolding behind
yield_any exiting t [] = (code thread_none, record { running = t; ready = [] })
yield_any exiting t (x ∷ xs) = (switch, record { running = x; ready = behind exiting t xs })

-- Run a given thread.
unfoldable pub yield_to : Bool → ℕ → ℕ → List ℕ → Reply × View
unfolding behind
yield_to exiting w t q =
    if mem w q
    then (switch, record { running = w; ready = behind exiting t (erase w q) })
    else (code thread_invalid, record { running = t; ready = q })

unfoldable pub yield : Bool → Tid → View → Reply × View
unfolding yield_to yield_any
yield exiting (pos w) v =
    if w == v.running then (code (pos v.running), v) else yield_to exiting w v.running v.ready
yield exiting (negsuc n) v =
    if n == 1
    then (code (pos v.running), v)
    else if n == 0
    then yield_any exiting v.running v.ready
    else (code thread_invalid, v)

-- The ready threads and the running one are at most THREAD_MAX_THREADS.
pub length-Holds : (s : Threads) (v : View) → Holds s v → suc (length v.ready) < suc max_threads
length-Holds s v h =
    omega (arith, length-le-bound max_threads (v.running ∷ v.ready) h.distinct h.below)

-- `slot` is the slot that was found, `memory` what `malloc` returned.
unfoldable pub create : Option ℕ → Option ℕ → View → Reply × View
create none memory v = (code thread_nomore, v)
create (some i) none v = (code thread_nomemory, v)
create (some i) (some p) v = (code (pos i), record v { ready = v.ready ++ (i ∷ []) })

-- Kill `w`, which is not the running thread, in the given state.
unfoldable pub kill : State → ℕ → View → Reply × View
kill none_state w v = (code thread_invalid, v)
kill exit w v = (code (pos 0), v)
kill ready w v =
    if mem w v.ready
    then (code (pos w), record v { ready = erase w v.ready })
    else (code thread_invalid, v)
