-- ===== src/Thread.antt =====
-- threads/thread.c and threads/thread.h: the thread table, the constants, and what a call does.
-- The modules below hold the operations and what is proved of them.
pub mod Context
pub mod Create
pub mod Yield
pub mod Kill
pub mod Wait
pub mod Lock
pub mod Links
pub mod View
pub mod Pick
pub mod Choose
pub mod Refine
pub mod Exit
pub mod Slots
pub mod Killed
pub mod Sleep
pub mod Wake
pub mod Clean
pub mod Locking
use operating_system_ece.Common.{
  ℕ, Bool, true, false, Option, none, some, List, ◌∷◌, ℤ, pos, negsuc, update,
}

-- THREAD_MAX_THREADS and THREAD_MIN_STACK
abbrev pub max_threads : ℕ
max_threads = 1024

abbrev pub min_stack : ℕ
min_stack = 32768

abbrev pub Tid : Type 0
Tid = ℤ

abbrev pub thread_any : Tid
thread_any = negsuc 0

abbrev pub thread_self : Tid
thread_self = negsuc 1

abbrev pub thread_invalid : Tid
thread_invalid = negsuc 2

abbrev pub thread_none : Tid
thread_none = negsuc 3

abbrev pub thread_nomore : Tid
thread_nomore = negsuc 4

abbrev pub thread_nomemory : Tid
thread_nomemory = negsuc 5

-- EXIT, READY and NONE_STATE
pub data State : Type 0 where
  exit ready none_state : State

-- Where a thread goes on when it is switched to: at the start of `thread_stub`
-- with a stack pointer, or behind the
-- `getcontext` of `thread_yield` or `thread_sleep`, whose frame holds `enabled` and
-- `thread_to_yield`.
pub data Frame : Type 0 where
  stub : ℕ → Frame
  suspended : Bool → ℕ → Frame

-- The file's variables. `thread_array` is an array of structs; here each member is an array of its
-- own. `none` is -1 in `next`, `head`, `tail` and `exits`, and NULL in `stack`. `freed` lists the
-- arguments of the calls of `free`, the latest first; `interrupts` is what `interrupts_set` set.
pub record Threads : Type 0 where
  pub id : ℕ → ℕ
  pub state : ℕ → State
  pub next : ℕ → Option ℕ
  pub context : ℕ → Frame
  pub stack : ℕ → Option ℕ
  pub stack_null : ℕ → Bool
  pub tail : Option ℕ
  pub head : Option ℕ
  pub current : ℕ
  pub exits : ℕ → Option ℕ
  pub freed : List (Option ℕ)
  pub interrupts : Bool

-- What a call does: it returns a value, it switches to `current`, it reads or writes outside an
-- array, or it does not come to an end.
pub data Outcome : Type 0 where
  returned : Tid → Threads → Outcome
  switched : Threads → Outcome
  started : Threads → Outcome
  fault : Outcome
  spins : Outcome

-- `interrupts_set(enabled)` on the way out
abbrev pub restore : Bool → Threads → Threads
restore enabled s = record s { interrupts = enabled }

-- `interrupts_off()`
abbrev pub interrupts_off : Threads → Threads
interrupts_off s = record s { interrupts = false }

-- An access of `thread_array` at an index that may be -1.
abbrev pub at : Option ℕ → (ℕ → Outcome) → Outcome
at none k = fault
at (some i) k = k i

-- `free(thread_array[i].stack_ptr)` and the assignments that go with it
unfoldable pub release_slot : ℕ → Threads → Threads
release_slot i s = record s {
  state = update s.state i none_state;
  next = update s.next i none;
  stack = update s.stack i none;
  stack_null = update s.stack_null i true;
  freed = s.stack i ∷ s.freed;
}
