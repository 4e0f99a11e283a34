-- ===== src/Thread/Context.antt =====
-- threads/thread.c: the exit array, thread_init, thread_id, and how a thread goes on when it is
-- switched to.
use operating_system_ece.Common.{
  ℕ, zero, suc, ◌+◌, Bool, true, Option, none, some, pos, update, leb, ◌==◌, if◌then◌else◌,
}
use operating_system_ece.Thread.{
  max_threads, thread_invalid, none_state, Frame, stub, suspended, Threads, Outcome, returned,
  started, restore, interrupts_off, release_slot,
}

-- `int exit_array[THREAD_MAX_THREADS] = {-1}`: C sets the first entry to -1 and the others to 0.
unfoldable pub exit_array : ℕ → Option ℕ
exit_array i = if i == 0 then none else some 0

-- The rounds of `clean_exit_array` from `iter` on.
unfoldable pub clean_from : ℕ → ℕ → Threads → Threads
clean_from zero iter s = s
clean_from (suc rounds) iter s = elim (s.exits iter) [
  | none ↦ s
  | some t ↦
      let s' = release_slot t s in
      clean_from rounds (iter + 1) (record s' { exits = update s'.exits iter none })
]

unfoldable pub clean_exit_array : Threads → Threads
unfolding clean_from
clean_exit_array s = clean_from max_threads 0 s

-- The rounds of `thread_init`.
unfoldable pub init_from : ℕ → ℕ → Threads → Threads
init_from zero iter s = s
init_from (suc rounds) iter s = init_from rounds (iter + 1) (record s {
  id = update s.id iter iter;
  next = update s.next iter none;
  state = update s.state iter none_state;
  stack = update s.stack iter none;
  stack_null = update s.stack_null iter true;
})

unfoldable pub thread_init : Threads → Threads
unfolding init_from
thread_init s = restore s.interrupts (init_from max_threads 0 (interrupts_off s))

unfoldable pub thread_id : Threads → Outcome
thread_id s =
    let index = s.id s.current in
    if leb index max_threads
    then returned (pos index) (restore s.interrupts (interrupts_off s))
    else returned thread_invalid (restore s.interrupts (interrupts_off s))

-- The entry of the exit array that `thread_yield` writes: the first that is -1.
unfoldable pub record_exit : ℕ → ℕ → Threads → Threads
record_exit zero iter s = s
record_exit (suc rounds) iter s = elim (s.exits iter) [
  | none ↦ record s { exits = update s.exits iter (some s.current) }
  | some t ↦ record_exit rounds (iter + 1) s
]

-- getcontext and setcontext: the caller is suspended, and `to` is the current thread.
unfoldable pub switch_to : Bool → ℕ → Threads → Threads
switch_to enabled to s = record s {
  context = update s.context s.current (suspended enabled to);
  current = to;
}

goes_on : Frame → Threads → Outcome
goes_on (stub top) s = started (restore true s)
goes_on (suspended enabled to) s = returned (pos to) (restore enabled s)

-- What runs when the current thread has been switched to: the first lines of `thread_stub`, or the
-- last ones of `thread_yield` and `thread_sleep`.
unfoldable pub resume : Threads → Outcome
unfolding clean_exit_array goes_on
resume s = let s' = clean_exit_array s in goes_on (s'.context s'.current) s'
