-- ===== src/Thread/Create.antt =====
-- threads/thread.c: thread_create.
use operating_system_ece.Common.{
  ℕ, zero, suc, ◌+◌, ◌-◌, ◌%◌, Bool, true, false, ◌||◌, ◌&&◌, Option, none, some, pos, update,
  is_none, if◌then◌else◌,
}
use operating_system_ece.Thread.{
  min_stack, thread_nomore, thread_nomemory, State, exit, ready, none_state, stub, Threads, Outcome,
  returned, restore, interrupts_off, at, release_slot,
}

abbrev pub is_none_state : State → Bool
is_none_state none_state = true
is_none_state exit = false
is_none_state ready = false

abbrev pub is_exit : State → Bool
is_exit exit = true
is_exit ready = false
is_exit none_state = false

-- The loop that looks for an available slot.
unfoldable pub find_slot : ℕ → ℕ → Threads → Option ℕ
find_slot zero iter s = none
find_slot (suc rounds) iter s =
    if s.stack_null iter || is_none_state (s.state iter)
    then some iter
    else find_slot rounds (iter + 1) s

-- The stack pointer of a new thread whose stack `malloc` put at `p`.
unfoldable pub stack_top : ℕ → ℕ
stack_top p = let top = p + min_stack + 24 in let frame = top - 8 in top - frame % 16

-- A thread goes to the end of the ready queue.
unfoldable pub enqueue : Bool → ℕ → Threads → Outcome
enqueue enabled iter s =
    if is_none s.tail && is_none s.head
    then returned (pos iter) (
        restore enabled
          (record s { tail = some iter; head = some iter; next = update s.next iter none }))
    else at s.tail λ t.
      returned (pos iter)
        (restore enabled (record s { next = update s.next t (some iter); tail = some iter }))

-- The slot of an exited thread is taken over.
unfoldable pub reclaim : ℕ → Threads → Threads
unfolding release_slot
reclaim iter s = if is_exit (s.state iter) then release_slot iter s else s

-- `memory` is what `malloc` returns.
unfoldable pub fill_slot : Bool → Option ℕ → ℕ → Threads → Outcome
unfolding enqueue stack_top
fill_slot enabled none iter s =
    returned thread_nomemory (restore enabled (record s { stack = update s.stack iter none }))
fill_slot enabled (some p) iter s = enqueue enabled iter (record s {
  stack = update s.stack iter (some p);
  context = update s.context iter (stub (stack_top p));
  stack_null = update s.stack_null iter false;
  state = update s.state iter ready;
})

unfoldable pub thread_create : Option ℕ → Threads → Outcome
unfolding find_slot reclaim fill_slot
thread_create memory s =
    let s' = interrupts_off s in
    elim (find_slot 1023 1 s') [
      | none ↦ returned thread_nomore (restore s.interrupts s')
      | some iter ↦ fill_slot s.interrupts memory iter (reclaim iter s')
    ]
