-- ===== src/Thread/Kill.antt =====
-- threads/thread.c: thread_kill.
use operating_system_ece.Common.{
  ℕ, Bool, false, ◌||◌, none, some, pos, negsuc, same_link, update, ltb, ◌==◌, if◌then◌else◌,
}
use operating_system_ece.Thread.{
  max_threads, Tid, thread_invalid, State, exit, ready, none_state, Threads, Outcome, returned,
  fault, spins, restore, interrupts_off, release_slot,
}
use operating_system_ece.Thread.Yield.{
  Search, found, missing, endless, search_ready, is_self, out_of_range,
}

-- The thread is taken out of a ready queue that holds one thread, and its slot is given back.
unfoldable pub kill_single : Bool → ℕ → Threads → Outcome
kill_single enabled tid s =
    if same_link (some tid) s.tail
    then returned (pos tid) (
        restore enabled
          (release_slot tid (record s { tail = none; head = none; next = update s.next tid none })))
    else returned thread_invalid (restore enabled s)

-- The same where the ready queue holds several.
unfoldable pub kill_many : Bool → Search → ℕ → Threads → Outcome
kill_many enabled (found pre temp) tid s =
    let next' = update s.next pre (s.next tid) in
    returned (pos tid) (
      restore enabled (
        release_slot tid (record s {
          tail = if same_link (some tid) s.tail then some pre else s.tail;
          head = if same_link (some tid) s.head then next' tid else s.head;
          next = update next' tid none;
        })))
kill_many enabled missing tid s = returned thread_invalid (restore enabled s)
kill_many enabled endless tid s = spins

unfoldable pub kill_state : Bool → State → ℕ → Threads → Outcome
kill_state enabled none_state tid s = returned thread_invalid (restore enabled s)
kill_state enabled exit tid s = returned (pos 0) (restore enabled s)
kill_state enabled ready tid s =
    if same_link s.tail s.head
    then kill_single enabled tid s
    else kill_many enabled (search_ready (pos tid) s) tid s

-- `thread_array[tid]` with the caller's `tid`: its last valid index is 1023.
unfoldable pub kill_slot : Bool → Tid → Threads → Outcome
kill_slot enabled (negsuc n) s = fault
kill_slot enabled (pos tid) s =
    if ltb tid max_threads then kill_state enabled (s.state tid) tid s else fault

abbrev pub is_current : Tid → Threads → Bool
is_current (pos n) s = n == s.current
is_current (negsuc n) s = false

unfoldable pub thread_kill : Tid → Threads → Outcome
thread_kill tid s0 =
    let s = interrupts_off s0 in
    if out_of_range tid
    then returned thread_invalid (restore s0.interrupts s)
    else if is_self tid || is_current tid s
    then returned thread_invalid (restore s0.interrupts s)
    else kill_slot s0.interrupts tid s
