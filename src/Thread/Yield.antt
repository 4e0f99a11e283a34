-- ===== src/Thread/Yield.antt =====
-- threads/thread.c: thread_yield and thread_exit.
use operating_system_ece.Common.{
  ℕ, zero, suc, Bool, false, ◌||◌, ◌&&◌, not, Option, none, some, pos, negsuc, same_index,
  same_link, update, ltb, ◌==◌, is_none, if◌then◌else◌,
}
use operating_system_ece.Thread.{
  max_threads, Tid, thread_any, thread_invalid, thread_none, exit, Threads, Outcome, returned,
  switched, started, fault, spins, restore, interrupts_off,
}
use operating_system_ece.Thread.Context.{record_exit, switch_to}
use operating_system_ece.Thread.Create.{is_exit}

-- What the search through the ready queue ends with: the thread and its predecessor, or nothing.
-- It does not end when the links go round.
pub data Search : Type 0 where
  found : ℕ → ℕ → Search
  missing : Search
  endless : Search

-- `while (temp_thread_id != -1 && temp_thread_id != want_tid)`, with `pre` and `temp`
unfoldable pub find_ready : ℕ → (ℕ → Option ℕ) → Tid → ℕ → Option ℕ → Search
find_ready zero next want pre temp = endless
find_ready (suc fuel) next want pre none = missing
find_ready (suc fuel) next want pre (some t) =
    let rest = find_ready fuel next want t (next t) in
    if same_index want (some t) then found pre t else rest

-- The search starts with both at the head of the queue.
unfoldable pub search_ready : Tid → Threads → Search
unfolding find_ready
search_ready want s = elim s.head [
  | none ↦ missing
  | some h ↦ find_ready (suc max_threads) s.next want h (some h)
]

-- The thread to yield to, with the queue as it is left; or THREAD_INVALID, with nothing changed.
pub data Pick : Type 0 where
  picked : ℕ → Threads → Pick
  refused : Pick
  broken : Pick
  lost : Pick

-- An access of `thread_array` at an index that may be -1.
abbrev pub pick_at : Option ℕ → (ℕ → Pick) → Pick
pick_at none k = broken
pick_at (some i) k = k i

abbrev pub is_any : Tid → Bool
is_any (pos n) = false
is_any (negsuc n) = n == 0

abbrev pub is_self : Tid → Bool
is_self (pos n) = false
is_self (negsuc n) = n == 1

-- `tid > THREAD_MAX_THREADS || tid < -7`
abbrev pub out_of_range : Tid → Bool
out_of_range (pos n) = ltb max_threads n
out_of_range (negsuc n) = ltb 6 n

-- The caller exits and one thread is ready.
unfoldable pub exiting_single : Tid → Threads → Pick
exiting_single want s =
    if same_index want s.tail || is_any want
    then pick_at s.tail
        (λ t. picked t (record s { tail = none; head = none; next = update s.next t none }))
    else refused

-- The caller exits and several threads are ready.
unfoldable pub unlink_exiting : Search → Threads → Pick
unlink_exiting (found pre temp) s =
    let next' = update s.next pre (s.next temp) in
    picked temp (record s {
      head = if same_link (some temp) s.head then next' temp else s.head;
      tail = if same_link (some temp) s.tail then some pre else s.tail;
      next = update next' temp none;
    })
unlink_exiting missing s = refused
unlink_exiting endless s = lost

unfoldable pub exiting_many : Tid → Threads → Pick
unfolding unlink_exiting search_ready
exiting_many want s =
    if is_any want
    then pick_at s.head (λ h. picked h (record s { head = s.next h; next = update s.next h none }))
    else unlink_exiting (search_ready want s) s

-- The caller goes to the end of the queue, and one thread is ready.
unfoldable pub staying_single : Tid → Threads → Pick
staying_single want s =
    if same_index want s.tail || is_any want
    then pick_at s.tail (λ t. picked t (record s {
      tail = some s.current;
      head = some s.current;
      next = update (update s.next t none) s.current none;
    }))
    else refused

-- The caller goes to the end of the queue, and several threads are ready.
unfoldable pub rotate_ready : Threads → Pick
rotate_ready s = pick_at s.head λ h. pick_at s.tail λ t. picked h (record s {
  head = s.next h;
  tail = some s.current;
  next = update (update (update s.next t (some s.current)) s.current none) h none;
})

unfoldable pub unlink_staying : Search → Threads → Pick
unlink_staying (found pre temp) s = pick_at s.tail λ t.
    let next' = update s.next pre (s.next temp) in
    if not (temp == t)
    then (let next'' = update next' t (some s.current) in
        picked temp (record s {
          tail = some s.current;
          head = if same_link (some temp) s.head then next'' temp else s.head;
          next = update (update next'' temp none) s.current none;
        }))
    else picked temp (record s {
      tail = some s.current;
      next = update (update (update next' pre (some s.current)) temp none) s.current none;
    })
unlink_staying missing s = refused
unlink_staying endless s = lost

unfoldable pub staying_many : Tid → Threads → Pick
unfolding rotate_ready unlink_staying search_ready
staying_many want s = if is_any want then rotate_ready s else unlink_staying (search_ready want s) s

-- The four cases in the middle of `thread_yield`.
unfoldable pub pick : Tid → Threads → Pick
unfolding exiting_single exiting_many staying_single staying_many
pick want s =
    if is_exit (s.state s.current)
    then (if same_link s.tail s.head then exiting_single want s else exiting_many want s)
    else if same_link s.tail s.head
    then staying_single want s
    else staying_many want s

-- An exiting caller is put into the exit array, and the context is switched.
unfoldable pub leave : Bool → Pick → Threads → Outcome
unfolding record_exit switch_to
leave enabled (picked to s') s = switched (
    switch_to enabled to
      (if is_exit (s'.state s'.current) then record_exit max_threads 0 s' else s'))
leave enabled refused s = returned thread_invalid (restore enabled s)
leave enabled broken s = fault
leave enabled lost s = spins

unfoldable pub thread_yield : Tid → Threads → Outcome
thread_yield want s0 =
    let s = interrupts_off s0 in
    if is_self want || same_index want (some s.current)
    then returned (pos s.current) (restore s0.interrupts s)
    else if out_of_range want
    then returned thread_invalid (restore s0.interrupts s)
    else if is_none s.tail && is_none s.head
    then returned (if is_any want then thread_none else thread_invalid) (restore s0.interrupts s)
    else leave s0.interrupts (pick want s) s

-- What `thread_exit` does when it runs on.
unfoldable pub exit_end : Bool → Threads → Outcome
exit_end enabled s =
    if is_none s.head || is_none s.tail
    then returned thread_none (restore enabled s)
    else returned (pos 0) (restore enabled s)

unfoldable pub after_yield : Bool → Outcome → Outcome
after_yield enabled (returned r s) = exit_end enabled s
after_yield enabled (switched s) = switched s
after_yield enabled (started s) = started s
after_yield enabled fault = fault
after_yield enabled spins = spins

unfoldable pub thread_exit : Threads → Outcome
unfolding exit_end after_yield
thread_exit s0 =
    let s = interrupts_off s0 in
    if not (is_none s.head) || not (is_none s.tail)
    then after_yield s0.interrupts
        (thread_yield thread_any (record s { state = update s.state s.current exit }))
    else exit_end s0.interrupts s
