-- ===== src/Thread/Wait.antt =====
-- threads/thread.c: wait queues.
use operating_system_ece.Common.{
  ℕ, zero, suc, ◌+◌, Bool, true, false, ◌&&◌, Option, none, some, pos, same_link, update, ◌==◌,
  is_none, if◌then◌else◌,
}
use operating_system_ece.Thread.{
  max_threads, thread_invalid, thread_none, Threads, Outcome, returned, switched, fault, spins,
  restore, interrupts_off,
}
use operating_system_ece.Thread.Context.{switch_to}

-- struct wait_queue: `none` is -1 in the head and the tail, and `links` is the array of next
-- thread ids.
pub record WaitQueue : Type 0 where
  pub head : Option ℕ
  pub tail : Option ℕ
  pub links : ℕ → Option ℕ

-- `memory` is what `malloc` left in the new queue.
unfoldable pub wait_queue_create : WaitQueue → WaitQueue
wait_queue_create memory = record memory { head = none; tail = none }

-- The caller goes to the end of the wait queue. `none` is a write to `Wait_queue[-1]`.
unfoldable pub add_waiter : ℕ → WaitQueue → Option WaitQueue
add_waiter t wq =
    if is_none wq.head && is_none wq.tail
    then some (record wq { head = some t; tail = some t })
    else elim wq.tail [
      | none ↦ none
      | some last ↦ some (record wq { links = update wq.links last (some t); tail = some t })
    ]

-- The head of the ready queue is taken, and runs next.
unfoldable pub switch_to_ready : Bool → Threads → Outcome
unfolding switch_to
switch_to_ready enabled s =
    if same_link s.tail s.head
    then elim s.tail [
      | none ↦ fault
      | some t ↦
          switched (
            switch_to enabled t
              (record s { next = update s.next t none; tail = none; head = none }))
    ]
    else elim s.head [
      | none ↦ fault
      | some h ↦
          switched (switch_to enabled h (record s { head = s.next h; next = update s.next h none }))
    ]

-- A call on a wait queue leaves the queue and what the threads do.
abbrev pub Waited : Type 0
Waited = WaitQueue × Outcome

-- `queue` is not NULL.
unfoldable pub sleep_on : WaitQueue → Threads → Waited
sleep_on wq s0 =
    let s = interrupts_off s0 in
    if is_none s.tail && is_none s.head
    then (wq, returned thread_none (restore s0.interrupts s))
    else elim (add_waiter s.current wq) [
      | none ↦ (wq, fault)
      | some wq' ↦ (wq', switch_to_ready s0.interrupts s)
    ]

unfoldable pub thread_sleep : Option WaitQueue → Threads → Option WaitQueue × Outcome
unfolding sleep_on
thread_sleep none s = (none, returned thread_invalid (restore s.interrupts (interrupts_off s)))
thread_sleep (some wq) s = let (wq', out) = sleep_on wq s in (some wq', out)

-- A woken thread goes to the end of the ready queue. `none` is a write to `thread_array[-1]`.
unfoldable pub make_ready : ℕ → Threads → Option Threads
make_ready t s =
    if is_none s.tail && is_none s.head
    then some (record s { tail = some t; head = some t; next = update s.next t none })
    else elim s.tail [
      | none ↦ none
      | some last ↦
          some (record s { next = update (update s.next last (some t)) t none; tail = some t })
    ]

-- `all == 0`
unfoldable pub wake_one : Bool → WaitQueue → Threads → Waited
wake_one enabled wq s = elim wq.head [
  | none ↦ (wq, fault)
  | some t ↦ elim (make_ready t s) [
    | none ↦ (wq, fault)
    | some s' ↦ (record wq { head = wq.links t }, returned (pos 1) (restore enabled s'))
  ]
]

-- What is done for the last thread, where head and tail are the same.
unfoldable pub wake_last : Bool → ℕ → WaitQueue → Threads → Waited
wake_last enabled count wq s = elim wq.head [
  | none ↦ (wq, fault)
  | some t ↦ elim (make_ready t s) [
    | none ↦ (wq, fault)
    | some s' ↦
        (record wq { head = none; tail = none }, returned (pos (count + 1)) (restore enabled s'))
  ]
]

-- `while (queue->wait_queue_head != queue->wait_queue_tail)`, and what follows it
unfoldable pub wake_loop : ℕ → Bool → ℕ → WaitQueue → Threads → Waited
wake_loop zero enabled count wq s = (wq, spins)
wake_loop (suc fuel) enabled count wq s = elim (same_link wq.head wq.tail) [
  | true ↦ wake_last enabled count wq s
  | false ↦ elim wq.head [
    | none ↦ (wq, fault)
    | some t ↦ elim (make_ready t s) [
      | none ↦ (wq, fault)
      | some s' ↦ wake_loop fuel enabled (count + 1) (record wq { head = wq.links t }) s'
    ]
  ]
]

-- `queue` is not NULL.
unfoldable pub wake_from : WaitQueue → ℕ → Threads → Waited
wake_from wq all s0 =
    let s = interrupts_off s0 in
    if is_none wq.head && is_none wq.tail
    then (wq, returned (pos 0) (restore s0.interrupts s))
    else if all == 0
    then wake_one s0.interrupts wq s
    else if all == 1
    then wake_loop max_threads s0.interrupts 0 wq s
    else (wq, returned (pos 0) (restore s0.interrupts s))

unfoldable pub thread_wakeup : Option WaitQueue → ℕ → Threads → Option WaitQueue × Outcome
unfolding wake_from
thread_wakeup none all s = (none, returned (pos 0) (restore s.interrupts (interrupts_off s)))
thread_wakeup (some wq) all s = let (wq', out) = wake_from wq all s in (some wq', out)
