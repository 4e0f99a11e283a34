-- ===== src/Tests/Threads.antt =====
-- The theorems on threads/thread.c at small thread tables.
use operating_system_ece.Common.{
  Option, ℕ, ◌≡◌, refl, true, false, none, some, [], ◌∷◌, pos, arith, ◌==◌, if◌then◌else◌, erase,
}
use operating_system_ece.Thread.{ready, none_state, stub, Threads}
use operating_system_ece.Thread.Context.{exit_array}
use operating_system_ece.Thread.Create.{find_slot, thread_create}
use operating_system_ece.Thread.Yield.{thread_yield, thread_exit}
use operating_system_ece.Thread.Wait.{WaitQueue, sleep_on, wake_from}
use operating_system_ece.Thread.Lock.{Lock, lock_acquire, lock_release}
use operating_system_ece.Thread.Links.{first, last, last_of, succ_of}
use operating_system_ece.Thread.View.{View, Holds, Gives, code, switch, yield, yield_any, create}
use operating_system_ece.Thread.Refine.{thread_yield_refines}
use operating_system_ece.Thread.Exit.{thread_exit_refines}
use operating_system_ece.Thread.Slots.{Found, thread_create_refines}
use operating_system_ece.Thread.Sleep.{Waits, Sleeps, sleep_on_refines}
use operating_system_ece.Thread.Wake.{
  WakesAll, wake_all_refines, wake_one_refines, wake_one_leaves_tail,
}
use operating_system_ece.Thread.Locking.{Blocks, Released, lock_acquire_held, lock_release_refines}

-- Thread 0 runs, 1 and 2 are ready.
abbrev three : Threads
three = record {
  id = λ i. i;
  state = λ i. if i == 1 then ready else if i == 2 then ready else none_state;
  next = λ i. if i == 1 then some 2 else none;
  context = λ i. stub 8;
  stack = λ i. if i == 1 then some 1000 else if i == 2 then some 2000 else none;
  stack_null = λ i. if i == 1 then false else if i == 2 then false else true;
  tail = some 2;
  head = some 1;
  current = 0;
  exits = exit_array;
  freed = [];
  interrupts = true;
}

abbrev view : View
view = record { running = 0; ready = 1 ∷ 2 ∷ [] }

three-Holds : Holds three view
unfolding first last last_of succ_of
three-Holds = record {
  current = refl;
  queue = record { links = λ a. ground arith; head = refl; tail = refl };
  distinct = ground arith;
  below = omega arith;
}

thread_yield_refines_example : Gives (thread_yield (pos 2) three) (yield false (pos 2) view)
thread_yield_refines_example = thread_yield_refines (pos 2) three view three-Holds

yield_runs_second : yield false (pos 2) view ≡ (switch, record { running = 2; ready = 1 ∷ 0 ∷ [] })
unfolding yield erase
yield_runs_second = refl

thread_exit_refines_example : Gives (thread_exit three) (yield_any true 0 (1 ∷ 2 ∷ []))
thread_exit_refines_example = thread_exit_refines three view three-Holds

thread_create_refines_example :
    (slot : Option ℕ) × Found three slot
    × Gives (thread_create (some 5000) three) (create slot (some 5000) view)
thread_create_refines_example =
    thread_create_refines (some 5000) three view three-Holds (ground arith)

third_slot_free : find_slot 1023 1 three ≡ some 3
unfolding find_slot
third_slot_free = refl

-- Threads 3 and 4 wait.
abbrev two_waiting : WaitQueue
two_waiting = record { head = some 3; tail = some 4; links = λ i. if i == 3 then some 4 else none }

two-Waits : Waits two_waiting (3 ∷ 4 ∷ [])
unfolding first last last_of
two-Waits = record { head = refl; tail = refl; linked = (refl, tt) }

one-Waits : Waits (record two_waiting { tail = some 3 }) (3 ∷ [])
unfolding first last last_of
one-Waits = record { head = refl; tail = refl; linked = tt }

sleep_on_refines_example : Sleeps view (3 ∷ 4 ∷ []) (sleep_on two_waiting three)
sleep_on_refines_example =
    sleep_on_refines two_waiting (3 ∷ 4 ∷ []) three view three-Holds two-Waits (ground arith)

wake_all_refines_example : WakesAll 2 view (3 ∷ 4 ∷ []) (wake_from two_waiting 1 three)
wake_all_refines_example =
    wake_all_refines two_waiting (3 ∷ 4 ∷ []) three view three-Holds two-Waits (ground arith)
      (omega arith)

wake_one_refines_example :
    let (wq', out) = wake_from two_waiting 0 three in
    Waits wq' (4 ∷ []) × Gives out (code (pos 1), record { running = 0; ready = 1 ∷ 2 ∷ 3 ∷ [] })
wake_one_refines_example =
    wake_one_refines two_waiting 3 4 [] three view three-Holds two-Waits refl (omega arith)

wake_one_leaves_tail_example :
    let (wq', out) = wake_from (record two_waiting { tail = some 3 }) 0 three in
    Gives out (code (pos 1), record { running = 0; ready = 1 ∷ 2 ∷ 3 ∷ [] })
    × (wq'.tail ≡ some 3)
    × ¬ Waits wq' []
wake_one_leaves_tail_example =
    wake_one_leaves_tail (record two_waiting { tail = some 3 }) 3 three view three-Holds one-Waits
      refl (omega arith)

abbrev held : Lock
held = record { owner = some 2; queue = two_waiting; l = 1 }

lock_acquire_held_example : Blocks held view (3 ∷ 4 ∷ []) (lock_acquire held three)
lock_acquire_held_example =
    lock_acquire_held held (3 ∷ 4 ∷ []) three view three-Holds two-Waits (ground arith) refl

-- Thread 0 releases the lock that thread 2 owns.
lock_release_refines_example : Released view (3 ∷ 4 ∷ []) (lock_release held three)
lock_release_refines_example =
    lock_release_refines held (3 ∷ 4 ∷ []) three view three-Holds two-Waits (ground arith)
      (omega arith) refl

-- Thread 3 has exited.
abbrev one_exited : Threads
one_exited = record three { exits = λ i. if i == 0 then some 3 else none }
