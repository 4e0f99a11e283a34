-- ===== src/Thread/Lock.antt =====
-- threads/thread.c: locks and condition variables. The arguments are not NULL (the code asserts it).
use operating_system_ece.Common.{
  ℕ, Bool, ◌&&◌, Option, none, some, pos, ◌==◌, is_none, if◌then◌else◌,
}
use operating_system_ece.Thread.{
  Threads, Outcome, returned, switched, started, fault, spins, restore, interrupts_off,
}
use operating_system_ece.Thread.Wait.{WaitQueue, sleep_on, wake_from}

-- struct lock: `owner` is acquired_thread_id, with `none` for -1.
pub record Lock : Type 0 where
  pub owner : Option ℕ
  pub queue : WaitQueue
  pub l : ℕ

abbrev pub Locked : Type 0
Locked = Lock × Outcome

-- `memory` is what `malloc` left in the new lock: its wait queue is not set.
unfoldable pub lock_create : Lock → Lock
lock_create memory = record memory { owner = none; l = 0 }

-- Whether the lock is freed.
unfoldable pub lock_destroy : Lock → Bool
lock_destroy lock = lock.l == 0

-- A round of `while (lock->l == 1) thread_sleep(...)` that sleeps. A caller that finds no thread to
-- run in its place makes the same round again, for ever.
unfoldable pub acquire_sleep : Lock → WaitQueue × Outcome → Locked
acquire_sleep lock (wq, switched s) = (record lock { queue = wq }, switched s)
acquire_sleep lock (wq, returned r s) = (lock, spins)
acquire_sleep lock (wq, started s) = (lock, spins)
acquire_sleep lock (wq, fault) = (lock, fault)
acquire_sleep lock (wq, spins) = (lock, spins)

-- The loop of `lock_acquire` up to where the caller has the lock or sleeps; a thread that has slept
-- goes on here again, with the `enabled` of its call.
unfoldable pub acquire_loop : Bool → Lock → Threads → Locked
acquire_loop enabled lock s =
    if lock.l == 1
    then acquire_sleep lock (sleep_on lock.queue s)
    else (record lock { l = 1; owner = some s.current }, returned (pos 0) (restore enabled s))

unfoldable pub lock_acquire : Lock → Threads → Locked
unfolding acquire_loop
lock_acquire lock s = acquire_loop s.interrupts lock (interrupts_off s)

-- Behind the call of `thread_wakeup` in `lock_release`.
unfoldable pub release_end : Bool → Lock → WaitQueue × Outcome → Locked
release_end enabled lock (wq, returned r s) =
    (record lock { queue = wq; l = 0; owner = none }, returned (pos 0) (restore enabled s))
release_end enabled lock (wq, switched s) = (lock, fault)
release_end enabled lock (wq, started s) = (lock, fault)
release_end enabled lock (wq, fault) = (lock, fault)
release_end enabled lock (wq, spins) = (lock, spins)

unfoldable pub lock_release : Lock → Threads → Locked
lock_release lock s0 =
    let s = interrupts_off s0 in
    if lock.l == 1
    then release_end s0.interrupts lock (wake_from lock.queue 1 s)
    else (lock, returned (pos 0) (restore s0.interrupts s))

-- `cv_wait` up to where the caller sleeps or asks for the lock again. `started` does not occur.
pub data CvWait : Type 0 where
  asleep : WaitQueue → Lock → Threads → CvWait
  back : WaitQueue → Lock → Outcome → CvWait

cv_slept : Bool → Lock → WaitQueue × Outcome → CvWait
cv_slept enabled lock (cv, switched s) = asleep cv lock s
cv_slept enabled lock (cv, returned r s) =
    let (lock', out) = acquire_loop enabled lock s in back cv lock' out
cv_slept enabled lock (cv, started s) = back cv lock fault
cv_slept enabled lock (cv, fault) = back cv lock fault
cv_slept enabled lock (cv, spins) = back cv lock spins

cv_sleep : Bool → WaitQueue → Lock → Outcome → CvWait
cv_sleep enabled cv lock (returned r s) = cv_slept enabled lock (sleep_on cv s)
cv_sleep enabled cv lock (switched s) = back cv lock fault
cv_sleep enabled cv lock (started s) = back cv lock fault
cv_sleep enabled cv lock fault = back cv lock fault
cv_sleep enabled cv lock spins = back cv lock spins

unfoldable pub cv_wait : WaitQueue → Lock → Threads → CvWait
unfolding cv_slept cv_sleep
cv_wait cv lock s0 =
    let s = interrupts_off s0 in
    if lock.l == 1
    then (let (lock', out) = lock_release lock s in cv_sleep s0.interrupts cv lock' out)
    else back cv lock (returned (pos 0) (restore s0.interrupts s))

cv_woken : Bool → WaitQueue × Outcome → WaitQueue × Outcome
cv_woken enabled (cv, returned r s) = (cv, returned (pos 0) (restore enabled s))
cv_woken enabled (cv, switched s) = (cv, fault)
cv_woken enabled (cv, started s) = (cv, fault)
cv_woken enabled (cv, fault) = (cv, fault)
cv_woken enabled (cv, spins) = (cv, spins)

-- cv_signal with `all` 0 and cv_broadcast with `all` 1
unfoldable pub cv_wake : ℕ → WaitQueue → Lock → Threads → WaitQueue × Outcome
unfolding cv_woken
cv_wake all cv lock s0 =
    let s = interrupts_off s0 in
    if lock.l == 1
    then cv_woken s0.interrupts (wake_from cv all s)
    else (cv, returned (pos 0) (restore s0.interrupts s))

-- Whether the condition variable is freed.
unfoldable pub cv_destroy : WaitQueue → Bool
cv_destroy cv = is_none cv.head && is_none cv.tail
