-- ===== src/Thread/Locking.antt =====
-- lock_acquire and lock_release (threads/thread.c).
use operating_system_ece.Common.{
  ℕ, ◌≡◌, refl, ap, Bool, true, false, none, some, List, [], ◌∷◌, ◌++◌, pos, arith, ◌==◌, length,
  Distinct, Below, ◌≢◌,
}
use operating_system_ece.Thread.{
  max_threads, Threads, Outcome, returned, switched, started, fault, spins, interrupts_off,
}
use operating_system_ece.Thread.Wait.{WaitQueue}
use operating_system_ece.Thread.Lock.{
  Lock, acquire_sleep, acquire_loop, lock_acquire, release_end, lock_release,
}
use operating_system_ece.Thread.View.{View, Holds, Gives, code, switch}
use operating_system_ece.Thread.Refine.{Holds-restore}
use operating_system_ece.Thread.Sleep.{Waits, Sleeps, sleep_on_refines}
use operating_system_ece.Thread.Wake.{Apart, WakesAll, wake_all_refines}

-- What `lock_acquire` leaves of a lock that is held: the caller sleeps behind the waiting threads
-- and the thread at the head runs. With no thread ready the loop goes on for ever.
abbrev pub Blocks : Lock → View → List ℕ → Lock × Outcome → Type 0
Blocks lock v q (lock', out) = elim v.ready [
  | [] ↦ out ≡ spins
  | x ∷ xs ↦
      Waits lock'.queue (q ++ (v.running ∷ []))
      × (lock'.l ≡ lock.l)
      × (lock'.owner ≡ lock.owner)
      × Gives out (switch, record { running = x; ready = xs })
]

acquire_sleep-spins :
    (lock : Lock) (t : ℕ) (q : List ℕ) (r : WaitQueue × Outcome)
    → Sleeps (record { running = t; ready = [] }) q r
    → (acquire_sleep lock r).1 ≡ spins
unfolding acquire_sleep
acquire_sleep-spins lock t q (wq, returned r s) h = refl
acquire_sleep-spins lock t q (wq, switched s) h = absurd h.1
acquire_sleep-spins lock t q (wq, started s) h = absurd h.1
acquire_sleep-spins lock t q (wq, fault) h = absurd h.1
acquire_sleep-spins lock t q (wq, spins) h = absurd h.1

acquire_sleep-Blocks :
    (lock : Lock) (t x : ℕ) (xs q : List ℕ) (r : WaitQueue × Outcome)
    → Sleeps (record { running = t; ready = x ∷ xs }) q r
    → Blocks lock (record { running = t; ready = x ∷ xs }) q (acquire_sleep lock r)
unfolding acquire_sleep
acquire_sleep-Blocks lock t x xs q (wq, returned r s) h = absurd h.1
acquire_sleep-Blocks lock t x xs q (wq, switched s) h = (h.0, refl, refl, h.1)
acquire_sleep-Blocks lock t x xs q (wq, started s) h = absurd h.1
acquire_sleep-Blocks lock t x xs q (wq, fault) h = absurd h.1
acquire_sleep-Blocks lock t x xs q (wq, spins) h = absurd h.1

-- `lock_acquire` of a lock that is held blocks the caller: it does not return, and the lock stays
-- with its owner.
pub lock_acquire_held :
    (lock : Lock) (q : List ℕ) (s : Threads) (v : View)
    → Holds s v
    → Waits lock.queue q
    → Distinct q
    → lock.l ≡ 1
    → Blocks lock v q (lock_acquire lock s)
unfolding lock_acquire acquire_loop
lock_acquire_held lock q s v h w d e = held v.ready h
  where
    held :
        (r : List ℕ)
        → Holds s (record { running = v.running; ready = r })
        → Blocks lock (record { running = v.running; ready = r }) q (lock_acquire lock s)
    held [] k =
        let sleeps =
          sleep_on_refines lock.queue q (interrupts_off s) _ (Holds-restore false k) w d in
        let locked : (lock.l == 1) ≡ true = ground arith in
        rw locked (acquire_sleep-spins lock v.running q _ sleeps)
    held (x ∷ xs) k =
        let sleeps =
          sleep_on_refines lock.queue q (interrupts_off s) _ (Holds-restore false k) w d in
        let locked : (lock.l == 1) ≡ true = ground arith in
        rw locked (acquire_sleep-Blocks lock v.running x xs q _ sleeps)

-- `lock_acquire` of a free lock returns at once with the caller as the owner, and changes neither
-- the lock's wait queue nor the ready queue.
pub lock_acquire_free :
    (lock : Lock) (s : Threads) (v : View)
    → Holds s v
    → lock.l ≢ 1
    → let (lock', out) = lock_acquire lock s in
      (lock' ≡ record lock { l = 1; owner = some v.running }) × Gives out (code (pos 0), v)
unfolding lock_acquire acquire_loop
lock_acquire_free lock s v h ne =
    let free : (lock.l == 1) ≡ false = ground arith in
    rw free (
      ap (λ t. record lock { l = 1; owner = some t }) h.current,
      (refl, Holds-restore s.interrupts h),
    )

-- A lock that nobody holds, with the woken threads behind the ready ones.
abbrev pub Released : View → List ℕ → Lock × Outcome → Type 0
Released v q (lock, out) =
    (lock.l ≡ 0)
    × (lock.owner ≡ none)
    × Waits lock.queue []
    × Gives out (code (pos 0), record v { ready = v.ready ++ q })

release_end-Released :
    (e : Bool) (lock : Lock) (v : View) (q : List ℕ) (n : ℕ) (r : WaitQueue × Outcome)
    → WakesAll n v q r
    → Released v q (release_end e lock r)
unfolding release_end
release_end-Released e lock v q n (wq, returned r s) h =
    (refl, refl, h.0, (refl, Holds-restore e h.1.1))
release_end-Released e lock v q n (wq, switched s) h = absurd h.1
release_end-Released e lock v q n (wq, started s) h = absurd h.1
release_end-Released e lock v q n (wq, fault) h = absurd h.1
release_end-Released e lock v q n (wq, spins) h = absurd h.1

-- `lock_release` of a held lock frees it and makes every thread ready that waits for it, in their
-- order; it does so for every caller, whether or not the caller is the lock's owner.
pub lock_release_refines :
    (lock : Lock) (q : List ℕ) (s : Threads) (v : View)
    → Holds s v
    → Waits lock.queue q
    → Apart v q
    → Below max_threads q
    → lock.l ≡ 1
    → Released v q (lock_release lock s)
unfolding lock_release
lock_release_refines lock q s v h w a b e =
    let locked : (lock.l == 1) ≡ true = ground arith in
    rw locked (
      release_end-Released s.interrupts lock v q (length q) _
        (wake_all_refines lock.queue q (interrupts_off s) v (Holds-restore false h) w a b))
