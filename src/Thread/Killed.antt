-- ===== src/Thread/Killed.antt =====
-- Proofs on thread_kill (threads/thread.c) against the view.
use operating_system_ece.Common.{
  ℕ, ◌<◌, ◌≡◌, ◌≢◌, none, some, List, pos, negsuc, arith, if◌then◌else◌, update, same_link,
}
use operating_system_ece.Thread.{max_threads, Threads, fault}
use operating_system_ece.Thread.Kill.{kill_slot, thread_kill}
use operating_system_ece.Thread.Links.{pred_of}
use operating_system_ece.Thread.View.{View}

-- The queue with `w` unlinked behind the thread that the search found before it.
abbrev cut : Threads → ℕ → List ℕ → ℕ → Threads
cut s x q w =
    let pre = pred_of w x q in
    record s {
      tail = if same_link (some w) s.tail then some pre else s.tail;
      head = if same_link (some w) s.head then update s.next pre (s.next w) w else s.head;
      next = update (update s.next pre (s.next w)) w none;
    }

-- `thread_kill` takes THREAD_MAX_THREADS for a thread's number, and then reads behind the end of the
-- thread table; at the negative numbers from -7 on other than THREAD_SELF it reads before its start.
pub thread_kill_outside :
    (s : Threads)
    → s.current < max_threads
    → (thread_kill (pos max_threads) s ≡ fault)
      × ((n : ℕ) → n < 7 → n ≢ 1 → thread_kill (negsuc n) s ≡ fault)
unfolding thread_kill kill_slot
thread_kill_outside s l = (ground arith, λ n a b. ground arith)
