-- ===== src/Webserver/Workers.antt =====
-- webserver/server_thread.c: the main thread and the workers over one buffer, step by step.
pub mod Order
use operating_system_ece.Common.{
  ℕ, zero, suc, ◌+◌, ◌-◌, ◌<◌, ◌≡◌, Bool, true, false, List, [], ◌∷◌, ◌++◌, ltb, if◌then◌else◌,
}
use operating_system_ece.Webserver.Buffer.{
  Server, Put, waits_full, stored, Take, waits_empty, taken, put_request, worker_take,
}

-- `awake` workers run and `asleep` workers wait on the condition `empty`; `waiting` tells whether the
-- main thread waits on `full`. `accepted` lists the connections that were put into the buffer and
-- `served` those that were taken out, the earliest first.
pub record System : Type 0 where
  pub server : Server
  pub awake : ℕ
  pub asleep : ℕ
  pub waiting : Bool
  pub accepted : List ℕ
  pub served : List ℕ

-- `pthread_cond_signal(&sv->empty)` wakes a worker if one waits.
abbrev pub signal_empty : Bool → System → System
signal_empty true s =
    if ltb 0 s.asleep then record s { asleep = s.asleep - 1; awake = s.awake + 1 } else s
signal_empty false s = s

-- `pthread_cond_signal(&sv->full)` wakes the main thread.
abbrev pub signal_full : Bool → System → System
signal_full true s = record s { waiting = false }
signal_full false s = s

-- The main thread's round with a connection
unfoldable pub after_put : ℕ → Put → System → System
after_put connfd waits_full s = record s { waiting = true }
after_put connfd (stored sv signal) s =
    signal_empty signal (record s { server = sv; accepted = s.accepted ++ connfd ∷ [] })

-- A worker's round
unfoldable pub after_take : Take → System → System
after_take waits_empty s = record s { awake = s.awake - 1; asleep = s.asleep + 1 }
after_take (taken connfd sv signal) s =
    signal_full signal (record s { server = sv; served = s.served ++ connfd ∷ [] })

-- The rounds run one at a time, since each holds the lock, in any order. A thread that waits on a
-- condition may wake up without a signal.
pub data Step : System → System → Type 0 where
  requests :
      (s : System) (connfd : ℕ)
      → s.waiting ≡ false
      → Step s (after_put connfd (put_request connfd s.server) s)
  serves : (s : System) → 0 < s.awake → Step s (after_take (worker_take s.server) s)
  worker_wakes :
      (s : System) → 0 < s.asleep → Step s (record s { asleep = s.asleep - 1; awake = s.awake + 1 })
  main_wakes : (s : System) → Step s (record s { waiting = false })

abbrev pub started : Server → System
started sv = record {
  server = sv;
  awake = sv.nr_threads;
  asleep = 0;
  waiting = false;
  accepted = [];
  served = [];
}

-- The states that the server comes to
pub data Reaches (sv : Server) : System → Type 0 where
  start : Reaches sv (started sv)
  step : {s s' : System} → Reaches sv s → Step s s' → Reaches sv s'
