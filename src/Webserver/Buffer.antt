-- ===== src/Webserver/Buffer.antt =====
-- webserver/server_thread.c: the buffer between server_request and the worker threads.
pub mod Refine
use operating_system_ece.Common.{
  ℕ, zero, suc, ◌+◌, ◌-◌, ◌%◌, Bool, true, false, ◌==◌, ltb, if◌then◌else◌, update, Option, none,
  some,
}

-- struct server: `index_in` and `index_out` are its members `in` and `out`. The mutex and the
-- condition variables are not part of the record: an operation runs with the lock held.
pub record Server : Type 0 where
  pub nr_threads : ℕ
  pub max_requests : ℕ
  pub max_cache_size : ℕ
  pub buf : ℕ → ℕ
  pub index_in : ℕ
  pub index_out : ℕ

-- `memory` is what `malloc` left in the new server.
unfoldable pub server_init : ℕ → ℕ → ℕ → Server → Server
server_init nr_threads max_requests max_cache_size memory =
    let sv : Server = record memory {
      nr_threads = nr_threads;
      max_requests = max_requests;
      max_cache_size = max_cache_size;
    } in
    if ltb 0 max_requests then record sv { index_in = 0; index_out = 0 } else sv

-- `(sv->in - sv->out + sv->max_requests + 1) % (sv->max_requests + 1)`, where `in` and `out` are at
-- most max_requests: the sum is not negative
unfoldable pub occupied : Server → ℕ
occupied sv = (sv.index_in + sv.max_requests + 1 - sv.index_out) % (sv.max_requests + 1)

unfoldable pub advance : Server → ℕ → ℕ
advance sv index = (index + 1) % (sv.max_requests + 1)

-- A round of server_request with worker threads: it waits on `full`, or stores the connection and leaves the lock. The
-- Boolean tells whether it signals `empty`.
pub data Put : Type 0 where
  waits_full : Put
  stored : Server → Bool → Put

unfoldable pub put_request : ℕ → Server → Put
unfolding occupied advance
put_request connfd sv =
    if occupied sv == sv.max_requests
    then waits_full
    else stored
        (record sv { buf = update sv.buf sv.index_in connfd; index_in = advance sv sv.index_in })
        (sv.index_in == sv.index_out)

-- Without worker threads, which is `none`, the main thread serves the request itself.
unfoldable pub server_request : ℕ → Server → Option Put
server_request connfd sv = if sv.nr_threads == 0 then none else some (put_request connfd sv)

-- A round of a worker: it waits on `empty`, or takes a connection and leaves the lock. The Boolean
-- tells whether it signals `full`.
pub data Take : Type 0 where
  waits_empty : Take
  taken : ℕ → Server → Bool → Take

unfoldable pub worker_take : Server → Take
unfolding occupied advance
worker_take sv =
    if sv.index_in == sv.index_out
    then waits_empty
    else taken (sv.buf sv.index_out) (record sv { index_out = advance sv sv.index_out })
        (occupied sv == sv.max_requests)
