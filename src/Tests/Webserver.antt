-- ===== src/Tests/Webserver.antt =====
-- The theorems on webserver/server_thread.c at a small server.
use operating_system_ece.Common.{ℕ, ◌<◌, ◌≤◌, ◌≡◌, refl, true, List, [], ◌++◌, length, arith}
use operating_system_ece.Webserver.Buffer.{
  Server, server_init, server_request, put_request, worker_take, occupied, advance,
}
use operating_system_ece.Webserver.Buffer.Refine.{
  Holds, Requests, Takes, server_request_refines, worker_take_refines, server_init_empty,
}
use operating_system_ece.Webserver.Workers.{
  System, started, Reaches, start, step, requests, after_put,
}
use operating_system_ece.Webserver.Workers.Order.{served_in_order, never_all_wait}

abbrev memory : Server
memory = record {
  nr_threads = 9;
  max_requests = 9;
  max_cache_size = 9;
  buf = λ i. 77;
  index_in = 9;
  index_out = 9;
}

abbrev small : Server
small = server_init 2 1 0 memory

small-Holds : Holds small []
small-Holds = server_init_empty 2 1 0 memory (omega arith)

server_request_refines_example : Requests 5 small [] (server_request 5 small)
server_request_refines_example = server_request_refines 5 small [] small-Holds

worker_take_refines_example : Takes small [] (worker_take small)
worker_take_refines_example = worker_take_refines small [] small-Holds

-- A request is put into the buffer, and a second one finds it full.
abbrev one_waits : System
one_waits =
    after_put 6 (put_request 6 (after_put 5 (put_request 5 small) (started small)).server)
      (after_put 5 (put_request 5 small) (started small))

one_waits-Reaches : Reaches small one_waits
unfolding put_request after_put server_init occupied advance
one_waits-Reaches =
    step (step start (requests (started small) 5 refl))
      (requests (after_put 5 (put_request 5 small) (started small)) 6 refl)

main_waits : one_waits.waiting ≡ true
unfolding put_request after_put server_init occupied advance
main_waits = refl

threads_left : 0 < small.nr_threads
unfolding server_init
threads_left = omega arith

served_in_order_example :
    (q : List ℕ) × Holds one_waits.server q
    × (one_waits.accepted ≡ one_waits.served ++ q)
    × (length q ≤ small.max_requests)
served_in_order_example = served_in_order small threads_left small-Holds one_waits one_waits-Reaches

never_all_wait_example : 0 < one_waits.awake
never_all_wait_example =
    never_all_wait small threads_left small-Holds one_waits one_waits-Reaches main_waits
