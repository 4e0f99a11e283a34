-- ===== src/Webserver.antt =====
-- webserver/server_thread.c: the worker threads of the web server, the buffer of requests and the cache.
pub mod Buffer
pub mod Workers
pub mod Cache
pub mod Requests
