-- ===== src/Lib.antt =====
-- A model of the components of libasyik that carry its own logic, with the theorems that make
-- them correct. Paths are those of the repository.
--
-- Parts and files:
--   Common        numbers, lists, texts as lists of bytes, and numbers written as text.
--   Memcache      include/libasyik/memcache.hpp. `MapList` is `map_list`, the segments with the
--                 greatest deadline first. Each public operation of `memcache` is a function of
--                 its name on that list: `put`, `erase`, `clear`, `get`, `at`, `try_get`,
--                 `contains`, `get_or_put`, `visit`, `size`, `prune`. Each reading of the clock is
--                 an argument, in milliseconds; `none` is the exception. Background is
--                 `prune_periodically`, a list of sleeps with what others call meanwhile.
--   RateLimit     include/libasyik/rate_limit.hpp. `QuotaStore` is what the template asks of its
--                 store, and `memory_store` is `rate_limit_memory`, which fills it with the cache:
--                 `checkpoint` gets a quota, refills it, takes points and puts it back.
--   RouteTable    include/libasyik/route_table.hpp. `add_route`, `add_regex_route` and `find` on
--                 the three tiers; a request's target is a text of bytes.
--   StaticFiles   src/http_static.cpp and include/libasyik/http_static.hpp. Its child Handler is
--                 the handler of `make_static_file_handler` in the steps of its comments: `locate`
--                 finds the file, `not_modified` answers conditional requests, `requested_range`
--                 reads the range, `send_range` and `send_file` make the response.
--   Pools         include/libasyik/object_pool.hpp, `block_pool` as a stack of free blocks; and
--                 include/libasyik/pooled_guarded_stack.hpp, the stacks of fibers by the bases of
--                 their mappings.
--   Digest        include/libasyik/internal/digestauth.hpp: `generate_authorization` finds the
--                 challenge in a header, computes the response and writes the answer's header.
--   Tls           src/tls.cpp and include/libasyik/tls.hpp. A constructor is a `Build`, the calls
--                 that it makes on the native context and the exception that ends it; Host is
--                 `prepare_client`, `client_handshake` and the context of the process; RootStore is
--                 src/tls_win_certstore.cpp.
--   HttpServer    include/libasyik/http_server.hpp and the server's part of
--                 include/libasyik/http.hpp: routes (which Spec makes into expressions, after
--                 src/http_common.cpp), the list of live connections, `start_accept`, `close`; its
--                 child Connection is `http_connection::start`, which finds its handler in the
--                 tables of RouteTable. Starting is src/http_server_plain.cpp and
--                 src/http_server_ssl.cpp, the calls on the acceptor, with a context of Tls.
--   HttpClient    the client's part of include/libasyik/http.hpp: `http_easy_request_multipart`
--                 sends a request, hands a challenge to Digest, and sends once more; Multipart
--                 reads the boundary and looks for it, Address is `http_analyze_url`, Connecting the
--                 calls of one connection with the handshake of Tls.
--   Sql           include/libasyik/sql.hpp and src/sql.cpp. The pool is a record of who has which
--                 connection, with a `Step` for what runs between two locks; Transactions is
--                 `sql_transaction`, Notifications the handlers of `listen` and their watcher,
--                 Connection the lock that queries and the watcher share.
--   Scheduler     include/libasyik/asyik_round_robin.hpp, by the calls that Boost.Fiber makes.
--   Service       src/service.cpp and include/libasyik/service.hpp: the tasks of a service and
--                 what its counters count, as steps; and the workers of async(). Draining is the
--                 end of `run`, on a state that only its parameters read and change; Workers is
--                 the active service of a thread on which tasks take turns.
--   Futures       include/libasyik/error.hpp and what
--                 include/libasyik/internal/detail/use_fiber_future_impl.hpp puts into promises:
--                 the classes of exceptions and `asyik_set_error`; Failures carries them into the
--                 `catch` clauses of the loop of a connection in HttpServer.
--   Websocket     include/libasyik/http_websocket.hpp and src/http_websocket*.cpp: a websocket as
--                 the calls on its stream, and the calls that open a connection; addresses are
--                 those of HttpClient.
--
-- Parameters of the model: the steady clock; std::regex_search and boost::iequals; the calls of
-- the operating system for files (`FileSystem`) and of the C library for dates (`Clock`); the
-- addresses that operator new and mmap answer with; MD5 and the search of digest sections; which
-- calls on OpenSSL's contexts succeed; what Beast reads, whether its writes succeed and what
-- `prepare_payload` makes of the headers of a request; the handlers of routes; Boost's reading of
-- addresses; which commands of SOCI succeed; the numbers and texts of error codes; what a call on
-- the stream of a websocket sends; which calls on a socket succeed; and what a round of other
-- fibers does to the state of a service.
--
-- Bounds and fuel: integers of 32 and 64 bits wrap where the code lets them, with `%` written
-- out. `read_loop` of StaticFiles runs on one more than the bytes that remain, which is enough
-- because every round reads one or fails; `digits` runs on one more than the number, which every
-- division makes smaller. `replace_tag` runs on the length of the text, of which each round takes
-- a byte; `read_parts` on one more than the bytes that are left, which is enough because every
-- part takes its boundary; `http_easy_request_multipart` on two, which is enough because the
-- retry asks for no other; each waiting of Draining on more rounds than the clock needs for its
-- deadline; `is_a` on six steps, as no class of exceptions is deeper. All other recursion is on
-- the structure of a list.
--
-- Not modelled: multipart answers that never end, as the stream of an answer is what comes of it
-- until the server ends or closes it; threads, as every operation of the cache and the limiter
-- holds one lock from its start to its end, but for the pool and the connections of Sql; when a
-- timer ends (a call that fails may be one that timed out); the other code for Windows; logging;
-- and what is Asio's own code in the futures (executors, tokens, the wrappers of calls).
pub mod Common
pub mod Memcache
pub mod RateLimit
pub mod RouteTable
pub mod StaticFiles
pub mod Pools
pub mod Digest
pub mod Tls
pub mod HttpServer
pub mod HttpClient
pub mod Sql
pub mod Scheduler
pub mod Service
pub mod Futures
pub mod Websocket
