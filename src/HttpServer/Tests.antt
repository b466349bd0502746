-- ===== src/HttpServer/Tests.antt =====
-- Runs of the code of include/libasyik/http_server.hpp and include/libasyik/http.hpp, and their
-- theorems at concrete inputs. An expression of these runs matches the text that it is.
use libasyik.Common.{
  ℕ, ◌≡◌, refl, Option, none, some, List, [], ◌∷◌, ◌++◌, Bool, true, false, not, if◌then◌else◌,
  ◌==◌, take, Bytes, codes, bytes_eq, has_byte, ends_in, pop_back, begins_with, before,
}
use libasyik.RouteTable.{
  routes_at, add_at, add_route, find, find_exact, find_prefix, find_regex, method_fits,
  normalise_path, strip_slash, is_static_route, new,
}
use libasyik.HttpServer.{
  HttpServer, http_server, on_http_request, unexpired, close_all, close, register_connection,
  start_accept,
}
use libasyik.HttpServer.Spec.{
  is_special, is_space, escape, skip_spaces, match_tag, replace_tag, without_slash,
  route_spec_to_regex,
}
use libasyik.HttpServer.Connection.{
  overflow_error, Request, Response, Handled, returned, Incoming, received, read_failed,
  unreadable_target, other_error, warned, wrote, shut_down, default_response, prepared, settle,
  find_http_route, respond, upgrade, serve_requests, outputs, too_large, leave, start,
}
use libasyik.HttpServer.Answers.{
  KeptOpen, answers, AreKept, no_server, serve_requests-answers, start-Failing,
}
use libasyik.HttpServer.Closing.{
  arrives, ends, closes, World, Known, happen, run, ids, is_in, run-closes,
}

program : Unit {0}
unfolding http_server on_http_request unexpired close_all close register_connection start_accept
    is_special is_space escape skip_spaces match_tag replace_tag without_slash route_spec_to_regex
    settle find_http_route respond upgrade serve_requests outputs too_large leave start
    default_response routes_at add_at add_route find find_exact find_prefix find_regex method_fits
    normalise_path strip_slash is_static_route new bytes_eq has_byte ends_in pop_back begins_with
    before is_in happen run
program = tt

int_run :
    route_spec_to_regex (codes "/a.b/<int>/") ≡ codes "^\\/a\\.b\\/([0-9]+)\\/?(|\\?[^\\?\\s]*)$"
unfolding program
int_run = refl

-- A handler answers with its own text, or throws if it has none.
server : HttpServer Bytes Bytes Bytes
unfolding program
server =
    on_http_request (λ s. s) (codes "/a") (codes "GET") (codes "hello") false
      (http_server (record { request_body_limit = 100; request_header_limit = 100 }))

call : Bytes → Request → List Bytes → Response → Handled
call h req args res = record {
  response = record {
    result = 200;
    body = h;
    server = res.server;
    content_type = res.content_type;
    keep_alive = res.keep_alive;
  };
  manual_response = false;
  ending = returned;
}

search : Bytes → Bytes → Option (List Bytes)
search re target = if bytes_eq re target then some [] else none

need_eof : Response → Bool
need_eof r = not r.keep_alive

get_a : Bool → Request
get_a keep = record {
  method = codes "GET";
  target = codes "/a";
  keep_alive = keep;
  is_upgrade = false;
}

exchange : Bool → Incoming (HttpServer Bytes Bytes Bytes)
unfolding server
exchange keep = received (get_a keep) false none (some server)

hello : Bool → Response
hello keep = record {
  result = 200;
  body = codes "hello";
  server = codes "v";
  content_type = codes "text/html";
  keep_alive = keep;
}

start_run :
    start bytes_eq search
      (codes "v")
      call
      need_eof
      none
      none
      (exchange true ∷ exchange false ∷ exchange true ∷ [])
    ≡ wrote (hello true) ∷ wrote (hello false) ∷ shut_down ∷ []
unfolding program server call search need_eof get_a exchange hello
start_run = refl

overflow_run :
    start bytes_eq search
      (codes "v")
      call
      need_eof
      none
      none
      (exchange true ∷ read_failed (overflow_error (codes "big")) ∷ [])
    ≡ wrote (hello true) ∷ wrote (too_large (codes "big")) ∷ shut_down ∷ []
unfolding program server call search need_eof get_a exchange hello
overflow_run = refl

-- A target that is no address ends the connection without an answer.
unreadable_run :
    start bytes_eq search
      (codes "v")
      call
      need_eof
      none
      none
      (exchange true ∷ unreadable_target ∷ exchange true ∷ [])
    ≡ wrote (hello true) ∷ warned other_error ∷ []
unfolding program server call search need_eof get_a exchange hello
unreadable_run = refl

two_requests : List (Incoming (HttpServer Bytes Bytes Bytes))
unfolding exchange
two_requests = exchange true ∷ exchange false ∷ []

serve_requests-answers_example :
    let written = (serve_requests bytes_eq search (codes "v") call need_eof false two_requests).0 in
    KeptOpen need_eof written
    × ((n : ℕ) × (written
          ≡ take n (answers bytes_eq search (codes "v") call need_eof two_requests)))
serve_requests-answers_example =
    serve_requests-answers bytes_eq search (codes "v") call need_eof false two_requests

closes_when_asked : (r : Response) → r.keep_alive ≡ false → need_eof r ≡ true
unfolding need_eof
closes_when_asked r h = rw h refl

kept : List (Incoming (HttpServer Bytes Bytes Bytes))
unfolding exchange
kept = exchange true ∷ []

kept-AreKept : AreKept bytes_eq search (codes "v") call need_eof kept
unfolding program AreKept kept exchange server call search need_eof get_a
kept-AreKept = (refl, refl, refl, tt)

start-Failing_example :
    start bytes_eq search
      (codes "v")
      call
      need_eof
      none
      none
      (kept ++ (received (get_a true) false none none ∷ two_requests))
    ≡ outputs (answers bytes_eq search (codes "v") call need_eof kept)
      ++ (wrote (record {
        result = 500;
        body = [];
        server = codes "v";
        content_type = codes "text/html";
        keep_alive = false;
      })
          ∷ shut_down
          ∷ [])
unfolding get_a
start-Failing_example =
    start-Failing bytes_eq search (codes "v") call need_eof kept two_requests (get_a true) false
      none 500 (prepared (codes "v") (get_a true) default_response) none closes_when_asked
      kept-AreKept refl no_server

-- A new server, and connections of which those with an even number are websockets.
world : World Bytes Bytes Bytes
unfolding program server
world = record { server = server; live = λ _. false; told = [] }

even : ℕ → Bool
even n = n == 2

world-Known : Known even world
unfolding Known world
world-Known c h = absurd (cc h)

closes_run :
    (run even world (arrives 1 ∷ arrives 2 ∷ ends 1 ∷ arrives 3 ∷ closes ∷ [])).told ≡ 2 ∷ 3 ∷ []
unfolding program world even server ids
closes_run = refl

run-closes_example :
    is_in 2 (run even world ((arrives 1 ∷ arrives 2 ∷ []) ++ (closes ∷ []))).told ≡ true
unfolding program world even server ids
run-closes_example = run-closes even world (arrives 1 ∷ arrives 2 ∷ []) 2 world-Known refl
