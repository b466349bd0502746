-- ===== src/HttpServer/Connection.antt =====
-- `http_connection::start` of include/libasyik/http.hpp: the loop of a connection, from its
-- handshake to its end. What Beast reads and the results of what is written are listed in
-- `Incoming`; `need_eof` and the handlers are parameters, and an exception is an `Error`.
use libasyik.Common.{
  ℕ, Option, none, some, List, [], ◌∷◌, ◌++◌, Bool, true, false, if◌then◌else◌, Bytes, codes,
}
use libasyik.RouteTable.{Route}
use libasyik.RouteTable
use libasyik.HttpServer.{HttpServer}

-- The exceptions, as far as the loop tells them apart.
pub data Error : Type 0 where
  overflow_error : (what : Bytes) → Error
  already_closed_error : Error
  other_error : Error

-- A request, as far as the loop reads it, and a response.
pub record Request : Type 0 where
  pub method : Bytes
  pub target : Bytes
  pub keep_alive : Bool
  pub is_upgrade : Bool

pub record Response : Type 0 where
  pub result : ℕ
  pub body : Bytes
  pub server : Bytes
  pub content_type : Bytes
  pub keep_alive : Bool

-- What a handler leaves: its response, whether it answers by itself, and how it ended.
pub data Ending : Type 0 where
  returned threw_not_found threw : Ending

pub record Handled : Type 0 where
  pub response : Response
  pub manual_response : Bool
  pub ending : Ending

-- A read of the loop. `leftover` says that more bytes stand in the buffer, and `sent` how the
-- write of the response fails, or for a websocket its handshake or the lock of the service; `server` is the server as it
-- is then, `none` once it is gone. `unreadable_target` is a request with a target that Boost.URL does
-- not read, at which `set_url_view` throws.
pub data Incoming (S : Type 0) : Type 0 where
  received : Request → (leftover : Bool) (sent : Option Error) (server : Option S) → Incoming S
  read_failed : Error → Incoming S
  unreadable_target : Incoming S

-- How the loop is left: by `break`, by `return` for a websocket, with the handler that it ran, or
-- by an exception, with `safe_to_close`; `waiting` where no more is known to come.
pub data Left (W : Type 0) : Type 0 where
  finished waiting : Left W
  websocket : Option W → Left W
  thrown : Error → (safe_to_close : Bool) → Left W

pub data Output : Type 0 where
  wrote : Response → Output
  shut_down : Output
  warned : Error → Output

unfoldable pub default_response : Response
default_response = record {
  result = 200;
  body = [];
  server = [];
  content_type = [];
  keep_alive = true;
}

-- The response that a request starts with, and the one that an error leaves.
abbrev pub prepared : (version : Bytes) → Request → Response → Response
prepared version req res = record {
  result = res.result;
  body = res.body;
  server = version;
  content_type = codes "text/html";
  keep_alive = req.keep_alive;
}

abbrev pub refused : (result : ℕ) → Response → Response
refused result res = record {
  result = result;
  body = [];
  server = res.server;
  content_type = res.content_type;
  keep_alive = false;
}

-- The two `catch` around a handler.
unfoldable pub settle : Handled → Response × Bool
settle h = elim h.ending [
  | returned ↦ (h.response, h.manual_response)
  | threw_not_found ↦ (refused 404 h.response, h.manual_response)
  | threw ↦ (refused 500 h.response, h.manual_response)
]

unfoldable pub outputs : List Response → List Output
outputs [] = []
outputs (r ∷ rs) = wrote r ∷ outputs rs

unfoldable pub too_large : (what : Bytes) → Response
too_large what = record {
  result = 413;
  body = what;
  server = [];
  content_type = [];
  keep_alive = false;
}

module _ {R H W : Type 0} (iequals : Bytes → Bytes → Bool)
    (regex_search : R → Bytes → Option (List Bytes)) where
  unfoldable pub find_http_route : Request → HttpServer R H W → Option (Route R H × List Bytes)
  find_http_route req s = RouteTable.find iequals regex_search req.method req.target s.http_routes

  unfoldable pub find_websocket_route : Request → HttpServer R H W → Option (Route R W × List Bytes)
  find_websocket_route req s =
      RouteTable.find iequals regex_search req.method req.target s.ws_routes

  -- The route's handler.
  module _ (version : Bytes) (call : H → Request → List Bytes → Response → Handled) where
    unfoldable pub respond : Request → Option (HttpServer R H W) → Response × Bool
    respond req none = (refused 500 (prepared version req default_response), false)
    respond req (some s) = elim (find_http_route req s) [
      | none ↦ (refused 404 (prepared version req default_response), false)
      | some (route, args) ↦
          settle (call route.handler req args (prepared version req default_response))
    ]

    unfoldable pub upgrade :
        Request
        → (leftover : Bool) (sent : Option Error) (server : Option (HttpServer R H W)) → Left W
    upgrade req true sent server = thrown other_error false
    upgrade req false sent none = websocket none
    upgrade req false sent (some s) = elim (find_websocket_route req s) [
      | none ↦ websocket none
      | some (route, args) ↦ elim sent [
        | some e ↦ websocket none
        | none ↦ websocket (some route.handler)
      ]
    ]

    module _ (need_eof : Response → Bool) where
      unfoldable pub serve_requests :
          (safe_to_close : Bool) → List (Incoming (HttpServer R H W)) → List Response × Left W
      serve_requests safe [] = ([], waiting)
      serve_requests safe (read_failed e ∷ _) = ([], thrown e safe)
      serve_requests safe (unreadable_target ∷ _) = ([], thrown other_error false)
      serve_requests safe (received req leftover sent server ∷ more) =
          let (rest, left) = serve_requests true more in
          let (res, manual) = respond req server in
          if req.is_upgrade
          then ([], upgrade req leftover sent server)
          else if manual
          then ([], finished)
          else elim sent [
            | some e ↦ ([], thrown e false)
            | none ↦ if need_eof res then (res ∷ [], finished) else (res ∷ rest, left)
          ]

      -- What follows the loop; `refused_sent` is how the write of the response 413 fails.
      unfoldable pub leave : (refused_sent : Option Error) → Left W → List Output
      leave refused_sent finished = shut_down ∷ []
      leave refused_sent waiting = []
      leave refused_sent (websocket _) = []
      leave refused_sent (thrown (overflow_error what) safe) = elim refused_sent [
        | none ↦ wrote (too_large what) ∷ shut_down ∷ []
        | some e ↦ []
      ]
      leave refused_sent (thrown already_closed_error safe) =
          if safe then [] else warned already_closed_error ∷ []
      leave refused_sent (thrown other_error safe) = warned other_error ∷ []

      unfoldable pub start :
          (handshake refused_sent : Option Error) → List (Incoming (HttpServer R H W)) → List Output
      start (some e) refused_sent incoming = []
      start none refused_sent incoming =
          let (written, left) = serve_requests false incoming in
          outputs written ++ leave refused_sent left
