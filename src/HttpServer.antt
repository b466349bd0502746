-- ===== src/HttpServer.antt =====
-- include/libasyik/http_server.hpp and the server's part of include/libasyik/http.hpp: the state
-- of a server, its routes, and the connections that it keeps so that it can close them. A
-- connection is a number; a weak pointer to it is live while the connection is.
pub mod Spec
pub mod Connection
pub mod Closing
pub mod Answers
pub mod Starting
mod Tests
use libasyik.Common.{
  ℕ, ◌+◌, Option, none, some, List, [], ◌∷◌, ◌++◌, Bool, true, false, not, ◌&&◌, if◌then◌else◌,
  ◌==◌, Bytes, codes, ends_in, pop_back,
}
use libasyik.RouteTable.{Route, RouteTable, add_route, add_regex_route}
use libasyik.RouteTable
use libasyik.HttpServer.Spec.{route_spec_to_regex, static_regex, without_slash}

-- The default limits of http_server, in milliseconds and bytes.
pub record Limits : Type 0 where
  pub request_body_limit : ℕ
  pub request_header_limit : ℕ

-- A server: whether it accepts, its routes, and its weak pointers to connections. `R` is a
-- compiled regular expression, `H` a handler of requests, `W` one of websockets.
pub record HttpServer (R H W : Type 0) : Type 0 where
  pub accepting : Bool
  pub http_routes : RouteTable R H
  pub ws_routes : RouteTable R W
  pub active_connections : List ℕ
  pub limits : Limits

module _ {R H W : Type 0} where
  unfoldable pub http_server : Limits → HttpServer R H W
  http_server l = record {
    accepting = true;
    http_routes = RouteTable.new;
    ws_routes = RouteTable.new;
    active_connections = [];
    limits = l;
  }

  module _ (regex : Bytes → R) where
    unfoldable pub on_http_request :
        (route_spec method : Bytes)
        → H
        → (insert_front : Bool) → HttpServer R H W
        → HttpServer R H W
    on_http_request route_spec method cb insert_front s = record s {
      http_routes =
          add_route route_spec
            (record {
              method = method;
              regex = regex (route_spec_to_regex route_spec);
              handler = cb;
            })
            insert_front s.http_routes;
    }

    pub on_websocket :
        (route_spec : Bytes) → W → (insert_front : Bool) → HttpServer R H W → HttpServer R H W
    on_websocket route_spec cb insert_front s = record s {
      ws_routes =
          add_route route_spec
            (record { method = []; regex = regex (route_spec_to_regex route_spec); handler = cb })
            insert_front s.ws_routes;
    }

  pub on_http_request_regex :
      R → (method : Bytes) → H → (insert_front : Bool) → HttpServer R H W → HttpServer R H W
  on_http_request_regex re method cb insert_front s = record s {
    http_routes =
        add_regex_route (record { method = method; regex = re; handler = cb }) insert_front
          s.http_routes;
  }

  pub on_websocket_regex : R → W → (insert_front : Bool) → HttpServer R H W → HttpServer R H W
  on_websocket_regex re cb insert_front s = record s {
    ws_routes =
        add_regex_route (record { method = []; regex = re; handler = cb }) insert_front s.ws_routes;
  }

  -- `make_static_file_handler` with its root and its configuration makes the handler.
  pub serve_static :
      (regex : Bytes → R) (make_handler : Bytes → H) (url_prefix : Bytes)
      → HttpServer R H W
      → HttpServer R H W
  serve_static regex make_handler url_prefix s =
      on_http_request_regex (regex (static_regex url_prefix)) (codes "GET")
        (make_handler (without_slash url_prefix)) false s

  pub set_request_header_limit : ℕ → HttpServer R H W → HttpServer R H W
  set_request_header_limit l s = record s {
    limits = record { request_body_limit = s.limits.request_body_limit; request_header_limit = l };
  }

  pub set_request_body_limit : ℕ → HttpServer R H W → HttpServer R H W
  set_request_body_limit l s = record s {
    limits = record {
      request_body_limit = l;
      request_header_limit = s.limits.request_header_limit;
    };
  }

-- `std::remove_if` on expired pointers.
unfoldable pub unexpired : (live : ℕ → Bool) → List ℕ → List ℕ
unexpired live [] = []
unexpired live (c ∷ cs) = if live c then c ∷ unexpired live cs else unexpired live cs

-- What close() does with a connection: nothing if its websocket has no function for it.
pub data Closed : Type 0 where
  closed_socket closed_websocket : ℕ → Closed

unfoldable pub close_all : (is_websocket : ℕ → Bool) → List ℕ → List Closed
close_all is_websocket [] = []
close_all is_websocket (c ∷ cs) =
    (if is_websocket c then closed_websocket c else closed_socket c) ∷ close_all is_websocket cs

module _ {R H W : Type 0} where
  unfoldable pub register_connection :
      (live : ℕ → Bool) (conn : ℕ) → HttpServer R H W → HttpServer R H W
  register_connection live conn s = record s {
    active_connections = unexpired live s.active_connections ++ (conn ∷ []);
  }

  -- A connection that arrives, or an error of the acceptor; `service` says whether the service
  -- is still there.
  unfoldable pub start_accept :
      (live : ℕ → Bool) (service : Bool) → Option ℕ → HttpServer R H W → HttpServer R H W
  start_accept live service (some conn) s =
      if service
      then register_connection live conn s
      else record (register_connection live conn s) { accepting = false }
  start_accept live service none s = record s { accepting = false }

  -- The closed connections, and the server after it.
  unfoldable pub close :
      (live is_websocket : ℕ → Bool) → HttpServer R H W → List Closed × HttpServer R H W
  close live is_websocket s = (
    close_all is_websocket (unexpired live s.active_connections),
    record s { accepting = false; active_connections = [] },
  )
