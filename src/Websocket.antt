-- ===== src/Websocket.antt =====
-- include/libasyik/http_websocket.hpp and src/http_websocket.cpp, with the two files that open a
-- connection, src/http_websocket_plain.cpp and src/http_websocket_ssl.cpp. The calls that a
-- websocket makes on the stream of Boost.Beast are recorded; what arrives is a `Message`.
pub mod Stream
pub mod Exchange
pub mod Opening
mod Tests
use libasyik.Common.{
  made, ℕ, ◌+◌, Option, none, some, List, [], ◌∷◌, ◌++◌, Bool, true, false, ◌||◌, if◌then◌else◌,
  ◌==◌, length, drop, to_string, Bytes, codes, bytes_eq,
}
use libasyik.HttpClient.Address.{Url, UrlScheme, http_analyze_url}
use libasyik.Futures.{unexpected_error, ErrorCode, Exception, Outcome, value, exception}

-- The options of timeouts that the source sets.
pub record Timeout : Type 0 where
  pub keep_alive_pings : Bool
  pub idle_timeout : ℕ

pub data StreamCall : Type 0 where
  set_binary : Bool → StreamCall
  async_write : Bytes → StreamCall
  set_option : Timeout → StreamCall
  cancel : StreamCall
  async_close : (close_code : ℕ) (reason : Bytes) → StreamCall

pub record Message : Type 0 where
  pub is_binary : Bool
  pub payload : Bytes

-- A websocket: its options, and the calls on its stream.
pub record Websocket : Type 0 where
  pub timeout : Timeout
  pub calls : List StreamCall

unfoldable pub send_string : Bytes → Websocket → Websocket
send_string s ws = record ws { calls = ws.calls ++ (set_binary false ∷ async_write s ∷ []) }

unfoldable pub write_basic_buffer : Bytes → Websocket → Websocket
write_basic_buffer b ws = record ws { calls = ws.calls ++ (set_binary true ∷ async_write b ∷ []) }

unfoldable pub set_timeout : Timeout → Websocket → Websocket
set_timeout opt ws = record { timeout = opt; calls = ws.calls ++ (set_option opt ∷ []) }

unfoldable pub set_keepalive_pings : Bool → Websocket → Websocket
set_keepalive_pings b ws =
    set_timeout (record { keep_alive_pings = b; idle_timeout = ws.timeout.idle_timeout }) ws

unfoldable pub set_idle_timeout : ℕ → Websocket → Websocket
set_idle_timeout t ws =
    set_timeout (record { keep_alive_pings = ws.timeout.keep_alive_pings; idle_timeout = t }) ws

-- What `close` throws is caught, and its wait ends after two seconds.
unfoldable pub close : (close_code : ℕ) (reason : Bytes) → Websocket → Websocket
close c reason ws = record ws { calls = ws.calls ++ (cancel ∷ async_close c reason ∷ []) }

unfoldable pub close_normally : (close_code : ℕ) → Websocket → Websocket
close_normally c ws = close c (codes "NORMAL") ws

-- `async_read` of a message into a buffer of a greatest size, if it has one; `shut_down` is the code
-- of Asio.
module _ (async_read : (max_size : Option ℕ) → Message → Outcome Bytes) where
  unfoldable pub get_string : (shut_down : ErrorCode) → Message → Outcome Bytes
  get_string shut_down m = elim (async_read none m) [
    | value text ↦
        if m.is_binary
        then exception (record {
          error_class = unexpected_error;
          code = shut_down;
          text = codes "unexpected binary message when get_string()";
        })
        else value text
    | exception e ↦ exception e
  ]

  -- The length of the message, and the buffer with its bytes at the start.
  unfoldable pub read_basic_buffer : Bytes → Message → Outcome (ℕ × Bytes)
  read_basic_buffer b m = elim (async_read (some (length b)) m) [
    | value p ↦ value (length p, p ++ drop (length p) b)
    | exception e ↦ exception e
  ]

-- What opening a connection calls.
pub data OpenCall : Type 0 where
  async_resolve : (host : Bytes) (port : ℕ) → OpenCall
  expires_after : (seconds : ℕ) → OpenCall
  async_connect : OpenCall
  client_handshake : (host : Bytes) → OpenCall
  expires_never : OpenCall
  suggest_timeout : OpenCall
  decorate : OpenCall
  async_handshake : (host target : Bytes) → OpenCall

unfoldable pub or_slash : Bytes → Bytes
or_slash target = if bytes_eq target [] then codes "/" else target

unfoldable pub is_default_port : UrlScheme → Bool
is_default_port scheme = (scheme.port == 80) || (scheme.port == 443)

unfoldable pub with_port : UrlScheme → Bytes
with_port scheme = scheme.host ++ (codes ":" ++ to_string scheme.port)

unfoldable pub handshake_plain : UrlScheme → OpenCall
handshake_plain scheme =
    if is_default_port scheme
    then async_handshake scheme.host (or_slash scheme.target)
    else async_handshake (with_port scheme) scheme.target

unfoldable pub handshake_ssl : UrlScheme → OpenCall
handshake_ssl scheme =
    if is_default_port scheme
    then async_handshake scheme.host (or_slash scheme.target)
    else async_handshake (with_port scheme) (or_slash scheme.target)

unfoldable pub make_websocket_connection_plain : (timeout : ℕ) → UrlScheme → List OpenCall
make_websocket_connection_plain timeout scheme =
    async_resolve scheme.host scheme.port
    ∷ expires_after timeout
    ∷ async_connect
    ∷ expires_never
    ∷ suggest_timeout
    ∷ decorate
    ∷ handshake_plain scheme
    ∷ []

unfoldable pub make_websocket_connection_ssl : (timeout : ℕ) → UrlScheme → List OpenCall
make_websocket_connection_ssl timeout scheme =
    async_resolve scheme.host scheme.port
    ∷ expires_after timeout
    ∷ async_connect
    ∷ client_handshake scheme.host
    ∷ expires_never
    ∷ suggest_timeout
    ∷ decorate
    ∷ handshake_ssl scheme
    ∷ []

-- `none` is a null pointer; else the calls, and whether a connection is returned or one threw.
unfoldable pub make_websocket_connection :
    (parse_uri : Bytes → Option Url) (succeeds : OpenCall → Bool) (url : Bytes) (timeout : ℕ)
    → Option (List OpenCall × Bool)
make_websocket_connection parse_uri succeeds url timeout = elim (http_analyze_url parse_uri url) [
  | none ↦ none
  | some scheme ↦ some (
      made succeeds (
        if scheme.is_ssl
        then make_websocket_connection_ssl timeout scheme
        else make_websocket_connection_plain timeout scheme))
]
