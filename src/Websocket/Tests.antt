-- ===== src/Websocket/Tests.antt =====
-- Runs of include/libasyik/http_websocket.hpp and of the files that open a connection, and their
-- theorems at concrete inputs. The stream of these runs sends a write with the kind that was set.
use libasyik.Common.{
  made, IsMade, ℕ, ◌≡◌, ◌≢◌, refl, inl, inr, Option, none, some, List, [], ◌∷◌, Bool, true, false,
  if◌then◌else◌, ◌&&◌, ltb, leb, map, length, digits, Bytes, codes, bytes_eq, arith,
}
use libasyik.HttpClient.Address.{Url, http, wss, scheme_of, http_analyze_url}
use libasyik.Futures.{overflow_error, ErrorCode, Outcome, value, exception}
use libasyik.Websocket.{
  Timeout, StreamCall, set_binary, async_write, set_option, cancel, async_close, Message,
  send_string, write_basic_buffer, set_timeout, set_keepalive_pings, set_idle_timeout, get_string,
  read_basic_buffer, OpenCall, client_handshake, async_handshake, or_slash, is_default_port,
  with_port, handshake_plain, handshake_ssl, make_websocket_connection_plain,
  make_websocket_connection_ssl, make_websocket_connection,
}
use libasyik.Websocket.Stream.{Stream, IsReadable, Reads, deliver}
use libasyik.Websocket.Exchange.{
  Sending, sends_string, sends_buffer, sets_idle_timeout, send, send_all, messages, strings,
  buffers, AllFit, AllReadable, send_all-read,
}
use libasyik.Websocket.Opening.{make_websocket_connection-secure}

program : Unit {0}
unfolding send_string write_basic_buffer set_timeout set_keepalive_pings set_idle_timeout get_string
    read_basic_buffer made or_slash is_default_port with_port handshake_plain handshake_ssl
    make_websocket_connection_plain make_websocket_connection_ssl make_websocket_connection send
    send_all AllFit scheme_of http_analyze_url bytes_eq digits
program = tt

-- An address on port 8080 without a path.
bare : Bool → Url
bare secure = record {
  scheme_id = if secure then wss else http;
  encoded_host = codes "h";
  user = [];
  password = [];
  port_number = 8080;
  encoded_resource = [];
}

-- The handshake asks for an empty target without TLS, and for "/" with it.
empty_target_run : handshake_plain (scheme_of (bare false)) ≡ async_handshake (codes "h:8080") []
unfolding program bare
empty_target_run = refl

slash_run : handshake_ssl (scheme_of (bare true)) ≡ async_handshake (codes "h:8080") (codes "/")
unfolding program bare
slash_run = refl

always : OpenCall → Bool
always c = true

secure_calls : List OpenCall
unfolding program bare
secure_calls = make_websocket_connection_ssl 10 (scheme_of (bare true))

make_websocket_connection-secure_example :
    (always (client_handshake (codes "h")) ≡ true)
    × (codes "/" ≢ [])
    × (codes "h:8080" ≡ codes "h:8080")
unfolding program bare always secure_calls IsMade
make_websocket_connection-secure_example =
    make_websocket_connection-secure (λ u. some (bare true)) always (codes "wss://h:8080") 10
      (scheme_of (bare true)) secure_calls true (codes "h:8080") (codes "/") refl refl refl
      (inr (inr (inr (inr (inr (inr (inr (inl refl))))))))

-- The state of the stream is whether it writes binary messages.
apply : StreamCall → Bool → List Message × Bool
apply (set_binary b) k = ([], b)
apply (async_write p) k = (record { is_binary = k; payload = p } ∷ [], k)
apply (set_option o) k = ([], k)
apply cancel k = ([], k)
apply (async_close c r) k = ([], k)

apply-Stream : Stream Bool (λ k. k) apply
unfolding apply
apply-Stream = record {
  of_binary = λ b k. (refl, refl);
  of_write = λ p k. refl;
  of_option = λ o k. refl;
}

ascii : Bytes → Bool
ascii [] = true
ascii (b ∷ s) = ltb b 128 && ascii s

code_0 : ErrorCode
code_0 = record { category = 0; value = 0 }

async_read : Option ℕ → Message → Outcome Bytes
async_read none m = value m.payload
async_read (some n) m =
    if leb (length m.payload) n
    then value m.payload
    else exception (record { error_class = overflow_error; code = code_0; text = [] })

async_read-Reads : Reads ascii async_read
unfolding async_read
async_read-Reads = record { unlimited = λ m r. refl; fitting = λ n m r h. ground arith }

opt : Timeout
opt = record { keep_alive_pings = false; idle_timeout = 0 }

sendings : List Sending
sendings = sends_string (codes "a") ∷ sets_idle_timeout 5 ∷ sends_buffer (1 ∷ 2 ∷ []) ∷ []

sendings-AllFit : AllFit 3 sendings
unfolding program sendings
sendings-AllFit = (omega arith, (omega arith, tt))

sendings-AllReadable : AllReadable ascii (messages sendings)
unfolding program sendings messages AllReadable IsReadable ascii
sendings-AllReadable = ((omega arith, λ _. refl), ((omega arith, λ e. absurd (cc e)), tt))

send_all-read_example :
    let arrived =
      deliver apply (send_all sendings (record { timeout = opt; calls = [] })).calls false in
    (map (get_string async_read code_0) arrived ≡ strings code_0 sendings)
    × (map (read_basic_buffer async_read (7 ∷ 8 ∷ 9 ∷ [])) arrived
        ≡ buffers (7 ∷ 8 ∷ 9 ∷ []) sendings)
send_all-read_example =
    send_all-read ascii async_read async_read-Reads code_0 (λ k. k) apply apply-Stream opt sendings
      (7 ∷ 8 ∷ 9 ∷ []) false sendings-AllFit sendings-AllReadable
