-- ===== src/HttpClient/Connecting.antt =====
-- The connection of one request in `http_easy_request_multipart` of include/libasyik/http.hpp: the
-- calls up to the writing of the request and at the end, with and without TLS, and when the request
-- is written. The handshake is `client_handshake` of Tls.
mod Tests
use libasyik.Common.{
  ℕ, ◌≡◌, ◌≢◌, refl, sym, ap, ◌∙◌, subst, inl, inr, Option, none, some, List, [], ◌∷◌, ◌++◌, Bool,
  true, false, if◌then◌else◌, Bytes, made, IsMade, made-first, nothing_made,
}
use libasyik.Tls.{ClientConfig}
use libasyik.Tls.Host.{
  HostCall, Handshake, completed, HandshakeError, client_handshake_done, prepare_client,
}
use libasyik.Tls.Host
use libasyik.HttpClient.Address.{UrlScheme}
use libasyik.HttpClient.{HttpRequest}

pub data ClientCall : Type 0 where
  async_resolve : (host : Bytes) (port : ℕ) → ClientCall
  expires_after : (milliseconds : ℕ) → ClientCall
  async_connect : ClientCall
  client_handshake : (host : Bytes) → ClientCall
  async_write : HttpRequest → ClientCall
  is_write_done async_shutdown shutdown_both : ClientCall

-- The calls up to the writing of the request.
unfoldable pub connect_ssl : (timeout_ms : ℕ) → UrlScheme → HttpRequest → List ClientCall
connect_ssl timeout_ms scheme req =
    async_resolve scheme.host scheme.port
    ∷ expires_after timeout_ms
    ∷ async_connect
    ∷ client_handshake scheme.host
    ∷ async_write req
    ∷ []

unfoldable pub connect_plain : (timeout_ms : ℕ) → UrlScheme → HttpRequest → List ClientCall
connect_plain timeout_ms scheme req =
    async_resolve scheme.host scheme.port
    ∷ expires_after timeout_ms
    ∷ async_connect
    ∷ async_write req
    ∷ []

unfoldable pub connect : (timeout_ms : ℕ) → UrlScheme → HttpRequest → List ClientCall
connect timeout_ms scheme req =
    if scheme.is_ssl then connect_ssl timeout_ms scheme req else connect_plain timeout_ms scheme req

-- The calls at the end, of which every exception is caught.
pub disconnect : (succeeds : ClientCall → Bool) → UrlScheme → List ClientCall
disconnect succeeds scheme =
    (made succeeds
      (is_write_done ∷ (if scheme.is_ssl then async_shutdown else shutdown_both) ∷ [])).0

abbrev pub is_done : Option HandshakeError → Bool
is_done none = true
is_done (some e) = false

module _ (make_address : Bytes → Bool) (accepts : HostCall → Bool) (handshake : Handshake)
    (cfg : ClientConfig) (network : ClientCall → Bool) where
  -- Which calls succeed: the handshake as TLS says, the others as the network does.
  unfoldable pub succeeds : ClientCall → Bool
  succeeds (client_handshake host) =
      is_done (Host.client_handshake make_address accepts handshake cfg host)
  succeeds (async_resolve host port) = network (async_resolve host port)
  succeeds (expires_after ms) = network (expires_after ms)
  succeeds async_connect = network async_connect
  succeeds (async_write req) = network (async_write req)
  succeeds is_write_done = network is_write_done
  succeeds async_shutdown = network async_shutdown
  succeeds shutdown_both = network shutdown_both

  -- The writing of a request is not another call.
  written-later :
      (req : HttpRequest) (d : ClientCall) (ds : List ClientCall)
      → (async_write req ≢ d)
      → IsMade (async_write req) (made succeeds (d ∷ ds)).0
      → (succeeds d ≡ true) × IsMade (async_write req) (made succeeds ds).0
  written-later req d ds other m = elim (made-first succeeds (async_write req) d ds m) [
    | inl e ↦ absurd (other e)
    | inr n ↦ n
  ]

  done_none : (o : Option HandshakeError) → is_done o ≡ true → o ≡ none
  done_none none h = refl
  done_none (some e) h = absurd (cc h)

  connected_ssl :
      (timeout_ms : ℕ) (scheme : UrlScheme) (req : HttpRequest)
      → scheme.is_ssl ≡ true
      → connect timeout_ms scheme req ≡ connect_ssl timeout_ms scheme req
  unfolding connect
  connected_ssl timeout_ms scheme req ssl = rw (connect, ssl) refl

  written_ssl :
      (timeout_ms : ℕ) (scheme : UrlScheme) (req sent : HttpRequest)
      → IsMade (async_write sent) (made succeeds (connect_ssl timeout_ms scheme req)).0
      → (succeeds (client_handshake scheme.host) ≡ true) × (sent ≡ req)
  unfolding connect_ssl
  written_ssl timeout_ms scheme req sent m =
      let rest = async_connect ∷ client_handshake scheme.host ∷ async_write req ∷ [] in
      let (_, m1) =
        written-later sent (async_resolve scheme.host scheme.port) (expires_after timeout_ms ∷ rest)
          (λ e. absurd (cc e)) m in
      let (_, m2) = written-later sent (expires_after timeout_ms) rest (λ e. absurd (cc e)) m1 in
      let (_, m3) = written-later sent async_connect _ (λ e. absurd (cc e)) m2 in
      let (h, m4) =
        written-later sent (client_handshake scheme.host) (async_write req ∷ [])
          (λ e. absurd (cc e)) m3 in
      elim (made-first succeeds (async_write sent) (async_write req) [] m4) [
        | inl e ↦ (h, cc e)
        | inr n ↦ absurd (nothing_made succeeds (async_write sent) n.1)
      ]

  -- For an address with TLS, whatever the network does: where a request is written, with its
  -- credentials if it has some, it is the one that was made, the connection has been prepared for
  -- the host of the address without an exception, and its handshake was completed before.
  pub connect-secure :
      (timeout_ms : ℕ) (scheme : UrlScheme) (req sent : HttpRequest)
      → scheme.is_ssl ≡ true
      → IsMade (async_write sent) (made succeeds (connect timeout_ms scheme req)).0
      → (sent ≡ req)
        × ((prepare_client make_address accepts cfg scheme.host).1 ≡ none)
        × (handshake ≡ completed)
  unfolding succeeds
  connect-secure timeout_ms scheme req sent ssl m =
      let (h, same) = written_ssl timeout_ms scheme req sent (
        subst (λ cs. IsMade (async_write sent) (made succeeds cs).0)
          (connected_ssl timeout_ms scheme req ssl) m) in
      let (prepared, done) =
        client_handshake_done make_address accepts handshake cfg scheme.host
          (done_none (Host.client_handshake make_address accepts handshake cfg scheme.host) h) in
      (same, prepared, done)
