-- ===== src/HttpServer/Starting.antt =====
-- How a server starts: src/http_server_plain.cpp, src/http_server_ssl.cpp, the constructor in
-- include/libasyik/http.hpp and `set_acceptor_reuse_options` of src/http_common.cpp; and the
-- handshake and the end of TLS on its connections. The contexts are those of Tls.
mod Tests
use libasyik.Common.{
  ℕ, ◌≡◌, ◌≤◌, refl, sym, ap, ◌∙◌, subst, Option, none, some, List, [], ◌∷◌, ◌++◌, Bool, true,
  false, if◌then◌else◌, if-intro, inl, inr, Option-cases, ltb, Bytes, codes, made, AllSucceed,
  made-AllSucceed,
}
use libasyik.Tls.{
  ServerConfig, server_context, to_openssl, has_cert, has_key, Action, InvalidInput,
  check_private_key,
}
use libasyik.Tls
use libasyik.Tls.Server.{server_context_lem}
use libasyik.HttpServer.{Limits, HttpServer, http_server}

-- The calls on the acceptor.
pub data AcceptorCall : Type 0 where
  open_v4 : AcceptorCall
  set_socket_option : (names : List Bytes) → AcceptorCall
  bind : (addr : Bytes) (port : ℕ) → AcceptorCall
  listen : AcceptorCall
  async_accept : AcceptorCall

-- One call with the names of the options joined by `|`.
unfoldable pub set_acceptor_reuse_options : (reuse_port : Bool) → AcceptorCall
set_acceptor_reuse_options reuse_port =
    set_socket_option
      (codes "SO_REUSEADDR" ∷ (if reuse_port then codes "SO_REUSEPORT" ∷ [] else []))

-- Whether the next call is made: the result of the setting of options is not read.
unfoldable pub passes : (succeeds : AcceptorCall → Bool) → AcceptorCall → Bool
passes succeeds open_v4 = succeeds open_v4
passes succeeds (set_socket_option names) = true
passes succeeds (bind addr port) = succeeds (bind addr port)
passes succeeds listen = succeeds listen
passes succeeds async_accept = succeeds async_accept

unfoldable pub default_limits : Limits
default_limits = record { request_body_limit = 1048576; request_header_limit = 1048576 }

unfoldable pub acceptor_calls : (addr : Bytes) (port : ℕ) (reuse_port : Bool) → List AcceptorCall
acceptor_calls addr port reuse_port =
    open_v4 ∷ set_acceptor_reuse_options reuse_port ∷ bind addr port ∷ listen ∷ async_accept ∷ []

-- The time that a client may take for its handshake, and for the end of TLS, in milliseconds; 0
-- stands for all that is not positive.
pub record TlsTimeouts : Type 0 where
  pub tls_handshake_timeout : ℕ
  pub tls_shutdown_timeout : ℕ

unfoldable pub default_tls_timeouts : TlsTimeouts
default_tls_timeouts = record { tls_handshake_timeout = 10000; tls_shutdown_timeout = 2000 }

pub set_tls_handshake_timeout : ℕ → TlsTimeouts → TlsTimeouts
set_tls_handshake_timeout t s = record s { tls_handshake_timeout = t }

pub set_tls_shutdown_timeout : ℕ → TlsTimeouts → TlsTimeouts
set_tls_shutdown_timeout t s = record s { tls_shutdown_timeout = t }

-- The calls on the stream of a connection with TLS.
pub data TlsCall : Type 0 where
  expires_after : (milliseconds : ℕ) → TlsCall
  async_handshake expires_never async_shutdown close_socket : TlsCall

-- Up to the first that throws, with whether none did.
unfoldable pub handshake_if_ssl : (succeeds : TlsCall → Bool) (timeout : ℕ) → List TlsCall × Bool
handshake_if_ssl succeeds timeout = made succeeds (
    (if ltb 0 timeout then expires_after timeout ∷ [] else [])
    ++ (async_handshake ∷ expires_never ∷ []))

-- What `async_shutdown` throws is caught.
unfoldable pub shutdown_ssl : (timeout : ℕ) → List TlsCall
shutdown_ssl timeout =
    (if ltb 0 timeout then expires_after timeout ∷ [] else [])
    ++ (async_shutdown ∷ close_socket ∷ [])

module _ {R H W : Type 0} where
  -- The calls that are made, and the server, unless one of them throws.
  unfoldable pub make_http_server :
      (succeeds : AcceptorCall → Bool) (addr : Bytes) (port : ℕ) (reuse_port : Bool)
      → List AcceptorCall × Option (HttpServer R H W)
  make_http_server succeeds addr port reuse_port =
      let (calls, all) = made (passes succeeds) (acceptor_calls addr port reuse_port) in
      (calls, if all then some (http_server default_limits) else none)

  unfoldable pub start_https_server :
      (succeeds : AcceptorCall → Bool) (addr : Bytes) (port : ℕ) (reuse_port : Bool)
      → List AcceptorCall × Option (HttpServer R H W)
  start_https_server succeeds addr port reuse_port =
      let (calls, all) = made (passes succeeds) (acceptor_calls addr port reuse_port) in
      (calls, if all then some (http_server default_limits) else none)

  -- With a context; one that is null is an `invalid_input_error`.
  unfoldable pub make_https_server :
      (has_context : Bool) (succeeds : AcceptorCall → Bool) (addr : Bytes) (port : ℕ)
      (reuse_port : Bool)
      → List AcceptorCall × Option (HttpServer R H W)
  make_https_server has_context succeeds addr port reuse_port =
      if has_context then start_https_server succeeds addr port reuse_port else ([], none)

  -- With a configuration, of which the context may not be made.
  unfoldable pub make_https_server_of :
      (accepts : Action → Bool) (cfg : ServerConfig) (succeeds : AcceptorCall → Bool) (addr : Bytes)
      (port : ℕ) (reuse_port : Bool)
      → List AcceptorCall × Option (HttpServer R H W)
  make_https_server_of accepts cfg succeeds addr port reuse_port =
      elim (server_context accepts cfg).1 [
        | some e ↦ ([], none)
        | none ↦ make_https_server true succeeds addr port reuse_port
      ]

  started :
      (succeeds : AcceptorCall → Bool) (cs : List AcceptorCall) (t s : HttpServer R H W)
      → (if (made succeeds cs).1 then some t else none) ≡ some s
      → (s ≡ t) × ((made succeeds cs).0 ≡ cs) × AllSucceed succeeds cs
  started succeeds cs t s h = by (made succeeds cs).1 refl h
    where
      by :
          (b : Bool)
          → (made succeeds cs).1 ≡ b
          → (if b then some t else none) ≡ some s
          → (s ≡ t) × ((made succeeds cs).0 ≡ cs) × AllSucceed succeeds cs
      by true e h = let (same, all) = made-AllSucceed succeeds cs e in (cc (sym h), same, all)
      by false e h = absurd (cc h)

  with_context :
      (accepts : Action → Bool) (cfg : ServerConfig) (succeeds : AcceptorCall → Bool) (addr : Bytes)
      (port : ℕ) (reuse_port : Bool)
      → (server_context accepts cfg).1 ≡ none
      → make_https_server_of accepts cfg succeeds addr port reuse_port
        ≡ start_https_server succeeds addr port reuse_port
  unfolding make_https_server_of make_https_server
  with_context accepts cfg succeeds addr port reuse_port e = rw (make_https_server_of, e) refl

  without_context :
      (accepts : Action → Bool) (cfg : ServerConfig) (succeeds : AcceptorCall → Bool) (addr : Bytes)
      (port : ℕ) (reuse_port : Bool) (x : InvalidInput)
      → (server_context accepts cfg).1 ≡ some x
      → make_https_server_of accepts cfg succeeds addr port reuse_port ≡ ([], none)
  unfolding make_https_server_of
  without_context accepts cfg succeeds addr port reuse_port x e = rw (make_https_server_of, e) refl

  -- A server with TLS that is made from a configuration, whichever calls succeed, has a context
  -- with versions in order, a certificate and a key that was found to fit it; its acceptor was
  -- opened for IPv4, got its options, was bound to the address and the port, told to listen and
  -- then to accept, in this order and each with success but for the options, whose result is not
  -- read; and it accepts, has no connection, and reads at most 1 MiB of a header and of a body.
  pub make_https_server-started :
      (accepts : Action → Bool) (cfg : ServerConfig) (succeeds : AcceptorCall → Bool) (addr : Bytes)
      (port : ℕ) (reuse_port : Bool) (s : HttpServer R H W)
      → (make_https_server_of accepts cfg succeeds addr port reuse_port).1 ≡ some s
      → (to_openssl cfg.protocol.min_version ≤ to_openssl cfg.protocol.max_version)
        × (has_cert cfg.identity ≡ true)
        × (has_key cfg.identity ≡ true)
        × (accepts check_private_key ≡ true)
        × ((make_https_server_of accepts cfg succeeds addr port reuse_port).0
            ≡ open_v4
              ∷ set_socket_option
                  (codes "SO_REUSEADDR" ∷ (if reuse_port then codes "SO_REUSEPORT" ∷ [] else []))
              ∷ bind addr port
              ∷ listen
              ∷ async_accept
              ∷ [])
        × (succeeds open_v4 ≡ true)
        × (succeeds (bind addr port) ≡ true)
        × (succeeds listen ≡ true)
        × (succeeds async_accept ≡ true)
        × (s.accepting ≡ true)
        × (s.active_connections ≡ [])
        × (s.limits.request_body_limit ≡ 1048576)
        × (s.limits.request_header_limit ≡ 1048576)
  unfolding acceptor_calls passes set_acceptor_reuse_options default_limits AllSucceed http_server
      make_https_server_of make_https_server start_https_server
  make_https_server-started accepts cfg succeeds addr port reuse_port s h =
      elim (Option-cases (server_context accepts cfg).1) [
        | inl e ↦
            let same = with_context accepts cfg succeeds addr port reuse_port e in
            let (v, c, k, checked, _, _) = server_context_lem accepts cfg e in
            let (is, calls, (opened, (_, (bound, (listens, (accepts_one, _)))))) =
              started (passes succeeds) (acceptor_calls addr port reuse_port)
                (http_server default_limits) s (ap (λ r. r.1) (sym same) ∙ h) in
            (
              v,
              c,
              k,
              checked,
              ap (λ r. r.0) same ∙ calls,
              opened,
              bound,
              listens,
              accepts_one,
              ap (λ x. x.accepting) is,
              ap (λ x. x.active_connections) is,
              ap (λ x. x.limits.request_body_limit) is,
              ap (λ x. x.limits.request_header_limit) is,
            )
        | inr (x, e) ↦ absurd (
            cc (
              ap (λ r. r.1) (sym (without_context accepts cfg succeeds addr port reuse_port x e))
              ∙ h))
      ]
