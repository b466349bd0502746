-- ===== src/HttpServer/Starting/Tests.antt =====
-- Runs of src/http_server_plain.cpp and src/http_server_ssl.cpp, and their theorem at a concrete
-- input: a server with a certificate and all calls of which succeed.
use libasyik.Common.{
  ◌≡◌, ◌≤◌, refl, none, [], ◌∷◌, Bool, true, false, Bytes, codes, bytes_eq, made, AllSucceed,
}
use libasyik.Tls.{
  to_openssl, Action, check_private_key, no_identity, Identity, ServerConfig, client_config,
  server_context, alpn_wire, apply, set_versions, set_ciphers, load_identity, ◌>>◌, has_cert,
  has_key,
}
use libasyik.HttpServer.{http_server}
use libasyik.HttpServer.Starting.{
  AcceptorCall, open_v4, set_socket_option, bind, listen, async_accept, set_acceptor_reuse_options,
  default_limits, acceptor_calls, passes, TlsCall, expires_after, async_handshake, async_shutdown,
  close_socket, handshake_if_ssl, shutdown_ssl, make_http_server, start_https_server,
  make_https_server, make_https_server_of, make_https_server-started,
}

program : Unit {0}
unfolding client_config server_context alpn_wire apply set_versions set_ciphers load_identity ◌>>◌
    to_openssl bytes_eq made AllSucceed acceptor_calls passes handshake_if_ssl shutdown_ssl
    make_http_server start_https_server make_https_server make_https_server_of
    set_acceptor_reuse_options
program = tt

pem : Identity
pem = record no_identity { cert_pem = codes "cert"; key_pem = codes "key" }

config : ServerConfig
unfolding client_config
config = record {
  identity = pem;
  protocol = client_config.protocol;
  alpn = [];
  session_tickets = true;
}

accepts : Action → Bool
accepts _ = true

succeeds : AcceptorCall → Bool
succeeds _ = true

-- An address in use: no accept is made.
bound : AcceptorCall → Bool
bound (bind addr port) = false
bound _ = true

in_use_run :
    make_http_server {R = Bytes} {H = Bytes} {W = Bytes} bound (codes "0.0.0.0") 80 false ≡ (
      open_v4 ∷ set_socket_option (codes "SO_REUSEADDR" ∷ []) ∷ bind (codes "0.0.0.0") 80 ∷ [],
      none,
    )
unfolding program bound
in_use_run = refl

silent : TlsCall → Bool
silent async_handshake = false
silent _ = true

-- A client that sends nothing: the handshake ends by its limit.
silent_run : handshake_if_ssl silent 10000 ≡ (expires_after 10000 ∷ async_handshake ∷ [], false)
unfolding program silent
silent_run = refl

shutdown_run : shutdown_ssl 0 ≡ async_shutdown ∷ close_socket ∷ []
unfolding program
shutdown_run = refl

make_https_server-started_example :
    (to_openssl config.protocol.min_version ≤ to_openssl config.protocol.max_version)
    × (has_cert config.identity ≡ true)
    × (has_key config.identity ≡ true)
    × (accepts check_private_key ≡ true)
    × ((make_https_server_of {R = Bytes} {H = Bytes} {W = Bytes} accepts config succeeds
          (codes "0.0.0.0")
          443
          true).0
        ≡ open_v4
          ∷ set_socket_option (codes "SO_REUSEADDR" ∷ codes "SO_REUSEPORT" ∷ [])
          ∷ bind (codes "0.0.0.0") 443
          ∷ listen
          ∷ async_accept
          ∷ [])
    × (succeeds open_v4 ≡ true)
    × (succeeds (bind (codes "0.0.0.0") 443) ≡ true)
    × (succeeds listen ≡ true)
    × (succeeds async_accept ≡ true)
    × ((http_server {R = Bytes} {H = Bytes} {W = Bytes} default_limits).accepting ≡ true)
    × ((http_server {R = Bytes} {H = Bytes} {W = Bytes} default_limits).active_connections ≡ [])
    × (default_limits.request_body_limit ≡ 1048576)
    × (default_limits.request_header_limit ≡ 1048576)
unfolding program config pem accepts succeeds http_server
make_https_server-started_example =
    make_https_server-started {R = Bytes} {H = Bytes} {W = Bytes} accepts config succeeds
      (codes "0.0.0.0") 443 true (http_server default_limits) refl
