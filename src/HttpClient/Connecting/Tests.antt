-- ===== src/HttpClient/Connecting/Tests.antt =====
-- Runs of the connection of a request in include/libasyik/http.hpp, and its theorem at a concrete
-- input.
use libasyik.Common.{
  ◌≡◌, refl, none, inl, inr, [], ◌∷◌, Bool, true, false, Bytes, codes, bytes_eq, begins_with,
  ends_in, pop_back, made, IsMade,
}
use libasyik.Tls.{client_config}
use libasyik.Tls.Host.{
  HostCall, Handshake, completed, failed_in_tls, handshake_error_of, prepare_client, host_name,
  without_brackets,
}
use libasyik.Tls.Host
use libasyik.HttpClient.Address.{UrlScheme}
use libasyik.HttpClient.{HttpRequest}
use libasyik.HttpClient.Connecting.{
  ClientCall, async_resolve, expires_after, async_connect, client_handshake, connect, connect_ssl,
  connect_plain, succeeds, connect-secure,
}

program : Unit {0}
unfolding connect connect_ssl connect_plain succeeds Host.client_handshake handshake_error_of
    prepare_client host_name without_brackets bytes_eq begins_with ends_in pop_back made IsMade
    client_config
program = tt

scheme : UrlScheme
scheme = record {
  host = codes "h";
  username = [];
  password = [];
  port = 443;
  target = codes "/";
  is_ssl = true;
}

req : HttpRequest
req = record {
  method = codes "GET";
  target = codes "/";
  headers = (codes "Authorization", codes "x") ∷ [];
  body = [];
}

no_address : Bytes → Bool
no_address s = false

any_host : HostCall → Bool
any_host c = true

any_call : ClientCall → Bool
any_call c = true

-- A certificate that is not accepted: the request with its credentials is not written.
rejected_run :
    made
      (succeeds no_address any_host (failed_in_tls 10) client_config any_call)
      (connect 30000 scheme req)
    ≡ (
      async_resolve (codes "h") 443
          ∷ expires_after 30000
          ∷ async_connect
          ∷ client_handshake (codes "h")
          ∷ [],
      false,
    )
unfolding program scheme req no_address any_host any_call
rejected_run = refl

connect-secure_example :
    (req ≡ req)
    × ((prepare_client no_address any_host client_config (codes "h")).1 ≡ none)
    × (completed ≡ completed)
unfolding program scheme req no_address any_host any_call
connect-secure_example =
    connect-secure no_address any_host completed client_config any_call 30000 scheme req req refl
      (inr (inr (inr (inr (inl refl)))))
