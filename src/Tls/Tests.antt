-- ===== src/Tls/Tests.antt =====
-- Runs of the code of src/tls.cpp, and its theorems at concrete inputs.
use libasyik.Common.{
  ◌≡◌, ◌≤◌, refl, none, [], ◌∷◌, Bool, true, Bytes, codes, bytes_eq, begins_with, ends_in, pop_back,
  has_byte,
}
use libasyik.Tls.{
  tls1_2, tls1_3, to_openssl, Action, check_private_key, no_identity, Identity, ServerConfig,
  client_config, insecure, client_context, server_context, alpn_wire, apply, set_versions,
  set_ciphers, load_identity, set_verification, client_identity, ◌>>◌, has_cert, has_key,
  set_verify_none, set_client_options, set_min_proto_version, set_max_proto_version,
}
use libasyik.Tls.Client.{times_on, times_off, client_context-verify_peer}
use libasyik.Tls.Server.{AreNames, names_on_wire, server_context_lem}
use libasyik.Tls.Host.{
  without_brackets, HostCall, host_name, asks_for, prepare_client, prepare_client-without_brackets,
}

program : Unit {0}
unfolding client_config insecure client_context server_context alpn_wire apply set_versions
    set_ciphers load_identity set_verification client_identity ◌>>◌ to_openssl host_name
    without_brackets prepare_client bytes_eq begins_with ends_in has_byte pop_back
program = tt

pem : Identity
pem = record no_identity { cert_pem = codes "cert"; key_pem = codes "key" }

server : ServerConfig
unfolding client_config
server = record {
  identity = pem;
  protocol = client_config.protocol;
  alpn = codes "h2" ∷ codes "http/1.1" ∷ [];
  session_tickets = true;
}

all_calls : Action → Bool
all_calls _ = true

any_host : HostCall → Bool
any_host _ = true

-- An address, to these runs, is a text with a colon.
has_colon : Bytes → Bool
has_colon s = has_byte 58 s

insecure_run : client_context all_calls insecure ≡ (
  set_min_proto_version 771 ∷ set_max_proto_version 772 ∷ set_client_options ∷ set_verify_none ∷ [],
  none,
)
unfolding program all_calls
insecure_run = refl

server_run : (server_context all_calls server).1 ≡ none
unfolding program all_calls server pem
server_run = refl

client_context-verify_peer_example :
    (times_on (client_context all_calls client_config).0 ≡ 1)
    × (times_off (client_context all_calls client_config).0 ≡ 0)
unfolding program all_calls
client_context-verify_peer_example = client_context-verify_peer all_calls client_config refl

server_context_lem_example :
    (to_openssl tls1_2 ≤ to_openssl tls1_3)
    × (has_cert pem ≡ true)
    × (has_key pem ≡ true)
    × (all_calls check_private_key ≡ true)
    × AreNames server.alpn
    × (names_on_wire 2 (alpn_wire server.alpn).1 ≡ server.alpn)
unfolding program all_calls server pem
server_context_lem_example = server_context_lem all_calls server refl

prepare_client-without_brackets_example :
    (prepare_client has_colon any_host client_config (codes "[::1]")).0
    ≡ asks_for true (codes "::1")
unfolding program has_colon any_host
prepare_client-without_brackets_example =
    prepare_client-without_brackets has_colon any_host client_config (codes "::1") refl refl refl
      refl
