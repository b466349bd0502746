-- ===== src/Tls.antt =====
-- src/tls.cpp and include/libasyik/tls.hpp: how the contexts of TLS are configured. OpenSSL and
-- Asio are parameters: the calls on the native context are recorded in their order, as `Action`,
-- and `accepts` says which of them succeed. Logging is left out, as is the code for Windows.
pub mod Client
pub mod Server
pub mod Host
pub mod RootStore
mod Tests
use libasyik.Common.{
  ℕ, ◌≡◌, Option, none, some, List, [], ◌∷◌, ◌++◌, Bool, true, false, not, ◌&&◌, ◌||◌, ltb,
  if◌then◌else◌, length, Bytes, codes, bytes_eq, begins_with, ends_in, drop, pop_back,
}

pub data Version : Type 0 where
  tls1_2 tls1_3 : Version

-- TLS1_2_VERSION and TLS1_3_VERSION, the numbers of the protocol.
unfoldable pub to_openssl : Version → ℕ
to_openssl tls1_2 = 771
to_openssl tls1_3 = 772

-- What the code asks of the native context.
pub data Action : Type 0 where
  set_min_proto_version set_max_proto_version : ℕ → Action
  set_client_options : Action
  set_server_options : (tickets : Bool) → Action
  set_cipher_list set_ciphersuites : Bytes → Action
  set_verify_peer set_verify_none set_default_verify_paths set_verify_callback : Action
  load_verify_file add_verify_path add_certificate_authority : Bytes → Action
  set_password_callback use_certificate_chain_file use_certificate_chain : Bytes → Action
  use_private_key_file use_private_key : Bytes → Action
  check_private_key set_dh_auto set_session_id_context : Action
  set_alpn_select_cb : Bytes → Action

-- The messages of `invalid_input_error`.
pub data InvalidInput : Type 0 where
  min_above_max invalid_cipher_list invalid_ciphersuites key_mismatch : InvalidInput
  cannot_load : Bytes → InvalidInput
  certificate_and_key_needed : InvalidInput
  invalid_alpn : Bytes → InvalidInput

-- A part of a constructor: the calls that it makes, and the exception that ends it.
abbrev pub Build : Type 0
Build = List Action × Option InvalidInput

abbrev pub done : Build
done = ([], none)

abbrev pub throw : InvalidInput → Build
throw e = ([], some e)

infixr 6 ◌>>◌
unfoldable pub ◌>>◌ : Build → Build → Build
(xs, some e) >> b = (xs, some e)
(xs, none) >> (ys, e) = (xs ++ ys, e)

abbrev pub when : Bool → Build → Build
when c b = if c then b else done

abbrev pub given : Bytes → Bool
given s = not (bytes_eq s [])

-- The fields of a configuration that both kinds have.
pub record Identity : Type 0 where
  pub cert_file : Bytes
  pub cert_pem : Bytes
  pub key_file : Bytes
  pub key_pem : Bytes
  pub key_password : Bytes

pub record Protocol : Type 0 where
  pub min_version : Version
  pub max_version : Version
  pub cipher_list : Bytes
  pub ciphersuites : Bytes

pub record ClientConfig : Type 0 where
  pub verify_peer : Bool
  pub verify_hostname : Bool
  pub use_system_ca : Bool
  pub ca_file : Bytes
  pub ca_path : Bytes
  pub ca_pem : Bytes
  pub identity : Identity
  pub protocol : Protocol
  pub has_verify_callback : Bool

pub record ServerConfig : Type 0 where
  pub identity : Identity
  pub protocol : Protocol
  pub alpn : List Bytes
  pub session_tickets : Bool

abbrev pub no_identity : Identity
no_identity = record {
  cert_file = [];
  cert_pem = [];
  key_file = [];
  key_pem = [];
  key_password = [];
}

-- `client_config` by its default values, and `client_config::insecure()`.
unfoldable pub client_config : ClientConfig
client_config = record {
  verify_peer = true;
  verify_hostname = true;
  use_system_ca = true;
  ca_file = [];
  ca_path = [];
  ca_pem = [];
  identity = no_identity;
  protocol = record {
    min_version = tls1_2;
    max_version = tls1_3;
    cipher_list = [];
    ciphersuites = [];
  };
  has_verify_callback = false;
}

unfoldable pub insecure : ClientConfig
unfolding client_config
insecure = record client_config {
  verify_peer = false;
  verify_hostname = false;
  use_system_ca = false;
}

abbrev pub has_cert : Identity → Bool
has_cert i = given i.cert_file || given i.cert_pem

abbrev pub has_key : Identity → Bool
has_key i = given i.key_file || given i.key_pem

-- A name of ALPN with its length before it.
unfoldable pub alpn_wire : List Bytes → Build × Bytes
alpn_wire [] = (done, [])
alpn_wire (proto ∷ rest) =
    let (checked, wire) = alpn_wire rest in
    if not (given proto) || ltb 255 (length proto)
    then (throw (invalid_alpn proto), [])
    else (checked, length proto ∷ proto ++ wire)

module _ (accepts : Action → Bool) where
  -- A call that throws, or that the code turns into an exception.
  unfoldable pub apply : InvalidInput → Action → Build
  apply e a = (a ∷ [], if accepts a then none else some e)

  -- A call whose failure does not matter.
  abbrev pub attempt : Action → Build
  attempt a = (a ∷ [], none)

  unfoldable pub set_versions : (min max : Version) → Build
  set_versions min max =
      if ltb (to_openssl max) (to_openssl min)
      then throw min_above_max
      else attempt (set_min_proto_version (to_openssl min))
        >> attempt (set_max_proto_version (to_openssl max))

  unfoldable pub set_ciphers : (cipher_list ciphersuites : Bytes) → Build
  set_ciphers cipher_list ciphersuites =
      when (given cipher_list) (apply invalid_cipher_list (set_cipher_list cipher_list))
      >> when (given ciphersuites) (apply invalid_ciphersuites (set_ciphersuites ciphersuites))

  unfoldable pub load_identity : Identity → Build
  load_identity i =
      attempt (set_password_callback i.key_password)
      >> (if given i.cert_file
          then apply (cannot_load (codes "cert_file")) (use_certificate_chain_file i.cert_file)
          else apply (cannot_load (codes "cert_pem")) (use_certificate_chain i.cert_pem))
      >> (if given i.key_file
          then apply (cannot_load (codes "key_file")) (use_private_key_file i.key_file)
          else apply (cannot_load (codes "key_pem")) (use_private_key i.key_pem))
      >> apply key_mismatch check_private_key

  unfoldable pub set_verification : ClientConfig → Build
  set_verification cfg =
      if cfg.verify_peer
      then (attempt set_verify_peer
          >> when cfg.use_system_ca (attempt set_default_verify_paths)
          >> when (given cfg.ca_file)
              (apply (cannot_load (codes "ca_file")) (load_verify_file cfg.ca_file))
          >> when (given cfg.ca_path)
              (apply (cannot_load (codes "ca_path")) (add_verify_path cfg.ca_path))
          >> when (given cfg.ca_pem)
              (apply (cannot_load (codes "ca_pem")) (add_certificate_authority cfg.ca_pem))
          >> when cfg.has_verify_callback (attempt set_verify_callback))
      else attempt set_verify_none

  unfoldable pub client_identity : Identity → Build
  client_identity i =
      if (has_cert i && not (has_key i)) || (not (has_cert i) && has_key i)
      then throw certificate_and_key_needed
      else when (has_cert i) (load_identity i)

  unfoldable pub client_context : ClientConfig → Build
  client_context cfg =
      set_versions cfg.protocol.min_version cfg.protocol.max_version
      >> attempt set_client_options
      >> set_ciphers cfg.protocol.cipher_list cfg.protocol.ciphersuites
      >> set_verification cfg
      >> client_identity cfg.identity

  unfoldable pub server_context : ServerConfig → Build
  server_context cfg =
      let (checked, wire) = alpn_wire cfg.alpn in
      set_versions cfg.protocol.min_version cfg.protocol.max_version
      >> attempt (set_server_options cfg.session_tickets)
      >> attempt set_dh_auto
      >> set_ciphers cfg.protocol.cipher_list cfg.protocol.ciphersuites
      >> (if not (has_cert cfg.identity) || not (has_key cfg.identity)
          then throw certificate_and_key_needed
          else load_identity cfg.identity)
      >> attempt set_session_id_context
      >> checked
      >> when (given wire) (attempt (set_alpn_select_cb wire))
