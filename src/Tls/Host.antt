-- ===== src/Tls/Host.antt =====
-- How src/tls.cpp prepares a connection for its host, the context that a process has by default,
-- and the errors of a handshake. `make_address` says which names Asio reads as an IP address,
-- and `accepts` which calls on the native connection succeed.
use libasyik.Common.{
  ℕ, ◌≡◌, refl, ap, Option, none, some, List, [], ◌∷◌, ◌++◌, Bool, true, false, not, ◌&&◌,
  if◌then◌else◌, ◌==◌, Bytes, begins_with, ends_in, pop_back, drop, arith,
}
use libasyik.Tls.{ClientConfig, client_config}

pub data HostCall : Type 0 where
  set_tlsext_host_name set1_ip_asc set1_host : Bytes → HostCall
  set_hostflags : HostCall

pub data TlsError : Type 0 where
  cannot_set_sni cannot_set_verification : Bytes → TlsError
  verify_error : (verify_result : ℕ) → TlsError
  handshake_error : TlsError

-- The host without the brackets of an IPv6 address and without the dot of a full domain name.
unfoldable pub without_brackets : Bytes → Bytes
without_brackets host =
    if begins_with (91 ∷ []) host && ends_in 93 (drop 1 host) then pop_back (drop 1 host) else host

unfoldable pub host_name : Bytes → Bytes
host_name host = let h = without_brackets host in if ends_in 46 h then pop_back h else h

module _ (make_address : Bytes → Bool) (accepts : HostCall → Bool) where
  unfoldable pub prepare_client : ClientConfig → Bytes → List HostCall × Option TlsError
  prepare_client cfg host_view =
      let host = host_name host_view in
      let is_ip = make_address host in
      let sni = if is_ip then [] else set_tlsext_host_name host ∷ [] in
      let flags = if is_ip then [] else set_hostflags ∷ [] in
      let set1 = if is_ip then set1_ip_asc host else set1_host host in
      if not is_ip && not (accepts (set_tlsext_host_name host))
      then (sni, some (cannot_set_sni host))
      else if cfg.verify_peer && cfg.verify_hostname
      then (
        sni ++ (flags ++ (set1 ∷ [])),
        if accepts set1 then none else some (cannot_set_verification host),
      )
      else (sni, none)

-- A failed handshake: 0 is X509_V_OK, the result of a verification that passed.
pub rethrow_client_handshake_error : (verify_result : ℕ) → ClientConfig → TlsError
rethrow_client_handshake_error vr cfg =
    if cfg.verify_peer && not (vr == 0) then verify_error vr else handshake_error

-- How the handshake of TLS ends: a failure of TLS has the result of the verification, and any other
-- exception passes unchanged.
pub data Handshake : Type 0 where
  completed failed_otherwise : Handshake
  failed_in_tls : (verify_result : ℕ) → Handshake

pub data HandshakeError : Type 0 where
  of_tls : TlsError → HandshakeError
  unchanged : HandshakeError

unfoldable pub handshake_error_of : ClientConfig → Handshake → Option HandshakeError
handshake_error_of cfg completed = none
handshake_error_of cfg failed_otherwise = some unchanged
handshake_error_of cfg (failed_in_tls vr) = some (of_tls (rethrow_client_handshake_error vr cfg))

unfoldable pub client_handshake :
    (make_address : Bytes → Bool) (accepts : HostCall → Bool)
    → Handshake
    → ClientConfig
    → (host : Bytes) → Option HandshakeError
client_handshake make_address accepts handshake cfg host =
    elim (prepare_client make_address accepts cfg host).1 [
      | some e ↦ some (of_tls e)
      | none ↦ handshake_error_of cfg handshake
    ]

-- A connection whose handshake is done was prepared without an exception.
pub client_handshake_done :
    (make_address : Bytes → Bool) (accepts : HostCall → Bool) (handshake : Handshake)
    (cfg : ClientConfig) (host : Bytes)
    → client_handshake make_address accepts handshake cfg host ≡ none
    → ((prepare_client make_address accepts cfg host).1 ≡ none) × (handshake ≡ completed)
unfolding client_handshake handshake_error_of
client_handshake_done make_address accepts handshake cfg host h =
    by (prepare_client make_address accepts cfg host).1 handshake h
  where
    by :
        (o : Option TlsError) (k : Handshake)
        → (elim o [ some e ↦ some (of_tls e) | none ↦ handshake_error_of cfg k ]) ≡ none
        → (o ≡ none) × (k ≡ completed)
    by none completed h = (refl, refl)
    by none failed_otherwise h = absurd (cc h)
    by none (failed_in_tls vr) h = absurd (cc h)
    by (some e) k h = absurd (cc h)

-- The context of the process, made when it is first asked for.
module _ {A : Type 0} (make_client_context : ClientConfig → A) where
  pub default_client_context : Option A → A × Option A
  default_client_context none =
      (make_client_context client_config, some (make_client_context client_config))
  default_client_context (some ctx) = (ctx, some ctx)

pub set_default_client_context : {A : Type 0} (ctx : Option A) → Option A → Option A
set_default_client_context ctx _ = ctx

ends_in_last : (c : ℕ) (s : Bytes) → ends_in c (s ++ (c ∷ [])) ≡ true
unfolding ends_in
ends_in_last c [] = ground arith
ends_in_last c (x ∷ []) = ground arith
ends_in_last c (x ∷ y ∷ s) = ends_in_last c (y ∷ s)

pop_back_last : (c : ℕ) (s : Bytes) → pop_back (s ++ (c ∷ [])) ≡ s
unfolding pop_back
pop_back_last c [] = refl
pop_back_last c (x ∷ []) = refl
pop_back_last c (x ∷ y ∷ s) = ap (◌∷◌ x) (pop_back_last c (y ∷ s))

without_brackets_lem : (s : Bytes) → without_brackets (91 ∷ (s ++ (93 ∷ []))) ≡ s
unfolding without_brackets begins_with
without_brackets_lem s = rw (ends_in_last 93 s) (pop_back_last 93 s)

-- The checks that a host name asks for when the certificate is verified.
pub asks_for : Bool → Bytes → List HostCall
asks_for is_ip host =
    if is_ip
    then set1_ip_asc host ∷ []
    else set_tlsext_host_name host ∷ set_hostflags ∷ set1_host host ∷ []

-- The calls for a host name that is as the certificate has it.
prepare_plain :
    (make_address : Bytes → Bool) (accepts : HostCall → Bool) (cfg : ClientConfig) (view s : Bytes)
    → host_name view ≡ s
    → cfg.verify_peer ≡ true
    → cfg.verify_hostname ≡ true
    → (prepare_client make_address accepts cfg view).1 ≡ none
    → (prepare_client make_address accepts cfg view).0 ≡ asks_for (make_address s) s
unfolding prepare_client asks_for
prepare_plain make_address accepts cfg view s e vp vh h = ground (arith, e)

-- With the verification of the peer and of the host name, for a text in brackets that does not
-- end in a dot, a connection that is prepared without an exception has asked to check the text
-- without its brackets: as an address, without SNI, if it is one, else as a name, with SNI.
pub prepare_client-without_brackets :
    (make_address : Bytes → Bool) (accepts : HostCall → Bool) (cfg : ClientConfig) (s : Bytes)
    → cfg.verify_peer ≡ true
    → cfg.verify_hostname ≡ true
    → ends_in 46 s ≡ false
    → (prepare_client make_address accepts cfg (91 ∷ (s ++ (93 ∷ [])))).1 ≡ none
    → (prepare_client make_address accepts cfg (91 ∷ (s ++ (93 ∷ [])))).0
      ≡ asks_for (make_address s) s
prepare_client-without_brackets make_address accepts cfg s vp vh e h =
    prepare_plain make_address accepts cfg (91 ∷ (s ++ (93 ∷ []))) s
      (unfold host_name in rw (without_brackets_lem s, e) refl) vp vh h
