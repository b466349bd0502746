-- ===== src/Tls/Client.antt =====
-- What a client context of src/tls.cpp does about verification.
use libasyik.Common.{
  ℕ, ◌+◌, ◌≡◌, refl, ap, ◌∙◌, Option, none, some, List, [], ◌∷◌, ◌++◌, Bool, true, false, not, ◌&&◌,
  ◌||◌, if◌then◌else◌, ltb, if-intro, Bytes, codes, arith,
}
use libasyik.Tls.{
  Version, to_openssl, Action, set_min_proto_version, set_max_proto_version, set_client_options,
  set_cipher_list, set_ciphersuites, set_verify_peer, set_verify_none, set_default_verify_paths,
  set_verify_callback, load_verify_file, add_verify_path, add_certificate_authority,
  set_password_callback, use_certificate_chain_file, use_certificate_chain, use_private_key_file,
  use_private_key, check_private_key, InvalidInput, invalid_cipher_list, invalid_ciphersuites,
  key_mismatch, cannot_load, Build, ◌>>◌, when, apply, Identity, ClientConfig, set_versions,
  set_ciphers, load_identity, set_verification, client_identity, client_context, has_cert, has_key,
  given,
}

abbrev pub is_verify_peer : Action → ℕ
is_verify_peer set_verify_peer = 1
is_verify_peer _ = 0

abbrev pub is_verify_none : Action → ℕ
is_verify_none set_verify_none = 1
is_verify_none _ = 0

-- How often the verification of the peer is turned on, and off.
abbrev pub times_on : List Action → ℕ
times_on [] = 0
times_on (a ∷ as') = is_verify_peer a + times_on as'

abbrev pub times_off : List Action → ℕ
times_off [] = 0
times_off (a ∷ as') = is_verify_none a + times_off as'

times_on-append : (xs ys : List Action) → times_on (xs ++ ys) ≡ times_on xs + times_on ys
times_on-append [] ys = omega arith
times_on-append (x ∷ xs) ys = omega (arith, times_on-append xs ys)

times_off-append : (xs ys : List Action) → times_off (xs ++ ys) ≡ times_off xs + times_off ys
times_off-append [] ys = omega arith
times_off-append (x ∷ xs) ys = omega (arith, times_off-append xs ys)

-- Both parts of a sequence that ends well have ended well, and all their calls were made.
pub build_ended :
    (a b : Build) → (a >> b).1 ≡ none → (a.1 ≡ none) × (b.1 ≡ none) × ((a >> b).0 ≡ a.0 ++ b.0)
unfolding ◌>>◌
build_ended (xs, some e) b h = absurd (cc h)
build_ended (xs, none) (ys, e) h = (refl, h, refl)

-- A part that leaves the verification alone.
Quiet : Build → Type 0
Quiet b = (times_on b.0 ≡ 0) × (times_off b.0 ≡ 0)

both-Quiet : (a b : Build) → Quiet a → Quiet b → Quiet (a >> b)
unfolding Quiet ◌>>◌
both-Quiet (xs, some e) b h k = h
both-Quiet (xs, none) (ys, e) h k =
    (omega (arith, h, k, times_on-append xs ys), omega (arith, h, k, times_off-append xs ys))

-- A part that turns the verification on or off, if it ends well.
Sets : (on off : ℕ) → Build → Type 0
Sets on off b = b.1 ≡ none → (times_on b.0 ≡ on) × (times_off b.0 ≡ off)

second-Sets : (on off : ℕ) (a b : Build) → Quiet a → Sets on off b → Sets on off (a >> b)
unfolding Quiet Sets
second-Sets on off a b h k e =
    let (ea, eb, all) = build_ended a b e in
    let (x, y) = k eb in
    (
      ap times_on all ∙ omega (arith, times_on-append a.0 b.0, h, x),
      ap times_off all ∙ omega (arith, times_off-append a.0 b.0, h, y),
    )

first-Sets : (on off : ℕ) (a b : Build) → Sets on off a → Quiet b → Sets on off (a >> b)
unfolding Quiet Sets
first-Sets on off a b h k e =
    let (ea, eb, all) = build_ended a b e in
    let (x, y) = h ea in
    (
      ap times_on all ∙ omega (arith, times_on-append a.0 b.0, k, x),
      ap times_off all ∙ omega (arith, times_off-append a.0 b.0, k, y),
    )

when-Quiet : (c : Bool) (b : Build) → Quiet b → Quiet (when c b)
unfolding Quiet
when-Quiet c b h = if-intro Quiet c (λ _. h) (λ _. (refl, refl))

attempt-Quiet :
    (x : Option InvalidInput) (a : Action)
    → is_verify_peer a ≡ 0
    → is_verify_none a ≡ 0
    → Quiet (a ∷ [], x)
unfolding Quiet
attempt-Quiet x a h k = (omega (arith, h), omega (arith, k))

set_verify_peer-Sets : Sets 1 0 (set_verify_peer ∷ [], none)
unfolding Sets
set_verify_peer-Sets _ = (refl, refl)

set_verify_none-Sets : Sets 0 1 (set_verify_none ∷ [], none)
unfolding Sets
set_verify_none-Sets _ = (refl, refl)

module _ (accepts : Action → Bool) where
  apply-Quiet :
      (e : InvalidInput) (a : Action)
      → is_verify_peer a ≡ 0
      → is_verify_none a ≡ 0
      → Quiet (apply accepts e a)
  unfolding apply
  apply-Quiet e a = attempt-Quiet (if accepts a then none else some e) a

  set_versions-Quiet : (lo hi : Version) → Quiet (set_versions accepts lo hi)
  unfolding set_versions
  set_versions-Quiet lo hi =
      if-intro Quiet (ltb (to_openssl hi) (to_openssl lo)) (λ _. unfold Quiet in (refl, refl))
        (λ _.
          both-Quiet _ _ (attempt-Quiet none (set_min_proto_version (to_openssl lo)) refl refl)
            (attempt-Quiet none (set_max_proto_version (to_openssl hi)) refl refl))

  set_ciphers-Quiet : (l s : Bytes) → Quiet (set_ciphers accepts l s)
  unfolding set_ciphers
  set_ciphers-Quiet l s =
      both-Quiet _ _
        (when-Quiet (given l) _ (apply-Quiet invalid_cipher_list (set_cipher_list l) refl refl))
        (when-Quiet (given s) _ (apply-Quiet invalid_ciphersuites (set_ciphersuites s) refl refl))

  load_identity-Quiet : (i : Identity) → Quiet (load_identity accepts i)
  unfolding load_identity
  load_identity-Quiet i =
      both-Quiet _ _ (attempt-Quiet none (set_password_callback i.key_password) refl refl) (
        both-Quiet _ _
          (if-intro Quiet (given i.cert_file)
            (λ _.
              apply-Quiet (cannot_load (codes "cert_file")) (use_certificate_chain_file i.cert_file)
                refl refl)
            (λ _.
              apply-Quiet (cannot_load (codes "cert_pem")) (use_certificate_chain i.cert_pem) refl
                refl))
          (both-Quiet _ _
            (if-intro Quiet (given i.key_file)
              (λ _.
                apply-Quiet (cannot_load (codes "key_file")) (use_private_key_file i.key_file) refl
                  refl)
              (λ _.
                apply-Quiet (cannot_load (codes "key_pem")) (use_private_key i.key_pem) refl refl))
            (apply-Quiet key_mismatch check_private_key refl refl)))

  client_identity-Quiet : (i : Identity) → Quiet (client_identity accepts i)
  unfolding client_identity
  client_identity-Quiet i =
      if-intro Quiet ((has_cert i && not (has_key i)) || (not (has_cert i) && has_key i))
        (λ _. unfold Quiet in (refl, refl)) (λ _. when-Quiet (has_cert i) _ (load_identity-Quiet i))

  by_mode :
      (on : Bool) (x y : Build)
      → Sets 1 0 x
      → Sets 0 1 y
      → Sets (if on then 1 else 0) (if on then 0 else 1) (if on then x else y)
  by_mode true x y h k = h
  by_mode false x y h k = k

  set_verification-Sets :
      (cfg : ClientConfig)
      → Sets
          (if cfg.verify_peer then 1 else 0)
          (if cfg.verify_peer then 0 else 1)
          (set_verification accepts cfg)
  unfolding set_verification
  set_verification-Sets cfg =
      by_mode cfg.verify_peer _ _
        (first-Sets _ _ _ _ set_verify_peer-Sets (
          both-Quiet _ _
            (when-Quiet cfg.use_system_ca _ (attempt-Quiet none set_default_verify_paths refl refl))
            (both-Quiet _ _
              (when-Quiet (given cfg.ca_file) _ (
                apply-Quiet (cannot_load (codes "ca_file")) (load_verify_file cfg.ca_file) refl
                  refl))
              (both-Quiet _ _
                (when-Quiet (given cfg.ca_path) _ (
                  apply-Quiet (cannot_load (codes "ca_path")) (add_verify_path cfg.ca_path) refl
                    refl))
                (both-Quiet _ _
                  (when-Quiet (given cfg.ca_pem) _ (
                    apply-Quiet (cannot_load (codes "ca_pem"))
                      (add_certificate_authority cfg.ca_pem) refl refl))
                  (when-Quiet cfg.has_verify_callback _
                    (attempt-Quiet none set_verify_callback refl refl)))))))
        set_verify_none-Sets

  -- Whichever calls on the native context succeed, a client context that is made without an
  -- exception has turned the verification of the peer on once and never off if verify_peer is
  -- set, and off once and never on if it is not.
  pub client_context-verify_peer :
      (cfg : ClientConfig)
      → (client_context accepts cfg).1 ≡ none
      → (times_on (client_context accepts cfg).0 ≡ (if cfg.verify_peer then 1 else 0))
        × (times_off (client_context accepts cfg).0 ≡ (if cfg.verify_peer then 0 else 1))
  unfolding client_context Sets
  client_context-verify_peer cfg =
      second-Sets _ _ _ _ (set_versions-Quiet cfg.protocol.min_version cfg.protocol.max_version) (
        second-Sets _ _ _ _ (attempt-Quiet none set_client_options refl refl) (
          second-Sets _ _ _ _ (set_ciphers-Quiet cfg.protocol.cipher_list cfg.protocol.ciphersuites)
            (first-Sets _ _ _ _ (set_verification-Sets cfg) (client_identity-Quiet cfg.identity))))
