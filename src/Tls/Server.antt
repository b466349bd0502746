-- ===== src/Tls/Server.antt =====
-- What a server context of src/tls.cpp is made of when its construction succeeds.
use libasyik.Common.{
  ℕ, zero, suc, inl, inr, bytes_eq, take-append_self, drop-append_self, ◌≡◌, ◌≤◌, refl, sym, ap,
  ◌∙◌, none, List, [], ◌∷◌, ◌++◌, Bool, true, false, not, ◌||◌, if◌then◌else◌, ltb, length, take,
  drop, Bytes, Bool-cases, arith,
}
use libasyik.Tls.Client.{build_ended}
use libasyik.Tls.{
  to_openssl, Action, check_private_key, InvalidInput, Build, done, throw, ◌>>◌, when, given, apply,
  Identity, ServerConfig, set_versions, set_ciphers, load_identity, server_context, has_cert,
  has_key, alpn_wire, min_above_max, key_mismatch, certificate_and_key_needed, invalid_alpn,
}
use libasyik.Tls

-- The names in a wire list of ALPN, RFC 7301: each with its length before it.
pub names_on_wire : (fuel : ℕ) → Bytes → List Bytes
names_on_wire zero _ = []
names_on_wire (suc fuel) [] = []
names_on_wire (suc fuel) (n ∷ rest) = take n rest ∷ names_on_wire fuel (drop n rest)

-- Names that a byte can say the length of, and that are there.
pub AreNames : List Bytes → Type 0
AreNames [] = Unit
AreNames (proto ∷ rest) = (1 ≤ length proto) × (length proto ≤ 255) × AreNames rest

given_long : (s : Bytes) → not (given s) ≡ false → 1 ≤ length s
unfolding bytes_eq
given_long [] h = absurd (cc h)
given_long (x ∷ xs) h = omega arith

or_false : (a b : Bool) → (a || b) ≡ false → (a ≡ false) × (b ≡ false)
or_false true b h = absurd (cc h)
or_false false b h = (refl, h)

le_of_ltb : (a b : ℕ) → ltb a b ≡ false → b ≤ a
le_of_ltb a b h = ground arith

alpn_next :
    (proto : Bytes) (rest : List Bytes)
    → (not (given proto) || ltb 255 (length proto)) ≡ false
    → alpn_wire (proto ∷ rest) ≡ ((alpn_wire rest).0, length proto ∷ (proto ++ (alpn_wire rest).1))
unfolding alpn_wire
alpn_next proto rest h = rw h refl

alpn_bad :
    (proto : Bytes) (rest : List Bytes)
    → (not (given proto) || ltb 255 (length proto)) ≡ true
    → alpn_wire (proto ∷ rest) ≡ (throw (invalid_alpn proto), [])
unfolding alpn_wire
alpn_bad proto rest h = rw h refl

names_of_wire :
    (names : List Bytes)
    → (alpn_wire names).0.1 ≡ none
    → AreNames names × (names_on_wire (length names) (alpn_wire names).1 ≡ names)
unfolding AreNames names_on_wire
names_of_wire [] h = (tt, unfold alpn_wire in refl)
names_of_wire (proto ∷ rest) h = elim (Bool-cases (not (given proto) || ltb 255 (length proto))) [
  | inl e ↦ absurd (cc (sym (ap (λ w. w.0.1) (alpn_bad proto rest e)) ∙ h))
  | inr e ↦
      let (a, b) = or_false (not (given proto)) (ltb 255 (length proto)) e in
      let step = alpn_next proto rest e in
      let (n, w) = names_of_wire rest (sym (ap (λ w. w.0.1) step) ∙ h) in
      (
        (given_long proto a, le_of_ltb 255 (length proto) b, n),
        ap (λ w. names_on_wire (suc (length rest)) w.1) step
            ∙ ap
                (λ t.
                  t
                  ∷ names_on_wire (length rest) (drop (length proto) (proto ++ (alpn_wire rest).1)))
                (take-append_self proto (alpn_wire rest).1)
            ∙ ap (λ t. proto ∷ names_on_wire (length rest) t)
                (drop-append_self proto (alpn_wire rest).1)
            ∙ ap (◌∷◌ proto) w,
      )
]

apply_ended :
    (accepts : Action → Bool) (e : InvalidInput) (a : Action)
    → (apply accepts e a).1 ≡ none
    → accepts a ≡ true
unfolding apply
apply_ended accepts e a h = ground arith

first_ended : (a b : Build) → (a >> b).1 ≡ none → a.1 ≡ none
first_ended a b h = let (x, y, z) = build_ended a b h in x

second_ended : (a b : Build) → (a >> b).1 ≡ none → b.1 ≡ none
second_ended a b h = let (x, y, z) = build_ended a b h in y

guard_ended :
    (c : Bool) (e : InvalidInput) (b : Build) → (if c then throw e else b).1 ≡ none → c ≡ false
guard_ended true e b h = absurd (cc h)
guard_ended false e b h = refl

versions_ended :
    (accepts : Action → Bool) (lo hi : Tls.Version)
    → (set_versions accepts lo hi).1 ≡ none
    → to_openssl lo ≤ to_openssl hi
unfolding set_versions
versions_ended accepts lo hi h =
    le_of_ltb (to_openssl hi) (to_openssl lo)
      (guard_ended (ltb (to_openssl hi) (to_openssl lo)) min_above_max _ h)

needs_identity :
    (c k : Bool) (b : Build)
    → (if not c || not k then throw certificate_and_key_needed else b).1 ≡ none
    → (c ≡ true) × (k ≡ true) × (b.1 ≡ none)
needs_identity true true b h = (refl, refl, h)
needs_identity true false b h = absurd (cc h)
needs_identity false k b h = absurd (cc h)

identity_checked :
    (accepts : Action → Bool) (i : Identity)
    → (load_identity accepts i).1 ≡ none
    → accepts check_private_key ≡ true
unfolding load_identity
identity_checked accepts i h =
    apply_ended accepts key_mismatch check_private_key
      (second_ended _ _ (second_ended _ _ (second_ended _ _ h)))

-- Whichever calls on the native context succeed, a server context that is made without an
-- exception has a minimal version that is not above the maximal one, a certificate, a key that
-- was found to fit it, and ALPN names of 1 to 255 bytes that are read back from the list on the
-- wire.
pub server_context_lem :
    (accepts : Action → Bool) (cfg : ServerConfig)
    → (server_context accepts cfg).1 ≡ none
    → (to_openssl cfg.protocol.min_version ≤ to_openssl cfg.protocol.max_version)
      × (has_cert cfg.identity ≡ true)
      × (has_key cfg.identity ≡ true)
      × (accepts check_private_key ≡ true)
      × AreNames cfg.alpn
      × (names_on_wire (length cfg.alpn) (alpn_wire cfg.alpn).1 ≡ cfg.alpn)
unfolding server_context
server_context_lem accepts cfg h =
    let v = first_ended _ _ h in
    let rest = second_ended _ _ (second_ended _ _ (second_ended _ _ (second_ended _ _ h))) in
    let (c, k, i) =
      needs_identity (has_cert cfg.identity) (has_key cfg.identity)
        (load_identity accepts cfg.identity) (first_ended _ _ rest) in
    let (n, w) =
      names_of_wire cfg.alpn (first_ended _ _ (second_ended _ _ (second_ended _ _ rest))) in
    (
      versions_ended accepts cfg.protocol.min_version cfg.protocol.max_version v,
      c,
      k,
      identity_checked accepts cfg.identity i,
      n,
      w,
    )
