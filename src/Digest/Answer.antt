-- ===== src/Digest/Answer.antt =====
-- The answer of include/libasyik/internal/digestauth.hpp, against the formulas of RFC 2617.
use libasyik.Common.{
  ℕ, ◌≡◌, ◌⊎◌, refl, inl, inr, Option, none, List, [], ◌∷◌, ◌++◌, Bool, if◌then◌else◌, Option-cases,
  Bytes, codes,
}
use libasyik.Digest.{
  QualityOfProtection, none_given, auth, auth_int, Authenticator, Challenge, colon, find_section,
  find_challenge, generate_authorization,
}

-- `unq(…) ":" unq(…)`, the notation of the RFC.
abbrev pub colons : List Bytes → Bytes
colons [] = []
colons (t ∷ []) = t
colons (t ∷ u ∷ ts) = t ++ (colon ++ colons (u ∷ ts))

module _ (iequals : Bytes → Bytes → Bool) (md5 hex_encode : Bytes → Bytes) where
  -- H and KD
  abbrev pub hash : Bytes → Bytes
  hash t = hex_encode (md5 t)

  abbrev pub keyed : (secret text : Bytes) → Bytes
  keyed secret text = hash (colons (secret ∷ text ∷ []))

  abbrev pub a1 : Authenticator → Challenge → (cnonce : Bytes) → Bytes
  a1 a c cnonce =
      let plain = colons (a.username ∷ c.realm ∷ a.password ∷ []) in
      if iequals c.algorithm (codes "md5-sess")
      then colons (hash plain ∷ c.nonce ∷ cnonce ∷ [])
      else plain

  abbrev pub a2 : QualityOfProtection → Authenticator → Bytes
  a2 none_given a = colons (a.method ∷ a.uri ∷ [])
  a2 auth a = colons (a.method ∷ a.uri ∷ [])
  a2 auth_int a = colons (a.method ∷ a.uri ∷ hash a.body ∷ [])

  -- The response that a server computes from the fields that it is sent.
  abbrev pub request_digest : QualityOfProtection → (nonce nc cnonce ha1 ha2 : Bytes) → Bytes
  request_digest none_given nonce nc cnonce ha1 ha2 = keyed ha1 (colons (nonce ∷ ha2 ∷ []))
  request_digest auth nonce nc cnonce ha1 ha2 =
      keyed ha1 (colons (nonce ∷ nc ∷ cnonce ∷ codes "auth" ∷ ha2 ∷ []))
  request_digest auth_int nonce nc cnonce ha1 ha2 =
      keyed ha1 (colons (nonce ∷ nc ∷ cnonce ∷ codes "auth-int" ∷ ha2 ∷ []))

  abbrev pub rfc_response : Authenticator → Challenge → (nc cnonce : Bytes) → Bytes
  rfc_response a c nc cnonce =
      request_digest c.qop c.nonce nc cnonce (hash (a1 a c cnonce)) (hash (a2 c.qop a))

  module _ (section : (key header : Bytes) → Option (ℕ × ℕ)) (a : Authenticator) (cnonce : Bytes)
      (count : ℕ) where
    -- There is no answer.
    generate_authorization_fails :
        (section (codes "nonce") a.authenticate ≡ none)
          ⊎ (section (codes "realm") a.authenticate ≡ none)
        → generate_authorization section iequals md5 hex_encode a cnonce count ≡ (none, count)
    unfolding generate_authorization find_challenge find_section
    generate_authorization_fails (inl e) =
        rw (generate_authorization, find_challenge, find_section, e) refl
    generate_authorization_fails (inr e) =
        elim (Option-cases (section (codes "nonce") a.authenticate)) [
          | inl f ↦ rw (generate_authorization, find_challenge, find_section, f) refl
          | inr (m, f) ↦ rw (generate_authorization, find_challenge, find_section, f, e) refl
        ]
