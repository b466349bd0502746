-- ===== src/Digest.antt =====
-- include/libasyik/internal/digestauth.hpp: the answer to a digest challenge. The search for
-- "key=([^,]+)" with Boost.Regex is a parameter: it answers with the place of the group and its
-- length. So are MD5, the hexadecimal text of a hash and boost::iequals.
pub mod Section
pub mod Answer
mod Tests
use libasyik.Common.{
  ℕ, suc, ◌+◌, ◌-◌, ◌%◌, Option, none, some, List, [], ◌∷◌, ◌++◌, Bool, true, false, not, ◌&&◌,
  if◌then◌else◌, ◌>>=◌, take, drop, Bytes, codes, bytes_eq, begins_with, to_string,
}
use mathlib.Core.Option

abbrev pub size_mod : ℕ
size_mod = 18446744073709551616

abbrev pub u32_mod : ℕ
u32_mod = 4294967296

-- The byte '"' at a place.
pub quote_at : ℕ → Bytes → Bool
quote_at i s = begins_with (34 ∷ []) (drop i s)

-- The end of `findSection`: the place and the size of the value, a `std::size_t`.
pub trim_quotes : Bytes → (first size : ℕ) → ℕ × ℕ
trim_quotes header first size =
    let front = quote_at first header in
    let back = quote_at (first + size - 1) header in
    let size' = if front then (size + size_mod - 1) % size_mod else size in
    (if front then first + 1 else first, if back then (size' + size_mod - 1) % size_mod else size')

-- The text of a view, which lies inside the header.
abbrev pub view_text : Bytes → ℕ × ℕ → Bytes
view_text header v = take v.1 (drop v.0 header)

pub data QualityOfProtection : Type 0 where
  none_given auth auth_int : QualityOfProtection

pub record Authenticator : Type 0 where
  pub authenticate : Bytes
  pub username : Bytes
  pub password : Bytes
  pub uri : Bytes
  pub method : Bytes
  pub body : Bytes

-- What is found in the challenge; what is not there is empty.
pub record Challenge : Type 0 where
  pub nonce : Bytes
  pub realm : Bytes
  pub opaque : Bytes
  pub algorithm : Bytes
  pub qop : QualityOfProtection

abbrev pub colon : Bytes
colon = 58 ∷ []

-- The texts of successive calls of `MD5_Update`, or of `append`.
abbrev pub updates : List Bytes → Bytes
updates [] = []
updates (t ∷ ts) = t ++ updates ts

-- What an answer with a quality of protection has more.
abbrev pub body_part : QualityOfProtection → (body : Bytes) → List Bytes
body_part none_given body = []
body_part auth body = []
body_part auth_int body = colon ∷ body ∷ []

abbrev pub quality_part : QualityOfProtection → (nonce_count cnonce : Bytes) → List Bytes
quality_part none_given nonce_count cnonce = []
quality_part auth nonce_count cnonce =
    nonce_count ∷ colon ∷ cnonce ∷ colon ∷ codes "auth" ∷ colon ∷ []
quality_part auth_int nonce_count cnonce =
    nonce_count ∷ colon ∷ cnonce ∷ colon ∷ codes "auth-int" ∷ colon ∷ []

abbrev pub announced_part : QualityOfProtection → (nonce_count cnonce : Bytes) → List Bytes
announced_part none_given nonce_count cnonce = codes "\", algorithm=MD5, response=\"" ∷ []
announced_part auth nonce_count cnonce =
    codes "\", qop="
    ∷ codes "auth"
    ∷ codes ", algorithm=MD5, nc="
    ∷ nonce_count
    ∷ codes ", cnonce=\""
    ∷ cnonce
    ∷ codes "\", response=\""
    ∷ []
announced_part auth_int nonce_count cnonce =
    codes "\", qop="
    ∷ codes "auth-int"
    ∷ codes ", algorithm=MD5, nc="
    ∷ nonce_count
    ∷ codes ", cnonce=\""
    ∷ cnonce
    ∷ codes "\", response=\""
    ∷ []

pub calculate_ha1 :
    (iequals : Bytes → Bytes → Bool) (md5 : Bytes → Bytes)
    → Authenticator
    → Challenge
    → (cnonce : Bytes) → Bytes
calculate_ha1 iequals md5 a c cnonce =
    let ha1 = md5 (updates (a.username ∷ colon ∷ c.realm ∷ colon ∷ a.password ∷ [])) in
    if iequals c.algorithm (codes "md5-sess")
    then md5 (updates (ha1 ∷ colon ∷ c.nonce ∷ colon ∷ cnonce ∷ []))
    else ha1

pub calculate_ha2 : (md5 : Bytes → Bytes) → Authenticator → Challenge → Bytes
calculate_ha2 md5 a c = md5 (updates (a.method ∷ colon ∷ a.uri ∷ body_part c.qop a.body))

pub calculate_response :
    (md5 : Bytes → Bytes) → Challenge → (ha1 ha2 nonce_count cnonce : Bytes) → Bytes
calculate_response md5 c ha1 ha2 nonce_count cnonce = md5 (
    updates
      (ha1 ∷ colon ∷ c.nonce ∷ colon ∷ updates (quality_part c.qop nonce_count cnonce) ∷ ha2 ∷ []))

pub authorization_text : Authenticator → Challenge → (response nonce_count cnonce : Bytes) → Bytes
authorization_text a c response nonce_count cnonce = updates (
    codes "Digest username=\""
    ∷ a.username
    ∷ codes "\", realm=\""
    ∷ c.realm
    ∷ codes "\", nonce=\""
    ∷ c.nonce
    ∷ codes "\", uri=\""
    ∷ a.uri
    ∷ updates (announced_part c.qop nonce_count cnonce)
    ∷ response
    ∷ (if bytes_eq c.opaque [] then [] else codes "\", opaque=\"" ++ c.opaque)
    ∷ codes "\""
    ∷ [])

module _ (section : (key header : Bytes) → Option (ℕ × ℕ)) where
  pub find_section : (key header : Bytes) → Option (ℕ × ℕ)
  find_section key header =
      Option.map (λ (m : ℕ × ℕ). trim_quotes header m.0 m.1) (section key header)

  abbrev pub section_text : (key header : Bytes) → Option Bytes
  section_text key header = Option.map (view_text header) (find_section key header)

  module _ (iequals : Bytes → Bytes → Bool) where
    pub find_qop : Authenticator → QualityOfProtection
    find_qop a = elim (section_text (codes "qop") a.authenticate) [
      | none ↦ none_given
      | some qop ↦
          if iequals qop (codes "auth-int") && not (bytes_eq a.body []) then auth_int else auth
    ]

    -- `none` is the `false` of `generateAuthorization`.
    pub find_challenge : Authenticator → Option Challenge
    find_challenge a = do
      nonce ← section_text (codes "nonce") a.authenticate
      realm ← section_text (codes "realm") a.authenticate
      some (record {
        nonce = nonce;
        realm = realm;
        opaque = Option.get_or (section_text (codes "opaque") a.authenticate) [];
        algorithm = Option.get_or (section_text (codes "algorithm") a.authenticate) [];
        qop = find_qop a;
      })

    -- `cnonce` is the random text of `generateNonce`; the static counter of `updateNonceCount` is
    -- passed on.
    pub generate_authorization :
        (md5 hex_encode : Bytes → Bytes)
        → Authenticator
        → (cnonce : Bytes) → (count : ℕ) → Option Bytes × ℕ
    generate_authorization md5 hex_encode a cnonce count = elim (find_challenge a) [
      | none ↦ (none, count)
      | some c ↦
          let count' = suc count % u32_mod in
          let nc = to_string count' in
          let ha1 = hex_encode (calculate_ha1 iequals md5 a c cnonce) in
          let ha2 = hex_encode (calculate_ha2 md5 a c) in
          (
            some (
                authorization_text a c (hex_encode (calculate_response md5 c ha1 ha2 nc cnonce)) nc
                  cnonce),
            count',
          )
    ]
