-- ===== src/HttpClient/Sending.antt =====
-- What the headers of a request of include/libasyik/http.hpp are.
use libasyik.Common.{
  ◌≡◌, refl, sym, ◌∙◌, inl, inr, or_else, Option, none, some, [], ◌∷◌, ◌++◌, Bool, true, false, not,
  ◌&&◌, if◌then◌else◌, Bytes, codes, bytes_eq, Bool-cases, if-intro,
}
use libasyik.HttpClient.Address.{UrlScheme}
use libasyik.HttpClient.{Headers, header, is_set, host_header, auth_headers, make_request}

module _ (iequals : Bytes → Bytes → Bool) where
  -- A header that is set last of its name is what the name says.
  header_last :
      (name : Bytes) (hs more : Headers) (v : Bytes)
      → header iequals name more ≡ some v
      → header iequals name (hs ++ more) ≡ some v
  unfolding header
  header_last name [] more v h = h
  header_last name ((n, w) ∷ hs) more v h = rw (header_last name hs more v h) refl

  pub header_first :
      (name : Bytes) (hs more : Headers)
      → header iequals name more ≡ none
      → header iequals name (hs ++ more) ≡ header iequals name hs
  unfolding header
  header_first name [] more h = h
  header_first name ((n, w) ∷ hs) more h = rw (header_first name hs more h) refl

  pub header_one :
      (name n v : Bytes) → iequals n name ≡ false → header iequals name ((n, v) ∷ []) ≡ none
  unfolding header
  header_one name n v h = rw h refl

  header_same :
      (a b : Bytes) (hs : Headers)
      → ((x : Bytes) → iequals x a ≡ iequals x b)
      → header iequals a hs ≡ header iequals b hs
  unfolding header
  header_same a b [] same = refl
  header_same a b ((n, w) ∷ hs) same = rw (or_else, header_same a b hs same, same n) refl

  abbrev content_type : Bytes
  content_type = codes "Content-Type"

  -- The default of the content type gives way.
  typed_lem :
      (given : Headers) (name v t : Bytes) (nonempty : Bool)
      → ((a b x : Bytes) → iequals a b ≡ true → iequals x a ≡ iequals x b)
      → header iequals name given ≡ some v
      → header iequals name (
          if nonempty && not (is_set iequals content_type given)
          then given ++ ((content_type, t) ∷ [])
          else given)
        ≡ some v
  typed_lem given name v t nonempty same h =
      if-intro (λ (hs : Headers). header iequals name hs ≡ some v)
        (nonempty && not (is_set iequals content_type given))
        (λ absent. elim (Bool-cases (iequals content_type name)) [
          | inl e ↦
              let there : header iequals content_type given ≡ some v =
                header_same content_type name given (λ x. same content_type name x e) ∙ h in
              absurd (cc (sym absent ∙ set_there given nonempty v there))
          | inr e ↦
              header_first name given ((content_type, t) ∷ []) (header_one name content_type t e)
              ∙ h
        ])
        (λ _. h)
    where
      set_there :
          (hs : Headers) (b : Bool) (w : Bytes)
          → header iequals content_type hs ≡ some w
          → (b && not (is_set iequals content_type hs)) ≡ false
      set_there hs true w e = rw (not, is_set, e) refl
      set_there hs false w e = refl

  -- Where names are compared by an equivalence, and the preparing of the payload changes no
  -- header but Content-Length and Transfer-Encoding, a header of the caller, of any name but
  -- these two and Connection, is what the request says under that name.
  pub make_request-header :
      (prepare_payload : (method body : Bytes) → Headers → Headers) (version : Bytes)
      (s : UrlScheme) (method body : Bytes) (headers : Headers) (auth : Option Bytes)
      (name v : Bytes)
      → ((a b x : Bytes) → iequals a b ≡ true → iequals x a ≡ iequals x b)
      → ((n m b : Bytes) (hs : Headers)
          → iequals (codes "Content-Length") n ≡ false
          → iequals (codes "Transfer-Encoding") n ≡ false
          → header iequals n (prepare_payload m b hs) ≡ header iequals n hs)
      → iequals (codes "Connection") name ≡ false
      → iequals (codes "Content-Length") name ≡ false
      → iequals (codes "Transfer-Encoding") name ≡ false
      → header iequals name headers ≡ some v
      → header iequals name
          (make_request iequals prepare_payload version s method body headers auth).headers
        ≡ some v
  unfolding make_request
  make_request-header prepare_payload version s method body headers auth name v same prepares other
        length_other coding_other h =
      let own =
        (codes "Host", host_header s)
        ∷ (codes "User-Agent", version)
        ∷ (codes "Accept", codes "*/*")
        ∷ [] in
      let given = own ++ (auth_headers auth ++ headers) in
      prepares name method body _ length_other coding_other
      ∙ header_first name _ ((codes "Connection", codes "Keep-Alive") ∷ [])
          (header_one name (codes "Connection") (codes "Keep-Alive") other)
      ∙ typed_lem given name v (codes "text/html") (not (bytes_eq body [])) same (
          header_last name own (auth_headers auth ++ headers) v
            (header_last name (auth_headers auth) headers v h))
