-- ===== src/HttpClient/Request.antt =====
-- The request that `http_easy_request_multipart` of include/libasyik/http.hpp makes, of a method
-- that Beast knows.
use libasyik.Common.{
  Option, none, some, List, [], ◌∷◌, ◌++◌, Bool, true, false, not, ◌&&◌, ◌||◌, if◌then◌else◌, ◌==◌,
  Bytes, codes, bytes_eq, to_string, or_else,
}
use libasyik.HttpClient.Address.{UrlScheme}

-- The calls `headers.set(name, value)` in their order: the last one of a name counts.
abbrev pub Headers : Type 0
Headers = List (Bytes × Bytes)

-- The request that is sent.
pub record HttpRequest : Type 0 where
  pub method : Bytes
  pub target : Bytes
  pub headers : Headers
  pub body : Bytes

abbrev pub host_header : UrlScheme → Bytes
host_header s =
    if (s.port == 80) || (s.port == 443) then s.host else s.host ++ (codes ":" ++ to_string s.port)

abbrev pub auth_headers : (auth : Option Bytes) → Headers
auth_headers none = []
auth_headers (some authorization) =
    (codes "Accept-Encoding", codes "identity") ∷ (codes "Authorization", authorization) ∷ []

module _ (iequals : Bytes → Bytes → Bool) where
  unfoldable pub header : (name : Bytes) → Headers → Option Bytes
  header name [] = none
  header name ((n, v) ∷ hs) = or_else (header name hs) (if iequals n name then some v else none)

  abbrev pub is_set : (name : Bytes) → Headers → Bool
  is_set name hs = elim (header name hs) [ none ↦ false | some _ ↦ true ]

  -- `prepare_payload` of Beast is a parameter: what it makes of the headers for a method and a body.
  unfoldable pub make_request :
      (prepare_payload : (method body : Bytes) → Headers → Headers) (version : Bytes)
      → UrlScheme
      → (method body : Bytes) (headers : Headers) (auth : Option Bytes) → HttpRequest
  make_request prepare_payload version s method body headers auth =
      let own =
        (codes "Host", host_header s)
        ∷ (codes "User-Agent", version)
        ∷ (codes "Accept", codes "*/*")
        ∷ [] in
      let given = own ++ (auth_headers auth ++ headers) in
      let typed =
        if not (bytes_eq body []) && not (is_set (codes "Content-Type") given)
        then given ++ ((codes "Content-Type", codes "text/html") ∷ [])
        else given in
      record {
        method = method;
        target = if bytes_eq s.target [] then codes "/" else s.target;
        headers =
            prepare_payload method body (typed ++ ((codes "Connection", codes "Keep-Alive") ∷ []));
        body = body;
      }
