-- ===== src/HttpClient.antt =====
-- The client of include/libasyik/http.hpp: one request, its answer, and the retry with
-- credentials. What the network does is the parameter `server`, which answers the requests in
-- their order; the search of multipart parts is in the child Multipart.
pub mod Multipart
pub mod Chunks
pub mod Address
pub mod Retry
pub mod Parts
pub mod Ending
pub mod Sending
pub mod Connecting
mod Request
mod Tests
unfoldable pub use Request.*
use libasyik.Common.{
  ℕ, zero, suc, ◌+◌, Option, none, some, List, [], ◌∷◌, ◌++◌, Bool, true, false, not, ◌&&◌, ◌||◌,
  if◌then◌else◌, ◌==◌, Bytes, codes, bytes_eq, to_string, length, or_else,
}
use mathlib.Core.Option
use libasyik.HttpClient.Address.{Url, UrlScheme, http_analyze_url}
use libasyik.HttpClient.Multipart.{
  Found, is_found, after_first, deduce_boundary, find_multipart_boundary,
}
use libasyik.Digest.{Authenticator, generate_authorization}

abbrev pub is_some : Option Bytes → Bool
is_some none = false
is_some (some _) = true

-- The header of an answer, what its body reads as, if it can be read, and what stands and comes
-- in the stream for a multipart answer, in pieces, until the server ends or closes it: an answer is
-- finite. `is_written` says that the request was written whole.
pub record Reply : Type 0 where
  pub result : ℕ
  pub www_authenticate : Bytes
  pub content_type : Option Bytes
  pub body : Option Bytes
  pub buffer : Bytes
  pub stream : List Bytes
  pub is_written : Bool

-- A part of a multipart answer as Beast reads it.
pub data PartRead : Type 0 where
  part_failed no_content_length : PartRead
  part : (body buffer : Bytes) (stream : List Bytes) → PartRead

pub data Exception : Type 0 where
  network_error no_boundary no_length callback_error : Exception

-- The response that is stored, with the parts that the callback was given, or an exception; or
-- the exception `digest_authenticator`, which asks for a retry.
pub data Handled : Type 0 where
  stored : (result : ℕ) (body : Bytes) (parts : List Bytes) → Handled
  thrown : Exception → List Bytes → Handled
  challenged : (authorization : Bytes) (count : ℕ) → Handled

pub data Result : Type 0 where
  null : Result
  response : (result : ℕ) (body : Bytes) (parts : List Bytes) → Result
  error : Exception → List Bytes → Result

-- The parts of an answer; `callback` says of a part whether `f` returns. One more than the bytes
-- that are left is fuel enough, where `read_part` gives back no more than it was given.
module _ (read_part : (status : ℕ) (buffer : Bytes) (stream : List Bytes) → PartRead)
    (callback : Bytes → Bool) where
  -- What is done with a part, and with what the search finds; `again` goes on.
  abbrev pub take_part :
      (again : Bytes → List Bytes → Option (List Bytes × Option Exception))
      → PartRead
      → Option (List Bytes × Option Exception)
  take_part again part_failed = some ([], some network_error)
  take_part again no_content_length = some ([], some no_length)
  take_part again (part body buffer stream) =
      if callback body
      then Option.map (λ (r : List Bytes × Option Exception). (body ∷ r.0, r.1))
          (again buffer stream)
      else some (body ∷ [], some callback_error)

  abbrev pub take_found :
      (status : ℕ) (again : Bytes → List Bytes → Option (List Bytes × Option Exception))
      → Option Found
      → Option (List Bytes × Option Exception)
  take_found status again none = some ([], some network_error)
  take_found status again (some found) =
      if not found.more
      then some ([], none)
      else take_part again (read_part status found.buffer found.stream)

  unfoldable pub read_parts :
      (fuel status : ℕ) (boundary buffer : Bytes) (stream : List Bytes)
      → Option (List Bytes × Option Exception)
  read_parts zero status boundary buffer stream = none
  read_parts (suc fuel) status boundary buffer stream =
      take_found status (read_parts fuel status boundary)
        (find_multipart_boundary boundary stream buffer)

-- The bytes that are still to be read.
abbrev pub left_over : Bytes → List Bytes → ℕ
left_over buffer [] = length buffer
left_over buffer (b ∷ stream) = length b + left_over buffer stream

-- What both exchanges use: comparison of texts, what Beast makes of the headers, the search of sections and the hashes of the
-- digest, and the random text of the client for its n-th request.
pub record Digests : Type 0 where
  pub iequals : Bytes → Bytes → Bool
  pub prepare_payload : (method body : Bytes) → Headers → Headers
  pub section : (key header : Bytes) → Option (ℕ × ℕ)
  pub md5 : Bytes → Bytes
  pub hex_encode : Bytes → Bytes
  pub cnonce : ℕ → Bytes

-- What becomes of a call; `again` is the call for the retry, outside the `catch`.
abbrev pub retry :
    HttpRequest
    → (again : Bytes → ℕ → List HttpRequest × Option Result) → Option Handled
    → List HttpRequest × Option Result
retry req again none = (req ∷ [], none)
retry req again (some (stored result body parts)) = (req ∷ [], some (response result body parts))
retry req again (some (thrown e parts)) = (req ∷ [], some (error e parts))
retry req again (some (challenged authorization count)) =
    let (sent, result) = again authorization count in (req ∷ sent, result)

module _ (d : Digests) where
  pub authenticator : UrlScheme → HttpRequest → Reply → (body : Bytes) → Authenticator
  authenticator s req reply body = record {
    authenticate = reply.www_authenticate;
    username = s.username;
    password = s.password;
    uri = s.target;
    method = req.method;
    body = body;
  }

  unfoldable pub handle_client_auth : UrlScheme → HttpRequest → Reply → (n count : ℕ) → Handled
  handle_client_auth s req reply n count = elim reply.body [
    | none ↦ thrown network_error []
    | some body ↦
        let (answer, count') =
          generate_authorization d.section d.iequals d.md5 d.hex_encode
            (authenticator s req reply body) (d.cnonce n) count in
        elim answer [
          | none ↦ stored reply.result body []
          | some authorization ↦
              if reply.is_written then challenged authorization count' else thrown network_error []
        ]
  ]

  module _ (read_part : (status : ℕ) (buffer : Bytes) (stream : List Bytes) → PartRead)
      (callback : Bytes → Bool) where
    -- `none` where the fuel runs out; a reply that is `none` is an exception of the network.
    unfoldable pub handle_client_request_response :
        UrlScheme
        → HttpRequest
        → (reply : Option Reply) (try_auth : Bool) (n count : ℕ) → Option Handled
    handle_client_request_response s req none try_auth n count = some (thrown network_error [])
    handle_client_request_response s req (some reply) try_auth n count =
        let multipart =
          is_found (after_first (codes "multipart") (Option.get_or reply.content_type [])) in
        if try_auth
          && (reply.result == 401)
          && not (bytes_eq s.username [])
          && not (bytes_eq s.password [])
        then some (handle_client_auth s req reply n count)
        else if multipart
        then elim (deduce_boundary (Option.get_or reply.content_type [])) [
          | none ↦ some (thrown no_boundary [])
          | some boundary ↦
              Option.map
                (λ (r : List Bytes × Option Exception). elim r.1 [
                  | none ↦ stored reply.result [] r.0
                  | some e ↦ thrown e r.0
                ])
                (read_parts read_part callback (suc (left_over reply.buffer reply.stream))
                  reply.result boundary reply.buffer reply.stream)
        ]
        else elim reply.body [
          | none ↦ some (thrown network_error [])
          | some body ↦ some (stored reply.result body [])
        ]

    -- The requests that are sent, and the result, unless the fuel runs out. `server n` is the
    -- reply to the n-th request, and `none` also where nothing can be resolved or connected.
    module _ (parse_uri : Bytes → Option Url) (version : Bytes)
        (server : ℕ → HttpRequest → Option Reply) where
      unfoldable pub http_easy_request_multipart :
          (fuel : ℕ) (method url body : Bytes) (headers : Headers) (auth : Option Bytes)
          (n count : ℕ)
          → List HttpRequest × Option Result
      http_easy_request_multipart zero method url body headers auth n count = ([], none)
      http_easy_request_multipart (suc fuel) method url body headers auth n count =
          elim (http_analyze_url parse_uri url) [
            | none ↦ ([], some null)
            | some s ↦
                let req =
                  make_request d.iequals d.prepare_payload version s method body headers auth in
                retry req
                  (λ authorization count'.
                    http_easy_request_multipart fuel method url body headers (some authorization)
                      (n + 1) count')
                  (handle_client_request_response s req (server n req) (not (is_some auth)) n count)
          ]

-- `http_easy_request`: a part is an error, since its callback throws.
pub http_easy_request :
    (d : Digests) (read_part : (status : ℕ) (buffer : Bytes) (stream : List Bytes) → PartRead)
    (parse_uri : Bytes → Option Url) (version : Bytes) (server : ℕ → HttpRequest → Option Reply)
    (fuel : ℕ) (method url body : Bytes) (headers : Headers) (n count : ℕ)
    → List HttpRequest × Option Result
http_easy_request d read_part parse_uri version server fuel method url body headers n count =
    http_easy_request_multipart d read_part (λ _. false) parse_uri version server fuel method url
      body headers none n count
