-- ===== src/HttpClient/Retry.antt =====
-- How often the client of include/libasyik/http.hpp sends a request, and what it sends then.
use libasyik.Common.{
  ℕ, suc, ◌+◌, ◌≡◌, refl, sym, ap, ◌∙◌, subst, Option, none, some, List, [], ◌∷◌, Bool, true, false,
  not, ◌&&◌, ◌==◌, Bytes, codes, bytes_eq, arith, if-intro,
}
use mathlib.Core.Option
use libasyik.HttpClient.Address.{Url, UrlScheme, http_analyze_url}
use libasyik.HttpClient.Multipart.{is_found, after_first, deduce_boundary}
use libasyik.HttpClient.{
  Headers, HttpRequest, make_request, Reply, PartRead, Exception, Handled, stored, thrown,
  challenged, Result, retry, read_parts, left_over, Digests, handle_client_request_response,
  http_easy_request_multipart, network_error, no_boundary, is_some,
}

-- A request without credentials, and perhaps the same with them.
pub data Sent (make : Option Bytes → HttpRequest) (asked : Bool) : List HttpRequest → Type 0 where
  once : Sent make asked (make none ∷ [])
  twice :
      (authorization : Bytes)
      → asked ≡ true
      → Sent make asked (make none ∷ make (some authorization) ∷ [])

abbrev pub is_plain : Option Handled → Bool
is_plain (some (challenged a c)) = false
is_plain _ = true

parts_plain :
    (result : ℕ) (o : Option (List Bytes × Option Exception))
    → is_plain (
        Option.map
          (λ (r : List Bytes × Option Exception). elim r.1 [
            | none ↦ stored result [] r.0
            | some e ↦ thrown e r.0
          ])
          o)
      ≡ true
parts_plain result none = refl
parts_plain result (some (parts, none)) = refl
parts_plain result (some (parts, some e)) = refl

body_plain :
    (result : ℕ) (body : Option Bytes)
    → is_plain
        (elim body [ none ↦ some (thrown network_error []) | some b ↦ some (stored result b []) ])
      ≡ true
body_plain result none = refl
body_plain result (some b) = refl

module _ (d : Digests) (read_part : (status : ℕ) (buffer : Bytes) (stream : List Bytes) → PartRead)
    (callback : Bytes → Bool) where
  -- Whether a reply asks for credentials that the address has.
  abbrev pub asks : UrlScheme → Option Reply → Bool
  asks s none = false
  asks s (some reply) =
      (reply.result == 401) && not (bytes_eq s.username []) && not (bytes_eq s.password [])

  abbrev pub handle : UrlScheme → HttpRequest → Option Reply → Bool → ℕ → ℕ → Option Handled
  handle = handle_client_request_response d read_part callback

  pub handle_plain :
      (s : UrlScheme) (req : HttpRequest) (reply : Option Reply) (try_auth : Bool) (n count : ℕ)
      → (try_auth && asks s reply) ≡ false
      → is_plain (handle s req reply try_auth n count) ≡ true
  unfolding handle_client_request_response
  handle_plain s req none try_auth n count h = refl
  handle_plain s req (some reply) try_auth n count h =
      let P = λ (x : Option Handled). is_plain x ≡ true in
      if-intro P
        (try_auth
          && (reply.result == 401)
          && not (bytes_eq s.username [])
          && not (bytes_eq s.password []))
        (λ t. absurd (ground (arith, t, h)))
        (λ _.
          if-intro P
            (is_found (after_first (codes "multipart") (Option.get_or reply.content_type [])))
            (λ _.
              elim (deduce_boundary (Option.get_or reply.content_type []))
                as (λ b. P (elim b [
                  | none ↦ some (thrown no_boundary [])
                  | some boundary ↦
                      Option.map
                        (λ (r : List Bytes × Option Exception). elim r.1 [
                          | none ↦ stored reply.result [] r.0
                          | some e ↦ thrown e r.0
                        ])
                        (read_parts read_part callback (suc (left_over reply.buffer reply.stream))
                          reply.result boundary reply.buffer reply.stream)
                ])) [
                  | none ↦ refl
                  | some boundary ↦ parts_plain reply.result (
                      read_parts read_part callback (suc (left_over reply.buffer reply.stream))
                        reply.result boundary reply.buffer reply.stream)
                ])
            (λ _. body_plain reply.result reply.body))

  module _ (parse_uri : Bytes → Option Url) (version : Bytes)
      (server : ℕ → HttpRequest → Option Reply) (method url body : Bytes) (headers : Headers) where
    abbrev pub easy :
        (fuel : ℕ) (auth : Option Bytes) (n count : ℕ) → List HttpRequest × Option Result
    easy fuel auth n count =
        http_easy_request_multipart d read_part callback parse_uri version server fuel method url
          body headers auth n count

    abbrev pub made : UrlScheme → Option Bytes → HttpRequest
    made s auth = make_request d.iequals d.prepare_payload version s method body headers auth

    abbrev pub reached : UrlScheme → Option Bytes → ℕ → ℕ → Option Handled
    reached s auth n count =
        handle s (made s auth) (server n (made s auth)) (not (is_some auth)) n count

    pub easy_step :
        (s : UrlScheme) (fuel : ℕ) (auth : Option Bytes) (n count : ℕ)
        → http_analyze_url parse_uri url ≡ some s
        → easy (suc fuel) auth n count
          ≡ retry (made s auth) (λ a c. easy fuel (some a) (n + 1) c) (reached s auth n count)
    unfolding http_easy_request_multipart
    easy_step s fuel auth n count h = rw (http_easy_request_multipart, h) refl

    retry_plain :
        (req : HttpRequest) (again : Bytes → ℕ → List HttpRequest × Option Result)
        (h : Option Handled)
        → is_plain h ≡ true
        → (retry req again h).0 ≡ req ∷ []
    retry_plain req again none e = refl
    retry_plain req again (some (stored result body' parts)) e = refl
    retry_plain req again (some (thrown x parts)) e = refl
    retry_plain req again (some (challenged a c)) e = absurd (cc e)

    retried :
        (s : UrlScheme) (asked : Bool) (again : Bytes → ℕ → List HttpRequest × Option Result)
        (h : Option Handled)
        → ((a : Bytes) (c : ℕ) → (again a c).0 ≡ made s (some a) ∷ [])
        → (asked ≡ false → is_plain h ≡ true)
        → Sent (made s) asked (retry (made s none) again h).0
    retried s asked again none sends plain = once
    retried s asked again (some (stored result body' parts)) sends plain = once
    retried s asked again (some (thrown e parts)) sends plain = once
    retried s asked again (some (challenged a c)) sends plain =
        subst (Sent (made s) asked) (ap (λ l. made s none ∷ l) (sym (sends a c)))
          (twice a (ground (arith, plain)))

    -- For an address that is read, whatever the server answers, one request without credentials
    -- is sent, or that and the same request with credentials, the second only if the first was
    -- answered by 401 and the address has a user and a password.
    pub http_easy_request_multipart-Sent :
        (s : UrlScheme) (fuel n count : ℕ)
        → http_analyze_url parse_uri url ≡ some s
        → Sent
            (λ auth. make_request d.iequals d.prepare_payload version s method body headers auth)
            (asks s (
              server n
                (make_request d.iequals d.prepare_payload version s method body headers none)))
            (http_easy_request_multipart d read_part callback parse_uri version server
              (suc (suc fuel))
              method
              url
              body
              headers
              none
              n
              count).0
    http_easy_request_multipart-Sent s fuel n count h =
        let reply = server n (made s none) in
        subst (Sent (made s) (asks s reply))
          (ap (λ r. r.0) (sym (easy_step s (suc fuel) none n count h)))
          (retried s (asks s reply) (λ a c. easy (suc fuel) (some a) (n + 1) c)
            (reached s none n count)
            (λ a c.
              ap (λ r. r.0) (easy_step s fuel (some a) (n + 1) c h)
              ∙ retry_plain (made s (some a)) (λ b k. easy fuel (some b) (n + 1 + 1) k)
                  (reached s (some a) (n + 1) c)
                  (handle_plain s (made s (some a)) (server (n + 1) (made s (some a))) false (n + 1)
                    c refl))
            (λ e. handle_plain s (made s none) reply true n count e))
