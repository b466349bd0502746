-- ===== src/HttpClient/Ending.antt =====
-- A request of the client of include/libasyik/http.hpp comes to a result.
use libasyik.Common.{
  ℕ, suc, ◌+◌, ◌≡◌, refl, sym, ap, ◌∙◌, inl, inr, Option, none, some, List, [], Bool, true, false,
  not, ◌&&◌, ◌==◌, Bytes, codes, bytes_eq, arith, Option-cases, if-intro,
}
use mathlib.Core.Option
use libasyik.HttpClient.Address.{Url, UrlScheme, http_analyze_url}
use libasyik.HttpClient.Multipart.{is_found, after_first, deduce_boundary}
use libasyik.HttpClient.Parts.{Shrinks, read_parts_ends}
use libasyik.HttpClient.Retry.{handle_plain, is_plain, easy_step}
use libasyik.HttpClient.{
  Headers, HttpRequest, make_request, Reply, PartRead, Exception, Handled, stored, thrown,
  challenged, Result, retry, read_parts, left_over, Digests, handle_client_auth,
  handle_client_request_response, http_easy_request_multipart, network_error, no_boundary, null,
  response, error,
}

body_ends :
    (result : ℕ) (body : Option Bytes)
    → (h : Handled) × (elim body [
      | none ↦ some (thrown network_error [])
      | some b ↦ some (stored result b [])
    ]
        ≡ some h)
body_ends result none = (thrown network_error [], refl)
body_ends result (some b) = (stored result b [], refl)

retry_ends :
    (req : HttpRequest) (again : Bytes → ℕ → List HttpRequest × Option Result) (h : Handled)
    → ((a : Bytes) (c : ℕ) → (r : Result) × ((again a c).1 ≡ some r))
    → (r : Result) × ((retry req again (some h)).1 ≡ some r)
retry_ends req again (stored result body parts) k = (response result body parts, refl)
retry_ends req again (thrown e parts) k = (error e parts, refl)
retry_ends req again (challenged a c) k = k a c

retry_plain_ends :
    (req : HttpRequest) (again : Bytes → ℕ → List HttpRequest × Option Result) (h : Handled)
    → is_plain (some h) ≡ true
    → (r : Result) × ((retry req again (some h)).1 ≡ some r)
retry_plain_ends req again (stored result body parts) k = (response result body parts, refl)
retry_plain_ends req again (thrown e parts) k = (error e parts, refl)
retry_plain_ends req again (challenged a c) k = absurd (cc k)

module _ (d : Digests) (read_part : (status : ℕ) (buffer : Bytes) (stream : List Bytes) → PartRead)
    (callback : Bytes → Bool) (shrinks : Shrinks read_part) where
  handle_ends :
      (s : UrlScheme) (req : HttpRequest) (reply : Option Reply) (try_auth : Bool) (n count : ℕ)
      → (h : Handled) × (handle_client_request_response d read_part callback s req reply try_auth n
            count
          ≡ some h)
  unfolding handle_client_request_response
  handle_ends s req none try_auth n count = (thrown network_error [], refl)
  handle_ends s req (some reply) try_auth n count =
      let P = λ (x : Option Handled). (h : Handled) × (x ≡ some h) in
      let to_handled = λ (r : List Bytes × Option Exception). elim r.1 as (λ _. Handled) [
        | none ↦ stored reply.result [] r.0
        | some e ↦ thrown e r.0
      ] in
      if-intro P
        (try_auth
          && (reply.result == 401)
          && not (bytes_eq s.username [])
          && not (bytes_eq s.password []))
        (λ _. (handle_client_auth d s req reply n count, refl))
        (λ _.
          if-intro P
            (is_found (after_first (codes "multipart") (Option.get_or reply.content_type [])))
            (λ _.
              elim (deduce_boundary (Option.get_or reply.content_type []))
                as (λ b. P (elim b [
                  | none ↦ some (thrown no_boundary [])
                  | some boundary ↦ Option.map to_handled (
                      read_parts read_part callback (suc (left_over reply.buffer reply.stream))
                        reply.result boundary reply.buffer reply.stream)
                ])) [
                  | none ↦ (thrown no_boundary [], refl)
                  | some boundary ↦
                      let (r, e) =
                        read_parts_ends read_part callback
                          (suc (left_over reply.buffer reply.stream)) reply.result boundary
                          reply.buffer reply.stream shrinks (omega arith) in
                      (to_handled r, ap (Option.map to_handled) e)
                ])
            (λ _. body_ends reply.result reply.body))

  module _ (parse_uri : Bytes → Option Url) (version : Bytes)
      (server : ℕ → HttpRequest → Option Reply) (method url body : Bytes) (headers : Headers) where
    easy_ends_with :
        (s : UrlScheme) (fuel : ℕ) (a : Bytes) (n count : ℕ)
        → http_analyze_url parse_uri url ≡ some s
        → (r : Result) × ((http_easy_request_multipart d read_part callback parse_uri version server
              (suc fuel)
              method
              url
              body
              headers
              (some a)
              n
              count).1
            ≡ some r)
    easy_ends_with s fuel a n count h =
        let req = make_request d.iequals d.prepare_payload version s method body headers (some a) in
        let (x, e) = handle_ends s req (server n req) false n count in
        let (r, k) =
          retry_plain_ends req
            (λ b c.
              http_easy_request_multipart d read_part callback parse_uri version server fuel method
                url body headers (some b) (n + 1) c)
            x
            (sym (ap is_plain e)
              ∙ handle_plain d read_part callback s req (server n req) false n count refl) in
        (
          r,
          ap (λ o. o.1)
                (easy_step d read_part callback parse_uri version server method url body headers s
                  fuel (some a) n count h)
              ∙ ap
                  (λ o.
                    (retry req
                      (λ b c.
                        http_easy_request_multipart d read_part callback parse_uri version server
                          fuel method url body headers (some b) (n + 1) c)
                      o).1)
                  e
              ∙ k,
        )

    -- For answers that are finite, and where the reading of a part gives back no more bytes than
    -- there were, a request on fuel of two or more comes to a result, whatever these answers are.
    pub http_easy_request_multipart_ends :
        (fuel n count : ℕ)
        → (r : Result) × ((http_easy_request_multipart d read_part callback parse_uri version server
              (suc (suc fuel))
              method
              url
              body
              headers
              none
              n
              count).1
            ≡ some r)
    http_easy_request_multipart_ends fuel n count =
        elim (Option-cases (http_analyze_url parse_uri url)) [
          | inl e ↦
              (null, unfold http_easy_request_multipart in rw (http_easy_request_multipart, e) refl)
          | inr (s, e) ↦
              let req =
                make_request d.iequals d.prepare_payload version s method body headers none in
              let again = λ (b : Bytes) (c : ℕ).
                http_easy_request_multipart d read_part callback parse_uri version server (suc fuel)
                  method url body headers (some b) (n + 1) c in
              let (x, f) = handle_ends s req (server n req) true n count in
              let (r, k) = retry_ends req again x (λ b c. easy_ends_with s fuel b (n + 1) c e) in
              (
                r,
                ap (λ o. o.1)
                      (easy_step d read_part callback parse_uri version server method url body
                        headers s (suc fuel) none n count e)
                    ∙ ap (λ o. (retry req again o).1) f
                    ∙ k,
              )
        ]
