-- ===== src/HttpClient/Tests.antt =====
-- Runs of the client of include/libasyik/http.hpp, and its theorems at concrete inputs.
use libasyik.Common.{
  to_string, length, ℕ, ◌≡◌, refl, ap, Option, none, some, List, [], ◌∷◌, ◌++◌, Bool, true, false,
  Bytes, codes, bytes_eq, eq_of_bytes_eq, begins_with, before, behind, has_byte, arith, digits,
}
use mathlib.Core.Option
use libasyik.HttpClient.Address.{Url, http, scheme_of, http_analyze_url}
use libasyik.HttpClient.Multipart.{
  to_lower, skip_spaces, after_word, boundary_value, boundary_of, deduce_boundary, after_first,
  boundary_line, Found, find_multipart_boundary,
}
use libasyik.HttpClient.Chunks.{bytes_of, told, find_multipart_boundary-after_first}
use libasyik.HttpClient.Parts.{Shrinks, left_over_add, read_parts_ends}
use libasyik.HttpClient.Retry.{Sent, asks, http_easy_request_multipart-Sent}
use libasyik.HttpClient.Ending.{http_easy_request_multipart_ends}
use libasyik.HttpClient.Sending.{header_first, header_one, make_request-header}
use libasyik.HttpClient.{
  Headers, header, HttpRequest, make_request, Reply, PartRead, part_failed, no_content_length, part,
  Exception, Result, read_parts, left_over, Digests, handle_client_auth,
  handle_client_request_response, http_easy_request_multipart,
}

program : Unit {0}
unfolding to_lower skip_spaces after_word boundary_value boundary_of deduce_boundary after_first
    find_multipart_boundary scheme_of http_analyze_url header make_request read_parts
    handle_client_auth handle_client_request_response http_easy_request_multipart bytes_eq
    begins_with before behind has_byte digits
program = tt

quoted_run : deduce_boundary (codes "Multipart/Mixed ; boundary=\"a b\"") ≡ some (codes "a b")
unfolding program
quoted_run = refl

-- An unquoted boundary takes the parameters behind it with it.
plain_run :
    deduce_boundary (codes "multipart/form-data; boundary=ab; charset=x")
    ≡ some (codes "ab; charset=x")
unfolding program
plain_run = refl

-- A part of one byte, if there is one.
read_one : (status : ℕ) (buffer : Bytes) (stream : List Bytes) → PartRead
read_one status [] stream = part_failed
read_one status (c ∷ buffer) stream = part (c ∷ []) buffer stream

read_one-Shrinks : Shrinks read_one
unfolding Shrinks read_one
read_one-Shrinks status [] stream body buffer' stream' e = absurd (cc e)
read_one-Shrinks status (c ∷ buffer) stream body buffer' stream' e =
    omega (arith, ap left_of e, left_over_add buffer stream, left_over_add (c ∷ buffer) stream)
  where
    left_of : PartRead → ℕ
    left_of part_failed = 0
    left_of no_content_length = 0
    left_of (part b rest more) = left_over rest more

always : Bytes → Bool
always _ = true

url : Url
url = record {
  scheme_id = http;
  encoded_host = codes "host";
  user = codes "me";
  password = codes "pw";
  port_number = 8080;
  encoded_resource = codes "/x";
}

parse : Bytes → Option Url
parse _ = some url

-- What Beast does to the headers of a body that is not empty.
with_length : (method body : Bytes) → Headers → Headers
with_length method [] hs = hs
with_length method (b ∷ body) hs =
    hs ++ ((codes "Content-Length", to_string (length (b ∷ body))) ∷ [])

digests : Digests
digests = record {
  iequals = bytes_eq;
  prepare_payload = with_length;
  section = λ _ _. none;
  md5 = λ s. s;
  hex_encode = λ s. s;
  cnonce = λ _. [];
}

answer : ℕ → HttpRequest → Option Reply
answer n req = some (record {
  result = 200;
  www_authenticate = [];
  content_type = some (codes "text/plain");
  body = some (codes "hi");
  buffer = [];
  stream = [];
  is_written = true;
})

get_run :
    http_easy_request_multipart digests read_one always parse
      (codes "v")
      answer
      2
      (codes "GET")
      (codes "url")
      []
      []
      none
      0
      0
    ≡ (
      make_request bytes_eq with_length (codes "v") (scheme_of url) (codes "GET") [] [] none ∷ [],
      some (Result.response 200 (codes "hi") []),
    )
unfolding program digests read_one always parse answer url
get_run = refl

-- Two pieces that cut the boundary in the middle.
pieces : List Bytes
pieces = codes "xx--a" ∷ codes "b\r\nz" ∷ []

find_run :
    find_multipart_boundary (codes "ab") pieces []
    ≡ some (record { more = true; buffer = codes "z"; stream = [] })
unfolding program pieces
find_run = refl

-- With a boundary behind the end of the parts the answer depends on the pieces.
late_run :
    (Option.map
        (λ (f : Found). f.more)
        (find_multipart_boundary (codes "b") (codes "b--\r\nb\r\n" ∷ []) [])
      ≡ some true)
    × (Option.map
          (λ (f : Found). f.more)
          (find_multipart_boundary (codes "b") (codes "b--\r\n" ∷ codes "b\r\n" ∷ []) [])
        ≡ some false)
unfolding program
late_run = (refl, refl)

find_multipart_boundary-after_first_example :
    told (find_multipart_boundary (codes "ab") pieces [])
    ≡ Option.map
        (λ (x : Bytes). (true, x))
        (after_first (boundary_line (codes "ab")) ([] ++ bytes_of pieces))
unfolding program pieces
find_multipart_boundary-after_first_example =
    find_multipart_boundary-after_first (codes "ab") pieces [] refl

stream_end : Bytes
stream_end = codes "b\r\nxb--\r\n"

read_parts_ends_example :
    (r : List Bytes × Option Exception) × (read_parts read_one always 20 200
        (codes "b")
        stream_end
        []
      ≡ some r)
unfolding stream_end
read_parts_ends_example =
    read_parts_ends read_one always 20 200 (codes "b") stream_end [] read_one-Shrinks (omega arith)

http_easy_request_multipart-Sent_example :
    Sent
      (λ auth.
        make_request digests.iequals with_length
          (codes "v")
          (scheme_of url)
          (codes "GET")
          []
          []
          auth)
      (asks digests read_one always (scheme_of url) (
        answer 0 (
          make_request digests.iequals with_length
            (codes "v")
            (scheme_of url)
            (codes "GET")
            []
            []
            none)))
      (http_easy_request_multipart digests read_one always parse
        (codes "v")
        answer
        2
        (codes "GET")
        (codes "url")
        []
        []
        none
        0
        0).0
unfolding program parse url digests
http_easy_request_multipart-Sent_example =
    http_easy_request_multipart-Sent digests read_one always parse (codes "v") answer (codes "GET")
      (codes "url") [] [] (scheme_of url) 0 0 0 refl

http_easy_request_multipart_ends_example :
    (r : Result) × ((http_easy_request_multipart digests read_one always parse
        (codes "v")
        answer
        2
        (codes "GET")
        (codes "url")
        []
        []
        none
        0
        0).1
      ≡ some r)
http_easy_request_multipart_ends_example =
    http_easy_request_multipart_ends digests read_one always read_one-Shrinks parse (codes "v")
      answer (codes "GET") (codes "url") [] [] 0 0 0

same_names : (a b x : Bytes) → bytes_eq a b ≡ true → bytes_eq x a ≡ bytes_eq x b
same_names a b x e = ap (bytes_eq x) (eq_of_bytes_eq a b e)

own_host : Headers
own_host = (codes "Host", codes "other") ∷ []

with_length_others :
    (name method body : Bytes) (hs : Headers)
    → bytes_eq (codes "Content-Length") name ≡ false
    → bytes_eq (codes "Transfer-Encoding") name ≡ false
    → header bytes_eq name (with_length method body hs) ≡ header bytes_eq name hs
unfolding with_length
with_length_others name method [] hs length_other coding_other = refl
with_length_others name method (b ∷ body) hs length_other coding_other =
    header_first bytes_eq name hs _ (
      header_one bytes_eq name (codes "Content-Length") (to_string (length (b ∷ body)))
        length_other)

make_request-header_example :
    header bytes_eq
      (codes "Host")
      (make_request bytes_eq with_length
        (codes "v")
        (scheme_of url)
        (codes "GET")
        []
        own_host
        none).headers
    ≡ some (codes "other")
unfolding program own_host
make_request-header_example =
    make_request-header bytes_eq with_length (codes "v") (scheme_of url) (codes "GET") [] own_host
      none (codes "Host") (codes "other") same_names with_length_others refl refl refl refl
