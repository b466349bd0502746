-- ===== src/Digest/Tests.antt =====
-- Runs of the code of include/libasyik/internal/digestauth.hpp, and its theorems at concrete
-- inputs. The search of these runs looks for a key and takes what follows up to a comma.
use libasyik.Common.{
  ℕ, ◌+◌, ◌≡◌, refl, Option, none, some, [], ◌∷◌, ◌++◌, if◌then◌else◌, ◌&&◌, ltb, length, drop,
  Bytes, codes, bytes_eq, begins_with, before, digits, arith,
}
use mathlib.Core.Option
use libasyik.Digest.{
  quote_at, trim_quotes, view_text, Authenticator, Challenge, none_given, find_section, find_qop,
  find_challenge, calculate_ha1, calculate_ha2, calculate_response, authorization_text,
  generate_authorization,
}
use libasyik.Digest.Section.{find_section_quoted}

program : Unit {0}
unfolding quote_at trim_quotes find_section find_qop find_challenge calculate_ha1 calculate_ha2
    calculate_response authorization_text generate_authorization bytes_eq begins_with before digits
program = tt

search_from : ℕ → Bytes → Bytes → Option (ℕ × ℕ)
search_from i key [] = none
search_from i key (b ∷ s) =
    let rest = search_from (i + 1) key s in
    let size = length (before 44 (drop (length key) s)) in
    if begins_with key (b ∷ s) && ltb 0 size then some (i + length key + 1, size) else rest

search : Bytes → Bytes → Option (ℕ × ℕ)
search key header = search_from 0 key header

header : Bytes
header = codes "Digest realm=\"here\", nonce=\"abc\""

nonce_run :
    Option.map (view_text header) (find_section search (codes "nonce") header) ≡ some (codes "abc")
unfolding program search search_from header
nonce_run = refl

client : Authenticator
client = record {
  authenticate = header;
  username = codes "me";
  password = codes "pw";
  uri = codes "/";
  method = codes "GET";
  body = [];
}

challenge : Challenge
challenge = record {
  nonce = codes "abc";
  realm = codes "here";
  opaque = [];
  algorithm = [];
  qop = none_given;
}

-- A hash that gives back its text makes the formula visible.
authorization_run :
    (generate_authorization search bytes_eq (λ t. t) (λ t. t) client (codes "00") 6).0
    ≡ some (
        codes
          "Digest username=\"me\", realm=\"here\", nonce=\"abc\", uri=\"/\", algorithm=MD5, response=\"me:here:pw:abc:GET:/\"")
unfolding program search search_from header client
authorization_run = refl

find_section_quoted_example :
    let h = codes "nonce=" ++ 34 ∷ (codes "abc" ++ 34 ∷ codes ", qop=auth") in
    Option.map (view_text h) (find_section search (codes "nonce") h) ≡ some (codes "abc")
unfolding program search search_from
find_section_quoted_example =
    find_section_quoted search (codes "nonce") (codes "nonce=") (codes "abc") (codes ", qop=auth")
      (omega arith) refl
