-- ===== src/HttpClient/Address.antt =====
-- `http_analyze_url` of src/http_common.cpp and `http_url_scheme` of
-- include/libasyik/http_client.hpp. `parse_uri` is that of Boost.URL: a `Url` is what it reads, with
-- a port of 0 where the text names none.
use libasyik.Common.{
  ℕ, Option, none, some, [], Bool, true, false, ◌&&◌, if◌then◌else◌, ◌==◌, Bytes, bytes_eq,
}

pub data SchemeId : Type 0 where
  no_scheme http https ws wss other_scheme : SchemeId

pub record Url : Type 0 where
  pub scheme_id : SchemeId
  pub encoded_host : Bytes
  pub user : Bytes
  pub password : Bytes
  pub port_number : ℕ
  pub encoded_resource : Bytes

pub record UrlScheme : Type 0 where
  pub host : Bytes
  pub username : Bytes
  pub password : Bytes
  pub port : ℕ
  pub target : Bytes
  pub is_ssl : Bool

abbrev pub is_secure : SchemeId → Bool
is_secure https = true
is_secure wss = true
is_secure _ = false

abbrev pub has_scheme : SchemeId → Bool
has_scheme no_scheme = false
has_scheme _ = true

unfoldable pub scheme_of : Url → UrlScheme
scheme_of u = record {
  host = u.encoded_host;
  username = u.user;
  password = u.password;
  port =
      if (u.port_number == 0) && has_scheme u.scheme_id
      then (if is_secure u.scheme_id then 443 else 80)
      else u.port_number;
  target = u.encoded_resource;
  is_ssl = is_secure u.scheme_id;
}

unfoldable pub http_analyze_url : (parse_uri : Bytes → Option Url) → Bytes → Option UrlScheme
http_analyze_url parse_uri text = elim (parse_uri text) [
  | none ↦ none
  | some u ↦ if bytes_eq u.encoded_host [] then none else some (scheme_of u)
]
