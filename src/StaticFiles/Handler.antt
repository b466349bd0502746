-- ===== src/StaticFiles/Handler.antt =====
-- The handler that `make_static_file_handler` of src/http_static.cpp makes, in the steps of its
-- comments: which file a request is for, whether the client has it, and which bytes are sent.
pub mod Ranges
pub mod Containment
pub mod Replies
mod Tests
use libasyik.Common.{
  ℕ, zero, suc, ◌+◌, ◌-◌, ◌≤◌, ◌≡◌, ℤ, pos, negsuc, leb_ℤ, Option, none, some, List, [], ◌∷◌, ◌++◌,
  Bool, true, false, not, ◌&&◌, ◌||◌, ltb, leb, ◌==◌, if◌then◌else◌, length, drop, ◌>>=◌, Bytes,
  codes, bytes_eq, begins_with, has_byte, before, behind, ends_in, pop_back, to_string, stoll,
}
use libasyik.StaticFiles.{
  StaticFileConfig, FileInfo, FileSystem, Clock, make_etag, parse_http_date, percent_decode,
  read_file_range,
}
use libasyik.StaticFiles.Mime.{get_mime_type}

-- A request by its target and its headers; a header that is not there is empty.
pub record Request : Type 0 where
  pub target : Bytes
  pub headers : Bytes → Bytes

-- What the handler does to the response: the status, the body where it is set, and the calls of
-- `headers.set` in their order.
pub record Reply : Type 0 where
  pub status : ℕ
  pub body : Option Bytes
  pub sets : List (Bytes × Bytes)

pub refuse : ℕ → Bytes → Reply
refuse status body = record { status = status; body = some body; sets = [] }

abbrev pub not_found : Reply
not_found = refuse 404 (codes "Not Found")

abbrev pub forbidden : Reply
forbidden = refuse 403 (codes "Forbidden")

abbrev pub bad_request : Reply
bad_request = refuse 400 (codes "Bad Request")

abbrev pub server_error : Reply
server_error = refuse 500 (codes "Internal Server Error")

-- Steps 1 and 2. The bytes 63, 35 and 47 are '?', '#' and '/'.
pub strip_prefix : (url_prefix target : Bytes) → Bytes
strip_prefix url_prefix target =
    if begins_with url_prefix target then drop (length url_prefix) target else target

pub or_root : Bytes → Bytes
or_root [] = 47 ∷ []
or_root (c ∷ s) = c ∷ s

pub sub_target : (url_prefix target : Bytes) → Bytes
sub_target url_prefix target =
    percent_decode (or_root (strip_prefix url_prefix (before 35 (before 63 target))))

pub subpath : Bytes → Bytes
subpath [] = []
subpath (c ∷ s) = if c == 47 then s else c ∷ s

abbrev pub with_slash : Bytes → Bytes
with_slash path = if ends_in 47 path then path else path ++ 47 ∷ []

-- The file that a request is for, or the refusal.
pub data Located : Type 0 where
  refused : Reply → Located
  located : Bytes → FileInfo → Located

module _ {F : Type 0} (fs : FileSystem F) (canonical_root : Bytes) where
  -- The end of step 5, for what is no directory.
  pub regular_file : Bytes → FileInfo → Located
  regular_file path st = if st.is_regular then located path st else refused forbidden

  -- Step 5, for a directory.
  pub index_of : (index_file path : Bytes) → Located
  index_of index_file path = elim (fs.realpath (with_slash path ++ index_file)) [
    | none ↦ refused not_found
    | some path' ↦
        if begins_with canonical_root path'
        then elim (fs.stat path') [
          | none ↦ refused not_found
          | some st ↦ if st.is_dir then refused forbidden else regular_file path' st
        ]
        else refused forbidden
  ]

  -- Steps 3 to 5, from the decoded target on.
  pub locate : (index_file target : Bytes) → Located
  locate index_file target =
      if has_byte 0 target
      then refused bad_request
      else elim (fs.realpath (canonical_root ++ subpath target)) [
        | none ↦ refused not_found
        | some path ↦
            if begins_with canonical_root path || bytes_eq path (pop_back canonical_root)
            then elim (fs.stat path) [
              | none ↦ refused not_found
              | some st ↦ if st.is_dir then index_of index_file path else regular_file path st
            ]
            else refused forbidden
      ]

-- Step 6: the reply of a conditional request for a file that the client has.
pub etag_matches : Request → Bytes → Bool
etag_matches request etag =
    let inm = request.headers (codes "If-None-Match") in
    not (bytes_eq inm []) && (bytes_eq inm etag || bytes_eq inm (codes "*"))

-- The date -1 is that of a header that cannot be read.
pub date_covers : {Tm : Type 0} → Clock Tm → Request → ℤ → Bool
date_covers clock request mtime =
    let ims = request.headers (codes "If-Modified-Since") in
    let date = parse_http_date clock ims in
    not (bytes_eq ims [])
    && (not (leb_ℤ date (negsuc 0) && leb_ℤ (negsuc 0) date) && leb_ℤ mtime date)

module _ {Tm : Type 0} (clock : Clock Tm) (cfg : StaticFileConfig) (request : Request) where
  pub not_modified : FileInfo → Option Reply
  not_modified st =
      let etag = make_etag st.mtime (pos st.size) in
      if cfg.enable_etag && etag_matches request etag
      then some (record {
        status = 304;
        body = none;
        sets = (codes "ETag", etag) ∷ (codes "Cache-Control", cfg.cache_control) ∷ [];
      })
      else if cfg.enable_last_modified && date_covers clock request st.mtime
      then some (record {
        status = 304;
        body = none;
        sets =
            (codes "Last-Modified", clock.format_http_date st.mtime)
            ∷ (codes "Cache-Control", cfg.cache_control)
            ∷ [];
      })
      else none

-- `path.substr(path.rfind('.'))` where that dot stands behind the last slash: the search goes
-- on from each dot and slash to the next.
pub extension : Bytes → Bytes
extension [] = []
extension (c ∷ s) =
    let rest = extension s in
    if has_byte 47 s || has_byte 46 s then rest else (if c == 46 then c ∷ s else rest)

-- The bounds that a range names, with both ends included.
pub checked_bounds : ℤ → ℤ → (fsize : ℕ) → Option (ℕ × ℕ)
checked_bounds (pos range_start) (pos range_end) fsize =
    if ltb range_end fsize && leb range_start range_end then some (range_start, range_end) else none
checked_bounds _ _ fsize = none

pub suffix_bounds : ℤ → (fsize : ℕ) → Option (ℕ × ℕ)
suffix_bounds (pos zero) fsize = none
suffix_bounds (pos (suc n)) fsize = some (if leb fsize (suc n) then 0 else fsize - suc n, fsize - 1)
suffix_bounds (negsuc n) fsize = none

pub range_bounds : (s_start s_end : Bytes) → (fsize : ℕ) → Option (ℕ × ℕ)
range_bounds [] s_end fsize = stoll s_end >>= λ n. suffix_bounds n fsize
range_bounds (c ∷ s) s_end fsize = do
  range_start ← stoll (c ∷ s)
  range_end ← if bytes_eq s_end [] then some (pos (fsize - 1)) else stoll s_end
  checked_bounds range_start range_end fsize

-- The range of a request, where it has a valid one: 45 is '-'.
pub requested_range : (cfg : StaticFileConfig) (range_hdr : Bytes) (fsize : ℕ) → Option (ℕ × ℕ)
requested_range cfg range_hdr fsize =
    let spec = drop 6 range_hdr in
    if cfg.enable_range && ltb 0 fsize && begins_with (codes "bytes=") range_hdr && has_byte 45 spec
    then range_bounds (before 45 spec) (behind 45 spec) fsize
    else none

module _ {F Tm : Type 0} (fs : FileSystem F) (clock : Clock Tm) (cfg : StaticFileConfig) where
  abbrev pub caching : FileInfo → List (Bytes × Bytes)
  caching st =
      (if cfg.enable_etag then (codes "ETag", make_etag st.mtime (pos st.size)) ∷ [] else [])
      ++ (if cfg.enable_last_modified
          then (codes "Last-Modified", clock.format_http_date st.mtime) ∷ []
          else [])
      ++ (codes "Cache-Control", cfg.cache_control) ∷ []

  abbrev pub content_range : (range_start range_end fsize : ℕ) → Bytes
  content_range range_start range_end fsize =
      codes "bytes " ++ to_string range_start ++ 45 ∷ to_string range_end ++ 47 ∷ to_string fsize

  -- Step 7.
  pub send_range : Bytes → FileInfo → (range_start range_end : ℕ) → Reply
  send_range path st range_start range_end =
      elim (read_file_range fs path range_start (range_end - range_start + 1)) [
        | none ↦ server_error
        | some bytes ↦ record {
          status = 206;
          body = some bytes;
          sets =
              (codes "Content-Type", get_mime_type (extension path))
              ∷ (codes "Content-Range", content_range range_start range_end st.size)
              ∷ (codes "Accept-Ranges", codes "bytes")
              ∷ caching st;
        }
      ]

  -- Steps 8 and 9.
  pub send_file : Bytes → FileInfo → Reply
  send_file path st = elim (if ltb 0 st.size then read_file_range fs path 0 st.size else some []) [
    | none ↦ server_error
    | some bytes ↦ record {
      status = 200;
      body = some bytes;
      sets =
          (codes "Content-Type", get_mime_type (extension path))
          ∷ (codes "Accept-Ranges", codes "bytes")
          ∷ caching st;
    }
  ]

  -- Steps 6 to 9.
  pub serve : Request → Bytes → FileInfo → Reply
  serve request path st = elim (not_modified clock cfg request st) [
    | some reply ↦ reply
    | none ↦ elim (requested_range cfg (request.headers (codes "Range")) st.size) [
      | some (range_start, range_end) ↦ send_range path st range_start range_end
      | none ↦ send_file path st
    ]
  ]

  pub handle : (url_prefix canonical_root : Bytes) → Request → Reply
  handle url_prefix canonical_root request =
      elim (locate fs canonical_root cfg.index_file (sub_target url_prefix request.target)) [
        | refused reply ↦ reply
        | located path st ↦ serve request path st
      ]

  pub make_static_file_handler : (url_prefix root_dir : Bytes) → Request → Reply
  make_static_file_handler url_prefix root_dir request = elim (fs.realpath root_dir) [
    | none ↦ not_found
    | some root ↦
        handle (if ends_in 47 url_prefix then pop_back url_prefix else url_prefix) (with_slash root)
          request
  ]
