-- ===== src/StaticFiles/Handler/Tests.antt =====
-- Runs of the handler of src/http_static.cpp, and its theorems at concrete inputs.
use libasyik.Common.{
  ℕ, ◌≡◌, refl, pos, Option, none, some, [], true, false, if◌then◌else◌, take, drop, Bytes, codes,
  bytes_eq, begins_with, has_byte, before, behind, ends_in, pop_back, to_string, digits, arith,
}
use libasyik.StaticFiles.{
  FileInfo, FileSystem, StaticFileConfig, Clock, unsigned_64, make_etag, parse_http_date, hex_pair,
  percent_decode, read_loop, read_range, read_file_range,
}
use libasyik.StaticFiles.Handler.{
  Request, Reply, refuse, strip_prefix, or_root, sub_target, subpath, regular_file, index_of,
  locate, etag_matches, date_covers, not_modified, requested_range, range_bounds, suffix_bounds,
  checked_bounds, serve, handle, send_range, send_file,
}
use libasyik.StaticFiles.Handler.Ranges.{range_header, suffix, requested_range-RangeHeader}
use libasyik.StaticFiles.Handler.Containment.{Answered, handle-Answered}
use libasyik.StaticFiles.Handler.Replies.{expected, serve_lem}

abbrev config : StaticFileConfig
config = record {
  enable_etag = true;
  enable_last_modified = true;
  enable_range = true;
  cache_control = codes "public";
  index_file = codes "index.html";
}

-- A clock that reads any date as the time 500.
abbrev clock : Clock ℕ
clock = record { strptime = λ s format. some 500; timegm = λ t. pos t; format_http_date = λ t. [] }

abbrev page : FileInfo
page = record { is_dir = false; is_regular = true; mtime = pos 100; size = 5 }

-- The directory /www with the file index.html; a link in it leads to /etc.
abbrev files : FileSystem Bytes
files = record {
  realpath = λ path.
      if bytes_eq path (codes "/www/")
      then some (codes "/www")
      else if bytes_eq path (codes "/www/link")
      then some (codes "/etc")
      else some path;
  stat = λ path.
      if bytes_eq path (codes "/www")
      then some (record { is_dir = true; is_regular = false; mtime = pos 1; size = 0 })
      else if bytes_eq path (codes "/www/index.html")
      then some page
      else none;
  open_file = λ path. some (codes "hello");
  lseek = λ fd offset. true;
  read = λ fd offset count. some (take 1 (drop offset fd));
}

abbrev request : Bytes → Bytes → Bytes → Request
request target name value = record {
  target = target;
  headers = λ n. if bytes_eq n name then value else [];
}

program : Unit {0}
unfolding unsigned_64 make_etag parse_http_date hex_pair percent_decode read_loop read_range
    read_file_range refuse strip_prefix or_root sub_target subpath regular_file index_of locate
    etag_matches date_covers not_modified requested_range range_bounds suffix_bounds checked_bounds
    serve handle send_range send_file bytes_eq begins_with has_byte before behind ends_in pop_back
    digits
program = tt

status_of : Reply → ℕ
status_of r = r.status

index_run :
    (handle files clock config
      (codes "/static")
      (codes "/www/")
      (request (codes "/static/?x") (codes "Range") [])).body
    ≡ some (codes "hello")
unfolding program
index_run = refl

outside_run :
    (handle files clock config
      (codes "/static")
      (codes "/www/")
      (request (codes "/static/link") (codes "Range") [])).status
    ≡ 403
unfolding program
outside_run = refl

missing_run :
    (handle files clock config
      (codes "/static")
      (codes "/www/")
      (request (codes "/static/none") (codes "Range") [])).status
    ≡ 404
unfolding program
missing_run = refl

handle-Answered_example :
    let r = request (codes "/static/../x") (codes "Range") [] in
    Answered files clock config
      (codes "/www/")
      r
      (handle files clock config (codes "/static") (codes "/www/") r)
handle-Answered_example =
    handle-Answered files clock config (codes "/static") (codes "/www/")
      (request (codes "/static/../x") (codes "Range") [])

serve_lem_example :
    let r = request (codes "/static/index.html") (codes "Range") (codes "bytes=1-2") in
    let reply = serve files clock config r (codes "/www/index.html") page in
    ◌≡◌ {A = ℕ × Option Bytes}
      (reply.status, reply.body)
      (expected (codes "hello") (requested_range config (codes "bytes=1-2") 5))
unfolding not_modified etag_matches date_covers bytes_eq
serve_lem_example =
    serve_lem files clock config (codes "/www/index.html") page (codes "hello") (codes "hello") refl
      (λ offset. refl) (λ offset count h h'. (1, omega arith, omega arith, omega arith, refl)) refl
      (request (codes "/static/index.html") (codes "Range") (codes "bytes=1-2")) refl

requested_range-RangeHeader_example :
    requested_range config (range_header [] (to_string 2)) 5 ≡ some (3, 4)
requested_range-RangeHeader_example =
    requested_range-RangeHeader config 5 refl (omega arith) (omega arith)
      (range_header [] (to_string 2)) 3 4 (suffix 2 (omega arith) (omega arith))
