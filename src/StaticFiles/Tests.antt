-- ===== src/StaticFiles/Tests.antt =====
-- Runs of the helpers of src/http_static.cpp, and their theorems at concrete inputs.
use libasyik.Common.{
  ◌≡◌, refl, pos, negsuc, some, [], ◌∷◌, true, false, leb, ◌&&◌, length, take, drop, Bytes, codes,
  digits, digit_value, arith,
}
use libasyik.StaticFiles.{FileSystem, unsigned_64, make_etag, hex_pair, percent_decode, read_range}
use libasyik.StaticFiles.Decoding.{percent_encode, percent_decode-encode}
use libasyik.StaticFiles.Reading.{read_range_lem}

make_etag_run : make_etag (negsuc 0) (pos 255) ≡ codes "\"ffffffffffffffff-ff\""
unfolding make_etag unsigned_64 digits
make_etag_run = refl

percent_decode_run : percent_decode (codes "/a%20b%2") ≡ codes "/a b%2"
unfolding percent_decode hex_pair digit_value
percent_decode_run = refl

percent_decode-encode_example :
    percent_decode (percent_encode (λ c. leb 48 c && leb c 57) (37 ∷ 49 ∷ [])) ≡ 37 ∷ 49 ∷ []
percent_decode-encode_example =
    percent_decode-encode (λ c. leb 48 c && leb c 57) (37 ∷ 49 ∷ []) refl (omega arith)

-- A system with one file, which is read byte by byte.
abbrev one_file : Bytes → FileSystem Bytes
one_file bytes = record {
  realpath = λ path. some path;
  stat = λ path.
      some (record { is_dir = false; is_regular = true; mtime = pos 100; size = length bytes });
  open_file = λ path. some bytes;
  lseek = λ fd offset. true;
  read = λ fd offset count. some (take 1 (drop offset fd));
}

read_range_lem_example :
    read_range (one_file (codes "hello")) (codes "hello") 1 3 ≡ some (codes "ell")
read_range_lem_example =
    read_range_lem (one_file (codes "hello")) (codes "hello") (codes "hello")
      (λ offset count h h'. (1, omega arith, omega arith, omega arith, refl)) 1 3 refl (omega arith)
