-- ===== src/StaticFiles.antt =====
-- src/http_static.cpp and include/libasyik/http_static.hpp: the handler that serves files. The
-- calls of the operating system and of the C library are parameters: `FileSystem` for the files,
-- `Clock` for the dates. The code for Windows is left out.
pub mod Mime
pub mod Handler
pub mod Decoding
pub mod Etag
pub mod Reading
mod Tests
use libasyik.Common.{
  ℕ, zero, suc, ◌+◌, ◌-◌, ◌*◌, ◌%◌, ◌^◌, ℤ, pos, negsuc, leb_ℤ, Option, none, some, List, [], ◌∷◌,
  ◌++◌, Bool, true, false, not, ◌&&◌, ◌||◌, ltb, leb, ◌==◌, if◌then◌else◌, length, take, drop,
  or_else, ◌>>=◌, Bytes, codes, bytes_eq, begins_with, has_byte, before, behind, ends_in, pop_back,
  digits, to_string, digit_value, stoll,
}
use mathlib.Core.Option

pub record StaticFileConfig : Type 0 where
  pub enable_etag : Bool
  pub enable_last_modified : Bool
  pub enable_range : Bool
  pub cache_control : Bytes
  pub index_file : Bytes

-- A `long long` printed by `std::hex`, as the unsigned number of 64 bits that it is converted to.
pub unsigned_64 : ℤ → ℕ
unsigned_64 (pos n) = n % 18446744073709551616
unsigned_64 (negsuc n) = 18446744073709551615 - n % 18446744073709551616

abbrev pub hex : ℕ → Bytes
hex n = digits 16 (suc n) n

-- The bytes 34 and 45 are '"' and '-'.
pub make_etag : (mtime size : ℤ) → Bytes
make_etag mtime size = 34 ∷ (hex (unsigned_64 mtime) ++ 45 ∷ (hex (unsigned_64 size) ++ 34 ∷ []))

-- `strptime` and `timegm`, and `gmtime_r` with `strftime`.
pub record Clock (Tm : Type 0) : Type 0 where
  pub strptime : (s format : Bytes) → Option Tm
  pub timegm : Tm → ℤ
  pub format_http_date : ℤ → Bytes

pub parse_http_date : {Tm : Type 0} → Clock Tm → Bytes → ℤ
parse_http_date clock s =
    Option.get_or
      (Option.map clock.timegm (
        or_else (clock.strptime s (codes "%a, %d %b %Y %H:%M:%S GMT")) (
          or_else (clock.strptime s (codes "%A, %d-%b-%y %H:%M:%S GMT"))
            (clock.strptime s (codes "%a %b %e %H:%M:%S %Y")))))
      (negsuc 0)

-- The byte of two hexadecimal digits.
pub hex_pair : (a b : ℕ) → Option ℕ
hex_pair a b = do h ← digit_value a; l ← digit_value b; some (h * 16 + l)

pub percent_decode : Bytes → Bytes
percent_decode [] = []
percent_decode (c ∷ []) = c ∷ []
percent_decode (c ∷ a ∷ []) = c ∷ a ∷ []
percent_decode (c ∷ a ∷ b ∷ s) =
    let skipped = percent_decode s in
    let next = percent_decode (a ∷ b ∷ s) in
    if c == 37
    then elim (hex_pair a b) [ some byte ↦ byte ∷ skipped | none ↦ c ∷ next ]
    else c ∷ next

pub record FileInfo : Type 0 where
  pub is_dir : Bool
  pub is_regular : Bool
  pub mtime : ℤ
  pub size : ℕ

-- The system calls; `none` is a failure. A read gives the bytes that it has read, which may be
-- fewer than asked for. A size is not negative.
pub record FileSystem (F : Type 0) : Type 0 where
  pub realpath : Bytes → Option Bytes
  pub stat : Bytes → Option FileInfo
  pub open_file : Bytes → Option F
  pub lseek : F → ℕ → Bool
  pub read : F → (offset count : ℕ) → Option Bytes

module _ {F : Type 0} (fs : FileSystem F) where
  -- The loop of `read_range`; the fuel `suc remaining` is enough, as every round reads a byte.
  pub read_loop : (fuel : ℕ) → F → (offset remaining : ℕ) → Option Bytes
  read_loop zero fd offset remaining = none
  read_loop (suc fuel) fd offset remaining =
      if remaining == 0 then some [] else elim (fs.read fd offset remaining) [
        | none ↦ none
        | some [] ↦ none
        | some (b ∷ bs) ↦
            let rest = read_loop fuel fd (offset + length (b ∷ bs)) (remaining - length (b ∷ bs)) in
            Option.map (λ s. (b ∷ bs) ++ s) rest
      ]

  pub read_range : F → (offset size : ℕ) → Option Bytes
  read_range fd offset size =
      if fs.lseek fd offset then read_loop (suc size) fd offset size else none

  pub read_file_range : Bytes → (offset size : ℕ) → Option Bytes
  read_file_range path offset size = do fd ← fs.open_file path; read_range fd offset size
