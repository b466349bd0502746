-- ===== src/HttpClient/Multipart.antt =====
-- Multipart responses in include/libasyik/http.hpp: `deduce_boundary` and
-- `find_multipart_boundary`. The eight expressions of the first are its four types, each with a
-- quoted and a plain boundary. What the second reads is a list of the pieces that arrive.
use libasyik.Common.{
  ◌+◌, Option, none, some, List, [], ◌∷◌, ◌++◌, Bool, true, false, not, ◌&&◌, ◌||◌, if◌then◌else◌,
  leb, length, drop, or_else, Bytes, codes, begins_with, has_byte, before, behind, bytes_eq,
}

-- `std::regex_constants::icase`, for ASCII.
unfoldable pub to_lower : Bytes → Bytes
to_lower [] = []
to_lower (c ∷ s) = (if leb 65 c && leb c 90 then c + 32 else c) ∷ to_lower s

unfoldable pub skip_spaces : Bytes → Bytes
skip_spaces [] = []
skip_spaces (c ∷ s) =
    let rest = skip_spaces s in if has_byte c (32 ∷ 9 ∷ 10 ∷ 11 ∷ 12 ∷ 13 ∷ []) then rest else c ∷ s

-- What follows a word, whatever its case.
unfoldable pub after_word : (word : Bytes) → Bytes → Option Bytes
after_word word s = if begins_with word (to_lower s) then some (drop (length word) s) else none

-- "([^"]+)"$ and ([^"]+)$
unfoldable pub boundary_value : Bytes → Option Bytes
boundary_value s =
    let inner = before 34 s in
    if begins_with (34 ∷ []) s
    then (if bytes_eq (behind 34 (drop 1 s)) []
          && has_byte 34 (drop 1 s)
          && not (bytes_eq (before 34 (drop 1 s)) [])
        then some (before 34 (drop 1 s))
        else none)
    else if has_byte 34 s || bytes_eq s []
    then none
    else some inner

-- One type: its name, a semicolon among spaces, and the boundary.
unfoldable pub boundary_of : (type : Bytes) → Bytes → Option Bytes
boundary_of type content_type = elim (after_word type content_type) [
  | none ↦ none
  | some rest ↦ elim (after_word (59 ∷ []) (skip_spaces rest)) [
    | none ↦ none
    | some params ↦ elim (after_word (codes "boundary=") (skip_spaces params)) [
      | none ↦ none
      | some value ↦ boundary_value value
    ]
  ]
]

unfoldable pub deduce_boundary : Bytes → Option Bytes
deduce_boundary content_type =
    or_else (boundary_of (codes "multipart/mixed-replace") content_type) (
      or_else (boundary_of (codes "multipart/mixed") content_type) (
        or_else (boundary_of (codes "multipart/x-mixed-replace") content_type)
          (boundary_of (codes "multipart/form-data") content_type)))

-- `buffer.consume(s.find(line) + line.length())`: what follows the first line; `none` is npos.
unfoldable pub after_first : (line : Bytes) → Bytes → Option Bytes
after_first line [] = if bytes_eq line [] then some [] else none
after_first line (c ∷ s) =
    let rest = after_first line s in
    if begins_with line (c ∷ s) then some (drop (length line) (c ∷ s)) else rest

abbrev pub crlf : Bytes
crlf = 13 ∷ 10 ∷ []

abbrev pub boundary_line : Bytes → Bytes
boundary_line boundary = boundary ++ crlf

abbrev pub terminate_line : Bytes → Bytes
terminate_line boundary = boundary ++ (45 ∷ 45 ∷ crlf)

-- Whether a line is there.
abbrev pub is_found : Option Bytes → Bool
is_found none = false
is_found (some _) = true

-- The answer, with what the buffer and the stream still hold; `none` where the stream ends, and
-- the read throws.
pub record Found : Type 0 where
  pub more : Bool
  pub buffer : Bytes
  pub stream : List Bytes

unfoldable pub find_multipart_boundary :
    (boundary : Bytes) (stream : List Bytes) (buffer : Bytes) → Option Found
find_multipart_boundary boundary [] buffer = elim (after_first (boundary_line boundary) buffer) [
  | some rest ↦ some (record { more = true; buffer = rest; stream = [] })
  | none ↦
      if is_found (after_first (terminate_line boundary) buffer)
      then some (record { more = false; buffer = buffer; stream = [] })
      else none
]
find_multipart_boundary boundary (b ∷ stream) buffer =
    elim (after_first (boundary_line boundary) buffer) [
      | some rest ↦ some (record { more = true; buffer = rest; stream = b ∷ stream })
      | none ↦
          if is_found (after_first (terminate_line boundary) buffer)
          then some (record { more = false; buffer = buffer; stream = b ∷ stream })
          else find_multipart_boundary boundary stream (buffer ++ b)
    ]
