-- ===== src/HttpServer/Spec.antt =====
-- How a specification of a route becomes a regular expression: `route_spec_to_regex` of
-- src/http_common.cpp, and the expression of `serve_static`. The expressions that the code itself
-- replaces by are written out here: a class of single bytes, and a word in angle brackets.
use libasyik.Common.{
  ℕ, zero, suc, Option, none, some, [], ◌∷◌, ◌++◌, Bool, ◌&&◌, if◌then◌else◌, ◌==◌, length, Bytes,
  codes, begins_with, has_byte, ends_in, pop_back, drop,
}

-- The bytes of the class [-[\]{}/()*+?.,\^$|#], and those of \s.
unfoldable pub is_special : ℕ → Bool
is_special c = has_byte c (codes "-[]{}/()*+?.,\\^$|#")

unfoldable pub is_space : ℕ → Bool
is_space c = has_byte c (32 ∷ 9 ∷ 10 ∷ 11 ∷ 12 ∷ 13 ∷ [])

-- A backslash, 92, before each of them.
unfoldable pub escape : Bytes → Bytes
escape [] = []
escape (c ∷ s) = let rest = escape s in if is_special c then 92 ∷ c ∷ rest else c ∷ rest

unfoldable pub skip_spaces : Bytes → Bytes
skip_spaces [] = []
skip_spaces (c ∷ s) = let rest = skip_spaces s in if is_space c then rest else c ∷ s

-- What follows <\s*word\s*> at the start of a text.
unfoldable pub match_tag : (word : Bytes) → Bytes → Option Bytes
match_tag word [] = none
match_tag word (c ∷ s) =
    let inner = skip_spaces s in
    let after = skip_spaces (drop (length word) inner) in
    if (c == 60) && begins_with word inner && begins_with (62 ∷ []) after
    then some (drop 1 after)
    else none

-- `std::regex_replace` for a tag: every round goes on by a byte or more.
unfoldable pub replace_tag : (fuel : ℕ) (word with_text : Bytes) → Bytes → Bytes
replace_tag zero word with_text s = s
replace_tag (suc fuel) word with_text [] = []
replace_tag (suc fuel) word with_text (c ∷ s) = elim (match_tag word (c ∷ s)) [
  | some after ↦ with_text ++ replace_tag fuel word with_text after
  | none ↦ c ∷ replace_tag fuel word with_text s
]

unfoldable pub without_slash : Bytes → Bytes
without_slash s = if ends_in 47 s then pop_back s else s

abbrev pub replace_all : (word with_text : Bytes) → Bytes → Bytes
replace_all word with_text s = replace_tag (length s) word with_text s

unfoldable pub route_spec_to_regex : (route_spec : Bytes) → Bytes
route_spec_to_regex route_spec =
    let escaped = escape (without_slash route_spec) in
    let ints = replace_all (codes "int") (codes "([0-9]+)") escaped in
    let strings = replace_all (codes "string") (codes "([^\\/\\?\\s]+)") ints in
    let paths = replace_all (codes "path") (codes "([^?#\\s]*)") strings in
    codes "^" ++ (paths ++ codes "\\/?(|\\?[^\\?\\s]*)$")

unfoldable pub static_regex : (url_prefix : Bytes) → Bytes
static_regex url_prefix =
    codes "^" ++ (escape (without_slash url_prefix) ++ codes "(\\/[^?#\\s]*)?(|\\?[^\\?\\s]*)$")
