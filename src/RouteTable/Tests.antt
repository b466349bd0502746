-- ===== src/RouteTable/Tests.antt =====
-- Runs of the table of include/libasyik/route_table.hpp, and its theorems at concrete inputs. The
-- expressions of these runs are texts that a target has to begin with.
use libasyik.Common.{
  ℕ, ◌≡◌, refl, Option, none, some, List, [], ◌∷◌, false, if◌then◌else◌, Bytes, codes, bytes_eq,
  begins_with, has_byte, before, behind, ends_in, pop_back,
}
use libasyik.RouteTable.{
  Route, RouteTable, new, extract_static_prefix, is_static_route, strip_slash, normalise_path,
  routes_at, add_at, add_route, add_regex_route, method_fits, find_exact, find_prefix, find_regex,
  find,
}
use libasyik.RouteTable.Search.{first, matches, find-matches}

program : Unit {0}
unfolding extract_static_prefix is_static_route strip_slash normalise_path routes_at add_at
    add_route add_regex_route method_fits find_exact find_prefix find_regex find new bytes_eq
    begins_with has_byte before behind ends_in pop_back
program = tt

abbrev search_text : Bytes → Bytes → Option (List Bytes)
search_text p target = if begins_with p target then some (target ∷ []) else none

abbrev route_to : Bytes → ℕ → Route Bytes ℕ
route_to p h = record { method = []; regex = p; handler = h }

abbrev items : Bytes
items = codes "/items/<int>"

abbrev users : Bytes
users = codes "/users/"

abbrev table : RouteTable Bytes ℕ
table =
    add_route users (route_to users 1) false
      (add_route items (route_to (codes "/items/") 2) false new)

find_static :
    find bytes_eq search_text (codes "GET") (codes "/users?page=2") table
    ≡ some (route_to users 1, codes "/users" ∷ [])
unfolding program
find_static = refl

find_tagged :
    find bytes_eq search_text (codes "GET") (codes "/items/7") table
    ≡ some (route_to (codes "/items/") 2, codes "/items/7" ∷ [])
unfolding program
find_tagged = refl

find_missing : find bytes_eq search_text (codes "GET") (codes "/other") table ≡ none
unfolding program
find_missing = refl

-- The prefix of a specification whose tag does not follow a slash.
prefix_inside_segment : extract_static_prefix (codes "/item-<int>") ≡ codes "/item-"
unfolding program
prefix_inside_segment = refl

find-matches_example :
    find bytes_eq search_text (codes "GET") users table
    ≡ first (matches bytes_eq search_text (codes "GET") users table)
find-matches_example = find-matches bytes_eq search_text (codes "GET") users table
