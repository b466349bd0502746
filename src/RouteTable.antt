-- ===== src/RouteTable.antt =====
-- include/libasyik/route_table.hpp: the table that finds the route of a request, in three tiers.
-- The regular expressions are those of the standard library: `regex_search` is a parameter, which
-- answers with the match and its groups. `iequals` is the one of Boost.
pub mod Paths
pub mod Search
pub mod Order
mod Tests
use libasyik.Common.{
  ℕ, Option, none, some, List, [], ◌∷◌, ◌++◌, Bool, true, false, not, ◌&&◌, ◌||◌, ltb,
  if◌then◌else◌, length, or_else, Bytes, codes, bytes_eq, begins_with, has_byte, before, ends_in,
  pop_back,
}
use mathlib.Core.Option

-- The bytes '<', '?' and '/'.
abbrev pub tag : ℕ
tag = 60

abbrev pub query : ℕ
query = 63

abbrev pub slash : ℕ
slash = 47

pub extract_static_prefix : Bytes → Bytes
extract_static_prefix s =
    if has_byte tag s then before tag s else (if ends_in slash s then pop_back s else s)

unfoldable pub is_static_route : Bytes → Bool
is_static_route s = not (has_byte tag s)

unfoldable pub strip_slash : Bytes → Bytes
strip_slash s = if ltb 1 (length s) && ends_in slash s then pop_back s else s

unfoldable pub normalise_path : Bytes → Bytes
normalise_path target = strip_slash (before query target)

-- A route: its method, its regular expression and its handler.
pub record Route (R H : Type 0) : Type 0 where
  pub method : Bytes
  pub regex : R
  pub handler : H

pub record PrefixEntry (R H : Type 0) : Type 0 where
  pub prefix : Bytes
  pub route : Route R H

-- The unordered map from a path to its routes is an association list.
pub record RouteTable (R H : Type 0) : Type 0 where
  pub exact_routes : List (Bytes × List (Route R H))
  pub prefix_routes : List (PrefixEntry R H)
  pub fallback_routes : List (Route R H)

abbrev pub push {ℓ} : {A : Type ℓ} → Bool → A → List A → List A
push true a xs = a ∷ xs
push false a xs = xs ++ a ∷ []

module _ {R H : Type 0} where
  unfoldable pub new : RouteTable R H
  new = record { exact_routes = []; prefix_routes = []; fallback_routes = [] }

  -- `exact_routes_.find(path)`
  unfoldable pub routes_at : Bytes → List (Bytes × List (Route R H)) → Option (List (Route R H))
  routes_at path [] = none
  routes_at path ((key, vec) ∷ m) = if bytes_eq key path then some vec else routes_at path m

  -- `exact_routes_[key]`, with the insertion into the vector that it refers to.
  unfoldable pub add_at :
      Bytes → Bool → Route R H → List (Bytes × List (Route R H)) → List (Bytes × List (Route R H))
  add_at path insert_front r [] = (path, push insert_front r []) ∷ []
  add_at path insert_front r ((key, vec) ∷ m) =
      let rest = add_at path insert_front r m in
      if bytes_eq key path then (key, push insert_front r vec) ∷ m else (key, vec) ∷ rest

  unfoldable pub add_route :
      (route_spec : Bytes) → Route R H → (insert_front : Bool) → RouteTable R H → RouteTable R H
  add_route route_spec r insert_front t =
      if is_static_route route_spec
      then record {
        exact_routes = add_at (normalise_path route_spec) insert_front r t.exact_routes;
        prefix_routes = t.prefix_routes;
        fallback_routes = t.fallback_routes;
      }
      else record {
        exact_routes = t.exact_routes;
        prefix_routes =
            push insert_front (record { prefix = extract_static_prefix route_spec; route = r })
              t.prefix_routes;
        fallback_routes = t.fallback_routes;
      }

  pub add_regex_route : Route R H → (insert_front : Bool) → RouteTable R H → RouteTable R H
  add_regex_route r insert_front t = record {
    exact_routes = t.exact_routes;
    prefix_routes = t.prefix_routes;
    fallback_routes = push insert_front r t.fallback_routes;
  }

  pub empty : RouteTable R H → Bool
  empty t =
      ltb (length t.exact_routes) 1
      && ltb (length t.prefix_routes) 1
      && ltb (length t.fallback_routes) 1

  -- A request: its method string and its target. A search that finds a route gives it with the
  -- arguments.
  module _ (iequals : Bytes → Bytes → Bool) where
    unfoldable pub method_fits : Route R H → Bytes → Bool
    method_fits r verb = bytes_eq r.method [] || iequals r.method verb

    unfoldable pub find_exact :
        (verb path : Bytes) → List (Route R H) → Option (Route R H × List Bytes)
    find_exact verb path [] = none
    find_exact verb path (r ∷ rs) =
        let rest = find_exact verb path rs in
        if method_fits r verb then some (r, path ∷ []) else rest

    module _ (regex_search : R → Bytes → Option (List Bytes)) where
      unfoldable pub find_regex :
          (verb target : Bytes) → List (Route R H) → Option (Route R H × List Bytes)
      find_regex verb target [] = none
      find_regex verb target (r ∷ rs) =
          let rest = find_regex verb target rs in
          if method_fits r verb
          then or_else (Option.map (λ m. (r, m)) (regex_search r.regex target)) rest
          else rest

      unfoldable pub find_prefix :
          (verb target : Bytes) → List (PrefixEntry R H) → Option (Route R H × List Bytes)
      find_prefix verb target [] = none
      find_prefix verb target (e ∷ es) =
          let rest = find_prefix verb target es in
          if begins_with e.prefix target && method_fits e.route verb
          then or_else (Option.map (λ m. (e.route, m)) (regex_search e.route.regex target)) rest
          else rest

      -- `none` is the exception `not_found_error`.
      unfoldable pub find : (verb target : Bytes) → RouteTable R H → Option (Route R H × List Bytes)
      find verb target t =
          let path = normalise_path target in
          or_else (find_exact verb path (Option.get_or (routes_at path t.exact_routes) [])) (
            or_else (find_prefix verb target t.prefix_routes)
              (find_regex verb target t.fallback_routes))
