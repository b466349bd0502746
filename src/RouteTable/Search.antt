-- ===== src/RouteTable/Search.antt =====
-- `route_table::find` of include/libasyik/route_table.hpp, against the list of all the matches.
use libasyik.Common.{
  ◌≡◌, refl, sym, ap, ◌∙◌, inl, inr, Option, none, some, List, [], ◌∷◌, ◌++◌, map, Bool, false,
  if◌then◌else◌, or_else, Bool-cases, Option-cases, Bytes, begins_with,
}
use mathlib.Core.Option
use libasyik.RouteTable.{
  Route, PrefixEntry, RouteTable, normalise_path, routes_at, method_fits, find_exact, find_prefix,
  find_regex, find,
}

abbrev pub first {ℓ} : {A : Type ℓ} → List A → Option A
first [] = none
first (a ∷ rest) = some a

abbrev pub to_list {ℓ} : {A : Type ℓ} → Option A → List A
to_list none = []
to_list (some a) = a ∷ []

-- The results over a list, in its order.
abbrev pub gather {ℓ κ} : {A : Type ℓ} {B : Type κ} → (A → Option B) → List A → List B
gather f [] = []
gather f (a ∷ rest) = to_list (f a) ++ gather f rest

first-append {ℓ} :
    {A : Type ℓ} (rest bs : List A) → first (rest ++ bs) ≡ or_else (first rest) (first bs)
first-append [] bs = refl
first-append (a ∷ rest) bs = refl

first-gather {ℓ κ} :
    {A : Type ℓ} {B : Type κ} (f : A → Option B) (a : A) (rest : List A)
    → first (gather f (a ∷ rest)) ≡ or_else (f a) (first (gather f rest))
first-gather f a rest = elim (Option-cases (f a)) [ inl e ↦ rw e refl | inr (b, e) ↦ rw e refl ]

module _ {R H : Type 0} (iequals : Bytes → Bytes → Bool)
    (regex_search : R → Bytes → Option (List Bytes)) where
  -- What one route answers to a request, in each of the tiers.
  abbrev pub exact_match : (verb path : Bytes) → Route R H → Option (Route R H × List Bytes)
  exact_match verb path r = if method_fits iequals r verb then some (r, path ∷ []) else none

  abbrev pub regex_match : (verb target : Bytes) → Route R H → Option (Route R H × List Bytes)
  regex_match verb target r =
      if method_fits iequals r verb
      then Option.map (λ m. (r, m)) (regex_search r.regex target)
      else none

  abbrev pub prefix_match :
      (verb target : Bytes) → PrefixEntry R H → Option (Route R H × List Bytes)
  prefix_match verb target e =
      if begins_with e.prefix target then regex_match verb target e.route else none

  -- All the matches of a request, in the order of the tiers and of the routes in each.
  abbrev pub matches : (verb target : Bytes) → RouteTable R H → List (Route R H × List Bytes)
  matches verb target t =
      gather (exact_match verb (normalise_path target))
        (Option.get_or (routes_at (normalise_path target) t.exact_routes) [])
      ++ (gather (prefix_match verb target) t.prefix_routes
          ++ gather (regex_match verb target) t.fallback_routes)

  find_exact-gather :
      (verb path : Bytes) (rs : List (Route R H))
      → find_exact iequals verb path rs ≡ first (gather (exact_match verb path) rs)
  unfolding find_exact
  find_exact-gather verb path [] = refl
  find_exact-gather verb path (r ∷ rs) = elim (Bool-cases (method_fits iequals r verb)) [
    | inl e ↦ rw e refl
    | inr e ↦ rw e (find_exact-gather verb path rs)
  ]

  pub find_regex-gather :
      (verb target : Bytes) (rs : List (Route R H))
      → find_regex iequals regex_search verb target rs ≡ first (gather (regex_match verb target) rs)
  unfolding find_regex
  find_regex-gather verb target [] = refl
  find_regex-gather verb target (r ∷ rs) = sym (
      first-gather (regex_match verb target) r rs ∙ elim (Bool-cases (method_fits iequals r verb)) [
        | inl e ↦ rw (e, find_regex-gather verb target rs) refl
        | inr e ↦ rw (e, find_regex-gather verb target rs) refl
      ])

  find_prefix-gather :
      (verb target : Bytes) (es : List (PrefixEntry R H))
      → find_prefix iequals regex_search verb target es
        ≡ first (gather (prefix_match verb target) es)
  unfolding find_prefix
  find_prefix-gather verb target [] = refl
  find_prefix-gather verb target (e ∷ es) = sym (
      first-gather (prefix_match verb target) e es
      ∙ elim (Bool-cases (begins_with e.prefix target)) [
        | inl i ↦ elim (Bool-cases (method_fits iequals e.route verb)) [
          | inl j ↦ rw (i, j, find_prefix-gather verb target es) refl
          | inr j ↦ rw (i, j, find_prefix-gather verb target es) refl
        ]
        | inr i ↦ rw (i, find_prefix-gather verb target es) refl
      ])

  -- The search in three tiers answers with the first of all matches, listed by tier and by place
  -- in it, and with nothing exactly when there is none.
  pub find-matches :
      (verb target : Bytes) (t : RouteTable R H)
      → find iequals regex_search verb target t ≡ first (matches verb target t)
  unfolding find
  find-matches verb target t =
      rw
        (
          find_exact-gather verb (normalise_path target)
              (Option.get_or (routes_at (normalise_path target) t.exact_routes) []),
          find_prefix-gather verb target t.prefix_routes,
          find_regex-gather verb target t.fallback_routes,
        )
        (sym (
          first-append exact (prefix ++ regex)
          ∙ ap (or_else (first exact)) (first-append prefix regex)))
    where
      exact : List (Route R H × List Bytes)
      exact =
          gather (exact_match verb (normalise_path target))
            (Option.get_or (routes_at (normalise_path target) t.exact_routes) [])

      prefix : List (Route R H × List Bytes)
      prefix = gather (prefix_match verb target) t.prefix_routes

      regex : List (Route R H × List Bytes)
      regex = gather (regex_match verb target) t.fallback_routes

  abbrev pub IsNarrow : (target : Bytes) → List (PrefixEntry R H) → Type 0
  IsNarrow target [] = Unit
  IsNarrow target (e ∷ es) =
      (begins_with e.prefix target ≡ false → regex_search e.route.regex target ≡ none)
      × IsNarrow target es

  -- Where the expressions of the entries match no target that lacks the entry's prefix, the
  -- comparison of prefixes changes no answer of the second tier.
  find_prefix_lem :
      (verb target : Bytes) (es : List (PrefixEntry R H))
      → IsNarrow target es
      → find_prefix iequals regex_search verb target es
        ≡ find_regex iequals regex_search verb target (map (λ e. e.route) es)
  unfolding find_prefix find_regex
  find_prefix_lem verb target [] h = refl
  find_prefix_lem verb target (e ∷ es) (h, hs) =
      rw (find_prefix_lem verb target es hs) (elim (Bool-cases (begins_with e.prefix target)) [
        | inl i ↦ rw i refl
        | inr i ↦ elim (Bool-cases (method_fits iequals e.route verb)) [
          | inl j ↦ rw (i, j, h i) refl
          | inr j ↦ rw (i, j) refl
        ]
      ])
