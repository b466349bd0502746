-- ===== src/RouteTable/Order.antt =====
-- How a registration in include/libasyik/route_table.hpp changes what is found.
use libasyik.Common.{
  ◌≡◌, refl, sym, ap, ◌∙◌, ◌≢◌, inl, inr, Option, none, some, List, [], ◌∷◌, ◌++◌, Bool, true,
  false, ◌&&◌, if◌then◌else◌, or_else, Bool-cases, Bytes, bytes_eq, bytes_eq_refl, eq_of_bytes_eq,
  begins_with,
}
use mathlib.Core.Option
use libasyik.RouteTable.{
  Route, PrefixEntry, RouteTable, push, is_static_route, extract_static_prefix, normalise_path,
  routes_at, add_at, add_route, add_regex_route, method_fits, find_exact, find_prefix, find_regex,
  find,
}

or_else-none {ℓ} : {A : Type ℓ} (o : Option A) → or_else o none ≡ o
or_else-none none = refl
or_else-none (some a) = refl

or_else_assoc {ℓ} :
    {A : Type ℓ} (o p q : Option A) → or_else (or_else o p) q ≡ or_else o (or_else p q)
or_else_assoc none p q = refl
or_else_assoc (some a) p q = refl

or_else_assoc₃ {ℓ} :
    {A : Type ℓ} (o p q r : Option A)
    → or_else o (or_else p (or_else q r)) ≡ or_else (or_else o (or_else p q)) r
or_else_assoc₃ none none q r = refl
or_else_assoc₃ none (some a) q r = refl
or_else_assoc₃ (some a) p q r = refl

bytes_eq_ne : (s t : Bytes) → s ≢ t → bytes_eq s t ≡ false
bytes_eq_ne s t n = elim (Bool-cases (bytes_eq s t)) [
  | inl e ↦ absurd (n (eq_of_bytes_eq s t e))
  | inr e ↦ e
]

module _ {R H : Type 0} where
  -- The routes of a path after a route has been added at a key.
  routes_at-add_at_self :
      (key : Bytes) (front : Bool) (r : Route R H) (m : List (Bytes × List (Route R H)))
      → routes_at key (add_at key front r m)
        ≡ some (push front r (Option.get_or (routes_at key m) []))
  unfolding routes_at add_at
  routes_at-add_at_self key front r [] = rw (bytes_eq_refl key) refl
  routes_at-add_at_self key front r ((k, vec) ∷ m) = elim (Bool-cases (bytes_eq k key)) [
    | inl e ↦ rw (e, routes_at, e) refl
    | inr e ↦ rw (e, routes_at, e) (routes_at-add_at_self key front r m)
  ]

  routes_at-add_at_ne :
      (key path : Bytes) (front : Bool) (r : Route R H) (m : List (Bytes × List (Route R H)))
      → key ≢ path
      → routes_at path (add_at key front r m) ≡ routes_at path m
  unfolding routes_at add_at
  routes_at-add_at_ne key path front r [] n = rw (bytes_eq_ne key path n) refl
  routes_at-add_at_ne key path front r ((k, vec) ∷ m) n = elim (Bool-cases (bytes_eq k key)) [
    | inl e ↦
        rw (e, routes_at, bytes_eq_ne k path (λ same. n (sym (eq_of_bytes_eq k key e) ∙ same))) refl
    | inr e ↦
        rw (e, routes_at)
          (ap (λ rest. if bytes_eq k path then some vec else rest)
            (routes_at-add_at_ne key path front r m n))
  ]

  module _ (iequals : Bytes → Bytes → Bool) (regex_search : R → Bytes → Option (List Bytes)) where
    find_exact-append :
        (verb path : Bytes) (rs qs : List (Route R H))
        → find_exact iequals verb path (rs ++ qs)
          ≡ or_else (find_exact iequals verb path rs) (find_exact iequals verb path qs)
    unfolding find_exact
    find_exact-append verb path [] qs = refl
    find_exact-append verb path (r ∷ rs) qs = elim (Bool-cases (method_fits iequals r verb)) [
      | inl e ↦ rw e refl
      | inr e ↦ rw e (find_exact-append verb path rs qs)
    ]

    find_regex-append :
        (verb target : Bytes) (rs qs : List (Route R H))
        → find_regex iequals regex_search verb target (rs ++ qs)
          ≡ or_else
              (find_regex iequals regex_search verb target rs)
              (find_regex iequals regex_search verb target qs)
    unfolding find_regex
    find_regex-append verb target [] qs = refl
    find_regex-append verb target (r ∷ rs) qs = elim (Bool-cases (method_fits iequals r verb)) [
      | inl e ↦
          rw (e, find_regex-append verb target rs qs)
            (sym (
              or_else_assoc (Option.map (λ m. (r, m)) (regex_search r.regex target))
                (find_regex iequals regex_search verb target rs)
                (find_regex iequals regex_search verb target qs)))
      | inr e ↦ rw e (find_regex-append verb target rs qs)
    ]

    find_prefix-append :
        (verb target : Bytes) (es fs : List (PrefixEntry R H))
        → find_prefix iequals regex_search verb target (es ++ fs)
          ≡ or_else
              (find_prefix iequals regex_search verb target es)
              (find_prefix iequals regex_search verb target fs)
    unfolding find_prefix
    find_prefix-append verb target [] fs = refl
    find_prefix-append verb target (e ∷ es) fs =
        elim (Bool-cases (begins_with e.prefix target && method_fits iequals e.route verb)) [
          | inl i ↦
              rw (i, find_prefix-append verb target es fs)
                (sym (
                  or_else_assoc (Option.map (λ m. (e.route, m)) (regex_search e.route.regex target))
                    (find_prefix iequals regex_search verb target es)
                    (find_prefix iequals regex_search verb target fs)))
          | inr i ↦ rw i (find_prefix-append verb target es fs)
        ]

    -- A static route that is put in front and whose method fits is what is found for every target
    -- with its normalised path, with that path as the one argument.
    find-add_route_front :
        (verb target spec : Bytes) (r : Route R H) (t : RouteTable R H)
        → is_static_route spec ≡ true
        → method_fits iequals r verb ≡ true
        → normalise_path target ≡ normalise_path spec
        → find iequals regex_search verb target (add_route spec r true t)
          ≡ some (r, normalise_path spec ∷ [])
    unfolding find add_route find_exact
    find-add_route_front verb target spec r t static fits same =
        rw (static, same, routes_at-add_at_self (normalise_path spec) true r t.exact_routes, fits)
          refl

    -- A static route that is put last and whose method fits is found for its path exactly when no
    -- earlier static route of that path fits, ahead of the other tiers.
    find-add_route_back :
        (verb target spec : Bytes) (r : Route R H) (t : RouteTable R H)
        → is_static_route spec ≡ true
        → method_fits iequals r verb ≡ true
        → normalise_path target ≡ normalise_path spec
        → find iequals regex_search verb target (add_route spec r false t)
          ≡ or_else
              (find_exact iequals verb
                (normalise_path spec)
                (Option.get_or (routes_at (normalise_path spec) t.exact_routes) []))
              (some (r, normalise_path spec ∷ []))
    unfolding find add_route find_exact
    find-add_route_back verb target spec r t static fits same =
        let vec = Option.get_or (routes_at (normalise_path spec) t.exact_routes) [] in
        rw
          (
            static,
            same,
            routes_at-add_at_self (normalise_path spec) false r t.exact_routes,
            find_exact-append verb (normalise_path spec) vec (r ∷ []),
            fits,
          )
          (or_else_assoc (find_exact iequals verb (normalise_path spec) vec) _ _)

    -- A static route with another normalised path, or a route with a tag whose prefix the target
    -- does not begin with, changes no answer.
    find-add_route_other :
        (verb target spec : Bytes) (r : Route R H) (front : Bool) (t : RouteTable R H)
        → (if is_static_route spec
            then bytes_eq (normalise_path spec) (normalise_path target)
            else begins_with (extract_static_prefix spec) target)
          ≡ false
        → find iequals regex_search verb target (add_route spec r front t)
          ≡ find iequals regex_search verb target t
    unfolding find add_route find_prefix
    find-add_route_other verb target spec r front t other =
        elim (Bool-cases (is_static_route spec)) [
          | inl e ↦
              rw
                (
                  e,
                  routes_at-add_at_ne (normalise_path spec) (normalise_path target) front r
                      t.exact_routes (apart e),
                )
                refl
          | inr e ↦ rw (e, skips e front) refl
        ]
      where
        apart : is_static_route spec ≡ true → normalise_path spec ≢ normalise_path target
        apart e same = cc (other, e, same, bytes_eq_refl (normalise_path target))

        skips :
            is_static_route spec ≡ false
            → (front : Bool)
            → find_prefix iequals regex_search verb target (
                push front
                  (record { prefix = extract_static_prefix spec; route = r })
                  t.prefix_routes)
              ≡ find_prefix iequals regex_search verb target t.prefix_routes
        skips e true =
            let skip : begins_with (extract_static_prefix spec) target ≡ false = cc (other, e) in
            rw skip refl
        skips e false =
            let skip : begins_with (extract_static_prefix spec) target ≡ false = cc (other, e) in
            find_prefix-append verb target t.prefix_routes _ ∙ rw skip (or_else-none _)

    -- A raw route that is put last is asked only when nothing else is found.
    find-add_regex_route :
        (verb target : Bytes) (r : Route R H) (t : RouteTable R H)
        → find iequals regex_search verb target (add_regex_route r false t)
          ≡ or_else
              (find iequals regex_search verb target t)
              (find_regex iequals regex_search verb target (r ∷ []))
    unfolding find add_regex_route
    find-add_regex_route verb target r t =
        rw (find_regex-append verb target t.fallback_routes (r ∷ [])) (
          or_else_assoc₃
            (find_exact iequals verb (normalise_path target)
              (Option.get_or (routes_at (normalise_path target) t.exact_routes) []))
            (find_prefix iequals regex_search verb target t.prefix_routes)
            (find_regex iequals regex_search verb target t.fallback_routes)
            (find_regex iequals regex_search verb target (r ∷ [])))
