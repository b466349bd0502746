-- ===== src/RouteTable/Paths.antt =====
-- What include/libasyik/route_table.hpp makes of a route's specification and of a request's target.
use libasyik.Common.{
  ◌<◌, ◌≡◌, refl, ap, ◌≢◌, inl, inr, [], ◌∷◌, ◌++◌, true, false, not, ltb, length, length-append,
  lt→ltb, Bytes, has_byte, behind, ends_in, before_of_absent, before-append, before-behind,
  has_byte-before, has_byte-append, ends_in-append, pop_back-append, Bool-cases, arith,
}
use libasyik.RouteTable.{
  tag, query, slash, extract_static_prefix, is_static_route, strip_slash, normalise_path,
}

-- The static prefix of a specification with a tag is all that stands before its first tag, and
-- has no tag itself.
extract_static_prefix_lem :
    (s : Bytes)
    → is_static_route s ≡ false
    → (extract_static_prefix s ++ tag ∷ behind tag s ≡ s)
      × (is_static_route (extract_static_prefix s) ≡ true)
unfolding is_static_route extract_static_prefix
extract_static_prefix_lem s h = elim (Bool-cases (has_byte tag s)) [
  | inl e ↦ rw e (before-behind tag s e, ap not (has_byte-before tag s))
  | inr e ↦ absurd (cc (h, ap not e))
]

-- The query of a target does not count for the normalised path.
normalise_path-query : (path q : Bytes) → normalise_path (path ++ query ∷ q) ≡ normalise_path path
unfolding normalise_path
normalise_path-query path q = ap strip_slash (before-append query path q)

-- A slash behind a path that has no query, does not end in one and is not empty does not count
-- for the normalised path.
normalise_path-slash :
    (path : Bytes)
    → has_byte query path ≡ false
    → ends_in slash path ≡ false
    → path ≢ []
    → normalise_path (path ++ slash ∷ []) ≡ normalise_path path
unfolding normalise_path strip_slash
normalise_path-slash [] h e n = absurd (n refl)
normalise_path-slash (a ∷ s) h e n =
    let path = a ∷ s in
    let size : 1 < length (path ++ slash ∷ []) = omega (arith, length-append s (slash ∷ [])) in
    rw
      (
        before_of_absent query path h,
        before_of_absent query (path ++ slash ∷ [])
            (has_byte-append query slash path h (omega arith)),
        lt→ltb 1 (length (path ++ slash ∷ [])) size,
        ends_in-append slash path,
        pop_back-append slash path,
        e,
      )
      (elim (Bool-cases (ltb 1 (length path))) [ inl i ↦ rw i refl | inr i ↦ rw i refl ])
