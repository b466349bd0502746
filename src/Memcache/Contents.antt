-- ===== src/Memcache/Contents.antt =====
-- `size` and `contains` of include/libasyik/memcache.hpp against what the cache holds.
use libasyik.Common.{
  ℕ, suc, ◌+◌, ◌≤◌, ◌≡◌, refl, ap, ◌∙◌, inl, inr, true, false, Option, none, some, List, [], ◌∷◌,
  ◌++◌, map, arith, ltb, if◌then◌else◌, Option-cases, Bool-cases, length, length-append, lt→ltb,
}
use libasyik.Memcache.{Segment, MapList, find, holder, find_live, at, contains, size, prune}
use libasyik.Memcache.Segments.{Under, survives, holder-prune}
use libasyik.Memcache.View.{value}
use libasyik.Memcache.Invariant.{IsValid}
use libasyik.Memcache.Copies.{pick, copies, occurs, copies-prune, occurs_absent, occurs_present}
use libasyik.Memcache.Lifetime.{at-holder}

-- The keys of the segments that have not expired, wherever they stand.
pub live_keys {ℓ} : {K V : Type ℓ} → ℕ → MapList K V → List K
live_keys now [] = []
live_keys now ((d, s) ∷ m) =
    if ltb d now then live_keys now m else map (λ e. e.0) s ++ live_keys now m

live_keys_expired {ℓ} :
    {K V : Type ℓ} (now b : ℕ) (m : MapList K V) → Under b m → b ≤ now → live_keys now m ≡ []
unfolding live_keys
live_keys_expired now b [] u h = refl
live_keys_expired now b ((d, s) ∷ m) u h =
    rw (lt→ltb d now (omega arith)) (live_keys_expired now d m u.1 (omega arith))

length-keys {ℓ} : {K V : Type ℓ} (s : Segment K V) → length (map (λ e. e.0) s) ≡ length s
length-keys [] = refl
length-keys (e ∷ s) = ap suc (length-keys s)

size-length {ℓ} :
    {K V : Type ℓ} (now b : ℕ) (m : MapList K V) → Under b m → size now m ≡ length (live_keys now m)
unfolding size live_keys
size-length now b [] u = refl
size-length now b ((d, s) ∷ m) u = elim (Bool-cases (ltb d now)) [
  | inl e ↦ rw (e, live_keys_expired now d m u.1 (ground arith))
  | inr e ↦ rw e (
      omega (
        arith,
        length-append (map (λ e. e.0) s) (live_keys now m),
        length-keys s,
        size-length now d m u.1,
      ))
]

abbrev pub count {ℓ} : {K : Type ℓ} (dec : Discrete K) → K → List K → ℕ
count dec k [] = 0
count dec k (j ∷ l) = pick (dec k j) (suc (count dec k l)) (count dec k l)

count-append {ℓ} :
    {K : Type ℓ} (dec : Discrete K) (k : K) (l l' : List K)
    → count dec k (l ++ l') ≡ count dec k l + count dec k l'
count-append dec k [] l' = omega arith
count-append dec k (j ∷ l) l' =
    elim (dec k j)
      as (λ d.
        pick d (suc (count dec k (l ++ l'))) (count dec k (l ++ l'))
        ≡ pick d (suc (count dec k l)) (count dec k l) + count dec k l') [
          | yes p ↦ omega (arith, count-append dec k l l')
          | no p ↦ count-append dec k l l'
        ]

module _ {ℓ} {K V : Type ℓ} (dec : Discrete K) where
  count-occurs : (k : K) (s : Segment K V) → count dec k (map (λ e. e.0) s) ≡ occurs dec k s
  count-occurs k [] = refl
  count-occurs k ((j, v) ∷ s) = rw (count-occurs k s)

  count-copies :
      (now : ℕ) (k : K) (m : MapList K V)
      → count dec k (live_keys now m) ≡ copies dec k (prune now m)
  unfolding live_keys prune
  count-copies now k [] = refl
  count-copies now k ((d, s) ∷ m) = elim (Bool-cases (ltb d now)) [
    | inl e ↦ rw e (count-copies now k m)
    | inr e ↦ rw e (
        count-append dec k (map (λ x. x.0) s) (live_keys now m)
        ∙ rw (count-occurs k s, count-copies now k m))
  ]

  copies-holder :
      (k : K) (m : MapList K V)
      → copies dec k m ≤ 1
      → copies dec k m ≡ elim (holder dec k m) [ none ↦ 0 | some _ ↦ 1 ]
  unfolding holder
  copies-holder k [] h = refl
  copies-holder k ((d, s) ∷ m) h = elim (Option-cases (find dec k s)) [
    | inl e ↦ rw e (omega (arith, occurs_absent dec k s e, copies-holder k m (omega arith)))
    | inr (v, e) ↦ rw e (omega (arith, occurs_present dec k s v e))
  ]

  -- In a valid cache, size is the number of the live keys, each of which is listed once exactly
  -- when contains holds of it.
  size_lem :
      (expiry segments now : ℕ) (m : MapList K V)
      → IsValid dec expiry segments now m
      → (size now m ≡ length (live_keys now m))
        × ((k : K) → count dec k (live_keys now m) ≡ (if contains dec now k m then 1 else 0))
  unfolding contains at
  size_lem expiry segments now m v = (
    size-length now _ m v.ordered,
    λ k.
        count-copies now k m
        ∙ copies-holder k (prune now m) (omega (arith, copies-prune dec now k m, v.unique k))
        ∙ rw (holder-prune dec now _ k m v.ordered) (found k),
  )
    where
      both :
          (o : Option (ℕ × V))
          → ◌≡◌ {A = ℕ}
              (elim o [ none ↦ 0 | some _ ↦ 1 ])
              (if elim (value o) [ none ↦ false | some _ ↦ true ] then 1 else 0)
      both none = refl
      both (some (d, w)) = refl

      found :
          (k : K)
          → ◌≡◌ {A = ℕ}
              (elim (survives now (holder dec k m)) [ none ↦ 0 | some _ ↦ 1 ])
              (if contains dec now k m then 1 else 0)
      found k =
          let live : find_live dec now k m ≡ value (survives now (holder dec k m)) =
            at-holder dec expiry segments now now k m v in
          rw (live, contains) (both (survives now (holder dec k m)))
