-- ===== src/Memcache/Segments.antt =====
-- Lemmas on one segment and on the list of segments, for the theorems on the cache of
-- include/libasyik/memcache.hpp.
use libasyik.Common.{
  ℕ, suc, ◌+◌, ◌≤◌, ◌<◌, ◌≡◌, refl, sym, ◌∙◌, ◌≢◌, ◌⊎◌, inl, inr, ite, Option, none, some, [], ◌∷◌,
  arith, ltb, if◌then◌else◌, Option-cases, Bool-cases,
}
use libasyik.Memcache.{
  Segment, MapList, expiry_ms, segment_ms, find, remove, emplace, assign, segment_at,
  youngest_segment, prune, remove_all, holder, emplace_in, remove_in,
}

-- Deadlines fall along the list and stay under the bound.
abbrev pub Under {ℓ} : {K V : Type ℓ} → ℕ → MapList K V → Type 0
Under b [] = Unit
Under b ((d, s) ∷ m) = (d < b) × Under d m

pub Under-mono {ℓ} : {K V : Type ℓ} (b c : ℕ) (m : MapList K V) → b ≤ c → Under b m → Under c m
Under-mono b c [] h u = tt
Under-mono b c ((d, s) ∷ m) h u = (omega arith, u.1)

-- What is left of a key's entry once the segments that expired before `now` are passed over.
abbrev pub survives {ℓ} : {V : Type ℓ} → ℕ → Option (ℕ × V) → Option (ℕ × V)
survives now none = none
survives now (some (d, v)) = if ltb d now then none else some (d, v)

module _ {ℓ} {K V : Type ℓ} where
  pub segment_at-Under : (d : ℕ) (m : MapList K V) → Under d m → segment_at d m ≡ (d, []) ∷ m
  unfolding segment_at
  segment_at-Under d [] u = refl
  segment_at-Under d ((e, s) ∷ m) u = ground arith

  pub prune-Under : (now b : ℕ) (m : MapList K V) → Under b m → Under b (prune now m)
  unfolding prune
  prune-Under now b [] u = tt
  prune-Under now b ((d, s) ∷ m) u =
      ground (arith, prune-Under now d m u.1, Under-mono {V = V} d b (prune now m))

  -- The list m' is m with its front segment, of deadline d, or with a fresh one put before it.
  abbrev pub Front : ℕ → MapList K V → MapList K V → Type ℓ
  Front d m' m =
      ((s : Segment K V) × (r : MapList K V) × (m ≡ (d, s) ∷ r) × (m' ≡ (d, s) ∷ r))
      ⊎ ((m' ≡ (d, []) ∷ m) × Under d m)

  module _ (expiry segments now : ℕ) where
    pub youngest_segment-Front :
        (b : ℕ) (m : MapList K V)
        → Under b m
        → let (d, m') = youngest_segment expiry segments now m in Front d m' m
    unfolding youngest_segment segment_at
    youngest_segment-Front b [] u = inr (refl, tt)
    youngest_segment-Front b ((e, s) ∷ m) u = elim (Bool-cases (ltb e (now + expiry_ms expiry))) [
      | inl old ↦
          let new = now + expiry_ms expiry + segment_ms expiry segments in
          let young : e < new = ground arith in
          rw old (inr (segment_at-Under new ((e, s) ∷ m) (young, u.1), (young, u.1)))
      | inr fresh ↦ rw fresh (inl (s, m, refl, refl))
    ]

    -- A new entry lives a full lifetime, and at most a segment's width longer.
    pub youngest_segment_bounds :
        (m : MapList K V)
        → Under (suc (now + expiry_ms expiry + segment_ms expiry segments)) m
        → let d = (youngest_segment expiry segments now m).0 in
          (now + expiry_ms expiry ≤ d) × (d ≤ now + expiry_ms expiry + segment_ms expiry segments)
    unfolding youngest_segment
    youngest_segment_bounds [] u = omega arith
    youngest_segment_bounds ((e, s) ∷ m) u = ground arith

module _ {ℓ} {K V : Type ℓ} (dec : Discrete K) where
  pub find-remove :
      (k j : K) (s : Segment K V) → find dec j (remove dec k s) ≡ ite (dec j k) none (find dec j s)
  unfolding find remove
  find-remove k j [] = ground arith
  find-remove k j ((i, v) ∷ s) = ground (arith, find-remove k j s)

  pub find-emplace :
      (k j : K) (v : V) (s : Segment K V)
      → find dec k s ≡ none
      → find dec j (emplace dec k v s) ≡ ite (dec j k) (some v) (find dec j s)
  unfolding find emplace
  find-emplace k j v s h = ground arith

  pub find-assign :
      (k j : K) (v : V) (s : Segment K V) (w : V)
      → find dec k s ≡ some w
      → find dec j (assign dec k v s) ≡ ite (dec j k) (some v) (find dec j s)
  unfolding find assign
  find-assign k j v [] w h = ground arith
  find-assign k j v ((i, u) ∷ s) w h = ground (arith, find-assign k j v s w)

  pub holder-remove_all :
      (k j : K) (m : MapList K V)
      → holder dec j (remove_all dec k m) ≡ ite (dec j k) none (holder dec j m)
  unfolding holder remove_all
  holder-remove_all k j [] = ground arith
  holder-remove_all k j ((d, s) ∷ m) = ground (arith, holder-remove_all k j m, find-remove k j s)

  pub holder-Under :
      (b : ℕ) (k : K) (m : MapList K V) {d : ℕ} {v : V}
      → Under b m
      → holder dec k m ≡ some (d, v)
      → d < b
  unfolding holder
  holder-Under b k [] u h = ground arith
  holder-Under b k ((e, s) ∷ m) {d} {v} u h = ground (arith, holder-Under e k m {d = d} {v = v} u.1)

  -- `emplace_in` at the front segment
  pub holder-emplace_in :
      (d : ℕ) (k j : K) (v : V) (s : Segment K V) (m : MapList K V)
      → find dec k s ≡ none
      → holder dec j (emplace_in dec d k v ((d, s) ∷ m))
        ≡ ite (dec j k) (some (d, v)) (holder dec j ((d, s) ∷ m))
  unfolding holder emplace_in
  holder-emplace_in d k j v s m h = ground (arith, find-emplace k j v s h)

  -- `remove_in` away from the front, below which the segment stands
  pub holder-remove_in_ne :
      (d : ℕ) (k j : K) (m : MapList K V)
      → j ≢ k
      → holder dec j (remove_in dec d k m) ≡ holder dec j m
  unfolding holder remove_in
  holder-remove_in_ne d k j [] h = refl
  holder-remove_in_ne d k j ((e, s) ∷ m) h =
      ground (arith, find-remove k j s, holder-remove_in_ne d k j m)

  pub holder_expired :
      (now b : ℕ) (k : K) (m : MapList K V)
      → Under b m
      → b ≤ now
      → survives now (holder dec k m) ≡ none
  unfolding holder
  holder_expired now b k [] u h = refl
  holder_expired now b k ((d, s) ∷ m) u h = ground (arith, holder_expired now d k m u.1)

  pub holder-prune :
      (now b : ℕ) (k : K) (m : MapList K V)
      → Under b m
      → holder dec k (prune now m) ≡ survives now (holder dec k m)
  unfolding holder prune
  holder-prune now b k [] u = refl
  holder-prune now b k ((d, s) ∷ m) u = elim (Bool-cases (ltb d now)) [
    | inl old ↦ rw old (
        holder-prune now d k m u.1
        ∙ holder_expired now d k m u.1 (ground arith)
        ∙ sym (holder_expired now (suc d) k ((d, s) ∷ m) (omega arith, u.1) (ground arith)))
    | inr new ↦ rw new (elim (Option-cases (find dec k s)) [
      | inl e ↦ rw (e, holder) (holder-prune now d k m u.1)
      | inr (v, e) ↦ rw (e, holder) (rw new)
    ])
  ]

  pub remove_all-Under :
      (k : K) (b : ℕ) (m : MapList K V) → Under b m → Under b (remove_all dec k m)
  unfolding remove_all
  remove_all-Under k b [] u = tt
  remove_all-Under k b ((d, s) ∷ m) u = (u.0, remove_all-Under k d m u.1)

  pub emplace_in-Under :
      (d : ℕ) (k : K) (v : V) (b : ℕ) (m : MapList K V)
      → Under b m
      → Under b (emplace_in dec d k v m)
  unfolding emplace_in
  emplace_in-Under d k v b [] u = tt
  emplace_in-Under d k v b ((e, s) ∷ m) u = ground (arith, emplace_in-Under d k v e m u.1)

  pub remove_in-Under :
      (d : ℕ) (k : K) (b : ℕ) (m : MapList K V) → Under b m → Under b (remove_in dec d k m)
  unfolding remove_in
  remove_in-Under d k b [] u = tt
  remove_in-Under d k b ((e, s) ∷ m) u = ground (arith, remove_in-Under d k e m u.1)

  -- The move of an entry to the front segment.
  pub holder_moved :
      (y d : ℕ) (k j : K) (v : V) (s : Segment K V) (m : MapList K V)
      → find dec k s ≡ none
      → y ≢ d
      → holder dec j (remove_in dec d k (emplace_in dec y k v ((y, s) ∷ m)))
        ≡ ite (dec j k) (some (y, v)) (holder dec j ((y, s) ∷ m))
  unfolding holder emplace_in remove_in
  holder_moved y d k j v s m h h' =
      ground (arith, find-emplace k j v s h, holder-remove_in_ne d k j m)
