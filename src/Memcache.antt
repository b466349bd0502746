-- ===== src/Memcache.antt =====
-- include/libasyik/memcache.hpp: the cache whose entries expire, kept as segments by deadline.
-- `map_list` is the list of its segments, greatest deadline first, as `std::map` with
-- `std::greater` walks them. Each reading of the steady clock is an argument of its own.
pub mod Segments
pub mod View
pub mod Copies
pub mod Invariant
pub mod Calls
pub mod Lifetime
pub mod Contents
pub mod Deadlines
pub mod Background
mod Tests
use libasyik.Common.{
  ℕ, ◌+◌, ◌*◌, ◌/◌, Bool, true, false, Option, none, some, List, [], ◌∷◌, ite, length, ltb, ◌==◌,
  if◌then◌else◌,
}

-- `std::map<Key, T>`: its order cannot be observed here.
abbrev pub Segment {ℓ} : Type ℓ → Type ℓ → Type ℓ
Segment K V = List (K × V)

abbrev pub MapList {ℓ} : Type ℓ → Type ℓ → Type ℓ
MapList K V = List (ℕ × Segment K V)

-- `expiry_ms` and `segment_ms`
abbrev pub expiry_ms : ℕ → ℕ
expiry_ms expiry = expiry * 1000

abbrev pub segment_ms : ℕ → ℕ → ℕ
segment_ms expiry segments = expiry_ms expiry / segments

-- The operations of one segment, a `std::map`.
module _ {ℓ} {K V : Type ℓ} (dec : Discrete K) where
  pub find : K → Segment K V → Option V
  find k [] = none
  find k ((j, v) ∷ s) = ite (dec k j) (some v) (find k s)

  pub remove : K → Segment K V → Segment K V
  remove k [] = []
  remove k ((j, v) ∷ s) = ite (dec k j) (remove k s) ((j, v) ∷ remove k s)

  -- `emplace` keeps an entry that is already there.
  pub emplace : K → V → Segment K V → Segment K V
  emplace k v s = elim (find k s) [ none ↦ (k, v) ∷ s | some _ ↦ s ]

  -- Assignment through the pointer that `find_live` returns.
  pub assign : K → V → Segment K V → Segment K V
  assign k v [] = []
  assign k v ((j, w) ∷ s) = ite (dec k j) ((j, v) ∷ s) ((j, w) ∷ assign k v s)

module _ {ℓ} {K V : Type ℓ} where
  -- `map_list[d]`, which creates the segment if it is not there.
  pub segment_at : ℕ → MapList K V → MapList K V
  segment_at d [] = (d, []) ∷ []
  segment_at d ((e, s) ∷ m) =
      if d == e
      then (e, s) ∷ m
      else if ltb e d
      then (d, []) ∷ (e, s) ∷ m
      else (e, s) ∷ segment_at d m

  -- The segment for entries stored at `now`, by its deadline, and the list that has it.
  pub youngest_segment : (expiry segments now : ℕ) → MapList K V → ℕ × MapList K V
  youngest_segment expiry segments now [] =
      let d = now + expiry_ms expiry + segment_ms expiry segments in (d, segment_at d [])
  youngest_segment expiry segments now ((e, s) ∷ m) =
      let d = now + expiry_ms expiry + segment_ms expiry segments in
      if ltb e (now + expiry_ms expiry) then (d, segment_at d ((e, s) ∷ m)) else (e, (e, s) ∷ m)

  pub prune : ℕ → MapList K V → MapList K V
  prune now [] = []
  prune now ((d, s) ∷ m) = if ltb d now then prune now m else (d, s) ∷ prune now m

  -- Counts the segments up to the first that has expired.
  pub size : ℕ → MapList K V → ℕ
  size now [] = 0
  size now ((d, s) ∷ m) = if ltb d now then 0 else length s + size now m

  pub clear : MapList K V → MapList K V
  clear m = []

module _ {ℓ} {K V : Type ℓ} (dec : Discrete K) where
  pub find_live : ℕ → K → MapList K V → Option V
  find_live now k [] = none
  find_live now k ((d, s) ∷ m) =
      if ltb d now then none else elim (find dec k s) [ none ↦ find_live now k m | some v ↦ some v ]

  -- The loops `for (auto& m : map_list)` over all segments.
  pub remove_all : K → MapList K V → MapList K V
  remove_all k [] = []
  remove_all k ((d, s) ∷ m) = (d, remove dec k s) ∷ remove_all k m

  pub stored : K → MapList K V → Bool
  stored k [] = false
  stored k ((d, s) ∷ m) = elim (find dec k s) [ none ↦ stored k m | some _ ↦ true ]

  -- The first segment that holds the key, by its deadline, with the value.
  pub holder : K → MapList K V → Option (ℕ × V)
  holder k [] = none
  holder k ((d, s) ∷ m) = elim (find dec k s) [ none ↦ holder k m | some v ↦ some (d, v) ]

  pub emplace_in : ℕ → K → V → MapList K V → MapList K V
  emplace_in d k v [] = []
  emplace_in d k v ((e, s) ∷ m) =
      if d == e then (e, emplace dec k v s) ∷ m else (e, s) ∷ emplace_in d k v m

  pub remove_in : ℕ → K → MapList K V → MapList K V
  remove_in d k [] = []
  remove_in d k ((e, s) ∷ m) = if d == e then (e, remove dec k s) ∷ m else (e, s) ∷ remove_in d k m

  pub erase : K → MapList K V → Bool × MapList K V
  erase k m = (stored k m, remove_all k m)

  module _ (expiry segments : ℕ) where
    pub insert : ℕ → K → V → MapList K V → MapList K V
    insert now k v m =
        let (d, m') = youngest_segment expiry segments now (remove_all k m) in emplace_in d k v m'

    pub put : ℕ → K → V → MapList K V → MapList K V
    put now k v m = insert now k v m

    -- The part of `touch` behind the search: the entry moves to the youngest segment.
    pub refresh : ℕ → K → ℕ → V → MapList K V → MapList K V
    refresh now k d v m =
        let (young, m') = youngest_segment expiry segments now m in
        if young == d then m' else remove_in d k (emplace_in young k v m')

    -- `t₁` is the clock in `prune`, `t₂` the clock in `youngest_segment`.
    pub touch : (t₁ t₂ : ℕ) → K → MapList K V → Option V × MapList K V
    touch t₁ t₂ k m = elim (holder k (prune t₁ m)) [
      | none ↦ (none, prune t₁ m)
      | some (d, v) ↦ (some v, refresh t₂ k d v (prune t₁ m))
    ]

    -- `none` is the exception `std::out_of_range`.
    pub get : (t₁ t₂ : ℕ) → K → MapList K V → Option V × MapList K V
    get t₁ t₂ k m = touch t₁ t₂ k m

    pub try_get : (t₁ t₂ : ℕ) → K → MapList K V → Option V × MapList K V
    try_get t₁ t₂ k m = touch t₁ t₂ k m

    -- `t₃` is the clock in the second `youngest_segment`, behind `make`.
    pub get_or_put : (t₁ t₂ t₃ : ℕ) → K → V → MapList K V → V × MapList K V
    get_or_put t₁ t₂ t₃ k made m =
        let (found, m') = touch t₁ t₂ k m in
        elim found [ none ↦ (made, insert t₃ k made m') | some v ↦ (v, m') ]

  pub at : ℕ → K → MapList K V → Option V
  at now k m = find_live now k m

  pub contains : ℕ → K → MapList K V → Bool
  contains now k m = elim (find_live now k m) [ none ↦ false | some _ ↦ true ]

  pub assign_live : ℕ → K → V → MapList K V → MapList K V
  assign_live now k v [] = []
  assign_live now k v ((d, s) ∷ m) = if ltb d now then (d, s) ∷ m else elim (find dec k s) [
    | none ↦ (d, s) ∷ assign_live now k v m
    | some _ ↦ (d, assign dec k v s) ∷ m
  ]

  pub visit : ℕ → K → (V → V) → MapList K V → Bool × MapList K V
  visit now k f m = elim (find_live now k m) [
    | none ↦ (false, m)
    | some v ↦ (true, assign_live now k (f v) m)
  ]
