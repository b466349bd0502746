-- ===== src/Memcache/Copies.antt =====
-- How often a key stands in the cache of include/libasyik/memcache.hpp, and how each operation
-- changes that.
use libasyik.Common.{ℕ, suc, ◌+◌, ◌≤◌, ◌<◌, ◌≡◌, refl, ◌≢◌, inl, inr, none, some, [], ◌∷◌, arith}
use libasyik.Memcache.{
  Segment, MapList, find, remove, emplace, assign, prune, holder, remove_all, emplace_in, remove_in,
  assign_live,
}
use libasyik.Memcache.Segments.{Under, Front, holder-Under}

-- A choice between two numbers; `ite` stands at the level of the keys.
abbrev pub pick {ℓ} : {P : Type ℓ} → Dec P → ℕ → ℕ → ℕ
pick (yes _) a b = a
pick (no _) a b = b

pick_self {ℓ} : {K : Type ℓ} (dec : Discrete K) (k : K) (a b : ℕ) → pick (dec k k) a b ≡ a
pick_self dec k a b = elim (dec k k) as (λ d. pick d a b ≡ a) [
  | yes p ↦ refl
  | no p ↦ absurd (p refl)
]

module _ {ℓ} {K V : Type ℓ} (dec : Discrete K) where
  abbrev pub occurs : K → Segment K V → ℕ
  occurs k [] = 0
  occurs k ((j, v) ∷ s) = pick (dec k j) (suc (occurs k s)) (occurs k s)

  -- How often a key stands in the cache, expired segments included.
  abbrev pub copies : K → MapList K V → ℕ
  copies k [] = 0
  copies k ((d, s) ∷ m) = occurs k s + copies k m

  occurs-remove :
      (k j : K) (s : Segment K V) → occurs j (remove dec k s) ≡ pick (dec j k) 0 (occurs j s)
  unfolding remove
  occurs-remove k j [] = ground arith
  occurs-remove k j ((i, v) ∷ s) = ground (arith, occurs-remove k j s)

  pub occurs_absent : (k : K) (s : Segment K V) → find dec k s ≡ none → occurs k s ≡ 0
  unfolding find
  occurs_absent k [] h = refl
  occurs_absent k ((i, v) ∷ s) h = ground (arith, occurs_absent k s)

  pub occurs_present : (k : K) (s : Segment K V) (v : V) → find dec k s ≡ some v → 0 < occurs k s
  unfolding find
  occurs_present k [] v h = ground arith
  occurs_present k ((i, w) ∷ s) v h = ground (arith, occurs_present k s v)

  occurs-assign : (k j : K) (v : V) (s : Segment K V) → occurs j (assign dec k v s) ≡ occurs j s
  unfolding assign
  occurs-assign k j v [] = refl
  occurs-assign k j v ((i, w) ∷ s) = ground (arith, occurs-assign k j v s)

  pub copies-remove_all :
      (k j : K) (m : MapList K V) → copies j (remove_all dec k m) ≡ pick (dec j k) 0 (copies j m)
  unfolding remove_all
  copies-remove_all k j [] = ground arith
  copies-remove_all k j ((d, s) ∷ m) = ground (arith, copies-remove_all k j m, occurs-remove k j s)

  pub copies-emplace_in :
      (d : ℕ) (k j : K) (v : V) (m : MapList K V)
      → copies j (emplace_in dec d k v m) ≤ copies j m + pick (dec j k) 1 0
  unfolding emplace_in emplace
  copies-emplace_in d k j v [] = omega arith
  copies-emplace_in d k j v ((e, s) ∷ m) = ground (arith, copies-emplace_in d k j v m)

  pub copies-remove_in-le :
      (d : ℕ) (k j : K) (m : MapList K V) → copies j (remove_in dec d k m) ≤ copies j m
  unfolding remove_in
  copies-remove_in-le d k j [] = omega arith
  copies-remove_in-le d k j ((e, s) ∷ m) =
      ground (arith, copies-remove_in-le d k j m, occurs-remove k j s)

  copies-remove_in :
      (d b : ℕ) (k : K) (m : MapList K V) (v : V)
      → Under b m
      → holder dec k m ≡ some (d, v)
      → copies k (remove_in dec d k m) + 1 ≤ copies k m
  unfolding remove_in holder
  copies-remove_in d b k [] v u h = ground arith
  copies-remove_in d b k ((e, s) ∷ m) v u h = ground (
    arith,
    copies-remove_in d e k m v u.1,
    occurs-remove k k s,
    pick_self dec k 0 (occurs k s),
    occurs_present k s v,
    holder-Under dec e k m {d = d} {v = v} u.1,
  )

  pub copies-prune : (now : ℕ) (k : K) (m : MapList K V) → copies k (prune now m) ≤ copies k m
  unfolding prune
  copies-prune now k [] = omega arith
  copies-prune now k ((d, s) ∷ m) = ground (arith, copies-prune now k m)

  pub copies-assign_live :
      (now : ℕ) (k j : K) (v : V) (m : MapList K V)
      → copies j (assign_live dec now k v m) ≡ copies j m
  unfolding assign_live
  copies-assign_live now k j v [] = refl
  copies-assign_live now k j v ((d, s) ∷ m) =
      ground (arith, copies-assign_live now k j v m, occurs-assign k j v s)

  pub assign_live-Under :
      (now : ℕ) (k : K) (v : V) (b : ℕ) (m : MapList K V)
      → Under b m
      → Under b (assign_live dec now k v m)
  unfolding assign_live
  assign_live-Under now k v b [] u = tt
  assign_live-Under now k v b ((d, s) ∷ m) u = ground (arith, assign_live-Under now k v d m u.1)

  pub copies-Front : (d : ℕ) (m' m : MapList K V) (j : K) → Front d m' m → copies j m' ≡ copies j m
  copies-Front d m' m j (inl (s, r, e, e')) = rw (e', e)
  copies-Front d m' m j (inr (e, w)) = rw e (omega arith)

  -- Moving the key's entry to the front leaves one copy.
  pub copies_moved :
      (y d b : ℕ) (k : K) (v : V) (m' m : MapList K V)
      → Under b m
      → Front y m' m
      → holder dec k m ≡ some (d, v)
      → copies k m ≤ 1
      → y ≢ d
      → copies k (remove_in dec d k (emplace_in dec y k v m')) ≤ 1
  unfolding holder emplace_in remove_in emplace
  copies_moved y d b k v m' m u (inl (s, r, e, e')) h c n = rw e' (
      ground (
        arith,
        e,
        occurs_absent k s,
        pick_self dec k 1 0,
        copies-remove_in d y k r v (rw e at u).1,
      ))
  copies_moved y d b k v m' m u (inr (e, w)) h c n =
      rw e (ground (arith, pick_self dec k 1 0, copies-remove_in d y k m v w))
