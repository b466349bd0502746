-- ===== src/Memcache/Deadlines.antt =====
-- Lower bounds of the deadlines in the cache of include/libasyik/memcache.hpp: no operation stores
-- an entry with a deadline before its own clock.
use libasyik.Common.{ℕ, ◌+◌, ◌≤◌, List, [], ◌∷◌, if-intro, ltb, ◌==◌, arith, Option-cases, inl, inr}
use libasyik.Memcache.{
  MapList, expiry_ms, segment_ms, segment_at, youngest_segment, prune, put, insert, erase, clear,
  get, get_or_put, visit, touch, refresh, remove_all, emplace_in, remove_in, holder, assign_live,
  find_live,
}
use libasyik.Memcache.Calls.{
  Call, puts, erases, clears, gets, gets_or_puts, visits, prunes, clock, Timely, step,
}

module _ {ℓ} {K V : Type ℓ} (dec : Discrete K) (expiry segments : ℕ) where
  unfoldable pub steps : MapList K V → List (Call K V) → MapList K V
  steps m [] = m
  steps m (c ∷ cs) = steps (step dec expiry segments m c) cs

module _ {ℓ} {K V : Type ℓ} where
  unfoldable pub last_clock : ℕ → List (Call K V) → ℕ
  last_clock now [] = now
  last_clock now (c ∷ cs) = last_clock (clock now c) cs

  -- The deadlines are not below a bound.
  unfoldable pub Above : ℕ → MapList K V → Type 0
  Above b [] = Unit
  Above b ((d, s) ∷ m) = (b ≤ d) × Above b m

  segment_at-Above : (b d : ℕ) (m : MapList K V) → b ≤ d → Above b m → Above b (segment_at d m)
  unfolding Above segment_at
  segment_at-Above b d [] h a = ground arith
  segment_at-Above b d ((e, s) ∷ m) h a = ground (arith, segment_at-Above b d m h)

  youngest_segment-Above :
      (expiry segments now b : ℕ) (m : MapList K V)
      → b ≤ now
      → Above b m
      → Above b (youngest_segment expiry segments now m).1
  unfolding youngest_segment
  youngest_segment-Above expiry segments now b [] h a =
      segment_at-Above b (now + expiry_ms expiry + segment_ms expiry segments) [] (omega (arith, h))
        a
  youngest_segment-Above expiry segments now b ((e, s) ∷ m) h a =
      let d = now + expiry_ms expiry + segment_ms expiry segments in
      if-intro (λ (x : ℕ × MapList K V). Above b x.1) (ltb e (now + expiry_ms expiry))
        (λ _. segment_at-Above b d ((e, s) ∷ m) (omega (arith, h)) a) (λ _. a)

  pub prune-Above : (now b : ℕ) (m : MapList K V) → Above b m → Above b (prune now m)
  unfolding Above prune
  prune-Above now b [] a = tt
  prune-Above now b ((d, s) ∷ m) a = ground (arith, prune-Above now b m)

  pub pruned-Above : (now : ℕ) (m : MapList K V) → Above now (prune now m)
  unfolding Above prune
  pruned-Above now [] = tt
  pruned-Above now ((d, s) ∷ m) = ground (arith, pruned-Above now m)

module _ {ℓ} {K V : Type ℓ} (dec : Discrete K) where
  remove_all-Above : (k : K) (b : ℕ) (m : MapList K V) → Above b m → Above b (remove_all dec k m)
  unfolding Above remove_all
  remove_all-Above k b [] a = tt
  remove_all-Above k b ((d, s) ∷ m) a = (a.0, remove_all-Above k b m a.1)

  emplace_in-Above :
      (d : ℕ) (k : K) (v : V) (b : ℕ) (m : MapList K V)
      → Above b m
      → Above b (emplace_in dec d k v m)
  unfolding Above emplace_in
  emplace_in-Above d k v b [] a = tt
  emplace_in-Above d k v b ((e, s) ∷ m) a = ground (arith, emplace_in-Above d k v b m a.1)

  remove_in-Above :
      (d : ℕ) (k : K) (b : ℕ) (m : MapList K V) → Above b m → Above b (remove_in dec d k m)
  unfolding Above remove_in
  remove_in-Above d k b [] a = tt
  remove_in-Above d k b ((e, s) ∷ m) a = ground (arith, remove_in-Above d k b m a.1)

  assign_live-Above :
      (now : ℕ) (k : K) (v : V) (b : ℕ) (m : MapList K V)
      → Above b m
      → Above b (assign_live dec now k v m)
  unfolding Above assign_live
  assign_live-Above now k v b [] a = tt
  assign_live-Above now k v b ((e, s) ∷ m) a = ground (arith, assign_live-Above now k v b m a.1)

  module _ (expiry segments : ℕ) where
    insert-Above :
        (now : ℕ) (k : K) (v : V) (b : ℕ) (m : MapList K V)
        → b ≤ now
        → Above b m
        → Above b (insert dec expiry segments now k v m)
    unfolding insert
    insert-Above now k v b m h a =
        emplace_in-Above (youngest_segment expiry segments now (remove_all dec k m)).0 k v b
          (youngest_segment expiry segments now (remove_all dec k m)).1
          (youngest_segment-Above expiry segments now b (remove_all dec k m) h
            (remove_all-Above k b m a))

    refresh-Above :
        (now : ℕ) (k : K) (d : ℕ) (v : V) (b : ℕ) (m : MapList K V)
        → b ≤ now
        → Above b m
        → Above b (refresh dec expiry segments now k d v m)
    unfolding refresh
    refresh-Above now k d v b m h a =
        let (young, m') = youngest_segment expiry segments now m in
        let a' : Above b m' = youngest_segment-Above expiry segments now b m h a in
        if-intro (Above b) (young == d) (λ _. a')
          (λ _.
            remove_in-Above d k b (emplace_in dec young k v m')
              (emplace_in-Above young k v b m' a'))

    touch-Above :
        (t₁ t₂ : ℕ) (k : K) (b : ℕ) (m : MapList K V)
        → b ≤ t₂
        → Above b m
        → Above b (touch dec expiry segments t₁ t₂ k m).1
    unfolding touch
    touch-Above t₁ t₂ k b m h a = elim (Option-cases (holder dec k (prune t₁ m))) [
      | inl e ↦ rw (e, touch) (prune-Above t₁ b m a)
      | inr ((d, v), e) ↦
          rw (e, touch) (refresh-Above t₂ k d v b (prune t₁ m) h (prune-Above t₁ b m a))
    ]

    get_or_put-Above :
        (t₁ t₂ t₃ : ℕ) (k : K) (w : V) (b : ℕ) (m : MapList K V)
        → b ≤ t₂
        → t₂ ≤ t₃
        → Above b m
        → Above b (get_or_put dec expiry segments t₁ t₂ t₃ k w m).1
    unfolding get_or_put
    get_or_put-Above t₁ t₂ t₃ k w b m h h' a =
        let after = touch-Above t₁ t₂ k b m h a in
        elim (Option-cases (touch dec expiry segments t₁ t₂ k m).0) [
          | inl e ↦ rw (e, get_or_put) (insert-Above t₃ k w b _ (omega (arith, h, h')) after)
          | inr (x, e) ↦ rw (e, get_or_put) after
        ]

    visit-Above :
        (t : ℕ) (k : K) (f : V → V) (b : ℕ) (m : MapList K V)
        → Above b m
        → Above b (visit dec t k f m).1
    unfolding visit
    visit-Above t k f b m a = elim (Option-cases (find_live dec t k m)) [
      | inl e ↦ rw (e, visit) a
      | inr (v, e) ↦ rw (e, visit) (assign_live-Above t k (f v) b m a)
    ]

    -- Calls after a time leave no deadline before it that was not there.
    pub steps-Above :
        (now b : ℕ) (m : MapList K V) (cs : List (Call K V))
        → b ≤ now
        → Timely now cs
        → Above b m
        → (Above b (steps dec expiry segments m cs)) × (now ≤ last_clock now cs)
    unfolding steps step put erase get clear last_clock Above
    steps-Above now b m [] h t a = (a, omega arith)
    steps-Above now b m (puts t k w ∷ cs) h (before, after) a =
        let (a', l) =
          steps-Above t b (insert dec expiry segments t k w m) cs (omega (arith, h, before)) after
            (insert-Above t k w b m (omega (arith, h, before)) a) in
        (a', omega (arith, l, before))
    steps-Above now b m (erases k ∷ cs) h t a =
        steps-Above now b (remove_all dec k m) cs h t (remove_all-Above k b m a)
    steps-Above now b m (clears ∷ cs) h t a = steps-Above now b [] cs h t tt
    steps-Above now b m (gets t₁ t₂ k ∷ cs) h (first, second, after) a =
        let (a', l) =
          steps-Above t₂ b (touch dec expiry segments t₁ t₂ k m).1 cs
            (omega (arith, h, first, second)) after
            (touch-Above t₁ t₂ k b m (omega (arith, h, first, second)) a) in
        (a', omega (arith, l, first, second))
    steps-Above now b m (gets_or_puts t₁ t₂ t₃ k w ∷ cs) h (first, second, third, after) a =
        let (a', l) =
          steps-Above t₃ b (get_or_put dec expiry segments t₁ t₂ t₃ k w m).1 cs
            (omega (arith, h, first, second, third)) after
            (get_or_put-Above t₁ t₂ t₃ k w b m (omega (arith, h, first, second)) third a) in
        (a', omega (arith, l, first, second, third))
    steps-Above now b m (visits t k f ∷ cs) h (before, after) a =
        let (a', l) =
          steps-Above t b (visit dec t k f m).1 cs (omega (arith, h, before)) after
            (visit-Above t k f b m a) in
        (a', omega (arith, l, before))
    steps-Above now b m (prunes t ∷ cs) h (before, after) a =
        let (a', l) =
          steps-Above t b (prune t m) cs (omega (arith, h, before)) after (prune-Above t b m a) in
        (a', omega (arith, l, before))
