-- ===== src/Memcache/Lifetime.antt =====
-- What a client reads from the cache of include/libasyik/memcache.hpp after each operation.
use libasyik.Common.{
  ℕ, ◌+◌, ◌≤◌, ◌≡◌, refl, sym, ap, ◌∙◌, ◌≢◌, ◌⊎◌, ◌↔◌, inl, inr, ite, if_pos, if_neg, false, Option,
  none, some, [], ◌∷◌, arith, ltb, if◌then◌else◌, Option-cases, Bool-cases, le→ltb, lt→ltb,
}
use mathlib.Core.Option
use libasyik.Memcache.{
  MapList, expiry_ms, segment_ms, find, holder, remove_all, find_live, put, erase, touch, get,
  get_or_put, insert, at, prune, stored,
}
use libasyik.Memcache.Segments.{youngest_segment_bounds, survives, holder-remove_all}
use libasyik.Memcache.View.{
  value, deadline, find_live-holder, holder-put, holder-touch_miss, holder-touch_hit,
}
use libasyik.Memcache.Invariant.{
  IsValid, IsValid_later, remove_all-IsValid, prune-IsValid, insert-IsValid, touch-IsValid,
}

-- The view of an entry at a time, as a test of its deadline.
value-survives {ℓ} :
    {V : Type ℓ} (d later : ℕ) (v : V)
    → value (survives later (some (d, v))) ≡ (if ltb d later then none else some v)
value-survives d later v = elim (Bool-cases (ltb d later)) [ inl e ↦ rw e | inr e ↦ rw e ]

value-eq-some {ℓ} :
    {V : Type ℓ} (o : Option (ℕ × V)) {v : V} → value o ≡ some v → (d : ℕ) × (o ≡ some (d, v))
value-eq-some none e = cc
value-eq-some (some (d, w)) e = (d, cc e)

value-ite {ℓ κ} :
    {V : Type ℓ} {P : Type κ} (later : ℕ) (d : Dec P) (o : Option (ℕ × V))
    → value (survives later (ite d none o)) ≡ ite d none (value (survives later o))
value-ite later (yes p) o = refl
value-ite later (no p) o = refl

survives_twice {ℓ} :
    {V : Type ℓ} (t later : ℕ) (o : Option (ℕ × V))
    → t ≤ later
    → survives later (survives t o) ≡ survives later o
survives_twice t later none h = refl
survives_twice t later (some (d, v)) h = elim (Bool-cases (ltb d t)) [
  | inl e ↦ rw (e, lt→ltb d later (ground arith))
  | inr e ↦ rw e
]

module _ {ℓ} {K V : Type ℓ} (dec : Discrete K) (expiry segments : ℕ) where
  pub at-holder :
      (now later : ℕ) (k : K) (m : MapList K V)
      → IsValid dec expiry segments now m
      → at dec later k m ≡ value (survives later (holder dec k m))
  unfolding at
  at-holder now later k m v = find_live-holder dec later _ k m v.ordered

  pub at-nil : (now : ℕ) (k : K) → let empty : MapList K V = [] in at dec now k empty ≡ none
  unfolding at find_live
  at-nil now k = refl

  module _ (now : ℕ) (k : K) (v : V) (m : MapList K V)
      (valid : IsValid dec expiry segments now m) where
    at-put :
        (later : ℕ) (j : K)
        → at dec later j (put dec expiry segments now k v m)
          ≡ value (
              survives later (
                ite
                  (dec j k)
                  (some (deadline expiry segments now (remove_all dec k m), v))
                  (holder dec j m)))
    unfolding put
    at-put later j =
        at-holder now later j (insert dec expiry segments now k v m)
          (insert-IsValid dec expiry segments now k v m valid)
        ∙ ap (λ o. value (survives later o))
            (holder-put dec expiry segments now _ k j v m valid.ordered)

    -- In a valid cache, a value that is put is read under its key until a deadline and not after
    -- it; the deadline is at least a full lifetime ahead and at most one segment width more.
    pub at-put_self :
        (d : ℕ) × (now + expiry_ms expiry ≤ d)
        × (d ≤ now + expiry_ms expiry + segment_ms expiry segments)
        × ((later : ℕ)
            → at dec later k (put dec expiry segments now k v m)
              ≡ (if ltb d later then none else some v))
    at-put_self =
        let (lo, hi) =
          youngest_segment_bounds expiry segments now (remove_all dec k m)
            (remove_all-IsValid dec expiry segments now m valid k).ordered in
        (
          _,
          lo,
          hi,
          λ later.
              at-put later k
              ∙ ap (λ o. value (survives later o)) (if_pos (dec k k) refl _ _)
              ∙ value-survives _ later v,
        )

    -- In a valid cache, a put changes what is read of no other key.
    pub at-put_ne :
        (later : ℕ) (j : K)
        → j ≢ k
        → at dec later j (put dec expiry segments now k v m) ≡ at dec later j m
    at-put_ne later j n =
        at-put later j ∙ rw (if_neg (dec j k) n) (sym (at-holder now later j m valid))

  module _ (t₁ t₂ : ℕ) (k : K) (m : MapList K V) (h : t₁ ≤ t₂)
      (valid : IsValid dec expiry segments t₁ m) where
    abbrev valid₂ : IsValid dec expiry segments t₂ m
    valid₂ = IsValid_later dec expiry segments h valid

    abbrev after : MapList K V
    after = (get dec expiry segments t₁ t₂ k m).1

    at-after :
        (later : ℕ) (j : K) → at dec later j after ≡ value (survives later (holder dec j after))
    unfolding get
    at-after later j =
        at-holder t₂ later j after (touch-IsValid dec expiry segments t₁ t₂ k m valid₂)

    -- In a valid cache, with the clock not going back, get gives what at reads, and throws when
    -- at does.
    pub get-at : (get dec expiry segments t₁ t₂ k m).0 ≡ at dec t₁ k m
    unfolding get
    get-at = rw (at-holder t₁ t₁ k m valid) (elim (Option-cases (survives t₁ (holder dec k m))) [
      | inl e ↦ rw (e, (holder-touch_miss dec expiry segments t₁ t₂ _ k k m valid.ordered e).0)
      | inr ((d, v), e) ↦
          rw (e, (holder-touch_hit dec expiry segments t₁ t₂ _ k k m valid.ordered e).0)
    ])

    hit : {v : V} → at dec t₁ k m ≡ some v → (d : ℕ) × (survives t₁ (holder dec k m) ≡ some (d, v))
    hit e = value-eq-some _ (sym (at-holder t₁ t₁ k m valid) ∙ e)

    -- In a valid cache, a get that finds its key renews it: it is read until a new deadline, a
    -- full lifetime to a lifetime and a segment ahead, and not after it.
    pub at-get_self :
        (v : V)
        → at dec t₁ k m ≡ some v
        → (d : ℕ) × (t₂ + expiry_ms expiry ≤ d)
          × (d ≤ t₂ + expiry_ms expiry + segment_ms expiry segments)
          × ((later : ℕ) → at dec later k after ≡ (if ltb d later then none else some v))
    unfolding get
    at-get_self v e =
        let (d, found) = hit e in
        let (lo, hi) =
          youngest_segment_bounds expiry segments t₂ (prune t₁ m)
            (prune-IsValid dec expiry segments t₂ m valid₂ t₁).ordered in
        (
          _,
          lo,
          hi,
          λ later.
              at-after later k
              ∙ ap (λ o. value (survives later o))
                  ((holder-touch_hit dec expiry segments t₁ t₂ _ k k m valid.ordered found).1
                    ∙ if_pos (dec k k) refl _ _)
              ∙ value-survives _ later v,
        )

    -- In a valid cache, what is read of another key, or of any key when nothing is found, is the
    -- same after a get as before.
    pub at-get_ne :
        (later : ℕ) (j : K)
        → t₁ ≤ later
        → (j ≢ k) ⊎ (at dec t₁ k m ≡ none)
        → at dec later j after ≡ at dec later j m
    unfolding get
    at-get_ne later j late other =
        at-after later j ∙ elim (Option-cases (survives t₁ (holder dec k m))) [
          | inl e ↦
              let (r, same) = holder-touch_miss dec expiry segments t₁ t₂ _ k j m valid.ordered e in
              ap (λ o. value (survives later o)) (ap (λ x. holder dec j x.1) r ∙ same)
              ∙ ap value (survives_twice t₁ later _ late)
              ∙ sym (at-holder t₁ later j m valid)
          | inr ((d, v), e) ↦ elim other [
            | inl n ↦
                rw
                  ((holder-touch_hit dec expiry segments t₁ t₂ _ k j m valid.ordered e).1
                    ∙ if_neg (dec j k) n _ _)
                  (ap value (survives_twice t₁ later _ late) ∙ sym (at-holder t₁ later j m valid))
            | inr n ↦ absurd (cc (at-holder t₁ t₁ k m valid, ap value e, n))
          ]
        ]

  -- In a valid cache, get_or_put gives the value that at reads, or the made one where there is
  -- none, and the key then reads as that value for at least a full lifetime.
  pub get_or_put_lem :
      (t₁ t₂ t₃ later : ℕ) (k : K) (made : V) (m : MapList K V)
      → t₁ ≤ t₂
      → t₂ ≤ t₃
      → IsValid dec expiry segments t₁ m
      → later ≤ t₂ + expiry_ms expiry
      → let (v, m') = get_or_put dec expiry segments t₁ t₂ t₃ k made m in
        (v ≡ Option.get_or (at dec t₁ k m) made) × (at dec later k m' ≡ some v)
  unfolding get_or_put get put
  get_or_put_lem t₁ t₂ t₃ later k made m h h' valid late =
      let same : (touch dec expiry segments t₁ t₂ k m).0 ≡ at dec t₁ k m =
        get-at t₁ t₂ k m h valid in
      elim (Option-cases (at dec t₁ k m)) [
        | inl e ↦
            let stored = at-put_self t₃ k made (get dec expiry segments t₁ t₂ k m).1 (
              IsValid_later dec expiry segments h' (
                touch-IsValid dec expiry segments t₁ t₂ k m
                  (IsValid_later dec expiry segments h valid))) in
            rw (e, get_or_put, same ∙ e)
              (refl, stored.3 later ∙ rw (le→ltb stored.0 later (omega (arith, stored.1))))
        | inr (v, e) ↦
            let found = at-get_self t₁ t₂ k m h valid v e in
            rw (e, get_or_put, same ∙ e)
              (refl, found.3 later ∙ rw (le→ltb found.0 later (omega (arith, found.1))))
      ]

  -- In a valid cache, an erase removes its key and leaves the others; it answers true exactly
  -- when a segment held the key, an expired one included.
  erase_lem :
      (now later : ℕ) (k j : K) (m : MapList K V)
      → IsValid dec expiry segments now m
      → let (found, m') = erase dec k m in
        (at dec later j m' ≡ ite (dec j k) none (at dec later j m))
        × ((found ≡ false) ↔ (holder dec k m ≡ none))
  unfolding erase stored holder
  erase_lem now later k j m valid = (
    at-holder now later j (remove_all dec k m)
          (remove_all-IsValid dec expiry segments now m valid k)
        ∙ ap (λ o. value (survives later o)) (holder-remove_all dec k j m)
        ∙ value-ite later (dec j k) (holder dec j m)
        ∙ rw (at-holder now later j m valid),
    stored_iff m,
  )
    where
      stored_iff : (m : MapList K V) → (stored dec k m ≡ false) ↔ (holder dec k m ≡ none)
      stored_iff [] = ground arith
      stored_iff ((d, s) ∷ m) = elim (Option-cases (find dec k s)) [
        | inl e ↦ rw (e, stored, holder) (stored_iff m)
        | inr (v, e) ↦ rw (e, stored, holder) (λ n. cc n, λ n. cc n)
      ]
