-- ===== src/RateLimit/Limit.antt =====
-- The limit that include/libasyik/rate_limit.hpp enforces with its store in memory: over any
-- history of calls a key is granted no more than its bucket and what the rate brings.
use libasyik.Common.{
  ℕ, ◌+◌, ◌-◌, ◌*◌, ◌%◌, ◌≤◌, ◌<◌, ◌≡◌, refl, ap, ◌∙◌, ◌≢◌, ◌⊎◌, inl, inr, Option, none, some, ltb,
  Bool-cases, arith,
}
use native.Mathlib.Nat.{mul-le-mul_right}
use libasyik.Memcache.{MapList, at, get, put}
use libasyik.Memcache.Invariant.{IsValid, IsValid_later, get-IsValid}
use libasyik.Memcache.Lifetime.{at-put_self, at-put_ne, get-at, at-get_self, at-get_ne}
use libasyik.RateLimit.{
  RateLimit, Quota, Readings, memory_store, checkpoint, get_remaining_int, take_points, refill,
  u32_mod,
}
use libasyik.RateLimit.Bucket.{worth, refill-Refilled}

-- Granting points moves their worth out of the quota.
take_points_lem :
    (point r ms : ℕ)
    → let (g, (r', ms')) = take_points point (r, ms) in (g ≤ point) × (g + r' ≡ r) × (ms' ≡ ms)
unfolding take_points
take_points_lem point r ms = ground arith

module _ (c : RateLimit) (hr : c.rate < u32_mod) (hm : c.max_bucket < u32_mod) where
  -- A checkpoint by the code's arithmetic, of a stored quota or of none: what it grants and what is
  -- left are covered by what was there.
  point_worth :
      (t r l point : ℕ)
      → r ≤ c.max_bucket
      → l ≤ t
      → let (g, (r', ms)) = take_points point (refill c (t % u32_mod) (r, l % u32_mod)) in
        (l' : ℕ) × (l' ≤ t)
        × (ms ≡ l' % u32_mod)
        × (r' ≤ c.max_bucket)
        × (g * 1000 + worth c t r' l' ≤ worth c t r l)
  unfolding take_points
  point_worth t r l point hb h =
      let (r', l', e, f) = refill-Refilled c t r l hr hm hb h in
      rw e (l', f.past, refl, ground (arith, f.bounded), ground (arith, f.no_more))

-- What waiting adds to the worth of a quota.
pub worth_later :
    (c : RateLimit) (t t' r l : ℕ)
    → l ≤ t
    → t ≤ t'
    → worth c t' r l ≡ worth c t r l + (t' - t) * c.rate
worth_later c t t' r l h h' =
    let e : t' - l ≡ (t - l) + (t' - t) = omega arith in omega (arith, ap (λ (x : ℕ). x * c.rate) e)

-- `init` accepts the limits for which this holds.
pub record IsSound (c : RateLimit) : Type 0 where
  pub rate_bits : c.rate < u32_mod
  pub bucket_bits : c.max_bucket < u32_mod
  pub refills : c.max_bucket ≤ 100 * c.rate

pub full_after : (c : RateLimit) (x : ℕ) → IsSound c → 100000 ≤ x → c.max_bucket * 1000 ≤ x * c.rate
full_after c x h late = omega (arith, h.refills, mul-le-mul_right c.rate late)

module _ {K : Type 0} (dec : Discrete K) (c : RateLimit) (sound : IsSound c) (k : K) where
  abbrev pub peek : ℕ → MapList K Quota → Option Quota
  peek t s = at dec t k s

  -- From `now` on, what the store holds of the key is worth at most `budget`, in thousandths of a
  -- token: a quota of that worth, or none once a full bucket is covered.
  abbrev pub Within : ℕ → MapList K Quota → ℕ → Type 0
  Within now s budget =
      (r l : ℕ) × (l ≤ now)
      × (r ≤ c.max_bucket)
      × (worth c now r l ≤ budget)
      × ((t : ℕ)
          → now ≤ t
          → (peek t s ≡ some (r, l % u32_mod))
            ⊎ ((peek t s ≡ none) × (c.max_bucket * 1000 ≤ budget + (t - now) * c.rate)))

  pub Within-later :
      (now later : ℕ) (s s' : MapList K Quota) (budget : ℕ)
      → now ≤ later
      → ((t : ℕ) → later ≤ t → peek t s' ≡ peek t s)
      → Within now s budget
      → Within later s' (budget + (later - now) * c.rate)
  Within-later now later s s' budget h same (r, l, past, small, covered, held) = (
    r,
    l,
    omega arith,
    small,
    omega (arith, worth_later c now later r l past h, covered),
    λ t late. rw (same t late) (elim (held t (omega arith)) [
      | inl e ↦ inl e
      | inr (e, f) ↦ inr (e, omega (arith, f, sum t late))
    ]),
  )
    where
      sum : (t : ℕ) → later ≤ t → (t - now) * c.rate ≡ (later - now) * c.rate + (t - later) * c.rate
      sum t late =
          let e : t - now ≡ (later - now) + (t - later) = omega arith in
          omega (arith, ap (λ (x : ℕ). x * c.rate) e)

  -- A quota that is put is held for a lifetime, and by then the bucket would be full.
  Within-put :
      (t r l ms : ℕ) (s : MapList K Quota)
      → ms ≡ l % u32_mod
      → IsValid dec 100 16 t s
      → l ≤ t
      → r ≤ c.max_bucket
      → Within t (put dec 100 16 t k (r, ms) s) (worth c t r l)
  Within-put t r l ms s same v past small =
      let (d, lo, hi, held) = at-put_self dec 100 16 t k (r, ms) s v in
      (
        r,
        l,
        past,
        small,
        omega arith,
        λ later h. elim (Bool-cases (ltb d later)) [
          | inl e ↦
              inr (rw (held later, e), omega (arith, full_after c (later - t) sound (ground arith)))
          | inr e ↦ inl (rw (held later, e, same))
        ],
      )

  module _ (now : ℕ) (s : MapList K Quota) (budget : ℕ) (v : IsValid dec 100 16 now s)
      (w : Within now s budget) (t : Readings) (h₀ : now ≤ t.t₀) (h₁ : t.t₀ ≤ t.t₁)
      (h₂ : t.t₁ ≤ t.t₂) (h₃ : t.t₂ ≤ t.t₃) where
    pub v₁ : IsValid dec 100 16 t.t₁ s
    v₁ = IsValid_later dec 100 16 (omega arith) v

    pub v₃ : (j : K) → IsValid dec 100 16 t.t₃ (get dec 100 16 t.t₁ t.t₂ j s).1
    v₃ j =
        IsValid_later dec 100 16 h₃
          (get-IsValid dec 100 16 t.t₁ t.t₂ j s (IsValid_later dec 100 16 h₂ v₁))

    -- What the code makes of the answer of the store.
    answer :
        (point r l : ℕ) (q : Option Quota)
        → l ≤ now
        → r ≤ c.max_bucket
        → worth c now r l ≤ budget
        → (q ≡ some (r, l % u32_mod))
          ⊎ ((q ≡ none) × (c.max_bucket * 1000 ≤ budget + (t.t₁ - now) * c.rate))
        → let (g, (r', ms)) = take_points point (get_remaining_int c (t.t₀ % u32_mod) q) in
          (l' : ℕ) × (l' ≤ t.t₃)
          × (ms ≡ l' % u32_mod)
          × (r' ≤ c.max_bucket)
          × (g * 1000 + worth c t.t₃ r' l'
              ≤ budget + (t.t₃ - now) * c.rate + (t.t₁ - t.t₀) * c.rate)
    unfolding get_remaining_int
    answer point r l q past small covered (inl e) =
        let (l', past', same, small', paid) =
          point_worth c sound.rate_bits sound.bucket_bits t.t₀ r l point small (omega arith) in
        let r' = (take_points point (refill c (t.t₀ % u32_mod) (r, l % u32_mod))).1.0 in
        rw e (
          l',
          omega arith,
          same,
          small',
          omega (
            arith,
            paid,
            worth_later c t.t₀ t.t₃ r' l' past' (omega arith),
            worth_later c now t.t₀ r l past h₀,
            spans,
          ),
        )
      where
        spans : (t.t₃ - now) * c.rate ≡ (t.t₀ - now) * c.rate + (t.t₃ - t.t₀) * c.rate
        spans =
            let e : t.t₃ - now ≡ (t.t₀ - now) + (t.t₃ - t.t₀) = omega arith in
            omega (arith, ap (λ (x : ℕ). x * c.rate) e)
    answer point r l q past small covered (inr (e, full)) =
        let (_, all, same) = take_points_lem point c.max_bucket (t.t₀ % u32_mod) in
        rw e (t.t₀, omega arith, same, omega (arith, all), omega (arith, all, full, spans))
      where
        spans :
            (t.t₃ - now) * c.rate + (t.t₁ - t.t₀) * c.rate
            ≡ (t.t₁ - now) * c.rate + (t.t₃ - t.t₀) * c.rate
        spans =
            let e : t.t₃ - now + (t.t₁ - t.t₀) ≡ (t.t₁ - now) + (t.t₃ - t.t₀) = omega arith in
            omega (arith, ap (λ (x : ℕ). x * c.rate) e)

    -- A checkpoint of the key is paid from its budget.
    pub checkpoint-Within :
        (point : ℕ)
        → let (g, s') = checkpoint (memory_store dec) c t k point s in
          (budget' : ℕ) × Within t.t₃ s' budget'
          × (g * 1000 + budget' ≤ budget + (t.t₃ - now) * c.rate + (t.t₁ - t.t₀) * c.rate)
    unfolding checkpoint
    checkpoint-Within point =
        let (r, l, past, small, covered, held) = w in
        let seen = get-at dec 100 16 t.t₁ t.t₂ k s h₂ v₁ in
        let (l', past', same, small', paid) =
          answer point r l (get dec 100 16 t.t₁ t.t₂ k s).0 past small covered
            (rw seen (held t.t₁ (omega arith))) in
        (_, Within-put t.t₃ _ l' _ (get dec 100 16 t.t₁ t.t₂ k s).1 same (v₃ k) past' small', paid)

    -- To look at the key takes nothing from its budget.
    pub get-Within : Within t.t₂ (get dec 100 16 t.t₁ t.t₂ k s).1 (budget + (t.t₂ - now) * c.rate)
    get-Within =
        let (r, l, past, small, covered, held) = w in
        elim (held t.t₁ (omega arith)) [
          | inl e ↦
              let (d, lo, hi, kept) =
                at-get_self dec 100 16 t.t₁ t.t₂ k s h₂ v₁ (r, l % u32_mod) e in
              (
                r,
                l,
                omega arith,
                small,
                omega (arith, worth_later c now t.t₂ r l past, covered),
                λ later h. elim (Bool-cases (ltb d later)) [
                  | inl over ↦ inr (
                    rw (kept later, over),
                    omega (arith, full_after c (later - t.t₂) sound (ground arith)),
                  )
                  | inr still ↦ inl (rw (kept later, still))
                ],
              )
          | inr (e, _) ↦
              Within-later now t.t₂ s _ budget (omega arith)
                (λ later h. at-get_ne dec 100 16 t.t₁ t.t₂ k s h₂ v₁ later k (omega arith) (inr e))
                w
        ]

    -- Nor do the calls for other keys.
    pub other-Within :
        (j : K) (point : ℕ)
        → k ≢ j
        → Within t.t₃
            (checkpoint (memory_store dec) c t j point s).1
            (budget + (t.t₃ - now) * c.rate)
          × Within t.t₂ (get dec 100 16 t.t₁ t.t₂ j s).1 (budget + (t.t₂ - now) * c.rate)
    unfolding checkpoint
    other-Within j point n = (
      Within-later now t.t₃ s _ budget (omega arith)
          (λ later h.
            at-put_ne dec 100 16 t.t₃ j _ (get dec 100 16 t.t₁ t.t₂ j s).1 (v₃ j) later k n
            ∙ seen later (omega arith))
          w,
      Within-later now t.t₂ s _ budget (omega arith) (λ later h. seen later (omega arith)) w,
    )
      where
        seen :
            (later : ℕ) → t.t₁ ≤ later → peek later (get dec 100 16 t.t₁ t.t₂ j s).1 ≡ peek later s
        seen later h = at-get_ne dec 100 16 t.t₁ t.t₂ j s h₂ v₁ later k h (inl n)
