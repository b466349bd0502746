-- ===== src/RateLimit/Bucket.antt =====
-- The arithmetic of one refill in include/libasyik/rate_limit.hpp, against the unbounded clock.
use libasyik.Common.{
  ℕ, suc, ◌+◌, ◌-◌, ◌*◌, ◌/◌, ◌%◌, ◌≤◌, ◌<◌, ◌≡◌, refl, ap, pair_path, ◌↔◌, none, some, ◌⊎◌, inl,
  inr, Bool-cases, true, false, lt→ltb, leb, ◌==◌, arith,
}
use native.Mathlib.Nat.{
  mul-le-mul, mul-le-mul_right, mul-zero, mod-eq_of_lt, lt-div-mul-add, div-mul-le_self,
  div-lt_iff_lt-mul,
}
use native.Mathlib.Decide.{dec_lt}
use libasyik.RateLimit.{get_remaining_int, RateLimit, refill, recover, u32_mod, u64_mod, init}

-- The time that the 32-bit counters measure between two moments.
distance_le :
    (t l : ℕ)
    → l ≤ t
    → let d = (t % u32_mod + u32_mod - l % u32_mod) % u32_mod in
      (d ≤ t - l) × (d < u32_mod) × ((t - d) % u32_mod ≡ l % u32_mod)
distance_le t l h = omega arith

-- The sums in 64 bits do not wrap: d milliseconds at the rate, and the time that whole tokens took.
module _ (d rate : ℕ) (hd : d < u32_mod) (hr : rate < u32_mod) where
  abbrev tokens : ℕ
  tokens = d * rate / 1000

  abbrev taken : ℕ
  taken = (tokens * 1000 + rate - 1) / rate

  product_bound : d * rate ≤ 18446744065119617025
  product_bound =
      mul-le-mul {n₁ = d} {m₁ = rate} {n₂ = 4294967295} {m₂ = 4294967295} (omega arith)
        (omega arith)

  product_wrap : d * rate % u64_mod ≡ d * rate
  product_wrap = mod-eq_of_lt (omega (arith, product_bound))

  taken_wrap : (tokens * 1000 + rate - 1) % u64_mod ≡ tokens * 1000 + rate - 1
  taken_wrap = mod-eq_of_lt (omega (arith, product_bound))

  -- The time is rounded up to whole milliseconds, and is not longer than d.
  taken_bounds :
      0 < rate
      → (tokens * 1000 ≤ taken * rate) × (taken * rate ≤ tokens * 1000 + rate - 1) × (taken ≤ d)
  taken_bounds h =
      let below : taken < suc d =
        (div-lt_iff_lt-mul {k = rate} {x = tokens * 1000 + rate - 1} {y = suc d} h).1
          (omega arith) in
      (
        omega (arith, lt-div-mul-add {a = tokens * 1000 + rate - 1} h),
        div-mul-le_self (tokens * 1000 + rate - 1) rate,
        omega (arith, below),
      )

-- What a refill at the time t makes of r tokens counted up to l: the tokens r' and the time l' up
-- to which they are counted, in thousandths of a token the sum of both and of what is still to come.
abbrev pub worth : RateLimit → (t r l : ℕ) → ℕ
worth c t r l = r * 1000 + (t - l) * c.rate

pub record Refilled (c : RateLimit) (t r l r' l' : ℕ) : Type 0 where
  pub past : l' ≤ t
  pub bounded : r' ≤ c.max_bucket
  pub kept : r ≤ r'
  pub no_more : worth c t r' l' ≤ worth c t r l
  pub no_less :
      (r' ≡ c.max_bucket) ⊎ (r * 1000 + (t - l) % u32_mod * c.rate < worth c t r' l' + suc c.rate)

module _ (c : RateLimit) (t r l d ms : ℕ) (hr : c.rate < u32_mod) (hm : c.max_bucket < u32_mod)
    (hb : r ≤ c.max_bucket) (hl : l ≤ t) (hd : d ≡ (t - l) % u32_mod)
    (hms : (t - d) % u32_mod ≡ ms) where
  hd' : d < u32_mod
  hd' = omega arith

  gain : ℕ
  gain = tokens d c.rate hd' hr

  span : ℕ
  span = taken d c.rate hd' hr

  rate_positive : (gain == 0) ≡ false → 0 < c.rate
  unfolding gain
  rate_positive h = elim (dec_lt 0 c.rate) [
    | yes p ↦ p
    | no n ↦
        let e : c.rate ≡ 0 = omega (arith, n) in
        let z : d * c.rate ≡ 0 = rw e (mul-zero d) in absurd (ground (arith, z))
  ]

  rejoin : span ≤ d → (d - span) + span ≡ d
  rejoin h = omega arith

  later : span ≤ d → t - (t - d + span) ≡ d - span
  later h = omega arith

  recovered_value : d * c.rate ≤ (t - l) * c.rate
  recovered_value = mul-le-mul_right c.rate (omega arith)

  recover_full :
      (gain == 0) ≡ false
      → leb c.max_bucket (r + gain) ≡ true
      → (recover c d (t % u32_mod) (r, ms) ≡ (c.max_bucket, t % u32_mod))
        × Refilled c t r l c.max_bucket t
  unfolding recover gain
  recover_full h h' =
      let wrap : (r + gain) % u64_mod ≡ r + gain =
        mod-eq_of_lt (omega (arith, product_bound d c.rate hd' hr)) in
      (
        rw (product_wrap d c.rate hd' hr, h, wrap, h'),
        record {
          past = omega arith;
          bounded = omega arith;
          kept = hb;
          no_more = ground (arith, recovered_value, product_bound d c.rate hd' hr);
          no_less = inl refl;
        },
      )

  recover_part :
      (gain == 0) ≡ false
      → leb c.max_bucket (r + gain) ≡ false
      → (recover c d (t % u32_mod) (r, ms) ≡ (r + gain, (t - d + span) % u32_mod))
        × Refilled c t r l (r + gain) (t - d + span)
  unfolding recover gain span
  recover_part h h' =
      let wrap : (r + gain) % u64_mod ≡ r + gain =
        mod-eq_of_lt (omega (arith, product_bound d c.rate hd' hr)) in
      let small : r + gain < c.max_bucket = ground arith in
      let positive : 0 < c.rate = rate_positive h in
      let bounds = taken_bounds d c.rate hd' hr positive in
      let split : (d - span) * c.rate + span * c.rate ≡ d * c.rate =
        omega (arith, ap (λ (x : ℕ). x * c.rate) (rejoin bounds.2)) in
      (
        rw (product_wrap d c.rate hd' hr, h, wrap, h', taken_wrap d c.rate hd' hr)
            (pair_path (omega arith) (omega arith)),
        record {
          past = omega (arith, bounds);
          bounded = omega arith;
          kept = omega arith;
          no_more = rw (later bounds.2) (omega (arith, recovered_value, bounds, split));
          no_less = inr (rw (later bounds.2, ← hd) (omega (arith, bounds, split)));
        },
      )

  recover-Refilled :
      (r' l' : ℕ) × (recover c d (t % u32_mod) (r, ms) ≡ (r', l' % u32_mod))
      × Refilled c t r l r' l'
  unfolding recover gain
  recover-Refilled = elim (Bool-cases (gain == 0)) [
    | inl none_yet ↦ (
      r,
      l,
      rw (product_wrap d c.rate hd' hr, none_yet) (pair_path refl (omega arith)),
      record {
        past = hl;
        bounded = hb;
        kept = omega arith;
        no_more = omega arith;
        no_less = inr (rw (← hd) (omega (arith, recovered_value)));
      },
    )
    | inr some_now ↦ elim (Bool-cases (leb c.max_bucket (r + gain))) [
      | inl full ↦ let (e, f) = recover_full some_now full in (c.max_bucket, t, e, f)
      | inr partial ↦ let (e, f) = recover_part some_now partial in (r + gain, t - d + span, e, f)
    ]
  ]

-- For numbers of 32 bits and a quota within the bucket whose time is not ahead of the clock, the
-- refill in wrapping arithmetic gives a quota within the bucket, no smaller than before, that is
-- worth no more than elapsed time brings, and, unless it is full, no less than the time modulo
-- 2^32 brings but for less than one token and one unit of the rate.
pub refill-Refilled :
    (c : RateLimit) (t r l : ℕ)
    → c.rate < u32_mod
    → c.max_bucket < u32_mod
    → r ≤ c.max_bucket
    → l ≤ t
    → (r' l' : ℕ) × (refill c (t % u32_mod) (r, l % u32_mod) ≡ (r', l' % u32_mod))
      × Refilled c t r l r' l'
unfolding refill
refill-Refilled c t r l hr hm hb h =
    recover-Refilled c t r l _ _ hr hm hb h (omega arith) (omega arith)

-- Where rate * 100 fits in 32 bits, the constructor throws exactly if the bucket is larger than
-- that.
init_lem :
    (max_bucket rate : ℕ)
    → rate * 100 < u32_mod
    → (init max_bucket rate ≡ none) ↔ (rate * 100 < max_bucket)
unfolding init
init_lem max_bucket rate h = ground arith

-- For every 32-bit rate whose product with 100 does not fit in 32 bits there is a bucket that it
-- fills within 100 seconds and that the constructor refuses.
init_wraps :
    (rate : ℕ)
    → u32_mod ≤ rate * 100
    → rate < u32_mod
    → (max_bucket : ℕ) × (max_bucket ≤ rate * 100)
      × (max_bucket < u32_mod)
      × (init max_bucket rate ≡ none)
unfolding init
init_wraps rate h h' =
    let over : rate * 100 % u32_mod < rate * 100 % u32_mod + 1 = omega arith in
    (rate * 100 % u32_mod + 1, omega arith, omega arith, rw (lt→ltb _ _ over))

-- For a positive rate of 32 bits, a bucket that it fills within 100 seconds and a quota within
-- the bucket: 100 seconds or more later, and before the clock wraps, a stored quota gives the
-- same as none.
refill_idle :
    (c : RateLimit) (t r l : ℕ)
    → c.rate < u32_mod
    → c.max_bucket ≤ 100 * c.rate
    → c.max_bucket < u32_mod
    → 0 < c.rate
    → r ≤ c.max_bucket
    → l + 100000 ≤ t
    → t < l + u32_mod
    → get_remaining_int c (t % u32_mod) (some (r, l % u32_mod))
      ≡ get_remaining_int c (t % u32_mod) none
unfolding get_remaining_int refill recover
refill_idle c t r l hr hm hm' hp hb h h' =
    let d = (t % u32_mod + u32_mod - l % u32_mod) % u32_mod in
    let e : d ≡ t - l = omega arith in
    let full : 100000 * c.rate ≤ d * c.rate = mul-le-mul_right c.rate (omega arith) in
    let small : d < u32_mod = omega arith in
    let some_now : (d * c.rate / 1000 == 0) ≡ false = ground arith in
    let wrap : (r + d * c.rate / 1000) % u64_mod ≡ r + d * c.rate / 1000 =
      mod-eq_of_lt (omega (arith, product_bound d c.rate small hr)) in
    let over : leb c.max_bucket (r + d * c.rate / 1000) ≡ true = ground arith in
    rw (product_wrap d c.rate small hr, some_now, wrap, over)
