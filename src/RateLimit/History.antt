-- ===== src/RateLimit/History.antt =====
-- Histories of calls on the limiter of include/libasyik/rate_limit.hpp with its store in memory.
use libasyik.Common.{
  ℕ, ◌+◌, ◌-◌, ◌*◌, ◌≤◌, ◌≡◌, refl, ap, ◌∙◌, subst, ◌⊎◌, inl, inr, List, [], ◌∷◌, arith,
}
use libasyik.Memcache.{MapList, get}
use libasyik.Memcache.Lifetime.{at-nil}
use libasyik.Memcache.Invariant.{IsValid, put-IsValid}
use libasyik.RateLimit.{RateLimit, Quota, Readings, memory_store, checkpoint, get_remaining}
use libasyik.RateLimit.Limit.{
  IsSound, Within, checkpoint-Within, get-Within, other-Within, Within-later, v₃,
}

pub data Use (K : Type 0) : Type 0 where
  checks : Readings → K → ℕ → Use K
  asks : Readings → K → Use K

abbrev pub readings : {K : Type 0} → Use K → Readings
readings (checks t k point) = t
readings (asks t k) = t

-- The readings of the clock never go back, within a call or from one to the next.
abbrev pub Timely : {K : Type 0} → ℕ → List (Use K) → Type 0
Timely now [] = Unit
Timely now (u ∷ us) =
    (now ≤ (readings u).t₀)
    × ((readings u).t₀ ≤ (readings u).t₁)
    × ((readings u).t₁ ≤ (readings u).t₂)
    × ((readings u).t₂ ≤ (readings u).t₃)
    × Timely (readings u).t₃ us

abbrev pub finish : {K : Type 0} → ℕ → List (Use K) → ℕ
finish now [] = now
finish now (u ∷ us) = finish (readings u).t₃ us

-- The time spent between the two readings that a call decides by, over all calls.
abbrev pub between : {K : Type 0} → List (Use K) → ℕ
between [] = 0
between (u ∷ us) = ((readings u).t₁ - (readings u).t₀) + between us

finish-le : {K : Type 0} (now : ℕ) (us : List (Use K)) → Timely now us → now ≤ finish now us
finish-le now [] h = omega arith
finish-le now (u ∷ us) h = omega (arith, finish-le (readings u).t₃ us h.4)

Dec-cases : {P : Type 0} (d : Dec P) → ((p : P) × (d ≡ yes p)) ⊎ ((n : ¬ P) × (d ≡ no n))
Dec-cases (yes p) = inl (p, refl)
Dec-cases (no n) = inr (n, refl)

module _ {K : Type 0} (dec : Discrete K) (c : RateLimit) (k : K) where
  -- The points that the key is granted over a history, for as long as it lasts.
  pub granted : MapList K Quota → List (Use K) → ℕ
  granted s [] = 0
  granted s (checks t j point ∷ us) =
      let (g, s') = checkpoint (memory_store dec) c t j point s in
      let rest = granted s' us in elim (dec k j) [ yes _ ↦ g + rest | no _ ↦ rest ]
  granted s (asks t j ∷ us) = granted (get_remaining (memory_store dec) c t j s).1 us

  split :
      (now t end x y : ℕ)
      → now ≤ t
      → t ≤ end
      → (end - now + (x + y)) * c.rate ≡ (t - now) * c.rate + x * c.rate + (end - t + y) * c.rate
  split now t end x y h h' =
      let e : end - now + (x + y) ≡ (t - now) + x + (end - t + y) = omega arith in
      omega (arith, ap (λ (z : ℕ). z * c.rate) e)

  module _ (sound : IsSound c) where
    granted_bound :
        (now budget : ℕ) (s : MapList K Quota) (us : List (Use K))
        → Timely now us
        → IsValid dec 100 16 now s
        → Within dec c sound k now s budget
        → granted s us * 1000 ≤ budget + (finish now us - now + between us) * c.rate
    unfolding granted get_remaining checkpoint
    granted_bound now budget s [] h v w = omega arith
    granted_bound now budget s (checks t j point ∷ us) (h₀, h₁, h₂, h₃, hs) v w =
        let late = finish-le t.t₃ us hs in
        let spans = split now t.t₃ (finish t.t₃ us) (t.t₁ - t.t₀) (between us) (omega arith) late in
        let v' =
          put-IsValid dec 100 16 t.t₃ j _ _ (v₃ dec c sound k now s budget v w t h₀ h₁ h₂ h₃ j) in
        elim (Dec-cases (dec k j)) [
          | inl (p, e) ↦
              let (budget', w', paid) =
                subst
                  (λ i.
                    (b : ℕ) × Within dec c sound k t.t₃
                      (checkpoint (memory_store dec) c t i point s).1 b
                    × ((checkpoint (memory_store dec) c t i point s).0 * 1000 + b
                        ≤ budget + (t.t₃ - now) * c.rate + (t.t₁ - t.t₀) * c.rate))
                  p (checkpoint-Within dec c sound k now s budget v w t h₀ h₁ h₂ h₃ point) in
              rw (e, granted) (omega (arith, spans, paid, granted_bound t.t₃ budget' _ us hs v' w'))
          | inr (n, e) ↦
              let (w', _) = other-Within dec c sound k now s budget v w t h₀ h₁ h₂ h₃ j point n in
              rw (e, granted) (omega (arith, spans, granted_bound t.t₃ _ _ us hs v' w'))
        ]
    granted_bound now budget s (asks t j ∷ us) (h₀, h₁, h₂, h₃, hs) v w =
        let late = finish-le t.t₃ us hs in
        let spans =
          split now t.t₂ (finish t.t₃ us) (t.t₁ - t.t₀) (between us) (omega arith)
            (omega (arith, late)) in
        let spans' = split t.t₂ t.t₃ (finish t.t₃ us) 0 (between us) h₃ late in
        let v' = v₃ dec c sound k now s budget v w t h₀ h₁ h₂ h₃ j in
        let w' : Within dec c sound k t.t₂ (get dec 100 16 t.t₁ t.t₂ j s).1
            (budget + (t.t₂ - now) * c.rate) =
          elim (dec k j) [
            | yes p ↦
                subst
                  (λ i.
                    Within dec c sound k t.t₂ (get dec 100 16 t.t₁ t.t₂ i s).1
                      (budget + (t.t₂ - now) * c.rate))
                  p (get-Within dec c sound k now s budget v w t h₀ h₁ h₂ h₃)
            | no n ↦ (other-Within dec c sound k now s budget v w t h₀ h₁ h₂ h₃ j 0 n).1
          ] in
        omega (
          arith,
          spans,
          spans',
          granted_bound t.t₃ _ _ us hs v'
              (Within-later dec c sound k t.t₂ t.t₃ _ _ _ h₃ (λ _ _. refl) w'),
        )

    -- Over any history of checkpoints and queries on any keys, in order of the clock and with the
    -- store in memory that starts empty, for a limit of 32-bit numbers whose bucket fills within
    -- 100 seconds, the points granted to a key are at most a full bucket and the rate times the
    -- length of the history and of the delays between the two readings of the clock in its calls.
    pub granted-le :
        (now : ℕ) (us : List (Use K))
        → Timely now us
        → granted [] us * 1000 ≤ c.max_bucket * 1000 + (finish now us - now + between us) * c.rate
    granted-le now us h =
        let none_owed : (now - now) * c.rate ≡ 0 =
          ap (λ (z : ℕ). z * c.rate) {y = 0} (omega arith) ∙ omega arith in
        granted_bound now (c.max_bucket * 1000) [] us h
          (record { ordered = tt; unique = λ j. omega arith })
          (
            0,
            now,
            omega arith,
            omega arith,
            omega (arith, none_owed),
            λ t late. inr (at-nil dec 100 16 t k, omega arith),
          )
