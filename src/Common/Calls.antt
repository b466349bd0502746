-- ===== src/Common/Calls.antt =====
-- A sequence of calls of which each may throw, for code that makes one after the other.
use mathlib.Core.Path.{◌≡◌, refl, ap}
use mathlib.Core.Logic.{◌⊎◌, inl, inr}
use mathlib.Core.Bool.{Bool, true, false}
use mathlib.Core.List.{List, [], ◌∷◌}
use libasyik.Common.Tests.{if◌then◌else◌, if-intro}

module _ {C : Type 0} where
  -- The calls of a sequence up to the first that throws, with whether none did.
  unfoldable pub made : (succeeds : C → Bool) → List C → List C × Bool
  made succeeds [] = ([], true)
  made succeeds (c ∷ cs) =
      let (rest, all) = made succeeds cs in if succeeds c then (c ∷ rest, all) else (c ∷ [], false)

  unfoldable pub IsMade : C → List C → Type 0
  IsMade c [] = ⊥
  IsMade c (d ∷ ds) = (c ≡ d) ⊎ IsMade c ds

  -- All succeeded.
  unfoldable pub AllSucceed : (succeeds : C → Bool) → List C → Type 0
  AllSucceed succeeds [] = Unit
  AllSucceed succeeds (c ∷ cs) = (succeeds c ≡ true) × AllSucceed succeeds cs

  module _ (succeeds : C → Bool) where
    pub nothing_made : (c : C) → IsMade c (made succeeds []).0 → ⊥
    unfolding made IsMade
    nothing_made c m = m

    -- A call that is made stands first, or the first succeeded.
    pub made-first :
        (c d : C) (ds : List C)
        → IsMade c (made succeeds (d ∷ ds)).0
        → (c ≡ d) ⊎ ((succeeds d ≡ true) × IsMade c (made succeeds ds).0)
    unfolding made IsMade
    made-first c d ds =
        if-intro
          (λ (x : List C × Bool).
            IsMade c x.0 → (c ≡ d) ⊎ ((succeeds d ≡ true) × IsMade c (made succeeds ds).0))
          (succeeds d) (λ h m. elim m [ inl e ↦ inl e | inr n ↦ inr (h, n) ])
          (λ h m. elim m [ inl e ↦ inl e | inr n ↦ absurd n ])

    -- A sequence of which none throws is made whole.
    pub made-AllSucceed :
        (cs : List C)
        → (made succeeds cs).1 ≡ true
        → ((made succeeds cs).0 ≡ cs) × AllSucceed succeeds cs
    unfolding made AllSucceed
    made-AllSucceed [] = λ h. (refl, tt)
    made-AllSucceed (c ∷ cs) =
        let P = λ (x : List C × Bool). x.1 ≡ true → (x.0 ≡ c ∷ cs) × AllSucceed succeeds (c ∷ cs) in
        if-intro P (succeeds c)
          (λ e h. let (same, all) = made-AllSucceed cs h in (ap (◌∷◌ c) same, (e, all)))
          (λ _ h. absurd (cc h))
