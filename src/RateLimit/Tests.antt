-- ===== src/RateLimit/Tests.antt =====
-- Runs of the limiter of include/libasyik/rate_limit.hpp, and its theorems at concrete inputs.
use libasyik.Common.{ℕ, ◌+◌, ◌-◌, ◌*◌, ◌%◌, ◌≤◌, ◌≡◌, refl, some, List, [], ◌∷◌, ℕ_discrete, arith}
use libasyik.RateLimit.{RateLimit, Readings, init, recover, refill, u32_mod}
use libasyik.RateLimit.Bucket.{Refilled, refill-Refilled}
use libasyik.RateLimit.History.{Use, granted, granted-le}

-- 200 points at 7 points a second.
abbrev seven : RateLimit
seven = record { max_bucket = 200; rate = 7 }

refill_run : refill seven 1000 (3, 500) ≡ (6, 929)
unfolding refill recover
refill_run = refl

init_run : init 200 7 ≡ some seven
unfolding init
init_run = refl

refill-Refilled_example :
    (r' l' : ℕ) × (refill seven 1000 (3, 500) ≡ (r', l' % u32_mod))
    × Refilled seven 1000 3 500 r' l'
refill-Refilled_example =
    refill-Refilled seven 1000 3 500 (omega arith) (omega arith) (omega arith) (omega arith)

abbrev reads : ℕ → Readings
reads t = record { t₀ = t; t₁ = t + 1; t₂ = t + 1; t₃ = t + 2 }

abbrev uses : List (Use ℕ)
uses = Use.checks (reads 1000) 5 150 ∷ Use.asks (reads 1500) 5 ∷ Use.checks (reads 2000) 5 150 ∷ []

granted-le_example : granted ℕ_discrete seven 5 [] uses * 1000 ≤ 200 * 1000 + (2002 - 1000 + 3) * 7
granted-le_example =
    granted-le ℕ_discrete seven 5
      (record { rate_bits = omega arith; bucket_bits = omega arith; refills = omega arith }) 1000
      uses (omega arith)
