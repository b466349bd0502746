-- ===== src/Memcache/Calls.antt =====
-- Histories of calls on the cache of include/libasyik/memcache.hpp, the background prune included.
use libasyik.Common.{ℕ, ◌≤◌, List, [], ◌∷◌, inl, inr, Option-cases, arith}
use libasyik.Memcache.{MapList, put, erase, clear, get, get_or_put, visit, prune, touch}
use libasyik.Memcache.Invariant.{
  IsValid, IsValid_later, remove_all-IsValid, prune-IsValid, insert-IsValid, touch-IsValid,
  visit-IsValid,
}

-- A call with the readings of the clock that it makes.
pub data Call {ℓ} (K V : Type ℓ) : Type ℓ where
  puts : ℕ → K → V → Call K V
  erases : K → Call K V
  clears : Call K V
  gets : ℕ → ℕ → K → Call K V
  gets_or_puts : ℕ → ℕ → ℕ → K → V → Call K V
  visits : ℕ → K → (V → V) → Call K V
  prunes : ℕ → Call K V

-- The clock after a call, and that it never went back.
abbrev pub clock {ℓ} : {K V : Type ℓ} → ℕ → Call K V → ℕ
clock now (puts t k v) = t
clock now (erases k) = now
clock now clears = now
clock now (gets t₁ t₂ k) = t₂
clock now (gets_or_puts t₁ t₂ t₃ k v) = t₃
clock now (visits t k f) = t
clock now (prunes t) = t

abbrev pub Timely {ℓ} : {K V : Type ℓ} → ℕ → List (Call K V) → Type 0
Timely now [] = Unit
Timely now (puts t k v ∷ cs) = (now ≤ t) × Timely t cs
Timely now (erases k ∷ cs) = Timely now cs
Timely now (clears ∷ cs) = Timely now cs
Timely now (gets t₁ t₂ k ∷ cs) = (now ≤ t₁) × (t₁ ≤ t₂) × Timely t₂ cs
Timely now (gets_or_puts t₁ t₂ t₃ k v ∷ cs) = (now ≤ t₁) × (t₁ ≤ t₂) × (t₂ ≤ t₃) × Timely t₃ cs
Timely now (visits t k f ∷ cs) = (now ≤ t) × Timely t cs
Timely now (prunes t ∷ cs) = (now ≤ t) × Timely t cs

module _ {ℓ} {K V : Type ℓ} (dec : Discrete K) (expiry segments : ℕ) where
  unfoldable pub step : MapList K V → Call K V → MapList K V
  step m (puts t k v) = put dec expiry segments t k v m
  step m (erases k) = (erase dec k m).1
  step m clears = clear m
  step m (gets t₁ t₂ k) = (get dec expiry segments t₁ t₂ k m).1
  step m (gets_or_puts t₁ t₂ t₃ k v) = (get_or_put dec expiry segments t₁ t₂ t₃ k v m).1
  step m (visits t k f) = (visit dec t k f m).1
  step m (prunes t) = prune t m

  -- The cache, and the clock, after a history.
  pub run : ℕ → MapList K V → List (Call K V) → ℕ × MapList K V
  run now m [] = (now, m)
  run now m (c ∷ cs) = run (clock now c) (step m c) cs

  get_or_put-IsValid :
      (t₁ t₂ t₃ : ℕ) (k : K) (w : V) (m : MapList K V)
      → t₂ ≤ t₃
      → IsValid dec expiry segments t₂ m
      → IsValid dec expiry segments t₃ (get_or_put dec expiry segments t₁ t₂ t₃ k w m).1
  unfolding get_or_put
  get_or_put-IsValid t₁ t₂ t₃ k w m h v =
      let after =
        IsValid_later dec expiry segments h (touch-IsValid dec expiry segments t₁ t₂ k m v) in
      elim (Option-cases (touch dec expiry segments t₁ t₂ k m).0) [
        | inl e ↦ rw (e, get_or_put) (insert-IsValid dec expiry segments t₃ k w _ after)
        | inr (x, e) ↦ rw (e, get_or_put) after
      ]

  -- A history of calls whose clock readings never go back keeps the cache valid: deadlines
  -- strictly fall and lie within a lifetime and a segment of the clock, and no key stands in two
  -- places.
  pub run-IsValid :
      (now : ℕ) (m : MapList K V) (cs : List (Call K V))
      → Timely now cs
      → IsValid dec expiry segments now m
      → let (later, m') = run now m cs in IsValid dec expiry segments later m'
  unfolding run step put erase get clear
  run-IsValid now m [] t v = v
  run-IsValid now m (puts t k w ∷ cs) h v =
      run-IsValid t _ cs h.1
        (insert-IsValid dec expiry segments t k w m (IsValid_later dec expiry segments h.0 v))
  run-IsValid now m (erases k ∷ cs) h v =
      run-IsValid now _ cs h (remove_all-IsValid dec expiry segments now m v k)
  run-IsValid now m (clears ∷ cs) h v =
      run-IsValid now [] cs h (record { ordered = tt; unique = λ k. omega arith })
  run-IsValid now m (gets t₁ t₂ k ∷ cs) h v = run-IsValid t₂ _ cs h.2 (
      touch-IsValid dec expiry segments t₁ t₂ k m
        (IsValid_later dec expiry segments (omega arith) v))
  run-IsValid now m (gets_or_puts t₁ t₂ t₃ k w ∷ cs) h v =
      run-IsValid t₃ _ cs h.3
        (get_or_put-IsValid t₁ t₂ t₃ k w m h.2 (IsValid_later dec expiry segments (omega arith) v))
  run-IsValid now m (visits t k f ∷ cs) h v =
      run-IsValid t _ cs h.1
        (visit-IsValid dec expiry segments t t k f m (IsValid_later dec expiry segments h.0 v))
  run-IsValid now m (prunes t ∷ cs) h v =
      run-IsValid t _ cs h.1
        (prune-IsValid dec expiry segments t m (IsValid_later dec expiry segments h.0 v) t)
