-- ===== src/Memcache/Background.antt =====
-- The fiber that prunes the cache, `prune_periodically` of include/libasyik/memcache.hpp, as
-- `make_memcache` and `make_memcache_mt` start it: how old the entries are that it leaves.
use libasyik.Common.{
  ℕ, ◌+◌, ◌-◌, ◌*◌, ◌/◌, ◌≤◌, ◌<◌, ◌≡◌, ◌⊎◌, refl, sym, ap, ◌∙◌, subst, Option, none, some, List,
  [], ◌∷◌, Bool, if◌then◌else◌, if-intro, leb, min, arith, ◌>>=◌, Option-cases, inl, inr,
}
use libasyik.Memcache.{MapList, prune}
use libasyik.Memcache.Calls.{Call, Timely}
use libasyik.Memcache.Deadlines.{steps, last_clock, Above, pruned-Above, steps-Above}

-- The time between two prunes, and the time of one sleep, in milliseconds.
unfoldable pub interval_ms : (expiry segments : ℕ) → ℕ
interval_ms expiry segments = expiry * 1000 / segments

pub slice_ms : (expiry segments : ℕ) → ℕ
slice_ms expiry segments = min (interval_ms expiry segments) 100

-- A sleep of the fiber, with the calls of others while it lasts; then the clock in `due`, in
-- `next_prune` and in `prune`, and whether the cache is still there.
pub record Sleep {ℓ} (K V : Type ℓ) : Type ℓ where
  pub calls : List (Call K V)
  pub woken : ℕ
  pub again : ℕ
  pub pruned : ℕ
  pub lives : Bool

module _ {ℓ} {K V : Type ℓ} (dec : Discrete K) (expiry segments : ℕ) where
  -- A round of the loop on `next_prune` and the cache; `none` is its end.
  unfoldable pub round : Sleep K V → ℕ × MapList K V → Option (ℕ × MapList K V)
  round s (next_prune, m) =
      let m' = steps dec expiry segments m s.calls in
      if s.lives
      then (if leb next_prune s.woken
          then some (s.again + interval_ms expiry segments, prune s.pruned m')
          else some (next_prune, m'))
      else none

  unfoldable pub prune_periodically : List (Sleep K V) → ℕ × MapList K V → Option (ℕ × MapList K V)
  prune_periodically [] s = some s
  prune_periodically (w ∷ ws) s = round w s >>= prune_periodically ws

  -- The cache is made empty and its fiber is queued; until it runs and reads the clock there may be
  -- calls.
  unfoldable pub make_memcache :
      (queued : List (Call K V)) (now : ℕ) → List (Sleep K V) → Option (ℕ × MapList K V)
  make_memcache queued now ws =
      prune_periodically ws (now + interval_ms expiry segments, steps dec expiry segments [] queued)

  -- The cache for several threads: its fiber is one of a worker, and it prunes under the lock.
  unfoldable pub make_memcache_mt :
      (queued : List (Call K V)) (now : ℕ) → List (Sleep K V) → Option (ℕ × MapList K V)
  make_memcache_mt queued now ws = make_memcache queued now ws

some_path {ℓ} : {A : Type ℓ} {a b : A} → some a ≡ some b → a ≡ b
some_path e = cc e

module _ {ℓ} {K V : Type ℓ} where
  -- The clock never goes back.
  unfoldable pub AreTimely : ℕ → List (Sleep K V) → Type 0
  AreTimely now [] = Unit
  AreTimely now (w ∷ ws) =
      Timely now w.calls
      × (last_clock now w.calls ≤ w.woken)
      × (w.woken ≤ w.again)
      × (w.again ≤ w.pruned)
      × AreTimely w.pruned ws

  -- When the fiber woke last.
  pub last_woken : ℕ → List (Sleep K V) → ℕ
  last_woken last [] = last
  last_woken last (w ∷ ws) = last_woken w.woken ws

  -- No deadline lies more than an interval before a time.
  pub Recent : (interval now : ℕ) → MapList K V → Type 0
  Recent interval now [] = Unit
  Recent interval now ((d, s) ∷ m) = (now ≤ d + interval) × Recent interval now m

-- What is still forgiven at a time for the delay with which the fiber started.
pub slack : (start interval delay now : ℕ) → ℕ
slack start interval delay now = if leb (start + interval) now then 0 else delay

-- The bound on the time of the next prune, before and after the first.
IsNear : (start interval delay bound next : ℕ) → Type 0
IsNear start interval delay bound next =
    (next ≤ bound + interval) ⊎ ((next ≡ start + interval) × (start ≤ bound + delay))

IsNear-slack :
    (start i delay b next now : ℕ)
    → now < next
    → IsNear start i delay b next
    → now ≤ b + (i + slack start i delay now)
unfolding slack IsNear
IsNear-slack start i delay b next now early (inl h) = omega (arith, early, h)
IsNear-slack start i delay b next now early (inr (e, h)) =
    if-intro (λ (x : ℕ). now ≤ b + (i + x)) (leb (start + i) now)
      (λ late. ground (arith, late, early, e)) (λ _. omega (arith, early, e, h))

module _ {ℓ} {K V : Type ℓ} (dec : Discrete K) (expiry segments start delay : ℕ) where
  -- The last prune was at a time from which the next is at most an interval away, or none was yet.
  IsKept : (now : ℕ) → ℕ × MapList K V → Type 0
  IsKept now s =
      (b : ℕ) × (b ≤ now) × IsNear start (interval_ms expiry segments) delay b s.0 × Above b s.1

  -- How old the segments are when the fiber woke last at a time.
  IsRecent : (now : ℕ) → ℕ × MapList K V → Type 0
  IsRecent now s =
      Recent (interval_ms expiry segments + slack start (interval_ms expiry segments) delay now) now
        s.1

  Above-Recent : (b now i : ℕ) (m : MapList K V) → now ≤ b + i → Above b m → Recent i now m
  unfolding Above Recent
  Above-Recent b now i [] h a = tt
  Above-Recent b now i ((d, s) ∷ m) h (first, rest) =
      (omega (arith, h, first), Above-Recent b now i m h rest)

  round-IsKept :
      (now : ℕ) (w : Sleep K V) (s t : ℕ × MapList K V)
      → IsKept now s
      → Timely now w.calls
      → last_clock now w.calls ≤ w.woken
      → w.woken ≤ w.again
      → w.again ≤ w.pruned
      → round dec expiry segments w s ≡ some t
      → IsKept w.pruned t × IsRecent w.woken t
  unfolding round IsKept IsNear IsRecent
  round-IsKept now w (next, m) t (b, h, near, a) calls first second third =
      let i = interval_ms expiry segments in
      let (a', l) = steps-Above dec expiry segments now b m w.calls h calls a in
      let P =
        λ (o : Option (ℕ × MapList K V)). o ≡ some t → IsKept w.pruned t × IsRecent w.woken t in
      if-intro P w.lives
        (λ _.
          if-intro P (leb next w.woken)
            (λ due e.
              let p = pruned-Above w.pruned (steps dec expiry segments m w.calls) in
              subst (λ x. IsKept w.pruned x × IsRecent w.woken x) (some_path e)
                (
                  (w.pruned, omega arith, inl (omega (arith, third)), p),
                  Above-Recent w.pruned w.woken (i + slack start i delay w.woken)
                      (prune w.pruned (steps dec expiry segments m w.calls))
                      (omega (arith, second, third)) p,
                ))
            (λ early e.
              let not_due : w.woken < next = ground (arith, early) in
              subst (λ x. IsKept w.pruned x × IsRecent w.woken x) (some_path e)
                (
                  (b, omega (arith, h, l, first, second, third), near, a'),
                  Above-Recent b w.woken (i + slack start i delay w.woken)
                      (steps dec expiry segments m w.calls)
                      (IsNear-slack start i delay b next w.woken not_due near) a',
                )))
        (λ _ e. absurd (cc e))

  prune_periodically-Recent :
      (now last : ℕ) (ws : List (Sleep K V)) (s t : ℕ × MapList K V)
      → IsKept now s
      → IsRecent last s
      → AreTimely now ws
      → prune_periodically dec expiry segments ws s ≡ some t
      → IsRecent (last_woken last ws) t
  unfolding prune_periodically last_woken AreTimely
  prune_periodically-Recent now last [] s t k r timely e =
      subst (λ (x : ℕ × MapList K V). IsRecent last x) (some_path e) r
  prune_periodically-Recent now last (w ∷ ws) s t k r (calls, first, second, third, more) e =
      let rest =
        λ (o : Option (ℕ × MapList K V)). o >>= prune_periodically dec expiry segments ws in
      elim (Option-cases (round dec expiry segments w s)) [
        | inl f ↦ absurd (cc (sym (ap rest f) ∙ e))
        | inr (u, f) ↦
            let (k', r') = round-IsKept now w s u k calls first second third f in
            prune_periodically-Recent w.pruned w.woken ws u t k' r' more (sym (ap rest f) ∙ e)
      ]

module _ {ℓ} {K V : Type ℓ} (dec : Discrete K) (expiry segments : ℕ) where
  -- With a clock that never goes back, an interval between prunes that is not zero, and whatever
  -- is called while the fiber is queued and while it sleeps: whenever the fiber is done with a
  -- round in which it woke at a time, each segment in the cache has a deadline that lies at most
  -- one interval before that time; until an interval after its start, at most an interval and the
  -- delay of its start.
  pub make_memcache-Recent :
      (made now : ℕ) (queued : List (Call K V)) (ws : List (Sleep K V)) (next_prune : ℕ)
      (m : MapList K V)
      → 0 < interval_ms expiry segments
      → Timely made queued
      → last_clock made queued ≤ now
      → AreTimely now ws
      → make_memcache dec expiry segments queued now ws ≡ some (next_prune, m)
      → let interval = interval_ms expiry segments in
        let last = last_woken now ws in
        Recent (interval + (if leb (now + interval) last then 0 else now - made)) last m
  unfolding make_memcache IsKept IsNear IsRecent slack Above
  make_memcache-Recent made now queued ws next_prune m positive before start timely e =
      let i = interval_ms expiry segments in
      let (a, l) = steps-Above dec expiry segments made made [] queued (omega arith) before tt in
      let first = steps dec expiry segments [] queued in
      prune_periodically-Recent dec expiry segments now (now - made) now now ws (now + i, first)
        (next_prune, m) (made, omega (arith, l, start), inr (refl, omega arith), a)
        (Above-Recent dec expiry segments now (now - made) made now
          (i + slack now i (now - made) now) first (begun i positive) a)
        timely e
    where
      begun : (i : ℕ) → 0 < i → now ≤ made + (i + slack now i (now - made) now)
      begun i h = ground (arith, h)
