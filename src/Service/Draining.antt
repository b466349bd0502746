-- ===== src/Service/Draining.antt =====
-- The end of `service::run` of src/service.cpp: what follows the loop, until the service is gone.
-- `E` is all that fibers may change. A round is `drain_poll` and a yield, in which other fibers
-- run; `active` and `now` are what the counter and the steady clock, in milliseconds, read; and
-- `join_starter` waits for the fiber that starts the tasks, whose channel is closed.
use libasyik.Common.{
  ℕ, zero, suc, ◌+◌, ◌*◌, ◌≡◌, ◌≤◌, ◌<◌, refl, sym, ◌∙◌, subst, ◌⊎◌, inl, inr, Option, none, some,
  Bool, true, false, if◌then◌else◌, if-intro, ltb, ltb→lt, Option-cases, Bool-cases, arith, ◌>>=◌,
}

-- What the loop of `run` does in a round that polled nothing.
pub data Pause : Type 0 where
  no_pause yields sleeps_100_us sleeps_5_ms : Pause

-- The count of idle rounds after a round, with its pause.
unfoldable pub idle : (polled : Bool) → ℕ → ℕ × Pause
idle true idle_count = (0, no_pause)
idle false idle_count = (
  idle_count + 1,
  if ltb (idle_count + 1) 100
      then yields
      else if ltb (idle_count + 1) 200
      then sleeps_100_us
      else sleeps_5_ms,
)

module _ {E : Type 0} (drain_poll_yield : E → E) where
  unfoldable pub rounds : ℕ → E → E
  rounds zero e = e
  rounds (suc n) e = rounds n (drain_poll_yield e)

module _ {E : Type 0} (active now : E → ℕ) (drain_poll_yield : E → E) where
  -- The loop that waits for the fibers, until a deadline has passed.
  unfoldable pub wait_for_fibers : (deadline fuel : ℕ) → E → Option E
  wait_for_fibers deadline zero e = none
  wait_for_fibers deadline (suc n) e =
      let rest = wait_for_fibers deadline n (drain_poll_yield e) in
      if ltb 0 (active e) then (if ltb deadline (now e) then some e else rest) else some e

  module _ (join_starter request_stop : E → E) where
    -- The phases of the end, up to the last rounds: whether the fibers were told to stop.
    unfoldable pub wait_by_force : (fuel : ℕ) → E → Option (E × Bool)
    wait_by_force fuel e =
        if ltb 0 (active e)
        then (wait_for_fibers (now (request_stop e) + 500) fuel (request_stop e) >>= λ f.
            some (f, true))
        else some (e, false)

    unfoldable pub wait : (fuel : ℕ) → E → Option (E × Bool)
    wait fuel e = wait_for_fibers (now e + 500) fuel e >>= wait_by_force fuel

    unfoldable pub drain : (fuel : ℕ) → E → Option E
    drain fuel e = wait fuel (join_starter (rounds drain_poll_yield 200 e)) >>= λ r.
        some (rounds drain_poll_yield 20 r.0)

some_injective : {E : Type 0} {a b : E} → some a ≡ some b → a ≡ b
some_injective e = cc e

-- The clock moves on within so many rounds.
unfoldable pub Advances : {E : Type 0} (now : E → ℕ) (drain_poll_yield : E → E) (k : ℕ) → Type 0
Advances now drain_poll_yield k = (e : _) → now e + 1 ≤ now (rounds drain_poll_yield k e)

module _ {E : Type 0} (drain_poll_yield : E → E) where
  rounds_path :
      {m n : ℕ} (e : E) → m ≡ n → rounds drain_poll_yield m e ≡ rounds drain_poll_yield n e
  rounds_path e p = λ i. rounds drain_poll_yield (p i) e

  rounds_add :
      (m n : ℕ) (e : E)
      → rounds drain_poll_yield (m + n) e ≡ rounds drain_poll_yield n (rounds drain_poll_yield m e)
  unfolding rounds
  rounds_add zero n e = rounds_path e z
    where
      z : zero + n ≡ n
      z = omega arith
  rounds_add (suc m) n e = rounds_path e z ∙ rounds_add m n (drain_poll_yield e)
    where
      z : suc m + n ≡ suc (m + n)
      z = omega arith

  rounds_clock :
      (now : E → ℕ) (k j : ℕ) (e : E)
      → Advances now drain_poll_yield k
      → now e + j ≤ now (rounds drain_poll_yield (j * k) e)
  unfolding rounds Advances
  rounds_clock now k zero e a =
      subst (λ x. now e + 0 ≤ now x) (rounds_path {m = 0} {n = 0 * k} e (omega arith)) (omega arith)
  rounds_clock now k (suc j) e a =
      subst (λ x. now e + suc j ≤ now x) (sym split)
        (between _ _ _ (a e) (rounds_clock now k j (rounds drain_poll_yield k e) a))
    where
      n : suc j * k ≡ k + j * k
      n = omega arith

      split :
          rounds drain_poll_yield (suc j * k) e
          ≡ rounds drain_poll_yield (j * k) (rounds drain_poll_yield k e)
      split = rounds_path e n ∙ rounds_add k (j * k) e

      between : (x y z : ℕ) → x + 1 ≤ y → y + j ≤ z → x + suc j ≤ z
      between x y z p q = omega (arith, p, q)

module _ {E : Type 0} (active now : E → ℕ) (drain_poll_yield : E → E) where
  -- A loop that runs out of fuel has seen no deadline pass.
  wait_none :
      (deadline n i : ℕ) (e : E)
      → wait_for_fibers active now drain_poll_yield deadline n e ≡ none
      → i < n
      → now (rounds drain_poll_yield i e) ≤ deadline
  unfolding wait_for_fibers rounds
  wait_none deadline zero i e = λ left h. absurd (omega (arith, h))
  wait_none deadline (suc n) zero e =
      let P = λ (o : Option E). o ≡ none → 0 < suc n → now e ≤ deadline in
      if-intro P (ltb 0 (active e))
        (λ _. if-intro P (ltb deadline (now e)) (λ _ x. absurd (cc x)) (λ late x h. ground arith))
        (λ _ x. absurd (cc x))
  wait_none deadline (suc n) (suc i) e =
      let P = λ (o : Option E).
        o ≡ none
        → suc i < suc n
        → now (rounds drain_poll_yield i (drain_poll_yield e)) ≤ deadline in
      if-intro P (ltb 0 (active e))
        (λ _.
          if-intro P (ltb deadline (now e)) (λ _ x. absurd (cc x))
            (λ _ x h. wait_none deadline n i (drain_poll_yield e) x (omega (arith, h))))
        (λ _ x. absurd (cc x))

  -- A loop that ends has no fiber left, or its deadline has passed.
  wait_some :
      (deadline n : ℕ) (e f : E)
      → wait_for_fibers active now drain_poll_yield deadline n e ≡ some f
      → (active f ≡ 0) ⊎ (deadline < now f)
  unfolding wait_for_fibers
  wait_some deadline zero e f = λ x. absurd (cc x)
  wait_some deadline (suc n) e f =
      let P = λ (o : Option E). o ≡ some f → (active f ≡ 0) ⊎ (deadline < now f) in
      if-intro P (ltb 0 (active e))
        (λ _.
          if-intro P (ltb deadline (now e))
            (λ late x.
              inr (subst (λ g. deadline < now g) (some_injective x) (ltb→lt deadline (now e) late)))
            (λ _ x. wait_some deadline n (drain_poll_yield e) f x))
        (λ idle_now x. inl (subst (λ g. active g ≡ 0) (some_injective x) (ground arith)))

  wait_ends :
      (k fuel : ℕ) (e : E)
      → Advances now drain_poll_yield k
      → 501 * k < fuel
      → (f : E) × (wait_for_fibers active now drain_poll_yield (now e + 500) fuel e ≡ some f)
  wait_ends k fuel e a enough =
      elim (Option-cases (wait_for_fibers active now drain_poll_yield (now e + 500) fuel e)) [
        | inr found ↦ found
        | inl left ↦ absurd (
            omega (
              arith,
              wait_none (now e + 500) fuel (501 * k) e left enough,
              rounds_clock drain_poll_yield now k 501 e a,
            ))
      ]

  module _ (join_starter request_stop : E → E) where
    -- No fiber is active, or the fibers were told to stop more than a second after a state.
    pub HasWaited : E → E × Bool → Type 0
    HasWaited e r = (active r.0 ≡ 0) ⊎ ((r.1 ≡ true) × (now e + 1000 < now r.0))

    by_force :
        (k fuel : ℕ) (e f : E)
        → Advances now drain_poll_yield k
        → ((e : E) → now e ≤ now (request_stop e))
        → 501 * k < fuel
        → (active f ≡ 0) ⊎ (now e + 500 < now f)
        → (r : E × Bool) × (wait_by_force active now drain_poll_yield join_starter request_stop fuel
              f
            ≡ some r)
          × HasWaited e r
    unfolding wait_by_force HasWaited
    by_force k fuel e f a steady enough late = elim (Bool-cases (ltb 0 (active f))) [
      | inr h ↦ ((f, false), rw (wait_by_force, h) refl, inl (ground arith))
      | inl h ↦
          let (g, w) = wait_ends k fuel (request_stop f) a enough in
          (
            (g, true),
            rw (wait_by_force, h, w) refl,
            elim (wait_some (now (request_stop f) + 500) fuel (request_stop f) g w) [
              | inl none_active ↦ inl none_active
              | inr later ↦ elim late [
                | inl none_active ↦ absurd (ground arith)
                | inr first ↦ inr (refl, omega (arith, later, first, steady f))
              ]
            ],
          )
    ]

    -- Where the clock moves on by a millisecond within k rounds, and is not set back by the order
    -- to stop, fuel of more than 501 k is enough for the end of a service to come to its end: it
    -- leaves its waiting with no fiber active, or with the fibers told to stop and more than a
    -- second after it began to wait, and then makes its last 20 rounds.
    pub drain_ends :
        (k fuel : ℕ) (e : E)
        → Advances now drain_poll_yield k
        → ((e : E) → now e ≤ now (request_stop e))
        → 501 * k < fuel
        → let start = join_starter (rounds drain_poll_yield 200 e) in
          (r : E × Bool) × (wait active now drain_poll_yield join_starter request_stop fuel start
            ≡ some r)
          × (drain active now drain_poll_yield join_starter request_stop fuel e
              ≡ some (rounds drain_poll_yield 20 r.0))
          × HasWaited start r
    unfolding drain wait
    drain_ends k fuel e a steady enough =
        let start = join_starter (rounds drain_poll_yield 200 e) in
        let (f, w) = wait_ends k fuel start a enough in
        let (r, forced, waited) =
          by_force k fuel start f a steady enough (wait_some (now start + 500) fuel start f w) in
        (r, rw (wait, w, forced) refl, rw (drain, wait, w, forced) refl, waited)
