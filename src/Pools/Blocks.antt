-- ===== src/Pools/Blocks.antt =====
-- Who has the blocks of include/libasyik/object_pool.hpp, over any history of its clients.
use libasyik.Common.{
  ℕ, zero, suc, ◌+◌, ◌≤◌, ◌≡◌, refl, ap, ◌∙◌, subst, inl, inr, Option, none, some, List, [], ◌∷◌,
  leb, ◌==◌, if◌then◌else◌, Bool-cases, Option-cases, if-intro, arith,
}
use libasyik.Pools.{Block, BlockPool, make_block, allocate, deallocate}

-- What clients do: one asks for a block, or gives back the n-th of those that are out.
pub data Move : Type 0 where
  asks : (fresh bytes : ℕ) → Move
  returns : (n : ℕ) → Move

-- The blocks that are out, each with the bytes that were asked for, and the pool.
abbrev pub Loans : Type 0
Loans = List (Block × ℕ)

abbrev pub pick : ℕ → Loans → Option ((Block × ℕ) × Loans)
pick n [] = none
pick zero (l ∷ ls) = some (l, ls)
pick (suc n) (l ∷ ls) = elim (pick n ls) [ none ↦ none | some (l', rest) ↦ some (l', l ∷ rest) ]

unfoldable pub step : Loans × BlockPool → Move → Loans × BlockPool
step (loans, pool) (asks fresh bytes) =
    let (b, pool') = allocate fresh bytes pool in ((b, bytes) ∷ loans, pool')
step (loans, pool) (returns n) = elim (pick n loans) [
  | none ↦ (loans, pool)
  | some ((b, bytes), rest) ↦ (rest, deallocate b bytes pool)
]

unfoldable pub run : Loans × BlockPool → List Move → Loans × BlockPool
run s [] = s
run s (x ∷ xs) = run (step s x) xs

-- How often an address occurs.
abbrev pub times_free : ℕ → List Block → ℕ
times_free a [] = 0
times_free a (b ∷ bs) = (if b.address == a then 1 else 0) + times_free a bs

abbrev pub times_out : ℕ → Loans → ℕ
times_out a [] = 0
times_out a (l ∷ ls) = (if l.0.address == a then 1 else 0) + times_out a ls

-- Nobody has a block twice, and no block that is out is free.
abbrev pub IsOwned : Loans × BlockPool → Type 0
IsOwned (loans, pool) = (a : ℕ) → times_free a pool.free_list + times_out a loans ≤ 1

-- `operator new` answers with an address that nobody has.
abbrev pub Fresh : Loans × BlockPool → List Move → Type 0
Fresh s [] = Unit
Fresh s (asks fresh bytes ∷ xs) =
    (times_free fresh s.1.free_list + times_out fresh s.0 ≡ 0)
    × Fresh (step s (asks fresh bytes)) xs
Fresh s (returns n ∷ xs) = Fresh (step s (returns n)) xs

-- Picking a loan moves it to the front, or changes nothing.
spread : ℕ → Loans → Option ((Block × ℕ) × Loans) → ℕ
spread a ls none = times_out a ls
spread a ls (some (l, rest)) = times_out a (l ∷ rest)

times_out-pick : (a n : ℕ) (ls : Loans) → times_out a ls ≡ spread a ls (pick n ls)
unfolding spread
times_out-pick a n [] = refl
times_out-pick a zero (l ∷ ls) = refl
times_out-pick a (suc n) (l ∷ ls) = elim (Option-cases (pick n ls)) [
  | inl e ↦ rw e refl
  | inr (x, e) ↦
      let ih : times_out a ls ≡ times_out a (x.0 ∷ x.1) =
        times_out-pick a n ls ∙ ap (spread a ls) e in
      rw e (omega (arith, ih))
]

module _ (loans : Loans) (pool : BlockPool) (fresh bytes : ℕ)
    (new : times_free fresh pool.free_list + times_out fresh loans ≡ 0)
    (owned : IsOwned (loans, pool)) where
  IsLent : Block × BlockPool → Type 0
  IsLent x = IsOwned ((x.0, bytes) ∷ loans, x.1)

  made : IsLent (make_block fresh bytes, pool)
  unfolding IsLent make_block
  made a = elim (Bool-cases (fresh == a)) [
    | inl e ↦
        let same : times_free a pool.free_list + times_out a loans ≡ 0 =
          subst (λ x. times_free x pool.free_list + times_out x loans ≡ 0) (ground arith) new in
        rw e (omega (arith, same))
    | inr e ↦ rw e (omega (arith, owned a))
  ]

  kept :
      (free : List Block)
      → ((a : ℕ) → times_free a free + times_out a loans ≤ 1)
      → IsLent (elim free as (λ _. Block × BlockPool) [
        | [] ↦ (make_block fresh bytes, pool)
        | ◌∷◌ b bs ↦ (b, record { block_size = pool.block_size; free_list = bs })
      ])
  unfolding IsLent
  kept [] h = made
  kept (b ∷ bs) h = λ a. omega (arith, h a)

  allocate-IsOwned : IsLent (allocate fresh bytes pool)
  unfolding allocate
  allocate-IsOwned =
      if-intro IsLent (leb bytes pool.block_size) (λ fits. kept pool.free_list owned) (λ big. made)

deallocate-IsOwned :
    (loans : Loans) (pool : BlockPool) (b : Block) (bytes : ℕ)
    → IsOwned ((b, bytes) ∷ loans, pool)
    → IsOwned (loans, deallocate b bytes pool)
unfolding deallocate
deallocate-IsOwned loans pool b bytes owned =
    if-intro (λ p. IsOwned (loans, p)) (leb bytes pool.block_size)
      (λ fits a. omega (arith, owned a)) (λ big a. omega (arith, owned a))

returned-IsOwned :
    (loans : Loans) (pool : BlockPool) (n : ℕ)
    → IsOwned (loans, pool)
    → IsOwned (step (loans, pool) (returns n))
unfolding step spread
returned-IsOwned loans pool n owned = elim (Option-cases (pick n loans)) [
  | inl e ↦ rw (step, e) owned
  | inr (((b, r), rest), e) ↦
      rw (step, e)
        (deallocate-IsOwned rest pool b r (λ a.
          let moved : times_out a loans ≡ times_out a ((b, r) ∷ rest) =
            times_out-pick a n loans ∙ ap (spread a loans) e in
          omega (arith, owned a, moved)))
]

-- Where operator new answers with addresses that nobody has, after any history of requests and
-- returns no two clients have one block at one time and none has a block that is free, if that
-- was so at the start.
pub run-IsOwned :
    (xs : List Move) (s : Loans × BlockPool) → Fresh s xs → IsOwned s → IsOwned (run s xs)
unfolding run step IsLent
run-IsOwned [] s fresh owned = owned
run-IsOwned (asks fresh bytes ∷ xs) (loans, pool) (new, later) owned =
    run-IsOwned xs _ later (allocate-IsOwned loans pool fresh bytes new owned)
run-IsOwned (returns n ∷ xs) (loans, pool) later owned =
    run-IsOwned xs _ later (returned-IsOwned loans pool n owned)
