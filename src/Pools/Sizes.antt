-- ===== src/Pools/Sizes.antt =====
-- Whether the blocks of include/libasyik/object_pool.hpp are as large as their clients ask.
use libasyik.Common.{
  ℕ, zero, suc, ◌≤◌, ◌<◌, ◌≡◌, refl, sym, subst, inl, inr, Option, none, some, List, [], ◌∷◌, true,
  leb, Option-cases, if-intro, arith,
}
use libasyik.Pools.{Block, BlockPool, make_block, allocate, deallocate}
use libasyik.Pools.Blocks.{Move, asks, returns, Loans, pick, step, run}

-- Every client asks for the same number of bytes, as those of a `shared_object_pool` do.
abbrev pub Uniform : (bytes : ℕ) → List Move → Type 0
Uniform bytes [] = Unit
Uniform bytes (asks fresh r ∷ xs) = (r ≡ bytes) × Uniform bytes xs
Uniform bytes (returns n ∷ xs) = Uniform bytes xs

abbrev pub AllFree : (bytes : ℕ) → List Block → Type 0
AllFree bytes [] = Unit
AllFree bytes (b ∷ bs) = (bytes ≤ b.capacity) × AllFree bytes bs

abbrev pub AllOut : (bytes : ℕ) → Loans → Type 0
AllOut bytes [] = Unit
AllOut bytes (l ∷ ls) = (l.1 ≤ l.0.capacity) × (bytes ≤ l.0.capacity) × AllOut bytes ls

-- Every block that is out has the bytes that were asked for, and every free one has them too.
abbrev pub HasRoom : (bytes : ℕ) → Loans × BlockPool → Type 0
HasRoom bytes (loans, pool) = AllOut bytes loans × AllFree bytes pool.free_list

AllPicked : (bytes : ℕ) → Option ((Block × ℕ) × Loans) → Type 0
AllPicked bytes none = Unit
AllPicked bytes (some (l, rest)) = AllOut bytes (l ∷ rest)

AllOut-pick : (bytes n : ℕ) (ls : Loans) → AllOut bytes ls → AllPicked bytes (pick n ls)
unfolding AllPicked
AllOut-pick bytes n [] h = tt
AllOut-pick bytes zero (l ∷ ls) h = h
AllOut-pick bytes (suc n) (l ∷ ls) (h, k, hs) = elim (Option-cases (pick n ls)) [
  | inl e ↦ rw e tt
  | inr (x, e) ↦
      let (h', k', hs') = subst (AllPicked bytes) e (AllOut-pick bytes n ls hs) in
      rw e (h', k', (h, k, hs'))
]

allocate-HasRoom :
    (loans : Loans) (pool : BlockPool) (fresh bytes : ℕ)
    → HasRoom bytes (loans, pool)
    → let (b, pool') = allocate fresh bytes pool in HasRoom bytes ((b, bytes) ∷ loans, pool')
unfolding allocate make_block
allocate-HasRoom loans pool fresh bytes (outs, frees) =
    if-intro (λ (x : Block × BlockPool). HasRoom bytes ((x.0, bytes) ∷ loans, x.1))
      (leb bytes pool.block_size) (λ fits. lent pool.free_list frees) (λ big. made)
  where
    made : HasRoom bytes ((make_block fresh bytes, bytes) ∷ loans, pool)
    made = ((omega arith, omega arith, outs), frees)

    lent :
        (free : List Block)
        → AllFree bytes free
        → let x = elim free as (λ _. Block × BlockPool) [
          | [] ↦ (make_block fresh bytes, pool)
          | ◌∷◌ b bs ↦ (b, record { block_size = pool.block_size; free_list = bs })
        ] in
          HasRoom bytes ((x.0, bytes) ∷ loans, x.1)
    lent [] h = made
    lent (b ∷ bs) (h, hs) = ((h, h, outs), hs)

deallocate-HasRoom :
    (loans : Loans) (pool : BlockPool) (bytes r : ℕ) (b : Block)
    → bytes ≤ b.capacity
    → HasRoom bytes (loans, pool)
    → HasRoom bytes (loans, deallocate b r pool)
unfolding deallocate
deallocate-HasRoom loans pool bytes r b h (outs, frees) =
    if-intro (λ (p : BlockPool). HasRoom bytes (loans, p)) (leb r pool.block_size)
      (λ fits. (outs, (h, frees))) (λ big. (outs, frees))

returned-HasRoom :
    (loans : Loans) (pool : BlockPool) (bytes n : ℕ)
    → HasRoom bytes (loans, pool)
    → HasRoom bytes (step (loans, pool) (returns n))
unfolding step AllPicked
returned-HasRoom loans pool bytes n (outs, frees) = elim (Option-cases (pick n loans)) [
  | inl e ↦ rw (step, e) (outs, frees)
  | inr (((b, r), rest), e) ↦
      let (h, k, hs) = subst (AllPicked bytes) e (AllOut-pick bytes n loans outs) in
      rw (step, e) (deallocate-HasRoom rest pool bytes r b k (hs, frees))
]

-- Where all clients ask for one number of bytes, every block that is out has at least the bytes
-- asked for after any history, if that was so, and of the free blocks, at the start.
run-HasRoom :
    (xs : List Move) (bytes : ℕ) (s : Loans × BlockPool)
    → Uniform bytes xs
    → HasRoom bytes s
    → HasRoom bytes (run s xs)
unfolding run step
run-HasRoom [] bytes s same room = room
run-HasRoom (asks fresh r ∷ xs) bytes (loans, pool) (e, same) room = run-HasRoom xs bytes _ same (
    subst (λ r. HasRoom bytes (step (loans, pool) (asks fresh r))) (sym e)
      (allocate-HasRoom loans pool fresh bytes room))
run-HasRoom (returns n ∷ xs) bytes (loans, pool) same room =
    run-HasRoom xs bytes _ same (returned-HasRoom loans pool bytes n room)

abbrev pub no_blocks : (block_size : ℕ) → BlockPool
no_blocks block_size = record { block_size = block_size; free_list = [] }

allocate_new :
    (block_size fresh bytes : ℕ)
    → allocate fresh bytes (no_blocks block_size) ≡ (make_block fresh bytes, no_blocks block_size)
unfolding allocate
allocate_new block_size fresh bytes =
    if-intro (λ (x : Block × BlockPool). x ≡ (make_block fresh bytes, no_blocks block_size))
      (leb bytes block_size) (λ e. refl) (λ e. refl)

deallocate_small :
    (block_size bytes : ℕ) (b : Block)
    → bytes ≤ block_size
    → deallocate b bytes (no_blocks block_size)
      ≡ record { block_size = block_size; free_list = b ∷ [] }
unfolding deallocate
deallocate_small block_size bytes b h =
    let e : leb bytes block_size ≡ true = ground arith in rw e refl

allocate_kept :
    (block_size fresh bytes : ℕ) (b : Block)
    → bytes ≤ block_size
    → allocate fresh bytes (record { block_size = block_size; free_list = b ∷ [] })
      ≡ (b, no_blocks block_size)
unfolding allocate
allocate_kept block_size fresh bytes b h =
    let e : leb bytes block_size ≡ true = ground arith in rw e refl

-- For two sizes within the block size, the smaller first: a block of the smaller size that is
-- given back is handed out for a request of the larger, and is too small for it.
allocate_too_small :
    (block_size fresh fresh' small large : ℕ)
    → small < large
    → large ≤ block_size
    → let (b, pool) = allocate fresh small (no_blocks block_size) in
      let (b', pool') = allocate fresh' large (deallocate b small pool) in
      (b' ≡ b) × (b'.capacity < large)
unfolding make_block
allocate_too_small block_size fresh fresh' small large h h' =
    rw
      (
        allocate_new block_size fresh small,
        deallocate_small block_size small (make_block fresh small) (omega arith),
        allocate_kept block_size fresh' large (make_block fresh small) h',
      )
      (refl, h)
