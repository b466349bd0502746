-- ===== src/Pools/Stacks.antt =====
-- The stacks of include/libasyik/pooled_guarded_stack.hpp.
use libasyik.Common.{
  ℕ, ◌+◌, ◌-◌, ◌*◌, ◌/◌, ◌%◌, ◌≤◌, ◌<◌, ◌≡◌, refl, sym, ap, ◌∙◌, subst, Option, none, some, List,
  [], ◌∷◌, arith,
}
use native.Mathlib.Nat.{div-add-mod', mod-lt, mod-eq_of_lt}
use libasyik.Pools.{
  StackPool, StackContext, make_stack_pool, size_mod, pop_or_mmap, allocate_stack, deallocate_stack,
}

-- Where a stack size with two pages more fits in 64 bits, it is rounded up to whole pages, by
-- less than a page, and the mapping has one page more.
make_stack_pool_lem :
    (page_size stack_size : ℕ)
    → 0 < page_size
    → stack_size + 2 * page_size ≤ size_mod
    → let pool = make_stack_pool page_size stack_size in
      ((pages : ℕ) × (pool.stack_size ≡ pages * page_size))
      × (stack_size ≤ pool.stack_size)
      × (pool.stack_size < stack_size + page_size)
      × (pool.mmap_size ≡ pool.stack_size + page_size)
unfolding make_stack_pool
make_stack_pool_lem page_size stack_size h fits =
    let x = stack_size + page_size - 1 in
    let whole : x / page_size * page_size + x % page_size ≡ x = div-add-mod' x page_size in
    let rest : x % page_size < page_size = mod-lt x h in
    let same : x % size_mod ≡ x = omega arith in
    let rounded : x % size_mod / page_size * page_size % size_mod ≡ x / page_size * page_size =
      ap (λ y. y / page_size * page_size % size_mod) same
      ∙ mod-eq_of_lt {n = x / page_size * page_size} {m = size_mod} (omega (arith, whole, rest)) in
    (
      (x / page_size, rounded),
      omega (arith, whole, rest, rounded),
      omega (arith, whole, rest, rounded),
      mod-eq_of_lt (omega (arith, whole, rest, rounded)),
    )

-- The base that a stack is to have: of the stack that was given back last, else of the mapping.
pub base_of : (free : List ℕ) (mapped : Option ℕ) → Option ℕ
base_of [] mapped = mapped
base_of (base ∷ rest) mapped = some base

pub without_first : List ℕ → List ℕ
without_first [] = []
without_first (base ∷ rest) = rest

pub IsHanded :
    StackPool → (free : List ℕ) (base : Option ℕ) → Option (StackContext × StackPool) → Type 0
IsHanded pool free base none = base ≡ none
IsHanded pool free base (some (sctx, pool')) =
    (base ≡ some (sctx.sp - pool.mmap_size))
    × (pool.mmap_size ≤ sctx.sp)
    × (sctx.sp - sctx.size ≡ sctx.sp - pool.mmap_size + pool.page_size)
    × (pool'.free_stacks ≡ free)
    × ((mapped : Option ℕ)
        → allocate_stack mapped (deallocate_stack sctx pool') ≡ some (sctx, pool'))

-- What `allocate_stack` makes of a base.
with_base : (base : ℕ) → StackPool → StackContext
with_base base pool = record { size = pool.stack_size; sp = base + pool.mmap_size }

with_base-IsHanded :
    (pool : StackPool) (free : List ℕ) (base : ℕ)
    → pool.mmap_size ≡ pool.stack_size + pool.page_size
    → let pool' = record pool { free_stacks = free } in
      IsHanded pool free (some base) (some (with_base base pool', pool'))
unfolding with_base allocate_stack deallocate_stack pop_or_mmap IsHanded
with_base-IsHanded pool free base sized =
    let pool' = record pool { free_stacks = free } in
    let back : base + pool.mmap_size - pool.mmap_size ≡ base = omega arith in
    (
      ap (λ b. some b) (sym back),
      omega arith,
      omega (arith, sized),
      refl,
      λ mapped. ap (λ b. some (with_base b pool', pool')) back,
    )

-- Where the mapping is one page larger than the stack: the base of a stack that is handed out is
-- that of the first free stack, which then is no longer free, or if there is none the one that
-- the mapping answers; the stack lies above the page at its base, which is its guard page, and
-- ends where the mapping ends; once given back it is what the next call hands out, without a new
-- mapping; and there is no stack only where none is free and the mapping fails.
pub allocate_stack-IsHanded :
    (pool : StackPool) (mapped : Option ℕ)
    → pool.mmap_size ≡ pool.stack_size + pool.page_size
    → IsHanded pool
        (without_first pool.free_stacks)
        (base_of pool.free_stacks mapped)
        (allocate_stack mapped pool)
unfolding allocate_stack pop_or_mmap with_base base_of without_first IsHanded
allocate_stack-IsHanded pool mapped sized = handed pool.free_stacks mapped refl
  where
    handed :
        (free : List ℕ) (mapped : Option ℕ)
        → pool.free_stacks ≡ free
        → IsHanded pool
            (without_first free)
            (base_of free mapped)
            (elim (elim free as (λ _. Option (ℕ × StackPool)) [
              | [] ↦ elim mapped as (λ _. Option (ℕ × StackPool)) [
                | none ↦ none
                | some base ↦ some (base, pool)
              ]
              | ◌∷◌ base rest ↦ some (
                base,
                record {
                  stack_size = pool.stack_size;
                  page_size = pool.page_size;
                  mmap_size = pool.mmap_size;
                  free_stacks = rest;
                },
              )
            ])
              as (λ _. Option (StackContext × StackPool)) [
                | none ↦ none
                | some x ↦ some (with_base x.0 x.1, x.1)
              ])
    handed [] none e = refl
    handed [] (some base) e =
        subst (λ (p : StackPool). IsHanded pool [] (some base) (some (with_base base p, p)))
          (ap (λ free. record pool { free_stacks = free }) (sym e))
          (with_base-IsHanded pool [] base sized)
    handed (base ∷ rest) mapped e = with_base-IsHanded pool rest base sized
