-- ===== src/Pools.antt =====
-- include/libasyik/object_pool.hpp: the free list of `block_pool`, behind `pool_allocator` and
-- `shared_object_pool`; and include/libasyik/pooled_guarded_stack.hpp: the stacks of fibers. What
-- `operator new` and `mmap` answer is an argument.
pub mod Blocks
pub mod Sizes
pub mod Stacks
mod Tests
use libasyik.Common.{
  ℕ, suc, ◌+◌, ◌-◌, ◌*◌, ◌/◌, ◌%◌, Option, none, some, List, [], ◌∷◌, leb, if◌then◌else◌,
}

-- A block of memory: where it is, and the bytes that it was made with.
pub record Block : Type 0 where
  pub address : ℕ
  pub capacity : ℕ

-- The back of the vector `free_list_` is the head of the list.
pub record BlockPool : Type 0 where
  pub block_size : ℕ
  pub free_list : List Block

pub make_block : (address bytes : ℕ) → Block
make_block address bytes = record { address = address; capacity = bytes }

-- `fresh` is the address that `operator new` answers with, where it is called.
pub allocate : (fresh bytes : ℕ) → BlockPool → Block × BlockPool
allocate fresh bytes pool =
    if leb bytes pool.block_size
    then elim pool.free_list [
      | [] ↦ (make_block fresh bytes, pool)
      | b ∷ bs ↦ (b, record { block_size = pool.block_size; free_list = bs })
    ]
    else (make_block fresh bytes, pool)

-- A block that is not kept is given to `operator delete`.
pub deallocate : Block → (bytes : ℕ) → BlockPool → BlockPool
deallocate b bytes pool =
    if leb bytes pool.block_size
    then record { block_size = pool.block_size; free_list = b ∷ pool.free_list }
    else pool

-- `shared_object_pool`, for objects of `object_size` bytes.
pub shared_object_pool : (object_size : ℕ) → BlockPool
shared_object_pool object_size = record { block_size = object_size + 128; free_list = [] }

-- `pooled_guarded_stack::impl`: a stack is known by the base of its mapping.
pub record StackPool : Type 0 where
  pub stack_size : ℕ
  pub page_size : ℕ
  pub mmap_size : ℕ
  pub free_stacks : List ℕ

-- `boost::context::stack_context`
pub record StackContext : Type 0 where
  pub size : ℕ
  pub sp : ℕ

abbrev pub size_mod : ℕ
size_mod = 18446744073709551616

pub make_stack_pool : (page_size stack_size : ℕ) → StackPool
make_stack_pool page_size stack_size =
    let rounded = (stack_size + page_size - 1) % size_mod / page_size * page_size % size_mod in
    record {
      stack_size = rounded;
      page_size = page_size;
      mmap_size = (rounded + page_size) % size_mod;
      free_stacks = [];
    }

-- `mapped` is what `mmap` and `mprotect` answer, where they are called; `none` is `std::bad_alloc`.
pub pop_or_mmap : (mapped : Option ℕ) → StackPool → Option (ℕ × StackPool)
pop_or_mmap mapped pool = elim pool.free_stacks [
  | [] ↦ elim mapped [ none ↦ none | some base ↦ some (base, pool) ]
  | base ∷ rest ↦ some (
    base,
    record {
      stack_size = pool.stack_size;
      page_size = pool.page_size;
      mmap_size = pool.mmap_size;
      free_stacks = rest;
    },
  )
]

pub allocate_stack : (mapped : Option ℕ) → StackPool → Option (StackContext × StackPool)
allocate_stack mapped pool = elim (pop_or_mmap mapped pool) [
  | none ↦ none
  | some (base, pool') ↦
      some (record { size = pool'.stack_size; sp = base + pool'.mmap_size }, pool')
]

pub deallocate_stack : StackContext → StackPool → StackPool
deallocate_stack sctx pool = record {
  stack_size = pool.stack_size;
  page_size = pool.page_size;
  mmap_size = pool.mmap_size;
  free_stacks = (sctx.sp - pool.mmap_size) ∷ pool.free_stacks;
}
