-- ===== src/Pools/Tests.antt =====
-- Runs of the pools of include/libasyik/object_pool.hpp and
-- include/libasyik/pooled_guarded_stack.hpp, and their theorems at concrete inputs.
use libasyik.Common.{◌≡◌, refl, some, List, [], ◌∷◌, arith}
use libasyik.Pools.{
  BlockPool, StackPool, make_block, allocate, deallocate, shared_object_pool, make_stack_pool,
  pop_or_mmap, allocate_stack, deallocate_stack,
}
use libasyik.Pools.Blocks.{Move, asks, returns, step, run, IsOwned, run-IsOwned}
use libasyik.Pools.Stacks.{base_of, without_first, IsHanded, allocate_stack-IsHanded}

program : Unit {0}
unfolding make_block allocate deallocate shared_object_pool step run make_stack_pool pop_or_mmap
    allocate_stack deallocate_stack
program = tt

-- Two blocks are asked for, the first is given back and handed out again.
abbrev moves : List Move
moves = asks 1000 200 ∷ asks 2000 200 ∷ returns 1 ∷ asks 3000 200 ∷ []

abbrev objects : BlockPool
objects = record { block_size = 228; free_list = [] }

shared_object_pool_run : shared_object_pool 100 ≡ objects
unfolding program
shared_object_pool_run = refl

hands_out_again :
    (run ([], objects) moves).0 ≡ (make_block 1000 200, 200) ∷ (make_block 2000 200, 200) ∷ []
unfolding program
hands_out_again = refl

run-IsOwned_example : IsOwned (run ([], objects) moves)
unfolding program
run-IsOwned_example = run-IsOwned moves ([], objects) (omega arith) (λ a. omega arith)

abbrev stacks : StackPool
stacks = record { stack_size = 12288; page_size = 4096; mmap_size = 16384; free_stacks = [] }

allocate_stack-IsHanded_example :
    IsHanded stacks
      (without_first stacks.free_stacks)
      (base_of stacks.free_stacks (some 65536))
      (allocate_stack (some 65536) stacks)
allocate_stack-IsHanded_example = allocate_stack-IsHanded stacks (some 65536) (omega arith)
