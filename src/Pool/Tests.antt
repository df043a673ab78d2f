-- ===== src/Pool/Tests.antt =====
-- Runs of a pool of objects of eight bytes.
use sim_universal_constructi.Prelude.{ℕ, ◌-◌, ◌*◌, ◌/◌, ◌≡◌, refl, none, some, [], ◌∷◌, arith}
use sim_universal_constructi.Pool.{
  Pool, block_size, metadata_size, new_block, alloc_obj, destroy_pool,
}
use sim_universal_constructi.Pool.Invariant.{
  IsValid, new_block-Fits, Allocates, alloc_obj-Allocates,
}
use sim_universal_constructi.Pool.Destroy.{destroy_pool_leaks}
use sim_universal_constructi.Pool.Rollback.{Returns, rollback_lem}

abbrev fresh_pool : Pool
fresh_pool = record {
  obj_size = 8;
  entries_per_block = (block_size - metadata_size) / 8;
  recycle_list = none;
  head_block = some 0;
  cur_block = some 0;
  block = λ _. new_block 8;
  allocated = 1;
  link = λ _. none;
  freed = [];
}

fresh_pool-IsValid : IsValid fresh_pool
fresh_pool-IsValid = record {
  size_pos = omega arith;
  size_fits = omega arith;
  head = refl;
  current = (0, refl, omega arith);
  blocks = λ b lt. new_block-Fits 8;
  older = λ b a lt e. ground arith;
}

alloc_obj-Allocates_example : Allocates (λ b. b * block_size) 2 fresh_pool
alloc_obj-Allocates_example =
    alloc_obj-Allocates (λ b. b * block_size) 0 fresh_pool fresh_pool-IsValid

rollback_lem_example : Returns 2 fresh_pool 3
rollback_lem_example = rollback_lem 1 fresh_pool 3 0 fresh_pool-IsValid refl (omega arith)

-- Every entry of block 0 is handed out.
abbrev full_pool : Pool
full_pool = record fresh_pool {
  block =
      λ _. record (new_block 8) { free_entries = 0; cur_entry = (block_size - metadata_size) / 8 };
}

full_pool-IsValid : IsValid full_pool
full_pool-IsValid = record {
  size_pos = omega arith;
  size_fits = omega arith;
  head = refl;
  current = (0, refl, omega arith);
  blocks = λ b lt. record { capacity = refl; counted = omega arith; last = refl };
  older = λ b a lt e. ground arith;
}

destroy_pool_leaks_example :
    (o : ℕ) × (q : Pool) × (alloc_obj (λ b. b * block_size) 2 full_pool ≡ some (o, q))
    × (q.allocated ≡ 2)
    × (destroy_pool 2 q ≡ some (record q { head_block = none; cur_block = none; freed = 0 ∷ [] }))
destroy_pool_leaks_example =
    destroy_pool_leaks (λ b. b * block_size) 0 full_pool 0 full_pool-IsValid refl refl refl
