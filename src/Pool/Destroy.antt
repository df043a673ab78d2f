-- ===== src/Pool/Destroy.antt =====
-- `synchDestroyPool` frees the first block alone.
use sim_universal_constructi.Prelude.{ℕ, suc, ◌+◌, ◌≡◌, sym, none, some, ◌∷◌, arith}
use sim_universal_constructi.Pool.{Pool, alloc_obj, destroy_pool}
use sim_universal_constructi.Pool.Invariant.{IsValid, alloc_full}

destroy_first :
    (fuel : ℕ) (p : Pool)
    → IsValid p
    → destroy_pool (suc (suc fuel)) p
      ≡ some (record p { head_block = none; cur_block = none; freed = 0 ∷ p.freed })
unfolding destroy_pool
destroy_first fuel p v = ground (arith, v.head, v.current, v.blocks 0)

-- On a valid pool whose recycle list is empty and whose current block is full, `synchAllocObj` allocates
-- a block more, within two rounds; the `synchDestroyPool` that follows ends within two rounds and has freed
-- block 0 and no other, so that the new block is never freed.
pub destroy_pool_leaks :
    (base : ℕ → ℕ) (fuel : ℕ) (p : Pool) (b : ℕ)
    → IsValid p
    → p.recycle_list ≡ none
    → p.cur_block ≡ some b
    → (p.block b).free_entries ≡ 0
    → (o : ℕ) × (q : Pool) × (alloc_obj base (suc (suc fuel)) p ≡ some (o, q))
      × (q.allocated ≡ p.allocated + 1)
      × (destroy_pool (suc (suc fuel)) q
          ≡ some (record q { head_block = none; cur_block = none; freed = 0 ∷ p.freed }))
destroy_pool_leaks base fuel p b v e at full =
    let (o, q, run, valid, more, same) = alloc_full base fuel b v e at full in
    (o, q, run, more, rw (sym same) (destroy_first fuel q valid))
