-- ===== src/Pool.antt =====
-- libconcurrent/primitives/pool.c and includes/pool.h: a per-thread pool of objects of one size,
-- carved from blocks of 32 MB, with a list of recycled objects.
--
-- A block is named by the number of the allocation that gave it, and a pointer to a block is an
-- `Option`, `none` for NULL. `base` gives the address of each allocation (the allocator is not part
-- of the pool); an object is its address. The first word of a recycled object is its `next` link,
-- kept in `link`. `#ifndef SYNCH_POOL_NODE_RECYCLING_DISABLE` is on, as in config.h.
pub mod Invariant
pub mod Destroy
pub mod Rollback
mod Tests
use sim_universal_constructi.Prelude.{
  ℕ, zero, suc, ◌+◌, ◌-◌, ◌*◌, ◌/◌, ◌≤◌, ◌<◌, ◌≡◌, Bool, Option, none, some, List, [], ◌∷◌, arith,
  ltb, if◌then◌else◌, update,
}

-- SynchPoolBlockMetadata
pub record Block : Type 0 where
  pub object_size : ℕ
  pub entries : ℕ
  pub free_entries : ℕ
  pub cur_entry : ℕ
  pub next : Option ℕ
  pub back : Option ℕ

-- SynchPoolStruct, with the memory that it manages
pub record Pool : Type 0 where
  pub obj_size : ℕ
  pub entries_per_block : ℕ
  pub recycle_list : Option ℕ
  pub head_block : Option ℕ
  pub cur_block : Option ℕ
  pub block : ℕ → Block
  pub allocated : ℕ
  pub link : ℕ → Option ℕ
  pub freed : List ℕ

abbrev pub block_size : ℕ
block_size = 4096 * 8192

-- sizeof(SynchPoolBlockMetadata) and sizeof(void *) on a 64-bit machine
abbrev pub metadata_size : ℕ
metadata_size = 32

abbrev pub pointer_size : ℕ
pointer_size = 8

abbrev pub new_block : ℕ → Block
new_block size = record {
  object_size = size;
  entries = (block_size - metadata_size) / size;
  free_entries = (block_size - metadata_size) / size;
  cur_entry = 0;
  next = none;
  back = none;
}

-- Gives the next allocation to the pool as a fresh block, and its name.
unfoldable pub get_new_block : Pool → ℕ → Pool × ℕ
get_new_block p size = (
  record p { block = update p.block p.allocated (new_block size); allocated = p.allocated + 1 },
  p.allocated,
)

abbrev pub no_blocks : Pool
no_blocks = record {
  obj_size = 0;
  entries_per_block = 0;
  recycle_list = none;
  head_block = none;
  cur_block = none;
  block = λ _. new_block 1;
  allocated = 0;
  link = λ _. none;
  freed = [];
}

-- `none` is SYNCH_POOL_INIT_ERROR.
unfoldable pub init_pool : ℕ → Option Pool
unfolding get_new_block
init_pool size =
    if ltb (block_size - metadata_size) size
    then none
    else let size' = if ltb size pointer_size then pointer_size else size in
      let (p, b) = get_new_block no_blocks size' in
      some (record p {
        entries_per_block = (block_size - metadata_size) / size';
        obj_size = size';
        recycle_list = none;
        head_block = some b;
        cur_block = some b;
      })

-- The address of entry `i` of block `b`.
abbrev pub slot : (ℕ → ℕ) → ℕ → ℕ → ℕ → ℕ
slot base b i size = base b + metadata_size + i * size

-- The bump of `synchAllocObj`, in block `b` that has a free entry.
abbrev pub bump : (ℕ → ℕ) → Pool → ℕ → ℕ × Pool
bump base p b =
    let c = p.block b in
    (
      slot base b c.cur_entry p.obj_size,
      record p {
        block =
            update p.block b
              (record c { free_entries = c.free_entries - 1; cur_entry = c.cur_entry + 1 });
      },
    )

-- The step to the next block, which is allocated if there is none.
unfoldable pub advance : Pool → ℕ → Pool
unfolding get_new_block
advance p b = elim ((p.block b).next) [
  | some n ↦ record p { cur_block = some n }
  | none ↦
      let (q, n) = get_new_block p p.obj_size in
      record q {
        block = update q.block n (record (q.block n) { back = some b });
        cur_block = some n;
      }
]

-- `synchAllocObj`: `none` if the fuel runs out, or at a NULL block.
unfoldable pub alloc_obj : (ℕ → ℕ) → ℕ → Pool → Option (ℕ × Pool)
unfolding advance
alloc_obj base zero p = none
alloc_obj base (suc fuel) p = elim (p.recycle_list) [
  | some o ↦ some (o, record p { recycle_list = p.link o })
  | none ↦ elim (p.cur_block) [
    | none ↦ none
    | some b ↦ elim (ltb 0 (p.block b).free_entries) [
      | Bool.true ↦ some (bump base p b)
      | Bool.false ↦ alloc_obj base fuel (advance p b)
    ]
  ]
]

-- `synchRecycleObj`; `none` is NULL.
unfoldable pub recycle_obj : Pool → Option ℕ → Pool
recycle_obj p none = p
recycle_obj p (some o) = record p { link = update p.link o p.recycle_list; recycle_list = some o }

abbrev pub reset : Block → Block
reset c = record c { cur_entry = 0; free_entries = c.entries }

abbrev pub give_back : Block → ℕ → Block
give_back c n = record c { cur_entry = c.cur_entry - n; free_entries = c.free_entries + n }

-- The loop of `synchRollback`: `none` if the fuel runs out, or at a NULL block.
unfoldable pub rollback : ℕ → Pool → ℕ → Option Pool
rollback zero p n = none
rollback (suc fuel) p zero = some p
rollback (suc fuel) p (suc m) = elim (p.cur_block) [
  | none ↦ none
  | some b ↦ elim (ltb (p.block b).cur_entry (suc m)) [
    | Bool.false ↦ some (record p { block = update p.block b (give_back (p.block b) (suc m)) })
    | Bool.true ↦
        let q = record p { block = update p.block b (reset (p.block b)) } in
        elim ((p.block b).back) [
          | none ↦ some q
          | some a ↦ rollback fuel (record q { cur_block = some a }) (suc m - (p.block b).cur_entry)
        ]
  ]
]

-- The loop of `synchDestroyPool`, on fuel.
unfoldable pub free_blocks : ℕ → Pool → Option Pool
free_blocks zero p = none
free_blocks (suc fuel) p = elim (p.head_block) [
  | none ↦ some p
  | some b ↦ free_blocks fuel (record p { head_block = (p.block b).next; freed = b ∷ p.freed })
]

unfoldable pub destroy_pool : ℕ → Pool → Option Pool
unfolding free_blocks
destroy_pool fuel p = elim (free_blocks fuel p) [
  | none ↦ none
  | some q ↦ some (record q { head_block = none; cur_block = none })
]
