-- ===== src/Pool/Invariant.antt =====
-- What every operation of the pool keeps, and what an allocation returns.
use sim_universal_constructi.Prelude.{
  ℕ, suc, ◌+◌, ◌-◌, ◌*◌, ◌/◌, ◌≤◌, ◌<◌, ◌≡◌, refl, ◌⊎◌, inl, inr, none, some, arith, ltb, ltb→lt,
  Bool-cases, Option-cases, update, ◌∙◌, ==_refl,
}
use native.Mathlib.Nat.{div-mul-le_self}
use sim_universal_constructi.Pool.{
  Block, Pool, block_size, metadata_size, new_block, init_pool, slot, bump, advance, alloc_obj,
  recycle_obj,
}

-- A block holds as many objects as fit, each is either free or handed out, and no block has a
-- successor.
pub record Fits (size : ℕ) (c : Block) : Type 0 where
  pub capacity : c.entries ≡ (block_size - metadata_size) / size
  pub counted : c.free_entries + c.cur_entry ≡ c.entries
  pub last : c.next ≡ none

pub record IsValid (p : Pool) : Type 0 where
  pub size_pos : 8 ≤ p.obj_size
  pub size_fits : p.obj_size ≤ block_size - metadata_size
  pub head : p.head_block ≡ some 0
  pub current : (b : ℕ) × (p.cur_block ≡ some b) × (b < p.allocated)
  pub blocks : (b : ℕ) → b < p.allocated → Fits p.obj_size (p.block b)
  pub older : (b a : ℕ) → b < p.allocated → (p.block b).back ≡ some a → a < b

pub new_block-Fits : (size : ℕ) → Fits size (new_block size)
new_block-Fits size = record { capacity = refl; counted = omega arith; last = refl }

pub init_pool-IsValid : (size : ℕ) {p : Pool} → init_pool size ≡ some p → IsValid p
unfolding init_pool
init_pool-IsValid size h = record {
  size_pos = ground arith;
  size_fits = ground arith;
  head = ground arith;
  current = (0, ground arith, ground arith);
  blocks = λ b lt. ground (arith, new_block-Fits size, new_block-Fits 8);
  older = λ b a lt e. ground arith;
}

capacity_pos :
    (size : ℕ)
    → 8 ≤ size
    → size ≤ block_size - metadata_size
    → 0 < (block_size - metadata_size) / size
capacity_pos size lo hi = grind arith

-- A valid pool with block b replaced by one that fits, with the same predecessor.
pub set_block-IsValid :
    {p : Pool} (b : ℕ) (c : Block)
    → IsValid p
    → Fits p.obj_size c
    → c.back ≡ (p.block b).back
    → IsValid (record p { block = update p.block b c })
set_block-IsValid b c v fits same = record {
  size_pos = v.size_pos;
  size_fits = v.size_fits;
  head = v.head;
  current = v.current;
  blocks = λ d lt. ground (arith, v.blocks d lt);
  older = λ d a lt e. ground (arith, v.older d a lt);
}

bump-Fits :
    (size : ℕ) (c : Block)
    → Fits size c
    → 0 < c.free_entries
    → Fits size (record c { free_entries = c.free_entries - 1; cur_entry = c.cur_entry + 1 })
bump-Fits size c f h = record {
  capacity = f.capacity;
  counted = omega (arith, f.counted);
  last = f.last;
}

-- The pool after the allocation of a block behind block b.
abbrev grow : Pool → ℕ → Pool
grow p b = record p {
  block =
      update (update p.block p.allocated (new_block p.obj_size)) p.allocated
        (record (new_block p.obj_size) { back = some b });
  allocated = p.allocated + 1;
  cur_block = some p.allocated;
}

advance-grow : (p : Pool) (b : ℕ) → (p.block b).next ≡ none → advance p b ≡ grow p b
unfolding advance
advance-grow p b e = ground (arith, e)

grow-IsValid : {p : Pool} (b : ℕ) → IsValid p → b < p.allocated → IsValid (grow p b)
grow-IsValid {p} b v lt = record {
  size_pos = v.size_pos;
  size_fits = v.size_fits;
  head = v.head;
  current = (p.allocated, refl, omega arith);
  blocks = λ d l. ground (arith, v.blocks d, new_block-Fits p.obj_size);
  older = λ d a l e. ground (arith, v.older d a);
}

-- Entry i of block b is one of those that the bump has handed out and no rollback has taken back.
abbrev pub IsUsed : Pool → ℕ → ℕ → Type 0
IsUsed p b i = (b < p.allocated) × (i < (p.block b).cur_entry)

-- The object at `o` is an entry that fits its block and was not handed out.
pub record IsFresh (base : ℕ → ℕ) (p : Pool) (o : ℕ) (q : Pool) : Type 0 where
  pub b : ℕ
  pub i : ℕ
  pub place : o ≡ slot base b i p.obj_size
  pub inside : i * p.obj_size + p.obj_size ≤ block_size - metadata_size
  pub unused : ¬ IsUsed p b i
  pub used : IsUsed q b i
  pub kept : (c j : ℕ) → IsUsed p c j → IsUsed q c j

entry_inside : (size n i : ℕ) → 8 ≤ size → i < n / size → i * size + size ≤ n
entry_inside size n i lo h = grind (arith, div-mul-le_self n size)

module _ (base : ℕ → ℕ) where
  bump-IsFresh :
      {p : Pool} (b : ℕ)
      → IsValid p
      → b < p.allocated
      → 0 < (p.block b).free_entries
      → IsFresh base p (bump base p b).0 (bump base p b).1
  bump-IsFresh {p} b v lt h = record {
    b = b;
    i = (p.block b).cur_entry;
    place = refl;
    inside =
        entry_inside p.obj_size (block_size - metadata_size) (p.block b).cur_entry v.size_pos
          (omega (arith, (v.blocks b lt).capacity, (v.blocks b lt).counted));
    unused = λ u. omega arith;
    used = ground arith;
    kept = λ c j u. ground arith;
  }

  bump-IsValid :
      {p : Pool} (b : ℕ)
      → IsValid p
      → b < p.allocated
      → 0 < (p.block b).free_entries
      → IsValid (bump base p b).1
  bump-IsValid {p} b v lt h =
      set_block-IsValid b _ v (bump-Fits p.obj_size (p.block b) (v.blocks b lt) h) refl

  abbrev pub Allocates : ℕ → Pool → Type 0
  Allocates fuel p =
      (o : ℕ) × (q : Pool) × (alloc_obj base fuel p ≡ some (o, q))
      × IsValid q
      × ((p.recycle_list ≡ some o) × (q ≡ record p { recycle_list = p.link o })
          ⊎ (p.recycle_list ≡ none) × (q.recycle_list ≡ none) × IsFresh base p o q)

  alloc_bump :
      (fuel : ℕ) {p : Pool} (b : ℕ)
      → IsValid p
      → p.recycle_list ≡ none
      → p.cur_block ≡ some b
      → 0 < (p.block b).free_entries
      → Allocates (suc fuel) p
  unfolding alloc_obj
  alloc_bump fuel {p} b v e at h =
      let lt : b < p.allocated = ground (arith, v.current) in
      (_, _, ground arith, bump-IsValid b v lt h, inr (e, e, bump-IsFresh b v lt h))

  alloc_recycled :
      (fuel : ℕ) {p : Pool} (o : ℕ) → IsValid p → p.recycle_list ≡ some o → Allocates (suc fuel) p
  unfolding alloc_obj
  alloc_recycled fuel {p} o v e = (
    o,
    record p { recycle_list = p.link o },
    ground arith,
    record {
      size_pos = v.size_pos;
      size_fits = v.size_fits;
      head = v.head;
      current = v.current;
      blocks = v.blocks;
      older = v.older;
    },
    inl (e, refl),
  )

  grow-IsUsed : (p : Pool) (b c j : ℕ) → IsUsed p c j → IsUsed (grow p b) c j
  grow-IsUsed p b c j u = ground arith

  grow_free : {p : Pool} (b : ℕ) → IsValid p → 0 < ((grow p b).block p.allocated).free_entries
  grow_free {p} b v = ground (arith, capacity_pos p.obj_size v.size_pos v.size_fits)

  -- A full block: the pool grows, and the second round finds a free entry.
  alloc_grow :
      (fuel : ℕ) {p : Pool} (b : ℕ)
      → IsValid p
      → p.recycle_list ≡ none
      → p.cur_block ≡ some b
      → (p.block b).free_entries ≡ 0
      → Allocates (suc (suc fuel)) p
  unfolding alloc_obj
  alloc_grow fuel {p} b v e at full =
      let lt : b < p.allocated = ground (arith, v.current) in
      let g = grow_free b v in
      let w = grow-IsValid b v lt in
      let (o, q, run, valid, from) = alloc_bump fuel p.allocated w e refl g in
      let step : alloc_obj base (suc (suc fuel)) p ≡ alloc_obj base (suc fuel) (grow p b) =
        ground (arith, advance-grow p b ((v.blocks b lt).last)) in
      (
        o,
        q,
        step ∙ run,
        valid,
        elim from [
          | inl bad ↦ absurd (ground (arith, bad.0, e))
          | inr (was, still, f) ↦ inr (
            e,
            still,
            record {
              b = f.b;
              i = f.i;
              place = f.place;
              inside = f.inside;
              unused = λ u. f.unused (grow-IsUsed p b f.b f.i u);
              used = f.used;
              kept = λ c j u. f.kept c j (grow-IsUsed p b c j u);
            },
          )
        ],
      )

  -- A full block, as above: the pool has one block more, and is valid.
  pub alloc_full :
      (fuel : ℕ) {p : Pool} (b : ℕ)
      → IsValid p
      → p.recycle_list ≡ none
      → p.cur_block ≡ some b
      → (p.block b).free_entries ≡ 0
      → (o : ℕ) × (q : Pool) × (alloc_obj base (suc (suc fuel)) p ≡ some (o, q))
        × IsValid q
        × (q.allocated ≡ p.allocated + 1)
        × (q.freed ≡ p.freed)
  unfolding alloc_obj
  alloc_full fuel {p} b v e at full =
      let lt : b < p.allocated = ground (arith, v.current) in
      let g = grow_free b v in
      let w = grow-IsValid b v lt in
      let step : alloc_obj base (suc (suc fuel)) p ≡ alloc_obj base (suc fuel) (grow p b) =
        ground (arith, advance-grow p b ((v.blocks b lt).last)) in
      let out = bump base (grow p b) p.allocated in
      (
        out.0,
        out.1,
        step ∙ ground (arith, e, g),
        bump-IsValid p.allocated w (omega arith) g,
        refl,
        refl,
      )

  -- On a valid pool `synchAllocObj` returns within two rounds, keeps the pool valid, and returns
  -- either the head of the recycle list, which is taken off it and nothing else changes, or, when the
  -- recycle list is empty, and it stays so, a whole entry of a block that the bump had not handed out, or
  -- that a rollback had taken back; it counts as handed out from then on, as does every entry that did.
  pub alloc_obj-Allocates : (fuel : ℕ) (p : Pool) → IsValid p → Allocates (suc (suc fuel)) p
  alloc_obj-Allocates fuel p v =
      let (b, at, lt) = v.current in
      elim (Option-cases p.recycle_list) [
        | inr (o, e) ↦ alloc_recycled (suc fuel) o v e
        | inl e ↦ elim (Bool-cases (ltb 0 (p.block b).free_entries)) [
          | inl free ↦ alloc_bump (suc fuel) b v e at (ltb→lt _ _ free)
          | inr full ↦ alloc_grow fuel b v e at (ground arith)
        ]
      ]

  -- What `synchRecycleObj` is given is what the next `synchAllocObj` returns, and the pool is then as
  -- before up to the first word of that object.
  pub alloc_obj-recycle_obj :
      (fuel o : ℕ) (p : Pool)
      → alloc_obj base (suc fuel) (recycle_obj p (some o))
        ≡ some (o, record p { link = update p.link o p.recycle_list })
  unfolding alloc_obj recycle_obj
  alloc_obj-recycle_obj fuel o p = ground (arith, ==_refl o)
