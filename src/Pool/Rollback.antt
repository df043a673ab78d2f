-- ===== src/Pool/Rollback.antt =====
-- `synchRollback` undoes allocations.
use sim_universal_constructi.Prelude.{
  ℕ, zero, suc, ◌+◌, ◌-◌, ◌≤◌, ◌<◌, ◌≡◌, refl, none, some, Bool-cases, inl, inr, ltb, arith, update,
  Option-cases, ==_refl, ltb→lt,
}
use sim_universal_constructi.Pool.{Block, Pool, rollback, reset, give_back}
use sim_universal_constructi.Pool.Invariant.{IsValid, Fits, set_block-IsValid}

reset-Fits : (size : ℕ) (c : Block) → Fits size c → Fits size (reset c)
reset-Fits size c f = record { capacity = f.capacity; counted = omega arith; last = f.last }

give_back-Fits :
    (size n : ℕ) (c : Block) → Fits size c → n ≤ c.cur_entry → Fits size (give_back c n)
give_back-Fits size n c f h = record {
  capacity = f.capacity;
  counted = omega (arith, f.counted);
  last = f.last;
}

-- the pool after `reset` of block b and the step back to block a
abbrev retreat : Pool → ℕ → ℕ → Pool
retreat p b a = record p { block = update p.block b (reset (p.block b)); cur_block = some a }

retreat-IsValid :
    {p : Pool} (b a : ℕ)
    → IsValid p
    → b < p.allocated
    → (p.block b).back ≡ some a
    → IsValid (retreat p b a)
retreat-IsValid {p} b a v lt e =
    let w =
      set_block-IsValid b (reset (p.block b)) v (reset-Fits p.obj_size (p.block b) (v.blocks b lt))
        refl in
    record {
      size_pos = w.size_pos;
      size_fits = w.size_fits;
      head = w.head;
      current = (a, refl, omega (arith, v.older b a lt e));
      blocks = w.blocks;
      older = w.older;
    }

-- How many entries are in use in block b and the blocks behind it.
in_chain : ℕ → Pool → ℕ → ℕ
in_chain zero p b = 0
in_chain (suc fuel) p b =
    (p.block b).cur_entry + elim ((p.block b).back) [ none ↦ 0 | some a ↦ in_chain fuel p a ]

pub in_use : Pool → ℕ
unfolding in_chain
in_use p = elim (p.cur_block) [ none ↦ 0 | some b ↦ in_chain (suc b) p b ]

-- Two pools that agree below block b count the same there, on any fuel that reaches the end.
in_chain_agree :
    (f g : ℕ) (p q : Pool) (b : ℕ)
    → b < p.allocated
    → ((c a : ℕ) → c < p.allocated → (p.block c).back ≡ some a → a < c)
    → ((c : ℕ) → c ≤ b → p.block c ≡ q.block c)
    → b < f
    → b < g
    → in_chain f p b ≡ in_chain g q b
unfolding in_chain
in_chain_agree zero g p q b lt older same hf hg = absurd (omega arith)
in_chain_agree (suc f) zero p q b lt older same hf hg = absurd (omega arith)
in_chain_agree (suc f) (suc g) p q b lt older same hf hg = elim (Option-cases (p.block b).back) [
  | inl e ↦ ground (arith, same b)
  | inr (a, e) ↦
      let down : a < b = older b a lt e in
      let rest : in_chain f p a ≡ in_chain g q a =
        in_chain_agree f g p q a (omega arith) older (λ c h. same c (omega arith)) (omega arith)
          (omega arith) in
      ground (arith, same b, rest)
]

in_use-current : (p : Pool) (b : ℕ) → p.cur_block ≡ some b → in_use p ≡ in_chain (suc b) p b
unfolding in_use
in_use-current p b at = rw (at, in_use)

-- The count at block b, when only that block's entries have changed.
in_chain-set_block :
    (p : Pool) (b : ℕ) (c : Block)
    → IsValid p
    → b < p.allocated
    → c.back ≡ (p.block b).back
    → in_chain (suc b) (record p { block = update p.block b c }) b + (p.block b).cur_entry
      ≡ in_chain (suc b) p b + c.cur_entry
unfolding in_chain
in_chain-set_block p b c v lt same = elim (Option-cases (p.block b).back) [
  | inl e ↦ ground (arith, ==_refl b)
  | inr (a, e) ↦
      let down : a < b = v.older b a lt e in
      let rest : in_chain b p a ≡ in_chain b (record p { block = update p.block b c }) a =
        in_chain_agree b b p (record p { block = update p.block b c }) a (omega arith) v.older
          (λ d h. ground arith) down down in
      ground (arith, ==_refl b, rest)
]

abbrev pub Returns : ℕ → Pool → ℕ → Type 0
Returns fuel p n = (q : Pool) × (rollback fuel p n ≡ some q) × IsValid q × (in_use q ≡ in_use p - n)

module _ {p : Pool} (n b : ℕ) (v : IsValid p) (at : p.cur_block ≡ some b)
    (lt : b < p.allocated) where
  part_Returns : (fuel : ℕ) → suc n ≤ (p.block b).cur_entry → Returns (suc fuel) p (suc n)
  unfolding rollback
  part_Returns fuel h =
      let c = give_back (p.block b) (suc n) in
      let q = record p { block = update p.block b c } in
      (
        q,
        ground arith,
        set_block-IsValid b c v (give_back-Fits p.obj_size (suc n) (p.block b) (v.blocks b lt) h)
            refl,
        omega (
          arith,
          in_use-current p b at,
          in_use-current q b at,
          in_chain-set_block p b c v lt refl,
        ),
      )

  first_Returns :
      (fuel : ℕ)
      → (p.block b).cur_entry < suc n
      → (p.block b).back ≡ none
      → Returns (suc fuel) p (suc n)
  unfolding rollback in_chain
  first_Returns fuel h e =
      let c = reset (p.block b) in
      let q = record p { block = update p.block b c } in
      let only : in_chain (suc b) p b ≡ (p.block b).cur_entry = ground arith in
      (
        q,
        ground arith,
        set_block-IsValid b c v (reset-Fits p.obj_size (p.block b) (v.blocks b lt)) refl,
        omega (
          arith,
          only,
          in_use-current p b at,
          in_use-current q b at,
          in_chain-set_block p b c v lt refl,
        ),
      )

  -- What is in use behind block b, counted from the block before it.
  in_use-retreat :
      (a : ℕ)
      → (p.block b).back ≡ some a
      → in_use p ≡ (p.block b).cur_entry + in_use (retreat p b a)
  unfolding in_chain
  in_use-retreat a e =
      let down : a < b = v.older b a lt e in
      let rest : in_chain b p a ≡ in_chain (suc a) (retreat p b a) a =
        in_chain_agree b (suc a) p (retreat p b a) a (omega arith) v.older (λ d h. ground arith)
          down (omega arith) in
      let whole : in_chain (suc b) p b ≡ (p.block b).cur_entry + in_chain b p a = ground arith in
      omega (arith, rest, whole, in_use-current p b at, in_use-current (retreat p b a) a refl)

  whole_Returns :
      (fuel a : ℕ)
      → (p.block b).cur_entry < suc n
      → (p.block b).back ≡ some a
      → Returns fuel (retreat p b a) (suc n - (p.block b).cur_entry)
      → Returns (suc fuel) p (suc n)
  unfolding rollback
  whole_Returns fuel a h e (q, run, w, count) =
      (q, ground (arith, run), w, omega (arith, count, in_use-retreat a e))

-- On a valid pool whose current block is the b-th allocated, `synchRollback` of n objects returns
-- within b + 2 rounds, keeps the pool valid, and takes n off the entries in use (in the current block
-- and the blocks behind it), or all of them if there are fewer than n.
pub rollback_lem :
    (fuel : ℕ) (p : Pool) (n b : ℕ)
    → IsValid p
    → p.cur_block ≡ some b
    → b < fuel
    → Returns (suc fuel) p n
unfolding rollback
rollback_lem fuel p zero b v at h = (p, refl, v, omega arith)
rollback_lem zero p (suc n) b v at h = absurd (omega arith)
rollback_lem (suc fuel) p (suc n) b v at h =
    let lt : b < p.allocated = ground (arith, v.current) in
    elim (Bool-cases (ltb (p.block b).cur_entry (suc n))) [
      | inr part ↦ part_Returns n b v at lt (suc fuel) (ground arith)
      | inl whole ↦ elim (Option-cases (p.block b).back) [
        | inl first ↦ first_Returns n b v at lt (suc fuel) (ltb→lt _ _ whole) first
        | inr (a, e) ↦ whole_Returns n b v at lt (suc fuel) a (ltb→lt _ _ whole) e (
            rollback_lem fuel (retreat p b a) (suc n - (p.block b).cur_entry) a
              (retreat-IsValid b a v lt e) refl (omega (arith, v.older b a lt e)))
      ]
    ]
