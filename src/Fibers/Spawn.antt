-- ===== src/Fibers/Spawn.antt =====
-- A spawn takes the slot whose number is the number of fibers, which after an exit may be in use.
use native.Mathlib.Nat.{mod-eq_of_lt}
use sim_universal_constructi.Prelude.{
  ℕ, suc, ◌+◌, ◌-◌, ◌%◌, ◌<◌, ◌==◌, ◌≡◌, refl, true, false, some, update, arith, Bool-cases, inl,
  inr, ℤ, pos, ==_refl,
}
use sim_universal_constructi.Fibers.{
  Fibers, init_fibers, next_active, switch, fiber_exit, spawn_fiber,
}

-- The slots 0 to n_fibers - 1 are the active ones.
pub record IsPacked (f : Fibers) : Type 0 where
  pub room : f.n_fibers < suc f.max_fibers
  pub low : (i : ℕ) → i < f.n_fibers → f.active i ≡ true
  pub high : (i : ℕ) → f.n_fibers < suc i → f.active i ≡ false

pub init_fibers-IsPacked : (max : ℕ) → 0 < max → IsPacked (init_fibers max)
unfolding init_fibers
init_fibers-IsPacked max h = record {
  room = omega arith;
  low = λ i l. ground arith;
  high = λ i l. ground arith;
}

-- When the active fibers have the lowest slots, they have them again after a spawn, and the job of a
-- fiber that was active stays.
pub spawn_fiber-IsPacked :
    (f : Fibers) (func : ℕ) (arg : ℤ) (i : ℕ)
    → IsPacked f
    → f.active i ≡ true
    → IsPacked (spawn_fiber f func arg).1 × ((spawn_fiber f func arg).1.job i ≡ f.job i)
unfolding spawn_fiber
spawn_fiber-IsPacked f func arg i p on = elim (Bool-cases (f.n_fibers == f.max_fibers)) [
  | inl e ↦ rw (e, spawn_fiber) (p, refl)
  | inr e ↦
      let room = p.room in
      rw (e, spawn_fiber)
        (
          record {
            room = ground arith;
            low = λ i l. ground (arith, p.low i);
            high = λ i l. ground (arith, p.high i (omega arith));
          },
          ground (arith, on, p.high i),
        )
]

-- When the active fibers have the lowest slots and one of them exits that has not the last of these
-- slots, the next spawn returns 1 and starts its function in the slot of the last fiber, which is still
-- active: that fiber's job is lost, and the slot of the fiber that exited stays free.
pub spawn_after_exit :
    (fuel : ℕ) (f : Fibers) (func : ℕ) (arg : ℤ)
    → IsPacked f
    → f.current + 1 < f.n_fibers
    → (g : Fibers) × (fiber_exit (suc fuel) f ≡ some g)
      × (g.active (f.n_fibers - 1) ≡ true)
      × (g.job ≡ f.job)
      × ((spawn_fiber g func arg).0 ≡ pos 1)
      × ((spawn_fiber g func arg).1.job (f.n_fibers - 1) ≡ some (record { func = func; arg = arg }))
      × ((spawn_fiber g func arg).1.active f.current ≡ false)
unfolding spawn_fiber fiber_exit switch next_active
spawn_after_exit fuel f func arg p lt =
    let many : (f.n_fibers == 1) ≡ false = ground arith in
    let room = p.room in
    let full : (f.n_fibers - 1 == f.max_fibers) ≡ false = ground arith in
    let small : ((f.current + 1) % f.max_fibers) ≡ f.current + 1 = mod-eq_of_lt (omega arith) in
    let on : f.active (f.current + 1) ≡ true = p.low (f.current + 1) lt in
    let last : f.active (f.n_fibers - 1) ≡ true = p.low (f.n_fibers - 1) (omega arith) in
    (
      record f {
        current = f.current + 1;
        active = update f.active f.current false;
        n_fibers = f.n_fibers - 1;
      },
      ground (arith, many, small, on),
      ground (arith, last),
      refl,
      ground (arith, full),
      ground (arith, full, ==_refl (f.n_fibers - 1)),
      ground (arith, full, ==_refl f.current),
    )
