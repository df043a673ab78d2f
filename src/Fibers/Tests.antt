-- ===== src/Fibers/Tests.antt =====
-- Runs of the fibers: four slots, three fibers, the second of which has the turn.
use sim_universal_constructi.Prelude.{ℕ, ◌-◌, ◌≡◌, refl, true, false, none, some, pos, arith, ltb}
use sim_universal_constructi.Fibers.{Fibers, fiber_yield, fiber_exit, spawn_fiber}
use sim_universal_constructi.Fibers.Turns.{Next, fiber_yield-Next}
use sim_universal_constructi.Fibers.Spawn.{IsPacked, spawn_after_exit}

abbrev three : Fibers
three = record { max_fibers = 4; n_fibers = 3; current = 1; active = λ i. ltb i 3; job = λ i. none }

three-IsPacked : IsPacked three
three-IsPacked = record {
  room = omega arith;
  low = λ i l. ground arith;
  high = λ i l. ground arith;
}

fiber_yield-Next_example :
    (d : ℕ) × (fiber_yield 4 three ≡ some (record three { current = d })) × Next 4 three.active 1 d
fiber_yield-Next_example = fiber_yield-Next 4 three 0 refl (omega arith) refl

spawn_after_exit_example :
    (g : Fibers) × (fiber_exit 4 three ≡ some g)
    × (g.active (3 - 1) ≡ true)
    × (g.job ≡ three.job)
    × ((spawn_fiber g 7 (pos 1)).0 ≡ pos 1)
    × ((spawn_fiber g 7 (pos 1)).1.job (3 - 1) ≡ some (record { func = 7; arg = pos 1 }))
    × ((spawn_fiber g 7 (pos 1)).1.active 1 ≡ false)
spawn_after_exit_example = spawn_after_exit 3 three 7 (pos 1) three-IsPacked (omega arith)
