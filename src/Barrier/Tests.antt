-- ===== src/Barrier/Tests.antt =====
-- Runs of the barrier: two threads pass it once.
use sim_universal_constructi.Prelude.{ℕ, suc, ◌<◌, ◌≡◌, ◌⊎◌, refl, List, [], ◌∷◌, arith}
use sim_universal_constructi.Barrier.{
  System, advance, arrives, departs, barrier_set, init, Reach, here, later,
}
use sim_universal_constructi.Barrier.Waits.{waits_for_all}
use sim_universal_constructi.Barrier.Progress.{Moves, never_stuck}

abbrev run : System → List ℕ → System
run s [] = s
run s (i ∷ is) = advance (run s is) i

-- The last steps come first: both arrive, both leave, and thread 1 calls again.
abbrev order : List ℕ
order = 1 ∷ 0 ∷ 1 ∷ 1 ∷ 1 ∷ 1 ∷ 0 ∷ 0 ∷ 1 ∷ 1 ∷ 1 ∷ 1 ∷ 0 ∷ []

abbrev AllBelow : ℕ → List ℕ → Type 0
AllBelow n [] = Unit
AllBelow n (i ∷ is) = (i < n) × AllBelow n is

run-Reach : (n : ℕ) (s : System) (is : List ℕ) → AllBelow n is → Reach n s (run s is)
run-Reach n s [] h = here
run-Reach n s (i ∷ is) h = later i h.0 (run-Reach n s is h.1)

abbrev passed : System
passed = run (init 2) order

passed-Reach : Reach 2 (init 2) passed
passed-Reach = run-Reach 2 (init 2) order (ground arith)

waits_for_all_example : (passed.calls 1 ≡ passed.calls 0) ⊎ (passed.calls 1 ≡ suc (passed.calls 0))
unfolding advance arrives departs barrier_set
waits_for_all_example =
    waits_for_all 2 passed 0 1 (omega arith) (omega arith) passed-Reach (omega arith) (omega arith)
      refl

never_stuck_example : (i : ℕ) × (i < 2) × Moves passed.bar (passed.pc i)
never_stuck_example = never_stuck 2 passed (omega arith) (omega arith) passed-Reach
