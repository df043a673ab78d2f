-- ===== src/Locks/McsTests.antt =====
-- Runs of the MCS lock: thread 0 is in its critical section, thread 1 has linked itself behind it.
use sim_universal_constructi.Prelude.{ℕ, ◌≡◌, ◌≢◌, refl, List, [], ◌∷◌}
use sim_universal_constructi.Locks.Mcs.{
  System, faults, swap_tail, mark_tail, mark_node, advance, lock_init, init, Reach, here, later,
}
use sim_universal_constructi.Locks.Mcs.Safety.{mcs_mutual_exclusion, mcs_never_faults}

-- The last step comes first.
abbrev run : System → List ℕ → System
run s [] = s
run s (i ∷ is) = advance (run s is) i

run-Reach : (s : System) (is : List ℕ) → Reach s (run s is)
run-Reach s [] = here
run-Reach s (i ∷ is) = later i (run-Reach s is)

abbrev order : List ℕ
order = 1 ∷ 1 ∷ 1 ∷ 1 ∷ 0 ∷ 1 ∷ 0 ∷ 1 ∷ 0 ∷ []

mcs_mutual_exclusion_example : ◌≡◌ {A = ℕ} 0 0
unfolding advance swap_tail mark_tail mark_node lock_init
mcs_mutual_exclusion_example =
    mcs_mutual_exclusion (run init order) 0 0 (run-Reach init order) refl refl

mcs_never_faults_example : (run init order).pc 1 ≢ faults
mcs_never_faults_example = mcs_never_faults (run init order) 1 (run-Reach init order)
