-- ===== src/Locks/Tests.antt =====
-- Runs of the locks: thread 0 is in its critical section, thread 1 has not begun.
use sim_universal_constructi.Prelude.{ℕ, ◌+◌, ◌≡◌, ◌⊎◌, refl, false, arith}
use sim_universal_constructi.Locks.Clh.{
  marked, waiting, critical, System, goes, lock_init, mark, swap, init, Reach, here, later, marks,
  swaps, enters,
}
use sim_universal_constructi.Locks.Clh.Queue.{Apart}
use sim_universal_constructi.Locks.Clh.Safety.{mutual_exclusion, no_deadlock}

abbrev start : System
start = init 1 (λ i. i + 2) (λ a. false)

start-Apart : Apart 1 (λ i. i + 2)
start-Apart = record { tail = λ i. ground arith; own = λ i j ne. ground arith }

abbrev one_marked : System
one_marked = goes start (mark start.lock 0) 0 marked

abbrev one_waiting : System
one_waiting = goes one_marked (swap one_marked.lock 0) 0 waiting

abbrev one_inside : System
one_inside = goes one_waiting one_waiting.lock 0 critical

to_waiting : Reach start one_waiting
to_waiting = later (later here (marks 0 refl refl)) (swaps 0 refl refl)

to_inside : Reach start one_inside
unfolding lock_init mark swap
to_inside = later to_waiting (enters 0 refl refl refl)

mutual_exclusion_example : ◌≡◌ {A = ℕ} 0 0
mutual_exclusion_example =
    mutual_exclusion 1 (λ i. i + 2) (λ a. false) one_inside start-Apart to_inside 0 0 refl refl

no_deadlock_example :
    (j : ℕ) × ((one_waiting.pc j ≡ critical)
      ⊎ (one_waiting.pc j ≡ waiting)
        × (one_waiting.lock.locked (one_waiting.lock.my_pred j) ≡ false))
no_deadlock_example =
    no_deadlock 1 (λ i. i + 2) (λ a. false) one_waiting start-Apart to_waiting 0 refl
