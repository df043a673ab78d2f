-- ===== src/LockFree/ObjectTests.antt =====
-- Runs of the lock-free universal object, with an object that swaps its value for the argument.
use sim_universal_constructi.Prelude.{ℕ, ◌<◌, ◌≡◌, refl, some, List, [], ◌∷◌, ◌++◌, ℤ, pos, arith}
use sim_universal_constructi.LockFree.Object.{
  System, Event, calls, applies, thread_of, move, phase, resting, loops, goes, object_init,
  read_state, cas_state, advance, Reach, here, later, starts, advances, replay,
}
use sim_universal_constructi.LockFree.Calls.{track}
use sim_universal_constructi.LockFree.Object.Linearizable.{
  object_linearizable, failure_means_progress,
}

abbrev swapped : ℤ → ℤ → ℕ → ℤ × ℤ
swapped v arg pid = (v, arg)

-- Thread 0 swaps 7 in, thread 1 swaps 8 in.
abbrev both : System
both = goes (goes (object_init (pos 1)) 0 (loops (pos 7))) 1 (loops (pos 8))

abbrev called : List Event
called = calls 0 (pos 7) ∷ calls 1 (pos 8) ∷ []

-- The next accesses of the threads `is`, in this order
abbrev run : List Event → System → List ℕ → List Event × System
run past s [] = (past, s)
run past s (i ∷ is) = run (past ++ (advance swapped s i).0) (advance swapped s i).1 is

run-Reach :
    (start s : System) (past : List Event) (is : List ℕ)
    → Reach swapped start past s
    → Reach swapped start (run past s is).0 (run past s is).1
run-Reach start s past [] r = r
run-Reach start s past (i ∷ is) r =
    run-Reach start (advance swapped s i).1 (past ++ (advance swapped s i).0) is
      (later r (advances i refl))

both-Reach : Reach swapped (object_init (pos 1)) called both
unfolding object_init
both-Reach = later (later here (starts 0 (pos 7) refl refl refl)) (starts 1 (pos 8) refl refl refl)

-- Both read the state; thread 0 is first, and thread 1 has not tried yet.
abbrev late : System
late = (run called both (0 ∷ 1 ∷ 0 ∷ [])).1

abbrev all_events : List Event
all_events = calls 0 (pos 7) ∷ calls 1 (pos 8) ∷ applies 0 (pos 7) (pos 1) ∷ []

late-Reach : Reach swapped (object_init (pos 1)) all_events late
unfolding advance read_state cas_state object_init
late-Reach = run-Reach (object_init (pos 1)) both called (0 ∷ 1 ∷ 0 ∷ []) both-Reach

object_linearizable_example :
    (replay swapped all_events (pos 1) ≡ some late.state)
    × ((j : ℕ) → track thread_of move j all_events resting ≡ some (phase (late.pc j)))
object_linearizable_example = object_linearizable swapped (pos 1) all_events late late-Reach

failure_means_progress_example : 0 < late.applied
unfolding advance read_state cas_state object_init
failure_means_progress_example =
    failure_means_progress swapped (pos 1) all_events late late-Reach 1 (pos 8) (pos 1) (pos 8)
      (pos 1) 0 refl (λ e. ground (arith, e))
