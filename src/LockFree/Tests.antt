-- ===== src/LockFree/Tests.antt =====
-- Runs of the lock-free objects: two pushes that race for the top, and a pop.
use sim_universal_constructi.Prelude.{ℕ, ◌≡◌, refl, none, some, List, [], ◌∷◌, ◌++◌, map, pos}
use sim_universal_constructi.Queues.Nodes.{Heap}
use sim_universal_constructi.Queues.Lifo.{From}
use sim_universal_constructi.LockFree.Stack.{
  System, Event, calls_push, pushed, thread_of, move, phase, resting, advance, start_push, Reach,
  here, later, starts_push, advances, init, replay, cas, load_top, push_cas, stack_init,
}
use sim_universal_constructi.LockFree.Calls.{track}
use sim_universal_constructi.LockFree.Stack.Linearizable.{lf_stack_linearizable}

abbrev zeroes : Heap
zeroes = record { val = λ a. pos 0; next = λ a. none }

-- Threads 0 and 1 both read the empty top; thread 0 is first, and thread 1 tries again.
abbrev racing : System
racing = start_push (start_push (init zeroes) 0 5 (pos 7)) 1 6 (pos 8)

abbrev called : List Event
called = calls_push 0 (pos 7) ∷ calls_push 1 (pos 8) ∷ []

-- The next accesses of the threads `is`, in this order
abbrev run : List Event → System → List ℕ → List Event × System
run past s [] = (past, s)
run past s (i ∷ is) = run (past ++ (advance s i).0) (advance s i).1 is

run-Reach :
    (start s : System) (past : List Event) (is : List ℕ)
    → Reach start past s
    → Reach start (run past s is).0 (run past s is).1
run-Reach start s past [] r = r
run-Reach start s past (i ∷ is) r =
    run-Reach start (advance s i).1 (past ++ (advance s i).0) is (later r (advances i refl))

racing-Reach : Reach (init zeroes) called racing
unfolding start_push
racing-Reach =
    later (later here (starts_push 0 5 (pos 7) refl refl refl refl))
      (starts_push 1 6 (pos 8) refl refl refl refl)

abbrev last : System
last = (run called racing (0 ∷ 1 ∷ 0 ∷ 1 ∷ 1 ∷ 1 ∷ [])).1

abbrev all_events : List Event
all_events = calls_push 0 (pos 7) ∷ calls_push 1 (pos 8) ∷ pushed 0 (pos 7) ∷ pushed 1 (pos 8) ∷ []

both_pushed : (run called racing (0 ∷ 1 ∷ 0 ∷ 1 ∷ 1 ∷ 1 ∷ [])).0 ≡ all_events
unfolding advance start_push load_top push_cas cas stack_init
both_pushed = refl

lf_stack_linearizable_example :
    (xs : List ℕ) × From last.stack.heap.next last.stack.top xs
    × (replay all_events [] ≡ some (map last.stack.heap.val xs))
    × ((j : ℕ)
        → track thread_of move j all_events resting ≡ some (phase last.stack.heap.val (last.pc j)))
unfolding advance start_push load_top push_cas cas stack_init
lf_stack_linearizable_example =
    lf_stack_linearizable zeroes all_events last
      (run-Reach (init zeroes) racing called (0 ∷ 1 ∷ 0 ∷ 1 ∷ 1 ∷ 1 ∷ []) racing-Reach)
