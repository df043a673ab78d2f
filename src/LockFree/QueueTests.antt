-- ===== src/LockFree/QueueTests.antt =====
-- Runs of the MS-Queue: a dequeue that helps the tail of an enqueue on.
use sim_universal_constructi.Prelude.{
  ℕ, ◌≡◌, ◌≢◌, refl, true, none, some, List, [], ◌∷◌, ◌++◌, map, pos,
}
use sim_universal_constructi.Queues.Nodes.{Heap, Linked, has}
use sim_universal_constructi.LockFree.MsQueue.{
  System, Event, calls_enqueue, calls_dequeue, enqueued, dequeued, answers, ends, removes, goes,
  faults, advance, start_enqueue, check_tail, link_cas, read_second, check_head, head_cas, cas_tail,
  Reach, here, later, starts_enqueue, starts_dequeue, advances, init, queue_init, replay,
}
use sim_universal_constructi.LockFree.Calls.{track}
use sim_universal_constructi.LockFree.MsQueue.Phases.{resting, thread_of, move, phase}
use sim_universal_constructi.LockFree.MsQueue.Linearizable.{
  ms_queue_linearizable, ms_queue_never_faults,
}

abbrev zeroes : Heap
zeroes = record { val = λ a. pos 0; next = λ a. none }

-- Thread 0 enqueues 7, thread 1 dequeues.
abbrev both : System
both = goes (start_enqueue (init zeroes 0) 0 5 (pos 7)) 1 removes

abbrev called : List Event
called = calls_enqueue 0 (pos 7) ∷ calls_dequeue 1 ∷ []

-- The next accesses of the threads `is`, in this order
abbrev run : List Event → System → List ℕ → List Event × System
run past s [] = (past, s)
run past s (i ∷ is) = run (past ++ (advance s i).0) (advance s i).1 is

run-Reach :
    (start s : System) (past : List Event) (is : List ℕ)
    → Reach start past s
    → Reach start (run past s is).0 (run past s is).1
run-Reach start s past [] r = r
run-Reach start s past (i ∷ is) r =
    run-Reach start (advance s i).1 (past ++ (advance s i).0) is (later r (advances i refl))

both-Reach : Reach (init zeroes 0) called both
unfolding start_enqueue
both-Reach =
    later (later here (starts_enqueue 0 5 (pos 7) refl refl refl refl))
      (starts_dequeue 1 refl refl refl)

-- Thread 0 links its node; thread 1 finds the tail behind, helps it on and takes the value.
abbrev order : List ℕ
order = 0 ∷ 0 ∷ 0 ∷ 0 ∷ 1 ∷ 1 ∷ 1 ∷ 1 ∷ 1 ∷ 1 ∷ 1 ∷ 1 ∷ 1 ∷ 1 ∷ 1 ∷ 1 ∷ 0 ∷ []

abbrev last : System
last = (run called both order).1

abbrev all_events : List Event
all_events =
    calls_enqueue 0 (pos 7)
    ∷ calls_dequeue 1
    ∷ enqueued 0 (pos 7)
    ∷ dequeued 1 (pos 7)
    ∷ answers 1 (pos 7)
    ∷ ends 0
    ∷ []

in_and_out : (run called both order).0 ≡ all_events
unfolding advance start_enqueue check_tail link_cas read_second check_head head_cas cas_tail
    queue_init
in_and_out = refl

last-Reach : Reach (init zeroes 0) all_events last
unfolding advance start_enqueue check_tail link_cas read_second check_head head_cas cas_tail
    queue_init
last-Reach = run-Reach (init zeroes 0) both called order both-Reach

ms_queue_linearizable_example :
    (xs : List ℕ) × Linked last.queue.heap.next last.queue.head xs
    × (replay all_events [] ≡ some (map last.queue.heap.val xs))
    × (has last.queue.tail (last.queue.head ∷ xs) ≡ true)
    × ((j : ℕ)
        → track thread_of move j all_events resting ≡ some (phase last.queue.heap.val (last.pc j)))
ms_queue_linearizable_example = ms_queue_linearizable zeroes 0 all_events last last-Reach

ms_queue_never_faults_example : last.pc 1 ≢ faults
ms_queue_never_faults_example = ms_queue_never_faults zeroes 0 all_events last last-Reach 1
