-- ===== src/Queues/RunTests.antt =====
-- A run of the CC-Queue under CC-Synch, in which a node comes back.
use sim_universal_constructi.Prelude.{
  ℕ, ◌+◌, ◌==◌, ◌≡◌, refl, none, some, List, [], ◌∷◌, map, arith, pos, false,
}
use sim_universal_constructi.Queues.Nodes.{Heap, empty_queue}
use sim_universal_constructi.Queues.Fifo.{IsQueue}
use sim_universal_constructi.Queues.Combiner.{Combiner}
use sim_universal_constructi.Queues.Struct.{QueueStruct}
use sim_universal_constructi.Queues.Files.Cc
use sim_universal_constructi.Queues.Runs.{Op, enq, deq, run}
use sim_universal_constructi.Queues.OnCc.{cc_queue_refines}
use sim_universal_constructi.Combining.Cc.{Nodes}
use sim_universal_constructi.Combining.Instance.{cc_synch}

abbrev no_nodes : Nodes
no_nodes = record {
  next = λ i. none;
  arg_ret = λ i. pos 0;
  pid = λ i. 0;
  locked = λ i. false;
  completed = λ i. false;
}

abbrev zeroes : Heap
zeroes = record { val = λ i. pos 0; next = λ i. none }

abbrev own_nodes : ℕ → ℕ
own_nodes i = i + 1

own_nodes-apart : (i : ℕ) → (0 == own_nodes i) ≡ false
own_nodes-apart i = ground arith

own_nodes-differ : (i j : ℕ) → (i == j) ≡ false → (own_nodes i == own_nodes j) ≡ false
own_nodes-differ i j ne = ground arith

abbrev two_threads : Combiner
two_threads = cc_synch 0 no_nodes own_nodes own_nodes-apart own_nodes-differ

-- Node 0 is the guard node; the third enqueue takes it again.
abbrev seven : List Op
seven =
    enq 1 (pos 7) 0
    ∷ enq 2 (pos 8) 1
    ∷ deq (pos 5) 0
    ∷ enq 0 (pos 9) 1
    ∷ deq (pos 5) 0
    ∷ deq (pos 5) 1
    ∷ deq (pos 5) 0
    ∷ []

cc_queue_refines_example :
    (t : QueueStruct two_threads) × (run two_threads 2 seven (Cc.struct_init two_threads 2 zeroes 0)
      ≡ some (pos 7 ∷ pos 8 ∷ pos 9 ∷ empty_queue ∷ [], t))
    × (ys : List ℕ) × IsQueue t.queue ys
    × (map t.queue.heap.val ys ≡ [])
cc_queue_refines_example =
    cc_queue_refines 0 no_nodes own_nodes own_nodes-apart own_nodes-differ 1 2 0 zeroes seven
      (omega arith)
      (
        refl,
        (λ e. ground (arith, e)),
        (refl, (λ e. ground (arith, e)), (refl, (λ e. ground (arith, e)), tt)),
      )
