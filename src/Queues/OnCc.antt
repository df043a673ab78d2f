-- ===== src/Queues/OnCc.antt =====
-- The CC-Queue under CC-Synch: libconcurrent/concurrent/ccqueue.c over
-- libconcurrent/concurrent/ccsynch.c.
use sim_universal_constructi.Prelude.{
  ℕ, suc, ◌<◌, ◌==◌, ◌≡◌, refl, false, some, List, [], map, arith,
}
use sim_universal_constructi.Queues.Nodes.{Heap}
use sim_universal_constructi.Queues.Serial.{init_queue}
use sim_universal_constructi.Queues.Fifo.{IsQueue, init_queue-IsQueue}
use sim_universal_constructi.Queues.Struct
use sim_universal_constructi.Queues.Struct.{QueueStruct}
use sim_universal_constructi.Queues.Files.Cc
use sim_universal_constructi.Queues.Runs.{Op, spec, Allocates, run, run-Refines}
use sim_universal_constructi.Combining.Cc.{Nodes}
use sim_universal_constructi.Combining.Instance.{cc_synch}

-- A CC-Queue, under two CC-Synch objects for at least one thread each, whose first tail and whose
-- threads' nodes are apart from one another, starts as the empty list and refines a list of values:
-- any sequence of enqueues and dequeues, one after the other, of values other than the guard value
-- and with nodes that are not in use when they are allocated, runs to its end, the dequeues return
-- what the list's would, EMPTY_QUEUE when it is empty, and at the end the queue holds the values of
-- the list.
pub cc_queue_refines :
    (first : ℕ) (n : Nodes) (own : ℕ → ℕ) (apart : (i : ℕ) → (first == own i) ≡ false)
    (differ : (i j : ℕ) → (i == j) ≡ false → (own i == own j) ≡ false) (fuel nthreads guard : ℕ)
    (h : Heap) (ops : List Op)
    → 0 < nthreads
    → Allocates ops guard []
    → (t : QueueStruct (cc_synch first n own apart differ)) × (run
          (cc_synch first n own apart differ)
          (suc fuel)
          ops
          (Cc.struct_init (cc_synch first n own apart differ) nthreads h guard)
        ≡ some ((spec ops []).0, t))
      × (ys : List ℕ) × IsQueue t.queue ys
      × (map t.queue.heap.val ys ≡ (spec ops []).1)
unfolding Cc.struct_init Struct.struct_init init_queue
cc_queue_refines first n own apart differ fuel nthreads guard h ops pos a =
    let c = cc_synch first n own apart differ in
    let (t, ran, ys, holds) =
      run-Refines c fuel ops (Cc.struct_init c nthreads h guard) [] []
        (record {
          ready = (c.init_ready nthreads pos, c.init_ready nthreads pos);
          is_queue = init_queue-IsQueue h guard;
          vals = refl;
          plain = λ x i. absurd (ground (arith, i));
        })
        a in
    (t, ran, ys, holds.is_queue, holds.vals)
