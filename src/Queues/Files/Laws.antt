-- ===== src/Queues/Files/Laws.antt =====
-- The queues of ccqueue.c, dsmqueue.c, hqueue.c and osciqueue.c are first-in first-out, whatever
-- combining object runs them: the object is a parameter, for which Combining.Instance has CC-Synch.
use sim_universal_constructi.Prelude.{
  ℕ, ◌<◌, ◌≡◌, ◌≢◌, false, Option, some, List, [], ◌∷◌, ◌++◌, length, ℤ,
}
use sim_universal_constructi.Queues.Nodes.{Heap, has, guard_value}
use sim_universal_constructi.Queues.Combiner.{Combiner}
use sim_universal_constructi.Queues.Fifo.{IsQueue, contents, Dequeued, init_queue-IsQueue}
use sim_universal_constructi.Queues.Struct
use sim_universal_constructi.Queues.Struct.{QueueStruct, apply_enqueue_lem, apply_dequeue_lem}
use sim_universal_constructi.Queues.Files.Cc
use sim_universal_constructi.Queues.Files.Dsm
use sim_universal_constructi.Queues.Files.Hier
use sim_universal_constructi.Queues.Files.Osci

module _ (c : Combiner) (s : QueueStruct c) (xs : List ℕ) (v : ℤ) (pid : ℕ) where
  -- `op` puts v behind the contents, at the new node.
  abbrev pub Enqueues : ℕ → (ℕ → QueueStruct c → ℤ → ℕ → Option (QueueStruct c)) → Type 0
  Enqueues node op =
      (t : QueueStruct c) × (op node s v pid ≡ some t)
      × Struct.Ready c t
      × IsQueue t.queue (xs ++ node ∷ [])
      × (contents t.queue.heap.val (xs ++ node ∷ []) ≡ contents s.queue.heap.val xs ++ v ∷ [])

  abbrev pub Dequeues :
      ℕ → ℤ → (ℕ → ℤ → QueueStruct c → ℤ → ℕ → Option (ℤ × QueueStruct c)) → Type 0
  Dequeues fuel word op =
      (r : ℤ) × (t : QueueStruct c) × (op fuel word s v pid ≡ some (r, t))
      × Struct.Ready c t
      × Dequeued s.queue xs (r, t.queue)

  -- While no thread is at work on the queue, each of the four enqueue operations, of a value other than the guard value at a node that is not
  -- in the queue, returns, puts the value behind the contents, and leaves no thread at work.
  pub apply_enqueue-Enqueues :
      (node : ℕ)
      → Struct.Ready c s
      → IsQueue s.queue xs
      → has node (s.queue.first ∷ xs) ≡ false
      → v ≢ guard_value
      → Enqueues node (Cc.apply_enqueue c)
        × Enqueues node (Dsm.apply_enqueue c)
        × Enqueues node (Hier.apply_enqueue c)
        × Enqueues node (Osci.apply_enqueue c)
  unfolding Cc.apply_enqueue Dsm.apply_enqueue Hier.apply_enqueue Osci.apply_enqueue
  apply_enqueue-Enqueues node ready i fresh ne =
      let e = apply_enqueue_lem c s xs ready i node v pid fresh ne in (e, e, e, e)

  -- While no thread is at work on the queue, each of the four dequeue operations, whatever word the recycling stores in the node, with fuel for one round more than there are nodes behind
  -- the first, returns. If the contents are not empty it takes the first value off them; otherwise
  -- it returns EMPTY_QUEUE and leaves an empty queue. No thread is left at work.
  pub apply_dequeue-Dequeues :
      (fuel : ℕ) (word : ℤ)
      → Struct.Ready c s
      → IsQueue s.queue xs
      → length xs < fuel
      → Dequeues fuel word (Cc.apply_dequeue c)
        × Dequeues fuel word (Dsm.apply_dequeue c)
        × Dequeues fuel word (Hier.apply_dequeue c)
        × Dequeues fuel word (Osci.apply_dequeue c)
  unfolding Cc.apply_dequeue Dsm.apply_dequeue Hier.apply_dequeue Osci.apply_dequeue
  apply_dequeue-Dequeues fuel word ready i h =
      let d = apply_dequeue_lem c s xs ready i fuel word v pid h in (d, d, d, d)

-- The four initialisations leave an empty queue.
pub struct_inits_empty :
    (c : Combiner) (nthreads guard : ℕ) (h : Heap)
    → IsQueue (Cc.struct_init c nthreads h guard).queue []
      × IsQueue (Dsm.struct_init c nthreads h guard).queue []
      × IsQueue (Hier.struct_init c nthreads h guard).queue []
      × IsQueue (Osci.struct_init c nthreads h guard).queue []
unfolding Cc.struct_init Dsm.struct_init Hier.struct_init Osci.struct_init Struct.struct_init
struct_inits_empty c nthreads guard h = let i = init_queue-IsQueue h guard in (i, i, i, i)
