-- ===== src/Queues/Struct.antt =====
-- A queue struct with its two combining objects, and the operations that the queues of ccqueue.c,
-- dsmqueue.c, hqueue.c and osciqueue.c have in common.
use sim_universal_constructi.Prelude.{
  ℕ, ◌<◌, ◌≡◌, ◌≢◌, refl, false, Option, none, some, List, [], ◌∷◌, ◌++◌, length, ℤ, ◌∙◌,
}
use sim_universal_constructi.Queues.Nodes.{Heap, has, guard_value}
use sim_universal_constructi.Queues.Combiner.{Combiner, Serial}
use sim_universal_constructi.Queues.Serial.{Queue, init_queue, enqueue, dequeue}
use sim_universal_constructi.Queues.Fifo.{IsQueue, contents, enqueue_lem, dequeue_lem, Dequeued}

-- `serialEnqueue`, with the node that `synchAllocObj` returns
unfoldable pub serial_enqueue : ℕ → Serial Queue
serial_enqueue node q arg pid = some (enqueue node q arg)

-- `serialDequeue`, on fuel, with the word that `synchRecycleObj` stores
unfoldable pub serial_dequeue : ℕ → ℤ → Serial Queue
serial_dequeue fuel word q arg pid = dequeue fuel word q

pub record QueueStruct (c : Combiner) : Type 0 where
  pub enqueue_struct : c.Sync
  pub dequeue_struct : c.Sync
  pub queue : Queue

module _ (c : Combiner) where
  -- No thread is at work on either of the two objects.
  abbrev pub Ready : QueueStruct c → Type 0
  Ready s = c.Ready s.enqueue_struct × c.Ready s.dequeue_struct

  unfoldable pub struct_init : ℕ → Heap → ℕ → QueueStruct c
  struct_init nthreads h guard = record {
    enqueue_struct = c.struct_init nthreads;
    dequeue_struct = c.struct_init nthreads;
    queue = init_queue h guard;
  }

  unfoldable pub apply_enqueue : ℕ → QueueStruct c → ℤ → ℕ → Option (QueueStruct c)
  apply_enqueue node s arg pid =
      elim (c.apply_op Queue (serial_enqueue node) s.enqueue_struct s.queue arg pid) [
        | none ↦ none
        | some (r, y, q) ↦ some (record s { enqueue_struct = y; queue = q })
      ]

  unfoldable pub apply_dequeue : ℕ → ℤ → QueueStruct c → ℤ → ℕ → Option (ℤ × QueueStruct c)
  apply_dequeue fuel word s arg pid =
      elim (c.apply_op Queue (serial_dequeue fuel word) s.dequeue_struct s.queue arg pid) [
        | none ↦ none
        | some (r, y, q) ↦ some (r, record s { dequeue_struct = y; queue = q })
      ]

serial_enqueue_lem :
    (node : ℕ) (q : Queue) (v : ℤ) (pid : ℕ) → serial_enqueue node q v pid ≡ some (enqueue node q v)
unfolding serial_enqueue
serial_enqueue_lem node q v pid = refl

serial_dequeue_lem :
    (fuel : ℕ) (word : ℤ) (q : Queue) (v : ℤ) (pid : ℕ)
    → serial_dequeue fuel word q v pid ≡ dequeue fuel word q
unfolding serial_dequeue
serial_dequeue_lem fuel word q v pid = refl

module _ (c : Combiner) (s : QueueStruct c) (xs : List ℕ) (ready : Ready c s)
    (i : IsQueue s.queue xs) where
  pub apply_enqueue_lem :
      (node : ℕ) (v : ℤ) (pid : ℕ)
      → has node (s.queue.first ∷ xs) ≡ false
      → v ≢ guard_value
      → (t : QueueStruct c) × (apply_enqueue c node s v pid ≡ some t)
        × Ready c t
        × IsQueue t.queue (xs ++ node ∷ [])
        × (contents t.queue.heap.val (xs ++ node ∷ []) ≡ contents s.queue.heap.val xs ++ v ∷ [])
  unfolding apply_enqueue
  apply_enqueue_lem node v pid fresh ne =
      let out = enqueue node s.queue v in
      let (y, run, again) =
        c.applies Queue (serial_enqueue node) s.enqueue_struct s.queue out.1 v out.0 pid (ready.0)
          (serial_enqueue_lem node s.queue v pid) in
      let e = enqueue_lem node s.queue v xs i fresh ne in
      (
        record s { enqueue_struct = y; queue = out.1 },
        rw (run, apply_enqueue) refl,
        (again, ready.1),
        e.1,
        e.2,
      )

  pub apply_dequeue_lem :
      (fuel : ℕ) (word v : ℤ) (pid : ℕ)
      → length xs < fuel
      → (r : ℤ) × (t : QueueStruct c) × (apply_dequeue c fuel word s v pid ≡ some (r, t))
        × Ready c t
        × Dequeued s.queue xs (r, t.queue)
  unfolding apply_dequeue
  apply_dequeue_lem fuel word v pid h =
      let (out, run, d) = dequeue_lem fuel word s.queue xs i h in
      let (y, ran, again) =
        c.applies Queue (serial_dequeue fuel word) s.dequeue_struct s.queue out.1 v out.0 pid
          (ready.1) (serial_dequeue_lem fuel word s.queue v pid ∙ run) in
      (
        out.0,
        record s { dequeue_struct = y; queue = out.1 },
        rw (ran, apply_dequeue) refl,
        (ready.0, again),
        d,
      )
