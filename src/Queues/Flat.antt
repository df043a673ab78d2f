-- ===== src/Queues/Flat.antt =====
-- libconcurrent/concurrent/fcqueue.c and libconcurrent/concurrent/fcstack.c: the queue and the stack
-- under flat combining. Their serial code is their own; it gives no node back to the pool.
use sim_universal_constructi.Prelude.{ℕ, true, false, Option, none, some, [], ℤ, pos, eq_ℤ}
use sim_universal_constructi.Queues.Nodes.{Heap, set_node, set_next, success, pop_op, fail}
use sim_universal_constructi.Queues.Combiner.{Combiner, Serial}
use sim_universal_constructi.Queues.Serial.{Queue}
use sim_universal_constructi.Queues.Struct.{QueueStruct}
use sim_universal_constructi.Queues.SerialStack.{Stack, StackStruct}

-- The guard of this queue is INT_MIN.
unfoldable pub fc_init_queue : Heap → ℕ → Queue
fc_init_queue h guard = record {
  heap = set_node h guard pop_op none;
  first = guard;
  last = guard;
  recycled = [];
}

-- `serialEnqueue`, with the node that `synchAllocObj` returns
unfoldable pub fc_serial_enqueue : ℕ → Serial Queue
fc_serial_enqueue node q arg pid = some (
  fail,
  record q { heap = set_next (set_node q.heap node arg none) q.last (some node); last = node },
)

-- `serialDequeue`, which returns the value of the node that was the first
unfoldable pub fc_serial_dequeue : Serial Queue
fc_serial_dequeue q arg pid = elim (q.heap.next q.first) [
  | none ↦ some (fail, q)
  | some next ↦ some (q.heap.val q.first, record q { first = next })
]

-- `serialPushPop`
unfoldable pub fc_serial_push_pop : ℕ → Serial Stack
fc_serial_push_pop node st arg pid = elim (eq_ℤ arg pop_op) [
  | true ↦ elim (st.top) [
    | none ↦ some (fail, st)
    | some top ↦ some (st.heap.val top, record st { top = st.heap.next top })
  ]
  | false ↦ some (success, record st { heap = set_node st.heap node arg st.top; top = some node })
]

module _ (c : Combiner) where
  unfoldable pub fc_queue_struct_init : ℕ → Heap → ℕ → QueueStruct c
  fc_queue_struct_init nthreads h guard = record {
    enqueue_struct = c.struct_init nthreads;
    dequeue_struct = c.struct_init nthreads;
    queue = fc_init_queue h guard;
  }

  -- The request carries the pid in place of `arg`.
  unfoldable pub fc_apply_enqueue : ℕ → QueueStruct c → ℤ → ℕ → Option (QueueStruct c)
  fc_apply_enqueue node s arg pid =
      elim (c.apply_op Queue (fc_serial_enqueue node) s.enqueue_struct s.queue (pos pid) pid) [
        | none ↦ none
        | some (r, y, q) ↦ some (record s { enqueue_struct = y; queue = q })
      ]

  unfoldable pub fc_apply_dequeue : QueueStruct c → ℕ → Option (ℤ × QueueStruct c)
  fc_apply_dequeue s pid =
      elim (c.apply_op Queue fc_serial_dequeue s.dequeue_struct s.queue (pos pid) pid) [
        | none ↦ none
        | some (r, y, q) ↦ some (r, record s { dequeue_struct = y; queue = q })
      ]

  unfoldable pub fc_stack_init : ℕ → Heap → StackStruct c
  fc_stack_init nthreads h = record {
    object_struct = c.struct_init nthreads;
    stack = record { heap = h; top = none; recycled = [] };
  }

  unfoldable pub fc_push : ℕ → StackStruct c → ℤ → ℕ → Option (StackStruct c)
  fc_push node s arg pid =
      elim (c.apply_op Stack (fc_serial_push_pop node) s.object_struct s.stack arg pid) [
        | none ↦ none
        | some (r, y, st) ↦ some (record { object_struct = y; stack = st })
      ]

  -- A pop allocates nothing.
  unfoldable pub fc_pop : StackStruct c → ℕ → Option (ℤ × StackStruct c)
  fc_pop s pid = elim (c.apply_op Stack (fc_serial_push_pop 0) s.object_struct s.stack pop_op pid) [
    | none ↦ none
    | some (r, y, st) ↦ some (r, record { object_struct = y; stack = st })
  ]
