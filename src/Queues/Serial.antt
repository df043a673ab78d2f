-- ===== src/Queues/Serial.antt =====
-- `serialEnqueue` and `serialDequeue`, which ccqueue.c, dsmqueue.c, hqueue.c and osciqueue.c share.
--
-- `node` is what `synchAllocObj` returned, and `word` what `synchRecycleObj` stores in the node that it is
-- given: the head of the recycle list of the thread's pool. The nodes given to it are kept in `recycled`,
-- the last one first.
use sim_universal_constructi.Prelude.{
  ℕ, zero, suc, true, false, Option, none, some, List, [], ◌∷◌, ℤ, eq_ℤ,
}
use sim_universal_constructi.Queues.Nodes.{
  Heap, set_node, set_next, set_word, guard_value, empty_queue, success,
}

pub record Queue : Type 0 where
  pub heap : Heap
  pub first : ℕ
  pub last : ℕ
  pub recycled : List ℕ

-- An empty queue: both ends at the guard node, which lies inside the struct.
unfoldable pub init_queue : Heap → ℕ → Queue
init_queue h guard = record {
  heap = set_node h guard guard_value none;
  first = guard;
  last = guard;
  recycled = [];
}

unfoldable pub enqueue : ℕ → Queue → ℤ → ℤ × Queue
enqueue node q arg = (
  success,
  record q { heap = set_next (set_node q.heap node arg none) q.last (some node); last = node },
)

-- The call of itself on a guard node is on fuel.
unfoldable pub dequeue : ℕ → ℤ → Queue → Option (ℤ × Queue)
dequeue zero word q = none
dequeue (suc fuel) word q = elim (q.heap.next q.first) [
  | none ↦ some (empty_queue, q)
  | some node ↦ elim (eq_ℤ (q.heap.val node) guard_value) [
    | true ↦ dequeue fuel word (record q { first = node })
    | false ↦
        let h = set_word q.heap q.first word in
        some (h.val node, record q { heap = h; first = node; recycled = q.first ∷ q.recycled })
  ]
]
