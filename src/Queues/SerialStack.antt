-- ===== src/Queues/SerialStack.antt =====
-- `serialPushPop`, which ccstack.c, dsmstack.c, hstack.c and oscistack.c share, and the stack struct.
--
-- `node` is what `synchAllocObj` returned, and `word` what `synchRecycleObj` stores in the node that it is
-- given: the head of the recycle list of the thread's pool. The nodes given to it are kept in `recycled`,
-- the last one first. A push and a pop are one function: the argument INT_MIN is a pop.
use sim_universal_constructi.Prelude.{
  ℕ, true, false, Option, none, some, List, [], ◌∷◌, ℤ, pos, eq_ℤ,
}
use sim_universal_constructi.Queues.Nodes.{Heap, set_node, set_word, empty_stack, success, pop_op}
use sim_universal_constructi.Queues.Combiner.{Combiner, Serial}

pub record Stack : Type 0 where
  pub heap : Heap
  pub top : Option ℕ
  pub recycled : List ℕ

abbrev pub pop : ℤ → Stack → ℤ × Stack
pop word st = elim (st.top) [
  | none ↦ (empty_stack, st)
  | some node ↦ (
    st.heap.val node,
    record st {
      heap = set_word st.heap node word;
      top = st.heap.next node;
      recycled = node ∷ st.recycled;
    },
  )
]

abbrev pub push : ℕ → Stack → ℤ → ℤ × Stack
push node st arg = (success, record st { heap = set_node st.heap node arg st.top; top = some node })

unfoldable pub serial_push_pop : ℕ → ℤ → Serial Stack
serial_push_pop node word st arg pid =
    some (elim (eq_ℤ arg pop_op) [ true ↦ pop word st | false ↦ push node st arg ])

pub record StackStruct (c : Combiner) : Type 0 where
  pub object_struct : c.Sync
  pub stack : Stack

module _ (c : Combiner) where
  unfoldable pub struct_init : ℕ → Heap → StackStruct c
  struct_init nthreads h = record {
    object_struct = c.struct_init nthreads;
    stack = record { heap = h; top = none; recycled = [] };
  }

  -- A push recycles nothing.
  unfoldable pub apply_push : ℕ → StackStruct c → ℤ → ℕ → Option (StackStruct c)
  apply_push node s arg pid =
      elim (c.apply_op Stack (serial_push_pop node (pos 0)) s.object_struct s.stack arg pid) [
        | none ↦ none
        | some (r, y, st) ↦ some (record { object_struct = y; stack = st })
      ]

  -- A pop allocates nothing.
  unfoldable pub apply_pop : ℤ → StackStruct c → ℕ → Option (ℤ × StackStruct c)
  apply_pop word s pid =
      elim (c.apply_op Stack (serial_push_pop 0 word) s.object_struct s.stack pop_op pid) [
        | none ↦ none
        | some (r, y, st) ↦ some (r, record { object_struct = y; stack = st })
      ]
