-- ===== src/LockFree/MsQueue.antt =====
-- libconcurrent/concurrent/msqueue.c: the MS-Queue, one shared access at a time.
--
-- A node is an address and `none` is NULL. The threads interleave in any order. A node that
-- `synchAllocObj` returns has not been handed out before, since no dequeue gives its node back. The
-- backoff object, which only the thread itself sees, is left out.
use sim_universal_constructi.Prelude.{
  ℕ, ◌==◌, ◌≡◌, Bool, true, false, Option, none, some, List, [], ◌∷◌, ◌++◌, update, ℤ, eq_ℤ,
  if◌then◌else◌,
}
use sim_universal_constructi.Queues.Nodes.{Heap, set_next, set_node, empty_queue}
pub mod Facts
pub mod Moves
pub mod Enqueues
pub mod Dequeues
pub mod Advance
pub mod Phases
pub mod Calls
pub mod Linearizable

pub record MsQueue : Type 0 where
  pub head : ℕ
  pub tail : ℕ
  pub heap : Heap

-- `MSQueueInit`; `p` is the address that `synchGetMemory` returns.
unfoldable pub queue_init : Heap → ℕ → MsQueue
queue_init h p = record { head = p; tail = p; heap = set_next h p none }

-- Where a thread stands. In `MSQueueEnqueue`, with its node p: at the loop, with `last` read, with `next`
-- read as well, before the compare-and-swap of `last->next`, before the one that helps the tail on, or
-- before the last one. In `MSQueueDequeue`: at the loop, with `first` read, with `last`, with `next`,
-- before the helping compare-and-swap, before the read of `next->val`, or before the compare-and-swap of
-- the head. `faults` has read `next->val` with `next` NULL.
pub data Pc : Type 0 where
  idle : Pc
  enters : ℕ → Pc
  reads_tail : ℕ → ℕ → Pc
  reads_next : ℕ → ℕ → Option ℕ → Pc
  links : ℕ → ℕ → Pc
  helps : ℕ → ℕ → ℕ → Pc
  swings : ℕ → ℕ → Pc
  removes : Pc
  reads_first : ℕ → Pc
  reads_last : ℕ → ℕ → Pc
  reads_second : ℕ → ℕ → Option ℕ → Pc
  aids : ℕ → ℕ → Pc
  reads_val : ℕ → ℕ → Pc
  takes : ℕ → ℕ → ℤ → Pc
  returns : ℤ → Pc
  faults : Pc

-- `used` has the nodes that were allocated, `linked` those that the queue has held.
pub record System : Type 0 where
  pub queue : MsQueue
  pub used : ℕ → Bool
  pub linked : ℕ → Bool
  pub pc : ℕ → Pc

-- The calls, with the argument of an enqueue, and the returns, with the value of a dequeue; what takes
-- effect: a value put in or taken out, or a look at an empty queue; and of a dequeue whose look or read of
-- `next` is to be repeated, or that settles for EMPTY_QUEUE after the look.
pub data Event : Type 0 where
  calls_enqueue : ℕ → ℤ → Event
  calls_dequeue : ℕ → Event
  enqueued : ℕ → ℤ → Event
  dequeued : ℕ → ℤ → Event
  saw_empty : ℕ → Event
  retries : ℕ → Event
  settles : ℕ → Event
  ends : ℕ → Event
  answers : ℕ → ℤ → Event

abbrev pub goes : System → ℕ → Pc → System
goes s i p = record s { pc = update s.pc i p }

-- `p = synchAllocObj(...)`; `p->val = arg`; `p->next = NULL`
unfoldable pub start_enqueue : System → ℕ → ℕ → ℤ → System
start_enqueue s i p v = record s {
  queue = record s.queue { heap = set_node s.queue.heap p v none };
  used = update s.used p true;
  pc = update s.pc i (enters p);
}

-- `synchCASPTR(&l->tail, last, next)`
unfoldable pub cas_tail : MsQueue → ℕ → ℕ → MsQueue
cas_tail q last next = elim (q.tail == last) [ true ↦ record q { tail = next } | false ↦ q ]

-- `if (last == l->tail)`, and which way `MSQueueEnqueue` goes then
unfoldable pub check_tail : System → ℕ → ℕ → ℕ → Option ℕ → System
check_tail s i p last next = elim (s.queue.tail == last) [
  | true ↦ elim next [ none ↦ goes s i (links p last) | some x ↦ goes s i (helps p last x) ]
  | false ↦ goes s i (enters p)
]

-- `synchCASPTR(&last->next, next, p)`, where `next` is NULL
unfoldable pub link_cas : System → ℕ → ℕ → ℕ → List Event × System
link_cas s i p last = elim (s.queue.heap.next last) [
  | none ↦ (
    enqueued i (s.queue.heap.val p) ∷ [],
    record s {
      queue = record s.queue { heap = set_next s.queue.heap last (some p) };
      linked = update s.linked p true;
      pc = update s.pc i (swings last p);
    },
  )
  | some x ↦ ([], goes s i (enters p))
]

-- `next = first->next`, and with it the look at an empty queue
unfoldable pub read_second : System → ℕ → ℕ → ℕ → List Event × System
read_second s i first last = elim (s.queue.heap.next first) [
  | none ↦ (saw_empty i ∷ [], goes s i (reads_second first last none))
  | some x ↦ ([], goes s i (reads_second first last (some x)))
]

-- `if (first == l->head)`, and which way `MSQueueDequeue` goes then
unfoldable pub check_head : System → ℕ → ℕ → ℕ → Option ℕ → List Event × System
check_head s i first last next = elim (s.queue.head == first) [
  | true ↦ elim (first == last) [
    | true ↦ elim next [
      | none ↦ (settles i ∷ [], goes s i (returns empty_queue))
      | some x ↦ ([], goes s i (aids last x))
    ]
    | false ↦ elim next [
      | none ↦ ([], goes s i faults)
      | some x ↦ ([], goes s i (reads_val first x))
    ]
  ]
  | false ↦ (retries i ∷ [], goes s i removes)
]

-- `synchCASPTR(&l->head, first, next)`, and the loop again when it fails
unfoldable pub head_cas : System → ℕ → ℕ → ℕ → ℤ → List Event × System
head_cas s i first next v = elim (s.queue.head == first) [
  | true ↦ (
    dequeued i v ∷ [],
    record s { queue = record s.queue { head = next }; pc = update s.pc i (returns v) },
  )
  | false ↦ ([], goes s i removes)
]

-- A compare-and-swap of the tail, after which the thread goes to p.
abbrev pub swing : System → ℕ → ℕ → ℕ → Pc → System
swing s i last next p = record s { queue = cas_tail s.queue last next; pc = update s.pc i p }

-- The next shared access of thread i, with what takes effect at it
unfoldable pub advance : System → ℕ → List Event × System
advance s i = elim (s.pc i) [
  | idle ↦ ([], s)
  | enters p ↦ ([], goes s i (reads_tail p s.queue.tail))
  | reads_tail p last ↦ ([], goes s i (reads_next p last (s.queue.heap.next last)))
  | reads_next p last next ↦ ([], check_tail s i p last next)
  | links p last ↦ link_cas s i p last
  | helps p last next ↦ ([], swing s i last next (enters p))
  | swings last p ↦ (ends i ∷ [], swing s i last p idle)
  | removes ↦ ([], goes s i (reads_first s.queue.head))
  | reads_first first ↦ ([], goes s i (reads_last first s.queue.tail))
  | reads_last first last ↦ read_second s i first last
  | reads_second first last next ↦ check_head s i first last next
  | aids last next ↦ ([], swing s i last next removes)
  | reads_val first next ↦ ([], goes s i (takes first next (s.queue.heap.val next)))
  | takes first next v ↦ head_cas s i first next v
  | returns r ↦ (answers i r ∷ [], goes s i idle)
  | faults ↦ ([], s)
]

pub data Step (s : System) (events : List Event) (t : System) : Type 0 where
  starts_enqueue :
      (i p : ℕ) (v : ℤ)
      → s.pc i ≡ idle
      → s.used p ≡ false
      → events ≡ calls_enqueue i v ∷ []
      → t ≡ start_enqueue s i p v
      → Step s events t
  starts_dequeue :
      (i : ℕ)
      → s.pc i ≡ idle
      → events ≡ calls_dequeue i ∷ []
      → t ≡ goes s i removes
      → Step s events t
  advances : (i : ℕ) → (events, t) ≡ advance s i → Step s events t

-- The states that a run leads to, with all that took effect, the first event first
pub data Reach (s : System) : List Event → System → Type 0 where
  here : Reach s [] s
  later :
      {past events : List Event} {t u : System}
      → Reach s past t
      → Step t events u
      → Reach s (past ++ events) u

abbrev pub init : Heap → ℕ → System
init h p = record {
  queue = queue_init h p;
  used = update (λ a. false) p true;
  linked = update (λ a. false) p true;
  pc = λ i. idle;
}

-- What the events do to a list of values; `none` where a list would have returned another value
abbrev pub replay : List Event → List ℤ → Option (List ℤ)
replay [] vs = some vs
replay (calls_enqueue i v ∷ es) vs = replay es vs
replay (calls_dequeue i ∷ es) vs = replay es vs
replay (retries i ∷ es) vs = replay es vs
replay (settles i ∷ es) vs = replay es vs
replay (ends i ∷ es) vs = replay es vs
replay (answers i r ∷ es) vs = replay es vs
replay (enqueued i v ∷ es) vs = replay es (vs ++ v ∷ [])
replay (dequeued i r ∷ es) [] = none
replay (dequeued i r ∷ es) (v ∷ vs) = if eq_ℤ r v then replay es vs else none
replay (saw_empty i ∷ es) [] = replay es []
replay (saw_empty i ∷ es) (v ∷ vs) = none
