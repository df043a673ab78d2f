-- ===== src/LockFree/Stack.antt =====
-- libconcurrent/concurrent/lfstack.c: the LF-Stack, one shared access at a time.
--
-- A node is an address and `none` is NULL. The threads interleave in any order. A node that
-- `synchAllocObj` returns has not been handed out before, since no pop gives its node back. The
-- backoff object, which only the thread itself sees, is left out.
use sim_universal_constructi.Prelude.{
  ℕ, ◌==◌, ◌≡◌, Bool, true, false, Option, none, some, List, [], ◌∷◌, ◌++◌, update, ℤ, eq_ℤ,
  if◌then◌else◌,
}
use sim_universal_constructi.Queues.Nodes.{Heap, set_next, empty_stack}
pub mod Chain
pub mod Steps
pub mod Pops
pub mod Linearizable
pub mod Calls

pub record LfStack : Type 0 where
  pub top : Option ℕ
  pub heap : Heap

-- `LFStackInit`
unfoldable pub stack_init : Heap → LfStack
stack_init h = record { top = none; heap = h }

abbrev pub same : Option ℕ → Option ℕ → Bool
same none none = true
same none (some y) = false
same (some x) none = false
same (some x) (some y) = x == y

-- `synchCASPTR(&l->top, old_top, new)`
unfoldable pub cas : LfStack → Option ℕ → Option ℕ → Bool × LfStack
cas st old new = elim (same st.top old) [
  | true ↦ (true, record st { top = new })
  | false ↦ (false, st)
]

-- Where a thread stands: at the loop of `LFStackPush` with its node, with `old_top` read; at the loop of
-- `LFStackPop`, with `old_top` read, with `old_top->next` read as well, with `old_top` taken, or with the
-- value to return. The value in `takes` is the one of the node when it was taken.
pub data Pc : Type 0 where
  idle : Pc
  pushes : ℕ → Pc
  links : ℕ → Option ℕ → Pc
  pops : Pc
  reads : ℕ → Pc
  swings : ℕ → Option ℕ → Pc
  takes : ℕ → ℤ → Pc
  returns : ℤ → Pc

-- `used` has the nodes that were allocated.
pub record System : Type 0 where
  pub stack : LfStack
  pub used : ℕ → Bool
  pub pc : ℕ → Pc

-- The calls, with the argument of a push; what takes effect, at the compare-and-swap or the look at an empty
-- stack; and the returns of pops, with the value returned. A push returns at its compare-and-swap.
pub data Event : Type 0 where
  calls_push : ℕ → ℤ → Event
  calls_pop : ℕ → Event
  pushed : ℕ → ℤ → Event
  popped : ℕ → ℤ → Event
  found_empty : ℕ → Event
  answers : ℕ → ℤ → Event

abbrev pub goes : System → LfStack → ℕ → Pc → System
goes s st i p = record s { stack = st; pc = update s.pc i p }

-- `n = synchAllocObj(...)`; `n->val = arg`
unfoldable pub start_push : System → ℕ → ℕ → ℤ → System
start_push s i n v = record {
  stack = record s.stack { heap = record s.stack.heap { val = update s.stack.heap.val n v } };
  used = update s.used n true;
  pc = update s.pc i (pushes n);
}

unfoldable pub start_pop : System → ℕ → System
start_pop s i = goes s s.stack i pops

-- `old_top = l->top; n->next = old_top`
unfoldable pub load_top : System → ℕ → ℕ → System
load_top s i n =
    goes s (record s.stack { heap = set_next s.stack.heap n s.stack.top }) i (links n s.stack.top)

-- `synchCASPTR(&l->top, old_top, n)`, and the loop again when it fails
unfoldable pub push_cas : System → ℕ → ℕ → Option ℕ → List Event × System
push_cas s i n old =
    let (ok, st) = cas s.stack old (some n) in
    elim ok [
      | true ↦ (pushed i (s.stack.heap.val n) ∷ [], goes s st i idle)
      | false ↦ ([], goes s st i (pushes n))
    ]

-- `old_top = l->top`, and the return of EMPTY_STACK
unfoldable pub pop_read : System → ℕ → List Event × System
pop_read s i = elim (s.stack.top) [
  | none ↦ (found_empty i ∷ [], goes s s.stack i (returns empty_stack))
  | some x ↦ ([], goes s s.stack i (reads x))
]

-- `synchCASPTR(&l->top, old_top, old_top->next)`, and the loop again when it fails
unfoldable pub pop_cas : System → ℕ → ℕ → Option ℕ → List Event × System
pop_cas s i x nx =
    let (ok, st) = cas s.stack (some x) nx in
    elim ok [
      | true ↦ (popped i (s.stack.heap.val x) ∷ [], goes s st i (takes x (s.stack.heap.val x)))
      | false ↦ ([], goes s st i pops)
    ]

-- The next shared access of thread i, with what takes effect at it.
unfoldable pub advance : System → ℕ → List Event × System
advance s i = elim (s.pc i) [
  | idle ↦ ([], s)
  | pushes n ↦ ([], load_top s i n)
  | links n old ↦ push_cas s i n old
  | pops ↦ pop_read s i
  | reads x ↦ ([], goes s s.stack i (swings x (s.stack.heap.next x)))
  | swings x nx ↦ pop_cas s i x nx
  | takes x v ↦ ([], goes s s.stack i (returns (s.stack.heap.val x)))
  | returns r ↦ (answers i r ∷ [], goes s s.stack i idle)
]

pub data Step (s : System) (events : List Event) (t : System) : Type 0 where
  starts_push :
      (i n : ℕ) (v : ℤ)
      → s.pc i ≡ idle
      → s.used n ≡ false
      → events ≡ calls_push i v ∷ []
      → t ≡ start_push s i n v
      → Step s events t
  starts_pop :
      (i : ℕ) → s.pc i ≡ idle → events ≡ calls_pop i ∷ [] → t ≡ start_pop s i → Step s events t
  advances : (i : ℕ) → (events, t) ≡ advance s i → Step s events t

-- The states that a run leads to, with all that took effect, the first event first.
pub data Reach (s : System) : List Event → System → Type 0 where
  here : Reach s [] s
  later :
      {past events : List Event} {t u : System}
      → Reach s past t
      → Step t events u
      → Reach s (past ++ events) u

abbrev pub init : Heap → System
init h = record { stack = stack_init h; used = λ a. false; pc = λ i. idle }

-- What the events do to a list of values; `none` where a list would have returned another value.
abbrev pub replay : List Event → List ℤ → Option (List ℤ)
replay [] vs = some vs
replay (calls_push i v ∷ es) vs = replay es vs
replay (calls_pop i ∷ es) vs = replay es vs
replay (answers i r ∷ es) vs = replay es vs
replay (pushed i v ∷ es) vs = replay es (v ∷ vs)
replay (popped i r ∷ es) [] = none
replay (popped i r ∷ es) (v ∷ vs) = if eq_ℤ r v then replay es vs else none
replay (found_empty i ∷ es) [] = replay es []
replay (found_empty i ∷ es) (v ∷ vs) = none

-- What a thread is about: no call, a push of a value, a pop, or the return of a value
pub data Phase : Type 0 where
  resting : Phase
  pushing : ℤ → Phase
  popping : Phase
  answering : ℤ → Phase

abbrev pub thread_of : Event → ℕ
thread_of (calls_push i v) = i
thread_of (calls_pop i) = i
thread_of (pushed i v) = i
thread_of (popped i r) = i
thread_of (found_empty i) = i
thread_of (answers i r) = i

-- A thread's events, one after the other: a call takes effect once, a push with the value it was called
-- with, and a pop returns the value that it took off, or EMPTY_STACK. `none` is any other order.
unfoldable pub move : Event → Phase → Option Phase
move (calls_push i v) resting = some (pushing v)
move (calls_pop i) resting = some popping
move (pushed i r) (pushing v) = if eq_ℤ r v then some resting else none
move (popped i r) popping = some (answering r)
move (found_empty i) popping = some (answering empty_stack)
move (answers i r) (answering v) = if eq_ℤ r v then some resting else none
move _ _ = none

-- What a thread is about where it stands
unfoldable pub phase : (ℕ → ℤ) → Pc → Phase
phase val idle = resting
phase val (pushes n) = pushing (val n)
phase val (links n old) = pushing (val n)
phase val pops = popping
phase val (reads x) = popping
phase val (swings x nx) = popping
phase val (takes x v) = answering v
phase val (returns r) = answering r
