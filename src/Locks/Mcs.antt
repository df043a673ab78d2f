-- ===== src/Locks/Mcs.antt =====
-- libconcurrent/concurrent/mcs.c: the MCS lock, one shared access at a time.
--
-- A thread keeps the node that `MCSThreadStateInit` allocates for it, so a node is named by its thread;
-- `none` is NULL. The threads interleave in any order. The load of a thread's own `next`, which no other
-- thread changes once it is set, is one step with the store that goes through it.
pub mod Queue
pub mod Aims
pub mod Moves
pub mod Steps
pub mod Shifts
pub mod Safety
use sim_universal_constructi.Prelude.{
  ℕ, ◌==◌, Bool, true, false, Option, none, some, update, if◌then◌else◌, ◌≡◌,
}

pub record McsLock : Type 0 where
  pub tail : Option ℕ
  pub locked : ℕ → Bool
  pub next : ℕ → Option ℕ

-- `MCSLockInit`, on nodes that `MCSThreadStateInit` has set up
unfoldable pub lock_init : McsLock
lock_init = record { tail = none; locked = λ a. false; next = λ a. none }

-- Where a thread stands. In `MCSLock`, with `prev` where it has one: before the swap, before the load of the
-- tail, with the node loaded, before each of the two stores after it, or at the loop. Between the two functions. In `MCSUnlock`: before the
-- compare-and-swap, at the loop, before the store to the next node, or before the last store. `faults` has
-- followed a NULL pointer.
pub data Pc : Type 0 where
  idle : Pc
  readies : Pc
  marks_tail : ℕ → Pc
  marks_node : ℕ → ℕ → Pc
  marks_own : ℕ → Pc
  links : ℕ → Pc
  waits : Pc
  critical : Pc
  tries : Pc
  awaits : Pc
  hands : Pc
  clears : Pc
  faults : Pc

pub record System : Type 0 where
  pub lock : McsLock
  pub pc : ℕ → Pc

abbrev pub goes : System → McsLock → ℕ → Pc → System
goes s l i p = record { lock = l; pc = update s.pc i p }

-- `prev = synchSWAP(&l->Tail, MyNode)`
unfoldable pub swap_tail : System → ℕ → System
swap_tail s i =
    goes s (record s.lock { tail = some i }) i
      (elim (s.lock.tail) [ none ↦ waits | some prev ↦ marks_tail prev ])

-- `l->Tail->locked = true`: the load of the tail, and the store to the node that was loaded
unfoldable pub mark_tail : System → ℕ → ℕ → System
mark_tail s i prev = elim (s.lock.tail) [
  | none ↦ goes s s.lock i faults
  | some a ↦ goes s s.lock i (marks_node a prev)
]

unfoldable pub mark_node : System → ℕ → ℕ → ℕ → System
mark_node s i a prev =
    goes s (record s.lock { locked = update s.lock.locked a true }) i (marks_own prev)

-- `synchCASPTR(&l->Tail, MyNode, NULL)`
unfoldable pub cas_tail : System → ℕ → System
cas_tail s i = elim (s.lock.tail) [
  | none ↦ goes s s.lock i awaits
  | some a ↦
      if a == i then goes s (record s.lock { tail = none }) i idle else goes s s.lock i awaits
]

-- `MyNode->next->locked = false`
unfoldable pub hand_over : System → ℕ → System
hand_over s i = elim (s.lock.next i) [
  | none ↦ goes s s.lock i faults
  | some b ↦ goes s (record s.lock { locked = update s.lock.locked b false }) i clears
]

-- The next shared access of thread i
unfoldable pub advance : System → ℕ → System
advance s i = elim (s.pc i) [
  | idle ↦ goes s (record s.lock { next = update s.lock.next i none }) i readies
  | readies ↦ swap_tail s i
  | marks_tail prev ↦ mark_tail s i prev
  | marks_node a prev ↦ mark_node s i a prev
  | marks_own prev ↦ goes s (record s.lock { locked = update s.lock.locked i true }) i (links prev)
  | links prev ↦ goes s (record s.lock { next = update s.lock.next prev (some i) }) i waits
  | waits ↦ if s.lock.locked i then s else goes s s.lock i critical
  | critical ↦ elim (s.lock.next i) [
    | none ↦ goes s s.lock i tries
    | some b ↦ goes s s.lock i hands
  ]
  | tries ↦ cas_tail s i
  | awaits ↦ elim (s.lock.next i) [ none ↦ s | some b ↦ goes s s.lock i hands ]
  | hands ↦ hand_over s i
  | clears ↦ goes s (record s.lock { next = update s.lock.next i none }) i idle
  | faults ↦ s
]

pub data Reach (s : System) : System → Type 0 where
  here : Reach s s
  later : {t : System} (i : ℕ) → Reach s t → Reach s (advance t i)

abbrev pub init : System
init = record { lock = lock_init; pc = λ i. idle }
