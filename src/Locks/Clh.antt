-- ===== src/Locks/Clh.antt =====
-- libconcurrent/concurrent/clh.c: the CLH lock, one shared access at a time.
--
-- A node is an address and `null` is NULL. The threads interleave in any order; the spinning loop is left
-- open, so a step that reads a locked node changes nothing.
use sim_universal_constructi.Prelude.{ℕ, ◌≡◌, Bool, true, false, update}
pub mod Queue
pub mod Safety

-- `my_node` and `my_pred` are the arrays, by pid.
pub record ClhLock : Type 0 where
  pub tail : ℕ
  pub locked : ℕ → Bool
  pub my_node : ℕ → ℕ
  pub my_pred : ℕ → ℕ

abbrev pub null : ℕ
null = 0

-- `CLHLockInit`; `first` and `nodes` are the addresses that the allocations return, and `memory` what
-- the fields `locked` hold there.
unfoldable pub lock_init : ℕ → (ℕ → ℕ) → (ℕ → Bool) → ClhLock
lock_init first nodes memory = record {
  tail = first;
  locked = update memory first false;
  my_node = nodes;
  my_pred = λ j. null;
}

-- `l->MyNode[pid]->locked = true`
unfoldable pub mark : ClhLock → ℕ → ClhLock
mark l i = record l { locked = update l.locked (l.my_node i) true }

-- `l->MyPred[pid] = synchSWAP(&l->Tail, l->MyNode[pid])`
unfoldable pub swap : ClhLock → ℕ → ClhLock
swap l i = record l { my_pred = update l.my_pred i l.tail; tail = l.my_node i }

-- `l->MyNode[pid]->locked = false`
unfoldable pub release : ClhLock → ℕ → ClhLock
release l i = record l { locked = update l.locked (l.my_node i) false }

-- `l->MyNode[pid] = l->MyPred[pid]`
unfoldable pub keep_pred : ClhLock → ℕ → ClhLock
keep_pred l i = record l { my_node = update l.my_node i (l.my_pred i) }

-- Where a thread stands in `CLHLock`, between it and `CLHUnlock`, or in `CLHUnlock`
pub data Pc : Type 0 where
  idle : Pc
  marked : Pc
  waiting : Pc
  critical : Pc
  leaving : Pc

pub record System : Type 0 where
  pub lock : ClhLock
  pub pc : ℕ → Pc

abbrev pub goes : System → ClhLock → ℕ → Pc → System
goes s l i p = record { lock = l; pc = update s.pc i p }

pub data Step (s : System) (t : System) : Type 0 where
  marks : (i : ℕ) → s.pc i ≡ idle → t ≡ goes s (mark s.lock i) i marked → Step s t
  swaps : (i : ℕ) → s.pc i ≡ marked → t ≡ goes s (swap s.lock i) i waiting → Step s t
  spins : (i : ℕ) → s.pc i ≡ waiting → s.lock.locked (s.lock.my_pred i) ≡ true → t ≡ s → Step s t
  enters :
      (i : ℕ)
      → s.pc i ≡ waiting
      → s.lock.locked (s.lock.my_pred i) ≡ false
      → t ≡ goes s s.lock i critical
      → Step s t
  releases : (i : ℕ) → s.pc i ≡ critical → t ≡ goes s (release s.lock i) i leaving → Step s t
  keeps : (i : ℕ) → s.pc i ≡ leaving → t ≡ goes s (keep_pred s.lock i) i idle → Step s t

pub data Reach (s : System) : System → Type 0 where
  here : Reach s s
  later : {t u : System} → Reach s t → Step t u → Reach s u

abbrev pub init : ℕ → (ℕ → ℕ) → (ℕ → Bool) → System
init first nodes memory = record { lock = lock_init first nodes memory; pc = λ i. idle }
