-- ===== src/LockFree/Object.antt =====
-- libconcurrent/concurrent/lfuobject.c: the lock-free universal object, one shared access at a time.
--
-- The object's state is a 64-bit value, and `sfunc` returns its result with the state that it leaves. The
-- threads interleave in any order. The backoff object, which only the thread itself sees, is left out.
use sim_universal_constructi.Prelude.{
  ℕ, suc, ◌≡◌, Bool, true, false, Option, none, some, List, [], ◌∷◌, ◌++◌, update, ℤ, eq_ℤ,
  if◌then◌else◌,
}
pub mod Calls
pub mod Linearizable

-- Where a thread stands in `LFUObjectApplyOp`: at the loop, with its argument; before the compare-and-swap,
-- with `old_state`, `new_state`, `ret_state` and, for the theorems alone, how many operations had taken
-- effect when it read the state; or with the value to return.
pub data Pc : Type 0 where
  idle : Pc
  loops : ℤ → Pc
  tries : ℤ → ℤ → ℤ → ℤ → ℕ → Pc
  returns : ℤ → Pc

-- `state` is `l->state.state`, `applied` how many operations have taken effect.
pub record System : Type 0 where
  pub state : ℤ
  pub applied : ℕ
  pub pc : ℕ → Pc

-- The call with its argument, what takes effect with argument and result, and the return with the value
-- returned
pub data Event : Type 0 where
  calls : ℕ → ℤ → Event
  applies : ℕ → ℤ → ℤ → Event
  answers : ℕ → ℤ → Event

-- What a thread is about: no call, an operation with an argument, or the return of a value
pub data Phase : Type 0 where
  resting : Phase
  running : ℤ → Phase
  answering : ℤ → Phase

abbrev pub thread_of : Event → ℕ
thread_of (calls i arg) = i
thread_of (applies i arg r) = i
thread_of (answers i r) = i

-- A thread's events, one after the other: a call takes effect once, with the argument it was called with,
-- and returns the result that it took effect with. `none` is any other order.
unfoldable pub move : Event → Phase → Option Phase
move (calls i arg) resting = some (running arg)
move (applies i arg r) (running a) = if eq_ℤ arg a then some (answering r) else none
move (answers i r) (answering v) = if eq_ℤ r v then some resting else none
move _ _ = none

-- What a thread is about where it stands
unfoldable pub phase : Pc → Phase
phase idle = resting
phase (loops arg) = running arg
phase (tries arg old new ret seen) = running arg
phase (returns r) = answering r

abbrev pub goes : System → ℕ → Pc → System
goes s i p = record s { pc = update s.pc i p }

-- `LFUObjectInit`
unfoldable pub object_init : ℤ → System
object_init value = record { state = value; applied = 0; pc = λ i. idle }

module _ (sfunc : ℤ → ℤ → ℕ → ℤ × ℤ) where
  -- `old_state = l->state`, and the call of `sfunc` on a copy of it
  unfoldable pub read_state : System → ℕ → ℤ → System
  read_state s i arg =
      let (ret, new) = sfunc s.state arg i in goes s i (tries arg s.state new ret s.applied)

  -- `synchCAS64(&l->state, old_state, new_state)`, and the loop again when it fails
  unfoldable pub cas_state : System → ℕ → ℤ → ℤ → ℤ → ℤ → List Event × System
  cas_state s i arg old new ret = elim (eq_ℤ s.state old) [
    | true ↦ (
      applies i arg ret ∷ [],
      record { state = new; applied = suc s.applied; pc = update s.pc i (returns ret) },
    )
    | false ↦ ([], goes s i (loops arg))
  ]

  -- The next shared access of thread i, with what takes effect at it
  unfoldable pub advance : System → ℕ → List Event × System
  advance s i = elim (s.pc i) [
    | idle ↦ ([], s)
    | loops arg ↦ ([], read_state s i arg)
    | tries arg old new ret seen ↦ cas_state s i arg old new ret
    | returns r ↦ (answers i r ∷ [], goes s i idle)
  ]

  pub data Step (s : System) (events : List Event) (t : System) : Type 0 where
    starts :
        (i : ℕ) (arg : ℤ)
        → s.pc i ≡ idle
        → events ≡ calls i arg ∷ []
        → t ≡ goes s i (loops arg)
        → Step s events t
    advances : (i : ℕ) → (events, t) ≡ advance s i → Step s events t

  -- The states that a run leads to, with all that took effect, the first event first
  pub data Reach (s : System) : List Event → System → Type 0 where
    here : Reach s [] s
    later :
        {past events : List Event} {t u : System}
        → Reach s past t
        → Step t events u
        → Reach s (past ++ events) u

  -- The operations one after the other on a state; `none` where one would have returned another value
  abbrev pub replay : List Event → ℤ → Option ℤ
  replay [] v = some v
  replay (calls i arg ∷ es) v = replay es v
  replay (answers i r ∷ es) v = replay es v
  replay (applies i arg r ∷ es) v =
      let (ret, t) = sfunc v arg i in if eq_ℤ r ret then replay es t else none
