-- ===== src/Barrier/Phases.antt =====
-- The four phases of a barrier, which its steps lead through.
use sim_universal_constructi.Prelude.{
  ℕ, suc, ◌+◌, ◌-◌, ◌<◌, ◌^◌, ◌==◌, ◌≡◌, Bool, true, false, arith,
}
use sim_universal_constructi.Barrier.{
  Barrier, less_one, more_than_one, Pc, outside, waits_arrive, resets_arrive, raises_leave,
  clears_arrive, between, waits_leave, resets_leave, raises_arrive, clears_leave, System,
}
use sim_universal_constructi.Barrier.Count.{count}

abbrev pub at_arrive : Pc → Bool
at_arrive waits_arrive = true
at_arrive _ = false

abbrev pub at_leave : Pc → Bool
at_leave waits_leave = true
at_leave _ = false

-- A thread while the threads gather for round r, by its calls
abbrev pub Gathers : ℕ → Bool → Pc → ℕ → Type 0
Gathers r leave_flag outside c = c ≡ r
Gathers r leave_flag waits_arrive c = c ≡ suc r
Gathers r leave_flag waits_leave c = (c ≡ r) × (leave_flag ≡ false)
Gathers r leave_flag _ c = true ≡ false

-- The last thread to arrive, before each of its stores
abbrev pub Opens : ℕ → Barrier → Pc → Type 0
Opens n b resets_arrive = (b.arrive_flag ≡ true) × (b.leave ≡ n)
Opens n b raises_leave = (b.arrive_flag ≡ true) × (b.leave ≡ n) × (b.arrive ≡ n)
Opens n b clears_arrive =
    (b.arrive_flag ≡ true) × (b.leave ≡ n) × (b.arrive ≡ n) × (b.leave_flag ≡ true)
Opens n b _ = true ≡ false

-- A thread while the threads scatter
abbrev pub Scatters : Pc → Type 0
Scatters waits_arrive = Unit
Scatters between = Unit
Scatters waits_leave = Unit
Scatters _ = true ≡ false

-- The last thread to leave, before each of its stores
abbrev pub Closes : ℕ → Barrier → Pc → Type 0
Closes n b resets_leave = (b.leave_flag ≡ true) × (b.arrive ≡ n) × (b.arrive_flag ≡ false)
Closes n b raises_arrive = (b.leave_flag ≡ true) × (b.arrive ≡ n) × (b.leave ≡ n)
Closes n b clears_leave =
    (b.leave_flag ≡ true) × (b.arrive ≡ n) × (b.leave ≡ n) × (b.arrive_flag ≡ true)
Closes n b _ = true ≡ false

pub data Phase (n : ℕ) (s : System) : Type 0 where
  gathering :
      (r : ℕ)
      → s.bar.arrive_flag ≡ true
      → s.bar.leave ≡ n
      → ((j : ℕ) → j < n → Gathers r s.bar.leave_flag (s.pc j) (s.calls j))
      → s.bar.arrive + count at_arrive s.pc n ≡ n
      → 0 < s.bar.arrive
      → Phase n s
  opening :
      (r k : ℕ)
      → k < n
      → ((j : ℕ) → j < n → (k == j) ≡ false → s.pc j ≡ waits_arrive)
      → ((j : ℕ) → j < n → s.calls j ≡ suc r)
      → Opens n s.bar (s.pc k)
      → Phase n s
  scattering :
      (r : ℕ)
      → s.bar.arrive_flag ≡ false
      → s.bar.leave_flag ≡ true
      → s.bar.arrive ≡ n
      → ((j : ℕ) → j < n → Scatters (s.pc j))
      → ((j : ℕ) → j < n → s.calls j ≡ suc r)
      → s.bar.leave + count at_leave s.pc n ≡ n
      → 0 < s.bar.leave
      → Phase n s
  closing :
      (r k : ℕ)
      → k < n
      → ((j : ℕ) → j < n → (k == j) ≡ false → s.pc j ≡ waits_leave)
      → ((j : ℕ) → j < n → s.calls j ≡ suc r)
      → Closes n s.bar (s.pc k)
      → Phase n s

pub record Inv (n : ℕ) (s : System) : Type 0 where
  pub val : s.bar.val_at_set ≡ n
  pub phase : Phase n s

pub less_one_lem : (w : ℕ) → 0 < w → w < 2 ^ 31 → less_one w ≡ w - 1
less_one_lem w pos small = omega arith

pub more_lem : (w : ℕ) → 1 < w → w < 2 ^ 31 → more_than_one w ≡ true
more_lem w more small = ground arith
