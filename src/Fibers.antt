-- ===== src/Fibers.antt =====
-- libconcurrent/primitives/uthreads.c: the fibers of one thread.
--
-- The statics are a record. `job` tells what the context of a fiber runs: a function, by number, and
-- its argument. The stacks and the switch of contexts are not modelled: a switch sets `current`.
use sim_universal_constructi.Prelude.{
  ℕ, zero, suc, ◌+◌, ◌-◌, ◌%◌, ◌==◌, Bool, true, false, Option, none, some, update, ℤ, pos, negsuc,
}
pub mod Turns
pub mod Spawn
mod Tests

pub record Job : Type 0 where
  pub func : ℕ
  pub arg : ℤ

pub record Fibers : Type 0 where
  pub max_fibers : ℕ
  pub n_fibers : ℕ
  pub current : ℕ
  pub active : ℕ → Bool
  pub job : ℕ → Option Job

-- `synchInitFibers` of a thread whose statics have their initial values; fiber 0 is the thread itself.
unfoldable pub init_fibers : ℕ → Fibers
init_fibers max = record {
  max_fibers = max;
  n_fibers = 1;
  current = 0;
  active = λ i. i == 0;
  job = λ i. none;
}

-- `do current = (current + 1) % MAX_FIBERS while fiber current is not active`, on fuel
unfoldable pub next_active : ℕ → ℕ → (ℕ → Bool) → ℕ → Option ℕ
next_active zero max active current = none
next_active (suc fuel) max active current = elim (active ((current + 1) % max)) [
  | true ↦ some ((current + 1) % max)
  | false ↦ next_active fuel max active ((current + 1) % max)
]

unfoldable pub switch : ℕ → Fibers → Option Fibers
switch fuel f = elim (next_active fuel f.max_fibers f.active f.current) [
  | none ↦ none
  | some next ↦ some (record f { current = next })
]

-- `synchFiberYield`
unfoldable pub fiber_yield : ℕ → Fibers → Option Fibers
fiber_yield fuel f = elim (f.n_fibers == 1) [ true ↦ some f | false ↦ switch fuel f ]

-- `fiber_start_func`, from the return of the fiber's function on
unfoldable pub fiber_exit : ℕ → Fibers → Option Fibers
fiber_exit fuel f = elim (f.n_fibers == 1) [
  | true ↦ some f
  | false ↦
      switch fuel (record f { active = update f.active f.current false; n_fibers = f.n_fibers - 1 })
]

-- `synchSpawnFiber`
unfoldable pub spawn_fiber : Fibers → ℕ → ℤ → ℤ × Fibers
spawn_fiber f func arg = elim (f.n_fibers == f.max_fibers) [
  | true ↦ (negsuc 0, f)
  | false ↦ (
    pos 1,
    record f {
      active = update f.active f.n_fibers true;
      job = update f.job f.n_fibers (some (record { func = func; arg = arg }));
      n_fibers = f.n_fibers + 1;
    },
  )
]

unfoldable pub current_fiber_index : Fibers → ℕ
current_fiber_index f = f.current
