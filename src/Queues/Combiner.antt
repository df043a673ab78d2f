-- ===== src/Queues/Combiner.antt =====
-- What the queues, stacks and hash tables ask of a combining object: when no thread is at work, an
-- operation that is applied through it takes the effect, and returns the result, of the serial function run
-- once, and again no thread is at work.
use sim_universal_constructi.Prelude.{ℕ, ◌<◌, ◌≡◌, refl, Option, none, some, ℤ}

abbrev pub Serial : Type 0 → Type 0
Serial S = S → ℤ → ℕ → Option (ℤ × S)

pub record Combiner : Type 1 where
  pub Sync : Type 0
  pub Ready : Sync → Type 0
  pub struct_init : ℕ → Sync
  pub init_ready : (nthreads : ℕ) → 0 < nthreads → Ready (struct_init nthreads)
  pub apply_op : (S : Type 0) → Serial S → Sync → S → ℤ → ℕ → Option (ℤ × Sync × S)
  pub applies :
      (S : Type 0) (f : Serial S) (y : Sync) (s t : S) (arg r : ℤ) (pid : ℕ)
      → Ready y
      → f s arg pid ≡ some (r, t)
      → (y' : Sync) × (apply_op S f y s arg pid ≡ some (r, y', t)) × Ready y'

-- The combining object of one thread: it runs the function at once.
abbrev pub alone : Combiner
alone = record {
  Sync = Unit;
  Ready = λ _. Unit;
  struct_init = λ _. tt;
  init_ready = λ _ _. tt;
  apply_op = λ S f y s arg pid. elim (f s arg pid) [ none ↦ none | some (r, t) ↦ some (r, y, t) ];
  applies = λ S f y s t arg r pid ready e. (y, rw e refl, tt);
}
