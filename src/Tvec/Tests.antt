-- ===== src/Tvec/Tests.antt =====
-- Runs of the toggle vectors, of two threads.
use Prim.Native.Nat.{min, max}
use sim_universal_constructi.Prelude.{
  ℕ, zero, suc, ◌+◌, ◌-◌, ◌%◌, ◌^◌, ◌<◌, ◌==◌, ◌≡◌, refl, List, [], ◌∷◌, arith, if◌then◌else◌,
}
use sim_universal_constructi.Prelude.Bits.{bit}
use sim_universal_constructi.Tvec.{ToggleVector, cell_at, xor, and, or}
use sim_universal_constructi.Tvec.View.{toggle, HasCells, toggle-bitwise}
use sim_universal_constructi.Tvec.Toggle.{
  Announcer, announce, InStep, announce_flips, announce-InStep,
}
use sim_universal_constructi.Tvec.Scan.{Visits, times-scan}

abbrev vector : ℕ → ToggleVector
vector x = record { nthreads = 2; tvec_cells = 1; cell = x ∷ [] }

vector-HasCells : (x : ℕ) → HasCells 2 (vector x)
vector-HasCells x = record { threads = refl; count = refl; room = refl }

-- Thread 0, whose bit of the shared vector is clear
abbrev first : Announcer
first = record { my_bit = vector 1; toggle_vec = vector (2 ^ 64 - 1) }

shared_fits : (i : ℕ) → cell_at (vector 2) i < 2 ^ 64
shared_fits zero = omega arith
shared_fits (suc i) = omega arith

first-InStep : InStep 2 0 first (vector 2)
unfolding toggle bit
first-InStep = record {
  mine = vector-HasCells 1;
  summand = vector-HasCells (2 ^ 64 - 1);
  ours = vector-HasCells 2;
  agree = refl;
  sign = refl;
  fits = shared_fits;
}

announce_flips_example :
    toggle (announce 2 0 first (vector 2)).1 1
    ≡ (if 0 == 1 then 1 - toggle (vector 2) 0 else toggle (vector 2) 1)
announce_flips_example =
    announce_flips {n = 2} {p = 0} {th = first} {shared = vector 2} (omega arith) first-InStep 1

announce-InStep_example :
    InStep 2 0 (announce 2 0 first (vector 2)).0 (announce 2 0 first (vector 2)).1
announce-InStep_example =
    announce-InStep {n = 2} {p = 0} {th = first} {shared = vector 2} (omega arith) first-InStep

toggle-bitwise_example :
    (toggle (xor (vector 0) (vector 1) (vector 3)) 1
      ≡ (toggle (vector 1) 1 + toggle (vector 3) 1) % 2)
    × (toggle (and (vector 0) (vector 1) (vector 3)) 1
        ≡ min (toggle (vector 1) 1) (toggle (vector 3) 1))
    × (toggle (or (vector 0) (vector 1) (vector 3)) 1
        ≡ max (toggle (vector 1) 1) (toggle (vector 3) 1))
toggle-bitwise_example =
    toggle-bitwise {n = 2} {v = vector 0} (vector-HasCells 0) (vector 1) (vector 3) 1 (omega arith)

times-scan_example : (ps : List ℕ) × Visits 65 6 ps
times-scan_example = times-scan 6 (omega arith)
