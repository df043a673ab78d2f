-- ===== src/Backoff/Tests.antt =====
-- Runs of the backoff.
use Prim.Native.Nat.{min}
use sim_universal_constructi.Prelude.{◌+◌, ◌≡◌, true, false, arith}
use sim_universal_constructi.Backoff.{Backoff, init_backoff, backoff_delay}
use sim_universal_constructi.Backoff.Bounds.{HasOnes, init_backoff-HasOnes, backoff_delay-HasOnes}

abbrev fresh : Backoff
fresh = init_backoff 2 5 1

fresh-HasOnes : HasOnes 2 fresh
fresh-HasOnes = init_backoff-HasOnes 2 5 1 (omega arith) (omega arith) (omega arith)

backoff_delay-HasOnes_example :
    HasOnes (min (2 + fresh.shift_bits) fresh.cap_bits) (backoff_delay false fresh)
    × (backoff_delay true fresh ≡ fresh)
backoff_delay-HasOnes_example = backoff_delay-HasOnes {n = 2} {b = fresh} fresh-HasOnes
