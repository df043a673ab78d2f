-- ===== src/Backoff.antt =====
-- libconcurrent/primitives/backoff.c: exponential backoff on 32-bit unsigned counters.
--
-- `oversubscribed` is what `synchIsSystemOversubscribed` returns; the empty wait loop and
-- `sched_yield` leave no trace in the state.
pub mod Bounds
mod Tests
use Prim.Native.Nat.{bit_and}
use sim_universal_constructi.Prelude.{ℕ, ◌+◌, ◌-◌, ◌*◌, ◌/◌, ◌%◌, ◌^◌, Bool, ltb, if◌then◌else◌}

-- SynchBackoffStruct
pub record Backoff : Type 0 where
  pub backoff : ℕ
  pub base_bits : ℕ
  pub cap_bits : ℕ
  pub shift_bits : ℕ
  pub base : ℕ
  pub cap : ℕ
  pub addend : ℕ

-- `(1 << bits) - 1` as an `unsigned`
abbrev pub ones : ℕ → ℕ
ones bits = (2 ^ bits - 1) % 2 ^ 32

unfoldable pub init_backoff : ℕ → ℕ → ℕ → Backoff
init_backoff base_bits cap_bits shift_bits = record {
  backoff = ones base_bits;
  base_bits = base_bits;
  cap_bits = cap_bits;
  shift_bits = shift_bits;
  base = ones base_bits;
  cap = ones cap_bits;
  addend = ones shift_bits;
}

unfoldable pub reset_backoff : Backoff → Backoff
reset_backoff b = record b { backoff = b.base }

abbrev shift_in : Backoff → ℕ
shift_in b = (b.backoff * 2 ^ b.shift_bits % 2 ^ 32 + b.addend) % 2 ^ 32

unfoldable pub backoff_delay : Bool → Backoff → Backoff
backoff_delay oversubscribed b =
    if oversubscribed then b else record b { backoff = bit_and (shift_in b) b.cap }

unfoldable pub backoff_reduce : Backoff → Backoff
backoff_reduce b =
    let less = b.backoff / 2 ^ b.shift_bits in
    record b { backoff = if ltb less b.base then b.base else less }

unfoldable pub backoff_increase : Backoff → Backoff
backoff_increase b =
    let more = shift_in b in record b { backoff = if ltb b.cap more then b.cap else more }
