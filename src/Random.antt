-- ===== src/Random.antt =====
-- libconcurrent/primitives/fastrand.c: the pseudo-random generators of a thread.
--
-- `long` is 64 bits wide and kept as its bit pattern, a number below 2 ^ 64; `uint32_t` is a number
-- below 2 ^ 32. The product of `synchFastRandom` wraps as it does on the machines that the library
-- builds for. The two `Range` functions work on doubles and are not modelled.
pub mod Live
use Prim.Native.Nat.{bit_and}
use sim_universal_constructi.Prelude.{
  ℕ, ◌+◌, ◌-◌, ◌*◌, ◌/◌, ◌%◌, ◌^◌, ◌<◌, ◌≡◌, Bool, ◌||◌, arith, ltb, ◌==◌, if◌then◌else◌,
}

pub record Generator : Type 0 where
  pub next : ℕ
  pub next_z : ℕ
  pub next_w : ℕ

abbrev pub start : Generator
start = record { next = 1; next_z = 2; next_w = 2 }

-- `(unsigned)(x / 65536)` of a signed 64-bit x: the quotient is rounded towards zero.
unfoldable pub high_half : ℕ → ℕ
high_half x =
    if ltb x (2 ^ 63) then x / 65536 % 2 ^ 32 else (2 ^ 32 - (2 ^ 64 - x) / 65536 % 2 ^ 32) % 2 ^ 32

unfoldable pub fast_random : Generator → Generator × ℕ
unfolding high_half
fast_random g =
    let x = (g.next * 1103515245 + 12345) % 2 ^ 64 in (record g { next = x }, high_half x % 32768)

-- One half of `synchFastRandom32`, with multiplier m.
unfoldable pub carry : ℕ → ℕ → ℕ
carry m x = (m * bit_and x 65535 + x / 2 ^ 16) % 2 ^ 32

unfoldable pub fast_random32 : Generator → Generator × ℕ
unfolding carry
fast_random32 g =
    let z = carry 36969 g.next_z in
    let w = carry 18000 g.next_w in
    (record g { next_z = z; next_w = w }, (z * 2 ^ 16 % 2 ^ 32 + w) % 2 ^ 32)

unfoldable pub set_seed : Generator → ℕ → Generator
set_seed g seed =
    let z = seed in
    let w = seed / 2 in
    record g {
      next = seed;
      next_z = if (z == 0) || (z == 0x9068ffff) then (z + 1) % 2 ^ 32 else z;
      next_w = if (w == 0) || (w == 0x464fffff) then (w + 1) % 2 ^ 32 else w;
    }
