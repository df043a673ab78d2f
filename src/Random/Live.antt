-- ===== src/Random/Live.antt =====
-- The multiply-with-carry generators never reach a state that they cannot leave.
use sim_universal_constructi.Prelude.{ℕ, ◌^◌, ◌<◌, ◌≢◌, arith}
use sim_universal_constructi.Prelude.Bits.{bit_and-mask}
use sim_universal_constructi.Random.{Generator, fast_random, fast_random32, set_seed}

-- Both halves are 32-bit words other than 0 and the fixed point of their map. The second half also
-- stays below 2 ^ 31, which keeps it off the two further words that the map sends to its fixed point.
pub record IsLive (g : Generator) : Type 0 where
  pub z_pos : g.next_z ≢ 0
  pub z_moves : g.next_z ≢ 0x9068ffff
  pub z_fits : g.next_z < 2 ^ 32
  pub w_pos : g.next_w ≢ 0
  pub w_moves : g.next_w ≢ 0x464fffff
  pub w_fits : g.next_w < 2 ^ 31

-- Every 32-bit seed gives a live state.
pub set_seed-IsLive : (g : Generator) (seed : ℕ) → seed < 2 ^ 32 → IsLive (set_seed g seed)
unfolding set_seed
set_seed-IsLive g seed h = ground arith

-- A live state stays live, and the number drawn is a 32-bit word.
pub fast_random32-IsLive :
    (g : Generator) → IsLive g → IsLive (fast_random32 g).0 × ((fast_random32 g).1 < 2 ^ 32)
unfolding fast_random32
fast_random32-IsLive g v = (
  record {
    z_pos = λ e. omega (arith, bit_and-mask 16 g.next_z);
    z_moves = λ e. omega (arith, bit_and-mask 16 g.next_z);
    z_fits = omega (arith, bit_and-mask 16 g.next_z);
    w_pos = λ e. omega (arith, bit_and-mask 16 g.next_w);
    w_moves = λ e. omega (arith, bit_and-mask 16 g.next_w);
    w_fits = omega (arith, bit_and-mask 16 g.next_w);
  },
  omega arith,
)

-- `synchFastRandom` draws numbers below 32768, from any state.
pub fast_random-lt : (g : Generator) → (fast_random g).1 < 32768
unfolding fast_random
fast_random-lt g = omega arith
