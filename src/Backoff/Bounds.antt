-- ===== src/Backoff/Bounds.antt =====
-- The counter of a backoff is always a word of ones, whose length stays between two bounds.
use Prim.Native.Nat.{bit_and, min, max}
use native.Mathlib.Nat.{mod-add-mod, mod-eq_of_lt}
use sim_universal_constructi.Prelude.{
  ℕ, ◌+◌, ◌-◌, ◌*◌, ◌/◌, ◌%◌, ◌^◌, ◌≤◌, ◌≡◌, refl, true, false, arith, ap, ◌∙◌, ltb, if◌then◌else◌,
}
use sim_universal_constructi.Prelude.Bits.{bit_and-mask}
use sim_universal_constructi.Prelude.Powers.{
  pow_mono, ones-mod, ones_shift, ones_unshift, clip_min, clip_max,
}
use sim_universal_constructi.Backoff.{
  Backoff, ones, init_backoff, reset_backoff, backoff_delay, backoff_reduce, backoff_increase,
}

-- The settings that the library makes: 2 ^ base_bits - 1 and so on, and `n` ones in the counter.
pub record HasOnes (n : ℕ) (b : Backoff) : Type 0 where
  pub ordered : b.base_bits ≤ b.cap_bits
  pub narrow : b.cap_bits ≤ 31
  pub step : b.shift_bits ≤ 31
  pub base : b.base ≡ 2 ^ b.base_bits - 1
  pub cap : b.cap ≡ 2 ^ b.cap_bits - 1
  pub addend : b.addend ≡ 2 ^ b.shift_bits - 1
  pub counter : b.backoff ≡ 2 ^ n - 1
  pub lower : b.base_bits ≤ n
  pub upper : n ≤ b.cap_bits

ones_lem : (n : ℕ) → n ≤ 31 → ones n ≡ 2 ^ n - 1
ones_lem n h = mod-eq_of_lt (omega (arith, pow_mono n 31 h))

-- `synchInitBackoff` with a base of at most as many bits as the cap, and cap and shift of at most
-- 31 bits, sets the counter to its lower bound.
pub init_backoff-HasOnes :
    (base_bits cap_bits shift_bits : ℕ)
    → base_bits ≤ cap_bits
    → cap_bits ≤ 31
    → shift_bits ≤ 31
    → HasOnes base_bits (init_backoff base_bits cap_bits shift_bits)
unfolding init_backoff
init_backoff-HasOnes base_bits cap_bits shift_bits h k l = record {
  ordered = h;
  narrow = k;
  step = l;
  base = ones_lem base_bits (omega arith);
  cap = ones_lem cap_bits k;
  addend = ones_lem shift_bits l;
  counter = ones_lem base_bits (omega arith);
  lower = omega arith;
  upper = h;
}

-- What shifting ones into the counter gives, in 32 bits.
shift_ones :
    (n s : ℕ) → ((2 ^ n - 1) * 2 ^ s % 2 ^ 32 + (2 ^ s - 1)) % 2 ^ 32 ≡ 2 ^ min (n + s) 32 - 1
shift_ones n s =
    mod-add-mod ((2 ^ n - 1) * 2 ^ s) (2 ^ 32) (2 ^ s - 1)
    ∙ ap (λ (x : ℕ). x % 2 ^ 32) (ones_shift n s)
    ∙ ones-mod (n + s) 32

module _ {n : ℕ} {b : Backoff} (h : HasOnes n b) where
  open h use {ordered, narrow, step, base, cap, addend, counter, lower, upper}

  -- The settings do not change, so a new counter is all that has to be justified.
  with_counter :
      (m x : ℕ)
      → x ≡ 2 ^ m - 1
      → b.base_bits ≤ m
      → m ≤ b.cap_bits
      → HasOnes m (record b { backoff = x })
  with_counter m x e lo hi = record {
    ordered = ordered;
    narrow = narrow;
    step = step;
    base = base;
    cap = cap;
    addend = addend;
    counter = e;
    lower = lo;
    upper = hi;
  }

  abbrev shifted : ℕ
  shifted = (b.backoff * 2 ^ b.shift_bits % 2 ^ 32 + b.addend) % 2 ^ 32

  shifted_ones : shifted ≡ 2 ^ min (n + b.shift_bits) 32 - 1
  shifted_ones = rw (counter, addend) (shift_ones n b.shift_bits)

  masked : bit_and shifted b.cap ≡ 2 ^ min (n + b.shift_bits) b.cap_bits - 1
  masked =
      rw (cap, shifted_ones, bit_and-mask b.cap_bits _, ones-mod _ b.cap_bits)
        (let e : min (min (n + b.shift_bits) 32) b.cap_bits ≡ min (n + b.shift_bits) b.cap_bits =
            omega arith in
          ap (λ (k : ℕ). 2 ^ k - 1) e)

  cut : (m : ℕ) → min (min m 32) b.cap_bits ≡ min m b.cap_bits
  cut m = omega arith

  increased :
      (if ltb b.cap shifted then b.cap else shifted) ≡ 2 ^ min (n + b.shift_bits) b.cap_bits - 1
  increased = rw (cap, shifted_ones, ← cut (n + b.shift_bits)) (clip_min _ b.cap_bits)

  reduced :
      (if ltb (b.backoff / 2 ^ b.shift_bits) b.base then b.base else b.backoff / 2 ^ b.shift_bits)
      ≡ 2 ^ max (n - b.shift_bits) b.base_bits - 1
  reduced = rw (counter, base, ones_unshift n b.shift_bits) (clip_max _ b.base_bits)

  -- `synchBackoffDelay` of a counter of n ones within its bounds makes it `shift_bits` longer, up
  -- to the cap, unless the system is oversubscribed, when it leaves the counter.
  pub backoff_delay-HasOnes :
      HasOnes (min (n + b.shift_bits) b.cap_bits) (backoff_delay false b)
      × (backoff_delay true b ≡ b)
  unfolding backoff_delay
  backoff_delay-HasOnes = (with_counter _ _ masked (omega arith) (omega arith), refl)

  -- `synchBackoffIncrease` does the same by a comparison instead of a mask.
  pub backoff_increase-HasOnes : HasOnes (min (n + b.shift_bits) b.cap_bits) (backoff_increase b)
  unfolding backoff_increase
  backoff_increase-HasOnes = with_counter _ _ increased (omega arith) (omega arith)

  -- `synchBackoffReduce` of a counter of n ones within its bounds makes it `shift_bits` shorter,
  -- down to the base.
  pub backoff_reduce-HasOnes : HasOnes (max (n - b.shift_bits) b.base_bits) (backoff_reduce b)
  unfolding backoff_reduce
  backoff_reduce-HasOnes = with_counter _ _ reduced (omega arith) (omega arith)

  pub reset_backoff-HasOnes : HasOnes b.base_bits (reset_backoff b)
  unfolding reset_backoff
  reset_backoff-HasOnes = with_counter _ _ base (omega arith) ordered
