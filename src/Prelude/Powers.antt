-- ===== src/Prelude/Powers.antt =====
-- Powers of two, and remainders by them.
use Prim.Native.Nat.{ℕ, zero, suc, ◌+◌, ◌-◌, ◌*◌, ◌/◌, ◌%◌, ◌^◌, ◌≤◌, ◌<◌, min, max}
use mathlib.Core.Path.{◌≡◌, ap}
use mathlib.Core.Logic.{◌⊎◌, inl, inr}
use native.Mathlib.Nat.{
  pow-suc, one-le-pow, mod-eq_of_lt, pow-le-pow_right, mul-add-mod_self_right, div-eq_of_lt,
  mul-add-div_right,
}
use native.Mathlib.Omega.{arith}
use sim_universal_constructi.Prelude.Tests.{ltb, if◌then◌else◌}

le_or_lt : (a b : ℕ) → (a ≤ b) ⊎ (b < a)
le_or_lt a b = omega arith

pub pow_pos : (k : ℕ) → 1 ≤ 2 ^ k
pow_pos k = one-le-pow k 2 (omega arith)

pub pow_add : (k s : ℕ) → 2 ^ (k + s) ≡ 2 ^ k * 2 ^ s
pow_add k zero = let e : k + 0 ≡ k = omega arith in rw e (omega arith)
pow_add k (suc s) =
    let e : k + suc s ≡ suc (k + s) = omega arith in
    omega (
      arith,
      ap (λ (n : ℕ). 2 ^ n) e,
      pow-suc 2 (k + s),
      pow-suc 2 s,
      pow_add k s,
      ap (λ (n : ℕ). 2 ^ k * n) (pow-suc 2 s),
    )

pub pow_mono : (k s : ℕ) → k ≤ s → 2 ^ k ≤ 2 ^ s
pow_mono k s h = pow-le-pow_right (omega arith) h

-- A word of k ones, shifted left by s with ones shifted in.
pub ones_shift : (k s : ℕ) → (2 ^ k - 1) * 2 ^ s + (2 ^ s - 1) ≡ 2 ^ (k + s) - 1
ones_shift k s = omega (
  arith,
  pow_add k s,
  pow_pos k,
  pow_pos s,
  ap (λ (n : ℕ). n * 2 ^ s) (let e : 2 ^ k ≡ suc (2 ^ k - 1) = omega (arith, pow_pos k) in e),
)

-- A word of a ones, cut to c bits, is a word of min a c ones.
pub ones-mod : (a c : ℕ) → (2 ^ a - 1) % 2 ^ c ≡ 2 ^ min a c - 1
ones-mod a c = elim (le_or_lt a c) [
  | inl h ↦
      let e : min a c ≡ a = omega arith in
      rw e (mod-eq_of_lt (omega (arith, pow_mono a c h, pow_pos a)))
  | inr h ↦
      let e : min a c ≡ c = omega arith in
      let d : a - c + c ≡ a = omega arith in
      rw
        (
          e,
          ← d,
          ← ones_shift (a - c) c,
          mul-add-mod_self_right (2 ^ (a - c) - 1) (2 ^ c) (2 ^ c - 1),
        )
        (mod-eq_of_lt (omega (arith, pow_pos c)))
]

-- A word of k ones, shifted right by s.
pub ones_unshift : (k s : ℕ) → (2 ^ k - 1) / 2 ^ s ≡ 2 ^ (k - s) - 1
ones_unshift k s = elim (le_or_lt s k) [
  | inl h ↦
      let d : k - s + s ≡ k = omega arith in
      let whole : 2 ^ k - 1 ≡ (2 ^ (k - s) - 1) * 2 ^ s + (2 ^ s - 1) =
        omega (arith, ones_shift (k - s) s, ap (λ (n : ℕ). 2 ^ n) d) in
      omega (
        arith,
        ap (λ (n : ℕ). n / 2 ^ s) whole,
        mul-add-div_right (pow_pos s) (2 ^ (k - s) - 1) (2 ^ s - 1),
        div-eq_of_lt {n = 2 ^ s - 1} {m = 2 ^ s} (omega (arith, pow_pos s)),
      )
  | inr h ↦
      let e : k - s ≡ 0 = omega arith in
      rw e (div-eq_of_lt (omega (arith, pow_mono k s (omega arith), pow_pos k)))
]

-- The smaller and the larger of two words of ones.
pub clip_min :
    (a c : ℕ) → (if ltb (2 ^ c - 1) (2 ^ a - 1) then 2 ^ c - 1 else 2 ^ a - 1) ≡ 2 ^ min a c - 1
clip_min a c = elim (le_or_lt a c) [
  | inl h ↦ let e : min a c ≡ a = omega arith in rw e (ground (arith, pow_mono a c h, pow_pos a))
  | inr h ↦
      let e : min a c ≡ c = omega arith in
      rw e (ground (arith, pow_mono c a (omega arith), pow_pos c))
]

pub clip_max :
    (a c : ℕ) → (if ltb (2 ^ a - 1) (2 ^ c - 1) then 2 ^ c - 1 else 2 ^ a - 1) ≡ 2 ^ max a c - 1
clip_max a c = elim (le_or_lt a c) [
  | inl h ↦ let e : max a c ≡ c = omega arith in rw e (ground (arith, pow_mono a c h, pow_pos a))
  | inr h ↦
      let e : max a c ≡ a = omega arith in
      rw e (ground (arith, pow_mono c a (omega arith), pow_pos c))
]
