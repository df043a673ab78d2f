-- ===== src/Prelude/Bits.antt =====
-- Bits of native numbers: `bit k x` is bit k of x, and what `&`, `|`, `^`, `+` and `-` do to it.
use Prim.Native.Nat.{ℕ, zero, suc, ◌+◌, ◌-◌, ◌*◌, ◌/◌, ◌%◌, ◌^◌, ◌≤◌, ◌<◌, min, max}
use Prim.Native.Nat.{
  bit_and, bit_or, bit_xor, digits, bit_and-bitwise, bit_or-bitwise, bit_xor-bitwise, differ,
}
use mathlib.Core.Path.{◌≡◌, refl, ap, sym, ◌∙◌}
use native.Mathlib.Nat.{pow-suc, one-le-pow, div-div-eq-div-mul, div-add-mod}
use native.Mathlib.Omega.{arith}
use sim_universal_constructi.Prelude.Tests.{◌==◌, if◌then◌else◌}

unfoldable pub bit : ℕ → ℕ → ℕ
bit zero x = x % 2
bit (suc k) x = bit k (x / 2)

-- The digits of an operation do not depend on fuel that covers the number.
module _ (rest : ℕ → ℕ) (op : ℕ → ℕ → ℕ) where
  enough : (n m a b : ℕ) → a ≤ n → a ≤ m → digits rest op n a b ≡ digits rest op m a b
  enough zero zero a b p q = refl
  enough zero (suc m) zero b p q = refl
  enough zero (suc m) (suc a) b p q = absurd (omega arith)
  enough (suc n) zero zero b p q = refl
  enough (suc n) zero (suc a) b p q = absurd (omega arith)
  enough (suc n) (suc m) zero b p q = refl
  enough (suc n) (suc m) (suc a) b p q =
      omega (arith, enough n m (suc a / 2) (b / 2) (omega arith) (omega arith))

-- One equation for the lowest digit of each operation.
xor_digit : (a b : ℕ) → bit_xor a b ≡ bit_xor (a / 2) (b / 2) * 2 + differ (a % 2) (b % 2)
xor_digit zero b = omega (arith, bit_xor-bitwise 0 b, bit_xor-bitwise 0 (b / 2))
xor_digit (suc a) b = omega (
  arith,
  bit_xor-bitwise (suc a) b,
  bit_xor-bitwise (suc a / 2) (b / 2),
  enough (λ r. r) differ a (suc a / 2) (suc a / 2) (b / 2) (omega arith) (omega arith),
)

or_digit : (a b : ℕ) → bit_or a b ≡ bit_or (a / 2) (b / 2) * 2 + max (a % 2) (b % 2)
or_digit zero b = omega (arith, bit_or-bitwise 0 b, bit_or-bitwise 0 (b / 2))
or_digit (suc a) b = omega (
  arith,
  bit_or-bitwise (suc a) b,
  bit_or-bitwise (suc a / 2) (b / 2),
  enough (λ r. r) max a (suc a / 2) (suc a / 2) (b / 2) (omega arith) (omega arith),
)

and_digit : (a b : ℕ) → bit_and a b ≡ bit_and (a / 2) (b / 2) * 2 + min (a % 2) (b % 2)
and_digit zero b = omega (arith, bit_and-bitwise 0 b, bit_and-bitwise 0 (b / 2))
and_digit (suc a) b = omega (
  arith,
  bit_and-bitwise (suc a) b,
  bit_and-bitwise (suc a / 2) (b / 2),
  enough (λ r. 0) min a (suc a / 2) (suc a / 2) (b / 2) (omega arith) (omega arith),
)

differ_bits : (x y : ℕ) → x < 2 → y < 2 → differ x y ≡ (x + y) % 2
differ_bits zero y p q = omega arith
differ_bits (suc zero) zero p q = refl
differ_bits (suc zero) (suc y) p q = omega arith
differ_bits (suc (suc x)) y p q = absurd (omega arith)

half_xor : (a b : ℕ) → bit_xor a b / 2 ≡ bit_xor (a / 2) (b / 2)
half_xor a b = omega (arith, xor_digit a b, differ_bits (a % 2) (b % 2) (omega arith) (omega arith))

half_or : (a b : ℕ) → bit_or a b / 2 ≡ bit_or (a / 2) (b / 2)
half_or a b = omega (arith, or_digit a b)

half_and : (a b : ℕ) → bit_and a b / 2 ≡ bit_and (a / 2) (b / 2)
half_and a b = omega (arith, and_digit a b)

pub bit-lt : (k x : ℕ) → bit k x < 2
unfolding bit
bit-lt zero x = omega arith
bit-lt (suc k) x = bit-lt k (x / 2)

-- Each bit of an operation's result depends on that bit of its arguments alone.
pub bit-xor : (k a b : ℕ) → bit k (bit_xor a b) ≡ (bit k a + bit k b) % 2
unfolding bit
bit-xor zero a b =
    omega (arith, xor_digit a b, differ_bits (a % 2) (b % 2) (omega arith) (omega arith))
bit-xor (suc k) a b = ap (bit k) (half_xor a b) ∙ bit-xor k (a / 2) (b / 2)

pub bit-or : (k a b : ℕ) → bit k (bit_or a b) ≡ max (bit k a) (bit k b)
unfolding bit
bit-or zero a b = omega (arith, or_digit a b)
bit-or (suc k) a b = ap (bit k) (half_or a b) ∙ bit-or k (a / 2) (b / 2)

pub bit-and : (k a b : ℕ) → bit k (bit_and a b) ≡ min (bit k a) (bit k b)
unfolding bit
bit-and zero a b = omega (arith, and_digit a b)
bit-and (suc k) a b = ap (bit k) (half_and a b) ∙ bit-and k (a / 2) (b / 2)

pub bit-zero : (k : ℕ) → bit k 0 ≡ 0
unfolding bit
bit-zero zero = refl
bit-zero (suc k) = bit-zero k

half_pow : (k : ℕ) → 2 ^ suc k / 2 ≡ 2 ^ k
half_pow k = omega (arith, pow-suc 2 k)

-- The word with bit k alone.
pub bit-pow : (j k : ℕ) → bit j (2 ^ k) ≡ (if j == k then 1 else 0)
unfolding bit
bit-pow zero zero = refl
bit-pow zero (suc k) = ground (arith, pow-suc 2 k)
bit-pow (suc j) zero = ground (arith, bit-zero j)
bit-pow (suc j) (suc k) = ap (bit j) (half_pow k) ∙ (ground (arith, bit-pow j k))

bit-le : (k x : ℕ) → bit k x ≡ 1 → 2 ^ k ≤ x
unfolding bit
bit-le zero x h = omega arith
bit-le (suc k) x h = omega (arith, bit-le k (x / 2) h, pow-suc 2 k)

-- Adding 2 ^ k to a word whose bit k is clear sets that bit, and no carry reaches another.
pub bit-add_pow : (j k x : ℕ) → bit k x ≡ 0 → bit j (x + 2 ^ k) ≡ (if j == k then 1 else bit j x)
unfolding bit
bit-add_pow zero zero x h = omega arith
bit-add_pow (suc j) zero x h =
    let e : (x + 1) / 2 ≡ x / 2 = omega arith in ground (arith, ap (bit j) e)
bit-add_pow zero (suc k) x h = ground (arith, pow-suc 2 k)
bit-add_pow (suc j) (suc k) x h =
    let e : (x + 2 ^ suc k) / 2 ≡ x / 2 + 2 ^ k = omega (arith, pow-suc 2 k) in
    ap (bit j) e ∙ ground (arith, bit-add_pow j k (x / 2) h)

-- Subtracting 2 ^ k from a word whose bit k is set clears that bit, and borrows from no other.
pub bit-sub_pow : (j k x : ℕ) → bit k x ≡ 1 → bit j (x - 2 ^ k) ≡ (if j == k then 0 else bit j x)
unfolding bit
bit-sub_pow zero zero x h = omega arith
bit-sub_pow (suc j) zero x h =
    let e : (x - 1) / 2 ≡ x / 2 = omega arith in ground (arith, ap (bit j) e)
bit-sub_pow zero (suc k) x h = ground (arith, pow-suc 2 k, bit-le (suc k) x h)
bit-sub_pow (suc j) (suc k) x h =
    let e : (x - 2 ^ suc k) / 2 ≡ x / 2 - 2 ^ k = omega (arith, pow-suc 2 k) in
    ap (bit j) e ∙ ground (arith, bit-sub_pow j k (x / 2) h)

pub pow-le_of_bit : (k x : ℕ) → bit k x ≡ 1 → 2 ^ k ≤ x
pow-le_of_bit k x h = bit-le k x h

-- Setting a clear bit of a w-bit word leaves it a w-bit word.
pub add_pow-lt : (w k x : ℕ) → k < w → x < 2 ^ w → bit k x ≡ 0 → x + 2 ^ k < 2 ^ w
unfolding bit
add_pow-lt zero k x p q h = absurd (omega arith)
add_pow-lt (suc w) zero x p q h = omega (arith, pow-suc 2 w)
add_pow-lt (suc w) (suc k) x p q h = omega (
  arith,
  pow-suc 2 w,
  pow-suc 2 k,
  add_pow-lt w k (x / 2) (omega arith) (omega (arith, pow-suc 2 w)) h,
)

-- A w-bit word is determined by its bits.
pub eq_of_bits : (w x y : ℕ) → x < 2 ^ w → y < 2 ^ w → ((j : ℕ) → j < w → bit j x ≡ bit j y) → x ≡ y
unfolding bit
eq_of_bits zero x y p q same = omega arith
eq_of_bits (suc w) x y p q same = omega (
  arith,
  same 0 (omega arith),
  eq_of_bits w (x / 2) (y / 2) (omega (arith, pow-suc 2 w)) (omega (arith, pow-suc 2 w))
      (λ j h. same (suc j) (omega arith)),
)

and_zero : (n x : ℕ) → x ≤ n → bit_and x 0 ≡ 0
and_zero n zero h = refl
and_zero zero (suc x) h = absurd (omega arith)
and_zero (suc n) (suc x) h =
    omega (arith, and_digit (suc x) 0, and_zero n (suc x / 2) (omega arith))

and_one : (x : ℕ) → bit_and x 1 ≡ x % 2
and_one x = omega (arith, and_digit x 1, and_zero (x / 2) (x / 2) (omega arith))

half_shift : (k x : ℕ) → x / 2 / 2 ^ k ≡ x / 2 ^ suc k
half_shift k x = div-div-eq-div-mul x 2 (2 ^ k) ∙ ap (λ (m : ℕ). x / m) (omega (arith, pow-suc 2 k))

pub bit-div : (k x : ℕ) → bit k x ≡ x / 2 ^ k % 2
unfolding bit
bit-div zero x = omega arith
bit-div (suc k) x = bit-div k (x / 2) ∙ ap (λ (q : ℕ). q % 2) (half_shift k x)

-- `(x >> k) & 1`, the test of a bit as the source writes it.
pub shifted_bit : (k x : ℕ) → bit_and (x / 2 ^ k) 1 ≡ bit k x
shifted_bit k x = and_one (x / 2 ^ k) ∙ sym (bit-div k x)

-- `x & (2 ^ k - 1)` is the remainder by 2 ^ k.
pub bit_and-mask : (k x : ℕ) → bit_and x (2 ^ k - 1) ≡ x % 2 ^ k
bit_and-mask zero x = omega (arith, and_zero x x (omega arith))
bit_and-mask (suc k) x = omega (
  arith,
  pow-suc 2 k,
  one-le-pow k 2,
  and_digit x (2 ^ suc k - 1),
  bit_and-mask k (x / 2),
  ap (bit_and (x / 2)) half,
  half_shift k x,
  div-add-mod x (2 ^ suc k),
  div-add-mod (x / 2) (2 ^ k),
  ap (λ (q : ℕ). 2 ^ k * q) (half_shift k x),
  ap (λ (m : ℕ). m * (x / 2 ^ suc k)) (pow-suc 2 k),
)
  where
    half : (2 ^ suc k - 1) / 2 ≡ 2 ^ k - 1
    half = omega (arith, pow-suc 2 k, one-le-pow k 2)

-- `x ^ (1 << p)` flips bit p alone, and `x | (1 << p)` sets it.
pub bit-flip : (k p x : ℕ) → bit k (bit_xor x (2 ^ p)) ≡ (if k == p then 1 - bit p x else bit k x)
bit-flip k p x =
    ground (arith, bit-xor k x (2 ^ p), bit-pow k p, bit-lt k x, ap (λ (i : ℕ). bit i x))

pub bit-set : (k p x : ℕ) → bit k (bit_or x (2 ^ p)) ≡ (if k == p then 1 else bit k x)
bit-set k p x = ground (arith, bit-or k x (2 ^ p), bit-pow k p, bit-lt k x)

-- A word whose bits are all clear is 0, and so is no other.
pub zero_of_bits : (w x : ℕ) → x < 2 ^ w → ((j : ℕ) → j < w → bit j x ≡ 0) → x ≡ 0
zero_of_bits w x h clear =
    eq_of_bits w x 0 h (one-le-pow w 2 (omega arith)) (λ j l. clear j l ∙ sym (bit-zero j))

pub xor-lt : (w x y : ℕ) → x < 2 ^ w → y < 2 ^ w → bit_xor x y < 2 ^ w
xor-lt zero zero zero h k = omega arith
xor-lt zero zero (suc y) h k = absurd (omega arith)
xor-lt zero (suc x) y h k = absurd (omega arith)
xor-lt (suc w) x y h k = omega (
  arith,
  pow-suc 2 w,
  xor_digit x y,
  differ_bits (x % 2) (y % 2) (omega arith) (omega arith),
  xor-lt w (x / 2) (y / 2) (omega (arith, pow-suc 2 w)) (omega (arith, pow-suc 2 w)),
)
