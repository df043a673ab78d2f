-- ===== src/Tvec/Scan.antt =====
-- The loop by which a combiner visits the set bits of a cell, lowest first.
--
--     while (diffs->cell[i] != 0L) { pos = synchBitSearchFirst(...); ...; diffs->cell[i] ^= 1 << pos; }
use Prim.Native.Nat.{bit_xor}
use native.Mathlib.Nat.{pow-suc}
use sim_universal_constructi.Prelude.{
  ℕ, zero, suc, ◌+◌, ◌/◌, ◌%◌, ◌^◌, ◌≤◌, ◌<◌, ◌≡◌, ◌≢◌, ap, ◌∙◌, true, false, Option, none, some,
  List, [], ◌∷◌, arith, ◌==◌, ltb, if◌then◌else◌, Bool-cases, ◌⊎◌, inl, inr,
}
use sim_universal_constructi.Prelude.Bits.{bit, bit-flip, bit-zero, xor-lt}
use sim_universal_constructi.Prelude.Powers.{pow_mono}
use sim_universal_constructi.Threads.StartIds.{times}

-- `__builtin_ctzll`: the position of the lowest set bit of a word of at most n bits.
unfoldable pub bit_search_first : ℕ → ℕ → ℕ
bit_search_first zero x = 0
bit_search_first (suc n) x = if x % 2 == 1 then 0 else suc (bit_search_first n (x / 2))

-- The positions that the loop visits; `none` if it has not ended when the fuel runs out.
unfoldable pub scan : ℕ → ℕ → Option (List ℕ)
scan zero x = none
scan (suc fuel) x = elim (x == 0) [
  | true ↦ some []
  | false ↦
      let pos = bit_search_first 64 x in
      elim (scan fuel (bit_xor x (2 ^ pos))) [ none ↦ none | some rest ↦ some (pos ∷ rest) ]
]

-- The bit found is set, lies in the word, and has no set bit below it.
pub record IsFirst (w x k : ℕ) : Type 0 where
  pub inside : k < w
  pub here : bit k x ≡ 1
  pub lowest : (j : ℕ) → j < k → bit j x ≡ 0

odd-IsFirst : (w x : ℕ) → (x % 2 == 1) ≡ true → IsFirst (suc w) x 0
unfolding bit
odd-IsFirst w x e = record {
  inside = omega arith;
  here = ground arith;
  lowest = λ j l. absurd (omega arith);
}

even-IsFirst : (w x k : ℕ) → (x % 2 == 1) ≡ false → IsFirst w (x / 2) k → IsFirst (suc w) x (suc k)
unfolding bit
even-IsFirst w x k e f = record {
  inside = omega (arith, f.inside);
  here = f.here;
  lowest = λ j l. below j l;
}
  where
    below : (j : ℕ) → j < suc k → bit j x ≡ 0
    below zero l = ground arith
    below (suc j) l = f.lowest j (omega arith)

pub bit_search_first-IsFirst : (w x : ℕ) → x < 2 ^ w → x ≢ 0 → IsFirst w x (bit_search_first w x)
unfolding bit_search_first
bit_search_first-IsFirst zero x h ne = absurd (omega arith)
bit_search_first-IsFirst (suc w) x h ne = elim (Bool-cases (x % 2 == 1)) [
  | inl e ↦ rw e (odd-IsFirst w x e)
  | inr e ↦ rw e (
      even-IsFirst w x (bit_search_first w (x / 2)) e
        (bit_search_first-IsFirst w (x / 2) (omega (arith, pow-suc 2 w)) (ground arith)))
]

-- What is left of the word after one round: the bits above, and fuel for them.
module _ {x k : ℕ} (f : IsFirst 64 x k) where
  rest_bit : (j : ℕ) → bit j (bit_xor x (2 ^ k)) ≡ (if j == k then 0 else bit j x)
  rest_bit j = bit-flip j k x ∙ ground (arith, f.here)

  rest_lt : x < 2 ^ 64 → bit_xor x (2 ^ k) < 2 ^ 64
  rest_lt h = xor-lt 64 x (2 ^ k) h (omega (arith, f.inside, pow_mono k 63))

  rest_clear : (j : ℕ) → j ≤ k → bit j (bit_xor x (2 ^ k)) ≡ 0
  rest_clear j h = rest_bit j ∙ ground (arith, f.lowest j)

  passed : (m : ℕ) → ((i : ℕ) → i < m → bit i x ≡ 0) → m ≤ k
  passed m clear =
      let d : (m ≤ k) ⊎ (k < m) = omega arith in
      elim d [ inl h ↦ h | inr l ↦ absurd (omega (arith, clear k l, f.here)) ]

scan_end : (fuel x : ℕ) → (x == 0) ≡ true → scan (suc fuel) x ≡ some []
unfolding scan
scan_end fuel x e = ground (arith, e)

scan_round :
    (fuel x : ℕ) (rest : List ℕ)
    → (x == 0) ≡ false
    → scan fuel (bit_xor x (2 ^ bit_search_first 64 x)) ≡ some rest
    → scan (suc fuel) x ≡ some (bit_search_first 64 x ∷ rest)
unfolding scan
scan_round fuel x rest e r = ground (arith, e, r)

-- The loop ends, having visited each set bit once, and nothing else.
abbrev pub Visits : ℕ → ℕ → List ℕ → Type 0
Visits fuel x ps =
    (scan fuel x ≡ some ps) × ((j : ℕ) → times j ps ≡ (if ltb j 64 then bit j x else 0))

-- With all bits below m clear, 64 - m rounds do, and one more for the test that ends the loop.
times-scan_from :
    (fuel m x : ℕ)
    → x < 2 ^ 64
    → ((i : ℕ) → i < m → bit i x ≡ 0)
    → 64 < fuel + m
    → m ≤ 64
    → (ps : List ℕ) × Visits fuel x ps
unfolding times
times-scan_from zero m x h clear enough top = absurd (omega arith)
times-scan_from (suc fuel) m x h clear enough top = elim (Bool-cases (x == 0)) [
  | inl e ↦
      let zero_word : x ≡ 0 = ground arith in
      ([], (scan_end fuel x e, λ j. ground (arith, ap (bit j) zero_word, bit-zero j)))
  | inr e ↦
      let f = bit_search_first-IsFirst 64 x h (ground arith) in
      let k = bit_search_first 64 x in
      let (ps, (run, counted)) =
        times-scan_from fuel (suc m) (bit_xor x (2 ^ k)) (rest_lt f h)
          (λ i l. rest_clear f i (omega (arith, passed f m clear))) (omega arith)
          (omega (arith, passed f m clear, f.inside)) in
      (
        k ∷ ps,
        (
          scan_round fuel x ps e run,
          λ j. ground (arith, counted j, rest_bit f j, f.here, f.inside, ap (λ (i : ℕ). bit i x)),
        ),
      )
]

-- On a 64-bit cell the loop ends, at its 65th test at the latest, having visited each set bit exactly
-- once and no other position.
pub times-scan : (x : ℕ) → x < 2 ^ 64 → (ps : List ℕ) × Visits 65 x ps
times-scan x h = times-scan_from 65 0 x h (λ i l. absurd (omega arith)) (omega arith) (omega arith)
