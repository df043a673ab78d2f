-- ===== src/Barrier/Count.antt =====
-- How many of the threads 0 to n - 1 stand at a place.
use sim_universal_constructi.Prelude.{
  ℕ, zero, suc, ◌<◌, ◌≤◌, ◌==◌, ◌≡◌, refl, Bool, true, false, arith, update, Bool-cases, inl, inr,
  if◌then◌else◌,
}

module _ {A : Type 0} (g : A → Bool) where
  abbrev pub count : (ℕ → A) → ℕ → ℕ
  count pc zero = 0
  count pc (suc n) = if g (pc n) then suc (count pc n) else count pc n

  pub count_le : (pc : ℕ → A) (n : ℕ) → count pc n ≤ n
  count_le pc zero = omega arith
  count_le pc (suc n) = ground (arith, count_le pc n)

  -- A thread outside the range does not count.
  count_outside : (pc : ℕ → A) (n i : ℕ) (p : A) → n ≤ i → count (update pc i p) n ≡ count pc n
  count_outside pc zero i p h = refl
  count_outside pc (suc n) i p h =
      let off : (i == n) ≡ false = ground (arith, h) in
      ground (arith, off, count_outside pc n i p (omega arith))

  pub count_more :
      (pc : ℕ → A) (n i : ℕ) (p : A)
      → i < n
      → g (pc i) ≡ false
      → g p ≡ true
      → count (update pc i p) n ≡ suc (count pc n)
  count_more pc zero i p h was is = absurd (omega arith)
  count_more pc (suc n) i p h was is = elim (Bool-cases (i == n)) [
    | inl e ↦
        let same : i ≡ n = ground arith in
        ground (arith, e, same, was, is, count_outside pc n i p (omega arith))
    | inr e ↦ ground (arith, e, count_more pc n i p (ground (arith, h, e)) was is)
  ]

  pub count_same :
      (pc : ℕ → A) (n i : ℕ) (p : A) → g (pc i) ≡ g p → count (update pc i p) n ≡ count pc n
  count_same pc zero i p e = refl
  count_same pc (suc n) i p e = elim (Bool-cases (i == n)) [
    | inl at ↦ let same : i ≡ n = ground arith in ground (arith, at, same, e, count_same pc n i p e)
    | inr off ↦ ground (arith, off, count_same pc n i p e)
  ]

  -- If all but one thread count, and thread i does not, every other one does.
  pub count_others :
      (pc : ℕ → A) (n i j : ℕ) (p : A)
      → g p ≡ true
      → suc (count pc n) ≡ n
      → i < n
      → g (pc i) ≡ false
      → j < n
      → (i == j) ≡ false
      → g (pc j) ≡ true
  count_others pc n i j p is all hi not_i hj ne = elim (Bool-cases (g (pc j))) [
    | inl e ↦ e
    | inr e ↦
        let one = count_more pc n j p hj e is in
        let two = count_more (update pc j p) n i p hi (ground (arith, ne, not_i)) is in
        absurd (ground (arith, all, one, two, count_le (update (update pc j p) i p) n))
  ]

  pub count_none : (pc : ℕ → A) (n : ℕ) → ((i : ℕ) → i < n → g (pc i) ≡ false) → count pc n ≡ 0
  count_none pc zero h = refl
  count_none pc (suc n) h =
      ground (arith, h n (omega arith), count_none pc n (λ i l. h i (omega arith)))

  pub count_find : (pc : ℕ → A) (n : ℕ) → count pc n < n → (i : ℕ) × (i < n) × (g (pc i) ≡ false)
  count_find pc zero h = absurd (omega arith)
  count_find pc (suc n) h = elim (Bool-cases (g (pc n))) [
    | inl e ↦ let (i, lt, is) = count_find pc n (ground (arith, h, e)) in (i, omega (arith, lt), is)
    | inr e ↦ (n, omega arith, e)
  ]
