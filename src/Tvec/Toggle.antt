-- ===== src/Tvec/Toggle.antt =====
-- How a thread of the Sim objects announces an operation: it flips its bit of a shared vector by one
-- fetch-and-add of plus or minus 2 ^ k, with the sign turned round each time.
use sim_universal_constructi.Prelude.{
  ℕ, zero, suc, ◌+◌, ◌-◌, ◌/◌, ◌%◌, ◌^◌, ◌<◌, ◌≡◌, ◌≢◌, ap, sym, ◌∙◌, get_or-set_self,
  get_or-set_ne, Bool-cases, arith, ◌==◌, if◌then◌else◌, ==_refl, ==_ne, inl, inr,
}
use sim_universal_constructi.Prelude.Bits.{
  bit, bit-lt, bit-add_pow, bit-sub_pow, add_pow-lt, pow-le_of_bit,
}
use sim_universal_constructi.Prelude.Powers.{pow_mono, pow_pos}
use sim_universal_constructi.Tvec.{
  ToggleVector, cell_at, put_cell, negated, get_bank_of_bit, atomic_add_bank, negative_bank,
  reverse_bit,
}
use sim_universal_constructi.Tvec.View.{
  toggle, HasCells, HasCells-put_cell, toggle-put_bit, toggle-lt, toggle-reverse_bit,
}

-- What a thread keeps for its announcements: the complement of its bit, and the summand that it added
-- last.
pub record Announcer : Type 0 where
  pub my_bit : ToggleVector
  pub toggle_vec : ToggleVector

-- The opening of `SimApplyOp`, `SimStackApplyOp`, `SimQueueEnqueue` and `SimQueueDequeue`.
unfoldable pub announce : ℕ → ℕ → Announcer → ToggleVector → Announcer × ToggleVector
announce nthreads pid th shared =
    let bank = get_bank_of_bit pid nthreads in
    let turned = negative_bank th.toggle_vec th.toggle_vec bank in
    (
      record { my_bit = reverse_bit th.my_bit pid; toggle_vec = turned },
      atomic_add_bank shared turned bank,
    )

bank_lem : (n p : ℕ) → p < n → get_bank_of_bit p n ≡ p / 64
unfolding get_bank_of_bit
bank_lem n p h = ground arith

-- The summand that was added last: 2 ^ k if it set the bit, and -2 ^ k if it cleared it.
abbrev pub last_added : ℕ → ℕ → ℕ
last_added k b = if b == 1 then 2 ^ k else 2 ^ 64 - 2 ^ k

-- The thread's complement of its bit, the shared bit and the sign of the summand go together.
pub record InStep (n p : ℕ) (th : Announcer) (shared : ToggleVector) : Type 0 where
  pub mine : HasCells n th.my_bit
  pub summand : HasCells n th.toggle_vec
  pub ours : HasCells n shared
  pub agree : toggle th.my_bit p ≡ 1 - toggle shared p
  pub sign : cell_at th.toggle_vec (p / 64) ≡ last_added (p % 64) (toggle shared p)
  pub fits : (i : ℕ) → cell_at shared i < 2 ^ 64

-- What the turned summand adds to a word.
add_lem :
    (k x : ℕ)
    → k < 64
    → x < 2 ^ 64
    → (x + negated (last_added k (bit k x))) % 2 ^ 64
      ≡ (if bit k x == 1 then x - 2 ^ k else x + 2 ^ k)
add_lem k x lt h =
    ground (arith, pow_mono k 63 (omega arith), bit-lt k x, pow-le_of_bit k x, add_pow-lt 64 k x)

-- Adding the turned summand flips bit k of a word, leaves the other bits and stays in range.
flip_by_add :
    (k x j : ℕ)
    → k < 64
    → x < 2 ^ 64
    → (bit j ((x + negated (last_added k (bit k x))) % 2 ^ 64)
        ≡ (if j == k then 1 - bit k x else bit j x))
flip_by_add k x j lt h =
    ap (bit j) (add_lem k x lt h) ∙ ground (arith, bit-lt k x, bit-add_pow j k x, bit-sub_pow j k x)

-- The summand that was just added, in terms of the new bit.
turn_lem : (k b : ℕ) → k < 64 → b < 2 → negated (last_added k b) ≡ last_added k (1 - b)
turn_lem k zero lt h = omega (arith, pow_mono k 63 (omega arith), pow_pos k)
turn_lem k (suc zero) lt h = omega (arith, pow_mono k 63 (omega arith), pow_pos k)
turn_lem k (suc (suc b)) lt h = absurd (omega arith)

module _ {n p : ℕ} {th : Announcer} {shared : ToggleVector} (lt : p < n)
    (s : InStep n p th shared) where
  open s use {mine, summand, ours, agree, sign, fits}

  low : p % 64 < 64
  low = omega arith

  cell_turned :
      cell_at (negative_bank th.toggle_vec th.toggle_vec (p / 64)) (p / 64)
      ≡ negated (last_added (p % 64) (toggle shared p))
  unfolding negative_bank
  cell_turned =
      get_or-set_self th.toggle_vec.cell (p / 64) _ 0 (omega (arith, summand.room))
      ∙ ap negated sign

  new_summand :
      cell_at (announce n p th shared).0.toggle_vec (p / 64)
      ≡ negated (last_added (p % 64) (toggle shared p))
  unfolding announce
  new_summand = rw (bank_lem n p lt) cell_turned

  shared_lem :
      (announce n p th shared).1
      ≡ put_cell shared
          (p / 64)
          ((cell_at shared (p / 64) + negated (last_added (p % 64) (toggle shared p))) % 2 ^ 64)
  unfolding announce atomic_add_bank
  shared_lem = rw (bank_lem n p lt) (
      ap (λ (x : ℕ). put_cell shared (p / 64) ((cell_at shared (p / 64) + x) % 2 ^ 64)) cell_turned)

  -- When they are in step, an announcement flips the announcer's bit of the shared vector, by a
  -- single fetch-and-add, and no carry or borrow reaches the bit of another thread.
  pub announce_flips :
      (j : ℕ)
      → toggle (announce n p th shared).1 j
        ≡ (if p == j then 1 - toggle shared p else toggle shared j)
  unfolding toggle
  announce_flips j =
      ap (λ (v : ToggleVector). toggle v j) shared_lem
      ∙ toggle-put_bit shared p j _ _ (omega (arith, ours.room))
          (λ k. flip_by_add (p % 64) (cell_at shared (p / 64)) k low (fits (p / 64)))

  shared_fits : (i : ℕ) → cell_at (announce n p th shared).1 i < 2 ^ 64
  shared_fits i = rw shared_lem (elim (Bool-cases (p / 64 == i)) [
    | inl e ↦
        let same : p / 64 ≡ i = ground arith in
        rw (← same, get_or-set_self shared.cell (p / 64) _ 0 (omega (arith, ours.room)))
          (omega arith)
    | inr e ↦
        let other : p / 64 ≢ i = ground arith in
        rw (get_or-set_ne shared.cell (p / 64) i _ 0 other) (fits i)
  ])

  shared_bit_lem : toggle (announce n p th shared).1 p ≡ 1 - toggle shared p
  shared_bit_lem = announce_flips p ∙ ground (arith, ==_refl p)

  my_bit_lem : toggle (announce n p th shared).0.my_bit p ≡ toggle shared p
  unfolding announce
  my_bit_lem = (toggle-reverse_bit mine p p lt).0 ∙ ground (arith, ==_refl p, toggle-lt shared p)

  sign_lem :
      cell_at (announce n p th shared).0.toggle_vec (p / 64)
      ≡ last_added (p % 64) (toggle (announce n p th shared).1 p)
  sign_lem =
      rw (shared_bit_lem)
        (new_summand ∙ turn_lem (p % 64) (toggle shared p) low (toggle-lt shared p))

  -- When a thread's complement of its bit, the shared bit and the sign of its summand are in step,
  -- they are so again after its announcement.
  pub announce-InStep : InStep n p (announce n p th shared).0 (announce n p th shared).1
  unfolding announce reverse_bit atomic_add_bank negative_bank
  announce-InStep = record {
    mine = HasCells-put_cell th.my_bit _ _ mine;
    summand = HasCells-put_cell th.toggle_vec _ _ summand;
    ours = HasCells-put_cell shared _ _ ours;
    agree = omega (arith, my_bit_lem, shared_bit_lem, toggle-lt shared p);
    sign = sign_lem;
    fits = shared_fits;
  }

-- The announcement of one thread leaves every other thread ready.
pub announce-InStep_other :
    {n p q : ℕ} {th other : Announcer} {shared : ToggleVector}
    → p < n
    → q < n
    → p ≢ q
    → InStep n p th shared
    → InStep n q other shared
    → InStep n q other (announce n p th shared).1
announce-InStep_other {n} {p} {q} {th} {shared} lt lt' ne s o = record {
  mine = o.mine;
  summand = o.summand;
  ours = (announce-InStep lt s).ours;
  agree = omega (arith, o.agree, kept);
  sign = o.sign ∙ ap (last_added (q % 64)) (sym kept);
  fits = (announce-InStep lt s).fits;
}
  where
    kept : toggle (announce n p th shared).1 q ≡ toggle shared q
    kept = announce_flips lt s q ∙ ground (arith, ==_ne p q ne)
