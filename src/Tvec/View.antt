-- ===== src/Tvec/View.antt =====
-- A toggle vector as a set of bits: what each operation does to bit j of the vector.
use Prim.Native.Nat.{bit_and, bit_or, bit_xor, min, max}
use sim_universal_constructi.Prelude.{
  ℕ, zero, suc, ◌+◌, ◌-◌, ◌/◌, ◌%◌, ◌^◌, ◌≤◌, ◌<◌, ◌≡◌, ◌≢◌, refl, ap, ◌∙◌, List, get_or, set,
  length, length-set, get_or-set_self, get_or-set_ne, arith, ◌==◌, if◌then◌else◌, Bool-cases, inl,
  inr,
}
use sim_universal_constructi.Prelude.Bits.{
  bit, bit-lt, bit-xor, bit-or, bit-and, bit_and-mask, shifted_bit, bit-zero, bit-flip, bit-set,
}
use sim_universal_constructi.Tvec.{
  ToggleVector, cells_for, cell_at, put_cell, for_cells, fill, set_zero, reverse_bit, set_bit,
  is_set, or, and, xor,
}

-- bit j of the vector
unfoldable pub toggle : ToggleVector → ℕ → ℕ
toggle v j = bit (j % 64) (cell_at v (j / 64))

pub toggle-lt : (v : ToggleVector) (j : ℕ) → toggle v j < 2
unfolding toggle
toggle-lt v j = bit-lt (j % 64) (cell_at v (j / 64))

-- As many cells as `nthreads` needs.
pub record HasCells (n : ℕ) (v : ToggleVector) : Type 0 where
  pub threads : v.nthreads ≡ n
  pub count : v.tvec_cells ≡ cells_for n
  pub room : length v.cell ≡ cells_for n

pub toggle-put_cell :
    (v : ToggleVector) (i x j : ℕ)
    → i < length v.cell
    → toggle (put_cell v i x) j ≡ (if i == j / 64 then bit (j % 64) x else toggle v j)
unfolding toggle
toggle-put_cell v i x j h = elim (Bool-cases (i == j / 64)) [
  | inl e ↦
      let same : i ≡ j / 64 = ground arith in
      rw e (ap (bit (j % 64)) (rw (← same) (get_or-set_self v.cell i x 0 h)))
  | inr e ↦
      let other : i ≢ j / 64 = ground arith in
      rw e (ap (bit (j % 64)) (get_or-set_ne v.cell i (j / 64) x 0 other))
]

pub HasCells-put_cell :
    {n : ℕ} (v : ToggleVector) (i x : ℕ) → HasCells n v → HasCells n (put_cell v i x)
HasCells-put_cell v i x h = record {
  threads = h.threads;
  count = h.count;
  room = length-set v.cell i x ∙ h.room;
}

length-for_cells : (n i : ℕ) (f : ℕ → ℕ) (c : List ℕ) → length (for_cells n i f c) ≡ length c
unfolding for_cells
length-for_cells zero i f c = refl
length-for_cells (suc n) i f c = length-for_cells n (i + 1) f (set c i (f i)) ∙ length-set c i (f i)

-- Cells below the first round are left alone, the others up to the end get their value.
get_or-for_cells_lt :
    (n i j : ℕ) (f : ℕ → ℕ) (c : List ℕ) → j < i → get_or (for_cells n i f c) j 0 ≡ get_or c j 0
unfolding for_cells
get_or-for_cells_lt zero i j f c h = refl
get_or-for_cells_lt (suc n) i j f c h =
    get_or-for_cells_lt n (i + 1) j f (set c i (f i)) (omega arith)
    ∙ get_or-set_ne c i j (f i) 0 (omega arith)

pub get_or-for_cells :
    (n i j : ℕ) (f : ℕ → ℕ) (c : List ℕ)
    → i ≤ j
    → j < i + n
    → j < length c
    → get_or (for_cells n i f c) j 0 ≡ f j
unfolding for_cells
get_or-for_cells zero i j f c h k l = absurd (omega arith)
get_or-for_cells (suc n) i j f c h k l = elim (Bool-cases (i == j)) [
  | inl e ↦
      let same : i ≡ j = ground arith in
      rw (← same) (
        get_or-for_cells_lt n (i + 1) i f (set c i (f i)) (omega arith)
        ∙ get_or-set_self c i (f i) 0 (omega arith))
  | inr e ↦
      get_or-for_cells n (i + 1) j f (set c i (f i)) (ground arith) (omega arith)
        (omega (arith, length-set c i (f i)))
]

module _ {n : ℕ} {v : ToggleVector} (h : HasCells n v) where
  toggle-fill : (f : ℕ → ℕ) (j : ℕ) → j < n → toggle (fill v f) j ≡ bit (j % 64) (f (j / 64))
  unfolding toggle fill
  toggle-fill f j lt = ap (bit (j % 64)) (
      get_or-for_cells v.tvec_cells 0 (j / 64) f v.cell (omega arith) (omega (arith, h.count))
        (omega (arith, h.room)))

  -- After TVEC_SET_ZERO no bit is set.
  pub toggle-set_zero : (j : ℕ) → j < n → toggle (set_zero v) j ≡ 0
  unfolding set_zero
  toggle-set_zero j lt = toggle-fill (λ _. 0) j lt ∙ bit-zero (j % 64)

  -- Bit by bit, up to the number of threads, TVEC_XOR, TVEC_AND and TVEC_OR of two vectors into a
  -- third, which has the cells for them, are the sum modulo two, the minimum and the maximum of
  -- their bits.
  pub toggle-bitwise :
      (a b : ToggleVector) (j : ℕ)
      → j < n
      → (toggle (xor v a b) j ≡ (toggle a j + toggle b j) % 2)
        × (toggle (and v a b) j ≡ min (toggle a j) (toggle b j))
        × (toggle (or v a b) j ≡ max (toggle a j) (toggle b j))
  unfolding toggle xor and or
  toggle-bitwise a b j lt = (
    toggle-fill (λ i. bit_xor (cell_at a i) (cell_at b i)) j lt
        ∙ bit-xor (j % 64) (cell_at a (j / 64)) (cell_at b (j / 64)),
    toggle-fill (λ i. bit_and (cell_at a i) (cell_at b i)) j lt
        ∙ bit-and (j % 64) (cell_at a (j / 64)) (cell_at b (j / 64)),
    toggle-fill (λ i. bit_or (cell_at a i) (cell_at b i)) j lt
        ∙ bit-or (j % 64) (cell_at a (j / 64)) (cell_at b (j / 64)),
  )

-- A write to the cell of bit p that changes that bit of the cell alone, to x, changes that bit of the
-- vector alone.
pub toggle-put_bit :
    (v : ToggleVector) (p j x y : ℕ)
    → p / 64 < length v.cell
    → ((k : ℕ) → bit k y ≡ (if k == p % 64 then x else bit k (cell_at v (p / 64))))
    → toggle (put_cell v (p / 64) y) j ≡ (if p == j then x else toggle v j)
unfolding toggle
toggle-put_bit v p j x y lt changes = elim (Bool-cases (p / 64 == j / 64)) [
  | inl e ↦
      let same : p / 64 ≡ j / 64 = ground arith in
      toggle-put_cell v (p / 64) y j lt
      ∙ ground (arith, changes (j % 64), ap (λ (i : ℕ). bit (j % 64) (cell_at v i)) same)
  | inr e ↦ toggle-put_cell v (p / 64) y j lt ∙ ground arith
]

cell_lt : {n : ℕ} {v : ToggleVector} → HasCells n v → (p : ℕ) → p < n → p / 64 < length v.cell
cell_lt h p lt = omega (arith, h.room)

-- TVEC_REVERSE_BIT flips the given bit and TVEC_SET_BIT sets it; they change no other bit.
-- TVEC_IS_SET tells whether a bit is set.
pub toggle-reverse_bit :
    {n : ℕ} {v : ToggleVector}
    → HasCells n v
    → (p j : ℕ) → p < n
    → (toggle (reverse_bit v p) j ≡ (if p == j then 1 - toggle v j else toggle v j))
      × (toggle (set_bit v p) j ≡ (if p == j then 1 else toggle v j))
      × (is_set v p ≡ (toggle v p == 1))
unfolding reverse_bit set_bit is_set toggle
toggle-reverse_bit {v} h p j lt = (
  ap (λ (o : ℕ). toggle (put_cell v (p / 64) (bit_xor (cell_at v (p / 64)) (2 ^ o))) j)
        (bit_and-mask 6 p)
      ∙ toggle-put_bit v p j (1 - toggle v p) _ (cell_lt h p lt)
          (λ k. bit-flip k (p % 64) (cell_at v (p / 64)))
      ∙ ground (arith, ap (toggle v)),
  ap (λ (o : ℕ). toggle (put_cell v (p / 64) (bit_or (cell_at v (p / 64)) (2 ^ o))) j)
        (bit_and-mask 6 p)
      ∙ toggle-put_bit v p j 1 _ (cell_lt h p lt) (λ k. bit-set k (p % 64) (cell_at v (p / 64))),
  ap (λ (x : ℕ). x == 1)
      (ap (λ (o : ℕ). bit_and (cell_at v (p / 64) / 2 ^ o) 1) (bit_and-mask 6 p)
        ∙ shifted_bit (p % 64) (cell_at v (p / 64))),
)
