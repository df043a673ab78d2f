-- ===== src/Tvec.antt =====
-- libconcurrent/includes/tvec.h: vectors of toggle bits, one for each thread, in 64-bit cells.
--
-- A cell is a number below 2 ^ 64. The vectors that an operation reads and the one that it writes may
-- be the same: each round of a loop reads and writes one index.
pub mod View
pub mod Toggle
pub mod Scan
mod Tests
use Prim.Native.Nat.{bit_and, bit_or, bit_xor}
use sim_universal_constructi.Prelude.{
  ℕ, zero, suc, ◌+◌, ◌-◌, ◌*◌, ◌/◌, ◌%◌, ◌^◌, Bool, List, [], ◌∷◌, get_or, set, replicate, ltb,
  ◌==◌, if◌then◌else◌,
}

abbrev pub biword_size : ℕ
biword_size = 64

-- _TVEC_CELLS_
abbrev pub cells_for : ℕ → ℕ
cells_for n = n / 2 ^ 6 + 1

pub record ToggleVector : Type 0 where
  pub nthreads : ℕ
  pub tvec_cells : ℕ
  pub cell : List ℕ

abbrev pub cell_at : ToggleVector → ℕ → ℕ
cell_at v i = get_or v.cell i 0

abbrev pub put_cell : ToggleVector → ℕ → ℕ → ToggleVector
put_cell v i x = record v { cell = set v.cell i x }

-- `-x` in 64 bits
abbrev pub negated : ℕ → ℕ
negated x = (2 ^ 64 - x) % 2 ^ 64

unfoldable pub get_bank_of_bit : ℕ → ℕ → ℕ
get_bank_of_bit b nthreads = if ltb biword_size nthreads then b / 2 ^ 6 else 0

unfoldable pub copy_banks : ToggleVector → ToggleVector → ℕ → ToggleVector
copy_banks tv1 tv2 bank = put_cell tv1 bank (cell_at tv2 bank)

unfoldable pub atomic_add_bank : ToggleVector → ToggleVector → ℕ → ToggleVector
atomic_add_bank tv1 tv2 bank = put_cell tv1 bank ((cell_at tv1 bank + cell_at tv2 bank) % 2 ^ 64)

unfoldable pub negative_bank : ToggleVector → ToggleVector → ℕ → ToggleVector
negative_bank tv1 tv2 bank = put_cell tv1 bank (negated (cell_at tv2 bank))

unfoldable pub xor_banks : ToggleVector → ToggleVector → ToggleVector → ℕ → ToggleVector
xor_banks res tv1 tv2 bank = put_cell res bank (bit_xor (cell_at tv1 bank) (cell_at tv2 bank))

unfoldable pub and_banks : ToggleVector → ToggleVector → ToggleVector → ℕ → ToggleVector
and_banks res tv1 tv2 bank = put_cell res bank (bit_and (cell_at tv1 bank) (cell_at tv2 bank))

-- LOOP: cells i, i + 1, ... get the values of `f`, for n rounds.
unfoldable pub for_cells : ℕ → ℕ → (ℕ → ℕ) → List ℕ → List ℕ
for_cells zero i f c = c
for_cells (suc n) i f c = for_cells n (i + 1) f (set c i (f i))

unfoldable pub fill : ToggleVector → (ℕ → ℕ) → ToggleVector
unfolding for_cells
fill v f = record v { cell = for_cells v.tvec_cells 0 f v.cell }

-- TVEC_INIT and TVEC_INIT_AT; `memory` is what the cells hold before.
unfoldable pub init : ℕ → List ℕ → ToggleVector
unfolding fill
init nthreads memory =
    fill (record { nthreads = nthreads; tvec_cells = cells_for nthreads; cell = memory }) (λ _. 0)

unfoldable pub set_zero : ToggleVector → ToggleVector
unfolding fill
set_zero v = fill v (λ _. 0)

-- The copy of `_TVEC_VECTOR_SIZE(dest->nthreads)` bytes.
unfoldable pub copy : ToggleVector → ToggleVector → ToggleVector
unfolding for_cells
copy dest src = record dest {
  cell = for_cells (cells_for dest.nthreads) 0 (λ i. cell_at src i) dest.cell;
}

unfoldable pub negative : ToggleVector → ToggleVector → ToggleVector
unfolding fill
negative res v = fill res (λ i. negated (cell_at v i))

unfoldable pub reverse_bit : ToggleVector → ℕ → ToggleVector
reverse_bit v b =
    let i = b / 2 ^ 6 in
    let offset = bit_and b 63 in put_cell v i (bit_xor (cell_at v i) (2 ^ offset))

unfoldable pub set_bit : ToggleVector → ℕ → ToggleVector
set_bit v b =
    let i = b / 2 ^ 6 in
    let offset = bit_and b 63 in put_cell v i (bit_or (cell_at v i) (2 ^ offset))

unfoldable pub is_set : ToggleVector → ℕ → Bool
is_set v pid =
    let i = pid / 2 ^ 6 in let offset = bit_and pid 63 in bit_and (cell_at v i / 2 ^ offset) 1 == 1

unfoldable pub or : ToggleVector → ToggleVector → ToggleVector → ToggleVector
unfolding fill
or res tv1 tv2 = fill res (λ i. bit_or (cell_at tv1 i) (cell_at tv2 i))

unfoldable pub and : ToggleVector → ToggleVector → ToggleVector → ToggleVector
unfolding fill
and res tv1 tv2 = fill res (λ i. bit_and (cell_at tv1 i) (cell_at tv2 i))

unfoldable pub xor : ToggleVector → ToggleVector → ToggleVector → ToggleVector
unfolding fill
xor res tv1 tv2 = fill res (λ i. bit_xor (cell_at tv1 i) (cell_at tv2 i))

-- `synchNonZeroBits`, by the loop of primitives.c; 64 rounds empty a 64-bit word.
unfoldable pub non_zero_bits : ℕ → ℕ → ℕ
non_zero_bits zero x = 0
non_zero_bits (suc n) x = bit_and x 1 + non_zero_bits n (x / 2)

unfoldable pub count_cells : ℕ → ℕ → ToggleVector → ℕ
unfolding non_zero_bits
count_cells zero i v = 0
count_cells (suc n) i v = non_zero_bits 64 (cell_at v i) + count_cells n (i + 1) v

unfoldable pub count_bits : ToggleVector → ℕ
unfolding count_cells
count_bits v = count_cells v.tvec_cells 0 v
