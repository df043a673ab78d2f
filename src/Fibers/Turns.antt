-- ===== src/Fibers/Turns.antt =====
-- A fiber that yields or exits gives the turn to the next active one.
use sim_universal_constructi.Prelude.{
  ℕ, zero, suc, ◌+◌, ◌-◌, ◌%◌, ◌<◌, ◌==◌, ◌≡◌, refl, Bool, true, false, some, update, arith,
  Bool-cases, inl, inr,
}
use sim_universal_constructi.Fibers.{Fibers, next_active, switch, fiber_yield, fiber_exit}

-- The fiber k places after c, round the list.
abbrev pub turn : ℕ → ℕ → ℕ → ℕ
turn max zero c = c
turn max (suc k) c = turn max k ((c + 1) % max)

-- d is the first active fiber after c, round the list.
abbrev pub Next : ℕ → (ℕ → Bool) → ℕ → ℕ → Type 0
Next max active c d =
    (k : ℕ) × (d ≡ turn max (suc k) c)
    × (active d ≡ true)
    × ((i : ℕ) → i < k → active (turn max (suc i) c) ≡ false)

skipped :
    (max : ℕ) (active : ℕ → Bool) (c k : ℕ)
    → active ((c + 1) % max) ≡ false
    → ((i : ℕ) → i < k → active (turn max (suc i) ((c + 1) % max)) ≡ false)
    → (i : ℕ) → i < suc k
    → active (turn max (suc i) c) ≡ false
skipped max active c k e before zero h = e
skipped max active c k e before (suc i) h = before i (omega arith)

next_active_lem :
    (fuel max : ℕ) (active : ℕ → Bool) (c m : ℕ)
    → m < fuel
    → active (turn max (suc m) c) ≡ true
    → (d : ℕ) × (next_active fuel max active c ≡ some d) × Next max active c d
unfolding next_active
next_active_lem zero max active c m lt on = absurd (omega arith)
next_active_lem (suc fuel) max active c zero lt on =
    ((c + 1) % max, rw (on, next_active) refl, (0, refl, on, λ i h. absurd (omega arith)))
next_active_lem (suc fuel) max active c (suc m) lt on = elim (Bool-cases (active ((c + 1) % max))) [
  | inl e ↦ ((c + 1) % max, rw (e, next_active) refl, (0, refl, e, λ i h. absurd (omega arith)))
  | inr e ↦
      let (d, run, (k, at, is, before)) =
        next_active_lem fuel max active ((c + 1) % max) m (omega arith) on in
      (d, rw (e, next_active) run, (suc k, at, is, skipped max active c k e before))
]

-- A fiber that yields, when there is another one and a fiber is active within `fuel` places, gives the
-- turn to the first active fiber after it, round the list, and changes nothing else.
pub fiber_yield-Next :
    (fuel : ℕ) (f : Fibers) (m : ℕ)
    → (f.n_fibers == 1) ≡ false
    → m < fuel
    → f.active (turn f.max_fibers (suc m) f.current) ≡ true
    → (d : ℕ) × (fiber_yield fuel f ≡ some (record f { current = d }))
      × Next f.max_fibers f.active f.current d
unfolding fiber_yield switch
fiber_yield-Next fuel f m many lt on =
    let (d, run, next) = next_active_lem fuel f.max_fibers f.active f.current m lt on in
    (d, ground (arith, many, run), next)

-- A fiber that exits, when there is another one and a fiber other than it is active within `fuel`
-- places, gives the turn to the first active fiber after it, round the list. It is no longer active and the
-- number of fibers goes down by one.
pub fiber_exit-Next :
    (fuel : ℕ) (f : Fibers) (m : ℕ)
    → (f.n_fibers == 1) ≡ false
    → m < fuel
    → f.active (turn f.max_fibers (suc m) f.current) ≡ true
    → (f.current == turn f.max_fibers (suc m) f.current) ≡ false
    → (d : ℕ) × (fiber_exit fuel f
        ≡ some (record f {
          current = d;
          active = update f.active f.current false;
          n_fibers = f.n_fibers - 1;
        }))
      × Next f.max_fibers (update f.active f.current false) f.current d
unfolding fiber_exit switch
fiber_exit-Next fuel f m many lt on other =
    let (d, run, next) =
      next_active_lem fuel f.max_fibers (update f.active f.current false) f.current m lt
        (ground (arith, on, other)) in
    (d, ground (arith, many, run), next)
