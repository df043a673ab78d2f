-- ===== src/Barrier/Waits.antt =====
-- No thread gets past a barrier before all have come to it.
use sim_universal_constructi.Prelude.{
  ℕ, suc, ◌<◌, ◌^◌, ◌==◌, ◌≡◌, refl, sym, ◌∙◌, ap, Bool, arith, subst, Bool-cases, inl, inr, ◌⊎◌,
}
use sim_universal_constructi.Barrier.{
  barrier_set, Pc, outside, waits_arrive, resets_arrive, raises_leave, clears_arrive, between,
  waits_leave, resets_leave, raises_arrive, clears_leave, System, advance, Reach, here, later, init,
}
use sim_universal_constructi.Barrier.Count.{count_none}
use sim_universal_constructi.Barrier.Phases.{
  at_arrive, Gathers, Opens, Scatters, Closes, gathering, opening, scattering, closing, Inv,
}
use sim_universal_constructi.Barrier.Arrival.{gather_step, opening_step}
use sim_universal_constructi.Barrier.Departure.{scatter_step, closing_step}

advance-Inv : (n : ℕ) (s : System) (i : ℕ) → i < n → n < 2 ^ 31 → Inv n s → Inv n (advance s i)
advance-Inv n s i hi small v = elim (v.phase) [
  | gathering r flag full all sum pos ↦
      gather_step n s i r hi small v.val flag full all sum pos (s.pc i) refl
  | opening r k hk rest calls o ↦ opening_step n s i r hi small v.val k hk rest calls o
  | scattering r shut up full all calls sum pos ↦
      scatter_step n s i r hi small v.val calls shut up full all sum pos (s.pc i) refl
  | closing r k hk rest calls o ↦ closing_step n s i r hi small v.val calls k hk rest o
]

init-Inv : (n : ℕ) → 0 < n → Inv n (init n)
unfolding barrier_set
init-Inv n pos = record {
  val = refl;
  phase =
      gathering 0 refl refl (λ j hj. refl)
        (let none_yet = count_none at_arrive (λ i. outside) n (λ i h. refl) in
          omega (arith, none_yet))
        pos;
}

pub Reach-Inv : (n : ℕ) (s : System) → 0 < n → n < 2 ^ 31 → Reach n (init n) s → Inv n s
Reach-Inv n _ pos small here = init-Inv n pos
Reach-Inv n _ pos small (later {t = t} i hi run) =
    advance-Inv n t i hi small (Reach-Inv n t pos small run)

calls_lem : (r c : ℕ) (f : Bool) (p : Pc) → Gathers r f p c → (c ≡ r) ⊎ (c ≡ suc r)
calls_lem r c f outside g = inl g
calls_lem r c f waits_arrive g = inr g
calls_lem r c f waits_leave g = inl (g.0)
calls_lem r c f resets_arrive g = absurd (ground (arith, g))
calls_lem r c f raises_leave g = absurd (ground (arith, g))
calls_lem r c f clears_arrive g = absurd (ground (arith, g))
calls_lem r c f between g = absurd (ground (arith, g))
calls_lem r c f resets_leave g = absurd (ground (arith, g))
calls_lem r c f raises_arrive g = absurd (ground (arith, g))
calls_lem r c f clears_leave g = absurd (ground (arith, g))

-- A thread is outside the barrier only while the threads gather.
outside_lem :
    (n : ℕ) (s : System) (i j : ℕ)
    → i < n
    → j < n
    → Inv n s
    → s.pc i ≡ outside
    → (s.calls j ≡ s.calls i) ⊎ (s.calls j ≡ suc (s.calls i))
outside_lem n s i j hi hj v at = elim (v.phase) [
  | gathering r flag full all sum pos ↦
      let mine : s.calls i ≡ r =
        subst (λ (p : Pc). Gathers r s.bar.leave_flag p (s.calls i)) at (all i hi) in
      rw mine (calls_lem r (s.calls j) s.bar.leave_flag (s.pc j) (all j hj))
  | opening r k hk rest calls o ↦ elim (Bool-cases (k == i)) [
    | inl e ↦
        let same : k ≡ i = ground arith in
        absurd (ground (arith, subst (Opens n s.bar) (ap s.pc same ∙ at) o))
    | inr e ↦ absurd (ground (arith, sym at ∙ rest i hi e))
  ]
  | scattering r shut up full all calls sum pos ↦
      absurd (ground (arith, subst Scatters at (all i hi)))
  | closing r k hk rest calls o ↦ elim (Bool-cases (k == i)) [
    | inl e ↦
        let same : k ≡ i = ground arith in
        absurd (ground (arith, subst (Closes n s.bar) (ap s.pc same ∙ at) o))
    | inr e ↦ absurd (ground (arith, sym at ∙ rest i hi e))
  ]
]

-- With n threads, from 1 to 2^31 - 1 of them, that call `synchBarrierWait` again and again, in any
-- interleaving: when a thread is outside its calls, every other thread has made as many calls, or one more.
pub waits_for_all :
    (n : ℕ) (s : System) (i j : ℕ)
    → 0 < n
    → n < 2 ^ 31
    → Reach n (init n) s
    → i < n
    → j < n
    → s.pc i ≡ outside
    → (s.calls j ≡ s.calls i) ⊎ (s.calls j ≡ suc (s.calls i))
waits_for_all n s i j pos small run hi hj at =
    outside_lem n s i j hi hj (Reach-Inv n s pos small run) at
