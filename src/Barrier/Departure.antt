-- ===== src/Barrier/Departure.antt =====
-- The departure from a barrier: what each step does to the phase.
use sim_universal_constructi.Prelude.{
  ℕ, suc, ◌+◌, ◌-◌, ◌<◌, ◌^◌, ◌==◌, ◌≡◌, refl, true, false, arith, update, subst, Bool-cases, inl,
  inr, ltb, ==_refl,
}
use sim_universal_constructi.Barrier.{
  Barrier, less_one, Pc, outside, waits_arrive, resets_arrive, raises_leave, clears_arrive, between,
  waits_leave, resets_leave, raises_arrive, clears_leave, System, goes, departs, advance,
}
use sim_universal_constructi.Barrier.Count.{count, count_more, count_same, count_others, count_none}
use sim_universal_constructi.Barrier.Phases.{
  at_arrive, at_leave, Scatters, Closes, gathering, scattering, closing, Inv, less_one_lem,
  more_lem,
}
use sim_universal_constructi.Barrier.Arrival.{becomes, same_thread}

spin : (s : System) (i : ℕ) → s.pc i ≡ waits_leave → s.bar.leave_flag ≡ true → advance s i ≡ s
unfolding advance
spin s i at flag = ground (arith, at, flag)

leaving : (p : Pc) → at_leave p ≡ true → p ≡ waits_leave
leaving waits_leave e = refl
leaving outside e = absurd (ground (arith, e))
leaving waits_arrive e = absurd (ground (arith, e))
leaving resets_arrive e = absurd (ground (arith, e))
leaving raises_leave e = absurd (ground (arith, e))
leaving clears_arrive e = absurd (ground (arith, e))
leaving between e = absurd (ground (arith, e))
leaving resets_leave e = absurd (ground (arith, e))
leaving raises_arrive e = absurd (ground (arith, e))
leaving clears_leave e = absurd (ground (arith, e))

module _ (n : ℕ) (s : System) (i r : ℕ) (hi : i < n) (small : n < 2 ^ 31)
    (val : s.bar.val_at_set ≡ n) (calls : (j : ℕ) → j < n → s.calls j ≡ suc r) where
  module _ (shut : s.bar.arrive_flag ≡ false) (up : s.bar.leave_flag ≡ true)
      (full : s.bar.arrive ≡ n) (all : (j : ℕ) → j < n → Scatters (s.pc j))
      (sum : s.bar.leave + count at_leave s.pc n ≡ n) (pos : 0 < s.bar.leave) where
    -- A thread that others have yet to follow
    departs_early : s.pc i ≡ between → 1 < s.bar.leave → Inv n (departs s i)
    unfolding departs
    departs_early at more =
        let b = record s.bar { leave = s.bar.leave - 1 } in
        let lo : less_one s.bar.leave ≡ s.bar.leave - 1 =
          less_one_lem s.bar.leave pos (omega (arith, sum, small)) in
        let yes_more = more_lem s.bar.leave more (omega (arith, sum, small)) in
        becomes n (goes s b i waits_leave) (departs s i) (rw (yes_more, lo, departs) refl) (record {
          val = val;
          phase =
              scattering r shut up full
                (λ j hj. elim (Bool-cases (i == j)) [ inl e ↦ rw e tt | inr e ↦ rw e (all j hj) ])
                calls
                (let more_in = count_more at_leave s.pc n i waits_leave hi (rw at refl) refl in
                  omega (arith, more_in, sum, more))
                (omega arith);
        })

    departs_last : s.pc i ≡ between → s.bar.leave ≡ 1 → Inv n (departs s i)
    unfolding departs
    departs_last at one =
        let b = record s.bar { leave = 0 } in
        becomes n (goes s b i resets_leave) (departs s i) (rw (one, departs) refl) (record {
          val = val;
          phase =
              closing r i hi
                (λ j hj ne. rw ne (
                  leaving (s.pc j) (
                    count_others at_leave s.pc n i j waits_leave refl (omega (arith, sum, one)) hi
                      (rw at refl) hj ne)))
                calls (rw (==_refl i) (up, full, shut));
        })

    -- Any step while the threads scatter
    pub scatter_step : (p : Pc) → s.pc i ≡ p → Inv n (advance s i)
    unfolding advance
    scatter_step waits_arrive at =
        becomes n (goes s s.bar i between) (advance s i) (ground (arith, at, shut)) (record {
          val = val;
          phase =
              scattering r shut up full
                (λ j hj. elim (Bool-cases (i == j)) [ inl e ↦ rw e tt | inr e ↦ rw e (all j hj) ])
                calls
                (let same_in = count_same at_leave s.pc n i between (rw at refl) in
                  omega (arith, same_in, sum))
                pos;
        })
    scatter_step between at =
        becomes n (departs s i) (advance s i) (rw (at, advance) refl)
          (elim (Bool-cases (ltb 1 s.bar.leave)) [
            | inl more ↦ departs_early at (ground (arith, more))
            | inr last ↦ departs_last at (ground (arith, last, pos))
          ])
    scatter_step waits_leave at =
        becomes n s (advance s i) (spin s i at up)
          (record { val = val; phase = scattering r shut up full all calls sum pos })
    scatter_step outside at = absurd (ground (arith, all i hi, at))
    scatter_step resets_arrive at = absurd (ground (arith, all i hi, at))
    scatter_step raises_leave at = absurd (ground (arith, all i hi, at))
    scatter_step clears_arrive at = absurd (ground (arith, all i hi, at))
    scatter_step resets_leave at = absurd (ground (arith, all i hi, at))
    scatter_step raises_arrive at = absurd (ground (arith, all i hi, at))
    scatter_step clears_leave at = absurd (ground (arith, all i hi, at))

  -- Any step while the last thread to leave closes the barrier
  module _ (k : ℕ) (hk : k < n)
      (rest : (j : ℕ) → j < n → (k == j) ≡ false → s.pc j ≡ waits_leave) where
    store : (b : Barrier) (p : Pc) → b.val_at_set ≡ n → Closes n b p → Inv n (goes s b k p)
    store b p v o = record {
      val = v;
      phase = closing r k hk (λ j hj ne. rw ne (rest j hj ne)) calls (rw (==_refl k) o);
    }

    closer_step : (p : Pc) → s.pc k ≡ p → Closes n s.bar p → Inv n (advance s k)
    unfolding advance
    closer_step resets_leave at o =
        becomes n (goes s (record s.bar { leave = s.bar.val_at_set }) k raises_arrive) (advance s k)
          (rw (at, advance) refl)
          (store (record s.bar { leave = s.bar.val_at_set }) raises_arrive val (o.0, o.1, val))
    closer_step raises_arrive at o =
        becomes n (goes s (record s.bar { arrive_flag = true }) k clears_leave) (advance s k)
          (rw (at, advance) refl)
          (store (record s.bar { arrive_flag = true }) clears_leave val (o.0, o.1, o.2, refl))
    closer_step clears_leave at o =
        becomes n (goes s (record s.bar { leave_flag = false }) k outside) (advance s k)
          (rw (at, advance) refl)
          (record {
            val = val;
            phase =
                gathering (suc r) (o.3) (o.2)
                  (λ j hj. elim (Bool-cases (k == j)) [
                    | inl e ↦ rw e (calls j hj)
                    | inr e ↦ rw (e, rest j hj e) (calls j hj, refl)
                  ])
                  (let none_yet = count_none at_arrive (update s.pc k outside) n (λ j hj.
                      elim (Bool-cases (k == j)) [
                        | inl e ↦ rw e refl
                        | inr e ↦ rw (e, rest j hj e) refl
                      ]) in
                    omega (arith, none_yet, o.1))
                  (omega (arith, o.1, hk));
          })
    closer_step outside at o = absurd (ground (arith, o))
    closer_step waits_arrive at o = absurd (ground (arith, o))
    closer_step resets_arrive at o = absurd (ground (arith, o))
    closer_step raises_leave at o = absurd (ground (arith, o))
    closer_step clears_arrive at o = absurd (ground (arith, o))
    closer_step between at o = absurd (ground (arith, o))
    closer_step waits_leave at o = absurd (ground (arith, o))

    close_flag : (p : Pc) → Closes n s.bar p → s.bar.leave_flag ≡ true
    close_flag resets_leave o = o.0
    close_flag raises_arrive o = o.0
    close_flag clears_leave o = o.0
    close_flag outside o = absurd (ground (arith, o))
    close_flag waits_arrive o = absurd (ground (arith, o))
    close_flag resets_arrive o = absurd (ground (arith, o))
    close_flag raises_leave o = absurd (ground (arith, o))
    close_flag clears_arrive o = absurd (ground (arith, o))
    close_flag between o = absurd (ground (arith, o))
    close_flag waits_leave o = absurd (ground (arith, o))

    pub closing_step : Closes n s.bar (s.pc k) → Inv n (advance s i)
    closing_step o = elim (Bool-cases (k == i)) [
      | inl e ↦
          subst (λ (j : ℕ). Inv n (advance s j)) (same_thread k i e) (closer_step (s.pc k) refl o)
      | inr e ↦
          becomes n s (advance s i) (spin s i (rest i hi e) (close_flag (s.pc k) o))
            (record { val = val; phase = closing r k hk rest calls o })
    ]
