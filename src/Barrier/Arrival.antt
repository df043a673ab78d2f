-- ===== src/Barrier/Arrival.antt =====
-- The arrival at a barrier: what each step does to the phase.
use sim_universal_constructi.Prelude.{
  ℕ, suc, ◌+◌, ◌-◌, ◌<◌, ◌^◌, ◌==◌, ◌≡◌, refl, sym, ap, Bool, true, false, arith, update, subst,
  Bool-cases, inl, inr, ltb, ==_refl,
}
use sim_universal_constructi.Barrier.{
  Barrier, less_one, Pc, outside, waits_arrive, resets_arrive, raises_leave, clears_arrive, between,
  waits_leave, resets_leave, raises_arrive, clears_leave, System, goes, arrives, advance,
}
use sim_universal_constructi.Barrier.Count.{count, count_more, count_same, count_others, count_none}
use sim_universal_constructi.Barrier.Phases.{
  at_arrive, at_leave, Gathers, Opens, gathering, opening, scattering, Inv, less_one_lem, more_lem,
}

pub becomes : (n : ℕ) (t u : System) → u ≡ t → Inv n t → Inv n u
becomes n t u e i = subst (λ (s : System). Inv n s) (sym e) i

pub same_thread : (i j : ℕ) → (i == j) ≡ true → i ≡ j
same_thread i j e = ground arith

spin : (s : System) (i : ℕ) → s.pc i ≡ waits_arrive → s.bar.arrive_flag ≡ true → advance s i ≡ s
unfolding advance
spin s i at flag = ground (arith, at, flag)

waiting :
    (r c : ℕ) (f : Bool) (p : Pc)
    → at_arrive p ≡ true
    → Gathers r f p c
    → (p ≡ waits_arrive) × (c ≡ suc r)
waiting r c f waits_arrive e g = (refl, g)
waiting r c f outside e g = absurd (ground (arith, e))
waiting r c f resets_arrive e g = absurd (ground (arith, e))
waiting r c f raises_leave e g = absurd (ground (arith, e))
waiting r c f clears_arrive e g = absurd (ground (arith, e))
waiting r c f between e g = absurd (ground (arith, e))
waiting r c f waits_leave e g = absurd (ground (arith, e))
waiting r c f resets_leave e g = absurd (ground (arith, e))
waiting r c f raises_arrive e g = absurd (ground (arith, e))
waiting r c f clears_leave e g = absurd (ground (arith, e))

module _ (n : ℕ) (s : System) (i r : ℕ) (hi : i < n) (small : n < 2 ^ 31)
    (val : s.bar.val_at_set ≡ n) where
  module _ (flag : s.bar.arrive_flag ≡ true) (full : s.bar.leave ≡ n)
      (all : (j : ℕ) → j < n → Gathers r s.bar.leave_flag (s.pc j) (s.calls j))
      (sum : s.bar.arrive + count at_arrive s.pc n ≡ n) (pos : 0 < s.bar.arrive) where
    -- A thread that others are still missing for
    arrives_early : s.pc i ≡ outside → 1 < s.bar.arrive → Inv n (arrives s i)
    unfolding arrives
    arrives_early at more =
        let c : s.calls i ≡ r =
          subst (λ (p : Pc). Gathers r s.bar.leave_flag p (s.calls i)) at (all i hi) in
        let t : System = record {
          bar = record s.bar { arrive = s.bar.arrive - 1 };
          pc = update s.pc i waits_arrive;
          calls = update s.calls i (suc (s.calls i));
        } in
        let lo : less_one s.bar.arrive ≡ s.bar.arrive - 1 =
          less_one_lem s.bar.arrive pos (omega (arith, sum, small)) in
        let yes_more = more_lem s.bar.arrive more (omega (arith, sum, small)) in
        becomes n t (arrives s i) (rw (yes_more, lo, arrives) refl) (record {
          val = val;
          phase =
              gathering r flag full
                (λ j hj. elim (Bool-cases (i == j)) [
                  | inl e ↦ rw e (ap suc c)
                  | inr e ↦ rw e (all j hj)
                ])
                (let more_in = count_more at_arrive s.pc n i waits_arrive hi (rw at refl) refl in
                  omega (arith, more_in, sum, more))
                (omega arith);
        })

    others_wait :
        s.pc i ≡ outside
        → s.bar.arrive ≡ 1
        → (j : ℕ) → j < n
        → (i == j) ≡ false
        → (s.pc j ≡ waits_arrive) × (s.calls j ≡ suc r)
    others_wait at one j hj ne =
        waiting r (s.calls j) s.bar.leave_flag (s.pc j)
          (count_others at_arrive s.pc n i j waits_arrive refl (omega (arith, sum, one)) hi
            (rw at refl) hj ne)
          (all j hj)

    arrives_last : s.pc i ≡ outside → s.bar.arrive ≡ 1 → Inv n (arrives s i)
    unfolding arrives
    arrives_last at one =
        let c : s.calls i ≡ r =
          subst (λ (p : Pc). Gathers r s.bar.leave_flag p (s.calls i)) at (all i hi) in
        let t : System = record {
          bar = record s.bar { arrive = 0 };
          pc = update s.pc i resets_arrive;
          calls = update s.calls i (suc (s.calls i));
        } in
        becomes n t (arrives s i) (rw (one, arrives) refl) (record {
          val = val;
          phase =
              opening r i hi (λ j hj ne. rw ne ((others_wait at one j hj ne).0))
                (λ j hj. elim (Bool-cases (i == j)) [
                  | inl e ↦ rw e (ap suc c)
                  | inr e ↦ rw e ((others_wait at one j hj e).1)
                ])
                (rw (==_refl i) (flag, full));
        })

    -- Any step while the threads gather
    pub gather_step : (p : Pc) → s.pc i ≡ p → Inv n (advance s i)
    unfolding advance
    gather_step outside at =
        becomes n (arrives s i) (advance s i) (rw (at, advance) refl)
          (elim (Bool-cases (ltb 1 s.bar.arrive)) [
            | inl more ↦ arrives_early at (ground (arith, more))
            | inr last ↦ arrives_last at (ground (arith, last, pos))
          ])
    gather_step waits_arrive at =
        becomes n s (advance s i) (spin s i at flag)
          (record { val = val; phase = gathering r flag full all sum pos })
    gather_step waits_leave at =
        let me = subst (λ (p : Pc). Gathers r s.bar.leave_flag p (s.calls i)) at (all i hi) in
        becomes n (goes s s.bar i outside) (advance s i) (ground (arith, at, me.1)) (record {
          val = val;
          phase =
              gathering r flag full
                (λ j hj. elim (Bool-cases (i == j)) [
                  | inl e ↦ rw e (subst (λ (k : ℕ). s.calls k ≡ r) (same_thread i j e) me.0)
                  | inr e ↦ rw e (all j hj)
                ])
                (let same_in = count_same at_arrive s.pc n i outside (rw at refl) in
                  omega (arith, same_in, sum))
                pos;
        })
    gather_step resets_arrive at = absurd (ground (arith, all i hi, at))
    gather_step raises_leave at = absurd (ground (arith, all i hi, at))
    gather_step clears_arrive at = absurd (ground (arith, all i hi, at))
    gather_step between at = absurd (ground (arith, all i hi, at))
    gather_step resets_leave at = absurd (ground (arith, all i hi, at))
    gather_step raises_arrive at = absurd (ground (arith, all i hi, at))
    gather_step clears_leave at = absurd (ground (arith, all i hi, at))

  -- Any step while the last thread to arrive opens the barrier
  module _ (k : ℕ) (hk : k < n) (rest : (j : ℕ) → j < n → (k == j) ≡ false → s.pc j ≡ waits_arrive)
      (calls : (j : ℕ) → j < n → s.calls j ≡ suc r) where
    store : (b : Barrier) (p : Pc) → b.val_at_set ≡ n → Opens n b p → Inv n (goes s b k p)
    store b p v o = record {
      val = v;
      phase = opening r k hk (λ j hj ne. rw ne (rest j hj ne)) calls (rw (==_refl k) o);
    }

    opener_step : (p : Pc) → s.pc k ≡ p → Opens n s.bar p → Inv n (advance s k)
    unfolding advance
    opener_step resets_arrive at o =
        becomes n (goes s (record s.bar { arrive = s.bar.val_at_set }) k raises_leave) (advance s k)
          (rw (at, advance) refl)
          (store (record s.bar { arrive = s.bar.val_at_set }) raises_leave val (o.0, o.1, val))
    opener_step raises_leave at o =
        becomes n (goes s (record s.bar { leave_flag = true }) k clears_arrive) (advance s k)
          (rw (at, advance) refl)
          (store (record s.bar { leave_flag = true }) clears_arrive val (o.0, o.1, o.2, refl))
    opener_step clears_arrive at o =
        becomes n (goes s (record s.bar { arrive_flag = false }) k between) (advance s k)
          (rw (at, advance) refl)
          (record {
            val = val;
            phase =
                scattering r refl (o.3) (o.2)
                  (λ j hj. elim (Bool-cases (k == j)) [
                    | inl e ↦ rw e tt
                    | inr e ↦ rw (e, rest j hj e) tt
                  ])
                  calls
                  (let none_yet = count_none at_leave (update s.pc k between) n (λ j hj.
                      elim (Bool-cases (k == j)) [
                        | inl e ↦ rw e refl
                        | inr e ↦ rw (e, rest j hj e) refl
                      ]) in
                    omega (arith, none_yet, o.1))
                  (omega (arith, o.1, hk));
          })
    opener_step outside at o = absurd (ground (arith, o))
    opener_step waits_arrive at o = absurd (ground (arith, o))
    opener_step between at o = absurd (ground (arith, o))
    opener_step waits_leave at o = absurd (ground (arith, o))
    opener_step resets_leave at o = absurd (ground (arith, o))
    opener_step raises_arrive at o = absurd (ground (arith, o))
    opener_step clears_leave at o = absurd (ground (arith, o))

    open_flag : (p : Pc) → Opens n s.bar p → s.bar.arrive_flag ≡ true
    open_flag resets_arrive o = o.0
    open_flag raises_leave o = o.0
    open_flag clears_arrive o = o.0
    open_flag outside o = absurd (ground (arith, o))
    open_flag waits_arrive o = absurd (ground (arith, o))
    open_flag between o = absurd (ground (arith, o))
    open_flag waits_leave o = absurd (ground (arith, o))
    open_flag resets_leave o = absurd (ground (arith, o))
    open_flag raises_arrive o = absurd (ground (arith, o))
    open_flag clears_leave o = absurd (ground (arith, o))

    pub opening_step : Opens n s.bar (s.pc k) → Inv n (advance s i)
    unfolding advance
    opening_step o = elim (Bool-cases (k == i)) [
      | inl e ↦
          subst (λ (j : ℕ). Inv n (advance s j)) (same_thread k i e) (opener_step (s.pc k) refl o)
      | inr e ↦
          becomes n s (advance s i) (spin s i (rest i hi e) (open_flag (s.pc k) o))
            (record { val = val; phase = opening r k hk rest calls o })
    ]
