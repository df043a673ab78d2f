-- ===== src/Barrier/Progress.antt =====
-- The threads at a barrier never all wait.
use sim_universal_constructi.Prelude.{ℕ, ◌<◌, ◌^◌, ◌≡◌, false, arith}
use sim_universal_constructi.Barrier.{
  Barrier, Pc, outside, waits_arrive, resets_arrive, raises_leave, clears_arrive, between,
  waits_leave, resets_leave, raises_arrive, clears_leave, System, Reach, init,
}
use sim_universal_constructi.Barrier.Count.{count_find}
use sim_universal_constructi.Barrier.Phases.{
  at_arrive, at_leave, Gathers, Opens, Scatters, Closes, gathering, opening, scattering, closing,
}
use sim_universal_constructi.Barrier.Waits.{Reach-Inv}

-- The thread is not in a loop on a flag that is set.
abbrev pub Moves : Barrier → Pc → Type 0
Moves b waits_arrive = b.arrive_flag ≡ false
Moves b waits_leave = b.leave_flag ≡ false
Moves b _ = Unit

gather_free :
    (b : Barrier) (r c : ℕ) (p : Pc) → Gathers r b.leave_flag p c → at_arrive p ≡ false → Moves b p
gather_free b r c outside g e = tt
gather_free b r c waits_arrive g e = absurd (ground (arith, e))
gather_free b r c waits_leave g e = g.1
gather_free b r c resets_arrive g e = absurd (ground (arith, g))
gather_free b r c raises_leave g e = absurd (ground (arith, g))
gather_free b r c clears_arrive g e = absurd (ground (arith, g))
gather_free b r c between g e = absurd (ground (arith, g))
gather_free b r c resets_leave g e = absurd (ground (arith, g))
gather_free b r c raises_arrive g e = absurd (ground (arith, g))
gather_free b r c clears_leave g e = absurd (ground (arith, g))

scatter_free :
    (b : Barrier) (p : Pc) → b.arrive_flag ≡ false → Scatters p → at_leave p ≡ false → Moves b p
scatter_free b waits_arrive f g e = f
scatter_free b between f g e = tt
scatter_free b waits_leave f g e = absurd (ground (arith, e))
scatter_free b outside f g e = absurd (ground (arith, g))
scatter_free b resets_arrive f g e = absurd (ground (arith, g))
scatter_free b raises_leave f g e = absurd (ground (arith, g))
scatter_free b clears_arrive f g e = absurd (ground (arith, g))
scatter_free b resets_leave f g e = absurd (ground (arith, g))
scatter_free b raises_arrive f g e = absurd (ground (arith, g))
scatter_free b clears_leave f g e = absurd (ground (arith, g))

opener_free : (n : ℕ) (b : Barrier) (p : Pc) → Opens n b p → Moves b p
opener_free n b resets_arrive o = tt
opener_free n b raises_leave o = tt
opener_free n b clears_arrive o = tt
opener_free n b outside o = absurd (ground (arith, o))
opener_free n b waits_arrive o = absurd (ground (arith, o))
opener_free n b between o = absurd (ground (arith, o))
opener_free n b waits_leave o = absurd (ground (arith, o))
opener_free n b resets_leave o = absurd (ground (arith, o))
opener_free n b raises_arrive o = absurd (ground (arith, o))
opener_free n b clears_leave o = absurd (ground (arith, o))

closer_free : (n : ℕ) (b : Barrier) (p : Pc) → Closes n b p → Moves b p
closer_free n b resets_leave o = tt
closer_free n b raises_arrive o = tt
closer_free n b clears_leave o = tt
closer_free n b outside o = absurd (ground (arith, o))
closer_free n b waits_arrive o = absurd (ground (arith, o))
closer_free n b resets_arrive o = absurd (ground (arith, o))
closer_free n b raises_leave o = absurd (ground (arith, o))
closer_free n b clears_arrive o = absurd (ground (arith, o))
closer_free n b between o = absurd (ground (arith, o))
closer_free n b waits_leave o = absurd (ground (arith, o))

-- With n threads, from 1 to 2^31 - 1 of them, that call `synchBarrierWait` again and again, in any
-- interleaving: there is always a thread that is not in a loop on a flag that is set.
pub never_stuck :
    (n : ℕ) (s : System)
    → 0 < n
    → n < 2 ^ 31
    → Reach n (init n) s
    → (i : ℕ) × (i < n) × Moves s.bar (s.pc i)
never_stuck n s pos small run = elim ((Reach-Inv n s pos small run).phase) [
  | gathering r flag full all sum more ↦
      let (i, hi, e) = count_find at_arrive s.pc n (omega (arith, sum, more)) in
      (i, hi, gather_free s.bar r (s.calls i) (s.pc i) (all i hi) e)
  | opening r k hk rest calls o ↦ (k, hk, opener_free n s.bar (s.pc k) o)
  | scattering r shut up full all calls sum more ↦
      let (i, hi, e) = count_find at_leave s.pc n (omega (arith, sum, more)) in
      (i, hi, scatter_free s.bar (s.pc i) shut (all i hi) e)
  | closing r k hk rest calls o ↦ (k, hk, closer_free n s.bar (s.pc k) o)
]
