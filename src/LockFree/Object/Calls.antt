-- ===== src/LockFree/Object/Calls.antt =====
-- What each thread of a lock-free universal object is about, along a run.
use sim_universal_constructi.Prelude.{
  ℕ, ◌≡◌, refl, sym, ◌∙◌, ap, some, List, [], ◌∷◌, arith, ℤ, eq_ℤ, eq_ℤ_iff, Bool-cases, inl, inr,
  subst, suc,
}
use sim_universal_constructi.LockFree.Calls.{track, silent_lem, event_lem}
use sim_universal_constructi.LockFree.Object.{
  Pc, idle, loops, tries, returns, System, Event, calls, applies, answers, goes, read_state,
  cas_state, advance, Step, starts, advances, thread_of, move, phase,
}

abbrev pub Follows : System → List Event → System → Type 0
Follows s es t = (j : ℕ) → track thread_of move j es (phase (s.pc j)) ≡ some (phase (t.pc j))

follows :
    (s : System) (out : List Event × System) (es : List Event) (t : System)
    → out ≡ (es, t)
    → Follows s es t
    → Follows s out.0 out.1
follows s out es t e r = subst (λ (o : List Event × System). Follows s o.0 o.1) (sym e) r

module _ (s : System) (i : ℕ) (q : Pc) (at : s.pc i ≡ q) where
  silent : (p : Pc) → phase p ≡ phase q → Follows s [] (goes s i p)
  silent p h = silent_lem thread_of move phase phase s.pc i p (λ j ne. refl) (h ∙ ap phase (sym at))

  event :
      (state : ℤ) (applied : ℕ) (e : Event) (p : Pc)
      → thread_of e ≡ i
      → move e (phase q) ≡ some (phase p)
      → Follows s (e ∷ []) (goes (record s { state = state; applied = applied }) i p)
  event state applied e p by h =
      event_lem thread_of move phase phase s.pc i p (λ j ne. refl) e by
        (ap (λ a. move e (phase a)) at ∙ h)

module _ (sfunc : ℤ → ℤ → ℕ → ℤ × ℤ) (s : System) (i : ℕ) where
  cas_state-Follows :
      (arg old new ret : ℤ) (seen : ℕ)
      → s.pc i ≡ tries arg old new ret seen
      → Follows s (cas_state sfunc s i arg old new ret).0 (cas_state sfunc s i arg old new ret).1
  unfolding cas_state phase move
  cas_state-Follows arg old new ret seen at = elim (Bool-cases (eq_ℤ s.state old)) [
    | inl e ↦
        follows s (cas_state sfunc s i arg old new ret) (applies i arg ret ∷ [])
          (goes (record s { state = new; applied = suc s.applied }) i (returns ret))
          (ground (arith, e))
          (event s i (tries arg old new ret seen) at new (suc s.applied) (applies i arg ret)
            (returns ret) refl (ground (arith, eq_ℤ_iff arg arg)))
    | inr e ↦
        follows s (cas_state sfunc s i arg old new ret) [] (goes s i (loops arg))
          (ground (arith, e)) (silent s i (tries arg old new ret seen) at (loops arg) refl)
  ]

  advance-Follows : (p : Pc) → s.pc i ≡ p → Follows s (advance sfunc s i).0 (advance sfunc s i).1
  unfolding advance read_state phase move track
  advance-Follows idle at = follows s (advance sfunc s i) [] s (rw (at, advance) refl) (λ j. refl)
  advance-Follows (loops arg) at =
      follows s (advance sfunc s i) [] (read_state sfunc s i arg) (rw (at, advance) refl) (
        silent s i (loops arg) at
          (tries arg s.state (sfunc s.state arg i).1 (sfunc s.state arg i).0 s.applied) refl)
  advance-Follows (tries arg old new ret seen) at =
      follows s (advance sfunc s i) (cas_state sfunc s i arg old new ret).0
        (cas_state sfunc s i arg old new ret).1 (rw (at, advance) refl)
        (cas_state-Follows arg old new ret seen at)
  advance-Follows (returns r) at =
      follows s (advance sfunc s i) (answers i r ∷ []) (goes s i idle) (rw (at, advance) refl) (
        event s i (returns r) at s.state s.applied (answers i r) idle refl
          (ground (arith, eq_ℤ_iff r r)))

pub Step-Follows :
    (sfunc : ℤ → ℤ → ℕ → ℤ × ℤ) (s t : System) (es : List Event)
    → Step sfunc s es t
    → Follows s es t
unfolding phase move
Step-Follows sfunc s t es (starts i arg at e eq) =
    rw (e, eq) (event s i idle at s.state s.applied (calls i arg) (loops arg) refl refl)
Step-Follows sfunc s t es (advances i eq) =
    subst (λ (o : List Event × System). Follows s o.0 o.1) (sym eq)
      (advance-Follows sfunc s i (s.pc i) refl)
