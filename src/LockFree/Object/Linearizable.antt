-- ===== src/LockFree/Object/Linearizable.antt =====
-- Every run of a lock-free universal object takes effect as a sequence of calls of the serial function.
use sim_universal_constructi.Prelude.{
  ℕ, suc, ◌<◌, ◌≤◌, ◌==◌, ◌≡◌, ◌≢◌, refl, sym, ◌∙◌, ap, some, List, [], ◌∷◌, ◌++◌, arith, update, ℤ,
  eq_ℤ, eq_ℤ_iff, Bool-cases, inl, inr, subst,
}
use sim_universal_constructi.LockFree.Object.{
  Pc, idle, loops, tries, returns, System, Event, applies, goes, object_init, read_state, cas_state,
  advance, Step, starts, advances, Reach, here, later, replay, calls, answers, thread_of, move,
  phase, resting,
}
use sim_universal_constructi.LockFree.Calls.{track, track-append}
use sim_universal_constructi.LockFree.Object.Calls.{Step-Follows}

module _ (sfunc : ℤ → ℤ → ℕ → ℤ × ℤ) where
  -- What a thread has computed, and that the state is still the one that it read unless an operation has
  -- taken effect since
  abbrev Ok : System → ℕ → Pc → Type 0
  Ok s i (tries arg old new ret seen) =
      (sfunc old arg i ≡ (ret, new)) × (seen ≤ s.applied) × (s.applied ≡ seen → s.state ≡ old)
  Ok s i _ = Unit

  abbrev Inv : System → Type 0
  Inv s = (i : ℕ) → Ok s i (s.pc i)

  -- A step of one thread, that leaves what the others rely on
  moved-Inv :
      (s t : System) (i : ℕ) (p : Pc)
      → Inv s
      → t.pc ≡ update s.pc i p
      → Ok t i p
      → ((j : ℕ) (q : Pc) → Ok s j q → Ok t j q)
      → Inv t
  moved-Inv s t i p v at mine others j = elim (Bool-cases (i == j)) [
    | inl e ↦
        let same : i ≡ j = ground arith in
        let stands : t.pc j ≡ p = rw (at, e) refl in
        rw stands (subst (λ (k : ℕ). Ok t k p) same mine)
    | inr e ↦ let waits : t.pc j ≡ s.pc j = rw (at, e) refl in rw waits (others j (s.pc j) (v j))
  ]

  -- A step leads to t, whose state is what the events leave of the state of s.
  abbrev Takes : System → List Event → System → Type 0
  Takes s es t = Inv t × (replay sfunc es s.state ≡ some t.state)

  does :
      (s : System) (out : List Event × System) (es : List Event) (t : System)
      → out ≡ (es, t)
      → Takes s es t
      → Takes s out.0 out.1
  does s out es t e r = subst (λ (o : List Event × System). Takes s o.0 o.1) (sym e) r

  goes-Ok : (s : System) (i : ℕ) (p : Pc) (j : ℕ) (q : Pc) → Ok s j q → Ok (goes s i p) j q
  goes-Ok s i p j idle ok = tt
  goes-Ok s i p j (loops arg) ok = tt
  goes-Ok s i p j (tries arg old new ret seen) ok = ok
  goes-Ok s i p j (returns r) ok = tt

  stays : (s : System) (i : ℕ) (p : Pc) → Inv s → Ok s i p → Takes s [] (goes s i p)
  stays s i p v mine =
      (moved-Inv s (goes s i p) i p v refl (goes-Ok s i p i p mine) (goes-Ok s i p), refl)

  applied-Ok :
      (s : System) (new : ℤ) (pc : ℕ → Pc) (j : ℕ) (q : Pc)
      → Ok s j q
      → Ok (record { state = new; applied = suc s.applied; pc = pc }) j q
  applied-Ok s new pc j idle ok = tt
  applied-Ok s new pc j (loops arg) ok = tt
  applied-Ok s new pc j (tries arg old n ret seen) ok =
      (ok.0, omega (arith, ok.1), λ e. absurd (omega (arith, ok.1, e)))
  applied-Ok s new pc j (returns r) ok = tt

  cas_state-Takes :
      (s : System) (i : ℕ) (arg old new ret : ℤ) (seen : ℕ)
      → Inv s
      → s.pc i ≡ tries arg old new ret seen
      → Takes s (cas_state sfunc s i arg old new ret).0 (cas_state sfunc s i arg old new ret).1
  unfolding cas_state
  cas_state-Takes s i arg old new ret seen v at = elim (Bool-cases (eq_ℤ s.state old)) [
    | inl e ↦
        let t : System = record {
          state = new;
          applied = suc s.applied;
          pc = update s.pc i (returns ret);
        } in
        let me = subst (Ok s i) at (v i) in
        let same : s.state ≡ old = ground (arith, e, eq_ℤ_iff s.state old) in
        let call : sfunc s.state arg i ≡ (ret, new) = ap (λ (x : ℤ). sfunc x arg i) same ∙ me.0 in
        does s (cas_state sfunc s i arg old new ret) (applies i arg ret ∷ []) t (ground (arith, e))
          (
            moved-Inv s t i (returns ret) v refl tt
                (applied-Ok s new (update s.pc i (returns ret))),
            ground (arith, call, eq_ℤ_iff ret ret),
          )
    | inr e ↦
        does s (cas_state sfunc s i arg old new ret) [] (goes s i (loops arg)) (ground (arith, e))
          (stays s i (loops arg) v tt)
  ]

  advance-Takes :
      (s : System) (i : ℕ) (p : Pc)
      → Inv s
      → s.pc i ≡ p
      → Takes s (advance sfunc s i).0 (advance sfunc s i).1
  unfolding advance read_state
  advance-Takes s i idle v at = does s (advance sfunc s i) [] s (rw (at, advance) refl) (v, refl)
  advance-Takes s i (loops arg) v at =
      does s (advance sfunc s i) [] (read_state sfunc s i arg) (rw (at, advance) refl) (
        stays s i (tries arg s.state (sfunc s.state arg i).1 (sfunc s.state arg i).0 s.applied) v
          (refl, omega arith, λ e. refl))
  advance-Takes s i (tries arg old new ret seen) v at =
      does s (advance sfunc s i) (cas_state sfunc s i arg old new ret).0
        (cas_state sfunc s i arg old new ret).1 (rw (at, advance) refl)
        (cas_state-Takes s i arg old new ret seen v at)
  advance-Takes s i (returns r) v at =
      does s (advance sfunc s i) (answers i r ∷ []) (goes s i idle) (rw (at, advance) refl)
        (stays s i idle v tt)

  Step-Takes : (s t : System) (es : List Event) → Inv s → Step sfunc s es t → Takes s es t
  Step-Takes s t es v (starts i arg at e eq) = rw (e, eq) (stays s i (loops arg) v tt)
  Step-Takes s t es v (advances i eq) =
      subst (λ (o : List Event × System). Takes s o.0 o.1) (sym eq)
        (advance-Takes s i (s.pc i) v refl)

  replay-append :
      (past es : List Event) (v w : ℤ)
      → replay sfunc past v ≡ some w
      → replay sfunc (past ++ es) v ≡ replay sfunc es w
  replay-append [] es v w e = ground (arith, e)
  replay-append (calls i arg ∷ past) es v w e = replay-append past es v w e
  replay-append (answers i r ∷ past) es v w e = replay-append past es v w e
  replay-append (applies i arg r ∷ past) es v w e = elim (Bool-cases (eq_ℤ r (sfunc v arg i).0)) [
    | inl same ↦ rw same (replay-append past es (sfunc v arg i).1 w (ground (arith, e, same)))
    | inr same ↦ absurd (ground (arith, e, same))
  ]

  init-Inv : (value : ℤ) → Inv (object_init value)
  unfolding object_init
  init-Inv value i = tt

  Reach-Takes :
      (value : ℤ) (past : List Event) (s : System)
      → Reach sfunc (object_init value) past s
      → Inv s × (replay sfunc past value ≡ some s.state)
  unfolding object_init
  Reach-Takes value _ _ here = (init-Inv value, refl)
  Reach-Takes value _ u (later {past = past} {events = es} {t = t} run step) =
      let (v, e) = Reach-Takes value past t run in
      let (kept, d) = Step-Takes t u es v step in (kept, replay-append past es value t.state e ∙ d)

  Reach-Follows :
      (value : ℤ) (past : List Event) (s : System)
      → Reach sfunc (object_init value) past s
      → (j : ℕ) → track thread_of move j past resting ≡ some (phase (s.pc j))
  unfolding object_init track phase
  Reach-Follows value _ _ here j = refl
  Reach-Follows value _ u (later {past = past} {events = es} {t = t} run step) j =
      track-append thread_of move j past es resting (phase (t.pc j))
        (Reach-Follows value past t run j)
      ∙ Step-Follows sfunc t u es step j

  -- After any interleaving of operations on a universal object, the operations that took effect, one after the
  -- other, are calls of the serial function on the object's value, with the results that it returns, and
  -- they leave the state of the object; and the events of each thread are calls one after the other, each
  -- of which takes effect once before it returns, with the argument that it was called with, and returns
  -- the result that it took effect with, up to the call that the thread is in.
  pub object_linearizable :
      (value : ℤ) (past : List Event) (s : System)
      → Reach sfunc (object_init value) past s
      → (replay sfunc past value ≡ some s.state)
        × ((j : ℕ) → track thread_of move j past resting ≡ some (phase (s.pc j)))
  object_linearizable value past s run =
      ((Reach-Takes value past s run).1, Reach-Follows value past s run)

  -- After any interleaving of operations on a universal object, when the compare-and-swap of a thread is
  -- about to fail, an operation has taken effect since the thread read the state.
  pub failure_means_progress :
      (value : ℤ) (past : List Event) (s : System)
      → Reach sfunc (object_init value) past s
      → (i : ℕ) (arg old new ret : ℤ) (seen : ℕ) → s.pc i ≡ tries arg old new ret seen
      → s.state ≢ old
      → seen < s.applied
  failure_means_progress value past s run i arg old new ret seen at differ =
      let me = subst (Ok s i) at ((Reach-Takes value past s run).0 i) in
      elim (Bool-cases (s.applied == seen)) [
        | inl e ↦ absurd (differ (me.2 (ground (arith, e))))
        | inr e ↦ ground (arith, e, me.1)
      ]
