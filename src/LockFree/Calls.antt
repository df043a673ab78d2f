-- ===== src/LockFree/Calls.antt =====
-- The events of one thread, from its call to its return, in a run of many threads.
use sim_universal_constructi.Prelude.{
  ℕ, ◌==◌, ◌≡◌, refl, sym, ◌∙◌, ap, true, false, Option, none, some, List, [], ◌∷◌, ◌++◌, arith,
  update, Bool-cases, inl, inr, Option-cases,
}

-- `move` is what an event does to what its thread is about; `none` where the thread cannot do it then.
module _ {Event Phase : Type 0} (thread_of : Event → ℕ) (move : Event → Phase → Option Phase) where
  -- What thread j is about after the events, the ones of other threads apart
  unfoldable pub track : ℕ → List Event → Phase → Option Phase
  track j [] p = some p
  track j (e ∷ es) p = elim (thread_of e == j) [
    | true ↦ elim (move e p) [ none ↦ none | some q ↦ track j es q ]
    | false ↦ track j es p
  ]

  track_hit :
      (j : ℕ) (e : Event) (es : List Event) (p q : Phase)
      → (thread_of e == j) ≡ true
      → move e p ≡ some q
      → track j (e ∷ es) p ≡ track j es q
  unfolding track
  track_hit j e es p q mine moved = ground (arith, mine, moved)

  track_miss :
      (j : ℕ) (e : Event) (es : List Event) (p : Phase)
      → (thread_of e == j) ≡ false
      → track j (e ∷ es) p ≡ track j es p
  unfolding track
  track_miss j e es p other = ground (arith, other)

  track_bad :
      (j : ℕ) (e : Event) (es : List Event) (p : Phase)
      → (thread_of e == j) ≡ true
      → move e p ≡ none
      → track j (e ∷ es) p ≡ none
  unfolding track
  track_bad j e es p mine bad = ground (arith, mine, bad)

  pub track-append :
      (j : ℕ) (past es : List Event) (p q : Phase)
      → track j past p ≡ some q
      → track j (past ++ es) p ≡ track j es q
  unfolding track
  track-append j [] es p q h = ground (arith, h)
  track-append j (e ∷ past) es p q h = elim (Bool-cases (thread_of e == j)) [
    | inr other ↦
        track_miss j e (past ++ es) p other
        ∙ track-append j past es p q (sym (track_miss j e past p other) ∙ h)
    | inl mine ↦ elim (Option-cases (move e p)) [
      | inl bad ↦ absurd (ground (arith, sym (track_bad j e past p mine bad) ∙ h))
      | inr (r, eq) ↦
          track_hit j e (past ++ es) p r mine eq
          ∙ track-append j past es r q (sym (track_hit j e past p r mine eq) ∙ h)
    ]
  ]

  -- Thread i goes to p, and what the others are about does not change.
  module _ {Pc : Type 0} (f g : Pc → Phase) (pc : ℕ → Pc) (i : ℕ) (p : Pc)
      (others : (j : ℕ) → (i == j) ≡ false → g (pc j) ≡ f (pc j)) where
    abbrev pub Tracks : List Event → Type 0
    Tracks es = (j : ℕ) → track j es (f (pc j)) ≡ some (g (update pc i p j))

    pub silent_lem : g p ≡ f (pc i) → Tracks []
    unfolding track
    silent_lem same j = elim (Bool-cases (i == j)) [
      | inl e ↦
          let eq : i ≡ j = ground arith in rw e (ap some (sym (same ∙ ap (λ (k : ℕ). f (pc k)) eq)))
      | inr e ↦ rw e (ap some (sym (others j e)))
    ]

    pub event_lem : (e : Event) → thread_of e ≡ i → move e (f (pc i)) ≡ some (g p) → Tracks (e ∷ [])
    unfolding track
    event_lem e by moved j = elim (Bool-cases (i == j)) [
      | inl here ↦
          let eq : i ≡ j = ground arith in
          let moves : move e (f (pc j)) ≡ some (g p) =
            sym (ap (λ (k : ℕ). move e (f (pc k))) eq) ∙ moved in
          track_hit j e [] (f (pc j)) (g p) (ap (λ (k : ℕ). k == j) by ∙ here) moves ∙ rw here refl
      | inr away ↦
          track_miss j e [] (f (pc j)) (ap (λ (k : ℕ). k == j) by ∙ away)
          ∙ rw away (ap some (sym (others j away)))
    ]
