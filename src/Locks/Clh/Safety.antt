-- ===== src/Locks/Clh/Safety.antt =====
-- What holds of a CLH lock in every state that its threads can reach.
use sim_universal_constructi.Prelude.{
  ℕ, ◌≡◌, ◌⊎◌, inl, inr, refl, ap, sym, ◌∙◌, Bool, true, false, List, [], ◌∷◌, arith, ==_refl,
}
use sim_universal_constructi.Locks.Clh.{
  Pc, idle, marked, waiting, critical, leaving, System, Reach, init,
}
use sim_universal_constructi.Queues.Nodes.{has}
use sim_universal_constructi.Locks.Clh.Queue.{Inv, Kept, Apart, queued, init-Kept, Reach-Kept}

queued_cases : (p : Pc) → queued p ≡ true → (p ≡ waiting) ⊎ (p ≡ critical)
queued_cases idle h = cc
queued_cases marked h = cc
queued_cases waiting h = inl refl
queued_cases critical h = inr refl
queued_cases leaving h = cc

abbrev Leader : System → Type 0
Leader s =
    (j : ℕ) × ((s.pc j ≡ critical)
      ⊎ (s.pc j ≡ waiting) × (s.lock.locked (s.lock.my_pred j) ≡ false))

leader : (s : System) (q : List ℕ) (free i : ℕ) → Inv s q free → has i q ≡ true → Leader s
leader s [] free i v h = cc
leader s (j ∷ r) free i v h = (
  j,
  elim (queued_cases (s.pc j) (sym (v.members j) ∙ ground (arith, ==_refl j))) [
    | inl e ↦ inr (e, ap s.lock.locked (v.chain.0) ∙ v.unlocked)
    | inr e ↦ inl e
  ],
)

module _ (first : ℕ) (nodes : ℕ → ℕ) (memory : ℕ → Bool) (s : System) (a : Apart first nodes)
    (r : Reach (init first nodes memory) s) where
  kept : Kept s
  kept = Reach-Kept (init first nodes memory) s (init-Kept first nodes memory a) r

  -- When no two nodes of a CLH lock have the same address, at no time two threads are between the return
  -- of `CLHLock` and the release in `CLHUnlock`, however the threads interleave.
  pub mutual_exclusion : (i j : ℕ) → s.pc i ≡ critical → s.pc j ≡ critical → i ≡ j
  mutual_exclusion i j in_i in_j =
      let (q, free, v) = kept in ground (arith, v.head i in_i, v.head j in_j)

  -- If a thread waits, then some thread is in its critical section, or some waiting thread finds its
  -- predecessor's node unlocked and enters with its next step.
  pub no_deadlock :
      (i : ℕ)
      → s.pc i ≡ waiting
      → (j : ℕ) × ((s.pc j ≡ critical)
          ⊎ (s.pc j ≡ waiting) × (s.lock.locked (s.lock.my_pred j) ≡ false))
  no_deadlock i e = let (q, free, v) = kept in leader s q free i v (v.members i ∙ ap queued e)
