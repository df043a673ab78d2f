-- ===== src/Combining/HierServes.antt =====
-- A combiner of H-Synch serves the announced requests of its NUMA node one after the other, in the order in
-- which they were announced.
use sim_universal_constructi.Prelude.{
  ℕ, zero, suc, ◌*◌, ◌==◌, ◌≡◌, refl, false, some, List, ◌∷◌, map, arith, ℤ, Option-cases, inl, inr,
  subst, sym, ==_refl,
}
use sim_universal_constructi.Queues.Nodes.{Linked, has, Distinct}
use sim_universal_constructi.Combining.Cc.{Nodes, serve, unlock}
use sim_universal_constructi.Combining.Cc
use sim_universal_constructi.Combining.Serves.{
  served, stop, serial, requests, Same, Done, Serves, combine-Serves, stop-served, Done-unlock,
}
use sim_universal_constructi.Combining.Hier.{
  HSynch, hsynch_help_factor, combine, resume, clh_lock, clh_unlock,
}

module _ (S : Type 0) (sfunc : S → ℤ → ℕ → ℤ × S) where
  -- The loop is that of CC-Synch.
  combine_same :
      (left p : ℕ) (n : Nodes) (s : S) → combine S sfunc left p n s ≡ Cc.combine S sfunc left p n s
  unfolding combine Cc.combine
  combine_same zero p n s = refl
  combine_same (suc left) p n s = elim (Option-cases (n.next p)) [
    | inl e ↦ rw (e, combine, Cc.combine) refl
    | inr (x, e) ↦ rw (e, combine, Cc.combine) (combine_same left x _ _)
  ]

module _ (S : Type 0) (sfunc : S → ℤ → ℕ → ℤ × S) (l : HSynch) (cur : ℕ) (xs : List ℕ) (s : S) where
  abbrev bound : ℕ
  bound = hsynch_help_factor * l.nthreads

  -- The served requests have the results, and the object the state, of the serial run; the node behind
  -- them is unlocked and not marked as completed; node a stands as it did.
  abbrev pub HandsOver : List ℕ → ℕ → ℕ → HSynch → S → Type 0
  HandsOver ws q a l' t =
      (map l'.cells.arg_ret ws ≡ (serial S sfunc s (requests l.cells ws)).0)
      × (t ≡ (serial S sfunc s (requests l.cells ws)).1)
      × Done l'.cells ws
      × (l'.cells.locked q ≡ false)
      × (l'.cells.completed q ≡ l.cells.completed q)
      × Same l.cells l'.cells a
      × (l'.central_locked ≡ false)

  -- A thread that is unlocked without having been served and finds the central lock free becomes the combiner. When the
  -- links lead from its node `cur` through the nodes xs, all different, it returns its own result, and has
  -- served the requests of the chain in order, 10 * nthreads of them at most: their results and the
  -- state of the object are those of the serial run. It unlocks the node behind them. Any other node stands as it
  -- did, and the central lock is free again.
  pub hier_resume_serves :
      (a : ℕ)
      → Linked l.cells.next cur xs
      → Distinct (cur ∷ xs)
      → l.cells.locked cur ≡ false
      → l.cells.completed cur ≡ false
      → l.central_locked ≡ false
      → has a (served bound cur xs) ≡ false
      → (stop bound cur xs == a) ≡ false
      → (l' : HSynch) × (t : S) × (resume S sfunc l cur s ≡ some (l'.cells.arg_ret cur, l', t))
        × HandsOver (served bound cur xs) (stop bound cur xs) a l' t
  unfolding resume unlock clh_lock clh_unlock
  hier_resume_serves a linked d free unserved unheld h ne =
      let out = combine S sfunc bound cur l.cells s in
      let (at, (links, rets, state, done, same)) =
        subst (λ (o : ℕ × Nodes × S). Serves S sfunc bound cur xs l.cells s o)
          (sym (combine_same S sfunc bound cur l.cells s))
          (combine-Serves S sfunc bound cur xs l.cells s linked d) in
      let there = same (stop bound cur xs) (stop-served bound cur xs d) in
      (
        record l { central_locked = false; cells = unlock out.1 out.0 },
        out.2,
        ground (arith, free, unserved, unheld),
        (
          rets,
          state,
          Done-unlock out.1 out.0 (served bound cur xs) done,
          ground (arith, at, ==_refl (stop bound cur xs)),
          there.3,
          (let o = same a h in (o.0, o.1, ground (arith, at, ne, o.2), o.3)),
          refl,
        ),
      )
