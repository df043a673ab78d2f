-- ===== src/Locks/Mcs/Shifts.antt =====
-- The steps of an MCS lock that change its queue.
use sim_universal_constructi.Prelude.{
  ℕ, ◌==◌, ◌≡◌, ◌≢◌, refl, sym, ◌∙◌, ap, false, none, some, List, [], ◌∷◌, ◌++◌, arith, update,
  subst, Bool-cases, inl, inr, ==_refl,
}
use sim_universal_constructi.Queues.Nodes.{has, end_of, ne_by, has-end_of, ne_of_has, has-snoc}
use sim_universal_constructi.Locks.Mcs.{
  McsLock, Pc, idle, readies, marks_tail, marks_node, marks_own, links, waits, critical, tries,
  awaits, hands, clears, faults, System, goes,
}
use sim_universal_constructi.Locks.Mcs.Queue.{
  queued, Behind, Outside, Inv, Chain-frame, tail_of, prev_in,
}
use sim_universal_constructi.Queues.Nodes.{Distinct-append}
use sim_universal_constructi.Locks.Mcs.{swap_tail, cas_tail, hand_over}
use sim_universal_constructi.Locks.Mcs.Aims.{Aims-goes, Aims-snoc}
use sim_universal_constructi.Locks.Mcs.Moves.{moved-Inv, Chain-link, Chain-swap}
use sim_universal_constructi.Locks.Mcs.Steps.{
  Kept, becomes, front_goes, is_front, in_rest, nonempty,
}

-- A thread whose predecessor has a link waits, and is what the link leads to.
waiting :
    (l : McsLock) (a b : ℕ) (p : Pc)
    → l.next a ≢ none
    → Behind l a b p
    → (p ≡ waits) × (l.next a ≡ some b)
waiting l a b waits n c = (refl, c.0)
waiting l a b (marks_tail prev) n c = absurd (n c.1)
waiting l a b (marks_node x prev) n c = absurd (n c.1)
waiting l a b (marks_own prev) n c = absurd (n c.1)
waiting l a b (links prev) n c = absurd (n c.1)
waiting l a b idle n c = absurd (ground (arith, c))
waiting l a b readies n c = absurd (ground (arith, c))
waiting l a b critical n c = absurd (ground (arith, c))
waiting l a b tries n c = absurd (ground (arith, c))
waiting l a b awaits n c = absurd (ground (arith, c))
waiting l a b hands n c = absurd (ground (arith, c))
waiting l a b clears n c = absurd (ground (arith, c))
waiting l a b faults n c = absurd (ground (arith, c))

module _ (s : System) (i : ℕ) where
  -- The swap, on an empty queue and behind others
  pub swap-Kept : (q : List ℕ) → Inv s q → s.pc i ≡ readies → Kept (swap_tail s i)
  unfolding swap_tail
  swap-Kept [] v at =
      let t : System = goes s (record s.lock { tail = some i }) i waits in
      let mine = subst (Outside s.lock i) at (v.outside i) in
      let first : t.pc i ≡ waits = rw (==_refl i) refl in
      becomes t (swap_tail s i) (ground (arith, v.front)) (
        i ∷ [],
        moved-Inv s t [] (i ∷ []) i waits v refl (refl, tt) (ground (arith, ==_refl i))
            (λ j ne. ground (arith, ne))
            (
              rw (==_refl i) refl,
              mine.0,
              (refl, mine.1),
              λ e. absurd (ground (arith, sym first ∙ e)),
            )
            (rw (==_refl i) tt, tt) tt (λ j ne free. (refl, refl)),
      )
  swap-Kept (h ∷ r) v at =
      let prev = end_of h r in
      let t : System = goes s (record s.lock { tail = some i }) i (marks_tail prev) in
      let mine = subst (Outside s.lock i) at (v.outside i) in
      let absent : has i (h ∷ r) ≡ false = v.members i ∙ ap queued at in
      let ends = tail_of s h r v.front.2 in
      let ne : (i == h) ≡ false = ground (arith, absent) in
      let first : t.pc h ≡ s.pc h = rw ne refl in
      becomes t (swap_tail s i) (ground (arith, ends)) (
        (h ∷ r) ++ i ∷ [],
        moved-Inv s t (h ∷ r) ((h ∷ r) ++ i ∷ []) i (marks_tail prev) v refl
            (Distinct-append h i r v.distinct absent)
            (ground (arith, has-snoc i i (h ∷ r), ==_refl i))
            (λ j e. ground (arith, has-snoc j i (h ∷ r), e))
            (
              rw first (v.front.0),
              v.front.1,
              Chain-swap s h i prev r absent mine.1 ends v.front.2,
              λ e. v.front.3 (sym first ∙ e),
            )
            (Aims-snoc t.pc i (h ∷ r) (rw (==_refl i) (λ q'. tt))
              (Aims-goes s.pc i (marks_tail prev) (h ∷ r) (λ q'. tt) v.aims))
            tt (λ j e free. (refl, refl)),
      )

  pub link-Kept :
      (q : List ℕ) (prev : ℕ)
      → Inv s q
      → s.pc i ≡ links prev
      → Kept (goes s (record s.lock { next = update s.lock.next prev (some i) }) i waits)
  link-Kept [] prev v at = absurd (ground (arith, nonempty s i (links prev) v at refl))
  link-Kept (h ∷ r) prev v at =
      let t : System = goes s (record s.lock { next = update s.lock.next prev (some i) }) i waits in
      let (m, ne) = in_rest s i h r (links prev) v at refl refl in
      let first : t.pc h ≡ s.pc h = rw ne refl in
      let there = prev_in s h i prev r v.front.2 m at in
      (
        h ∷ r,
        moved-Inv s t (h ∷ r) (h ∷ r) i waits v refl v.distinct (ground (arith, m)) (λ j e. refl)
            (
              rw first (v.front.0),
              v.front.1,
              Chain-link s h i prev r v.distinct m at v.front.2,
              λ e. elim (Bool-cases (prev == h)) [
                | inl eq ↦ λ bad. absurd (ground (arith, eq, bad))
                | inr off ↦ rw off (v.front.3 (sym first ∙ e))
              ],
            )
            (Aims-goes s.pc i waits (h ∷ r) (λ q'. tt) v.aims) tt
            (λ j e free. (
              refl,
              let out : has j (h ∷ r) ≡ false = v.members j ∙ free in
                  ground (arith, ne_by (λ k. has k (h ∷ r)) j prev there out),
            )),
      )

  pub cas-Kept : (q : List ℕ) → Inv s q → s.pc i ≡ tries → Kept (cas_tail s i)
  unfolding cas_tail
  cas-Kept [] v at = absurd (ground (arith, nonempty s i tries v at refl))
  cas-Kept (h ∷ []) v at =
      let same = is_front s i h [] tries v at refl (λ b x. x) in
      let t : System = goes s (record s.lock { tail = none }) i idle in
      becomes t (cas_tail s i) (ground (arith, v.front.2.0, same)) (
        [],
        moved-Inv s t (h ∷ []) [] i idle v refl tt refl (λ j ne. ground (arith, same, ne)) refl tt
            (ground (arith, same, v.front.1)) (λ j ne free. (refl, refl)),
      )
  cas-Kept (h ∷ x ∷ r) v at =
      let same = is_front s i h (x ∷ r) tries v at refl (λ b x. x) in
      let ends = tail_of s h (x ∷ r) v.front.2 in
      let far = ne_of_has h (end_of x r) (x ∷ r) v.distinct.0 (has-end_of x r) in
      becomes (goes s s.lock i awaits) (cas_tail s i) (ground (arith, ends, same, far)) (
        front_goes s i h (x ∷ r) awaits v same refl refl (λ e. absurd (ground (arith, e)))
          (λ q'. tt))

  pub hand-Kept : (q : List ℕ) → Inv s q → s.pc i ≡ hands → Kept (hand_over s i)
  unfolding hand_over
  hand-Kept [] v at = absurd (ground (arith, nonempty s i hands v at refl))
  hand-Kept (h ∷ []) v at =
      let same = is_front s i h [] hands v at refl (λ b x. x) in
      absurd (v.front.3 (ap s.pc same ∙ at) v.front.2.1)
  hand-Kept (h ∷ b ∷ r) v at =
      let same = is_front s i h (b ∷ r) hands v at refl (λ b x. x) in
      let linked = v.front.3 (ap s.pc same ∙ at) in
      let (there, next) = waiting s.lock h b (s.pc b) linked v.front.2.0 in
      let t : System = goes s (record s.lock { locked = update s.lock.locked b false }) i clears in
      let apart : (i == b) ≡ false = ground (arith, same, v.distinct.0) in
      let second : t.pc b ≡ waits = rw apart there in
      becomes t (hand_over s i) (ground (arith, same, next)) (
        b ∷ r,
        moved-Inv s t (h ∷ b ∷ r) (b ∷ r) i clears v refl v.distinct.1
            (ground (arith, same, v.distinct.0)) (λ j ne. ground (arith, same, ne))
            (
              rw second refl,
              ground (arith, ==_refl b),
              Chain-frame s t b r refl (λ j m. refl)
                  (λ j m. (
                    ground (arith, same, ne_of_has h j (b ∷ r) v.distinct.0 (ground (arith, m))),
                    λ l. ground (arith, ne_of_has b j r v.distinct.1.0 m, l),
                  ))
                  v.front.2.1,
              λ e. absurd (ground (arith, sym second ∙ e)),
            )
            (Aims-goes s.pc i clears (b ∷ r) (λ q'. tt) v.aims.1)
            (ground (arith, apart, same, v.front.1))
            (λ j ne free. (
              let out : has j (h ∷ b ∷ r) ≡ false = v.members j ∙ free in ground (arith, out),
              refl,
            )),
      )
