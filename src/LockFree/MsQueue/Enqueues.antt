-- ===== src/LockFree/MsQueue/Enqueues.antt =====
-- What the steps of an MS-Queue that bring in a node do to the list of its values.
use sim_universal_constructi.Prelude.{
  ℕ, ◌==◌, ◌≡◌, refl, sym, ◌∙◌, ap, true, false, none, some, List, [], ◌∷◌, ◌++◌, arith, update, ℤ,
  ==_refl, Bool-cases, inl, inr, subst,
}
use sim_universal_constructi.Queues.Nodes.{
  ne_by, has, end_of, Linked-append, Linked-frame, Distinct-append, has-snoc, set_next, set_node,
}
use sim_universal_constructi.Queues.Lifo.{map-frame, map-snoc}
use sim_universal_constructi.LockFree.MsQueue.{
  enters, links, swings, System, enqueued, start_enqueue,
}
use sim_universal_constructi.LockFree.MsQueue.Facts.{
  owns, view, Inv, owns-Own, same_node, moved-Inv,
}
use sim_universal_constructi.LockFree.MsQueue.Moves.{Takes, place-Ok, apart_at, end_lem}

module _ (s : System) (xs : List ℕ) (h : Inv s xs) (i : ℕ) where
  pub start_enqueue-Takes :
      (p : ℕ) (v : ℤ) → s.used p ≡ false → Takes s xs [] (start_enqueue s i p v)
  unfolding start_enqueue
  start_enqueue-Takes p v fresh =
      let t : System = record s {
        queue = record s.queue { heap = set_node s.queue.heap p v none };
        used = update s.used p true;
        pc = update s.pc i (enters p);
      } in
      let sh = h.shape in
      let other : (a : ℕ) → s.linked a ≡ true → (p == a) ≡ false =
        λ a l. ne_by s.used p a (sh.allocated a l) fresh in
      let unlinked : s.linked p ≡ false = elim (Bool-cases (s.linked p)) [
        | inl l ↦ absurd (ground (arith, sh.allocated p l))
        | inr l ↦ l
      ] in
      (
        xs,
        moved-Inv s t xs xs i (enters p) h refl
            (record {
              chain =
                  Linked-frame s.queue.heap.next t.queue.heap.next s.queue.head xs
                    (λ a m. ground (arith, other a (sh.members a m))) sh.chain;
              distinct = sh.distinct;
              members = sh.members;
              live = λ a l e. sh.live a l (ground (arith, other a l, e));
              closed = λ a x l. sh.closed a x (l.0, ground (arith, other a l.0, l.1));
              allocated = λ a l. ground (arith, sh.allocated a l);
              tail_in = sh.tail_in;
            })
            (ground (arith, ==_refl p), unlinked, ground (arith, ==_refl p))
            (λ j ne. record {
              linked = λ a l. l;
              leads = λ a x l. ground (arith, other a l.0, l.1);
              own = λ a m o.
                  (ground (arith, o.0), o.1, ground (arith, ne_by s.used p a o.0 fresh, o.2));
              left = λ a l. l.1;
              ahead = λ a left e. e;
              val = λ a l. ground (arith, other a l);
            })
            (λ j a ne o. elim (Bool-cases (owns (s.pc j) a)) [
              | inl mine ↦ absurd (
                  ground (
                    arith,
                    o,
                    ne_by s.used p a (owns-Own (view s xs) (s.pc j) a (h.knows j) mine).0 fresh,
                  ))
              | inr not_mine ↦ not_mine
            ]),
        ap some (
            sym (
              map-frame s.queue.heap.val (update s.queue.heap.val p v) xs
                (λ a m. ground (arith, other a (sh.members a (ground (arith, m))))))),
      )

  -- The enqueue that links its node behind the last one
  pub link_hit :
      (p last : ℕ)
      → s.pc i ≡ links p last
      → s.queue.heap.next last ≡ none
      → Takes s xs (enqueued i (s.queue.heap.val p) ∷ []) (record s {
        queue = record s.queue { heap = set_next s.queue.heap last (some p) };
        linked = update s.linked p true;
        pc = update s.pc i (swings last p);
      })
  link_hit p last at free =
      let t : System = record s {
        queue = record s.queue { heap = set_next s.queue.heap last (some p) };
        linked = update s.linked p true;
        pc = update s.pc i (swings last p);
      } in
      let sh = h.shape in
      let (own, was) = place-Ok s xs h i (links p last) at in
      let other : (a : ℕ) → s.linked a ≡ true → (p == a) ≡ false =
        λ a l. ne_by s.linked p a l own.1 in
      let out : has p (s.queue.head ∷ xs) ≡ false = elim (Bool-cases (has p (s.queue.head ∷ xs))) [
        | inl m ↦ absurd (ground (arith, sh.members p m, own.1))
        | inr m ↦ m
      ] in
      let by_p : (a : ℕ) → (p == a) ≡ true → s.queue.heap.next a ≡ none =
        λ a e. sym (ap s.queue.heap.next (same_node p a e)) ∙ own.2 in
      let at_end : end_of s.queue.head xs ≡ last =
        end_lem s.queue.heap.next s.queue.head last xs sh.chain (sh.live last was free) free in
      (
        xs ++ p ∷ [],
        moved-Inv s t xs (xs ++ p ∷ []) i (swings last p) h refl
            (record {
              chain =
                  Linked-frame
                    (update (update s.queue.heap.next p none) (end_of s.queue.head xs) (some p))
                    t.queue.heap.next s.queue.head (xs ++ p ∷ [])
                    (λ a m. ground (arith, at_end, by_p a))
                    (Linked-append s.queue.heap.next s.queue.head p xs sh.chain sh.distinct out);
              distinct = Distinct-append s.queue.head p xs sh.distinct out;
              members = λ a m. elim (Bool-cases (p == a)) [
                | inl e ↦ rw e refl
                | inr e ↦ rw e (sh.members a (ground (arith, has-snoc a p xs, m, e)))
              ];
              live = λ a l e. elim (Bool-cases (p == a)) [
                | inl eq ↦ ground (arith, has-snoc a p xs, eq)
                | inr ne ↦ elim (Bool-cases (last == a)) [
                  | inl eq ↦ absurd (ground (arith, e, eq))
                  | inr nl ↦ ground (
                    arith,
                    has-snoc a p xs,
                    sh.live a (ground (arith, l, ne)) (ground (arith, e, nl)),
                  )
                ]
              ];
              closed = λ a x l. elim (Bool-cases (last == a)) [
                | inl eq ↦ ground (arith, eq, l.1, ==_refl p)
                | inr nl ↦ elim (Bool-cases (p == a)) [
                  | inl eq ↦ absurd (ground (arith, by_p a eq, nl, l.1))
                  | inr ne ↦
                      let x_linked =
                        sh.closed a x (ground (arith, l.0, ne), ground (arith, l.1, nl)) in
                      ground (arith, x_linked)
                ]
              ];
              allocated = λ a l. elim (Bool-cases (p == a)) [
                | inl eq ↦ subst (λ (b : ℕ). s.used b ≡ true) (same_node p a eq) own.0
                | inr ne ↦ sh.allocated a (ground (arith, l, ne))
              ];
              tail_in = ground (arith, has-snoc s.queue.tail p xs, sh.tail_in);
            })
            (ground (arith, was, other last was), ground (arith, ==_refl last))
            (λ j ne. record {
              linked = λ a l. ground (arith, l);
              leads = λ a x l. elim (Bool-cases (last == a)) [
                | inl eq ↦
                    let same = same_node last a eq in
                    absurd (ground (arith, sym (ap s.queue.heap.next same) ∙ free, l.1))
                | inr nl ↦ ground (arith, nl, l.1)
              ];
              own = λ a m o.
                  let np =
                    ne_by (owns (s.pc j)) p a m
                      (apart_at s xs h i (links p last) at j p ne (==_refl p)) in
                  let nl = ne_by s.linked a last was o.1 in
                  (o.0, ground (arith, np, o.1), ground (arith, nl, o.2));
              left = λ a l. ground (arith, has-snoc a p xs, l.1, other a l.0);
              ahead = λ a left e. e;
              val = λ a l. refl;
            })
            (λ j a ne o. absurd (ground (arith, o))),
        ap some (sym (map-snoc s.queue.heap.val xs p)),
      )
