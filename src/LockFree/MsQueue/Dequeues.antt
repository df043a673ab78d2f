-- ===== src/LockFree/MsQueue/Dequeues.antt =====
-- What the steps of `MSQueueDequeue` do to the list of an MS-Queue's values.
use sim_universal_constructi.Prelude.{
  ℕ, ◌==◌, ◌≡◌, refl, sym, ◌∙◌, ap, true, false, Option, none, some, List, [], ◌∷◌, arith, update,
  ℤ, eq_ℤ_iff, Bool-cases, inl, inr, subst,
}
use sim_universal_constructi.Queues.Nodes.{Linked, Distinct, empty_queue}
use sim_universal_constructi.LockFree.MsQueue.{
  Pc, reads_last, reads_second, aids, reads_val, removes, takes, returns, System, dequeued,
  saw_empty, retries, settles, goes, read_second, check_head, head_cas,
}
use sim_universal_constructi.LockFree.MsQueue.Facts.{
  owns, view, Leads, Left, Ok, Shape, Inv, moved-Inv, same_node,
}
use sim_universal_constructi.LockFree.MsQueue.Moves.{Takes, does, stays, stays-Inv, place-Ok}

-- A node that the head is at or behind, and that leads nowhere, is all of the chain.
alone :
    (s : System) (xs : List ℕ) (first : ℕ)
    → Shape (view s xs)
    → Left (view s xs) first
    → s.queue.heap.next first ≡ none
    → (xs ≡ []) × (s.queue.head ≡ first) × (s.queue.tail ≡ first)
alone s [] first sh l e =
    let at = sh.live first l.0 e in
    let t = sh.tail_in in
    let same : s.queue.head ≡ first = ground arith in (refl, same, ground (arith, same, t))
alone s (x ∷ xs) first sh l e =
    let at = sh.live first l.0 e in
    let same : first ≡ s.queue.head = ground (arith, at, l.1) in
    absurd (ground (arith, sym (ap s.queue.heap.next same) ∙ e, sh.chain.0))

module _ (s : System) (xs : List ℕ) (h : Inv s xs) (i : ℕ) where
  no_owner :
      (p : Pc)
      → ((a : ℕ) → owns p a ≡ false)
      → (j a : ℕ) → (i == j) ≡ false
      → owns p a ≡ true
      → owns (s.pc j) a ≡ false
  no_owner p e j a ne o = absurd (ground (arith, e a, o))

  -- A thread without a node of its own, that changes nothing but where it stands
  pub rests :
      (p : Pc) → ((a : ℕ) → owns p a ≡ false) → Ok (view s xs) p → Takes s xs [] (goes s i p)
  rests p none_own ok = stays s xs h i p ok (no_owner p none_own)

  pub read_second-Takes :
      (first last : ℕ) (o : Option ℕ)
      → s.pc i ≡ reads_last first last
      → s.queue.heap.next first ≡ o
      → Takes s xs (read_second s i first last).0 (read_second s i first last).1
  unfolding read_second
  read_second-Takes first last none at e =
      let me = place-Ok s xs h i (reads_last first last) at in
      let (empty, head, tail) = alone s xs first h.shape me.0 e in
      does s xs (read_second s i first last) (saw_empty i ∷ [])
        (goes s i (reads_second first last none)) (ground (arith, e))
        (
          xs,
          stays-Inv s xs h i (reads_second first last none)
              (me.0, (λ ne. absurd (ground (arith, me.1 ne, tail))), me.0.0)
              (no_owner (reads_second first last none) (λ a. refl)),
          rw (empty) refl,
        )
  read_second-Takes first last (some x) at e =
      let me = place-Ok s xs h i (reads_last first last) at in
      does s xs (read_second s i first last) [] (goes s i (reads_second first last (some x)))
        (ground (arith, e))
        (rests (reads_second first last (some x)) (λ a. refl)
          (me.0, (λ ne. (me.1 ne, λ bad. absurd (ground (arith, bad)))), (me.0.0, e)))

  -- The head is still at `first`, and the tail was there too, or it was not.
  empty_or_behind :
      (first last : ℕ) (next : Option ℕ)
      → s.pc i ≡ reads_second first last next
      → (s.queue.head == first) ≡ true
      → (first == last) ≡ true
      → Takes s xs (check_head s i first last next).0 (check_head s i first last next).1
  unfolding check_head
  empty_or_behind first last none at e same =
      does s xs (check_head s i first last none) (settles i ∷ []) (goes s i (returns empty_queue))
        (ground (arith, e, same)) (rests (returns empty_queue) (λ a. refl) tt)
  empty_or_behind first last (some x) at e same =
      let me = place-Ok s xs h i (reads_second first last (some x)) at in
      does s xs (check_head s i first last (some x)) [] (goes s i (aids last x))
        (ground (arith, e, same))
        (rests (aids last x) (λ a. refl)
          (subst (λ (a : ℕ). Leads (view s xs) a x) (same_node first last same) me.2))

  reads_on :
      (first last : ℕ) (next : Option ℕ)
      → s.pc i ≡ reads_second first last next
      → (s.queue.head == first) ≡ true
      → (first == last) ≡ false
      → Takes s xs (check_head s i first last next).0 (check_head s i first last next).1
  unfolding check_head
  reads_on first last none at e differ =
      absurd (((place-Ok s xs h i (reads_second first last none) at).1 differ).1 refl)
  reads_on first last (some x) at e differ =
      let me = place-Ok s xs h i (reads_second first last (some x)) at in
      does s xs (check_head s i first last (some x)) [] (goes s i (reads_val first x))
        (ground (arith, e, differ))
        (rests (reads_val first x) (λ a. refl) (me.0, (me.1 differ).0, me.2))

  pub check_head-Takes :
      (first last : ℕ) (next : Option ℕ)
      → s.pc i ≡ reads_second first last next
      → Takes s xs (check_head s i first last next).0 (check_head s i first last next).1
  unfolding check_head
  check_head-Takes first last next at = elim (Bool-cases (s.queue.head == first)) [
    | inr e ↦
        does s xs (check_head s i first last next) (retries i ∷ []) (goes s i removes)
          (ground (arith, e)) (rests removes (λ a. refl) tt)
    | inl e ↦ elim (Bool-cases (first == last)) [
      | inl same ↦ empty_or_behind first last next at e same
      | inr differ ↦ reads_on first last next at e differ
    ]
  ]

-- The dequeue that moves the head on
head_hit :
    (s : System) (xs : List ℕ) (i first x : ℕ) (v : ℤ)
    → Inv s xs
    → s.pc i ≡ takes first x v
    → s.queue.head ≡ first
    → Takes s xs
        (dequeued i v ∷ [])
        (record s { queue = record s.queue { head = x }; pc = update s.pc i (returns v) })
head_hit s [] i first x v h at same =
    let me = place-Ok s [] h i (takes first x v) at in
    absurd (ground (arith, sym (ap s.queue.heap.next same) ∙ h.shape.chain, me.2.1))
head_hit s (y ∷ xs) i first x v h at same =
    let t : System = record s {
      queue = record s.queue { head = x };
      pc = update s.pc i (returns v);
    } in
    let (left, ahead, leads, val, was) = place-Ok s (y ∷ xs) h i (takes first x v) at in
    let sh = h.shape in
    let eq : y ≡ x = ground (arith, sym sh.chain.0 ∙ ap s.queue.heap.next same ∙ leads.1) in
    let tail_moved : (s.queue.tail == s.queue.head) ≡ false = ground (arith, ahead, same) in
    (
      xs,
      moved-Inv s t (y ∷ xs) xs i (returns v) h refl
          (record {
            chain = subst (λ (a : ℕ). Linked s.queue.heap.next a xs) eq (sh.chain.1);
            distinct = subst (λ (a : ℕ). Distinct (a ∷ xs)) eq (sh.distinct.1);
            members = λ a m. sh.members a (ground (arith, eq, m));
            live = λ a l e. elim (Bool-cases (a == s.queue.head)) [
              | inl at_head ↦
                  let q : a ≡ s.queue.head = ground arith in
                  absurd (ground (arith, sym (ap s.queue.heap.next q) ∙ e, sh.chain.0))
              | inr off ↦ ground (arith, sh.live a l e, off, eq)
            ];
            closed = sh.closed;
            allocated = sh.allocated;
            tail_in = ground (arith, sh.tail_in, tail_moved, eq);
          })
          tt
          (λ j ne. record {
            linked = λ a l. l;
            leads = λ a z l. l.1;
            own = λ a m o. o;
            left = λ a l. ground (arith, l.1);
            ahead = λ a l e. e;
            val = λ a l. refl;
          })
          (λ j a ne o. absurd (ground (arith, o))),
      (let same_val : s.queue.heap.val y ≡ v = ap s.queue.heap.val eq ∙ val in
          ground (arith, same_val, eq_ℤ_iff v (s.queue.heap.val y))),
    )

pub head_cas-Takes :
    (s : System) (xs : List ℕ) (i first x : ℕ) (v : ℤ)
    → Inv s xs
    → s.pc i ≡ takes first x v
    → Takes s xs (head_cas s i first x v).0 (head_cas s i first x v).1
unfolding head_cas
head_cas-Takes s xs i first x v h at = elim (Bool-cases (s.queue.head == first)) [
  | inl e ↦
      does s xs (head_cas s i first x v) (dequeued i v ∷ [])
        (record s { queue = record s.queue { head = x }; pc = update s.pc i (returns v) })
        (ground (arith, e)) (head_hit s xs i first x v h at (same_node s.queue.head first e))
  | inr e ↦
      does s xs (head_cas s i first x v) [] (goes s i removes) (ground (arith, e))
        (rests s xs h i removes (λ a. refl) tt)
]
