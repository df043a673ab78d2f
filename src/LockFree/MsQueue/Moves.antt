-- ===== src/LockFree/MsQueue/Moves.antt =====
-- What the steps of an MS-Queue that write to it do to the list of its values.
use sim_universal_constructi.Prelude.{
  ℕ, ◌==◌, ◌≡◌, refl, sym, ◌∙◌, ap, Bool, true, false, Option, none, some, List, [], ◌∷◌, map,
  arith, update, Bool-cases, inl, inr, subst,
}
use sim_universal_constructi.Queues.Nodes.{ne_by, Linked, has, end_of}
use sim_universal_constructi.LockFree.MsQueue.{Pc, System, Event, goes, cas_tail, swing, replay}
use sim_universal_constructi.LockFree.MsQueue.Facts.{
  owns, View, view, Leads, Ok, Inv, Kept, moved-Inv,
}

-- The step leads to t, whose queue holds what the events leave of the values.
abbrev pub Takes : System → List ℕ → List Event → System → Type 0
Takes s xs events t =
    (ys : List ℕ) × Inv t ys
    × (replay events (map s.queue.heap.val xs) ≡ some (map t.queue.heap.val ys))

pub does :
    (s : System) (xs : List ℕ) (out : List Event × System) (es : List Event) (t : System)
    → out ≡ (es, t)
    → Takes s xs es t
    → Takes s xs out.0 out.1
does s xs out es t e r = subst (λ (o : List Event × System). Takes s xs o.0 o.1) (sym e) r

pub becomes :
    (s : System) (xs : List ℕ) (es : List Event) (t u : System)
    → u ≡ t
    → Takes s xs es t
    → Takes s xs es u
becomes s xs es t u e r = subst (λ (o : System). Takes s xs es o) (sym e) r

-- On a chain, the node without a link is the last one, and a link leads to a node behind the first.
pub end_lem :
    (next : ℕ → Option ℕ) (h a : ℕ) (xs : List ℕ)
    → Linked next h xs
    → has a (h ∷ xs) ≡ true
    → next a ≡ none
    → end_of h xs ≡ a
end_lem next h a [] l m e = ground arith
end_lem next h a (x ∷ xs) l m e =
    end_lem next x a xs l.1
      (elim (Bool-cases (a == h)) [
        | inl same ↦
            let eq : a ≡ h = ground arith in absurd (ground (arith, sym (ap next eq) ∙ e, l.0))
        | inr differ ↦ ground (arith, m, differ)
      ])
      e

pub succ_in :
    (next : ℕ → Option ℕ) (h a x : ℕ) (xs : List ℕ)
    → Linked next h xs
    → has a (h ∷ xs) ≡ true
    → next a ≡ some x
    → has x xs ≡ true
succ_in next h a x [] l m e =
    let eq : a ≡ h = ground arith in absurd (ground (arith, sym (ap next eq) ∙ e, l))
succ_in next h a x (y ∷ xs) l m e = elim (Bool-cases (a == h)) [
  | inl same ↦ let eq : a ≡ h = ground arith in ground (arith, sym (ap next eq) ∙ e, l.0)
  | inr differ ↦ ground (arith, succ_in next y a x xs l.1 (ground (arith, m, differ)) e)
]

Kept-same : (w : View) (mine : ℕ → Bool) → Kept w w mine
Kept-same w mine = record {
  linked = λ a l. l;
  leads = λ a x l. l.1;
  own = λ a m o. o;
  left = λ a l. l.1;
  ahead = λ a l e. e;
  val = λ a l. refl;
}

module _ (s : System) (xs : List ℕ) (h : Inv s xs) (i : ℕ) where
  -- A thread that changes nothing but where it stands
  pub stays-Inv :
      (p : Pc)
      → Ok (view s xs) p
      → ((j a : ℕ) → (i == j) ≡ false → owns p a ≡ true → owns (s.pc j) a ≡ false)
      → Inv (goes s i p) xs
  stays-Inv p mine apart =
      moved-Inv s (goes s i p) xs xs i p h refl h.shape mine
        (λ j e. Kept-same (view s xs) (owns (s.pc j))) apart

  pub stays :
      (p : Pc)
      → Ok (view s xs) p
      → ((j a : ℕ) → (i == j) ≡ false → owns p a ≡ true → owns (s.pc j) a ≡ false)
      → Takes s xs [] (goes s i p)
  stays p mine apart = (xs, stays-Inv p mine apart, refl)

  pub place-Ok : (p : Pc) → s.pc i ≡ p → Ok (view s xs) p
  place-Ok p e = rw (sym e) (h.knows i)

  pub apart_at :
      (p : Pc)
      → s.pc i ≡ p
      → (j a : ℕ) → (i == j) ≡ false
      → owns p a ≡ true
      → owns (s.pc j) a ≡ false
  apart_at p e j a ne = rw (sym e) (h.apart i j a ne)

  moves : (tail : ℕ) → System
  moves tail = record s { queue = record s.queue { tail = tail } }

  -- A compare-and-swap of the tail
  pub swing-Takes :
      (last next : ℕ) (p : Pc)
      → Leads (view s xs) last next
      → ((tail : ℕ) → Ok (view (record s { queue = record s.queue { tail = tail } }) xs) p)
      → ((j a : ℕ) → (i == j) ≡ false → owns p a ≡ true → owns (s.pc j) a ≡ false)
      → Takes s xs [] (swing s i last next p)
  unfolding cas_tail
  swing-Takes last next p l mine apart = elim (Bool-cases (s.queue.tail == last)) [
    | inl e ↦
        let t : System = record s {
          queue = record s.queue { tail = next };
          pc = update s.pc i p;
        } in
        let at : s.queue.tail ≡ last = ground arith in
        let behind : has next xs ≡ true =
          succ_in s.queue.heap.next s.queue.head last next xs h.shape.chain
            (subst (λ (a : ℕ). has a (s.queue.head ∷ xs) ≡ true) at (h.shape.tail_in)) l.1 in
        becomes s xs [] t (swing s i last next p) (ground (arith, e)) (
          xs,
          moved-Inv s t xs xs i p h refl
              (record {
                chain = h.shape.chain;
                distinct = h.shape.distinct;
                members = h.shape.members;
                live = h.shape.live;
                closed = h.shape.closed;
                allocated = h.shape.allocated;
                tail_in = ground (arith, behind);
              })
              (mine next)
              (λ j ne. record {
                linked = λ a l. l;
                leads = λ a x l. l.1;
                own = λ a m o. o;
                left = λ a l. l.1;
                ahead = λ a left e. ground (arith, ne_by (λ b. has b xs) a next behind left.1);
                val = λ a l. refl;
              })
              apart,
          refl,
        )
    | inr e ↦
        becomes s xs [] (goes s i p) (swing s i last next p) (ground (arith, e))
          (stays p (mine s.queue.tail) apart)
  ]
