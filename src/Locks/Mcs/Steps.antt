-- ===== src/Locks/Mcs/Steps.antt =====
-- Every step of an MCS lock keeps its queue.
use sim_universal_constructi.Prelude.{
  ℕ, ◌==◌, ◌≡◌, ◌≢◌, refl, sym, ◌∙◌, ap, Bool, true, false, none, List, [], ◌∷◌, arith, update,
  subst, Bool-cases, inl, inr, ==_refl,
}
use sim_universal_constructi.Queues.Nodes.{has, ne_by, ne_of_has}
use sim_universal_constructi.Locks.Mcs.{Pc, hands, System, goes}
use sim_universal_constructi.Locks.Mcs.Queue.{
  queued, in_front, Behind, Front, Outside, Aim, Aims, Inv, Chain-frame,
}
use sim_universal_constructi.Locks.Mcs.Aims.{Aims-goes}
use sim_universal_constructi.Locks.Mcs.Moves.{moved-Inv, inside, predecessor_lem, Chain-mark}

abbrev pub Kept : System → Type 0
Kept s = (q : List ℕ) × Inv s q

pub becomes : (t u : System) → u ≡ t → Kept t → Kept u
becomes t u e k = subst Kept (sym e) k

pub Front-frame :
    (s t : System) (q : List ℕ)
    → t.lock.tail ≡ s.lock.tail
    → ((j : ℕ)
        → has j q ≡ true
        → (t.lock.next j ≡ s.lock.next j) × (t.pc j ≡ s.pc j) × (t.lock.locked j ≡ s.lock.locked j))
    → Front s q
    → Front t q
Front-frame s t [] e f c = e ∙ c
Front-frame s t (h ∷ r) e f c =
    let k = f h (ground (arith, ==_refl h)) in
    (
      rw (k.1) (c.0),
      k.2 ∙ c.1,
      Chain-frame s t h r e (λ j m. (f j m).0)
          (λ j m. let o = f j (ground (arith, m)) in (o.1, λ l. o.2 ∙ l)) c.2,
      λ at. rw (k.0) (c.3 (sym k.1 ∙ at)),
    )

module _ (s : System) (i : ℕ) where
  -- A thread outside the queue clears its own link.
  pub clear_own :
      (q : List ℕ) (p : Pc)
      → Inv s q
      → queued (s.pc i) ≡ false
      → queued p ≡ false
      → Outside (record s.lock { next = update s.lock.next i none }) i p
      → ((q' : List ℕ) → Aim p q')
      → Kept (goes s (record s.lock { next = update s.lock.next i none }) i p)
  clear_own q p v was is out plain =
      let t : System = goes s (record s.lock { next = update s.lock.next i none }) i p in
      let absent : has i q ≡ false = v.members i ∙ was in
      (
        q,
        moved-Inv s t q q i p v refl v.distinct (absent ∙ sym is) (λ j ne. refl)
            (Front-frame s t q refl
              (λ j m.
                let ne = ne_of_has i j q absent m in (ground (arith, ne), ground (arith, ne), refl))
              v.front)
            (Aims-goes s.pc i p q plain v.aims) out (λ j ne free. (refl, ground (arith, ne))),
      )

  -- The first thread goes on, inside the lock.
  pub front_goes :
      (h : ℕ) (r : List ℕ) (p : Pc)
      → Inv s (h ∷ r)
      → h ≡ i
      → in_front p ≡ true
      → queued p ≡ true
      → (p ≡ hands → s.lock.next h ≢ none)
      → ((q' : List ℕ) → Aim p q')
      → Kept (goes s s.lock i p)
  front_goes h r p v same is busy next plain =
      let t : System = goes s s.lock i p in
      let at : (i == h) ≡ true = ground (arith, same) in
      let here : t.pc h ≡ p = rw at refl in
      (
        h ∷ r,
        moved-Inv s t (h ∷ r) (h ∷ r) i p v refl v.distinct (ground (arith, same, busy))
            (λ j ne. refl)
            (
              rw here is,
              v.front.1,
              Chain-frame s t h r refl (λ j m. refl)
                  (λ j m. (ground (arith, same, ne_of_has h j r v.distinct.0 m), λ l. l)) v.front.2,
              λ e. next (sym here ∙ e),
            )
            (Aims-goes s.pc i p (h ∷ r) plain v.aims) (inside s.lock i p busy)
            (λ j ne free. (refl, refl)),
      )

  -- A queued thread that cannot be behind another one is the first.
  pub is_front :
      (h : ℕ) (r : List ℕ) (p : Pc)
      → Inv s (h ∷ r)
      → s.pc i ≡ p
      → queued p ≡ true
      → ((b : ℕ) → Behind s.lock b i p → true ≡ false)
      → h ≡ i
  is_front h r p v at busy never = elim (Bool-cases (i == h)) [
    | inl e ↦ ground arith
    | inr e ↦
        let m : has i (h ∷ r) ≡ true = v.members i ∙ (ap queued at ∙ busy) in
        let (b, behind) = predecessor_lem s h i r v.front.2 (ground (arith, m, e)) in
        absurd (ground (arith, never b (subst (Behind s.lock b i) at behind)))
  ]

  -- A queued thread that cannot be the first is behind another one.
  pub in_rest :
      (h : ℕ) (r : List ℕ) (p : Pc)
      → Inv s (h ∷ r)
      → s.pc i ≡ p
      → queued p ≡ true
      → in_front p ≡ false
      → (has i r ≡ true) × ((i == h) ≡ false)
  in_rest h r p v at busy back =
      let m : has i (h ∷ r) ≡ true = v.members i ∙ (ap queued at ∙ busy) in
      let ne : (i == h) ≡ false = elim (Bool-cases (i == h)) [
        | inl e ↦
            let same : h ≡ i = ground arith in
            absurd (ground (arith, v.front.0, sym (ap in_front (ap s.pc same ∙ at)), back))
        | inr e ↦ e
      ] in
      (ground (arith, m, ne), ne)

  pub nonempty : (p : Pc) → Inv s [] → s.pc i ≡ p → queued p ≡ true → true ≡ false
  nonempty p v at busy = sym (v.members i ∙ (ap queued at ∙ busy))

  -- A thread behind the first changes its place, and may lock more nodes of the queue but the first.
  pub back_moves :
      (h : ℕ) (r : List ℕ) (p : Pc) (locked : ℕ → Bool)
      → Inv s (h ∷ r)
      → has i r ≡ true
      → (i == h) ≡ false
      → queued p ≡ true
      → locked h ≡ s.lock.locked h
      → ((j : ℕ) → s.lock.locked j ≡ true → locked j ≡ true)
      → ((j : ℕ) → has j r ≡ false → locked j ≡ s.lock.locked j)
      → Aims (update s.pc i p) (h ∷ r)
      → ((c : ℕ) → Behind s.lock c i (s.pc i) → Behind (record s.lock { locked = locked }) c i p)
      → Kept (goes s (record s.lock { locked = locked }) i p)
  back_moves h r p locked v m ne busy first more outs aims step =
      let t : System = goes s (record s.lock { locked = locked }) i p in
      let here : t.pc i ≡ p = rw (==_refl i) refl in
      let stands : t.pc h ≡ s.pc h = rw ne refl in
      (
        h ∷ r,
        moved-Inv s t (h ∷ r) (h ∷ r) i p v refl v.distinct (ground (arith, m, busy)) (λ j e. refl)
            (
              rw stands (v.front.0),
              first ∙ v.front.1,
              Chain-mark s t h i r refl refl (λ c b. rw here (step c b))
                  (λ j e. (rw e refl, more j)) v.front.2,
              λ e. v.front.3 (sym stands ∙ e),
            )
            aims (inside t.lock i p busy)
            (λ j e free. (
              let out : has j (h ∷ r) ≡ false = v.members j ∙ free in outs j (ground (arith, out)),
              refl,
            )),
      )

  -- It locks one of them.
  pub back_goes :
      (h : ℕ) (r : List ℕ) (p : Pc) (a : ℕ)
      → Inv s (h ∷ r)
      → has i r ≡ true
      → (i == h) ≡ false
      → has a r ≡ true
      → queued p ≡ true
      → ((q' : List ℕ) → Aim p q')
      → ((c : ℕ)
          → Behind s.lock c i (s.pc i)
          → Behind (record s.lock { locked = update s.lock.locked a true }) c i p)
      → Kept (goes s (record s.lock { locked = update s.lock.locked a true }) i p)
  back_goes h r p a v m ne ma busy plain step =
      back_moves h r p (update s.lock.locked a true) v m ne busy
        (ground (arith, ne_of_has h a r v.distinct.0 ma)) (λ j l. ground (arith, l))
        (λ j out. ground (arith, ne_by (λ k. has k r) j a ma out))
        (Aims-goes s.pc i p (h ∷ r) plain v.aims) step
