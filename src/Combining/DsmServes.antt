-- ===== src/Combining/DsmServes.antt =====
-- A combiner of DSM-Synch serves the announced requests one after the other, in the order in which
-- they were announced; all but the last one, when there is more than one.
use sim_universal_constructi.Prelude.{
  ℕ, zero, suc, ◌*◌, ◌≡◌, refl, ap, sym, ◌∙◌, true, false, Option, none, some, List, [], ◌∷◌, arith,
  ◌==◌, ℤ, subst,
}
use sim_universal_constructi.Queues.Nodes.{Linked, has, Distinct}
use sim_universal_constructi.Combining.Cc.{Nodes, serve, unlock}
use sim_universal_constructi.Combining.Serves.{Outcome, Results, one_more, no_request, Same}
use sim_universal_constructi.Combining.Dsm.{
  DsmSynch, combine, work, hand_over, dsmsynch_help_factor,
}

-- The nodes that a combiner serves.
abbrev pub served : ℕ → ℕ → List ℕ → List ℕ
served zero p xs = p ∷ []
served (suc zero) p xs = p ∷ []
served (suc (suc left)) p [] = p ∷ []
served (suc (suc left)) p (x ∷ []) = p ∷ []
served (suc (suc left)) p (x ∷ y ∷ ys) = p ∷ served (suc left) x (y ∷ ys)

-- The last of them.
abbrev pub stop : ℕ → ℕ → List ℕ → ℕ
stop zero p xs = p
stop (suc zero) p xs = p
stop (suc (suc left)) p [] = p
stop (suc (suc left)) p (x ∷ []) = p
stop (suc (suc left)) p (x ∷ y ∷ ys) = stop (suc left) x (y ∷ ys)

abbrev first_of : List ℕ → Option ℕ
first_of [] = none
first_of (x ∷ xs) = some x

-- The node behind them.
abbrev pub behind : ℕ → ℕ → List ℕ → Option ℕ
behind zero p xs = first_of xs
behind (suc zero) p xs = first_of xs
behind (suc (suc left)) p [] = none
behind (suc (suc left)) p (x ∷ []) = some x
behind (suc (suc left)) p (x ∷ y ∷ ys) = behind (suc left) x (y ∷ ys)

served-has :
    (left p : ℕ) (xs : List ℕ) (a : ℕ) → has a (p ∷ xs) ≡ false → has a (served left p xs) ≡ false
served-has zero p xs a h = ground arith
served-has (suc zero) p xs a h = ground arith
served-has (suc (suc left)) p [] a h = h
served-has (suc (suc left)) p (x ∷ []) a h = ground arith
served-has (suc (suc left)) p (x ∷ y ∷ ys) a h =
    ground (arith, served-has (suc left) x (y ∷ ys) a (ground arith))

Linked-first : (next : ℕ → Option ℕ) (p : ℕ) (xs : List ℕ) → Linked next p xs → next p ≡ first_of xs
Linked-first next p [] l = l
Linked-first next p (x ∷ xs) l = l.0

stop-behind :
    (next : ℕ → Option ℕ) (left p : ℕ) (xs : List ℕ)
    → Linked next p xs
    → next (stop left p xs) ≡ behind left p xs
stop-behind next zero p xs l = Linked-first next p xs l
stop-behind next (suc zero) p xs l = Linked-first next p xs l
stop-behind next (suc (suc left)) p [] l = l
stop-behind next (suc (suc left)) p (x ∷ []) l = l.0
stop-behind next (suc (suc left)) p (x ∷ y ∷ ys) l = stop-behind next (suc left) x (y ∷ ys) l.1

-- What the combiner does at the end, when q is behind the node p at which it stopped.
abbrev pub HandsOver : DsmSynch → DsmSynch → ℕ → Option ℕ → Type 0
HandsOver l m p (some q) = hand_over m p ≡ some (record m { nodes = unlock m.nodes q })
HandsOver l m p none = hand_over m p ≡ (elim (l.tail) [
  | none ↦ none
  | some last ↦ elim (last == p) [ true ↦ some (record m { tail = none }) | false ↦ none ]
])

hand_over_lem :
    (l m : DsmSynch) (p : ℕ) (q : Option ℕ)
    → m.tail ≡ l.tail
    → m.nodes.next p ≡ q
    → HandsOver l m p q
unfolding hand_over
hand_over_lem l m p (some q) e n = rw (n, hand_over) refl
hand_over_lem l m p none e n = rw (n, e, hand_over) refl

module _ (S : Type 0) (sfunc : S → ℤ → ℕ → ℤ × S) where
  abbrev Serves : ℕ → ℕ → List ℕ → Nodes → S → ℕ × Nodes × S → Type 0
  Serves left p xs n s (q, n', t) =
      (q ≡ stop left p xs) × Outcome S sfunc (served left p xs) n s (n', t)

  -- One round
  abbrev once : ℕ → Nodes → S → ℕ × Nodes × S
  once p n s =
      (p, serve n p (sfunc s (n.arg_ret p) (n.pid p)).0, (sfunc s (n.arg_ret p) (n.pid p)).1)

  one_request :
      (p : ℕ) (n : Nodes) (s : S) → Outcome S sfunc (p ∷ []) n s ((once p n s).1, (once p n s).2)
  one_request p n s = one_more S sfunc p [] n s _ refl (no_request S sfunc _ _)

  last_round :
      (left p : ℕ) (n : Nodes) (s : S)
      → n.next p ≡ none
      → combine S sfunc (suc left) p n s ≡ once p n s
  unfolding combine
  last_round left p n s e = rw (e, combine) refl

  round_before_last :
      (left p x : ℕ) (n : Nodes) (s : S)
      → n.next p ≡ some x
      → n.next x ≡ none
      → combine S sfunc (suc left) p n s ≡ once p n s
  unfolding combine
  round_before_last left p x n s e e' = rw (e, e', combine) refl

  bound_round :
      (p x y : ℕ) (n : Nodes) (s : S)
      → n.next p ≡ some x
      → n.next x ≡ some y
      → combine S sfunc 1 p n s ≡ once p n s
  unfolding combine
  bound_round p x y n s e e' = rw (e, e', combine) refl

  next_round :
      (left p x y : ℕ) (n : Nodes) (s : S)
      → n.next p ≡ some x
      → n.next x ≡ some y
      → combine S sfunc (suc (suc left)) p n s
        ≡ combine S sfunc (suc left) x (once p n s).1 (once p n s).2
  unfolding combine
  next_round left p x y n s e e' = rw (e, e', combine) refl

  combine-Serves :
      (left p : ℕ) (xs : List ℕ) (n : Nodes) (s : S)
      → Linked n.next p xs
      → Distinct (p ∷ xs)
      → Serves left p xs n s (combine S sfunc left p n s)
  unfolding serve combine
  combine-Serves zero p xs n s l d = (refl, one_request p n s)
  combine-Serves (suc zero) p [] n s l d =
      subst (λ o. Serves 1 p [] n s o) (sym (last_round 0 p n s l)) (refl, one_request p n s)
  combine-Serves (suc zero) p (x ∷ []) n s l d =
      subst (λ o. Serves 1 p (x ∷ []) n s o) (sym (round_before_last 0 p x n s l.0 l.1))
        (refl, one_request p n s)
  combine-Serves (suc zero) p (x ∷ y ∷ ys) n s l d =
      subst (λ o. Serves 1 p (x ∷ y ∷ ys) n s o) (sym (bound_round p x y n s l.0 l.1.0))
        (refl, one_request p n s)
  combine-Serves (suc (suc left)) p [] n s l d =
      subst (λ o. Serves (suc (suc left)) p [] n s o) (sym (last_round (suc left) p n s l))
        (refl, one_request p n s)
  combine-Serves (suc (suc left)) p (x ∷ []) n s l d =
      subst (λ o. Serves (suc (suc left)) p (x ∷ []) n s o)
        (sym (round_before_last (suc left) p x n s l.0 l.1)) (refl, one_request p n s)
  combine-Serves (suc (suc left)) p (x ∷ y ∷ ys) n s l d =
      let rest = combine-Serves (suc left) x (y ∷ ys) (once p n s).1 (once p n s).2 l.1 d.1 in
      subst (λ o. Serves (suc (suc left)) p (x ∷ y ∷ ys) n s o)
        (sym (next_round left p x y n s l.0 l.1.0))
        (
          rest.0,
          one_more S sfunc p (served (suc left) x (y ∷ ys)) n s _
              (served-has (suc left) x (y ∷ ys) p d.0) rest.1,
        )

  -- A combiner of DSM-Synch at node `mynode`, from which the links lead through the nodes xs, all
  -- different, serves the requests of the chain in order, 10 * nthreads of them at most and not the last
  -- one unless it is the only one: their results and the state of the object are those of the serial run,
  -- and the links, the tail and the other nodes do not change. When a node is left behind the served ones, the combiner
  -- then unlocks it without a wait; when there is none and no thread has announced a request meanwhile, it
  -- leaves the tail empty.
  pub work_serves :
      (l : DsmSynch) (mynode : ℕ) (xs : List ℕ) (s : S) (a : ℕ)
      → Linked l.nodes.next mynode xs
      → Distinct (mynode ∷ xs)
      → has a (served (dsmsynch_help_factor * l.nthreads) mynode xs) ≡ false
      → (m : DsmSynch) × (t : S) × (work S sfunc l mynode s
          ≡ (stop (dsmsynch_help_factor * l.nthreads) mynode xs, m, t))
        × Results S sfunc
            (served (dsmsynch_help_factor * l.nthreads) mynode xs)
            l.nodes
            s
            (m.nodes, t)
        × Same l.nodes m.nodes a
        × (m.tail ≡ l.tail)
        × HandsOver l m
            (stop (dsmsynch_help_factor * l.nthreads) mynode xs)
            (behind (dsmsynch_help_factor * l.nthreads) mynode xs)
  unfolding work hand_over
  work_serves l mynode xs s a linked d h =
      let left = dsmsynch_help_factor * l.nthreads in
      let out = combine S sfunc left mynode l.nodes s in
      let (at, served_well) = combine-Serves left mynode xs l.nodes s linked d in
      (
        record l { nodes = out.1 },
        out.2,
        rw at refl,
        (served_well.0, served_well.1, served_well.2, served_well.3),
        served_well.4 a h,
        refl,
        hand_over_lem l (record l { nodes = out.1 }) (stop left mynode xs) (behind left mynode xs)
            refl
            (ap (λ f. f (stop left mynode xs)) served_well.0
              ∙ stop-behind l.nodes.next left mynode xs linked),
      )
