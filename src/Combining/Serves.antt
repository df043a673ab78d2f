-- ===== src/Combining/Serves.antt =====
-- A combiner of CC-Synch serves the announced requests one after the other, in the order in which
-- they were announced.
use sim_universal_constructi.Prelude.{
  ℕ, zero, suc, ◌*◌, ◌≡◌, refl, ap, sym, ◌∙◌, true, false, none, some, List, [], ◌∷◌, map, arith,
  ◌==◌, ℤ, subst, ==_refl,
}
use sim_universal_constructi.Queues.Nodes.{Linked, has, Distinct, ne_of_has}
use sim_universal_constructi.Combining.Cc.{
  Nodes, CcSynch, serve, unlock, combine, resume, ccsynch_help_factor,
}

-- The nodes that a combiner serves when it starts at p and the links lead through xs: every node that
-- has a next one, at most `left` of them.
abbrev pub served : ℕ → ℕ → List ℕ → List ℕ
served zero p xs = []
served (suc left) p [] = []
served (suc left) p (x ∷ xs) = p ∷ served left x xs

-- The node behind them.
abbrev pub stop : ℕ → ℕ → List ℕ → ℕ
stop zero p xs = p
stop (suc left) p [] = p
stop (suc left) p (x ∷ xs) = stop left x xs

-- The requests one after the other, each on the state that the one before it left.
abbrev pub serial : (S : Type 0) → (S → ℤ → ℕ → ℤ × S) → S → List (ℤ × ℕ) → List ℤ × S
serial S sfunc s [] = ([], s)
serial S sfunc s ((arg, pid) ∷ rest) =
    let (ret, t) = sfunc s arg pid in let (rets, u) = serial S sfunc t rest in (ret ∷ rets, u)

abbrev pub requests : Nodes → List ℕ → List (ℤ × ℕ)
requests n xs = map (λ (a : ℕ). (n.arg_ret a, n.pid a)) xs

-- Node a stands in n' as it did in n.
abbrev pub Same : Nodes → Nodes → ℕ → Type 0
Same n n' a =
    (n'.arg_ret a ≡ n.arg_ret a)
    × (n'.pid a ≡ n.pid a)
    × (n'.locked a ≡ n.locked a)
    × (n'.completed a ≡ n.completed a)

abbrev pub Done : Nodes → List ℕ → Type 0
Done n [] = Unit
Done n (x ∷ xs) = (n.completed x ≡ true) × (n.locked x ≡ false) × Done n xs

served-has :
    (left p : ℕ) (xs : List ℕ) (a : ℕ) → has a (p ∷ xs) ≡ false → has a (served left p xs) ≡ false
served-has zero p xs a h = refl
served-has (suc left) p [] a h = refl
served-has (suc left) p (x ∷ xs) a h = ground (arith, served-has left x xs a (ground arith))

requests-serve :
    (n : Nodes) (p : ℕ) (r : ℤ) (xs : List ℕ)
    → has p xs ≡ false
    → requests (serve n p r) xs ≡ requests n xs
unfolding serve
requests-serve n p r [] h = refl
requests-serve n p r (x ∷ xs) h = ground (arith, requests-serve n p r xs (ground arith))

module _ (S : Type 0) (sfunc : S → ℤ → ℕ → ℤ × S) where
  -- The requests at the nodes ws are served, one after the other.
  abbrev pub Results : List ℕ → Nodes → S → Nodes × S → Type 0
  Results ws n s (n', t) =
      (n'.next ≡ n.next)
      × (map n'.arg_ret ws ≡ (serial S sfunc s (requests n ws)).0)
      × (t ≡ (serial S sfunc s (requests n ws)).1)
      × Done n' ws

  -- They are, and nothing else changes.
  abbrev pub Outcome : List ℕ → Nodes → S → Nodes × S → Type 0
  Outcome ws n s (n', t) =
      (n'.next ≡ n.next)
      × (map n'.arg_ret ws ≡ (serial S sfunc s (requests n ws)).0)
      × (t ≡ (serial S sfunc s (requests n ws)).1)
      × Done n' ws
      × ((a : ℕ) → has a ws ≡ false → Same n n' a)

  pub no_request : (n : Nodes) (s : S) → Outcome [] n s (n, s)
  no_request n s = (refl, refl, refl, tt, λ a h. (refl, refl, refl, refl))

  -- One more request in front of those that the rest of the loop serves.
  pub one_more :
      (p : ℕ) (ws : List ℕ) (n : Nodes) (s : S) (out : Nodes × S)
      → has p ws ≡ false
      → Outcome ws
          (serve n p (sfunc s (n.arg_ret p) (n.pid p)).0)
          (sfunc s (n.arg_ret p) (n.pid p)).1
          out
      → Outcome (p ∷ ws) n s out
  unfolding serve
  one_more p ws n s (n', t) fresh (links, rets, state, done, same) =
      let s1 = (sfunc s (n.arg_ret p) (n.pid p)).1 in
      let here = same p fresh in
      let reqs = requests-serve n p (sfunc s (n.arg_ret p) (n.pid p)).0 ws fresh in
      (
        links,
        ground (arith, ==_refl p, here.0, rets ∙ ap (λ rs. (serial S sfunc s1 rs).0) reqs),
        state ∙ ap (λ rs. (serial S sfunc s1 rs).1) reqs,
        (ground (arith, ==_refl p, here.3), ground (arith, ==_refl p, here.2), done),
        λ a h.
            let apart : (a == p) ≡ false = ground arith in
            let rest = same a (ground arith) in
            (ground arith, ground arith, ground arith, ground arith),
      )

  -- What a combiner does on the chain p, xs.
  abbrev pub Serves : ℕ → ℕ → List ℕ → Nodes → S → ℕ × Nodes × S → Type 0
  Serves left p xs n s (q, n', t) = (q ≡ stop left p xs) × Outcome (served left p xs) n s (n', t)

  combine-none :
      (left p : ℕ) (n : Nodes) (s : S)
      → n.next p ≡ none
      → combine S sfunc (suc left) p n s ≡ (p, n, s)
  unfolding combine
  combine-none left p n s e = rw (e, combine) refl

  combine-some :
      (left p x : ℕ) (n : Nodes) (s : S)
      → n.next p ≡ some x
      → combine S sfunc (suc left) p n s
        ≡ combine S sfunc left x
            (serve n p (sfunc s (n.arg_ret p) (n.pid p)).0)
            (sfunc s (n.arg_ret p) (n.pid p)).1
  unfolding combine
  combine-some left p x n s e = rw (e, combine) refl

  pub combine-Serves :
      (left p : ℕ) (xs : List ℕ) (n : Nodes) (s : S)
      → Linked n.next p xs
      → Distinct (p ∷ xs)
      → Serves left p xs n s (combine S sfunc left p n s)
  unfolding combine serve
  combine-Serves zero p xs n s l d = (refl, no_request n s)
  combine-Serves (suc left) p [] n s l d =
      subst (λ o. Serves (suc left) p [] n s o) (sym (combine-none left p n s l))
        (refl, no_request n s)
  combine-Serves (suc left) p (x ∷ xs) n s l d =
      subst (λ o. Serves (suc left) p (x ∷ xs) n s o) (sym (combine-some left p x n s l.0))
        (
          (combine-Serves left x xs _ _ l.1 d.1).0,
          one_more p (served left x xs) n s _ (served-has left x xs p d.0)
              (combine-Serves left x xs _ _ l.1 d.1).1,
        )

has-stop : (left p : ℕ) (xs : List ℕ) → has (stop left p xs) (p ∷ xs) ≡ true
has-stop zero p xs = ground (arith, ==_refl p)
has-stop (suc left) p [] = ground (arith, ==_refl p)
has-stop (suc left) p (x ∷ xs) = ground (arith, has-stop left x xs)

pub stop-served :
    (left p : ℕ) (xs : List ℕ) → Distinct (p ∷ xs) → has (stop left p xs) (served left p xs) ≡ false
stop-served zero p xs d = refl
stop-served (suc left) p [] d = refl
stop-served (suc left) p (x ∷ xs) d =
    let apart = ne_of_has p (stop left x xs) (x ∷ xs) d.0 (has-stop left x xs) in
    ground (arith, apart, stop-served left x xs d.1)

pub Done-unlock : (n : Nodes) (p : ℕ) (xs : List ℕ) → Done n xs → Done (unlock n p) xs
unfolding unlock
Done-unlock n p [] d = tt
Done-unlock n p (x ∷ xs) d = (d.0, ground (arith, d.1), Done-unlock n p xs d.2)

module _ (S : Type 0) (sfunc : S → ℤ → ℕ → ℤ × S) (l : CcSynch) (cur : ℕ) (xs : List ℕ)
    (s : S) where
  abbrev bound : ℕ
  bound = ccsynch_help_factor * l.nthreads

  -- The served requests have the results, and the object the state, of the serial run; the node behind
  -- them is unlocked and not marked as completed; node a stands as it did.
  abbrev pub HandsOver : List ℕ → ℕ → ℕ → CcSynch → S → Type 0
  HandsOver ws q a l' t =
      (map l'.nodes.arg_ret ws ≡ (serial S sfunc s (requests l.nodes ws)).0)
      × (t ≡ (serial S sfunc s (requests l.nodes ws)).1)
      × Done l'.nodes ws
      × (l'.nodes.locked q ≡ false)
      × (l'.nodes.completed q ≡ l.nodes.completed q)
      × Same l.nodes l'.nodes a

  -- A thread that is unlocked without having been served becomes the combiner. When the links lead
  -- from its node `cur` through the nodes xs, all different, it returns its own result, and has served the
  -- requests of the chain in order, 10 * nthreads of them at most: their results and the state of the
  -- object are those of the serial run. It unlocks the node behind them. Any other node stands as it did.
  pub resume_serves :
      (a : ℕ)
      → Linked l.nodes.next cur xs
      → Distinct (cur ∷ xs)
      → l.nodes.locked cur ≡ false
      → l.nodes.completed cur ≡ false
      → has a (served bound cur xs) ≡ false
      → (stop bound cur xs == a) ≡ false
      → (l' : CcSynch) × (t : S) × (resume S sfunc l cur s ≡ some (l'.nodes.arg_ret cur, l', t))
        × HandsOver (served bound cur xs) (stop bound cur xs) a l' t
  unfolding resume unlock
  resume_serves a linked d free unserved h ne =
      let out = combine S sfunc bound cur l.nodes s in
      let (at, (links, rets, state, done, same)) =
        combine-Serves S sfunc bound cur xs l.nodes s linked d in
      let there = same (stop bound cur xs) (stop-served bound cur xs d) in
      (
        record l { nodes = unlock out.1 out.0 },
        out.2,
        ground (arith, free, unserved),
        (
          rets,
          state,
          Done-unlock out.1 out.0 (served bound cur xs) done,
          ground (arith, at, ==_refl (stop bound cur xs)),
          there.3,
          let o = same a h in (o.0, o.1, ground (arith, at, ne, o.2), o.3),
        ),
      )
