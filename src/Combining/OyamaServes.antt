-- ===== src/Combining/OyamaServes.antt =====
-- A combiner of Oyama's object serves all announced requests, the latest one first.
use sim_universal_constructi.Prelude.{
  ℕ, zero, suc, ◌*◌, ◌<◌, ◌≤◌, ◌==◌, ◌≡◌, refl, ap, ◌∙◌, true, false, Option, none, some, List, [],
  ◌∷◌, map, length, ℤ, arith, ltb, ==_refl, Bool-cases, inl, inr,
}
use sim_universal_constructi.Queues.Nodes.{has, Distinct}
use sim_universal_constructi.Queues.Lifo.{From}
use sim_universal_constructi.Combining.Serves.{serial}
use sim_universal_constructi.Combining.Oyama.{
  Nodes, Oyama, oyama_help_factor, answer, help, rounds, resume,
}

abbrev pub requests : Nodes → List ℕ → List (ℤ × ℕ)
requests n xs = map (λ (a : ℕ). (n.arg_ret a, n.pid a)) xs

abbrev pub AllCompleted : Nodes → List ℕ → Type 0
AllCompleted n [] = Unit
AllCompleted n (x ∷ xs) = (n.completed x ≡ true) × AllCompleted n xs

requests-answer :
    (n : Nodes) (p : ℕ) (r : ℤ) (xs : List ℕ)
    → has p xs ≡ false
    → requests (answer n p r) xs ≡ requests n xs
unfolding answer
requests-answer n p r [] h = refl
requests-answer n p r (x ∷ xs) h = ground (arith, requests-answer n p r xs (ground arith))

module _ (S : Type 0) (sfunc : S → ℤ → ℕ → ℤ × S) where
  -- The requests at the nodes xs have the results, and the object the state, of the serial run, and every
  -- other node stands as it did.
  abbrev pub Outcome : List ℕ → Nodes → S → Nodes → S → Type 0
  Outcome xs n s m t =
      (map m.arg_ret xs ≡ (serial S sfunc s (requests n xs)).0)
      × (t ≡ (serial S sfunc s (requests n xs)).1)
      × AllCompleted m xs
      × ((a : ℕ) → has a xs ≡ false → (m.arg_ret a ≡ n.arg_ret a) × (m.completed a ≡ n.completed a))

  one_more :
      (p : ℕ) (xs : List ℕ) (n : Nodes) (s : S) (m : Nodes) (t : S)
      → has p xs ≡ false
      → Outcome xs
          (answer n p (sfunc s (n.arg_ret p) (n.pid p)).0)
          (sfunc s (n.arg_ret p) (n.pid p)).1
          m
          t
      → Outcome (p ∷ xs) n s m t
  unfolding answer
  one_more p xs n s m t fresh (rets, state, done, same) =
      let s1 = (sfunc s (n.arg_ret p) (n.pid p)).1 in
      let mine = same p fresh in
      let reqs = requests-answer n p (sfunc s (n.arg_ret p) (n.pid p)).0 xs fresh in
      (
        ground (arith, ==_refl p, mine.0, rets ∙ ap (λ rs. (serial S sfunc s1 rs).0) reqs),
        state ∙ ap (λ rs. (serial S sfunc s1 rs).1) reqs,
        (ground (arith, ==_refl p, mine.1), done),
        λ a h.
            let apart : (a == p) ≡ false = ground arith in
            let rest = same a (ground arith) in (ground arith, ground arith),
      )

  help-Outcome :
      (fuel : ℕ) (o : Option ℕ) (xs : List ℕ) (counter : ℕ) (n : Nodes) (s : S)
      → From n.next o xs
      → Distinct xs
      → length xs ≤ fuel
      → (c : ℕ) × (m : Nodes) × (t : S) × (help S sfunc fuel o counter n s ≡ some (c, m, t))
        × Outcome xs n s m t
  unfolding help answer
  help-Outcome fuel o [] counter n s l d le =
      (counter, n, s, rw (l, help) refl, (refl, refl, tt, λ a h. (refl, refl)))
  help-Outcome zero o (x ∷ xs) counter n s l d le = absurd (omega arith)
  help-Outcome (suc fuel) o (x ∷ xs) counter n s l d le =
      let (ret, s1) = sfunc s (n.arg_ret x) (n.pid x) in
      let (c, m, t, run, out) =
        help-Outcome fuel (n.next x) xs (suc counter) (answer n x ret) s1 l.1 d.1
          (omega (arith, le)) in
      (c, m, t, rw (l.0, help) run, one_more x xs n s m t d.0 out)

  -- The outer loop takes the list, and finds it empty afterwards.
  rounds_lem :
      (fuel inner : ℕ) (xs : List ℕ) (l : Oyama) (s : S)
      → 0 < l.nthreads
      → From l.nodes.next l.tail xs
      → Distinct xs
      → length xs ≤ inner
      → (m : Oyama) × (t : S) × (rounds S sfunc (suc (suc fuel)) inner 0 l s ≡ some (m, t))
        × Outcome xs l.nodes s m.nodes t
        × (m.tail ≡ none)
  unfolding rounds
  rounds_lem fuel inner [] l s pos chain d le =
      (l, s, ground (arith, chain, pos), (refl, refl, tt, λ a h. (refl, refl)), chain)
  rounds_lem fuel inner (x ∷ xs) l s pos chain d le =
      let (c, m, t, run, out) =
        help-Outcome inner (some x) (x ∷ xs) 0 l.nodes s (refl, chain.1) d le in
      let taken : Oyama = record l { tail = none; nodes = m } in
      let more : ltb 0 (oyama_help_factor * l.nthreads) ≡ true = ground (arith, pos) in
      let ran : rounds S sfunc (suc (suc fuel)) inner 0 l s ≡ some (taken, t) =
        elim (Bool-cases (ltb c (oyama_help_factor * l.nthreads))) [
          | inl e ↦ ground (arith, more, chain.0, run, e)
          | inr e ↦ ground (arith, more, chain.0, run, e)
        ] in
      (taken, t, ran, out, refl)

module _ (S : Type 0) (sfunc : S → ℤ → ℕ → ℤ × S) (l : Oyama) (mynode : ℕ) (xs : List ℕ)
    (s : S) where
  -- A thread that finds the lock free becomes the combiner. When the list of announced requests, from the latest one
  -- on, is xs, all different, with at least one thread and with fuel for two rounds of the outer loop and for
  -- as many of the inner one as there are requests, it returns what stands at its own node then, and has served the requests in the order of the list: their
  -- results and the state of the object are those of the serial run, and they are marked as completed. Every other
  -- node stands as it did, no request is left on the list, and the lock is free.
  pub oyama_serves :
      (fuel inner : ℕ)
      → l.lock ≡ false
      → 0 < l.nthreads
      → From l.nodes.next l.tail xs
      → Distinct xs
      → length xs ≤ inner
      → (m : Oyama) × (t : S) × (resume S sfunc (suc (suc fuel)) inner l mynode s
          ≡ some (m.nodes.arg_ret mynode, m, t))
        × Outcome S sfunc xs l.nodes s m.nodes t
        × (m.tail ≡ none)
        × (m.lock ≡ false)
  unfolding resume
  oyama_serves fuel inner free pos chain d le =
      let (m, t, run, out, empty) =
        rounds_lem S sfunc fuel inner xs (record l { lock = true }) s pos chain d le in
      (record m { lock = false }, t, ground (arith, free, run), out, empty, refl)
