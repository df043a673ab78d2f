-- ===== src/LockFree/Stack/Pops.antt =====
-- What the steps of a pop from an LF-Stack do to the list of its values.
use sim_universal_constructi.Prelude.{
  ℕ, ◌≡◌, refl, ◌∙◌, ap, true, false, Option, some, List, [], ◌∷◌, arith, eq_ℤ_iff, ==_refl,
  Bool-cases, inl, inr, subst,
}
use sim_universal_constructi.Queues.Nodes.{empty_stack}
use sim_universal_constructi.Queues.Lifo.{From}
use sim_universal_constructi.LockFree.Stack.{
  pops, reads, swings, takes, returns, System, popped, found_empty, goes, same, cas, pop_read,
  pop_cas,
}
use sim_universal_constructi.LockFree.Stack.Chain.{Inv, owns-out, Ok-frame, moved-Inv}
use sim_universal_constructi.LockFree.Stack.Steps.{
  Takes, does, stays, stays-Inv, quiet, place-Ok, others-Clear, same_lem,
}

pop_cas_hit :
    (s : System) (i x : ℕ) (nx : Option ℕ)
    → same s.stack.top (some x) ≡ true
    → pop_cas s i x nx ≡ (
      popped i (s.stack.heap.val x) ∷ [],
      goes s (record s.stack { top = nx }) i (takes x (s.stack.heap.val x)),
    )
unfolding pop_cas cas
pop_cas_hit s i x nx e = ground (arith, e)

pop_cas_miss :
    (s : System) (i x : ℕ) (nx : Option ℕ)
    → same s.stack.top (some x) ≡ false
    → pop_cas s i x nx ≡ ([], goes s s.stack i pops)
unfolding pop_cas cas
pop_cas_miss s i x nx e = ground (arith, e)

-- A pop that reads the top, or tries to take it.
pub pop_read-Takes :
    (s : System) (xs : List ℕ) (i : ℕ)
    → Inv s xs
    → s.pc i ≡ pops
    → Takes s xs (pop_read s i).0 (pop_read s i).1
unfolding pop_read
pop_read-Takes s [] i h at =
    does s [] (pop_read s i) (found_empty i ∷ []) (goes s s.stack i (returns empty_stack))
      (ground (arith, h.chain))
      (
        [],
        stays-Inv s [] h i (returns empty_stack) tt
            (quiet s [] h i (returns empty_stack) (λ a. refl) (λ a. refl)),
        refl,
      )
pop_read-Takes s (x ∷ xs) i h at =
    does s (x ∷ xs) (pop_read s i) [] (goes s s.stack i (reads x)) (ground (arith, h.chain.0)) (
      stays s (x ∷ xs) h i (reads x) (h.allocated x (ground (arith, ==_refl x))) (λ j ne. (
        λ a o. absurd (ground (arith, o)),
        λ a o.
            let out = owns-out s.stack s.used (x ∷ xs) (s.pc j) a (h.knows j) o in
            ground (arith, out.0),
      )))

taken :
    (s : System) (xs : List ℕ) (i : ℕ)
    → Inv s xs
    → (x : ℕ) (nx : Option ℕ) → s.pc i ≡ swings x nx
    → s.stack.top ≡ some x
    → Takes s xs
        (popped i (s.stack.heap.val x) ∷ [])
        (goes s (record s.stack { top = nx }) i (takes x (s.stack.heap.val x)))
taken s [] i h x nx at e = absurd (ground (arith, h.chain))
taken s (y ∷ xs) i h x nx at e =
    let me = place-Ok s (y ∷ xs) h i (swings x nx) at in
    let eq : y ≡ x = ground (arith, h.chain.0) in
    (
      xs,
      moved-Inv s (y ∷ xs) h (record s.stack { top = nx }) s.used i (takes x (s.stack.heap.val x))
          xs (subst (λ o. From s.stack.heap.next o xs) (ap s.stack.heap.next eq ∙ me.1) (h.chain.1))
          h.distinct.1 (λ a m. h.allocated a (ground (arith, m))) (me.0, refl)
          (λ j ne.
            Ok-frame s.stack (record s.stack { top = nx }) s.used s.used (y ∷ xs) xs (s.pc j)
              (λ a t u. (u, refl, refl)) (λ a o m. ground (arith, m)) (h.knows j))
          (λ j ne. others-Clear s (y ∷ xs) h i (swings x nx) at j ne),
      ground (arith, eq, eq_ℤ_iff (s.stack.heap.val x) (s.stack.heap.val y)),
    )

pub pop_cas-Takes :
    (s : System) (xs : List ℕ) (i : ℕ)
    → Inv s xs
    → (x : ℕ) (nx : Option ℕ) → s.pc i ≡ swings x nx
    → Takes s xs (pop_cas s i x nx).0 (pop_cas s i x nx).1
pop_cas-Takes s xs i h x nx at = elim (Bool-cases (same s.stack.top (some x))) [
  | inl e ↦
      does s xs (pop_cas s i x nx) (popped i (s.stack.heap.val x) ∷ [])
        (goes s (record s.stack { top = nx }) i (takes x (s.stack.heap.val x)))
        (pop_cas_hit s i x nx e) (taken s xs i h x nx at (same_lem s.stack.top (some x) e))
  | inr e ↦
      does s xs (pop_cas s i x nx) [] (goes s s.stack i pops) (pop_cas_miss s i x nx e)
        (stays s xs h i pops tt (quiet s xs h i pops (λ a. refl) (λ a. refl)))
]
