-- ===== src/LockFree/Stack/Linearizable.antt =====
-- Every run of an LF-Stack takes effect as a sequence of pushes and pops of a list.
use sim_universal_constructi.Prelude.{
  ℕ, ◌≡◌, refl, sym, ◌∙◌, some, List, [], ◌∷◌, ◌++◌, map, arith, ℤ, eq_ℤ, Bool-cases, inl, inr,
  subst,
}
use sim_universal_constructi.Queues.Nodes.{Heap}
use sim_universal_constructi.Queues.Lifo.{From}
use sim_universal_constructi.LockFree.Stack.{
  Pc, idle, pushes, links, pops, reads, swings, takes, returns, System, Event, calls_push,
  calls_pop, pushed, popped, found_empty, answers, goes, same, start_pop, load_top, push_cas,
  pop_read, pop_cas, advance, Step, starts_push, starts_pop, advances, Reach, here, later, init,
  stack_init, replay, thread_of, move, phase, resting,
}
use sim_universal_constructi.LockFree.Calls.{track, track-append}
use sim_universal_constructi.LockFree.Stack.Calls.{Step-Follows}
use sim_universal_constructi.LockFree.Stack.Chain.{Inv}
use sim_universal_constructi.LockFree.Stack.Pops.{pop_read-Takes, pop_cas-Takes}
use sim_universal_constructi.LockFree.Stack.Steps.{
  Takes, does, stays, quiet, start_push-Takes, load_top-Takes, push_cas-Takes, follow-Takes,
}

advance-Takes :
    (s : System) (xs : List ℕ) (i : ℕ) (p : Pc)
    → Inv s xs
    → s.pc i ≡ p
    → Takes s xs (advance s i).0 (advance s i).1
unfolding advance
advance-Takes s xs i idle h at = does s xs (advance s i) [] s (rw (at, advance) refl) (xs, h, refl)
advance-Takes s xs i (pushes n) h at =
    does s xs (advance s i) [] (load_top s i n) (rw (at, advance) refl)
      (load_top-Takes s xs h i n at)
advance-Takes s xs i (links n old) h at =
    does s xs (advance s i) (push_cas s i n old).0 (push_cas s i n old).1 (rw (at, advance) refl)
      (push_cas-Takes s xs h i n old at)
advance-Takes s xs i pops h at =
    does s xs (advance s i) (pop_read s i).0 (pop_read s i).1 (rw (at, advance) refl)
      (pop_read-Takes s xs i h at)
advance-Takes s xs i (reads x) h at =
    does s xs (advance s i) [] (goes s s.stack i (swings x (s.stack.heap.next x)))
      (rw (at, advance) refl) (follow-Takes s xs h i x at)
advance-Takes s xs i (swings x nx) h at =
    does s xs (advance s i) (pop_cas s i x nx).0 (pop_cas s i x nx).1 (rw (at, advance) refl)
      (pop_cas-Takes s xs i h x nx at)
advance-Takes s xs i (takes x v) h at =
    does s xs (advance s i) [] (goes s s.stack i (returns (s.stack.heap.val x)))
      (rw (at, advance) refl)
      (stays s xs h i (returns (s.stack.heap.val x)) tt
        (quiet s xs h i (returns (s.stack.heap.val x)) (λ a. refl) (λ a. refl)))
advance-Takes s xs i (returns r) h at =
    does s xs (advance s i) (answers i r ∷ []) (goes s s.stack i idle) (rw (at, advance) refl)
      (stays s xs h i idle tt (quiet s xs h i idle (λ a. refl) (λ a. refl)))

Step-Takes :
    (s t : System) (xs : List ℕ) (es : List Event) → Inv s xs → Step s es t → Takes s xs es t
unfolding start_pop
Step-Takes s t xs es h (starts_push i n v at fresh e eq) =
    rw (e, eq) (start_push-Takes s xs h i n v fresh)
Step-Takes s t xs es h (starts_pop i at e eq) =
    rw (e, eq) (stays s xs h i pops tt (quiet s xs h i pops (λ a. refl) (λ a. refl)))
Step-Takes s t xs es h (advances i eq) =
    subst (λ (o : List Event × System). Takes s xs o.0 o.1) (sym eq)
      (advance-Takes s xs i (s.pc i) h refl)

replay-append :
    (past es : List Event) (vs ws : List ℤ)
    → replay past vs ≡ some ws
    → replay (past ++ es) vs ≡ replay es ws
replay-append [] es vs ws e = ground (arith, e)
replay-append (calls_push i v ∷ past) es vs ws e = replay-append past es vs ws e
replay-append (calls_pop i ∷ past) es vs ws e = replay-append past es vs ws e
replay-append (answers i r ∷ past) es vs ws e = replay-append past es vs ws e
replay-append (pushed i v ∷ past) es vs ws e = replay-append past es (v ∷ vs) ws e
replay-append (popped i r ∷ past) es [] ws e = absurd (ground (arith, e))
replay-append (popped i r ∷ past) es (v ∷ vs) ws e = elim (Bool-cases (eq_ℤ r v)) [
  | inl same ↦ rw same (replay-append past es vs ws (ground (arith, e, same)))
  | inr same ↦ absurd (ground (arith, e, same))
]
replay-append (found_empty i ∷ past) es [] ws e = replay-append past es [] ws e
replay-append (found_empty i ∷ past) es (v ∷ vs) ws e = absurd (ground (arith, e))

init-Inv : (h : Heap) → Inv (init h) []
unfolding stack_init
init-Inv h = record {
  chain = refl;
  distinct = tt;
  allocated = λ a m. absurd (ground (arith, m));
  knows = λ i. tt;
  clear = λ i j ne a o. absurd (ground (arith, o));
}

Reach-Takes :
    (h : Heap) (past : List Event) (s : System)
    → Reach (init h) past s
    → (xs : List ℕ) × Inv s xs
      × (replay past [] ≡ some (map s.stack.heap.val xs))
      × ((j : ℕ) → track thread_of move j past resting ≡ some (phase s.stack.heap.val (s.pc j)))
unfolding track phase
Reach-Takes h _ _ here = ([], init-Inv h, refl, λ j. refl)
Reach-Takes h _ u (later {past = past} {events = es} {t = t} run step) =
    let (xs, inv, e, before) = Reach-Takes h past t run in
    let (ys, kept, d) = Step-Takes t u xs es inv step in
    (
      ys,
      kept,
      replay-append past es [] (map t.stack.heap.val xs) e ∙ d,
      λ j.
          track-append thread_of move j past es resting (phase t.stack.heap.val (t.pc j)) (before j)
          ∙ Step-Follows t u xs es inv step j,
    )

-- From an empty LF-Stack, after any interleaving of pushes and pops of any number of threads, whose
-- nodes were not handed out before: the pushes and pops that took effect, one after the other, are
-- what a list of values would have done, with the same values taken off and EMPTY_STACK only when the
-- list was empty; the list that they leave is what the stack holds; and the events of each thread are
-- calls one after the other, each of which takes effect once before it returns, a push with the value
-- that it was called with, while a pop returns the value that it took off, or EMPTY_STACK, up to the
-- call that the thread is in.
pub lf_stack_linearizable :
    (h : Heap) (past : List Event) (s : System)
    → Reach (init h) past s
    → (xs : List ℕ) × From s.stack.heap.next s.stack.top xs
      × (replay past [] ≡ some (map s.stack.heap.val xs))
      × ((j : ℕ) → track thread_of move j past resting ≡ some (phase s.stack.heap.val (s.pc j)))
lf_stack_linearizable h past s run =
    let (xs, inv, e, calls) = Reach-Takes h past s run in (xs, inv.chain, e, calls)
