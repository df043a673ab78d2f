-- ===== src/LockFree/Stack/Calls.antt =====
-- What each thread of an LF-Stack is about, along a run.
use sim_universal_constructi.Prelude.{
  ℕ, ◌≡◌, refl, sym, ◌∙◌, ap, true, false, Option, none, some, List, [], ◌∷◌, arith, update, ℤ,
  eq_ℤ_iff, Bool-cases, inl, inr, subst, ==_refl,
}
use sim_universal_constructi.Queues.Nodes.{ne_by, empty_stack}
use sim_universal_constructi.LockFree.Calls.{track, silent_lem, event_lem}
use sim_universal_constructi.LockFree.Stack.{
  Pc, idle, pushes, links, pops, reads, swings, takes, returns, System, Event, calls_push,
  calls_pop, pushed, popped, found_empty, answers, goes, same, cas, start_push, start_pop, load_top,
  push_cas, pop_read, pop_cas, advance, Step, starts_push, starts_pop, advances, thread_of, move,
  phase, pushing, answering,
}
use sim_universal_constructi.LockFree.Stack.Chain.{touches, Ok, Inv, touches-used}

abbrev pub Follows : System → List Event → System → Type 0
Follows s es t =
    (j : ℕ)
    → track thread_of move j es (phase s.stack.heap.val (s.pc j))
      ≡ some (phase t.stack.heap.val (t.pc j))

follows :
    (s : System) (out : List Event × System) (es : List Event) (t : System)
    → out ≡ (es, t)
    → Follows s es t
    → Follows s out.0 out.1
follows s out es t e r = subst (λ (o : List Event × System). Follows s o.0 o.1) (sym e) r

module _ (s : System) (i : ℕ) (q : Pc) (at : s.pc i ≡ q) where
  -- Steps that write no value: without an event, and with one of the thread.
  silent :
      (top : Option ℕ) (next : ℕ → Option ℕ) (p : Pc)
      → phase s.stack.heap.val p ≡ phase s.stack.heap.val q
      → Follows s [] (goes s (record { top = top; heap = record s.stack.heap { next = next } }) i p)
  silent top next p h =
      silent_lem thread_of move (phase s.stack.heap.val) (phase s.stack.heap.val) s.pc i p
        (λ j ne. refl) (h ∙ ap (phase s.stack.heap.val) (sym at))

  event :
      (top : Option ℕ) (e : Event) (p : Pc)
      → thread_of e ≡ i
      → move e (phase s.stack.heap.val q) ≡ some (phase s.stack.heap.val p)
      → Follows s (e ∷ []) (goes s (record s.stack { top = top }) i p)
  event top e p by h =
      event_lem thread_of move (phase s.stack.heap.val) (phase s.stack.heap.val) s.pc i p
        (λ j ne. refl) e by (ap (λ a. move e (phase s.stack.heap.val a)) at ∙ h)

push_cas-Follows :
    (s : System) (i n : ℕ) (old : Option ℕ)
    → s.pc i ≡ links n old
    → Follows s (push_cas s i n old).0 (push_cas s i n old).1
unfolding push_cas cas phase move
push_cas-Follows s i n old at = elim (Bool-cases (same s.stack.top old)) [
  | inl e ↦
      follows s (push_cas s i n old) (pushed i (s.stack.heap.val n) ∷ [])
        (goes s (record s.stack { top = some n }) i idle) (ground (arith, e))
        (event s i (links n old) at (some n) (pushed i (s.stack.heap.val n)) idle refl
          (ground (arith, eq_ℤ_iff (s.stack.heap.val n) (s.stack.heap.val n))))
  | inr e ↦
      follows s (push_cas s i n old) [] (goes s s.stack i (pushes n)) (ground (arith, e))
        (silent s i (links n old) at s.stack.top s.stack.heap.next (pushes n) refl)
]

pop_read-Follows :
    (s : System) (i : ℕ) (top : Option ℕ)
    → s.pc i ≡ pops
    → s.stack.top ≡ top
    → Follows s (pop_read s i).0 (pop_read s i).1
unfolding pop_read phase move
pop_read-Follows s i none at e =
    follows s (pop_read s i) (found_empty i ∷ []) (goes s s.stack i (returns empty_stack))
      (ground (arith, e))
      (event s i pops at s.stack.top (found_empty i) (returns empty_stack) refl refl)
pop_read-Follows s i (some x) at e =
    follows s (pop_read s i) [] (goes s s.stack i (reads x)) (ground (arith, e))
      (silent s i pops at s.stack.top s.stack.heap.next (reads x) refl)

pop_cas-Follows :
    (s : System) (i x : ℕ) (nx : Option ℕ)
    → s.pc i ≡ swings x nx
    → Follows s (pop_cas s i x nx).0 (pop_cas s i x nx).1
unfolding pop_cas cas phase move
pop_cas-Follows s i x nx at = elim (Bool-cases (same s.stack.top (some x))) [
  | inl e ↦
      follows s (pop_cas s i x nx) (popped i (s.stack.heap.val x) ∷ [])
        (goes s (record s.stack { top = nx }) i (takes x (s.stack.heap.val x))) (ground (arith, e))
        (event s i (swings x nx) at nx (popped i (s.stack.heap.val x))
          (takes x (s.stack.heap.val x)) refl refl)
  | inr e ↦
      follows s (pop_cas s i x nx) [] (goes s s.stack i pops) (ground (arith, e))
        (silent s i (swings x nx) at s.stack.top s.stack.heap.next pops refl)
]

advance-Follows :
    (s : System) (xs : List ℕ) (i : ℕ) (q : Pc)
    → Inv s xs
    → s.pc i ≡ q
    → Follows s (advance s i).0 (advance s i).1
unfolding advance load_top phase move track
advance-Follows s xs i idle h at = follows s (advance s i) [] s (rw (at, advance) refl) (λ j. refl)
advance-Follows s xs i (pushes n) h at =
    follows s (advance s i) [] (load_top s i n) (rw (at, advance) refl) (
      silent s i (pushes n) at s.stack.top (update s.stack.heap.next n s.stack.top)
        (links n s.stack.top) refl)
advance-Follows s xs i (links n old) h at =
    follows s (advance s i) (push_cas s i n old).0 (push_cas s i n old).1 (rw (at, advance) refl)
      (push_cas-Follows s i n old at)
advance-Follows s xs i pops h at =
    follows s (advance s i) (pop_read s i).0 (pop_read s i).1 (rw (at, advance) refl)
      (pop_read-Follows s i s.stack.top at refl)
advance-Follows s xs i (reads x) h at =
    follows s (advance s i) [] (goes s s.stack i (swings x (s.stack.heap.next x)))
      (rw (at, advance) refl)
      (silent s i (reads x) at s.stack.top s.stack.heap.next (swings x (s.stack.heap.next x)) refl)
advance-Follows s xs i (swings x nx) h at =
    follows s (advance s i) (pop_cas s i x nx).0 (pop_cas s i x nx).1 (rw (at, advance) refl)
      (pop_cas-Follows s i x nx at)
advance-Follows s xs i (takes x v) h at =
    let me : (s.used x ≡ true) × (s.stack.heap.val x ≡ v) =
      subst (Ok s.stack s.used xs) at (h.knows i) in
    follows s (advance s i) [] (goes s s.stack i (returns (s.stack.heap.val x)))
      (rw (at, advance) refl)
      (silent s i (takes x v) at s.stack.top s.stack.heap.next (returns (s.stack.heap.val x))
        (ap answering (me.1)))
advance-Follows s xs i (returns r) h at =
    follows s (advance s i) (answers i r ∷ []) (goes s s.stack i idle) (rw (at, advance) refl)
      (event s i (returns r) at s.stack.top (answers i r) idle refl (ground (arith, eq_ℤ_iff r r)))

-- A value is written to a fresh node alone, so that no other push changes its value.
phase-frame :
    (s : System) (xs : List ℕ) (n : ℕ) (v : ℤ)
    → s.used n ≡ false
    → (p : Pc) → ((a : ℕ) → touches p a ≡ true → s.used a ≡ true)
    → phase (update s.stack.heap.val n v) p ≡ phase s.stack.heap.val p
unfolding phase
phase-frame s xs n v fresh idle u = refl
phase-frame s xs n v fresh (pushes m) u =
    ap pushing (ground (arith, ne_by s.used n m (u m (==_refl m)) fresh))
phase-frame s xs n v fresh (links m old) u =
    ap pushing (ground (arith, ne_by s.used n m (u m (==_refl m)) fresh))
phase-frame s xs n v fresh pops u = refl
phase-frame s xs n v fresh (reads x) u = refl
phase-frame s xs n v fresh (swings x nx) u = refl
phase-frame s xs n v fresh (takes x w) u = refl
phase-frame s xs n v fresh (returns r) u = refl

start_push-Follows :
    (s : System) (xs : List ℕ) (i n : ℕ) (v : ℤ)
    → Inv s xs
    → s.pc i ≡ idle
    → s.used n ≡ false
    → Follows s (calls_push i v ∷ []) (start_push s i n v)
unfolding start_push phase move
start_push-Follows s xs i n v h at fresh =
    event_lem thread_of move (phase s.stack.heap.val) (phase (update s.stack.heap.val n v)) s.pc i
      (pushes n)
      (λ j ne.
        phase-frame s xs n v fresh (s.pc j)
          (λ a t. touches-used s.stack s.used xs (s.pc j) a (h.knows j) t))
      (calls_push i v) refl
      (ap (λ a. move (calls_push i v) (phase s.stack.heap.val a)) at
        ∙ ap some (ap pushing (ground (arith, ==_refl n))))

pub Step-Follows :
    (s t : System) (xs : List ℕ) (es : List Event) → Inv s xs → Step s es t → Follows s es t
unfolding start_pop phase move
Step-Follows s t xs es h (starts_push i n v at fresh e eq) =
    rw (e, eq) (start_push-Follows s xs i n v h at fresh)
Step-Follows s t xs es h (starts_pop i at e eq) =
    rw (e, eq) (event s i idle at s.stack.top (calls_pop i) pops refl refl)
Step-Follows s t xs es h (advances i eq) =
    subst (λ (o : List Event × System). Follows s o.0 o.1) (sym eq)
      (advance-Follows s xs i (s.pc i) h refl)
