-- ===== src/LockFree/MsQueue/Calls.antt =====
-- What each thread of an MS-Queue is about, along a run.
use sim_universal_constructi.Prelude.{
  ℕ, ◌==◌, ◌≡◌, refl, sym, ◌∙◌, ap, Bool, true, false, Option, none, some, List, [], ◌∷◌, arith,
  update, ℤ, eq_ℤ_iff, Bool-cases, inl, inr, subst, ==_refl,
}
use sim_universal_constructi.Queues.Nodes.{ne_by, empty_queue}
use sim_universal_constructi.LockFree.Calls.{track, silent_lem, event_lem}
use sim_universal_constructi.LockFree.MsQueue.{
  Pc, idle, enters, reads_tail, reads_next, links, helps, swings, removes, reads_first, reads_last,
  reads_second, aids, reads_val, takes, returns, faults, System, Event, calls_enqueue,
  calls_dequeue, enqueued, dequeued, saw_empty, retries, settles, ends, answers, goes,
  start_enqueue, cas_tail, check_tail, link_cas, read_second, check_head, head_cas, swing, advance,
  Step, starts_enqueue, starts_dequeue, advances,
}
use sim_universal_constructi.LockFree.MsQueue.Facts.{owns, view, Inv, owns-Own}
use sim_universal_constructi.LockFree.MsQueue.Phases.{enqueuing, thread_of, move, phase}

abbrev pub Follows : System → List Event → System → Type 0
Follows s es t =
    (j : ℕ)
    → track thread_of move j es (phase s.queue.heap.val (s.pc j))
      ≡ some (phase t.queue.heap.val (t.pc j))

follows :
    (s : System) (out : List Event × System) (es : List Event) (t : System)
    → out ≡ (es, t)
    → Follows s es t
    → Follows s out.0 out.1
follows s out es t e r = subst (λ (o : List Event × System). Follows s o.0 o.1) (sym e) r

-- Steps that write no value: without an event, and with one of the thread.
module _ (s : System) (i : ℕ) (q : Pc) (at : s.pc i ≡ q) (t : System) (p : Pc)
    (stands : t.pc ≡ update s.pc i p) (same : t.queue.heap.val ≡ s.queue.heap.val) where
  silent : phase s.queue.heap.val p ≡ phase s.queue.heap.val q → Follows s [] t
  silent h =
      rw (stands, same)
        (silent_lem thread_of move (phase s.queue.heap.val) (phase s.queue.heap.val) s.pc i p
          (λ j ne. refl) (h ∙ ap (phase s.queue.heap.val) (sym at)))

  event :
      (e : Event)
      → thread_of e ≡ i
      → move e (phase s.queue.heap.val q) ≡ some (phase s.queue.heap.val p)
      → Follows s (e ∷ []) t
  event e by h =
      rw (stands, same)
        (event_lem thread_of move (phase s.queue.heap.val) (phase s.queue.heap.val) s.pc i p
          (λ j ne. refl) e by (ap (λ a. move e (phase s.queue.heap.val a)) at ∙ h))

module _ (s : System) (i : ℕ) where
  rests :
      (q p : Pc)
      → s.pc i ≡ q
      → phase s.queue.heap.val p ≡ phase s.queue.heap.val q
      → Follows s [] (goes s i p)
  rests q p at h = silent s i q at (goes s i p) p refl refl h

  tells :
      (q p : Pc) (e : Event)
      → s.pc i ≡ q
      → thread_of e ≡ i
      → move e (phase s.queue.heap.val q) ≡ some (phase s.queue.heap.val p)
      → Follows s (e ∷ []) (goes s i p)
  tells q p e at by h = event s i q at (goes s i p) p refl refl e by h

  cas_tail_val : (last next : ℕ) → (cas_tail s.queue last next).heap.val ≡ s.queue.heap.val
  unfolding cas_tail
  cas_tail_val last next = elim (Bool-cases (s.queue.tail == last)) [
    | inl e ↦ ground (arith, e)
    | inr e ↦ ground (arith, e)
  ]

  check_tail-Follows :
      (p last : ℕ) (next : Option ℕ) (there : Bool)
      → s.pc i ≡ reads_next p last next
      → (s.queue.tail == last) ≡ there
      → Follows s [] (check_tail s i p last next)
  unfolding check_tail phase
  check_tail-Follows p last next false at e =
      follows s ([], check_tail s i p last next) [] (goes s i (enters p)) (ground (arith, e))
        (rests (reads_next p last next) (enters p) at refl)
  check_tail-Follows p last none true at e =
      follows s ([], check_tail s i p last none) [] (goes s i (links p last)) (ground (arith, e))
        (rests (reads_next p last none) (links p last) at refl)
  check_tail-Follows p last (some x) true at e =
      follows s ([], check_tail s i p last (some x)) [] (goes s i (helps p last x))
        (ground (arith, e)) (rests (reads_next p last (some x)) (helps p last x) at refl)

  link_cas-Follows :
      (p last : ℕ) (o : Option ℕ)
      → s.pc i ≡ links p last
      → s.queue.heap.next last ≡ o
      → Follows s (link_cas s i p last).0 (link_cas s i p last).1
  unfolding link_cas phase move
  link_cas-Follows p last none at e =
      let t : System = record s {
        queue = record s.queue {
          heap = record s.queue.heap { next = update s.queue.heap.next last (some p) };
        };
        linked = update s.linked p true;
        pc = update s.pc i (swings last p);
      } in
      follows s (link_cas s i p last) (enqueued i (s.queue.heap.val p) ∷ []) t (ground (arith, e)) (
        event s i (links p last) at t (swings last p) refl refl (enqueued i (s.queue.heap.val p))
          refl (ground (arith, eq_ℤ_iff (s.queue.heap.val p) (s.queue.heap.val p))))
  link_cas-Follows p last (some x) at e =
      follows s (link_cas s i p last) [] (goes s i (enters p)) (ground (arith, e))
        (rests (links p last) (enters p) at refl)

  read_second-Follows :
      (first last : ℕ) (o : Option ℕ)
      → s.pc i ≡ reads_last first last
      → s.queue.heap.next first ≡ o
      → Follows s (read_second s i first last).0 (read_second s i first last).1
  unfolding read_second phase move
  read_second-Follows first last none at e =
      follows s (read_second s i first last) (saw_empty i ∷ [])
        (goes s i (reads_second first last none)) (ground (arith, e))
        (tells (reads_last first last) (reads_second first last none) (saw_empty i) at refl refl)
  read_second-Follows first last (some x) at e =
      follows s (read_second s i first last) [] (goes s i (reads_second first last (some x)))
        (ground (arith, e))
        (rests (reads_last first last) (reads_second first last (some x)) at refl)

  check_head-Follows :
      (first last : ℕ) (next : Option ℕ) (there alone : Bool)
      → s.pc i ≡ reads_second first last next
      → (s.queue.head == first) ≡ there
      → (first == last) ≡ alone
      → Follows s (check_head s i first last next).0 (check_head s i first last next).1
  unfolding check_head phase move
  check_head-Follows first last none false alone at e d =
      follows s (check_head s i first last none) (retries i ∷ []) (goes s i removes)
        (ground (arith, e)) (tells (reads_second first last none) removes (retries i) at refl refl)
  check_head-Follows first last (some x) false alone at e d =
      follows s (check_head s i first last (some x)) (retries i ∷ []) (goes s i removes)
        (ground (arith, e))
        (tells (reads_second first last (some x)) removes (retries i) at refl refl)
  check_head-Follows first last none true true at e d =
      follows s (check_head s i first last none) (settles i ∷ []) (goes s i (returns empty_queue))
        (ground (arith, e, d))
        (tells (reads_second first last none) (returns empty_queue) (settles i) at refl refl)
  check_head-Follows first last (some x) true true at e d =
      follows s (check_head s i first last (some x)) [] (goes s i (aids last x))
        (ground (arith, e, d)) (rests (reads_second first last (some x)) (aids last x) at refl)
  check_head-Follows first last none true false at e d =
      follows s (check_head s i first last none) [] (goes s i faults) (ground (arith, e, d))
        (rests (reads_second first last none) faults at refl)
  check_head-Follows first last (some x) true false at e d =
      follows s (check_head s i first last (some x)) [] (goes s i (reads_val first x))
        (ground (arith, e, d))
        (rests (reads_second first last (some x)) (reads_val first x) at refl)

  head_cas-Follows :
      (first next : ℕ) (v : ℤ) (there : Bool)
      → s.pc i ≡ takes first next v
      → (s.queue.head == first) ≡ there
      → Follows s (head_cas s i first next v).0 (head_cas s i first next v).1
  unfolding head_cas phase move
  head_cas-Follows first next v true at e =
      let t : System = record s {
        queue = record s.queue { head = next };
        pc = update s.pc i (returns v);
      } in
      follows s (head_cas s i first next v) (dequeued i v ∷ []) t (ground (arith, e))
        (event s i (takes first next v) at t (returns v) refl refl (dequeued i v) refl refl)
  head_cas-Follows first next v false at e =
      follows s (head_cas s i first next v) [] (goes s i removes) (ground (arith, e))
        (rests (takes first next v) removes at refl)

  advance-Follows : (p : Pc) → s.pc i ≡ p → Follows s (advance s i).0 (advance s i).1
  unfolding advance phase move track
  advance-Follows idle at = follows s (advance s i) [] s (rw (at, advance) refl) (λ j. refl)
  advance-Follows (enters p) at =
      follows s (advance s i) [] (goes s i (reads_tail p s.queue.tail)) (rw (at, advance) refl)
        (rests (enters p) (reads_tail p s.queue.tail) at refl)
  advance-Follows (reads_tail p last) at =
      follows s (advance s i) [] (goes s i (reads_next p last (s.queue.heap.next last)))
        (rw (at, advance) refl)
        (rests (reads_tail p last) (reads_next p last (s.queue.heap.next last)) at refl)
  advance-Follows (reads_next p last next) at =
      follows s (advance s i) [] (check_tail s i p last next) (rw (at, advance) refl)
        (check_tail-Follows p last next (s.queue.tail == last) at refl)
  advance-Follows (links p last) at =
      follows s (advance s i) (link_cas s i p last).0 (link_cas s i p last).1
        (rw (at, advance) refl) (link_cas-Follows p last (s.queue.heap.next last) at refl)
  advance-Follows (helps p last next) at =
      follows s (advance s i) [] (swing s i last next (enters p)) (rw (at, advance) refl) (
        silent s i (helps p last next) at (swing s i last next (enters p)) (enters p) refl
          (cas_tail_val last next) refl)
  advance-Follows (swings last p) at =
      follows s (advance s i) (ends i ∷ []) (swing s i last p idle) (rw (at, advance) refl) (
        event s i (swings last p) at (swing s i last p idle) idle refl (cas_tail_val last p)
          (ends i) refl refl)
  advance-Follows removes at =
      follows s (advance s i) [] (goes s i (reads_first s.queue.head)) (rw (at, advance) refl)
        (rests removes (reads_first s.queue.head) at refl)
  advance-Follows (reads_first first) at =
      follows s (advance s i) [] (goes s i (reads_last first s.queue.tail)) (rw (at, advance) refl)
        (rests (reads_first first) (reads_last first s.queue.tail) at refl)
  advance-Follows (reads_last first last) at =
      follows s (advance s i) (read_second s i first last).0 (read_second s i first last).1
        (rw (at, advance) refl) (read_second-Follows first last (s.queue.heap.next first) at refl)
  advance-Follows (reads_second first last next) at =
      follows s (advance s i) (check_head s i first last next).0 (check_head s i first last next).1
        (rw (at, advance) refl)
        (check_head-Follows first last next (s.queue.head == first) (first == last) at refl refl)
  advance-Follows (aids last next) at =
      follows s (advance s i) [] (swing s i last next removes) (rw (at, advance) refl) (
        silent s i (aids last next) at (swing s i last next removes) removes refl
          (cas_tail_val last next) refl)
  advance-Follows (reads_val first next) at =
      follows s (advance s i) [] (goes s i (takes first next (s.queue.heap.val next)))
        (rw (at, advance) refl)
        (rests (reads_val first next) (takes first next (s.queue.heap.val next)) at refl)
  advance-Follows (takes first next v) at =
      follows s (advance s i) (head_cas s i first next v).0 (head_cas s i first next v).1
        (rw (at, advance) refl) (head_cas-Follows first next v (s.queue.head == first) at refl)
  advance-Follows (returns r) at =
      follows s (advance s i) (answers i r ∷ []) (goes s i idle) (rw (at, advance) refl)
        (tells (returns r) idle (answers i r) at refl (ground (arith, eq_ℤ_iff r r)))
  advance-Follows faults at = follows s (advance s i) [] s (rw (at, advance) refl) (λ j. refl)

-- A value is written to a fresh node alone, so that no other enqueue changes its value.
phase-frame :
    (s : System) (n : ℕ) (v : ℤ)
    → s.used n ≡ false
    → (p : Pc) → ((a : ℕ) → owns p a ≡ true → s.used a ≡ true)
    → phase (update s.queue.heap.val n v) p ≡ phase s.queue.heap.val p
unfolding phase
phase-frame s n v fresh idle u = refl
phase-frame s n v fresh (enters p) u =
    ap enqueuing (ground (arith, ne_by s.used n p (u p (==_refl p)) fresh))
phase-frame s n v fresh (reads_tail p last) u =
    ap enqueuing (ground (arith, ne_by s.used n p (u p (==_refl p)) fresh))
phase-frame s n v fresh (reads_next p last next) u =
    ap enqueuing (ground (arith, ne_by s.used n p (u p (==_refl p)) fresh))
phase-frame s n v fresh (links p last) u =
    ap enqueuing (ground (arith, ne_by s.used n p (u p (==_refl p)) fresh))
phase-frame s n v fresh (helps p last next) u =
    ap enqueuing (ground (arith, ne_by s.used n p (u p (==_refl p)) fresh))
phase-frame s n v fresh (swings last p) u = refl
phase-frame s n v fresh removes u = refl
phase-frame s n v fresh (reads_first first) u = refl
phase-frame s n v fresh (reads_last first last) u = refl
phase-frame s n v fresh (reads_second first last none) u = refl
phase-frame s n v fresh (reads_second first last (some x)) u = refl
phase-frame s n v fresh (aids last next) u = refl
phase-frame s n v fresh (reads_val first next) u = refl
phase-frame s n v fresh (takes first next w) u = refl
phase-frame s n v fresh (returns r) u = refl
phase-frame s n v fresh faults u = refl

start_enqueue-Follows :
    (s : System) (xs : List ℕ) (i n : ℕ) (v : ℤ)
    → Inv s xs
    → s.pc i ≡ idle
    → s.used n ≡ false
    → Follows s (calls_enqueue i v ∷ []) (start_enqueue s i n v)
unfolding start_enqueue phase move
start_enqueue-Follows s xs i n v h at fresh =
    event_lem thread_of move (phase s.queue.heap.val) (phase (update s.queue.heap.val n v)) s.pc i
      (enters n)
      (λ j ne.
        phase-frame s n v fresh (s.pc j) (λ a o. (owns-Own (view s xs) (s.pc j) a (h.knows j) o).0))
      (calls_enqueue i v) refl
      (ap (λ a. move (calls_enqueue i v) (phase s.queue.heap.val a)) at
        ∙ ap some (ap enqueuing (ground (arith, ==_refl n))))

pub Step-Follows :
    (s t : System) (xs : List ℕ) (es : List Event) → Inv s xs → Step s es t → Follows s es t
unfolding phase move
Step-Follows s t xs es h (starts_enqueue i n v at fresh e eq) =
    rw (e, eq) (start_enqueue-Follows s xs i n v h at fresh)
Step-Follows s t xs es h (starts_dequeue i at e eq) =
    rw (e, eq) (tells s i idle removes (calls_dequeue i) at refl refl)
Step-Follows s t xs es h (advances i eq) =
    subst (λ (o : List Event × System). Follows s o.0 o.1) (sym eq)
      (advance-Follows s i (s.pc i) refl)
