-- ===== src/LockFree/MsQueue/Advance.antt =====
-- What each shared access of an MS-Queue does to the list of its values.
use sim_universal_constructi.Prelude.{
  ℕ, ◌==◌, ◌≡◌, refl, Bool, true, false, Option, none, some, List, [], ◌∷◌, arith, ==_refl,
}
use sim_universal_constructi.LockFree.MsQueue.{
  Pc, idle, enters, reads_tail, reads_next, links, helps, swings, removes, reads_first, reads_last,
  reads_second, aids, reads_val, takes, returns, faults, System, enqueued, ends, answers, goes,
  check_tail, link_cas, read_second, check_head, head_cas, swing, advance,
}
use sim_universal_constructi.LockFree.MsQueue.Facts.{view, Read, Inv}
use sim_universal_constructi.LockFree.MsQueue.Moves.{
  Takes, does, becomes, stays, place-Ok, apart_at, swing-Takes,
}
use sim_universal_constructi.LockFree.MsQueue.Enqueues.{link_hit}
use sim_universal_constructi.LockFree.MsQueue.Dequeues.{
  rests, read_second-Takes, check_head-Takes, head_cas-Takes,
}

module _ (s : System) (xs : List ℕ) (h : Inv s xs) (i : ℕ) where
  -- A link that is read now
  current-Read :
      (a : ℕ) (o : Option ℕ) → s.linked a ≡ true → s.queue.heap.next a ≡ o → Read (view s xs) a o
  current-Read a none l e = l
  current-Read a (some x) l e = (l, e)

  check_tail-Takes :
      (p last : ℕ) (next : Option ℕ)
      → s.pc i ≡ reads_next p last next
      → (there : Bool) → (s.queue.tail == last) ≡ there
      → Takes s xs [] (check_tail s i p last next)
  unfolding check_tail
  check_tail-Takes p last next at false e =
      becomes s xs [] (goes s i (enters p)) (check_tail s i p last next) (ground (arith, e)) (
        stays s xs h i (enters p) ((place-Ok s xs h i (reads_next p last next) at).0)
          (apart_at s xs h i (reads_next p last next) at))
  check_tail-Takes p last none at true e =
      becomes s xs [] (goes s i (links p last)) (check_tail s i p last none) (ground (arith, e)) (
        stays s xs h i (links p last) (place-Ok s xs h i (reads_next p last none) at)
          (apart_at s xs h i (reads_next p last none) at))
  check_tail-Takes p last (some x) at true e =
      becomes s xs [] (goes s i (helps p last x)) (check_tail s i p last (some x))
        (ground (arith, e))
        (stays s xs h i (helps p last x) (place-Ok s xs h i (reads_next p last (some x)) at)
          (apart_at s xs h i (reads_next p last (some x)) at))

  link_cas-Takes :
      (p last : ℕ) (o : Option ℕ)
      → s.pc i ≡ links p last
      → s.queue.heap.next last ≡ o
      → Takes s xs (link_cas s i p last).0 (link_cas s i p last).1
  unfolding link_cas
  link_cas-Takes p last none at e =
      does s xs (link_cas s i p last) (enqueued i (s.queue.heap.val p) ∷ []) _ (ground (arith, e))
        (link_hit s xs h i p last at e)
  link_cas-Takes p last (some x) at e =
      does s xs (link_cas s i p last) [] (goes s i (enters p)) (ground (arith, e)) (
        stays s xs h i (enters p) ((place-Ok s xs h i (links p last) at).0)
          (apart_at s xs h i (links p last) at))

  tail_linked : s.linked s.queue.tail ≡ true
  tail_linked = h.shape.members s.queue.tail h.shape.tail_in

  pub advance-Takes : (p : Pc) → s.pc i ≡ p → Takes s xs (advance s i).0 (advance s i).1
  unfolding advance
  advance-Takes idle at = does s xs (advance s i) [] s (rw (at, advance) refl) (xs, h, refl)
  advance-Takes (enters p) at =
      does s xs (advance s i) [] (goes s i (reads_tail p s.queue.tail)) (rw (at, advance) refl) (
        stays s xs h i (reads_tail p s.queue.tail) (place-Ok s xs h i (enters p) at, tail_linked)
          (apart_at s xs h i (enters p) at))
  advance-Takes (reads_tail p last) at =
      let me = place-Ok s xs h i (reads_tail p last) at in
      does s xs (advance s i) [] (goes s i (reads_next p last (s.queue.heap.next last)))
        (rw (at, advance) refl)
        (stays s xs h i (reads_next p last (s.queue.heap.next last))
          (me.0, current-Read last (s.queue.heap.next last) me.1 refl)
          (apart_at s xs h i (reads_tail p last) at))
  advance-Takes (reads_next p last next) at =
      does s xs (advance s i) [] (check_tail s i p last next) (rw (at, advance) refl)
        (check_tail-Takes p last next at (s.queue.tail == last) refl)
  advance-Takes (links p last) at =
      does s xs (advance s i) (link_cas s i p last).0 (link_cas s i p last).1
        (rw (at, advance) refl) (link_cas-Takes p last (s.queue.heap.next last) at refl)
  advance-Takes (helps p last next) at =
      let me = place-Ok s xs h i (helps p last next) at in
      does s xs (advance s i) [] (swing s i last next (enters p)) (rw (at, advance) refl) (
        swing-Takes s xs h i last next (enters p) me.1 (λ tail. me.0)
          (apart_at s xs h i (helps p last next) at))
  advance-Takes (swings last p) at =
      does s xs (advance s i) (ends i ∷ []) (swing s i last p idle) (rw (at, advance) refl) (
        swing-Takes s xs h i last p idle (place-Ok s xs h i (swings last p) at) (λ tail. tt)
          (λ j a ne o. absurd (ground (arith, o))))
  advance-Takes removes at =
      does s xs (advance s i) [] (goes s i (reads_first s.queue.head)) (rw (at, advance) refl) (
        rests s xs h i (reads_first s.queue.head) (λ a. refl)
          (h.shape.members s.queue.head (ground (arith, ==_refl s.queue.head)), h.shape.distinct.0))
  advance-Takes (reads_first first) at =
      does s xs (advance s i) [] (goes s i (reads_last first s.queue.tail)) (rw (at, advance) refl)
        (rests s xs h i (reads_last first s.queue.tail) (λ a. refl)
          (place-Ok s xs h i (reads_first first) at, λ ne. ground (arith, ne)))
  advance-Takes (reads_last first last) at =
      does s xs (advance s i) (read_second s i first last).0 (read_second s i first last).1
        (rw (at, advance) refl)
        (read_second-Takes s xs h i first last (s.queue.heap.next first) at refl)
  advance-Takes (reads_second first last next) at =
      does s xs (advance s i) (check_head s i first last next).0 (check_head s i first last next).1
        (rw (at, advance) refl) (check_head-Takes s xs h i first last next at)
  advance-Takes (aids last next) at =
      does s xs (advance s i) [] (swing s i last next removes) (rw (at, advance) refl) (
        swing-Takes s xs h i last next removes (place-Ok s xs h i (aids last next) at) (λ tail. tt)
          (λ j a ne o. absurd (ground (arith, o))))
  advance-Takes (reads_val first next) at =
      let (left, ahead, leads) = place-Ok s xs h i (reads_val first next) at in
      does s xs (advance s i) [] (goes s i (takes first next (s.queue.heap.val next)))
        (rw (at, advance) refl)
        (rests s xs h i (takes first next (s.queue.heap.val next)) (λ a. refl)
          (left, ahead, leads, refl, h.shape.closed first next leads))
  advance-Takes (takes first next v) at =
      does s xs (advance s i) (head_cas s i first next v).0 (head_cas s i first next v).1
        (rw (at, advance) refl) (head_cas-Takes s xs i first next v h at)
  advance-Takes (returns r) at =
      does s xs (advance s i) (answers i r ∷ []) (goes s i idle) (rw (at, advance) refl)
        (rests s xs h i idle (λ a. refl) tt)
  advance-Takes faults at = absurd (ground (arith, place-Ok s xs h i faults at))
