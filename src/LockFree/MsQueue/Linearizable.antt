-- ===== src/LockFree/MsQueue/Linearizable.antt =====
-- Every run of an MS-Queue takes effect as a sequence of enqueues and dequeues of a list.
use sim_universal_constructi.Prelude.{
  ℕ, ◌≡◌, ◌≢◌, refl, sym, ◌∙◌, true, some, List, [], ◌∷◌, ◌++◌, map, arith, ℤ, eq_ℤ, ==_refl,
  Bool-cases, inl, inr, subst,
}
use sim_universal_constructi.Queues.Nodes.{Heap, Linked, has}
use sim_universal_constructi.LockFree.MsQueue.{
  removes, faults, System, Event, calls_enqueue, calls_dequeue, enqueued, dequeued, saw_empty,
  retries, settles, ends, answers, Step, starts_enqueue, starts_dequeue, advances, Reach, here,
  later, init, queue_init, replay,
}
use sim_universal_constructi.LockFree.Calls.{track, track-append}
use sim_universal_constructi.LockFree.MsQueue.Phases.{resting, thread_of, move, phase}
use sim_universal_constructi.LockFree.MsQueue.Calls.{Step-Follows}
use sim_universal_constructi.LockFree.MsQueue.Facts.{Inv}
use sim_universal_constructi.LockFree.MsQueue.Moves.{Takes, place-Ok}
use sim_universal_constructi.LockFree.MsQueue.Enqueues.{start_enqueue-Takes}
use sim_universal_constructi.LockFree.MsQueue.Dequeues.{rests}
use sim_universal_constructi.LockFree.MsQueue.Advance.{advance-Takes}

Step-Takes :
    (s t : System) (xs : List ℕ) (es : List Event) → Inv s xs → Step s es t → Takes s xs es t
Step-Takes s t xs es h (starts_enqueue i p v at fresh e eq) =
    rw (e, eq) (start_enqueue-Takes s xs h i p v fresh)
Step-Takes s t xs es h (starts_dequeue i at e eq) =
    rw (e, eq) (rests s xs h i removes (λ a. refl) tt)
Step-Takes s t xs es h (advances i eq) =
    subst (λ (o : List Event × System). Takes s xs o.0 o.1) (sym eq)
      (advance-Takes s xs h i (s.pc i) refl)

replay-append :
    (past es : List Event) (vs ws : List ℤ)
    → replay past vs ≡ some ws
    → replay (past ++ es) vs ≡ replay es ws
replay-append [] es vs ws e = ground (arith, e)
replay-append (calls_enqueue i v ∷ past) es vs ws e = replay-append past es vs ws e
replay-append (calls_dequeue i ∷ past) es vs ws e = replay-append past es vs ws e
replay-append (retries i ∷ past) es vs ws e = replay-append past es vs ws e
replay-append (settles i ∷ past) es vs ws e = replay-append past es vs ws e
replay-append (ends i ∷ past) es vs ws e = replay-append past es vs ws e
replay-append (answers i r ∷ past) es vs ws e = replay-append past es vs ws e
replay-append (enqueued i v ∷ past) es vs ws e = replay-append past es (vs ++ v ∷ []) ws e
replay-append (dequeued i r ∷ past) es [] ws e = absurd (ground (arith, e))
replay-append (dequeued i r ∷ past) es (v ∷ vs) ws e = elim (Bool-cases (eq_ℤ r v)) [
  | inl same ↦ rw same (replay-append past es vs ws (ground (arith, e, same)))
  | inr same ↦ absurd (ground (arith, e, same))
]
replay-append (saw_empty i ∷ past) es [] ws e = replay-append past es [] ws e
replay-append (saw_empty i ∷ past) es (v ∷ vs) ws e = absurd (ground (arith, e))

init-Inv : (h : Heap) (p : ℕ) → Inv (init h p) []
unfolding queue_init
init-Inv h p = record {
  shape = record {
    chain = ground (arith, ==_refl p);
    distinct = (refl, tt);
    members = λ a m. ground (arith, m);
    live = λ a l e. ground (arith, l);
    closed = λ a x l. absurd (ground (arith, l.0, l.1));
    allocated = λ a l. l;
    tail_in = ground (arith, ==_refl p);
  };
  knows = λ i. tt;
  apart = λ i j a ne o. absurd (ground (arith, o));
}

Reach-Takes :
    (h : Heap) (p : ℕ) (past : List Event) (s : System)
    → Reach (init h p) past s
    → (xs : List ℕ) × Inv s xs × (replay past [] ≡ some (map s.queue.heap.val xs))
Reach-Takes h p _ _ here = ([], init-Inv h p, refl)
Reach-Takes h p _ u (later {past = past} {events = es} {t = t} run step) =
    let (xs, inv, e) = Reach-Takes h p past t run in
    let (ys, kept, d) = Step-Takes t u xs es inv step in
    (ys, kept, replay-append past es [] (map t.queue.heap.val xs) e ∙ d)

Reach-Follows :
    (h : Heap) (p : ℕ) (past : List Event) (s : System)
    → Reach (init h p) past s
    → (j : ℕ) → track thread_of move j past resting ≡ some (phase s.queue.heap.val (s.pc j))
unfolding track phase
Reach-Follows h p _ _ here j = refl
Reach-Follows h p _ u (later {past = past} {events = es} {t = t} run step) j =
    let (xs, inv, e) = Reach-Takes h p past t run in
    track-append thread_of move j past es resting (phase t.queue.heap.val (t.pc j))
      (Reach-Follows h p past t run j)
    ∙ Step-Follows t u xs es inv step j

-- From an empty MS-Queue, after any interleaving of enqueues and dequeues of any number of threads,
-- whose nodes were not handed out before: the enqueues and dequeues that took effect, one after the
-- other, are what a list of values would have done, with the same values taken out and the queue seen
-- empty only when the list was; the list that they leave is what the nodes behind the head hold; the
-- tail is one of the head and those nodes; and the events of each thread are calls one after the other,
-- up to the call that the thread is in, in which an enqueue takes effect once before it returns, with the
-- value that it was called with, and a dequeue either takes effect once and returns the value that it took
-- out, or returns EMPTY_QUEUE after it saw the queue empty.
pub ms_queue_linearizable :
    (h : Heap) (p : ℕ) (past : List Event) (s : System)
    → Reach (init h p) past s
    → (xs : List ℕ) × Linked s.queue.heap.next s.queue.head xs
      × (replay past [] ≡ some (map s.queue.heap.val xs))
      × (has s.queue.tail (s.queue.head ∷ xs) ≡ true)
      × ((j : ℕ) → track thread_of move j past resting ≡ some (phase s.queue.heap.val (s.pc j)))
ms_queue_linearizable h p past s run =
    let (xs, inv, e) = Reach-Takes h p past s run in
    (xs, inv.shape.chain, e, inv.shape.tail_in, Reach-Follows h p past s run)

-- From an empty MS-Queue, whatever the interleaving, with nodes that were not handed out before, no dequeue
-- reads the value of a NULL pointer.
pub ms_queue_never_faults :
    (h : Heap) (p : ℕ) (past : List Event) (s : System)
    → Reach (init h p) past s
    → (i : ℕ) → s.pc i ≢ faults
ms_queue_never_faults h p past s run i at =
    let (xs, inv, e) = Reach-Takes h p past s run in ground (arith, place-Ok s xs inv i faults at)
