-- ===== src/Queues/Runs.antt =====
-- Sequences of operations on the CC-Queue, against a list of values.
use sim_universal_constructi.Prelude.{
  ℕ, suc, ◌≡◌, ◌≢◌, refl, sym, ◌∙◌, true, false, Option, none, some, List, [], ◌∷◌, ◌++◌, map,
  arith, ℤ, pos, ap, update, eq_ℤ_iff, ==_refl, ◌==◌, Bool-cases, inl, inr,
}
use sim_universal_constructi.Queues.Nodes.{
  has, guard_value, empty_queue, ne_of_has, has-snoc, set_word,
}
use sim_universal_constructi.Queues.Combiner.{Combiner}
use sim_universal_constructi.Queues.Serial.{Queue, enqueue, dequeue}
use sim_universal_constructi.Queues.Fifo.{IsQueue, enqueue_lem}
use sim_universal_constructi.Queues.Lifo.{map-frame, map-snoc}
use sim_universal_constructi.Queues.Struct
use sim_universal_constructi.Queues.Struct.{QueueStruct, serial_enqueue, serial_dequeue}
use sim_universal_constructi.Queues.Files.Cc

-- An enqueue comes with the node that `synchAllocObj` returns to it, and a dequeue with the word that
-- `synchRecycleObj` stores in the node that it leaves behind.
pub data Op : Type 0 where
  enq : ℕ → ℤ → ℕ → Op
  deq : ℤ → ℕ → Op

-- The values that the dequeues return, for a list of values.
abbrev pub spec : List Op → List ℤ → List ℤ × List ℤ
spec [] vs = ([], vs)
spec (enq node v pid ∷ ops) vs = spec ops (vs ++ v ∷ [])
spec (deq word pid ∷ ops) [] = let (rets, ws) = spec ops [] in (empty_queue ∷ rets, ws)
spec (deq word pid ∷ ops) (v ∷ vs) = let (rets, ws) = spec ops vs in (v ∷ rets, ws)

-- The node of each enqueue is none of those in use then, which are `first` and xs at the start, and
-- the value is not the guard value. A node that a dequeue has left behind may come back.
abbrev pub Allocates : List Op → ℕ → List ℕ → Type 0
Allocates [] first xs = Unit
Allocates (enq node v pid ∷ ops) first xs =
    (has node (first ∷ xs) ≡ false) × (v ≢ guard_value) × Allocates ops first (xs ++ node ∷ [])
Allocates (deq word pid ∷ ops) first [] = Allocates ops first []
Allocates (deq word pid ∷ ops) first (x ∷ xs) = Allocates ops x xs

module _ (c : Combiner) (fuel : ℕ) where
  -- The operations one after the other, with the values that the dequeues return.
  unfoldable pub run : List Op → QueueStruct c → Option (List ℤ × QueueStruct c)
  run [] s = some ([], s)
  run (enq node v pid ∷ ops) s = elim (Cc.apply_enqueue c node s v pid) [
    | none ↦ none
    | some t ↦ run ops t
  ]
  run (deq word pid ∷ ops) s = elim (Cc.apply_dequeue c fuel word s (pos pid) pid) [
    | none ↦ none
    | some (r, t) ↦ elim (run ops t) [ none ↦ none | some (rets, u) ↦ some (r ∷ rets, u) ]
  ]

-- The queue's nodes behind `first` are xs, with the values vs, none of them the guard value, and no
-- thread is at work.
pub record Holds (c : Combiner) (s : QueueStruct c) (xs : List ℕ) (vs : List ℤ) : Type 0 where
  pub ready : Struct.Ready c s
  pub is_queue : IsQueue s.queue xs
  pub vals : map s.queue.heap.val xs ≡ vs
  pub plain : (a : ℕ) → has a xs ≡ true → s.queue.heap.val a ≢ guard_value

module _ (c : Combiner) (s : QueueStruct c) (v : ℤ) (pid : ℕ) where
  -- One operation, for what the serial code does
  enqueues :
      (node : ℕ)
      → Struct.Ready c s
      → (t : QueueStruct c) × (Cc.apply_enqueue c node s v pid ≡ some t)
        × Struct.Ready c t
        × (t.queue ≡ (enqueue node s.queue v).1)
  unfolding Cc.apply_enqueue Struct.apply_enqueue serial_enqueue
  enqueues node ready =
      let out = enqueue node s.queue v in
      let (y, run, again) =
        c.applies Queue (serial_enqueue node) s.enqueue_struct s.queue out.1 v out.0 pid (ready.0)
          refl in
      (
        record s { enqueue_struct = y; queue = out.1 },
        rw (run, Cc.apply_enqueue, Struct.apply_enqueue) refl,
        (again, ready.1),
        refl,
      )

  dequeues :
      (fuel : ℕ) (word r : ℤ) (q : Queue)
      → Struct.Ready c s
      → dequeue fuel word s.queue ≡ some (r, q)
      → (t : QueueStruct c) × (Cc.apply_dequeue c fuel word s v pid ≡ some (r, t))
        × Struct.Ready c t
        × (t.queue ≡ q)
  unfolding Cc.apply_dequeue Struct.apply_dequeue serial_dequeue
  dequeues fuel word r q ready e =
      let (y, run, again) =
        c.applies Queue (serial_dequeue fuel word) s.dequeue_struct s.queue q v r pid (ready.1) e in
      (
        record s { dequeue_struct = y; queue = q },
        rw (run, Cc.apply_dequeue, Struct.apply_dequeue) refl,
        (ready.0, again),
        refl,
      )

module _ (c : Combiner) (s : QueueStruct c) (xs : List ℕ) (vs : List ℤ) (h : Holds c s xs vs) where
  enqueues-Holds :
      (node pid : ℕ) (v : ℤ)
      → has node (s.queue.first ∷ xs) ≡ false
      → v ≢ guard_value
      → (t : QueueStruct c) × (Cc.apply_enqueue c node s v pid ≡ some t)
        × Holds c t (xs ++ node ∷ []) (vs ++ v ∷ [])
        × (t.queue.first ≡ s.queue.first)
  unfolding enqueue
  enqueues-Holds node pid v fresh ne =
      let (t, run, ready, eq) = enqueues c s v pid node h.ready in
      let e = enqueue_lem node s.queue v xs h.is_queue fresh ne in
      let frame =
        map-frame s.queue.heap.val (update s.queue.heap.val node v) xs
          (λ a i. ground (arith, ne_of_has node a xs (ground (arith, fresh)) i)) in
      (
        t,
        run,
        record {
          ready = ready;
          is_queue = rw eq (e.1);
          vals = rw eq (
              map-snoc (update s.queue.heap.val node v) xs node
              ∙ ground (arith, ==_refl node, h.vals, frame));
          plain = rw eq (λ a i. elim (Bool-cases (node == a)) [
            | inl e ↦ rw e ne
            | inr e ↦ rw e (h.plain a (ground (arith, has-snoc a node xs)))
          ]);
        },
        ap (λ (q : Queue). q.first) eq,
      )

-- A dequeue from a queue with a node behind the first one, or from an empty one
dequeue_in_front :
    (fuel : ℕ) (word : ℤ) (q : Queue) (x : ℕ)
    → q.heap.next q.first ≡ some x
    → q.heap.val x ≢ guard_value
    → (q.first == x) ≡ false
    → dequeue (suc fuel) word q
      ≡ some (
        q.heap.val x,
        record q {
          heap = set_word q.heap q.first word;
          first = x;
          recycled = q.first ∷ q.recycled;
        },
      )
unfolding dequeue
dequeue_in_front fuel word q x e ne apart =
    ground (arith, e, ne, apart, eq_ℤ_iff (q.heap.val x) guard_value)

dequeue_at_end :
    (fuel : ℕ) (word : ℤ) (q : Queue)
    → q.heap.next q.first ≡ none
    → dequeue (suc fuel) word q ≡ some (empty_queue, q)
unfolding dequeue
dequeue_at_end fuel word q e = ground (arith, e)

module _ (c : Combiner) (fuel : ℕ) where
  abbrev Refines : List Op → QueueStruct c → List ℤ → Type 0
  Refines ops s vs =
      (t : QueueStruct c) × (run c (suc fuel) ops s ≡ some ((spec ops vs).0, t))
      × (ys : List ℕ) × Holds c t ys (spec ops vs).1

  pub run-Refines :
      (ops : List Op) (s : QueueStruct c) (xs : List ℕ) (vs : List ℤ)
      → Holds c s xs vs
      → Allocates ops s.queue.first xs
      → Refines ops s vs
  unfolding run
  run-Refines [] s xs vs h a = (s, refl, xs, h)
  run-Refines (enq node v pid ∷ ops) s xs vs h a =
      let (t, ran, holds, first) = enqueues-Holds c s xs vs h node pid v a.0 a.1 in
      let (u, rest, ys, last) =
        run-Refines ops t (xs ++ node ∷ []) (vs ++ v ∷ []) holds (rw first (a.2)) in
      (u, rw (ran, run) rest, ys, last)
  run-Refines (deq word pid ∷ ops) s [] [] h a =
      let (t, ran, ready, eq) =
        dequeues c s (pos pid) pid (suc fuel) word empty_queue s.queue h.ready
          (dequeue_at_end fuel word s.queue h.is_queue.chain) in
      let (u, rest, ys, last) =
        run-Refines ops t [] []
          (record {
            ready = ready;
            is_queue = rw eq (h.is_queue);
            vals = refl;
            plain = rw eq (h.plain);
          })
          (rw eq a) in
      (u, rw (ran, rest, run) refl, ys, last)
  run-Refines (deq word pid ∷ ops) s [] (v ∷ vs) h a = absurd (ground (arith, h.vals))
  run-Refines (deq word pid ∷ ops) s (x ∷ xs) [] h a = absurd (ground (arith, h.vals))
  run-Refines (deq word pid ∷ ops) s (x ∷ xs) (v ∷ vs) h a =
      let q = record s.queue {
        heap = set_word s.queue.heap s.queue.first word;
        first = x;
        recycled = s.queue.first ∷ s.queue.recycled;
      } in
      let apart : (s.queue.first == x) ≡ false = ground (arith, h.is_queue.distinct.0) in
      let left : (b : ℕ) → has b xs ≡ true → (s.queue.first == b) ≡ false =
        λ b m. ne_of_has s.queue.first b xs (ground (arith, h.is_queue.distinct.0)) m in
      let e : s.queue.heap.val x ≡ v = ground (arith, h.vals) in
      let es : map s.queue.heap.val xs ≡ vs = ground (arith, h.vals) in
      let (t, ran, ready, eq) = dequeues c s (pos pid) pid (suc fuel) word v q h.ready (
        rw (sym e) (
          dequeue_in_front fuel word s.queue x h.is_queue.chain.0
            (h.plain x (ground (arith, ==_refl x))) apart)) in
      let (u, rest, ys, last) =
        run-Refines ops t xs vs
          (record {
            ready = ready;
            is_queue = rw eq (record {
              chain = h.is_queue.chain.1;
              distinct = h.is_queue.distinct.1;
              tail = h.is_queue.tail;
            });
            vals = rw eq (
                map-frame s.queue.heap.val (update s.queue.heap.val s.queue.first word) xs
                  (λ b m. ground (arith, left b m))
                ∙ es);
            plain = rw eq (λ b i. rw (left b i) (h.plain b (ground (arith, i))));
          })
          (rw eq a) in
      (u, rw (ran, rest, run) refl, ys, last)
