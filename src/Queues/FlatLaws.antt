-- ===== src/Queues/FlatLaws.antt =====
-- What the queue and the stack under flat combining do.
use sim_universal_constructi.Prelude.{
  ℕ, ◌≡◌, ◌≢◌, refl, sym, false, some, List, [], ◌∷◌, ◌++◌, update, ℤ, pos, eq_ℤ, eq_ℤ_iff, arith,
}
use sim_universal_constructi.Queues.Nodes.{
  success, pop_op, fail, has, Linked-append, Distinct-append,
}
use sim_universal_constructi.Queues.Combiner.{Combiner}
use sim_universal_constructi.Queues.Serial.{Queue}
use sim_universal_constructi.Queues.Struct.{QueueStruct, Ready}
use sim_universal_constructi.Queues.Fifo.{IsQueue, append_tail}
use sim_universal_constructi.Queues.SerialStack.{Stack, StackStruct, push}
use sim_universal_constructi.Queues.Lifo.{IsStack, Pushed, push_lem}
use sim_universal_constructi.Queues.Flat.{
  fc_serial_enqueue, fc_serial_dequeue, fc_serial_push_pop, fc_apply_enqueue, fc_apply_dequeue,
  fc_push, fc_pop,
}

serial_enqueue_lem :
    (node : ℕ) (q : Queue) (v : ℤ) (pid : ℕ) (xs : List ℕ)
    → IsQueue q xs
    → has node (q.first ∷ xs) ≡ false
    → (t : Queue) × (fc_serial_enqueue node q v pid ≡ some (fail, t))
      × IsQueue t (xs ++ node ∷ [])
      × (t.heap.val ≡ update q.heap.val node v)
      × (t.first ≡ q.first)
unfolding fc_serial_enqueue
serial_enqueue_lem node q v pid xs i fresh = (
  _,
  refl,
  record {
    chain = rw (i.tail) (Linked-append q.heap.next q.first node xs i.chain i.distinct fresh);
    distinct = Distinct-append q.first node xs i.distinct fresh;
    tail = sym (append_tail q.first node xs);
  },
  refl,
  refl,
)

abbrev pub Advanced : Queue → List ℕ → ℤ → Queue → Type 0
Advanced q [] r t = (r ≡ fail) × (t ≡ q)
Advanced q (x ∷ xs) r t =
    (r ≡ q.heap.val q.first) × (t.first ≡ x) × IsQueue t xs × (t.heap ≡ q.heap)

serial_dequeue_lem :
    (q : Queue) (v : ℤ) (pid : ℕ) (xs : List ℕ)
    → IsQueue q xs
    → (r : ℤ) × (t : Queue) × (fc_serial_dequeue q v pid ≡ some (r, t)) × Advanced q xs r t
unfolding fc_serial_dequeue
serial_dequeue_lem q v pid [] i = (fail, q, rw (i.chain, fc_serial_dequeue) refl, (refl, refl))
serial_dequeue_lem q v pid (x ∷ xs) i = (
  q.heap.val q.first,
  record q { first = x },
  rw (i.chain.0, fc_serial_dequeue) refl,
  (refl, refl, record { chain = i.chain.1; distinct = i.distinct.1; tail = i.tail }, refl),
)

module _ (c : Combiner) (s : QueueStruct c) (xs : List ℕ) (pid : ℕ) (ready : Ready c s)
    (i : IsQueue s.queue xs) where
  -- While no thread is at work on the queue, an enqueue of the FC-Queue returns and puts a node behind the others, but the value that it
  -- stores there is the pid of the thread, whatever value it was called with.
  pub fc_enqueues_pid :
      (node : ℕ) (arg : ℤ)
      → has node (s.queue.first ∷ xs) ≡ false
      → (t : QueueStruct c) × (fc_apply_enqueue c node s arg pid ≡ some t)
        × Ready c t
        × IsQueue t.queue (xs ++ node ∷ [])
        × (t.queue.heap.val ≡ update s.queue.heap.val node (pos pid))
        × (t.queue.first ≡ s.queue.first)
  unfolding fc_apply_enqueue
  fc_enqueues_pid node arg fresh =
      let (q, run, is, vals, first) = serial_enqueue_lem node s.queue (pos pid) pid xs i fresh in
      let (y, ran, again) =
        c.applies Queue (fc_serial_enqueue node) s.enqueue_struct s.queue q (pos pid) fail pid
          (ready.0) run in
      (
        record s { enqueue_struct = y; queue = q },
        rw (ran, fc_apply_enqueue) refl,
        (again, ready.1),
        is,
        vals,
        first,
      )

  -- While no thread is at work on the queue, a dequeue of the FC-Queue returns. On a queue without nodes behind the first one it returns -1 and
  -- changes nothing of the queue. Otherwise it moves `first` to the next node, but returns the value of
  -- the node that was the first: the one that the dequeue before it should have returned.
  pub fc_dequeues_late :
      (r : ℤ) × (t : QueueStruct c) × (fc_apply_dequeue c s pid ≡ some (r, t))
      × Ready c t
      × Advanced s.queue xs r t.queue
  unfolding fc_apply_dequeue
  fc_dequeues_late =
      let (r, q, run, rest) = serial_dequeue_lem s.queue (pos pid) pid xs i in
      let (y, ran, again) =
        c.applies Queue fc_serial_dequeue s.dequeue_struct s.queue q (pos pid) r pid (ready.1)
          run in
      (
        r,
        record s { dequeue_struct = y; queue = q },
        rw (ran, fc_apply_dequeue) refl,
        (ready.0, again),
        rest,
      )

-- The stack.
abbrev FcPopped : Stack → List ℕ → ℤ → Stack → Type 0
FcPopped st [] r t = (r ≡ fail) × (t ≡ st)
FcPopped st (x ∷ xs) r t = (r ≡ st.heap.val x) × IsStack t xs × (t.heap ≡ st.heap)

serial_push :
    (node : ℕ) (st : Stack) (v : ℤ) (pid : ℕ)
    → v ≢ pop_op
    → fc_serial_push_pop node st v pid ≡ some (success, (push node st v).1)
unfolding fc_serial_push_pop
serial_push node st v pid ne =
    let e : eq_ℤ v pop_op ≡ false = ground (arith, eq_ℤ_iff v pop_op) in
    rw (e, fc_serial_push_pop) refl

serial_pop :
    (st : Stack) (pid : ℕ) (xs : List ℕ)
    → IsStack st xs
    → (r : ℤ) × (t : Stack) × (fc_serial_push_pop 0 st pop_op pid ≡ some (r, t))
      × FcPopped st xs r t
unfolding fc_serial_push_pop
serial_pop st pid [] i = (fail, st, ground (arith, i.chain), (refl, refl))
serial_pop st pid (x ∷ xs) i = (
  st.heap.val x,
  record st { top = st.heap.next x },
  ground (arith, i.chain),
  (refl, record { chain = i.chain.1; distinct = i.distinct.1 }, refl),
)

module _ (c : Combiner) (s : StackStruct c) (xs : List ℕ) (pid : ℕ) where
  -- While no thread is at work on the stack, a push on the FC-Stack, of a value other than INT_MIN at a node that is not in the stack, returns
  -- and puts the value on top of the contents.
  pub fc_push_lifo :
      (node : ℕ) (v : ℤ)
      → c.Ready s.object_struct
      → IsStack s.stack xs
      → has node xs ≡ false
      → v ≢ pop_op
      → (t : StackStruct c) × (fc_push c node s v pid ≡ some t)
        × c.Ready t.object_struct
        × Pushed node v s.stack xs t.stack
  unfolding fc_push
  fc_push_lifo node v ready i fresh ne =
      let st = (push node s.stack v).1 in
      let (y, ran, again) =
        c.applies Stack (fc_serial_push_pop node) s.object_struct s.stack st v success pid ready
          (serial_push node s.stack v pid ne) in
      (
        record { object_struct = y; stack = st },
        rw (ran, fc_push) refl,
        again,
        push_lem node s.stack v xs i fresh,
      )

  -- While no thread is at work on the stack, a pop from the FC-Stack returns. It takes the top value off the contents; on an empty stack it
  -- returns -1 and changes nothing of the stack.
  pub fc_pop_lifo :
      c.Ready s.object_struct
      → IsStack s.stack xs
      → (r : ℤ) × (t : StackStruct c) × (fc_pop c s pid ≡ some (r, t))
        × c.Ready t.object_struct
        × FcPopped s.stack xs r t.stack
  unfolding fc_pop
  fc_pop_lifo ready i =
      let (r, st, run, p) = serial_pop s.stack pid xs i in
      let (y, ran, again) =
        c.applies Stack (fc_serial_push_pop 0) s.object_struct s.stack st pop_op r pid ready run in
      (r, record { object_struct = y; stack = st }, rw (ran, fc_pop) refl, again, p)
