-- ===== src/Queues/Fifo.antt =====
-- The serial queue code is a first-in first-out queue of values other than the guard value.
use sim_universal_constructi.Prelude.{
  ℕ, zero, suc, ◌<◌, ◌==◌, ◌≡◌, ◌≢◌, refl, sym, true, false, some, List, [], ◌∷◌, ◌++◌, length,
  arith, if◌then◌else◌, update, ℤ, eq_ℤ, eq_ℤ_iff, Bool-cases, inl, inr, ◌⊎◌, ==_refl,
}
use sim_universal_constructi.Queues.Nodes.{
  Heap, Linked, has, Distinct, end_of, Linked-append, Distinct-append, ne_of_has, set_word,
  guard_value, empty_queue, success,
}
use sim_universal_constructi.Queues.Serial.{Queue, init_queue, enqueue, dequeue}

-- The queue's nodes behind `first` are xs.
pub record IsQueue (q : Queue) (xs : List ℕ) : Type 0 where
  pub chain : Linked q.heap.next q.first xs
  pub distinct : Distinct (q.first ∷ xs)
  pub tail : q.last ≡ end_of q.first xs

-- The values of the nodes, less the guard value.
abbrev pub contents : (ℕ → ℤ) → List ℕ → List ℤ
contents val [] = []
contents val (x ∷ xs) =
    if eq_ℤ (val x) guard_value then contents val xs else val x ∷ contents val xs

pub init_queue-IsQueue : (h : Heap) (guard : ℕ) → IsQueue (init_queue h guard) []
unfolding init_queue
init_queue-IsQueue h guard = record {
  chain = ground (arith, ==_refl guard);
  distinct = (refl, tt);
  tail = refl;
}

contents-append :
    (val val' : ℕ → ℤ) (node : ℕ) (v : ℤ) (xs : List ℕ)
    → v ≢ guard_value
    → val' node ≡ v
    → ((a : ℕ) → has a xs ≡ true → val' a ≡ val a)
    → contents val' (xs ++ node ∷ []) ≡ contents val xs ++ v ∷ []
contents-append val val' node v [] ne e same = ground (arith, eq_ℤ_iff v guard_value)
contents-append val val' node v (x ∷ xs) ne e same = ground (
  arith,
  same x (ground (arith, ==_refl x)),
  contents-append val val' node v xs ne e (λ a h. same a (ground arith)),
)

pub append_tail : (p node : ℕ) (xs : List ℕ) → end_of p (xs ++ node ∷ []) ≡ node
append_tail p node [] = refl
append_tail p node (x ∷ xs) = append_tail x node xs

-- An enqueue of a value other than the guard value, at a node that is not in the queue, puts the
-- value behind the contents.
pub enqueue_lem :
    (node : ℕ) (q : Queue) (v : ℤ) (xs : List ℕ)
    → IsQueue q xs
    → has node (q.first ∷ xs) ≡ false
    → v ≢ guard_value
    → ((enqueue node q v).0 ≡ success)
      × IsQueue (enqueue node q v).1 (xs ++ node ∷ [])
      × (contents (enqueue node q v).1.heap.val (xs ++ node ∷ [])
          ≡ contents q.heap.val xs ++ v ∷ [])
unfolding enqueue
enqueue_lem node q v xs i fresh ne = (
  refl,
  record {
    chain = rw (i.tail) (Linked-append q.heap.next q.first node xs i.chain i.distinct fresh);
    distinct = Distinct-append q.first node xs i.distinct fresh;
    tail = sym (append_tail q.first node xs);
  },
  contents-append q.heap.val (update q.heap.val node v) node v xs ne (ground (arith, ==_refl node))
      (λ a h. ground (arith, ne_of_has node a xs (ground arith) h)),
)

contents-frame :
    (val val' : ℕ → ℤ) (xs : List ℕ)
    → ((a : ℕ) → has a xs ≡ true → val' a ≡ val a)
    → contents val' xs ≡ contents val xs
contents-frame val val' [] same = refl
contents-frame val val' (x ∷ xs) same = ground (
  arith,
  same x (ground (arith, ==_refl x)),
  contents-frame val val' xs (λ a h. same a (ground arith)),
)

-- What a dequeue returns, for the contents before it.
abbrev pub Dequeued : Queue → List ℕ → ℤ × Queue → Type 0
Dequeued q xs (r, t) =
    (ys : List ℕ) × IsQueue t ys
    × (t.heap.next ≡ q.heap.next)
    × ((contents q.heap.val xs ≡ r ∷ contents t.heap.val ys)
        ⊎ (r ≡ empty_queue) × (contents q.heap.val xs ≡ []) × (ys ≡ []))

-- A dequeue returns, with fuel for one more round than there are nodes. The links do not
-- change. If the contents are not empty it takes the first value off them; otherwise it returns
-- EMPTY_QUEUE and leaves an empty queue.
pub dequeue_lem :
    (fuel : ℕ) (word : ℤ) (q : Queue) (xs : List ℕ)
    → IsQueue q xs
    → length xs < fuel
    → (out : ℤ × Queue) × (dequeue fuel word q ≡ some out) × Dequeued q xs out
unfolding dequeue
dequeue_lem zero word q xs i h = absurd (omega arith)
dequeue_lem (suc fuel) word q [] i h =
    ((empty_queue, q), ground arith, ([], i, refl, inr (refl, refl, refl)))
dequeue_lem (suc fuel) word q (x ∷ xs) i h = elim (Bool-cases (eq_ℤ (q.heap.val x) guard_value)) [
  | inl e ↦
      let (out, run, d) =
        dequeue_lem fuel word (record q { first = x }) xs
          (record { chain = i.chain.1; distinct = i.distinct.1; tail = i.tail }) (omega arith) in
      (out, ground (arith, run), rw e d)
  | inr e ↦
      let h = set_word q.heap q.first word in
      let apart : (q.first == x) ≡ false = ground (arith, i.distinct.0) in
      let kept =
        contents-frame q.heap.val h.val xs
          (λ a m. ground (arith, ne_of_has q.first a xs (ground (arith, i.distinct.0)) m)) in
      (
        (h.val x, record q { heap = h; first = x; recycled = q.first ∷ q.recycled }),
        ground (arith, e, i.chain.0),
        (
          xs,
          record { chain = i.chain.1; distinct = i.distinct.1; tail = i.tail },
          refl,
          inl (ground (arith, e, apart, kept)),
        ),
      )
]
