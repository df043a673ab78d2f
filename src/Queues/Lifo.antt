-- ===== src/Queues/Lifo.antt =====
-- The serial stack code is a last-in first-out stack of values other than INT_MIN.
use sim_universal_constructi.Prelude.{
  ℕ, ◌≡◌, ◌≢◌, refl, sym, ap, ◌++◌, true, false, Option, none, some, List, [], ◌∷◌, map, arith,
  update, ℤ, pos, eq_ℤ, eq_ℤ_iff, ==_refl,
}
use sim_universal_constructi.Queues.Nodes.{
  Heap, has, Distinct, set_word, empty_stack, success, pop_op, ne_of_has,
}
use sim_universal_constructi.Queues.Combiner.{Combiner}
use sim_universal_constructi.Queues.SerialStack.{
  Stack, push, serial_push_pop, StackStruct, struct_init, apply_push, apply_pop,
}

-- From `top` the links lead through the nodes xs to NULL.
abbrev pub From : (ℕ → Option ℕ) → Option ℕ → List ℕ → Type 0
From next top [] = top ≡ none
From next top (x ∷ xs) = (top ≡ some x) × From next (next x) xs

pub From-frame :
    (next next' : ℕ → Option ℕ) (top : Option ℕ) (xs : List ℕ)
    → ((a : ℕ) → has a xs ≡ true → next' a ≡ next a)
    → From next top xs
    → From next' top xs
From-frame next next' top [] same f = f
From-frame next next' top (x ∷ xs) same f = (
  f.0,
  rw (same x (ground (arith, ==_refl x)))
      (From-frame next next' (next x) xs (λ a h. same a (ground arith)) f.1),
)

pub record IsStack (st : Stack) (xs : List ℕ) : Type 0 where
  pub chain : From st.heap.next st.top xs
  pub distinct : Distinct xs

pub map-frame :
    (val val' : ℕ → ℤ) (xs : List ℕ)
    → ((a : ℕ) → has a xs ≡ true → val' a ≡ val a)
    → map val' xs ≡ map val xs
map-frame val val' [] same = refl
map-frame val val' (x ∷ xs) same = ground (
  arith,
  same x (ground (arith, ==_refl x)),
  map-frame val val' xs (λ a h. same a (ground arith)),
)

pub map-snoc :
    (val : ℕ → ℤ) (xs : List ℕ) (x : ℕ) → map val (xs ++ x ∷ []) ≡ map val xs ++ val x ∷ []
map-snoc val [] x = refl
map-snoc val (y ∷ xs) x = ap (val y ∷◌) (map-snoc val xs x)

abbrev pub Pushed : ℕ → ℤ → Stack → List ℕ → Stack → Type 0
Pushed node v st xs t =
    IsStack t (node ∷ xs) × (map t.heap.val (node ∷ xs) ≡ v ∷ map st.heap.val xs)

abbrev pub Popped : Stack → List ℕ → ℤ → Stack → Type 0
Popped st [] r t = (r ≡ empty_stack) × (t ≡ st)
Popped st (x ∷ xs) r t = (map st.heap.val (x ∷ xs) ≡ r ∷ map t.heap.val xs) × IsStack t xs

pub push_lem :
    (node : ℕ) (st : Stack) (v : ℤ) (xs : List ℕ)
    → IsStack st xs
    → has node xs ≡ false
    → Pushed node v st xs (push node st v).1
push_lem node st v xs i fresh = (
  record {
    chain = (
      refl,
      rw (==_refl node) (
          From-frame st.heap.next (update st.heap.next node st.top) st.top xs
            (λ a h. ground (arith, ne_of_has node a xs fresh h)) i.chain),
    );
    distinct = (fresh, i.distinct);
  },
  ground (
    arith,
    ==_refl node,
    map-frame st.heap.val (update st.heap.val node v) xs
        (λ a h. ground (arith, ne_of_has node a xs fresh h)),
  ),
)

serial_push :
    (node : ℕ) (word : ℤ) (st : Stack) (v : ℤ) (pid : ℕ)
    → v ≢ pop_op
    → serial_push_pop node word st v pid ≡ some (success, (push node st v).1)
unfolding serial_push_pop
serial_push node word st v pid ne =
    let e : eq_ℤ v pop_op ≡ false = ground (arith, eq_ℤ_iff v pop_op) in
    rw (e, serial_push_pop) refl

serial_pop :
    (node : ℕ) (word : ℤ) (st : Stack) (pid : ℕ) (xs : List ℕ)
    → IsStack st xs
    → (r : ℤ) × (t : Stack) × (serial_push_pop node word st pop_op pid ≡ some (r, t))
      × Popped st xs r t
unfolding serial_push_pop
serial_pop node word st pid [] i = (empty_stack, st, ground (arith, i.chain), (refl, refl))
serial_pop node word st pid (x ∷ xs) i = (
  st.heap.val x,
  record st { heap = set_word st.heap x word; top = st.heap.next x; recycled = x ∷ st.recycled },
  ground (arith, i.chain),
  (
    ap (st.heap.val x ∷◌) (
        sym (
          map-frame st.heap.val (update st.heap.val x word) xs
            (λ a m. ground (arith, ne_of_has x a xs i.distinct.0 m)))),
    record { chain = i.chain.1; distinct = i.distinct.1 },
  ),
)

pub struct_init-IsStack :
    (c : Combiner) (nthreads : ℕ) (h : Heap) → IsStack (struct_init c nthreads h).stack []
unfolding struct_init
struct_init-IsStack c nthreads h = record { chain = refl; distinct = tt }

module _ (c : Combiner) (s : StackStruct c) (pid : ℕ) (xs : List ℕ)
    (ready : c.Ready s.object_struct) (i : IsStack s.stack xs) where
  pub apply_push_lem :
      (node : ℕ) (v : ℤ)
      → has node xs ≡ false
      → v ≢ pop_op
      → (t : StackStruct c) × (apply_push c node s v pid ≡ some t)
        × c.Ready t.object_struct
        × Pushed node v s.stack xs t.stack
  unfolding apply_push
  apply_push_lem node v fresh ne =
      let st = (push node s.stack v).1 in
      let (y, ran, again) =
        c.applies Stack (serial_push_pop node (pos 0)) s.object_struct s.stack st v success pid
          ready (serial_push node (pos 0) s.stack v pid ne) in
      (
        record { object_struct = y; stack = st },
        rw (ran, apply_push) refl,
        again,
        push_lem node s.stack v xs i fresh,
      )

  pub apply_pop_lem :
      (word : ℤ)
      → (r : ℤ) × (t : StackStruct c) × (apply_pop c word s pid ≡ some (r, t))
        × c.Ready t.object_struct
        × Popped s.stack xs r t.stack
  unfolding apply_pop
  apply_pop_lem word =
      let (r, st, run, p) = serial_pop 0 word s.stack pid xs i in
      let (y, ran, again) =
        c.applies Stack (serial_push_pop 0 word) s.object_struct s.stack st pop_op r pid ready
          run in
      (r, record { object_struct = y; stack = st }, rw (ran, apply_pop) refl, again, p)
