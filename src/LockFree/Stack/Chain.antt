-- ===== src/LockFree/Stack/Chain.antt =====
-- The chain of an LF-Stack, and what each thread knows of the nodes that it holds.
use sim_universal_constructi.Prelude.{
  ℕ, ◌==◌, ◌≡◌, ◌∙◌, Bool, true, false, List, arith, update, ==_refl, Bool-cases, inl, inr, subst,
}
use sim_universal_constructi.Queues.Nodes.{has, Distinct}
use sim_universal_constructi.Queues.Lifo.{From}
use sim_universal_constructi.LockFree.Stack.{
  LfStack, Pc, idle, pushes, links, pops, reads, swings, takes, returns, System,
}

-- The node of a push that is not on the stack yet
abbrev pub owns : Pc → ℕ → Bool
owns (pushes n) a = n == a
owns (links n old) a = n == a
owns _ a = false

-- The node that a thread holds in a variable
abbrev pub touches : Pc → ℕ → Bool
touches (pushes n) a = n == a
touches (links n old) a = n == a
touches (reads x) a = x == a
touches (swings x nx) a = x == a
touches (takes x v) a = x == a
touches _ a = false

-- What a thread can rely on, when the stack's nodes are xs.
abbrev pub Ok : LfStack → (ℕ → Bool) → List ℕ → Pc → Type 0
Ok st used xs (pushes n) = (used n ≡ true) × (has n xs ≡ false)
Ok st used xs (links n old) = (used n ≡ true) × (has n xs ≡ false) × (st.heap.next n ≡ old)
Ok st used xs (reads x) = used x ≡ true
Ok st used xs (swings x nx) = (used x ≡ true) × (st.heap.next x ≡ nx)
Ok st used xs (takes x v) = (used x ≡ true) × (st.heap.val x ≡ v)
Ok st used xs _ = Unit

-- No node of the first thread's push is known to the second one.
abbrev pub Clear : Pc → Pc → Type 0
Clear p q = (a : ℕ) → owns p a ≡ true → touches q a ≡ false

pub record Inv (s : System) (xs : List ℕ) : Type 0 where
  pub chain : From s.stack.heap.next s.stack.top xs
  pub distinct : Distinct xs
  pub allocated : (a : ℕ) → has a xs ≡ true → s.used a ≡ true
  pub knows : (i : ℕ) → Ok s.stack s.used xs (s.pc i)
  pub clear : (i j : ℕ) → (i == j) ≡ false → Clear (s.pc i) (s.pc j)

pub touches-used :
    (st : LfStack) (used : ℕ → Bool) (xs : List ℕ) (p : Pc) (a : ℕ)
    → Ok st used xs p
    → touches p a ≡ true
    → used a ≡ true
touches-used st used xs idle a ok t = absurd (ground (arith, t))
touches-used st used xs (pushes n) a ok t = ground (arith, t, ok.0)
touches-used st used xs (links n old) a ok t = ground (arith, t, ok.0)
touches-used st used xs pops a ok t = absurd (ground (arith, t))
touches-used st used xs (reads x) a ok t = ground (arith, t, ok)
touches-used st used xs (swings x nx) a ok t = ground (arith, t, ok.0)
touches-used st used xs (takes x v) a ok t = ground (arith, t, ok.0)
touches-used st used xs (returns r) a ok t = absurd (ground (arith, t))

pub owns-out :
    (st : LfStack) (used : ℕ → Bool) (xs : List ℕ) (p : Pc) (a : ℕ)
    → Ok st used xs p
    → owns p a ≡ true
    → (has a xs ≡ false) × (touches p a ≡ true)
owns-out st used xs idle a ok t = absurd (ground (arith, t))
owns-out st used xs (pushes n) a ok t =
    (let e : n ≡ a = ground arith in subst (λ b. has b xs ≡ false) e (ok.1), t)
owns-out st used xs (links n old) a ok t =
    (let e : n ≡ a = ground arith in subst (λ b. has b xs ≡ false) e (ok.1), t)
owns-out st used xs pops a ok t = absurd (ground (arith, t))
owns-out st used xs (reads x) a ok t = absurd (ground (arith, t))
owns-out st used xs (swings x nx) a ok t = absurd (ground (arith, t))
owns-out st used xs (takes x v) a ok t = absurd (ground (arith, t))
owns-out st used xs (returns r) a ok t = absurd (ground (arith, t))

-- A change outside the nodes that a thread holds
pub Ok-frame :
    (st st' : LfStack) (used used' : ℕ → Bool) (xs xs' : List ℕ) (p : Pc)
    → ((a : ℕ)
        → touches p a ≡ true
        → used a ≡ true
        → (used' a ≡ true) × (st'.heap.next a ≡ st.heap.next a) × (st'.heap.val a ≡ st.heap.val a))
    → ((a : ℕ) → owns p a ≡ true → has a xs ≡ false → has a xs' ≡ false)
    → Ok st used xs p
    → Ok st' used' xs' p
Ok-frame st st' used used' xs xs' idle f g ok = tt
Ok-frame st st' used used' xs xs' (pushes n) f g ok =
    ((f n (==_refl n) ok.0).0, g n (==_refl n) ok.1)
Ok-frame st st' used used' xs xs' (links n old) f g ok =
    let same = f n (==_refl n) ok.0 in (same.0, g n (==_refl n) ok.1, same.1 ∙ ok.2)
Ok-frame st st' used used' xs xs' pops f g ok = tt
Ok-frame st st' used used' xs xs' (reads x) f g ok = (f x (==_refl x) ok).0
Ok-frame st st' used used' xs xs' (swings x nx) f g ok =
    let same = f x (==_refl x) ok.0 in (same.0, same.1 ∙ ok.1)
Ok-frame st st' used used' xs xs' (takes x v) f g ok =
    let same = f x (==_refl x) ok.0 in (same.0, same.2 ∙ ok.1)
Ok-frame st st' used used' xs xs' (returns r) f g ok = tt

module _ (s : System) (xs : List ℕ) (h : Inv s xs) (st : LfStack) (used : ℕ → Bool) (i : ℕ) (p : Pc)
    (ys : List ℕ) where
  -- One thread moves on, and the others keep what they rely on.
  pub moved-Inv :
      From st.heap.next st.top ys
      → Distinct ys
      → ((a : ℕ) → has a ys ≡ true → used a ≡ true)
      → Ok st used ys p
      → ((j : ℕ) → (i == j) ≡ false → Ok st used ys (s.pc j))
      → ((j : ℕ) → (i == j) ≡ false → Clear p (s.pc j) × Clear (s.pc j) p)
      → Inv (record { stack = st; used = used; pc = update s.pc i p }) ys
  moved-Inv chain distinct allocated mine others apart = record {
    chain = chain;
    distinct = distinct;
    allocated = allocated;
    knows = λ j. elim (Bool-cases (i == j)) [ inl e ↦ rw e mine | inr e ↦ rw e (others j e) ];
    clear = λ j k ne. elim (Bool-cases (i == j)) [
      | inl e ↦ let ek : (i == k) ≡ false = ground (arith, e, ne) in rw (e, ek) ((apart k ek).0)
      | inr e ↦ elim (Bool-cases (i == k)) [
        | inl ek ↦ rw (e, ek) ((apart j e).1)
        | inr ek ↦ rw (e, ek) (h.clear j k ne)
      ]
    ];
  }
