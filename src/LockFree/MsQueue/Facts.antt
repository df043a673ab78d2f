-- ===== src/LockFree/MsQueue/Facts.antt =====
-- The chain of an MS-Queue, and what each thread knows of the nodes that it holds.
use sim_universal_constructi.Prelude.{
  ℕ, ◌==◌, ◌≡◌, ◌≢◌, refl, ◌∙◌, Bool, true, false, Option, none, some, List, ◌∷◌, arith, update,
  ==_refl, Bool-cases, inl, inr, subst,
}
use sim_universal_constructi.Queues.Nodes.{Linked, has, Distinct}
use sim_universal_constructi.LockFree.MsQueue.{
  MsQueue, Pc, idle, enters, reads_tail, reads_next, links, helps, swings, removes, reads_first,
  reads_last, reads_second, aids, reads_val, takes, returns, faults, System,
}

-- The node of an enqueue that is not in the queue yet
abbrev pub owns : Pc → ℕ → Bool
owns (enters p) a = p == a
owns (reads_tail p last) a = p == a
owns (reads_next p last next) a = p == a
owns (links p last) a = p == a
owns (helps p last next) a = p == a
owns _ a = false

-- The shared state, with the queue's nodes behind the head
pub record View : Type 0 where
  pub queue : MsQueue
  pub used : ℕ → Bool
  pub linked : ℕ → Bool
  pub nodes : List ℕ

abbrev pub view : System → List ℕ → View
view s xs = record { queue = s.queue; used = s.used; linked = s.linked; nodes = xs }

-- A node that a thread brings along
abbrev pub Own : View → ℕ → Type 0
Own w p = (w.used p ≡ true) × (w.linked p ≡ false) × (w.queue.heap.next p ≡ none)

-- The link from a leads to x.
abbrev pub Leads : View → ℕ → ℕ → Type 0
Leads w a x = (w.linked a ≡ true) × (w.queue.heap.next a ≡ some x)

-- What `next` was read to be still holds, unless it was NULL.
abbrev pub Read : View → ℕ → Option ℕ → Type 0
Read w a none = w.linked a ≡ true
Read w a (some x) = Leads w a x

-- The head is at a or behind it.
abbrev pub Left : View → ℕ → Type 0
Left w a = (w.linked a ≡ true) × (has a w.nodes ≡ false)

-- The tail is behind a.
abbrev pub Ahead : View → ℕ → Type 0
Ahead w a = (w.queue.tail == a) ≡ false

-- What a thread can rely on
abbrev pub Ok : View → Pc → Type 0
Ok w (enters p) = Own w p
Ok w (reads_tail p last) = Own w p × (w.linked last ≡ true)
Ok w (reads_next p last next) = Own w p × Read w last next
Ok w (links p last) = Own w p × (w.linked last ≡ true)
Ok w (helps p last next) = Own w p × Leads w last next
Ok w (swings last p) = Leads w last p
Ok w (reads_first first) = Left w first
Ok w (reads_last first last) = Left w first × ((first == last) ≡ false → Ahead w first)
Ok w (reads_second first last next) =
    Left w first × ((first == last) ≡ false → Ahead w first × (next ≢ none)) × Read w first next
Ok w (aids last next) = Leads w last next
Ok w (reads_val first next) = Left w first × Ahead w first × Leads w first next
Ok w (takes first next v) =
    Left w first
    × Ahead w first
    × Leads w first next
    × (w.queue.heap.val next ≡ v)
    × (w.linked next ≡ true)
Ok w faults = true ≡ false
Ok w _ = Unit

-- The nodes behind the head are the chain's, the tail is one of the chain, and the nodes that the queue
-- has held lead to one another and into the chain.
pub record Shape (w : View) : Type 0 where
  pub chain : Linked w.queue.heap.next w.queue.head w.nodes
  pub distinct : Distinct (w.queue.head ∷ w.nodes)
  pub members : (a : ℕ) → has a (w.queue.head ∷ w.nodes) ≡ true → w.linked a ≡ true
  pub live :
      (a : ℕ)
      → w.linked a ≡ true
      → w.queue.heap.next a ≡ none
      → has a (w.queue.head ∷ w.nodes) ≡ true
  pub closed : (a x : ℕ) → Leads w a x → w.linked x ≡ true
  pub allocated : (a : ℕ) → w.linked a ≡ true → w.used a ≡ true
  pub tail_in : has w.queue.tail (w.queue.head ∷ w.nodes) ≡ true

pub record Inv (s : System) (xs : List ℕ) : Type 0 where
  pub shape : Shape (view s xs)
  pub knows : (i : ℕ) → Ok (view s xs) (s.pc i)
  pub apart : (i j a : ℕ) → (i == j) ≡ false → owns (s.pc i) a ≡ true → owns (s.pc j) a ≡ false

-- What the threads rely on survives the change from w to w', for a thread that owns the nodes `mine`.
pub record Kept (w : View) (w' : View) (mine : ℕ → Bool) : Type 0 where
  pub linked : (a : ℕ) → w.linked a ≡ true → w'.linked a ≡ true
  pub leads : (a x : ℕ) → Leads w a x → w'.queue.heap.next a ≡ some x
  pub own : (a : ℕ) → mine a ≡ true → Own w a → Own w' a
  pub left : (a : ℕ) → Left w a → has a w'.nodes ≡ false
  pub ahead : (a : ℕ) → Left w a → Ahead w a → Ahead w' a
  pub val : (a : ℕ) → w.linked a ≡ true → w'.queue.heap.val a ≡ w.queue.heap.val a

module _ (w w' : View) (p : Pc) (k : Kept w w' (owns p)) where
  Leads-Kept : (a x : ℕ) → Leads w a x → Leads w' a x
  Leads-Kept a x l = (k.linked a l.0, k.leads a x l)

  Read-Kept : (a : ℕ) (next : Option ℕ) → Read w a next → Read w' a next
  Read-Kept a none r = k.linked a r
  Read-Kept a (some x) r = Leads-Kept a x r

  Left-Kept : (a : ℕ) → Left w a → Left w' a
  Left-Kept a l = (k.linked a l.0, k.left a l)

pub Ok-Kept : (w w' : View) (p : Pc) → Kept w w' (owns p) → Ok w p → Ok w' p
Ok-Kept w w' idle k ok = tt
Ok-Kept w w' (enters p) k ok = k.own p (==_refl p) ok
Ok-Kept w w' (reads_tail p last) k ok = (k.own p (==_refl p) ok.0, k.linked last ok.1)
Ok-Kept w w' (reads_next p last next) k ok =
    (k.own p (==_refl p) ok.0, Read-Kept w w' (reads_next p last next) k last next ok.1)
Ok-Kept w w' (links p last) k ok = (k.own p (==_refl p) ok.0, k.linked last ok.1)
Ok-Kept w w' (helps p last next) k ok =
    (k.own p (==_refl p) ok.0, Leads-Kept w w' (helps p last next) k last next ok.1)
Ok-Kept w w' (swings last p) k ok = Leads-Kept w w' (swings last p) k last p ok
Ok-Kept w w' removes k ok = tt
Ok-Kept w w' (reads_first first) k ok = Left-Kept w w' (reads_first first) k first ok
Ok-Kept w w' (reads_last first last) k ok =
    (Left-Kept w w' (reads_last first last) k first ok.0, λ ne. k.ahead first ok.0 (ok.1 ne))
Ok-Kept w w' (reads_second first last next) k ok = (
  Left-Kept w w' (reads_second first last next) k first ok.0,
  λ ne. (k.ahead first ok.0 (ok.1 ne).0, (ok.1 ne).1),
  Read-Kept w w' (reads_second first last next) k first next ok.2,
)
Ok-Kept w w' (aids last next) k ok = Leads-Kept w w' (aids last next) k last next ok
Ok-Kept w w' (reads_val first next) k ok = (
  Left-Kept w w' (reads_val first next) k first ok.0,
  k.ahead first ok.0 ok.1,
  Leads-Kept w w' (reads_val first next) k first next ok.2,
)
Ok-Kept w w' (takes first next v) k ok = (
  Left-Kept w w' (takes first next v) k first ok.0,
  k.ahead first ok.0 ok.1,
  Leads-Kept w w' (takes first next v) k first next ok.2,
  k.val next ok.4 ∙ ok.3,
  k.linked next ok.4,
)
Ok-Kept w w' (returns r) k ok = tt
Ok-Kept w w' faults k ok = ok

pub same_node : (p a : ℕ) → (p == a) ≡ true → p ≡ a
same_node p a e = ground arith

-- What a thread owns is its own.
pub owns-Own : (w : View) (p : Pc) (a : ℕ) → Ok w p → owns p a ≡ true → Own w a
owns-Own w idle a ok o = absurd (ground (arith, o))
owns-Own w (enters p) a ok o = subst (Own w) (same_node p a o) ok
owns-Own w (reads_tail p last) a ok o = subst (Own w) (same_node p a o) (ok.0)
owns-Own w (reads_next p last next) a ok o = subst (Own w) (same_node p a o) (ok.0)
owns-Own w (links p last) a ok o = subst (Own w) (same_node p a o) (ok.0)
owns-Own w (helps p last next) a ok o = subst (Own w) (same_node p a o) (ok.0)
owns-Own w (swings last p) a ok o = absurd (ground (arith, o))
owns-Own w removes a ok o = absurd (ground (arith, o))
owns-Own w (reads_first first) a ok o = absurd (ground (arith, o))
owns-Own w (reads_last first last) a ok o = absurd (ground (arith, o))
owns-Own w (reads_second first last next) a ok o = absurd (ground (arith, o))
owns-Own w (aids last next) a ok o = absurd (ground (arith, o))
owns-Own w (reads_val first next) a ok o = absurd (ground (arith, o))
owns-Own w (takes first next v) a ok o = absurd (ground (arith, o))
owns-Own w (returns r) a ok o = absurd (ground (arith, o))
owns-Own w faults a ok o = absurd (ground (arith, o))

-- One thread moves on, and the others keep what they rely on.
pub moved-Inv :
    (s t : System) (xs ys : List ℕ) (i : ℕ) (p : Pc)
    → Inv s xs
    → t.pc ≡ update s.pc i p
    → Shape (view t ys)
    → Ok (view t ys) p
    → ((j : ℕ) → (i == j) ≡ false → Kept (view s xs) (view t ys) (owns (s.pc j)))
    → ((j a : ℕ) → (i == j) ≡ false → owns p a ≡ true → owns (s.pc j) a ≡ false)
    → Inv t ys
moved-Inv s t xs ys i p h at shape mine others apart =
    let stands : (j : ℕ) → (i == j) ≡ true → t.pc j ≡ p = λ j e. rw (at, e) refl in
    let waits : (j : ℕ) → (i == j) ≡ false → t.pc j ≡ s.pc j = λ j e. rw (at, e) refl in
    record {
      shape = shape;
      knows = λ j. elim (Bool-cases (i == j)) [
        | inl e ↦ rw (stands j e) mine
        | inr e ↦ rw (waits j e) (Ok-Kept (view s xs) (view t ys) (s.pc j) (others j e) (h.knows j))
      ];
      apart = λ j k a ne. elim (Bool-cases (i == j)) [
        | inl e ↦
            let ek : (i == k) ≡ false = ground (arith, e, ne) in
            rw (stands j e, waits k ek) (apart k a ek)
        | inr e ↦ elim (Bool-cases (i == k)) [
          | inl ek ↦
              rw (waits j e, stands k ek)
                (λ o. elim (Bool-cases (owns p a)) [
                  | inl mine ↦ absurd (ground (arith, o, apart j a e mine))
                  | inr not_mine ↦ not_mine
                ])
          | inr ek ↦ rw (waits j e, waits k ek) (h.apart j k a ne)
        ]
      ];
    }
