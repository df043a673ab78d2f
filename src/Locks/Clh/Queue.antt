-- ===== src/Locks/Clh/Queue.antt =====
-- The queue that the nodes of a CLH lock form, and that every step keeps.
use sim_universal_constructi.Prelude.{
  ℕ, ◌==◌, ◌≡◌, refl, sym, ◌∙◌, ap, Bool, true, false, Option, none, some, List, [], ◌∷◌, ◌++◌,
  arith, subst, Bool-cases, inl, inr, ==_refl,
}
use sim_universal_constructi.Queues.Nodes.{has, Distinct, Distinct-snoc, has-snoc, ne_of_has}
use sim_universal_constructi.Locks.Clh.{
  ClhLock, Pc, idle, marked, waiting, critical, leaving, System, goes, mark, swap, release,
  keep_pred, lock_init, init, Step, marks, swaps, spins, enters, releases, keeps, Reach, here,
  later,
}

-- Has the thread swapped and not yet released?
abbrev pub queued : Pc → Bool
queued waiting = true
queued critical = true
queued _ = false

-- Has the thread locked its node and not yet released?
abbrev pub locks : Pc → Bool
locks marked = true
locks waiting = true
locks critical = true
locks _ = false

-- The node that the thread brings along; in `leaving` it has given its own away already.
abbrev pub own : Pc → ℕ → ℕ → ℕ
own leaving node pred = pred
own _ node pred = node

abbrev pub own_of : System → ℕ → ℕ
own_of s i = own (s.pc i) (s.lock.my_node i) (s.lock.my_pred i)

abbrev pub first : List ℕ → Option ℕ
first [] = none
first (i ∷ q) = some i

-- Each thread of the queue has the node of the one before it as its predecessor, and the last one's node is
-- the tail.
abbrev pub Chain : ClhLock → ℕ → List ℕ → Type 0
Chain l free [] = l.tail ≡ free
Chain l free (i ∷ q) = (l.my_pred i ≡ free) × Chain l (l.my_node i) q

-- The threads q queue, in this order, and `free` is the node of the last one that released.
pub record Inv (s : System) (q : List ℕ) (free : ℕ) : Type 0 where
  pub distinct : Distinct q
  pub chain : Chain s.lock free q
  pub members : (i : ℕ) → has i q ≡ queued (s.pc i)
  pub unlocked : s.lock.locked free ≡ false
  pub held : (i : ℕ) → locks (s.pc i) ≡ true → s.lock.locked (s.lock.my_node i) ≡ true
  pub apart : (i : ℕ) → (free == own_of s i) ≡ false
  pub differ : (i j : ℕ) → (i == j) ≡ false → (own_of s i == own_of s j) ≡ false
  pub head : (i : ℕ) → s.pc i ≡ critical → first q ≡ some i

Chain-frame :
    (l m : ClhLock) (free : ℕ) (q : List ℕ)
    → m.tail ≡ l.tail
    → ((i : ℕ) → has i q ≡ true → (m.my_pred i ≡ l.my_pred i) × (m.my_node i ≡ l.my_node i))
    → Chain l free q
    → Chain m free q
Chain-frame l m free [] e same c = e ∙ c
Chain-frame l m free (i ∷ q) e same c =
    let here = same i (ground (arith, ==_refl i)) in
    (
      here.0 ∙ c.0,
      rw (here.1) (Chain-frame l m (l.my_node i) q e (λ j h. same j (ground arith)) c.1),
    )

Chain-swap :
    (l : ClhLock) (free i : ℕ) (q : List ℕ)
    → has i q ≡ false
    → Chain l free q
    → Chain (swap l i) free (q ++ i ∷ [])
unfolding swap
Chain-swap l free i [] h c = (rw (==_refl i) c, refl)
Chain-swap l free i (j ∷ q) h c =
    (ground (arith, c.0), Chain-swap l (l.my_node j) i q (ground arith) c.1)

first-snoc : (q : List ℕ) (i j : ℕ) → first q ≡ some j → first (q ++ i ∷ []) ≡ some j
first-snoc [] i j h = ground (arith, h)
first-snoc (k ∷ q) i j h = h

module _ {s : System} {q : List ℕ} {free : ℕ} (v : Inv s q free) (i : ℕ) where
  mark-Inv : s.pc i ≡ idle → Inv (goes s (mark s.lock i) i marked) q free
  unfolding mark
  mark-Inv e =
      let out : has i q ≡ false = v.members i ∙ ap queued e in
      record {
        distinct = v.distinct;
        chain = Chain-frame s.lock (mark s.lock i) free q refl (λ j h. (refl, refl)) v.chain;
        members = λ j. ground (arith, v.members j, e, out);
        unlocked = ground (arith, v.unlocked, v.apart i, e);
        held = λ j h. ground (arith, h, e, v.held j, v.differ i j);
        apart = λ j. ground (arith, v.apart j, e);
        differ = λ j k ne. ground (arith, v.differ j k ne, e);
        head = λ j h. ground (arith, v.head j, h, e);
      }

  swap-Inv : s.pc i ≡ marked → Inv (goes s (swap s.lock i) i waiting) (q ++ i ∷ []) free
  unfolding swap
  swap-Inv e =
      let out : has i q ≡ false = v.members i ∙ ap queued e in
      record {
        distinct = Distinct-snoc i q v.distinct out;
        chain = Chain-swap s.lock free i q out v.chain;
        members = λ j. ground (arith, has-snoc j i q, v.members j, e);
        unlocked = v.unlocked;
        held = λ j h. ground (arith, h, e, v.held j, v.held i);
        apart = λ j. ground (arith, v.apart j, e);
        differ = λ j k ne. ground (arith, v.differ j k ne, e);
        head = λ j h. first-snoc q i j (ground (arith, h, v.head j));
      }

-- Behind a locked node every thread of the queue waits for a locked node.
pred_locked :
    (l : ClhLock) (c i : ℕ) (q : List ℕ)
    → Chain l c q
    → l.locked c ≡ true
    → ((j : ℕ) → has j q ≡ true → l.locked (l.my_node j) ≡ true)
    → has i q ≡ true
    → l.locked (l.my_pred i) ≡ true
pred_locked l c i [] ch on held h = cc
pred_locked l c i (j ∷ q) ch on held h = elim (Bool-cases (i == j)) [
  | inl e ↦
      let same : i ≡ j = ground arith in
      ap (λ (k : ℕ). l.locked (l.my_pred k)) same ∙ ap l.locked ch.0 ∙ on
  | inr e ↦
      pred_locked l (l.my_node j) i q ch.1 (held j (ground (arith, ==_refl j)))
        (λ k m. held k (ground (arith, m))) (ground (arith, h, e))
]

-- A thread whose predecessor's node is unlocked is the first of the queue.
is_first :
    (l : ClhLock) (c i : ℕ) (q : List ℕ)
    → Chain l c q
    → ((j : ℕ) → has j q ≡ true → l.locked (l.my_node j) ≡ true)
    → has i q ≡ true
    → l.locked (l.my_pred i) ≡ false
    → first q ≡ some i
is_first l c i [] ch held h e = cc
is_first l c i (j ∷ q) ch held h e = elim (Bool-cases (i == j)) [
  | inl same ↦ ground arith
  | inr other ↦
      let on =
        pred_locked l (l.my_node j) i q ch.1 (held j (ground (arith, ==_refl j)))
          (λ k m. held k (ground (arith, m))) (ground (arith, h, other)) in
      cc
]

-- The first of the queue has the free node as its predecessor, and the others follow its own.
first-Chain :
    (l : ClhLock) (free i : ℕ) (q : List ℕ)
    → Chain l free q
    → first q ≡ some i
    → (r : List ℕ) × (q ≡ i ∷ r) × (l.my_pred i ≡ free) × Chain l (l.my_node i) r
first-Chain l free i [] ch e = absurd (ground (arith, e))
first-Chain l free i (j ∷ r) ch e =
    let same : j ≡ i = ground arith in
    (
      r,
      ap (λ (k : ℕ). k ∷ r) same,
      ap l.my_pred (sym same) ∙ ch.0,
      subst (λ (k : ℕ). Chain l (l.my_node k) r) same ch.1,
    )

module _ {s : System} {q : List ℕ} {free : ℕ} (v : Inv s q free) (i : ℕ) where
  held_in : (j : ℕ) → has j q ≡ true → s.lock.locked (s.lock.my_node j) ≡ true
  held_in j h = ground (arith, h, v.members j, v.held j)

  enter-Inv :
      s.pc i ≡ waiting
      → s.lock.locked (s.lock.my_pred i) ≡ false
      → Inv (goes s s.lock i critical) q free
  enter-Inv e off =
      let here = is_first s.lock free i q v.chain held_in (v.members i ∙ ap queued e) off in
      record {
        distinct = v.distinct;
        chain = v.chain;
        members = λ j. ground (arith, v.members j, e);
        unlocked = v.unlocked;
        held = λ j h. ground (arith, h, e, v.held j);
        apart = λ j. ground (arith, v.apart j, e);
        differ = λ j k ne. ground (arith, v.differ j k ne, e);
        head = λ j h. ground (arith, h, here, v.head j);
      }

  release-Inv :
      (r : List ℕ)
      → s.pc i ≡ critical
      → q ≡ i ∷ r
      → s.lock.my_pred i ≡ free
      → Chain s.lock (s.lock.my_node i) r
      → Inv (goes s (release s.lock i) i leaving) r (s.lock.my_node i)
  unfolding release
  release-Inv r e at pred ch =
      let d : Distinct (i ∷ r) = subst Distinct at v.distinct in
      let m : (j : ℕ) → has j (i ∷ r) ≡ queued (s.pc j) = λ j. ap (has j) (sym at) ∙ v.members j in
      record {
        distinct = d.1;
        chain =
            Chain-frame s.lock (release s.lock i) (s.lock.my_node i) r refl (λ j h. (refl, refl))
              ch;
        members = λ j. ground (arith, m j, d.0, e);
        unlocked = ground (arith, ==_refl (s.lock.my_node i));
        held = λ j h. ground (arith, h, e, v.held j, v.differ i j);
        apart = λ j. ground (arith, e, pred, v.differ i j, v.apart i, v.apart j);
        differ = λ j k ne. ground (arith, v.differ j k ne, e, pred, v.apart j, v.apart k);
        head = λ j h. ground (arith, h, v.head j, ap first at, ==_refl i);
      }

  keep-Inv : s.pc i ≡ leaving → Inv (goes s (keep_pred s.lock i) i idle) q free
  unfolding keep_pred
  keep-Inv e =
      let out : has i q ≡ false = v.members i ∙ ap queued e in
      record {
        distinct = v.distinct;
        chain =
            Chain-frame s.lock (keep_pred s.lock i) free q refl
              (λ j h. (refl, ground (arith, ne_of_has i j q out h))) v.chain;
        members = λ j. ground (arith, v.members j, e);
        unlocked = v.unlocked;
        held = λ j h. ground (arith, h, e, v.held j);
        apart = λ j. ground (arith, v.apart j, e);
        differ = λ j k ne. ground (arith, v.differ j k ne, e);
        head = λ j h. ground (arith, h, e, v.head j);
      }

abbrev pub Kept : System → Type 0
Kept s = (q : List ℕ) × (free : ℕ) × Inv s q free

pub Step-Kept : (s t : System) → Step s t → Kept s → Kept t
Step-Kept s t (marks i e at) (q, free, v) = (q, free, rw at (mark-Inv v i e))
Step-Kept s t (swaps i e at) (q, free, v) = (q ++ i ∷ [], free, rw at (swap-Inv v i e))
Step-Kept s t (spins i e on at) (q, free, v) = (q, free, rw at v)
Step-Kept s t (enters i e off at) (q, free, v) = (q, free, rw at (enter-Inv v i e off))
Step-Kept s t (releases i e at) (q, free, v) =
    let (r, split, pred, ch) = first-Chain s.lock free i q v.chain (v.head i e) in
    (r, s.lock.my_node i, rw at (release-Inv v i r e split pred ch))
Step-Kept s t (keeps i e at) (q, free, v) = (q, free, rw at (keep-Inv v i e))

-- The addresses that `CLHLockInit` is given: no two are the same.
pub record Apart (first : ℕ) (nodes : ℕ → ℕ) : Type 0 where
  pub tail : (i : ℕ) → (first == nodes i) ≡ false
  pub own : (i j : ℕ) → (i == j) ≡ false → (nodes i == nodes j) ≡ false

pub init-Kept :
    (tail : ℕ) (nodes : ℕ → ℕ) (memory : ℕ → Bool)
    → Apart tail nodes
    → Kept (init tail nodes memory)
unfolding lock_init
init-Kept tail nodes memory a = (
  [],
  tail,
  record {
    distinct = tt;
    chain = refl;
    members = λ i. refl;
    unlocked = ground (arith, ==_refl tail);
    held = λ j h. cc;
    apart = a.tail;
    differ = a.own;
    head = λ i h. ground (arith, h);
  },
)

pub Reach-Kept : (s t : System) → Kept s → Reach s t → Kept t
Reach-Kept s t k here = k
Reach-Kept s t k (later {t = m} r st) = Step-Kept m t st (Reach-Kept s m k r)
