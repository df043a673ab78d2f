-- ===== src/Locks/Mcs/Moves.antt =====
-- How the queue of an MCS lock changes.
use sim_universal_constructi.Prelude.{
  ℕ, ◌==◌, ◌≡◌, refl, sym, ◌∙◌, ap, true, false, Option, none, some, List, [], ◌∷◌, ◌++◌, arith,
  update, subst, Bool-cases, inl, inr, ==_refl,
}
use sim_universal_constructi.Queues.Nodes.{has, Distinct, ne_of_has}
use sim_universal_constructi.Locks.Mcs.{
  McsLock, Pc, idle, readies, marks_tail, marks_node, marks_own, links, waits, critical, tries,
  awaits, hands, clears, faults, System, goes,
}
use sim_universal_constructi.Locks.Mcs.Queue.{
  queued, Behind, Chain, Front, Outside, Aims, Inv, Behind-frame, Chain-frame, prev_in,
}

Outside-frame :
    (l m : McsLock) (j : ℕ) (p : Pc)
    → m.locked j ≡ l.locked j
    → m.next j ≡ l.next j
    → Outside l j p
    → Outside m j p
Outside-frame l m j idle e f o = e ∙ o
Outside-frame l m j readies e f o = (e ∙ o.0, f ∙ o.1)
Outside-frame l m j clears e f o = e ∙ o
Outside-frame l m j faults e f o = o
Outside-frame l m j (marks_tail p) e f o = tt
Outside-frame l m j (marks_node a p) e f o = tt
Outside-frame l m j (marks_own p) e f o = tt
Outside-frame l m j (links p) e f o = tt
Outside-frame l m j waits e f o = tt
Outside-frame l m j critical e f o = tt
Outside-frame l m j tries e f o = tt
Outside-frame l m j awaits e f o = tt
Outside-frame l m j hands e f o = tt

pub inside : (l : McsLock) (j : ℕ) (p : Pc) → queued p ≡ true → Outside l j p
inside l j idle e = absurd (ground (arith, e))
inside l j readies e = absurd (ground (arith, e))
inside l j clears e = absurd (ground (arith, e))
inside l j faults e = absurd (ground (arith, e))
inside l j (marks_tail p) e = tt
inside l j (marks_node a p) e = tt
inside l j (marks_own p) e = tt
inside l j (links p) e = tt
inside l j waits e = tt
inside l j critical e = tt
inside l j tries e = tt
inside l j awaits e = tt
inside l j hands e = tt

-- One thread moves on.
pub moved-Inv :
    (s t : System) (q r : List ℕ) (i : ℕ) (p : Pc)
    → Inv s q
    → t.pc ≡ update s.pc i p
    → Distinct r
    → has i r ≡ queued p
    → ((j : ℕ) → (i == j) ≡ false → has j r ≡ has j q)
    → Front t r
    → Aims t.pc r
    → Outside t.lock i p
    → ((j : ℕ)
        → (i == j) ≡ false
        → queued (s.pc j) ≡ false
        → (t.lock.locked j ≡ s.lock.locked j) × (t.lock.next j ≡ s.lock.next j))
    → Inv t r
moved-Inv s t q r i p v at d mine others front aims out same =
    let stands : (j : ℕ) → (i == j) ≡ true → t.pc j ≡ p = λ j e. rw (at, e) refl in
    let stays : (j : ℕ) → (i == j) ≡ false → t.pc j ≡ s.pc j = λ j e. rw (at, e) refl in
    record {
      distinct = d;
      members = λ j. elim (Bool-cases (i == j)) [
        | inl e ↦
            let eq : i ≡ j = ground arith in
            rw (stands j e) (subst (λ (k : ℕ). has k r ≡ queued p) eq mine)
        | inr e ↦ rw (stays j e) (others j e ∙ v.members j)
      ];
      front = front;
      aims = aims;
      outside = λ j. elim (Bool-cases (i == j)) [
        | inl e ↦
            let eq : i ≡ j = ground arith in
            rw (stands j e) (subst (λ (k : ℕ). Outside t.lock k p) eq out)
        | inr e ↦ rw (stays j e) (elim (Bool-cases (queued (s.pc j))) [
          | inl busy ↦ inside t.lock j (s.pc j) busy
          | inr free ↦
              let k = same j e free in Outside-frame s.lock t.lock j (s.pc j) k.0 k.1 (v.outside j)
        ])
      ];
    }

-- A thread of the queue behind the first, by its place
pub predecessor_lem :
    (s : System) (a i : ℕ) (q : List ℕ)
    → Chain s a q
    → has i q ≡ true
    → (b : ℕ) × Behind s.lock b i (s.pc i)
predecessor_lem s a i [] c h = absurd (ground (arith, h))
predecessor_lem s a i (x ∷ q) c h = elim (Bool-cases (i == x)) [
  | inl e ↦
      let same : x ≡ i = ground arith in (a, subst (λ (k : ℕ). Behind s.lock a k (s.pc k)) same c.0)
  | inr e ↦ predecessor_lem s x i q c.1 (ground (arith, h, e))
]

-- A thread behind the first moves on, and no link changes.
pub Chain-mark :
    (s t : System) (a b : ℕ) (q : List ℕ)
    → t.lock.tail ≡ s.lock.tail
    → t.lock.next ≡ s.lock.next
    → ((c : ℕ) → Behind s.lock c b (s.pc b) → Behind t.lock c b (t.pc b))
    → ((i : ℕ)
        → (b == i) ≡ false
        → (t.pc i ≡ s.pc i) × (s.lock.locked i ≡ true → t.lock.locked i ≡ true))
    → Chain s a q
    → Chain t a q
Chain-mark s t a b [] e n f g c = (e ∙ c.0, rw n (c.1))
Chain-mark s t a b (x ∷ q) e n f g c = (
  elim (Bool-cases (b == x)) [
    | inl eq ↦
        let same : b ≡ x = ground arith in
        subst (λ (k : ℕ). Behind t.lock a k (t.pc k)) same
          (f a (subst (λ (k : ℕ). Behind s.lock a k (s.pc k)) (sym same) c.0))
    | inr ne ↦
        let k = g x ne in
        rw (k.0)
          (Behind-frame s.lock t.lock a x (s.pc x) (ap (λ (w : ℕ → Option ℕ). w a) n) k.1 c.0)
  ],
  Chain-mark s t x b q e n f g c.1,
)

-- A thread behind the first links itself.
pub Chain-link :
    (s : System) (a b prev : ℕ) (q : List ℕ)
    → Distinct (a ∷ q)
    → has b q ≡ true
    → s.pc b ≡ links prev
    → Chain s a q
    → Chain (goes s (record s.lock { next = update s.lock.next prev (some b) }) b waits) a q
Chain-link s a b prev [] d h at c = absurd (ground (arith, h))
Chain-link s a b prev (x ∷ q) d h at c =
    let t : System = goes s (record s.lock { next = update s.lock.next prev (some b) }) b waits in
    elim (Bool-cases (b == x)) [
      | inl eq ↦
          let same : b ≡ x = ground arith in
          let mine : Behind s.lock a x (links prev) =
            subst (Behind s.lock a x) (sym (ap s.pc same) ∙ at) c.0 in
          (
            rw eq (ground (arith, mine.0, same), mine.2),
            Chain-frame s t x q refl (λ i m. ground (arith, mine.0, ne_of_has a i (x ∷ q) d.0 m))
                (λ i m. (ground (arith, same, ne_of_has x i q d.1.0 m), λ l. l)) c.1,
          )
      | inr ne ↦
          let later : has b q ≡ true = ground (arith, h, ne) in
          let there = prev_in s x b prev q c.1 later at in
          (
            rw ne (
                Behind-frame s.lock t.lock a x (s.pc x)
                  (ground (arith, ne_of_has a prev (x ∷ q) d.0 there)) (λ l. l) c.0),
            Chain-link s x b prev q d.1 later at c.1,
          )
    ]

-- A thread swaps itself in behind the last one.
pub Chain-swap :
    (s : System) (a i prev : ℕ) (q : List ℕ)
    → has i (a ∷ q) ≡ false
    → s.lock.next i ≡ none
    → s.lock.tail ≡ some prev
    → Chain s a q
    → Chain (goes s (record s.lock { tail = some i }) i (marks_tail prev)) a (q ++ i ∷ [])
Chain-swap s a i prev [] out free at c =
    (rw (==_refl i) (ground (arith, at, c.0), c.1), (refl, free))
Chain-swap s a i prev (x ∷ q) out free at c =
    let t : System = goes s (record s.lock { tail = some i }) i (marks_tail prev) in
    let ne : (i == x) ≡ false = ground (arith, out) in
    (
      rw ne (Behind-frame s.lock t.lock a x (s.pc x) refl (λ l. l) c.0),
      Chain-swap s x i prev q (ground (arith, out)) free at c.1,
    )
