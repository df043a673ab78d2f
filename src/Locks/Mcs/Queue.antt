-- ===== src/Locks/Mcs/Queue.antt =====
-- The queue that the nodes of an MCS lock form.
use sim_universal_constructi.Prelude.{
  ℕ, ◌==◌, ◌≡◌, ◌≢◌, sym, ◌∙◌, ap, Bool, true, false, none, some, List, [], ◌∷◌, arith, subst,
  Bool-cases, inl, inr, ==_refl,
}
use sim_universal_constructi.Queues.Nodes.{has, Distinct, end_of}
use sim_universal_constructi.Locks.Mcs.{
  McsLock, Pc, idle, readies, marks_tail, marks_node, marks_own, links, waits, critical, tries,
  awaits, hands, clears, faults, System,
}

-- Has the thread swapped and not yet given the lock away?
abbrev pub queued : Pc → Bool
queued idle = false
queued readies = false
queued clears = false
queued faults = false
queued _ = true

-- Can the thread be the first of the queue?
abbrev pub in_front : Pc → Bool
in_front waits = true
in_front critical = true
in_front tries = true
in_front awaits = true
in_front hands = true
in_front _ = false

-- Thread b stands behind thread a: it has still to link itself there, or waits.
abbrev pub Behind : McsLock → ℕ → ℕ → Pc → Type 0
Behind l a b (marks_tail prev) = (prev ≡ a) × (l.next a ≡ none)
Behind l a b (marks_node x prev) = (prev ≡ a) × (l.next a ≡ none)
Behind l a b (marks_own prev) = (prev ≡ a) × (l.next a ≡ none)
Behind l a b (links prev) = (prev ≡ a) × (l.next a ≡ none) × (l.locked b ≡ true)
Behind l a b waits = (l.next a ≡ some b) × (l.locked b ≡ true)
Behind l a b _ = true ≡ false

abbrev pub Chain : System → ℕ → List ℕ → Type 0
Chain s a [] = (s.lock.tail ≡ some a) × (s.lock.next a ≡ none)
Chain s a (b ∷ q) = Behind s.lock a b (s.pc b) × Chain s b q

abbrev pub Front : System → List ℕ → Type 0
Front s [] = s.lock.tail ≡ none
Front s (h ∷ q) =
    (in_front (s.pc h) ≡ true)
    × (s.lock.locked h ≡ false)
    × Chain s h q
    × (s.pc h ≡ hands → s.lock.next h ≢ none)

-- A thread outside the queue
abbrev pub Outside : McsLock → ℕ → Pc → Type 0
Outside l i idle = l.locked i ≡ false
Outside l i readies = (l.locked i ≡ false) × (l.next i ≡ none)
Outside l i clears = l.locked i ≡ false
Outside l i faults = true ≡ false
Outside l i _ = Unit

-- The node that a thread is about to mark is its own or behind it.
abbrev pub Aim : Pc → List ℕ → Type 0
Aim (marks_node a prev) q = has a q ≡ true
Aim _ q = Unit

abbrev pub Aims : (ℕ → Pc) → List ℕ → Type 0
Aims pc [] = Unit
Aims pc (b ∷ q) = Aim (pc b) (b ∷ q) × Aims pc q

pub record Inv (s : System) (q : List ℕ) : Type 0 where
  pub distinct : Distinct q
  pub members : (i : ℕ) → has i q ≡ queued (s.pc i)
  pub front : Front s q
  pub aims : Aims s.pc q
  pub outside : (i : ℕ) → Outside s.lock i (s.pc i)

pub Behind-frame :
    (l m : McsLock) (a b : ℕ) (p : Pc)
    → m.next a ≡ l.next a
    → (l.locked b ≡ true → m.locked b ≡ true)
    → Behind l a b p
    → Behind m a b p
Behind-frame l m a b (marks_tail prev) e f c = (c.0, e ∙ c.1)
Behind-frame l m a b (marks_node x prev) e f c = (c.0, e ∙ c.1)
Behind-frame l m a b (marks_own prev) e f c = (c.0, e ∙ c.1)
Behind-frame l m a b (links prev) e f c = (c.0, e ∙ c.1, f c.2)
Behind-frame l m a b waits e f c = (e ∙ c.0, f c.1)
Behind-frame l m a b idle e f c = c
Behind-frame l m a b readies e f c = c
Behind-frame l m a b critical e f c = c
Behind-frame l m a b tries e f c = c
Behind-frame l m a b awaits e f c = c
Behind-frame l m a b hands e f c = c
Behind-frame l m a b clears e f c = c
Behind-frame l m a b faults e f c = c

-- A change outside a chain, that may lock more of its nodes but the first
pub Chain-frame :
    (s t : System) (a : ℕ) (q : List ℕ)
    → t.lock.tail ≡ s.lock.tail
    → ((i : ℕ) → has i (a ∷ q) ≡ true → t.lock.next i ≡ s.lock.next i)
    → ((i : ℕ)
        → has i q ≡ true
        → (t.pc i ≡ s.pc i) × (s.lock.locked i ≡ true → t.lock.locked i ≡ true))
    → Chain s a q
    → Chain t a q
Chain-frame s t a [] e f g c = (e ∙ c.0, f a (ground (arith, ==_refl a)) ∙ c.1)
Chain-frame s t a (b ∷ q) e f g c =
    let same = g b (ground (arith, ==_refl b)) in
    (
      rw (same.0)
          (Behind-frame s.lock t.lock a b (s.pc b) (f a (ground (arith, ==_refl a))) same.1 c.0),
      Chain-frame s t b q e (λ i h. f i (ground (arith, h))) (λ i h. g i (ground (arith, h))) c.1,
    )

-- The last thread of a chain is the tail's.
pub tail_of : (s : System) (a : ℕ) (q : List ℕ) → Chain s a q → s.lock.tail ≡ some (end_of a q)
tail_of s a [] c = c.0
tail_of s a (b ∷ q) c = tail_of s b q c.1

-- A thread that has still to link itself has its predecessor in the queue.
pub prev_in :
    (s : System) (a b prev : ℕ) (q : List ℕ)
    → Chain s a q
    → has b q ≡ true
    → s.pc b ≡ links prev
    → has prev (a ∷ q) ≡ true
prev_in s a b prev [] c h e = absurd (ground (arith, h))
prev_in s a b prev (x ∷ q) c h e = elim (Bool-cases (b == x)) [
  | inl eq ↦
      let same : b ≡ x = ground arith in
      let p : prev ≡ a = (subst (Behind s.lock a x) (sym (ap s.pc same) ∙ e) c.0).0 in
      ground (arith, p)
  | inr ne ↦ ground (arith, prev_in s x b prev q c.1 (ground (arith, h, ne)) e)
]
