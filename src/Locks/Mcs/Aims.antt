-- ===== src/Locks/Mcs/Aims.antt =====
-- The nodes that the threads of an MCS lock are about to mark.
use sim_universal_constructi.Prelude.{
  ℕ, ◌==◌, ◌≡◌, sym, ◌∙◌, ap, true, List, [], ◌∷◌, ◌++◌, arith, update, subst, Bool-cases, inl, inr,
}
use sim_universal_constructi.Queues.Nodes.{has, end_of, has-end_of, has-snoc}
use sim_universal_constructi.Locks.Mcs.{
  Pc, idle, readies, marks_tail, marks_node, marks_own, links, waits, critical, tries, awaits,
  hands, clears, faults,
}
use sim_universal_constructi.Locks.Mcs.Queue.{Aim, Aims}

-- A thread that goes on to mark no node
pub Aims-goes :
    (pc : ℕ → Pc) (i : ℕ) (p : Pc) (q : List ℕ)
    → ((r : List ℕ) → Aim p r)
    → Aims pc q
    → Aims (update pc i p) q
Aims-goes pc i p [] plain a = tt
Aims-goes pc i p (b ∷ q) plain a = (
  elim (Bool-cases (i == b)) [ inl e ↦ rw e (plain (b ∷ q)) | inr e ↦ rw e (a.0) ],
  Aims-goes pc i p q plain a.1,
)

-- A thread that goes on to mark the last node
pub Aims-last :
    (pc : ℕ → Pc) (i h prev : ℕ) (q : List ℕ)
    → Aims pc (h ∷ q)
    → Aims (update pc i (marks_node (end_of h q) prev)) (h ∷ q)
Aims-last pc i h prev [] a =
    (elim (Bool-cases (i == h)) [ inl e ↦ rw e (has-end_of h []) | inr e ↦ rw e (a.0) ], tt)
Aims-last pc i h prev (x ∷ q) a = (
  elim (Bool-cases (i == h)) [ inl e ↦ rw e (has-end_of h (x ∷ q)) | inr e ↦ rw e (a.0) ],
  Aims-last pc i x prev q a.1,
)

Aim-snoc : (p : Pc) (i : ℕ) (q : List ℕ) → Aim p q → Aim p (q ++ i ∷ [])
Aim-snoc (marks_node a prev) i q h = ground (arith, has-snoc a i q, h)
Aim-snoc idle i q h = tt
Aim-snoc readies i q h = tt
Aim-snoc (marks_tail n) i q h = tt
Aim-snoc (marks_own n) i q h = tt
Aim-snoc (links n) i q h = tt
Aim-snoc waits i q h = tt
Aim-snoc critical i q h = tt
Aim-snoc tries i q h = tt
Aim-snoc awaits i q h = tt
Aim-snoc hands i q h = tt
Aim-snoc clears i q h = tt
Aim-snoc faults i q h = tt

-- A thread that joins the queue
pub Aims-snoc :
    (pc : ℕ → Pc) (i : ℕ) (q : List ℕ)
    → ((r : List ℕ) → Aim (pc i) r)
    → Aims pc q
    → Aims pc (q ++ i ∷ [])
Aims-snoc pc i [] plain a = (plain (i ∷ []), tt)
Aims-snoc pc i (b ∷ q) plain a = (Aim-snoc (pc b) i (b ∷ q) a.0, Aims-snoc pc i q plain a.1)

pub Aims-has :
    (pc : ℕ → Pc) (i a prev : ℕ) (q : List ℕ)
    → Aims pc q
    → has i q ≡ true
    → pc i ≡ marks_node a prev
    → has a q ≡ true
Aims-has pc i a prev [] m h at = absurd (ground (arith, h))
Aims-has pc i a prev (b ∷ q) m h at = elim (Bool-cases (i == b)) [
  | inl e ↦
      let same : i ≡ b = ground arith in
      subst (λ (p : Pc). Aim p (b ∷ q)) (sym (ap pc same) ∙ at) (m.0)
  | inr e ↦ ground (arith, Aims-has pc i a prev q m.1 (ground (arith, h, e)) at)
]
