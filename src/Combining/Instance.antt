-- ===== src/Combining/Instance.antt =====
-- CC-Synch as the combining object of a queue, a stack or a hash table, for one operation after another.
use sim_universal_constructi.Prelude.{ℕ, ◌==◌, ◌≡◌, false, Option, none, some, ℤ, subst}
use sim_universal_constructi.Queues.Combiner.{Combiner, Serial}
use sim_universal_constructi.Combining.Cc.{Nodes, CcSynch, struct_init, announce, resume}
use sim_universal_constructi.Combining.Solo.{Idle, struct_init-Idle, apply_alone}

module _ (S : Type 0) (f : Serial S) where
  -- The serial function, that leaves a state on which `f` does not return as it is
  abbrev total : S → ℤ → ℕ → ℤ × S
  total s arg pid = elim (f s arg pid) [ none ↦ (arg, s) | some out ↦ out ]

  -- `CCSynchApplyOp`, when no other thread takes a step between its two parts
  unfoldable pub apply_op : CcSynch → S → ℤ → ℕ → Option (ℤ × CcSynch × S)
  apply_op l s arg pid = elim (f s arg pid) [
    | none ↦ none
    | some out ↦ let (cur, l') = announce l arg pid in resume S total l' cur s
  ]

  pub apply_op-applies :
      (l : CcSynch) (s t : S) (arg r : ℤ) (pid : ℕ)
      → Idle l
      → f s arg pid ≡ some (r, t)
      → (l' : CcSynch) × (apply_op l s arg pid ≡ some (r, l', t)) × Idle l'
  unfolding apply_op
  apply_op-applies l s t arg r pid idle e =
      let (l', run, again) = apply_alone S total l arg pid s idle in
      let ran : resume S total (announce l arg pid).1 (announce l arg pid).0 s ≡ some (r, l', t) =
        subst
          (λ (o : Option (ℤ × S)).
            let out : ℤ × S = elim o [ none ↦ (arg, s) | some out ↦ out ] in
            resume S total (announce l arg pid).1 (announce l arg pid).0 s
            ≡ some (out.0, l', out.1))
          e run in
      (l', rw (e, apply_op) ran, again)

-- CC-Synch, whose first tail stands at address `first` and whose threads bring the nodes `own`.
module _ (first : ℕ) (n : Nodes) (own : ℕ → ℕ) (apart : (i : ℕ) → (first == own i) ≡ false)
    (differ : (i j : ℕ) → (i == j) ≡ false → (own i == own j) ≡ false) where
  abbrev pub cc_synch : Combiner
  cc_synch = record {
    Sync = CcSynch;
    Ready = Idle;
    struct_init = λ nthreads. struct_init nthreads first n own;
    init_ready = λ nthreads pos. struct_init-Idle nthreads first n own pos apart differ;
    apply_op = apply_op;
    applies = λ S f y s t arg r pid ready e. apply_op-applies S f y s t arg r pid ready e;
  }
