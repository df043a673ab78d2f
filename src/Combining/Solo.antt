-- ===== src/Combining/Solo.antt =====
-- The announcements of CC-Synch form a chain, and a thread that runs alone applies its own request.
use sim_universal_constructi.Prelude.{
  ℕ, suc, ◌*◌, ◌-◌, ◌<◌, ◌≡◌, refl, sym, true, false, none, some, List, [], ◌∷◌, ◌++◌, arith, ◌==◌,
  ℤ, ==_refl, Bool-cases, inl, inr,
}
use sim_universal_constructi.Queues.Nodes.{
  Linked, has, Distinct, end_of, Linked-append, Distinct-append,
}
use sim_universal_constructi.Combining.Cc.{
  Nodes, CcSynch, fresh_node, request, announce, serve, unlock, combine, resume, struct_init,
  ccsynch_help_factor,
}

-- The requests that no combiner has taken yet lead from node `cur` through xs to the tail.
pub record Pending (l : CcSynch) (cur : ℕ) (xs : List ℕ) : Type 0 where
  pub chain : Linked l.nodes.next cur xs
  pub distinct : Distinct (cur ∷ xs)
  pub tail : l.tail ≡ end_of cur xs

end_of-snoc : (p node : ℕ) (xs : List ℕ) → end_of p (xs ++ node ∷ []) ≡ node
end_of-snoc p node [] = refl
end_of-snoc p node (x ∷ xs) = end_of-snoc x node xs

-- A thread that announces a request, with a node that is not in the chain, puts it behind those that
-- are pending: it waits at the node that was the tail, the request stands there, and the node that
-- it brought along is the new tail, locked and not completed.
pub announce-Pending :
    (l : CcSynch) (cur : ℕ) (xs : List ℕ) (arg : ℤ) (pid : ℕ)
    → Pending l cur xs
    → has (l.own pid) (cur ∷ xs) ≡ false
    → Pending (announce l arg pid).1 cur (xs ++ l.own pid ∷ [])
      × ((announce l arg pid).0 ≡ end_of cur xs)
      × ((announce l arg pid).1.nodes.arg_ret (end_of cur xs) ≡ arg)
      × ((announce l arg pid).1.nodes.pid (end_of cur xs) ≡ pid)
      × ((announce l arg pid).1.nodes.locked (l.own pid) ≡ true)
      × ((announce l arg pid).1.nodes.completed (l.own pid) ≡ false)
unfolding announce fresh_node request
announce-Pending l cur xs arg pid p fresh = (
  record {
    chain = rw (p.tail) (Linked-append l.nodes.next cur (l.own pid) xs p.chain p.distinct fresh);
    distinct = Distinct-append cur (l.own pid) xs p.distinct fresh;
    tail = sym (end_of-snoc cur (l.own pid) xs);
  },
  p.tail,
  ground (arith, p.tail, ==_refl (end_of cur xs)),
  ground (arith, p.tail, ==_refl (end_of cur xs)),
  ground (arith, ==_refl (l.own pid)),
  ground (arith, ==_refl (l.own pid)),
)

-- No thread is at work: the tail is free, and the threads' own nodes are apart from it and from
-- one another.
pub record Idle (l : CcSynch) : Type 0 where
  pub threads : 0 < l.nthreads
  pub end : l.nodes.next l.tail ≡ none
  pub free : l.nodes.locked l.tail ≡ false
  pub fresh : l.nodes.completed l.tail ≡ false
  pub apart : (i : ℕ) → (l.tail == l.own i) ≡ false
  pub own : (i j : ℕ) → (i == j) ≡ false → (l.own i == l.own j) ≡ false

-- At the start, with at least one thread and own nodes that are apart from the first tail and from one
-- another, no thread is at work.
pub struct_init-Idle :
    (nthreads first : ℕ) (n : Nodes) (own : ℕ → ℕ)
    → 0 < nthreads
    → ((i : ℕ) → (first == own i) ≡ false)
    → ((i j : ℕ) → (i == j) ≡ false → (own i == own j) ≡ false)
    → Idle (struct_init nthreads first n own)
unfolding struct_init
struct_init-Idle nthreads first n own pos apart differ = record {
  threads = pos;
  end = ground (arith, ==_refl first);
  free = ground (arith, ==_refl first);
  fresh = ground (arith, ==_refl first);
  apart = apart;
  own = differ;
}

module _ (S : Type 0) (sfunc : S → ℤ → ℕ → ℤ × S) (l : CcSynch) (arg : ℤ) (pid : ℕ) (s : S) where
  abbrev Announced : CcSynch
  Announced = (announce l arg pid).1

  -- When no thread is at work, a thread that announces a request need not wait: it returns what the
  -- serial function returns, leaves the object in the state that the function leaves, and again no
  -- thread is at work.
  pub apply_alone :
      Idle l
      → (l' : CcSynch) × (resume S sfunc Announced (announce l arg pid).0 s
          ≡ some ((sfunc s arg pid).0, l', (sfunc s arg pid).1))
        × Idle l'
  unfolding announce resume combine fresh_node request serve unlock
  apply_alone i =
      let own = l.own pid in
      let apart = i.apart pid in
      let rounds : ccsynch_help_factor * l.nthreads ≡ suc (suc (10 * l.nthreads - 2)) =
        let t = i.threads in omega arith in
      (
        record Announced { nodes = unlock (serve Announced.nodes l.tail (sfunc s arg pid).0) own },
        ground (arith, rounds, i.free, i.fresh, apart, ==_refl l.tail, ==_refl own),
        record {
          threads = i.threads;
          end = ground (arith, apart, ==_refl own);
          free = ground (arith, ==_refl own);
          fresh = ground (arith, apart, ==_refl own);
          apart = λ j. elim (Bool-cases (pid == j)) [
            | inl e ↦ ground (arith, e, apart)
            | inr e ↦ ground (arith, e, i.own pid j e)
          ];
          own = λ j k ne. elim (Bool-cases (pid == j)) [
            | inl e ↦ ground (arith, e, ne, i.apart k)
            | inr e ↦ ground (arith, e, ne, i.apart j, i.own j k ne)
          ];
        },
      )
