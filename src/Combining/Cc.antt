-- ===== src/Combining/Cc.antt =====
-- libconcurrent/concurrent/ccsynch.c: CC-Synch. Its nodes stand at addresses, `none` is NULL.
--
-- `CCSynchApplyOp` has two parts, which a wait separates: `announce` runs up to the loop that spins on
-- `cur->locked`, and `resume` from there on. The atomic steps of other threads fall between the two.
use sim_universal_constructi.Prelude.{
  ℕ, zero, suc, ◌*◌, Bool, true, false, Option, none, some, update, ℤ,
}

pub record Nodes : Type 0 where
  pub next : ℕ → Option ℕ
  pub arg_ret : ℕ → ℤ
  pub pid : ℕ → ℕ
  pub locked : ℕ → Bool
  pub completed : ℕ → Bool

-- `own` is `st_thread->next`, by pid: the node that the thread brings along.
pub record CcSynch : Type 0 where
  pub nthreads : ℕ
  pub tail : ℕ
  pub nodes : Nodes
  pub own : ℕ → ℕ

abbrev pub ccsynch_help_factor : ℕ
ccsynch_help_factor = 10

-- `CCSynchStructInit`; `first` is the address of the node that `Tail` points to.
unfoldable pub struct_init : ℕ → ℕ → Nodes → (ℕ → ℕ) → CcSynch
struct_init nthreads first n own = record {
  nthreads = nthreads;
  tail = first;
  nodes = record n {
    next = update n.next first none;
    locked = update n.locked first false;
    completed = update n.completed first false;
  };
  own = own;
}

-- `CCSynchThreadStateInit`, which gives thread pid the node at address `mine`
unfoldable pub thread_state_init : CcSynch → ℕ → ℕ → CcSynch
thread_state_init l mine pid = record l { own = update l.own pid mine }

-- `next_node->next = NULL; next_node->locked = true; next_node->completed = false`
unfoldable pub fresh_node : Nodes → ℕ → Nodes
fresh_node n node = record n {
  next = update n.next node none;
  locked = update n.locked node true;
  completed = update n.completed node false;
}

-- `cur->arg_ret = arg; cur->pid = pid; cur->next = next_node`
unfoldable pub request : Nodes → ℕ → ℤ → ℕ → ℕ → Nodes
request n cur arg pid node = record n {
  arg_ret = update n.arg_ret cur arg;
  pid = update n.pid cur pid;
  next = update n.next cur (some node);
}

-- Up to the wait; the result is `cur`.
unfoldable pub announce : CcSynch → ℤ → ℕ → ℕ × CcSynch
announce l arg pid = (
  l.tail,
  record l {
    tail = l.own pid;
    nodes = request (fresh_node l.nodes (l.own pid)) l.tail arg pid (l.own pid);
    own = update l.own pid l.tail;
  },
)

-- `p->arg_ret = ret; p->completed = true; p->locked = false`
unfoldable pub serve : Nodes → ℕ → ℤ → Nodes
serve n p ret = record n {
  arg_ret = update n.arg_ret p ret;
  completed = update n.completed p true;
  locked = update n.locked p false;
}

unfoldable pub unlock : Nodes → ℕ → Nodes
unlock n p = record n { locked = update n.locked p false }

module _ (S : Type 0) (sfunc : S → ℤ → ℕ → ℤ × S) where
  -- The loop of the combiner, with `left` = help_bound - counter rounds to go: the node at which it
  -- stops, the nodes and the state of the object.
  unfoldable pub combine : ℕ → ℕ → Nodes → S → ℕ × Nodes × S
  combine zero p n s = (p, n, s)
  combine (suc left) p n s = elim (n.next p) [
    | none ↦ (p, n, s)
    | some tmp_next ↦
        combine left tmp_next (serve n p (sfunc s (n.arg_ret p) (n.pid p)).0)
          (sfunc s (n.arg_ret p) (n.pid p)).1
  ]

  -- From the wait on: `none` while the thread spins, and the result otherwise.
  unfoldable pub resume : CcSynch → ℕ → S → Option (ℤ × CcSynch × S)
  resume l cur s = elim (l.nodes.locked cur) [
    | true ↦ none
    | false ↦ elim (l.nodes.completed cur) [
      | true ↦ some (l.nodes.arg_ret cur, l, s)
      | false ↦
          let (p, n, t) = combine (ccsynch_help_factor * l.nthreads) cur l.nodes s in
          some (n.arg_ret cur, record l { nodes = unlock n p }, t)
    ]
  ]
