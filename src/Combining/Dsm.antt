-- ===== src/Combining/Dsm.antt =====
-- libconcurrent/concurrent/dsmsynch.c: DSM-Synch, with nodes as in `Cc`.
--
-- `DSMSynchApplyOp` has three parts, which the waits separate: `announce` runs up to the loop that
-- spins on `mynode->locked`, `work` from there to the end of the critical section, and `hand_over` from
-- there on. The atomic steps of other threads fall between them.
use sim_universal_constructi.Prelude.{
  ℕ, zero, suc, ◌*◌, ◌==◌, Bool, true, false, Option, none, some, update, ℤ,
}
use sim_universal_constructi.Combining.Cc.{Nodes, serve, unlock}

-- `toggle` and `my_nodes` are the fields of the threads, by pid.
pub record DsmSynch : Type 0 where
  pub nthreads : ℕ
  pub tail : Option ℕ
  pub nodes : Nodes
  pub toggle : ℕ → Bool
  pub my_nodes : ℕ → Bool → ℕ

abbrev pub dsmsynch_help_factor : ℕ
dsmsynch_help_factor = 10

-- `DSMSynchStructInit`
unfoldable pub struct_init : ℕ → DsmSynch → DsmSynch
struct_init nthreads l = record l { nthreads = nthreads; tail = none }

-- `DSMSynchThreadStateInit`, which gives thread pid the nodes at two addresses
unfoldable pub thread_state_init : DsmSynch → (Bool → ℕ) → ℕ → DsmSynch
thread_state_init l mine pid = record l {
  my_nodes = update l.my_nodes pid mine;
  toggle = update l.toggle pid false;
}

abbrev not : Bool → Bool
not true = false
not false = true

-- `mynode->next = NULL; arg_ret = arg; pid = pid; locked = true; completed = false`
unfoldable pub fresh_request : Nodes → ℕ → ℤ → ℕ → Nodes
fresh_request n node arg pid = record {
  next = update n.next node none;
  arg_ret = update n.arg_ret node arg;
  pid = update n.pid node pid;
  locked = update n.locked node true;
  completed = update n.completed node false;
}

-- `pred->next = node`, unless pred is NULL
unfoldable pub link : Nodes → Option ℕ → ℕ → Nodes
link n none node = n
link n (some pred) node = record n { next = update n.next pred (some node) }

-- Up to the wait: `mypred`, `mynode` and the object. A thread with no predecessor does not wait.
unfoldable pub announce : DsmSynch → ℤ → ℕ → Option ℕ × ℕ × DsmSynch
announce l arg pid =
    let toggle = not (l.toggle pid) in
    let mynode = l.my_nodes pid toggle in
    (
      l.tail,
      mynode,
      record l {
        tail = some mynode;
        nodes = link (fresh_request l.nodes mynode arg pid) l.tail mynode;
        toggle = update l.toggle pid toggle;
      },
    )

-- From the release of a node without a next one: `none` while the thread spins.
unfoldable pub hand_over : DsmSynch → ℕ → Option DsmSynch
hand_over l p = elim (l.nodes.next p) [
  | some q ↦ some (record l { nodes = unlock l.nodes q })
  | none ↦ elim (l.tail) [
    | none ↦ none
    | some last ↦ elim (last == p) [ true ↦ some (record l { tail = none }) | false ↦ none ]
  ]
]

module _ (S : Type 0) (sfunc : S → ℤ → ℕ → ℤ × S) where
  -- The loop of the combiner, with `left` = help_bound - counter before the round; the round at p is
  -- done in any case. The result is the node at which it stops, the nodes and the state.
  unfoldable pub combine : ℕ → ℕ → Nodes → S → ℕ × Nodes × S
  combine zero p n s = let (ret, t) = sfunc s (n.arg_ret p) (n.pid p) in (p, serve n p ret, t)
  combine (suc left) p n s =
      let (ret, t) = sfunc s (n.arg_ret p) (n.pid p) in
      elim (n.next p) [
        | none ↦ (p, serve n p ret, t)
        | some q ↦ elim (n.next q) [
          | none ↦ (p, serve n p ret, t)
          | some _ ↦ elim left [
            | zero ↦ (p, serve n p ret, t)
            | suc _ ↦ combine left q (serve n p ret) t
          ]
        ]
      ]

  -- The critical section of a thread that is not served
  unfoldable pub work : DsmSynch → ℕ → S → ℕ × DsmSynch × S
  work l mynode s =
      let (p, n, t) = combine (dsmsynch_help_factor * l.nthreads) mynode l.nodes s in
      (p, record l { nodes = n }, t)

  -- From the wait to the end of the critical section: `none` while the thread spins; the result, when
  -- another thread has served the request; or the node at which the combiner stops.
  unfoldable pub resume : DsmSynch → Option ℕ → ℕ → S → Option (Option ℕ × DsmSynch × S)
  resume l none mynode s = let (p, m, t) = work l mynode s in some (some p, m, t)
  resume l (some pred) mynode s = elim (l.nodes.locked mynode) [
    | true ↦ none
    | false ↦ elim (l.nodes.completed mynode) [
      | true ↦ some (none, l, s)
      | false ↦ let (p, m, t) = work l mynode s in some (some p, m, t)
    ]
  ]
