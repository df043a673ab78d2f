-- ===== src/Combining/Hier.antt =====
-- libconcurrent/concurrent/hsynch.c: H-Synch, built with SYNCH_NUMA_SUPPORT as config.h has it. Nodes stand
-- at addresses, `none` is NULL, and the thread-local `node_of_thread` is a field by pid.
--
-- `HSynchApplyOp` has two parts, which a wait separates: `announce` runs up to the loop that spins on
-- `cur->locked`, and `resume` from there on, with the section under the central lock as one step. The
-- central lock is a CLH lock, of which only whether it is held is kept here; `CLHLock` waits while it is. The
-- machine is a parameter, and so is where the thread was placed, which threadtools.c keeps.
use sim_universal_constructi.Prelude.{
  ℕ, zero, suc, ◌+◌, ◌*◌, ◌/◌, ◌%◌, ◌==◌, Bool, true, false, not, ◌&&◌, ltb, if◌then◌else◌, Option,
  none, some, update, ℤ,
}
use sim_universal_constructi.Threads.Placement.{Machine}
use sim_universal_constructi.Combining.Cc.{Nodes, fresh_node, request, serve, unlock}

-- `synchGetPreferredCore` and `synchGetPreferredNumaNode`; `none` is -1.
pub record Placed : Type 0 where
  pub core : Option ℕ
  pub node : Option ℕ

pub record Topology : Type 0 where
  pub numa_policy : Bool
  pub numa_nodes : ℕ
  pub numa_node_size : ℕ

-- `tails`, `pools` and `node_indexes` are by NUMA node, `own` and `node_of_thread` by pid.
pub record HSynch : Type 0 where
  pub nthreads : ℕ
  pub topology : Topology
  pub tails : ℕ → Option ℕ
  pub pools : ℕ → Option ℕ
  pub node_indexes : ℕ → ℕ
  pub central_locked : Bool
  pub cells : Nodes
  pub own : ℕ → ℕ
  pub node_of_thread : ℕ → ℕ

abbrev pub hsynch_help_factor : ℕ
hsynch_help_factor = 10

abbrev pub hsynch_default_numa_policy : ℕ
hsynch_default_numa_policy = 0

-- The size of a NUMA node of the machine itself
unfoldable pub machine_topology : Machine → ℕ → Topology
machine_topology m nthreads =
    let size = nthreads / m.nodes + nthreads % m.nodes in
    record {
      numa_policy = true;
      numa_nodes = m.nodes;
      numa_node_size = if ltb size (m.ncpus / m.nodes) then m.ncpus / m.nodes else size;
    }

-- Of as many NUMA nodes as the user asks for
unfoldable pub manual_topology : ℕ → ℕ → Topology
manual_topology nthreads numa_regions = record {
  numa_policy = false;
  numa_nodes = numa_regions;
  numa_node_size =
      if nthreads % numa_regions == 0
      then nthreads / numa_regions
      else (nthreads / numa_regions) * 2;
}

unfoldable pub topology_of : Machine → ℕ → ℕ → Topology
topology_of m nthreads numa_regions =
    let regions = if ltb nthreads numa_regions then nthreads else numa_regions in
    if regions == hsynch_default_numa_policy
    then machine_topology m nthreads
    else manual_topology nthreads regions

-- `HSynchStructInit`, on memory with the contents `cells`
unfoldable pub struct_init : Machine → ℕ → ℕ → Nodes → HSynch
struct_init m nthreads numa_regions cells = record {
  nthreads = nthreads;
  topology = topology_of m nthreads numa_regions;
  tails = λ g. none;
  pools = λ g. none;
  node_indexes = λ g. 0;
  central_locked = false;
  cells = cells;
  own = λ pid. 0;
  node_of_thread = λ pid. 0;
}

-- A quotient by `actual_per_manual` or `threads_per_node`; `none` where C has the index -1.
abbrev quotient : Option ℕ → ℕ → Option ℕ
quotient none k = if k == 1 then none else some 0
quotient (some x) k = some (x / k)

-- The index that `HSynchThreadStateInit` leaves in `node_of_thread`; `none` where it is -1.
unfoldable pub node_of : Machine → Placed → HSynch → ℕ → Option ℕ
node_of m at l pid =
    if l.topology.numa_policy
    then elim (at.core) [
      | none ↦ some (l.node_of_thread pid)
      | some core ↦ elim (at.node) [
        | none ↦ some (pid / l.topology.numa_node_size)
        | some node ↦ some node
      ]
    ]
    else if (m.node_of_cpu 0 == m.node_of_cpu (m.ncpus / 2)) && ltb 1 m.ncpus
    then if not (m.nodes / l.topology.numa_nodes == 0)
      then quotient at.node (m.nodes / l.topology.numa_nodes)
      else quotient at.core (l.nthreads / l.topology.numa_nodes)
    else some (pid / l.topology.numa_node_size)

-- `last_node->next = NULL; last_node->locked = false; last_node->completed = false`
unfoldable pub last_node : Nodes → ℕ → Nodes
last_node n p = record n {
  next = update n.next p none;
  locked = update n.locked p false;
  completed = update n.completed p false;
}

-- The first thread of a NUMA node sets its pool up at address `ptr`.
unfoldable pub set_pool : HSynch → ℕ → ℕ → HSynch
set_pool l g ptr = elim (l.pools g) [
  | none ↦ record l {
    pools = update l.pools g (some ptr);
    cells = last_node l.cells (ptr + l.topology.numa_node_size + 1);
  }
  | some base ↦ l
]

-- `HSynchThreadStateInit`, for the NUMA node g of the thread and a pool at address `ptr`, if it needs one
unfoldable pub thread_state_init : HSynch → ℕ → ℕ → ℕ → HSynch
thread_state_init l g ptr pid =
    let m = set_pool l g ptr in
    let base : ℕ = elim (m.pools g) [ none ↦ ptr | some b ↦ b ] in
    let tail : ℕ = elim (m.tails g) [ none ↦ base + m.topology.numa_node_size + 1 | some t ↦ t ] in
    record m {
      node_of_thread = update m.node_of_thread pid g;
      tails = update m.tails g (some tail);
      own = update m.own pid (base + m.node_indexes g);
      node_indexes = update m.node_indexes g (m.node_indexes g + 1);
    }

-- Up to the wait; the result is `cur`, or `none` where the NUMA node has no tail.
unfoldable pub announce : HSynch → ℤ → ℕ → Option (ℕ × HSynch)
announce l arg pid = elim (l.tails (l.node_of_thread pid)) [
  | none ↦ none
  | some cur ↦ some (
    cur,
    record l {
      tails = update l.tails (l.node_of_thread pid) (some (l.own pid));
      cells = request (fresh_node l.cells (l.own pid)) cur arg pid (l.own pid);
      own = update l.own pid cur;
    },
  )
]

-- `CLHLock(l->central_lock, pid)`, which does not return while the lock is held
unfoldable pub clh_lock : HSynch → Option HSynch
clh_lock l = elim (l.central_locked) [
  | true ↦ none
  | false ↦ some (record l { central_locked = true })
]

-- `CLHUnlock(l->central_lock, pid)`
unfoldable pub clh_unlock : HSynch → HSynch
clh_unlock l = record l { central_locked = false }

module _ (S : Type 0) (sfunc : S → ℤ → ℕ → ℤ × S) where
  -- The loop of the combiner, with `left` = help_bound - counter rounds to go
  unfoldable pub combine : ℕ → ℕ → Nodes → S → ℕ × Nodes × S
  combine zero p n s = (p, n, s)
  combine (suc left) p n s = elim (n.next p) [
    | none ↦ (p, n, s)
    | some tmp_next ↦
        combine left tmp_next (serve n p (sfunc s (n.arg_ret p) (n.pid p)).0)
          (sfunc s (n.arg_ret p) (n.pid p)).1
  ]

  -- From the wait on: `none` while the thread spins, and the result otherwise.
  unfoldable pub resume : HSynch → ℕ → S → Option (ℤ × HSynch × S)
  unfolding clh_lock clh_unlock
  resume l cur s = elim (l.cells.locked cur) [
    | true ↦ none
    | false ↦ elim (l.cells.completed cur) [
      | true ↦ some (l.cells.arg_ret cur, l, s)
      | false ↦ elim (clh_lock l) [
        | none ↦ none
        | some m ↦
            let (p, n, t) = combine (hsynch_help_factor * m.nthreads) cur m.cells s in
            some (n.arg_ret cur, clh_unlock (record m { cells = unlock n p }), t)
      ]
    ]
  ]
