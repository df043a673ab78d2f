-- ===== src/Threads/Spread.antt =====
-- What the placement policies do to the threads.
use sim_universal_constructi.Prelude.{
  ℕ, ◌+◌, ◌*◌, ◌/◌, ◌%◌, ◌^◌, ◌≤◌, ◌<◌, ◌≡◌, ◌≢◌, true, false, arith, ap, sym, ◌∙◌, ◌⊎◌, inl, inr,
}
use native.Mathlib.Nat.{
  mod-eq_of_lt, mod-lt, div-add-mod, mul-le-mul_right, div-lt_iff_lt-mul, mul_comm,
  add-mul-div_right, div-eq_of_lt, mul-div_cancel_left,
}
use sim_universal_constructi.Threads.Placement.{
  Machine, smt, node_size, numa_sparse, numa_sparse_smt_prefer, preferred_core, preferred_node,
  round_robin,
}

-- A machine of `nodes` nodes with `size` cores each.
pub record Regular (m : Machine) (size : ℕ) : Type 0 where
  pub nodes_pos : 0 < m.nodes
  pub size_pos : 0 < size
  pub cores : m.ncpus ≡ m.nodes * size
  pub small : m.ncpus < 2 ^ 31

-- Whatever the policy, the preferred core exists.
pub preferred_core-lt :
    (m : Machine) (policy pid : ℕ) → 0 < m.ncpus → preferred_core m policy pid < m.ncpus
unfolding preferred_core
preferred_core-lt m policy pid h = mod-lt _ h

-- pid = turn * nodes + node, with turn below the size of a node.
turn-lt : (nodes size pid : ℕ) → 0 < nodes → pid < nodes * size → pid / nodes < size
turn-lt nodes size pid pos lt = (div-lt_iff_lt-mul pos).1 (omega (arith, mul_comm nodes size))

place-lt : (nodes size node t : ℕ) → node < nodes → t < size → t + node * size < nodes * size
place-lt nodes size node t h k = grind arith

place-node : (size node t : ℕ) → t < size → (t + node * size) / size ≡ node
place-node size node t h =
    omega (arith, add-mul-div_right t node {z = size} (omega arith), div-eq_of_lt h)

same_place :
    (nodes size p q : ℕ)
    → p / nodes < size
    → q / nodes < size
    → p / nodes + p % nodes * size ≡ q / nodes + q % nodes * size
    → p ≡ q
same_place nodes size p q h k e =
    let node : p % nodes ≡ q % nodes =
      sym (place-node size (p % nodes) (p / nodes) h)
      ∙ ap (λ (c : ℕ). c / size) e
      ∙ place-node size (q % nodes) (q / nodes) k in
    let turn : p / nodes ≡ q / nodes = omega (arith, ap (λ (n : ℕ). n * size) node) in
    omega (arith, div-add-mod p nodes, div-add-mod q nodes, ap (λ (t : ℕ). nodes * t) turn)

module _ {m : Machine} {size : ℕ} (r : Regular m size) where
  size_lem : node_size m ≡ size
  size_lem = rw r.cores (mul-div_cancel_left size r.nodes_pos)

  -- Thread `pid` of at most as many threads as cores, by the round robin of nodes.
  turn : (pid : ℕ) → pid < m.ncpus → round_robin m pid ≡ pid / m.nodes + pid % m.nodes * size
  turn pid lt =
      let below : pid / m.nodes + pid % m.nodes * size < m.nodes * size =
        place-lt m.nodes size (pid % m.nodes) (pid / m.nodes) (mod-lt pid r.nodes_pos)
          (turn-lt m.nodes size pid r.nodes_pos (omega (arith, r.cores))) in
      rw
        (
          size_lem,
          mod-eq_of_lt {n = pid % m.nodes * size} {m = 2 ^ 32} (omega (arith, r.cores, r.small)),
        )
        (mod-eq_of_lt (omega (arith, r.cores, r.small)))

  abbrev RoundRobin : ℕ → Type 0
  RoundRobin policy = (policy ≡ numa_sparse) ⊎ (policy ≡ numa_sparse_smt_prefer)

  sparse_place :
      (policy pid : ℕ)
      → smt m ≡ false
      → RoundRobin policy
      → pid < m.ncpus
      → preferred_core m policy pid ≡ pid / m.nodes + pid % m.nodes * size
  unfolding preferred_core
  sparse_place policy pid flat_machine which lt =
      let below : pid / m.nodes + pid % m.nodes * size < m.ncpus = omega (
        arith,
        r.cores,
        place-lt m.nodes size (pid % m.nodes) (pid / m.nodes) (mod-lt pid r.nodes_pos)
            (turn-lt m.nodes size pid r.nodes_pos (omega (arith, r.cores))),
      ) in
      elim which [
        | inl e ↦ rw (e, flat_machine, turn pid lt) (mod-eq_of_lt below)
        | inr e ↦ rw (e, flat_machine, turn pid lt) (mod-eq_of_lt below)
      ]

  -- On a machine without SMT whose nodes have equally many cores, the policies NUMA_SPARSE and
  -- NUMA_SPARSE_SMT_PREFER send thread `pid` (of no more threads than cores) to node `pid % nodes`, and
  -- two threads to different cores.
  pub sparse_spreads :
      (policy pid other : ℕ)
      → smt m ≡ false
      → RoundRobin policy
      → pid < m.ncpus
      → other < m.ncpus
      → pid ≢ other
      → (preferred_node m policy pid ≡ pid % m.nodes)
        × (preferred_core m policy pid ≢ preferred_core m policy other)
  unfolding preferred_node
  sparse_spreads policy pid other flat_machine which lt lt' ne =
      let t = turn-lt m.nodes size pid r.nodes_pos (omega (arith, r.cores)) in
      let t' = turn-lt m.nodes size other r.nodes_pos (omega (arith, r.cores)) in
      let core = sparse_place policy pid flat_machine which lt in
      let core' = sparse_place policy other flat_machine which lt' in
      (
        rw (flat_machine, core, size_lem) (place-node size (pid % m.nodes) (pid / m.nodes) t),
        λ same. ne (same_place m.nodes size pid other t t' (sym core ∙ same ∙ core')),
      )

idle-lt : (half x y : ℕ) → x < 2 * half → y < half → x * half + y < 2 * half * half
idle-lt half x y h k = omega (arith, mul-le-mul_right half h)

idle-room : (half nodes : ℕ) → 0 < 2 * half → half < nodes → 2 * half * half < nodes * (2 * half)
idle-room half nodes h k = grind arith

nodes-le : (half nodes : ℕ) → 0 < 2 * half → nodes ≤ nodes * (2 * half)
nodes-le half nodes h = grind arith

half_turn : (half nodes pid : ℕ) → 0 < nodes → pid < nodes * (2 * half) → pid / (2 * nodes) < half
half_turn half nodes pid pos lt = turn-lt (2 * nodes) half pid (omega arith) (grind arith)

-- With SMT and more nodes than half the cores of a node, the default policy never uses the cores from
-- `2 * half * half` on, although the machine has them and no more threads than cores are started.
pub sparse_smt_prefer_idle :
    (m : Machine) (half pid : ℕ)
    → Regular m (2 * half)
    → smt m ≡ true
    → half < m.nodes
    → pid < m.ncpus
    → (preferred_core m numa_sparse_smt_prefer pid < 2 * half * half) × (2 * half * half < m.ncpus)
unfolding preferred_core
sparse_smt_prefer_idle m half pid r is_smt few lt =
    let room = idle-room half m.nodes r.size_pos few in
    let fits = nodes-le half m.nodes r.size_pos in
    let size : node_size m ≡ 2 * half = size_lem r in
    let halved : 2 * half / 2 ≡ half = omega arith in
    let double : 2 * m.nodes % 2 ^ 32 ≡ 2 * m.nodes =
      mod-eq_of_lt (omega (arith, r.cores, r.small)) in
    let core =
      idle-lt half (pid % (2 * half)) (pid / (2 * m.nodes)) (mod-lt pid r.size_pos)
        (half_turn half m.nodes pid r.nodes_pos (omega (arith, r.cores))) in
    let inner : pid % (2 * half) * half % 2 ^ 32 ≡ pid % (2 * half) * half =
      mod-eq_of_lt (omega (arith, r.cores, r.small)) in
    (
      rw
          (
            is_smt,
            size,
            halved,
            double,
            inner,
            mod-eq_of_lt {n = pid % (2 * half) * half + pid / (2 * m.nodes)} {m = 2 ^ 32}
                (omega (arith, r.cores, r.small)),
            mod-eq_of_lt {n = pid % (2 * half) * half + pid / (2 * m.nodes)} {m = m.ncpus}
                (omega (arith, r.cores)),
          )
          core,
      omega (arith, r.cores),
    )
