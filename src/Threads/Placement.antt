-- ===== src/Threads/Placement.antt =====
-- The thread placement policies, built with SYNCH_NUMA_SUPPORT as config.h has it.
--
-- The machine is a parameter: the number of cores (`sysconf`), the number of NUMA nodes
-- (`numa_num_task_nodes`) and the node of each core (`numa_node_of_cpu`). All values are `uint32_t`.
use sim_universal_constructi.Prelude.{
  ℕ, ◌+◌, ◌-◌, ◌*◌, ◌/◌, ◌%◌, ◌^◌, Bool, ltb, ◌==◌, if◌then◌else◌,
}

pub record Machine : Type 0 where
  pub ncpus : ℕ
  pub nodes : ℕ
  pub node_of_cpu : ℕ → ℕ

abbrev pub flat : ℕ
flat = 0x1

abbrev pub numa_sparse : ℕ
numa_sparse = 0x2

abbrev pub numa_dense : ℕ
numa_dense = 0x3

abbrev pub numa_sparse_smt_prefer : ℕ
numa_sparse_smt_prefer = 0x4

abbrev pub numa_dense_smt_prefer : ℕ
numa_dense_smt_prefer = 0x5

abbrev pub policy_max : ℕ
policy_max = numa_dense_smt_prefer

abbrev pub default_policy : ℕ
default_policy = numa_sparse_smt_prefer

-- The policy that `synchSetThreadPlacementPolicy` stores, which `synchGetThreadPlacementPolicy` reads.
unfoldable pub set_policy : ℕ → ℕ
set_policy policy = if ltb policy_max policy then policy_max else policy

abbrev pub u32 : ℕ → ℕ
u32 x = x % 2 ^ 32

-- The test for simultaneous multithreading.
abbrev pub smt : Machine → Bool
smt m = m.node_of_cpu 0 == m.node_of_cpu (m.ncpus / 2)

abbrev pub node_size : Machine → ℕ
node_size m = m.ncpus / m.nodes

abbrev pub half_node_size : Machine → ℕ
half_node_size m = node_size m / 2

-- Round the nodes, one core of each node in turn.
abbrev pub round_robin : Machine → ℕ → ℕ
round_robin m pid = u32 (pid / m.nodes + u32 (pid % m.nodes * node_size m))

-- The same over the first hardware threads of all cores, then over the second ones.
abbrev pub sparse_core : Machine → ℕ → ℕ
sparse_core m pid =
    let upper = ltb pid (m.ncpus / 2) in
    let half_cpu_id = if upper then pid else pid - m.ncpus / 2 in
    let offset : ℕ = if upper then 0 else m.ncpus / 2 in
    u32 (u32 (u32 (half_cpu_id % m.nodes * half_node_size m) + half_cpu_id / m.nodes) + offset)

abbrev pub sparse_smt_core : Machine → ℕ → ℕ
sparse_smt_core m pid = u32 (u32 (pid % node_size m * half_node_size m) + pid / u32 (2 * m.nodes))

abbrev pub chosen_core : Machine → ℕ → ℕ → ℕ
chosen_core m policy pid =
    if policy == flat
    then pid
    else if policy == numa_sparse
    then if smt m then sparse_core m pid else round_robin m pid
    else if policy == numa_sparse_smt_prefer
    then if smt m then sparse_smt_core m pid else round_robin m pid
    else if policy == numa_dense
    then pid
    else round_robin m pid

-- `synchPreferredCoreOfThread`
unfoldable pub preferred_core : Machine → ℕ → ℕ → ℕ
preferred_core m policy pid = chosen_core m policy pid % m.ncpus

-- `synchPreferredNumaNodeOfThread`
unfoldable pub preferred_node : Machine → ℕ → ℕ → ℕ
preferred_node m policy pid =
    let core = preferred_core m policy pid in
    if smt m
    then if ltb core (m.ncpus / 2)
      then core / half_node_size m
      else (core - m.ncpus / 2) / half_node_size m
    else core / node_size m
