-- ===== src/Combining/HierTopology.antt =====
-- The NUMA nodes of H-Synch are enough for its threads.
use native.Mathlib.Nat.{mod-lt, div-add-mod, div-lt_iff_lt-mul}
use sim_universal_constructi.Prelude.{
  ℕ, zero, suc, ◌+◌, ◌-◌, ◌*◌, ap, ◌/◌, ◌%◌, ◌≤◌, ◌<◌, ◌==◌, ◌≡◌, false, arith, ltb, if◌then◌else◌,
  Bool-cases, inl, inr,
}
use sim_universal_constructi.Threads.Placement.{Machine}
use sim_universal_constructi.Combining.Hier.{
  hsynch_default_numa_policy, machine_topology, manual_topology, topology_of,
}

-- A thread below n has a node below k, when k nodes of the size hold n threads.
node_lt : (n k size pid : ℕ) → pid < n → n ≤ k * size → 0 < size → pid / size < k
node_lt n k size pid lt fits pos = (div-lt_iff_lt-mul pos).1 (omega (arith, lt, fits))

fits : (k q r n size : ℕ) → 0 < k → k * q + r ≡ n → q + r ≤ size → n ≤ k * size
fits zero q r n size pos sum le = absurd (omega arith)
fits (suc k) q r n size pos sum le =
    let more : size ≡ q + r + (size - (q + r)) = omega (arith, le) in
    let d = size - (q + r) in
    let wide : suc k * size ≡ suc k * (q + r + d) = ap (λ (x : ℕ). suc k * x) more in
    let split : suc k * (q + r + d) ≡ suc k * q + (r + k * r) + suc k * d = grind arith in
    omega (arith, wide, split, sum)

some_size : (k q r n pid : ℕ) → k * q + r ≡ n → pid < n → 0 < q + r
some_size k zero r n pid sum lt = grind arith
some_size k (suc q) r n pid sum lt = omega arith

some_quotient : (k q r n : ℕ) → k * q + r ≡ n → r < k → k ≤ n → 0 < q
some_quotient k zero r n sum lt le = absurd (grind arith)
some_quotient k (suc q) r n sum lt le = omega arith

twice : (k q r n : ℕ) → k * q + r ≡ n → r < k → 0 < q → n ≤ k * (q * 2)
twice k q r n sum lt one = grind arith

machine_fits :
    (m : Machine) (n pid : ℕ)
    → 0 < m.nodes
    → pid < n
    → pid / (machine_topology m n).numa_node_size < (machine_topology m n).numa_nodes
unfolding machine_topology
machine_fits m n pid pos lt =
    let q = n / m.nodes in
    let r = n % m.nodes in
    let sum : m.nodes * q + r ≡ n = div-add-mod n m.nodes in
    elim (Bool-cases (ltb (q + r) (m.ncpus / m.nodes))) [
      | inl e ↦ rw e (
          node_lt n m.nodes (m.ncpus / m.nodes) pid lt
            (fits m.nodes q r n (m.ncpus / m.nodes) pos sum (ground (arith, e)))
            (ground (arith, e)))
      | inr e ↦ rw e (
          node_lt n m.nodes (q + r) pid lt (fits m.nodes q r n (q + r) pos sum (omega arith))
            (some_size m.nodes q r n pid sum lt))
    ]

manual_fits :
    (n k pid : ℕ)
    → 0 < k
    → k ≤ n
    → pid < n
    → pid / (manual_topology n k).numa_node_size < (manual_topology n k).numa_nodes
unfolding manual_topology
manual_fits n k pid pos le lt =
    let q = n / k in
    let r = n % k in
    let sum : k * q + r ≡ n = div-add-mod n k in
    let one : 0 < q = some_quotient k q r n sum (mod-lt n pos) le in
    elim (Bool-cases (r == 0)) [
      | inl e ↦ rw e (node_lt n k q pid lt (ground (arith, sum, e)) one)
      | inr e ↦
          rw e
            (node_lt n k (q * 2) pid lt (twice k q r n sum (mod-lt n pos) one) (omega (arith, one)))
    ]

by_regions :
    (m : Machine) (n k pid : ℕ)
    → 0 < m.nodes
    → pid < n
    → k ≤ n
    → pid
        / (if k == hsynch_default_numa_policy
            then machine_topology m n
            else manual_topology n k).numa_node_size
      < (if k == hsynch_default_numa_policy
          then machine_topology m n
          else manual_topology n k).numa_nodes
by_regions m n zero pid pos lt le = machine_fits m n pid pos lt
by_regions m n (suc k) pid pos lt le =
    let some_regions : (suc k == hsynch_default_numa_policy) ≡ false = ground arith in
    rw some_regions (manual_fits n (suc k) pid (omega arith) le lt)

-- On a machine with at least one NUMA node, and however many the user asks for, the quotient of a thread's id by
-- the size of a node, which `HSynchThreadStateInit` takes for its NUMA node, is the index of one.
pub topology_fits :
    (m : Machine) (n regions pid : ℕ)
    → 0 < m.nodes
    → pid < n
    → pid / (topology_of m n regions).numa_node_size < (topology_of m n regions).numa_nodes
unfolding topology_of
topology_fits m n regions pid pos lt =
    by_regions m n (if ltb n regions then n else regions) pid pos lt (ground arith)
