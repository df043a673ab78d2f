-- ===== src/Threads/Tests.antt =====
-- Runs of the placement and the start.
use sim_universal_constructi.Prelude.{
  ◌*◌, ◌/◌, ◌%◌, ◌^◌, ◌<◌, ◌≡◌, ◌≢◌, refl, inl, arith, if◌then◌else◌, ltb,
}
use sim_universal_constructi.Threads.Placement.{
  Machine, numa_sparse, numa_sparse_smt_prefer, preferred_core, preferred_node,
}
use sim_universal_constructi.Threads.Spread.{Regular, sparse_spreads, sparse_smt_prefer_idle}
use sim_universal_constructi.Threads.Start.{start_threads}
use sim_universal_constructi.Threads.StartIds.{times, start_threads_ids}

-- Two nodes of four cores, each core with one thread.
abbrev plain : Machine
plain = record { ncpus = 8; nodes = 2; node_of_cpu = λ c. c / 4 }

plain-Regular : Regular plain 4
plain-Regular = record {
  nodes_pos = omega arith;
  size_pos = omega arith;
  cores = refl;
  small = omega arith;
}

-- Four nodes of two cores, where core 0 and core 4 are two threads of one core.
abbrev paired : Machine
paired = record { ncpus = 8; nodes = 4; node_of_cpu = λ c. c % 4 }

paired-Regular : Regular paired (2 * 1)
paired-Regular = record {
  nodes_pos = omega arith;
  size_pos = omega arith;
  cores = refl;
  small = omega arith;
}

sparse_spreads_example :
    (preferred_node plain numa_sparse 3 ≡ 3 % plain.nodes)
    × (preferred_core plain numa_sparse 3 ≢ preferred_core plain numa_sparse 5)
sparse_spreads_example =
    sparse_spreads {m = plain} {size = 4} plain-Regular numa_sparse 3 5 refl (inl refl)
      (omega arith) (omega arith) (λ e. omega arith)

sparse_smt_prefer_idle_example :
    (preferred_core paired numa_sparse_smt_prefer 7 < 2 * 1 * 1) × (2 * 1 * 1 < paired.ncpus)
sparse_smt_prefer_idle_example =
    sparse_smt_prefer_idle paired 1 7 paired-Regular refl (omega arith) (omega arith)

start_threads_ids_example :
    times 3 (start_threads 8 6 2).ids
    ≡ (if ltb 3 ((if ltb 0 3 then 3 else 2 ^ 32) * 2) then 1 else 0)
start_threads_ids_example = start_threads_ids 8 6 2 3 (omega arith)
