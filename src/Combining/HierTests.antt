-- ===== src/Combining/HierTests.antt =====
-- The topology of H-Synch, on a machine of two NUMA nodes.
use sim_universal_constructi.Prelude.{◌/◌, ◌<◌, arith}
use sim_universal_constructi.Threads.Placement.{Machine}
use sim_universal_constructi.Combining.Hier.{topology_of}
use sim_universal_constructi.Combining.HierTopology.{topology_fits}

abbrev two_nodes : Machine
two_nodes = record { ncpus = 8; nodes = 2; node_of_cpu = λ i. i / 4 }

topology_fits_example :
    4 / (topology_of two_nodes 5 3).numa_node_size < (topology_of two_nodes 5 3).numa_nodes
topology_fits_example = topology_fits two_nodes 5 3 4 (omega arith) (omega arith)
