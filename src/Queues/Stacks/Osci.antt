-- ===== src/Queues/Stacks/Osci.antt =====
-- libconcurrent/concurrent/oscistack.c: the Osci-Stack, under one Osci object.
use sim_universal_constructi.Prelude.{ℕ, Option, ℤ}
use sim_universal_constructi.Queues.Nodes.{Heap}
use sim_universal_constructi.Queues.Combiner.{Combiner, Serial}
use sim_universal_constructi.Queues.SerialStack
use sim_universal_constructi.Queues.SerialStack.{Stack, StackStruct}

unfoldable pub serial_push_pop : ℕ → ℤ → Serial Stack
serial_push_pop = SerialStack.serial_push_pop

module _ (c : Combiner) where
  unfoldable pub struct_init : ℕ → Heap → StackStruct c
  struct_init = SerialStack.struct_init c

  unfoldable pub apply_push : ℕ → StackStruct c → ℤ → ℕ → Option (StackStruct c)
  apply_push = SerialStack.apply_push c

  unfoldable pub apply_pop : ℤ → StackStruct c → ℕ → Option (ℤ × StackStruct c)
  apply_pop = SerialStack.apply_pop c
