-- ===== src/Queues/Files/Hier.antt =====
-- libconcurrent/concurrent/hqueue.c: the H-Queue, under two H-Synch objects.
use sim_universal_constructi.Prelude.{ℕ, Option, ℤ}
use sim_universal_constructi.Queues.Nodes.{Heap}
use sim_universal_constructi.Queues.Combiner.{Combiner, Serial}
use sim_universal_constructi.Queues.Serial.{Queue}
use sim_universal_constructi.Queues.Struct
use sim_universal_constructi.Queues.Struct.{QueueStruct}

unfoldable pub serial_enqueue : ℕ → Serial Queue
serial_enqueue = Struct.serial_enqueue

unfoldable pub serial_dequeue : ℕ → ℤ → Serial Queue
serial_dequeue = Struct.serial_dequeue

module _ (c : Combiner) where
  unfoldable pub struct_init : ℕ → Heap → ℕ → QueueStruct c
  struct_init = Struct.struct_init c

  unfoldable pub apply_enqueue : ℕ → QueueStruct c → ℤ → ℕ → Option (QueueStruct c)
  apply_enqueue = Struct.apply_enqueue c

  unfoldable pub apply_dequeue : ℕ → ℤ → QueueStruct c → ℤ → ℕ → Option (ℤ × QueueStruct c)
  apply_dequeue = Struct.apply_dequeue c
