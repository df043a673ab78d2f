-- ===== src/Hash/Clh.antt =====
-- libconcurrent/concurrent/clhhash.c: the CLH-Hash, with a CLH lock for each cell.
--
-- A search and a deletion allocate a node too, which they leave unused.
use sim_universal_constructi.Prelude.{ℕ, Bool, Option, some, ℤ}
use sim_universal_constructi.Queues.Combiner.{Combiner, Serial}
use sim_universal_constructi.Hash.Serial
use sim_universal_constructi.Hash.Serial.{Hash}
use sim_universal_constructi.Hash.Struct
use sim_universal_constructi.Hash.Struct.{HashStruct}

unfoldable pub hash_func : ℕ → ℤ → ℤ
hash_func = Serial.hash_func

unfoldable pub serial_operations : ℕ → Serial Hash
serial_operations = Struct.serial

module _ (c : Combiner) where
  unfoldable pub struct_init : ℕ → ℕ → Hash → HashStruct c
  struct_init = Struct.struct_init c

  unfoldable pub insert : ℕ → ℕ → HashStruct c → ℤ → ℤ → ℕ → Option (Bool × HashStruct c)
  insert = Struct.insert c

  unfoldable pub search : ℕ → ℕ → HashStruct c → ℤ → ℕ → Option (ℤ × HashStruct c)
  search fuel node = Struct.search c fuel (some node)

  unfoldable pub delete : ℕ → ℕ → HashStruct c → ℤ → ℕ → Option (HashStruct c)
  delete fuel node = Struct.delete c fuel (some node)
