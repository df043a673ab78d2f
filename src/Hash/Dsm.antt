-- ===== src/Hash/Dsm.antt =====
-- libconcurrent/concurrent/dsmhash.c: the DSM-Hash, with a DSM-Synch object for each cell.
use sim_universal_constructi.Prelude.{ℕ, Bool, Option, none, ℤ}
use sim_universal_constructi.Queues.Combiner.{Combiner, Serial}
use sim_universal_constructi.Hash.Serial
use sim_universal_constructi.Hash.Serial.{Hash}
use sim_universal_constructi.Hash.Struct
use sim_universal_constructi.Hash.Struct.{HashStruct}

unfoldable pub hash_func : ℕ → ℤ → ℤ
hash_func = Serial.hash_func

unfoldable pub serial_operations : ℕ → Serial Hash
serial_operations = Struct.serial

module _ (c : Combiner) where
  unfoldable pub struct_init : ℕ → ℕ → Hash → HashStruct c
  struct_init = Struct.struct_init c

  unfoldable pub insert : ℕ → ℕ → HashStruct c → ℤ → ℤ → ℕ → Option (Bool × HashStruct c)
  insert = Struct.insert c

  unfoldable pub search : ℕ → HashStruct c → ℤ → ℕ → Option (ℤ × HashStruct c)
  search fuel = Struct.search c fuel none

  unfoldable pub delete : ℕ → HashStruct c → ℤ → ℕ → Option (HashStruct c)
  delete fuel = Struct.delete c fuel none
