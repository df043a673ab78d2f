-- ===== src/Hash/Struct.antt =====
-- The hash table with a combining object for each cell, and the operations that clhhash.c and dsmhash.c
-- have in common.
--
-- In clhhash.c the object of a cell is a CLH lock: the thread that holds it runs the serial code itself,
-- which is what `Combiner` asks for.
use sim_universal_constructi.Prelude.{
  ℕ, Bool, true, false, Option, none, some, update, ℤ, pos, negsuc, eq_ℤ, ◌-◌, ◌^◌,
}
use sim_universal_constructi.Queues.Combiner.{Combiner, Serial}
use sim_universal_constructi.Hash.Serial.{
  Hash, HashOperations, ht_insert, ht_delete, ht_search, hash_func, index, serial_operations,
}

-- INT_MIN
abbrev pub int_min : ℤ
int_min = negsuc (2 ^ 31 - 1)

-- A truth value, as a RetVal
abbrev pub ret_val : Bool → ℤ
ret_val true = pos 1
ret_val false = pos 0

-- The serial code as the combining objects call it
unfoldable pub serial : ℕ → Serial Hash
serial fuel h dummy_arg pid = elim (serial_operations fuel h pid) [
  | none ↦ none
  | some (b, t) ↦ some (ret_val b, t)
]

pub record HashStruct (c : Combiner) : Type 0 where
  pub synch : ℕ → c.Sync
  pub hash : Hash

module _ (c : Combiner) where
  unfoldable pub struct_init : ℕ → ℕ → Hash → HashStruct c
  struct_init num_cells nthreads h = record {
    synch = λ i. c.struct_init nthreads;
    hash = record h { size = num_cells; cells = λ i. none };
  }

  -- `hash->announce[pid] = args`, and the serial code under the object of the cell
  unfoldable pub apply : ℕ → HashStruct c → HashOperations → ℕ → Option (ℤ × HashStruct c)
  apply fuel s args pid = elim (index s.hash.size args.cell) [
    | none ↦ none
    | some i ↦
        elim (c.apply_op Hash (serial fuel) (s.synch i)
          (record s.hash { announce = update s.hash.announce pid args }) (pos 0) pid) [
            | none ↦ none
            | some (r, y, h) ↦ some (r, record { synch = update s.synch i y; hash = h })
          ]
  ]

  unfoldable pub insert : ℕ → ℕ → HashStruct c → ℤ → ℤ → ℕ → Option (Bool × HashStruct c)
  insert fuel node s key value pid =
      let args : HashOperations = record {
        key = key;
        value = value;
        node = some node;
        cell = hash_func s.hash.size key;
        op = ht_insert;
      } in
      elim (apply fuel s args pid) [
        | none ↦ none
        | some (r, t) ↦ some (elim (eq_ℤ r (pos 0)) [ true ↦ false | false ↦ true ], t)
      ]

  unfoldable pub search : ℕ → Option ℕ → HashStruct c → ℤ → ℕ → Option (ℤ × HashStruct c)
  search fuel node s key pid =
      apply fuel s
        (record {
          key = key;
          value = int_min;
          node = node;
          cell = hash_func s.hash.size key;
          op = ht_search;
        })
        pid

  unfoldable pub delete : ℕ → Option ℕ → HashStruct c → ℤ → ℕ → Option (HashStruct c)
  delete fuel node s key pid =
      elim (apply fuel s
        (record {
          key = key;
          value = int_min;
          node = node;
          cell = hash_func s.hash.size key;
          op = ht_delete;
        })
        pid) [ none ↦ none | some (r, t) ↦ some t ]
