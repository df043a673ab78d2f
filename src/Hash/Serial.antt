-- ===== src/Hash/Serial.antt =====
-- The serial code that clhhash.c and dsmhash.c share. Nodes stand at addresses, `none` is NULL.
--
-- The loops over a bucket are on fuel. Besides a lack of fuel, `none` stands for an access through NULL
-- and for a cell outside the table, which are undefined behaviour in the source.
use sim_universal_constructi.Prelude.{
  ℕ, zero, suc, ◌%◌, ◌==◌, Bool, true, false, Option, none, some, update, ℤ, pos, negsuc, eq_ℤ, ltb,
}

pub data Op : Type 0 where
  ht_insert : Op
  ht_delete : Op
  ht_search : Op

pub record HashOperations : Type 0 where
  pub key : ℤ
  pub value : ℤ
  pub node : Option ℕ
  pub cell : ℤ
  pub op : Op

-- `key`, `value` and `next` are the fields of the nodes, by address.
pub record Hash : Type 0 where
  pub size : ℕ
  pub key : ℕ → ℤ
  pub value : ℕ → ℤ
  pub next : ℕ → Option ℕ
  pub cells : ℕ → Option ℕ
  pub announce : ℕ → HashOperations

-- `key % hash->size`, which takes the sign of the key
unfoldable pub hash_func : ℕ → ℤ → ℤ
hash_func size (pos n) = pos (n % size)
hash_func size (negsuc n) = elim (suc n % size) [ zero ↦ pos 0 | suc r ↦ negsuc r ]

-- `cells[cell]`, inside the table
unfoldable pub index : ℕ → ℤ → Option ℕ
index size (pos i) = elim (ltb i size) [ true ↦ some i | false ↦ none ]
index size (negsuc i) = none

-- The loop of an insertion and of a search: is a node with the key reached from `cur`?
unfoldable pub find : ℕ → Hash → ℤ → Option ℕ → Option Bool
find zero h k cur = none
find (suc fuel) h k none = some false
find (suc fuel) h k (some c) = elim (eq_ℤ (h.key c) k) [
  | true ↦ some true
  | false ↦ find fuel h k (h.next c)
]

-- The loop of a deletion, in a bucket that starts at `top`: `cur`, NULL when the key is not found, and
-- `prev`.
unfoldable pub walk : ℕ → Hash → ℤ → ℕ → Option ℕ → ℕ → Option (Option ℕ × ℕ)
walk zero h k top cur prev = none
walk (suc fuel) h k top none prev = some (none, prev)
walk (suc fuel) h k top (some c) prev = elim (eq_ℤ (h.key c) k) [
  | true ↦ some (some c, prev)
  | false ↦ elim (c == top) [
    | true ↦ walk fuel h k top (h.next c) prev
    | false ↦ elim (h.next prev) [ none ↦ none | some p ↦ walk fuel h k top (h.next c) p ]
  ]
]

unfoldable pub insert_at : ℕ → Hash → HashOperations → ℕ → Option (Bool × Hash)
insert_at fuel h arg i = elim (find fuel h arg.key (h.cells i)) [
  | none ↦ none
  | some true ↦ some (true, h)
  | some false ↦ elim (arg.node) [
    | none ↦ none
    | some node ↦ some (
      true,
      record h {
        key = update h.key node arg.key;
        value = update h.value node arg.value;
        next = update h.next node (h.cells i);
        cells = update h.cells i (some node);
      },
    )
  ]
]

unfoldable pub delete_at : ℕ → Hash → HashOperations → ℕ → Option (Bool × Hash)
delete_at fuel h arg i = elim (h.cells i) [
  | none ↦ some (false, h)
  | some top ↦ elim (walk fuel h arg.key top (some top) top) [
    | none ↦ none
    | some (none, prev) ↦ some (false, h)
    | some (some cur, prev) ↦ elim (top == prev) [
      | true ↦ some (true, record h { cells = update h.cells i (h.next cur) })
      | false ↦ some (true, record h { next = update h.next prev (h.next cur) })
    ]
  ]
]

unfoldable pub search_at : ℕ → Hash → HashOperations → ℕ → Option (Bool × Hash)
search_at fuel h arg i = elim (find fuel h arg.key (h.cells i)) [
  | none ↦ none
  | some found ↦ some (found, h)
]

-- `serialOperations`, for the request that thread pid has announced
unfoldable pub serial_operations : ℕ → Hash → ℕ → Option (Bool × Hash)
serial_operations fuel h pid = elim (index h.size (h.announce pid).cell) [
  | none ↦ none
  | some i ↦ elim ((h.announce pid).op) [
    | ht_insert ↦ insert_at fuel h (h.announce pid) i
    | ht_delete ↦ delete_at fuel h (h.announce pid) i
    | ht_search ↦ search_at fuel h (h.announce pid) i
  ]
]
