-- ===== src/Hash/Laws.antt =====
-- The operations of the two hash tables, for keys from 0 on, whatever object guards the cells.
use sim_universal_constructi.Prelude.{
  ℕ, ◌%◌, ◌<◌, ◌≡◌, refl, ap, sym, ◌∙◌, Bool, true, false, Option, none, some, List, ◌∷◌, length,
  arith, update, ℤ, pos, ==_refl, ◌==◌, Bool-cases, inl, inr, ◌⊎◌, subst,
}
use sim_universal_constructi.Queues.Nodes.{has}
use sim_universal_constructi.Queues.Lifo.{From}
use sim_universal_constructi.Queues.Combiner.{Combiner}
use sim_universal_constructi.Hash.Serial.{
  Hash, HashOperations, ht_insert, ht_delete, ht_search, hash_func, index, serial_operations,
  insert_at, delete_at, search_at,
}
use sim_universal_constructi.Hash.Chain.{
  IsBucket, holds, left_by_delete, insert_lem, delete_lem, search_lem,
}
use sim_universal_constructi.Hash.Struct
use sim_universal_constructi.Hash.Struct.{HashStruct, ret_val, serial, int_min}
use sim_universal_constructi.Hash.Clh
use sim_universal_constructi.Hash.Dsm

cell-index : (n size : ℕ) → 0 < size → index size (hash_func size (pos n)) ≡ some (n % size)
unfolding index hash_func
cell-index n size h = ground arith

abbrev announced : Hash → HashOperations → ℕ → Hash
announced h args pid = record h { announce = update h.announce pid args }

announced-IsBucket :
    (h : Hash) (args : HashOperations) (pid i : ℕ) (xs : List ℕ)
    → IsBucket h i xs
    → IsBucket (announced h args pid) i xs
announced-IsBucket h args pid i xs b = record { chain = b.chain; distinct = b.distinct }

-- No thread is at work on a cell.
abbrev pub Ready : (c : Combiner) → HashStruct c → Type 0
Ready c s = (i : ℕ) → c.Ready (s.synch i)

update-Ready :
    (c : Combiner) (synch : ℕ → c.Sync) (i : ℕ) (y : c.Sync)
    → ((j : ℕ) → c.Ready (synch j))
    → c.Ready y
    → (j : ℕ) → c.Ready (update synch i y j)
update-Ready c synch i y all one j = elim (Bool-cases (i == j)) [
  | inl e ↦ rw e one
  | inr e ↦ rw e (all j)
]

abbrev perform : ℕ → Hash → HashOperations → ℕ → Option (Bool × Hash)
perform fuel h args i = elim (args.op) [
  | ht_insert ↦ insert_at fuel h args i
  | ht_delete ↦ delete_at fuel h args i
  | ht_search ↦ search_at fuel h args i
]

serial_operations-perform :
    (fuel : ℕ) (h : Hash) (pid i : ℕ)
    → index h.size (h.announce pid).cell ≡ some i
    → serial_operations fuel h pid ≡ perform fuel h (h.announce pid) i
unfolding serial_operations
serial_operations-perform fuel h pid i e = rw (e, serial_operations) refl

serial_operations-announced :
    (fuel : ℕ) (h : Hash) (args : HashOperations) (pid i : ℕ)
    → index h.size args.cell ≡ some i
    → serial_operations fuel (announced h args pid) pid ≡ perform fuel (announced h args pid) args i
serial_operations-announced fuel h args pid i e =
    let same : args ≡ update h.announce pid args pid = rw (==_refl pid) refl in
    serial_operations-perform fuel (announced h args pid) pid i
      (subst (λ (a : HashOperations). index h.size a.cell ≡ some i) same e)
    ∙ ap (λ (a : HashOperations). perform fuel (announced h args pid) a i) (sym same)

module _ (c : Combiner) (fuel : ℕ) (s : HashStruct c) (pid : ℕ) where
  apply_lem :
      (args : HashOperations) (i : ℕ) (b : Bool) (t : Hash)
      → Ready c s
      → index s.hash.size args.cell ≡ some i
      → perform fuel (announced s.hash args pid) args i ≡ some (b, t)
      → (u : HashStruct c) × (Struct.apply c fuel s args pid ≡ some (ret_val b, u))
        × Ready c u
        × (u.hash ≡ t)
  unfolding Struct.apply Struct.serial
  apply_lem args i b t ready e run =
      let h = announced s.hash args pid in
      let ran : serial fuel h (pos 0) pid ≡ some (ret_val b, t) =
        rw (serial_operations-announced fuel s.hash args pid i e ∙ run, serial) refl in
      let (y, did, again) =
        c.applies Hash (serial fuel) (s.synch i) h t (pos 0) (ret_val b) pid (ready i) ran in
      (
        record { synch = update s.synch i y; hash = t },
        rw (e, did, Struct.apply) refl,
        update-Ready c s.synch i y ready again,
        refl,
      )

module _ (c : Combiner) (fuel n : ℕ) (s : HashStruct c) (pid : ℕ) (xs : List ℕ) where
  abbrev cell : ℕ
  cell = n % s.hash.size

  abbrev pub Inserts : ℕ → ℤ → Option (Bool × HashStruct c) → Type 0
  Inserts node v out =
      (u : HashStruct c) × (out ≡ some (true, u))
      × Ready c u
      × ((holds s.hash.key (pos n) xs ≡ true)
            × (u.hash.value ≡ s.hash.value)
            × IsBucket u.hash cell xs
          ⊎ (holds s.hash.key (pos n) xs ≡ false)
            × (u.hash.value node ≡ v)
            × (u.hash.key node ≡ pos n)
            × IsBucket u.hash cell (node ∷ xs))

  abbrev pub Searches : Option (ℤ × HashStruct c) → Type 0
  Searches out =
      (u : HashStruct c) × (out ≡ some (ret_val (holds s.hash.key (pos n) xs), u))
      × Ready c u
      × (u.hash.key ≡ s.hash.key)
      × IsBucket u.hash cell xs

  abbrev pub Deletes : Option (HashStruct c) → Type 0
  Deletes out =
      (u : HashStruct c) × (out ≡ some u)
      × Ready c u
      × (u.hash.key ≡ s.hash.key)
      × From u.hash.next (u.hash.cells cell) (left_by_delete s.hash.key (pos n) xs)

  module _ (ready : Ready c s) (size : 0 < s.hash.size) (b : IsBucket s.hash cell xs)
      (enough : length xs < fuel) where
    insert_both :
        (node : ℕ) (v : ℤ)
        → has node xs ≡ false
        → Inserts node v (Struct.insert c fuel node s (pos n) v pid)
    unfolding Struct.insert
    insert_both node v fresh =
        let args : HashOperations = record {
          key = pos n;
          value = v;
          node = some node;
          cell = hash_func s.hash.size (pos n);
          op = ht_insert;
        } in
        let at = cell-index n s.hash.size size in
        let (t, run, did) =
          insert_lem fuel (announced s.hash args pid) args node cell xs
            (announced-IsBucket s.hash args pid cell xs b) enough refl fresh in
        let (u, ran, again, same) = apply_lem c fuel s pid args cell true t ready at run in
        (
          u,
          rw (ran, Struct.insert) refl,
          again,
          elim did [
            | inl (e, eq) ↦ inl (
              e,
              ap (λ (h : Hash). h.value) (same ∙ eq),
              rw (same ∙ eq) (announced-IsBucket s.hash args pid cell xs b),
            )
            | inr (e, bucket, keys, values) ↦ inr (
              e,
              rw (same, values, ==_refl node) refl,
              rw (same, keys, ==_refl node) refl,
              rw same bucket,
            )
          ],
        )

    search_both : (node : Option ℕ) → Searches (Struct.search c fuel node s (pos n) pid)
    unfolding Struct.search
    search_both node =
        let args : HashOperations = record {
          key = pos n;
          value = int_min;
          node = node;
          cell = hash_func s.hash.size (pos n);
          op = ht_search;
        } in
        let at = cell-index n s.hash.size size in
        let b' = announced-IsBucket s.hash args pid cell xs b in
        let run = search_lem fuel (announced s.hash args pid) args cell xs b' enough in
        let (u, ran, again, same) =
          apply_lem c fuel s pid args cell (holds s.hash.key (pos n) xs) (announced s.hash args pid)
            ready at run in
        (u, ran, again, ap (λ (h : Hash). h.key) same, rw same b')

    delete_both : (node : Option ℕ) → Deletes (Struct.delete c fuel node s (pos n) pid)
    unfolding Struct.delete
    delete_both node =
        let args : HashOperations = record {
          key = pos n;
          value = int_min;
          node = node;
          cell = hash_func s.hash.size (pos n);
          op = ht_delete;
        } in
        let at = cell-index n s.hash.size size in
        let b' = announced-IsBucket s.hash args pid cell xs b in
        let (t, run, keys, chain) =
          delete_lem fuel (announced s.hash args pid) args cell xs b' enough in
        let (u, ran, again, same) =
          apply_lem c fuel s pid args cell (holds s.hash.key (pos n) xs) t ready at run in
        (u, rw (ran, Struct.delete) refl, again, rw same keys, rw same chain)

module _ (c : Combiner) (fuel n : ℕ) (s : HashStruct c) (pid : ℕ) (xs : List ℕ) (ready : Ready c s)
    (size : 0 < s.hash.size) (b : IsBucket s.hash (n % s.hash.size) xs)
    (enough : length xs < fuel) where
  -- While no thread is at work on a cell, an insertion of the key n, from 0 on, in a table with at least one cell, with fuel for one
  -- round more than its bucket has nodes, and with a node that is not in the bucket, returns true.
  -- It leaves a bucket that holds the key as it is, with the values that it had; to another one it
  -- adds the new node, with the key and the value, in front.
  pub insert-Inserts :
      (node : ℕ) (v : ℤ)
      → has node xs ≡ false
      → Inserts c fuel n s pid xs node v (Clh.insert c fuel node s (pos n) v pid)
        × Inserts c fuel n s pid xs node v (Dsm.insert c fuel node s (pos n) v pid)
  unfolding Clh.insert Dsm.insert
  insert-Inserts node v fresh =
      let e = insert_both c fuel n s pid xs ready size b enough node v fresh in (e, e)

  -- While no thread is at work on a cell, a search for the key n, from 0 on, in a table with at least one cell, with fuel for one round
  -- more than its bucket has nodes, returns whether a node of the bucket holds it, and leaves the
  -- bucket as it is.
  pub search-Searches :
      (node : ℕ)
      → Searches c fuel n s pid xs (Clh.search c fuel node s (pos n) pid)
        × Searches c fuel n s pid xs (Dsm.search c fuel s (pos n) pid)
  unfolding Clh.search Dsm.search
  search-Searches node = (
    search_both c fuel n s pid xs ready size b enough (some node),
    search_both c fuel n s pid xs ready size b enough none,
  )

  -- While no thread is at work on a cell, a deletion of the key n, from 0 on, in a table with at least one cell, with fuel for one round
  -- more than its bucket has nodes, returns. It takes the first node that holds the key from the
  -- bucket; when that is the second node, the first one goes too.
  pub delete-Deletes :
      (node : ℕ)
      → Deletes c fuel n s pid xs (Clh.delete c fuel node s (pos n) pid)
        × Deletes c fuel n s pid xs (Dsm.delete c fuel s (pos n) pid)
  unfolding Clh.delete Dsm.delete
  delete-Deletes node = (
    delete_both c fuel n s pid xs ready size b enough (some node),
    delete_both c fuel n s pid xs ready size b enough none,
  )
