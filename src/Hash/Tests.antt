-- ===== src/Hash/Tests.antt =====
-- Runs of the hash tables, with cells that one thread guards.
use sim_universal_constructi.Prelude.{◌==◌, refl, none, some, [], ◌∷◌, pos, arith, if◌then◌else◌}
use sim_universal_constructi.Queues.Combiner.{alone}
use sim_universal_constructi.Hash.Serial.{ht_search}
use sim_universal_constructi.Hash.Chain.{IsBucket}
use sim_universal_constructi.Hash.Struct.{HashStruct}
use sim_universal_constructi.Hash.Clh
use sim_universal_constructi.Hash.Dsm
use sim_universal_constructi.Hash.Laws.{
  Inserts, Searches, Deletes, insert-Inserts, search-Searches, delete-Deletes,
}

-- Four cells; in cell 1 node 0, with the key 5, leads to node 1, with the key 9.
abbrev two_keys : HashStruct alone
two_keys = record {
  synch = λ i. tt;
  hash = record {
    size = 4;
    key = λ i. if i == 0 then pos 5 else pos 9;
    value = λ i. pos i;
    next = λ i. if i == 0 then some 1 else none;
    cells = λ i. if i == 1 then some 0 else none;
    announce =
        λ i. record { key = pos 0; value = pos 0; node = none; cell = pos 0; op = ht_search };
  };
}

two_keys-IsBucket : IsBucket two_keys.hash 1 (0 ∷ 1 ∷ [])
two_keys-IsBucket = record { chain = (refl, (refl, refl)); distinct = (refl, (refl, tt)) }

insert-Inserts_example :
    Inserts alone 3 13 two_keys 0
      (0 ∷ 1 ∷ [])
      2
      (pos 7)
      (Clh.insert alone 3 2 two_keys (pos 13) (pos 7) 0)
    × Inserts alone 3 13 two_keys 0
        (0 ∷ 1 ∷ [])
        2
        (pos 7)
        (Dsm.insert alone 3 2 two_keys (pos 13) (pos 7) 0)
insert-Inserts_example =
    insert-Inserts alone 3 13 two_keys 0 (0 ∷ 1 ∷ []) (λ i. tt) (omega arith) two_keys-IsBucket
      (omega arith) 2 (pos 7) refl

search-Searches_example :
    Searches alone 3 9 two_keys 0 (0 ∷ 1 ∷ []) (Clh.search alone 3 2 two_keys (pos 9) 0)
    × Searches alone 3 9 two_keys 0 (0 ∷ 1 ∷ []) (Dsm.search alone 3 two_keys (pos 9) 0)
search-Searches_example =
    search-Searches alone 3 9 two_keys 0 (0 ∷ 1 ∷ []) (λ i. tt) (omega arith) two_keys-IsBucket
      (omega arith) 2

delete-Deletes_example :
    Deletes alone 3 9 two_keys 0 (0 ∷ 1 ∷ []) (Clh.delete alone 3 2 two_keys (pos 9) 0)
    × Deletes alone 3 9 two_keys 0 (0 ∷ 1 ∷ []) (Dsm.delete alone 3 two_keys (pos 9) 0)
delete-Deletes_example =
    delete-Deletes alone 3 9 two_keys 0 (0 ∷ 1 ∷ []) (λ i. tt) (omega arith) two_keys-IsBucket
      (omega arith) 2
