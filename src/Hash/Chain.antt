-- ===== src/Hash/Chain.antt =====
-- What the serial code does to the chain of nodes of one bucket.
use sim_universal_constructi.Prelude.{
  ℕ, zero, suc, ◌<◌, ◌≡◌, refl, Bool, true, false, ◌||◌, Option, none, some, List, [], ◌∷◌, length,
  arith, ◌==◌, if◌then◌else◌, update, ℤ, eq_ℤ, ==_refl, Bool-cases, inl, inr, ◌⊎◌,
}
use sim_universal_constructi.Queues.Nodes.{Linked, has, Distinct, ne_of_has, Linked-frame}
use sim_universal_constructi.Queues.Lifo.{From, From-frame}
use sim_universal_constructi.Hash.Serial.{
  Hash, HashOperations, find, walk, insert_at, delete_at, search_at,
}

-- Does one of the nodes hold the key?
abbrev pub holds : (ℕ → ℤ) → ℤ → List ℕ → Bool
holds key k [] = false
holds key k (x ∷ xs) = eq_ℤ (key x) k || holds key k xs

-- The nodes without the first one that holds the key.
abbrev pub without : (ℕ → ℤ) → ℤ → List ℕ → List ℕ
without key k [] = []
without key k (x ∷ xs) = if eq_ℤ (key x) k then xs else x ∷ without key k xs

pub find_lem :
    (fuel : ℕ) (h : Hash) (k : ℤ) (cur : Option ℕ) (xs : List ℕ)
    → From h.next cur xs
    → length xs < fuel
    → find fuel h k cur ≡ some (holds h.key k xs)
unfolding find
find_lem zero h k cur xs f lt = absurd (omega arith)
find_lem (suc fuel) h k cur [] f lt = rw f refl
find_lem (suc fuel) h k cur (x ∷ xs) f lt = elim (Bool-cases (eq_ℤ (h.key x) k)) [
  | inl e ↦ ground (arith, f.0)
  | inr e ↦ ground (arith, f.0, find_lem fuel h k (h.next x) xs f.1 (omega arith))
]

abbrev Missed : ℕ → Hash → ℤ → ℕ → ℕ → List ℕ → Type 0
Missed fuel h k top prev xs =
    (q : ℕ) × (walk fuel h k top (h.next prev) prev ≡ some (none, q)) × (holds h.key k xs ≡ false)

abbrev Found : ℕ → Hash → ℤ → ℕ → ℕ → List ℕ → Type 0
Found fuel h k top prev xs =
    (c : ℕ) × (q : ℕ) × (walk fuel h k top (h.next prev) prev ≡ some (some c, q))
    × (holds h.key k xs ≡ true)
    × Linked (update h.next q (h.next c)) prev (without h.key k xs)
    × (has q (prev ∷ xs) ≡ true)

Linked-skip :
    (next : ℕ → Option ℕ) (prev x : ℕ) (xs : List ℕ)
    → Linked next x xs
    → has prev (x ∷ xs) ≡ false
    → Linked (update next prev (next x)) prev xs
Linked-skip next prev x [] l out = ground (arith, l, ==_refl prev)
Linked-skip next prev x (y ∷ ys) l out = (
  ground (arith, l.0, ==_refl prev),
  Linked-frame next (update next prev (next x)) y ys
      (λ a m. ground (arith, ne_of_has prev a (y ∷ ys) (ground arith) m)) l.1,
)

-- The loop of a deletion behind the second node: `cur` follows `prev`, which is not `top`. It ends at
-- the node that holds the key and the node before it, or at NULL.
walk_lem :
    (fuel : ℕ) (h : Hash) (k : ℤ) (top prev : ℕ) (xs : List ℕ)
    → Linked h.next prev xs
    → Distinct (prev ∷ xs)
    → has top xs ≡ false
    → length xs < fuel
    → Missed fuel h k top prev xs ⊎ Found fuel h k top prev xs
unfolding walk
walk_lem zero h k top prev xs l d out lt = absurd (omega arith)
walk_lem (suc fuel) h k top prev [] l d out lt = inl (prev, ground (arith, l), refl)
walk_lem (suc fuel) h k top prev (x ∷ xs) l d out lt = elim (Bool-cases (eq_ℤ (h.key x) k)) [
  | inl e ↦ inr (
    x,
    prev,
    ground (arith, l.0, e),
    ground (arith, e),
    rw e (Linked-skip h.next prev x xs l.1 d.0),
    ground (arith, ==_refl prev),
  )
  | inr e ↦
      let apart : (x == top) ≡ false = ground arith in
      elim (walk_lem fuel h k top x xs l.1 d.1 (ground arith) (omega arith)) [
        | inl (q, run, miss) ↦ inl (q, ground (arith, l.0, e, apart, run), ground (arith, e, miss))
        | inr (c, q, run, held, link, hq) ↦ inr (
          c,
          q,
          ground (arith, l.0, e, apart, run),
          ground (arith, e, held),
          rw e (ground (arith, l.0, ne_of_has prev q (x ∷ xs) d.0 hq), link),
          ground (arith, hq),
        )
      ]
]

From→Linked : (next : ℕ → Option ℕ) (p : ℕ) (xs : List ℕ) → From next (next p) xs → Linked next p xs
From→Linked next p [] f = f
From→Linked next p (x ∷ xs) f = (f.0, From→Linked next x xs f.1)

Linked→From : (next : ℕ → Option ℕ) (p : ℕ) (xs : List ℕ) → Linked next p xs → From next (next p) xs
Linked→From next p [] l = l
Linked→From next p (x ∷ xs) l = (l.0, Linked→From next x xs l.1)

without-missed :
    (key : ℕ → ℤ) (k : ℤ) (xs : List ℕ) → holds key k xs ≡ false → without key k xs ≡ xs
without-missed key k [] h = refl
without-missed key k (x ∷ xs) h = ground (arith, without-missed key k xs (ground arith))

-- What a deletion leaves of a bucket: without the first node that holds the key, but when that is the
-- second node, the first one goes too.
abbrev pub left_by_delete : (ℕ → ℤ) → ℤ → List ℕ → List ℕ
left_by_delete key k [] = []
left_by_delete key k (x ∷ []) = without key k (x ∷ [])
left_by_delete key k (x ∷ y ∷ ys) =
    if eq_ℤ (key x) k then y ∷ ys else (if eq_ℤ (key y) k then ys else x ∷ y ∷ without key k ys)

pub record IsBucket (h : Hash) (i : ℕ) (xs : List ℕ) : Type 0 where
  pub chain : From h.next (h.cells i) xs
  pub distinct : Distinct xs

abbrev Deleted : ℕ → Hash → HashOperations → ℕ → List ℕ → Type 0
Deleted fuel h arg i xs =
    (t : Hash) × (delete_at fuel h arg i ≡ some (holds h.key arg.key xs, t))
    × (t.key ≡ h.key)
    × From t.next (t.cells i) (left_by_delete h.key arg.key xs)

-- A bucket of two nodes or more.
delete_second :
    (fuel : ℕ) (h : Hash) (arg : HashOperations) (i x y : ℕ) (ys : List ℕ)
    → IsBucket h i (x ∷ y ∷ ys)
    → length ys < suc fuel
    → Deleted (suc (suc (suc fuel))) h arg i (x ∷ y ∷ ys)
unfolding delete_at walk
delete_second fuel h arg i x y ys b lt =
    let tail = From→Linked h.next y ys b.chain.1.1 in
    let apart : (y == x) ≡ false = ground (arith, b.distinct.0) in
    elim (Bool-cases (eq_ℤ (h.key x) arg.key)) [
      | inl e ↦ (
        record h { cells = update h.cells i (h.next x) },
        ground (arith, b.chain.0, e, ==_refl x),
        refl,
        rw (e, ==_refl i) (b.chain.1),
      )
      | inr e ↦ elim (Bool-cases (eq_ℤ (h.key y) arg.key)) [
        | inl e' ↦ (
          record h { cells = update h.cells i (h.next y) },
          ground (arith, b.chain.0, b.chain.1.0, e, e', ==_refl x),
          refl,
          rw (e, e', ==_refl i) (b.chain.1.1),
        )
        | inr e' ↦
            elim (walk_lem (suc fuel) h arg.key x y ys tail b.distinct.1
              (ground (arith, b.distinct.0)) lt) [
                | inl (q, run, miss) ↦ (
                  h,
                  ground (arith, b.chain.0, b.chain.1.0, e, e', apart, ==_refl x, run, miss),
                  refl,
                  rw (e, e', without-missed h.key arg.key ys miss) b.chain,
                )
                | inr (c, q, run, held, link, hq) ↦
                    let ne = ne_of_has x q (y ∷ ys) b.distinct.0 hq in
                    (
                      record h { next = update h.next q (h.next c) },
                      ground
                          (arith, b.chain.0, b.chain.1.0, e, e', apart, ==_refl x, run, held, ne),
                      refl,
                      rw (e, e')
                          (b.chain.0, (ground (arith, b.chain.1.0, ne), Linked→From _ y _ link)),
                    )
              ]
      ]
    ]

-- A deletion returns whether a node of the bucket holds the key. It leaves the keys of the nodes
-- alone, and the bucket has the nodes that `left_by_delete` says.
pub delete_lem :
    (fuel : ℕ) (h : Hash) (arg : HashOperations) (i : ℕ) (xs : List ℕ)
    → IsBucket h i xs
    → length xs < fuel
    → (t : Hash) × (delete_at fuel h arg i ≡ some (holds h.key arg.key xs, t))
      × (t.key ≡ h.key)
      × From t.next (t.cells i) (left_by_delete h.key arg.key xs)
unfolding delete_at walk
delete_lem fuel h arg i [] b lt = (h, ground (arith, b.chain), refl, b.chain)
delete_lem zero h arg i (x ∷ xs) b lt = absurd (omega arith)
delete_lem (suc zero) h arg i (x ∷ xs) b lt = absurd (omega arith)
delete_lem (suc (suc fuel)) h arg i (x ∷ []) b lt = elim (Bool-cases (eq_ℤ (h.key x) arg.key)) [
  | inl e ↦ (
    record h { cells = update h.cells i (h.next x) },
    ground (arith, b.chain.0, e, ==_refl x),
    refl,
    rw (e, ==_refl i) (b.chain.1),
  )
  | inr e ↦ (h, ground (arith, b.chain.0, b.chain.1, e, ==_refl x), refl, rw e b.chain)
]
delete_lem (suc (suc zero)) h arg i (x ∷ y ∷ ys) b lt = absurd (omega arith)
delete_lem (suc (suc (suc fuel))) h arg i (x ∷ y ∷ ys) b lt =
    delete_second fuel h arg i x y ys b (omega arith)

From-insert :
    (next : ℕ → Option ℕ) (top : Option ℕ) (node : ℕ) (xs : List ℕ)
    → From next top xs
    → has node xs ≡ false
    → From (update next node top) (some node) (node ∷ xs)
From-insert next top node xs f fresh = (
  refl,
  rw (==_refl node) (
      From-frame next (update next node top) top xs
        (λ a h. ground (arith, ne_of_has node a xs fresh h)) f),
)

-- An insertion returns true. It leaves a bucket that holds the key as it is, with the value that it
-- had; to another one it adds the new node, with the key and the value, in front.
abbrev pub Inserted : ℕ → Hash → HashOperations → ℕ → ℕ → List ℕ → Type 0
Inserted fuel h arg node i xs =
    (t : Hash) × (insert_at fuel h arg i ≡ some (true, t))
    × ((holds h.key arg.key xs ≡ true) × (t ≡ h)
        ⊎ (holds h.key arg.key xs ≡ false)
          × IsBucket t i (node ∷ xs)
          × (t.key ≡ update h.key node arg.key)
          × (t.value ≡ update h.value node arg.value))

pub insert_lem :
    (fuel : ℕ) (h : Hash) (arg : HashOperations) (node i : ℕ) (xs : List ℕ)
    → IsBucket h i xs
    → length xs < fuel
    → arg.node ≡ some node
    → has node xs ≡ false
    → Inserted fuel h arg node i xs
unfolding insert_at
insert_lem fuel h arg node i xs b lt new fresh =
    let run = find_lem fuel h arg.key (h.cells i) xs b.chain lt in
    elim (Bool-cases (holds h.key arg.key xs)) [
      | inl e ↦ (h, ground (arith, run, e), inl (e, refl))
      | inr e ↦ (
        record h {
          key = update h.key node arg.key;
          value = update h.value node arg.value;
          next = update h.next node (h.cells i);
          cells = update h.cells i (some node);
        },
        ground (arith, run, e, new),
        inr (
          e,
          record {
            chain = rw (==_refl i) (From-insert h.next (h.cells i) node xs b.chain fresh);
            distinct = (fresh, b.distinct);
          },
          refl,
          refl,
        ),
      )
    ]

pub search_lem :
    (fuel : ℕ) (h : Hash) (arg : HashOperations) (i : ℕ) (xs : List ℕ)
    → IsBucket h i xs
    → length xs < fuel
    → search_at fuel h arg i ≡ some (holds h.key arg.key xs, h)
unfolding search_at
search_lem fuel h arg i xs b lt =
    rw (find_lem fuel h arg.key (h.cells i) xs b.chain lt, search_at) refl
