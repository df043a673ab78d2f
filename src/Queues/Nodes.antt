-- ===== src/Queues/Nodes.antt =====
-- includes/queue-stack.h: nodes at addresses, and the chains that they form.
use sim_universal_constructi.Prelude.{
  ℕ, ◌-◌, ◌^◌, ◌≡◌, refl, ap, sym, ◌∙◌, Bool, true, false, ◌||◌, Option, none, some, List, [], ◌∷◌,
  ◌++◌, arith, ◌==◌, update, ℤ, pos, negsuc, ==_refl, Bool-cases, inl, inr,
}

-- LONG_MIN, and what the objects return
abbrev pub guard_value : ℤ
guard_value = negsuc (2 ^ 63 - 1)

abbrev pub empty_queue : ℤ
empty_queue = negsuc (2 ^ 63 - 2)

abbrev pub empty_stack : ℤ
empty_stack = negsuc (2 ^ 63 - 2)

abbrev pub success : ℤ
success = pos 0

-- INT_MIN, the argument that stands for a pop
abbrev pub pop_op : ℤ
pop_op = negsuc (2 ^ 31 - 1)

abbrev pub fail : ℤ
fail = negsuc 0

-- The fields of the nodes, by address; `none` is NULL.
pub record Heap : Type 0 where
  pub val : ℕ → ℤ
  pub next : ℕ → Option ℕ

-- `p->next = q`
abbrev pub set_next : Heap → ℕ → Option ℕ → Heap
set_next h p q = record h { next = update h.next p q }

-- `p->val = v; p->next = q`
abbrev pub set_node : Heap → ℕ → ℤ → Option ℕ → Heap
set_node h p v q = record { val = update h.val p v; next = update h.next p q }

-- `synchRecycleObj(&pool_node, p)`: the object's `next` is the first word of the node, its `val`, and
-- `word` is what is stored there, the head of the thread's recycle list.
abbrev pub set_word : Heap → ℕ → ℤ → Heap
set_word h p word = record h { val = update h.val p word }

-- From node p the links lead through the nodes xs to NULL.
abbrev pub Linked : (ℕ → Option ℕ) → ℕ → List ℕ → Type 0
Linked next p [] = next p ≡ none
Linked next p (x ∷ xs) = (next p ≡ some x) × Linked next x xs

abbrev pub has : ℕ → List ℕ → Bool
has a [] = false
has a (x ∷ xs) = (a == x) || has a xs

abbrev pub Distinct : List ℕ → Type 0
Distinct [] = Unit
Distinct (x ∷ xs) = (has x xs ≡ false) × Distinct xs

-- the last of the nodes p, xs
abbrev pub end_of : ℕ → List ℕ → ℕ
end_of p [] = p
end_of p (x ∷ xs) = end_of x xs

-- A change to nodes outside a chain leaves the chain.
pub Linked-frame :
    (next next' : ℕ → Option ℕ) (p : ℕ) (xs : List ℕ)
    → ((a : ℕ) → has a (p ∷ xs) ≡ true → next' a ≡ next a)
    → Linked next p xs
    → Linked next' p xs
Linked-frame next next' p [] same l = same p (ground (arith, ==_refl p)) ∙ l
Linked-frame next next' p (x ∷ xs) same l = (
  same p (ground (arith, ==_refl p)) ∙ l.0,
  Linked-frame next next' x xs (λ a h. same a (ground arith)) l.1,
)

pub has-end_of : (p : ℕ) (xs : List ℕ) → has (end_of p xs) (p ∷ xs) ≡ true
has-end_of p [] = ground (arith, ==_refl p)
has-end_of p (x ∷ xs) = ground (arith, has-end_of x xs)

-- Linking a new last node behind the end of a chain.
pub Linked-append :
    (next : ℕ → Option ℕ) (p node : ℕ) (xs : List ℕ)
    → Linked next p xs
    → Distinct (p ∷ xs)
    → has node (p ∷ xs) ≡ false
    → Linked (update (update next node none) (end_of p xs) (some node)) p (xs ++ node ∷ [])
Linked-append next p node [] l d fresh = (ground (arith, ==_refl p), ground (arith, ==_refl node))
Linked-append next p node (x ∷ xs) l d fresh =
    (ground (arith, has-end_of x xs, l.0), Linked-append next x node xs l.1 d.1 (ground arith))

-- A test tells two numbers apart.
pub ne_by : (f : ℕ → Bool) (n a : ℕ) → f a ≡ true → f n ≡ false → (n == a) ≡ false
ne_by f n a t u = elim (Bool-cases (n == a)) [
  | inr e ↦ e
  | inl e ↦ let same : n ≡ a = ground arith in cc (sym u ∙ ap f same ∙ t)
]

-- A node outside a list is none of its nodes.
pub ne_of_has :
    (node a : ℕ) (xs : List ℕ) → has node xs ≡ false → has a xs ≡ true → (node == a) ≡ false
ne_of_has node a xs out h = elim (Bool-cases (node == a)) [
  | inr e ↦ e
  | inl e ↦ let same : node ≡ a = ground arith in cc (sym out ∙ ap (λ (b : ℕ). has b xs) same ∙ h)
]

pub has-snoc : (a node : ℕ) (xs : List ℕ) → has a (xs ++ node ∷ []) ≡ (has a xs || (a == node))
has-snoc a node [] = ground arith
has-snoc a node (x ∷ xs) = ground (arith, has-snoc a node xs)

pub Distinct-append :
    (p node : ℕ) (xs : List ℕ)
    → Distinct (p ∷ xs)
    → has node (p ∷ xs) ≡ false
    → Distinct (p ∷ xs ++ node ∷ [])
Distinct-append p node [] d fresh = (ground arith, (refl, tt))
Distinct-append p node (x ∷ xs) d fresh =
    (ground (arith, has-snoc p node xs), Distinct-append x node xs d.1 (ground arith))

pub Distinct-snoc :
    (node : ℕ) (xs : List ℕ) → Distinct xs → has node xs ≡ false → Distinct (xs ++ node ∷ [])
Distinct-snoc node [] d fresh = (refl, tt)
Distinct-snoc node (x ∷ xs) d fresh = Distinct-append x node xs d fresh
