-- ===== src/Combining/Oyama.antt =====
-- libconcurrent/concurrent/oyama.c: the combining object of Oyama. Its nodes stand at addresses, `none` is
-- NULL, and the lock is free when `lock` is false.
--
-- `OyamaApplyOp` has two parts, which a wait separates: `announce` runs up to the compare-and-swap that puts
-- the node on the list, in the round in which it succeeds, and `resume` from there on, with the section
-- under the lock as one step. The serial function of the source has no state argument; its effect on global
-- state is a value of S here.
use sim_universal_constructi.Prelude.{
  ℕ, zero, suc, ◌*◌, Bool, true, false, ltb, if◌then◌else◌, Option, none, some, update, ℤ,
}

pub record Nodes : Type 0 where
  pub next : ℕ → Option ℕ
  pub arg_ret : ℕ → ℤ
  pub pid : ℕ → ℕ
  pub completed : ℕ → Bool

pub record Oyama : Type 0 where
  pub lock : Bool
  pub tail : Option ℕ
  pub nthreads : ℕ
  pub nodes : Nodes

abbrev pub oyama_help_factor : ℕ
oyama_help_factor = 10

-- `OyamaInit`
unfoldable pub oyama_init : ℕ → Nodes → Oyama
oyama_init nthreads n = record { lock = false; tail = none; nthreads = nthreads; nodes = n }

-- The fields of `mynode`, `next` as in the last round of the loop, and the node as the new tail
unfoldable pub announce : Oyama → ℕ → ℤ → ℕ → Oyama
announce l mynode arg pid = record l {
  tail = some mynode;
  nodes = record {
    next = update l.nodes.next mynode l.tail;
    arg_ret = update l.nodes.arg_ret mynode arg;
    pid = update l.nodes.pid mynode pid;
    completed = update l.nodes.completed mynode false;
  };
}

-- `p->arg_ret = ret; p->completed = true`
unfoldable pub answer : Nodes → ℕ → ℤ → Nodes
answer n p ret = record n {
  arg_ret = update n.arg_ret p ret;
  completed = update n.completed p true;
}

module _ (S : Type 0) (sfunc : S → ℤ → ℕ → ℤ × S) where
  -- The inner loop, on fuel: the counter, the nodes and the state that it leaves
  unfoldable pub help : ℕ → Option ℕ → ℕ → Nodes → S → Option (ℕ × Nodes × S)
  help fuel none counter n s = some (counter, n, s)
  help zero (some p) counter n s = none
  help (suc fuel) (some p) counter n s =
      let (ret, t) = sfunc s (n.arg_ret p) (n.pid p) in
      help fuel (n.next p) (suc counter) (answer n p ret) t

  -- The outer loop, on fuel, with `inner` for each run of the inner one
  unfoldable pub rounds : ℕ → ℕ → ℕ → Oyama → S → Option (Oyama × S)
  rounds zero inner counter l s = none
  rounds (suc fuel) inner counter l s = elim (ltb counter (oyama_help_factor * l.nthreads)) [
    | false ↦ some (l, s)
    | true ↦ elim (l.tail) [
      | none ↦ some (l, s)
      | some p ↦ elim (help inner (some p) counter l.nodes s) [
        | none ↦ none
        | some (c, n, t) ↦ rounds fuel inner c (record l { tail = none; nodes = n }) t
      ]
    ]
  ]

  -- From the announcement on: `none` while the thread waits, or without fuel, and the result otherwise
  unfoldable pub resume : ℕ → ℕ → Oyama → ℕ → S → Option (ℤ × Oyama × S)
  resume fuel inner l mynode s = elim (l.lock) [
    | true ↦ if l.nodes.completed mynode then some (l.nodes.arg_ret mynode, l, s) else none
    | false ↦ elim (rounds fuel inner 0 (record l { lock = true }) s) [
      | none ↦ none
      | some (m, t) ↦ some (m.nodes.arg_ret mynode, record m { lock = false }, t)
    ]
  ]
