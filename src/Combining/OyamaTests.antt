-- ===== src/Combining/OyamaTests.antt =====
-- Runs of Oyama's object, with an object that counts the operations.
use sim_universal_constructi.Prelude.{
  ℕ, ◌+◌, ◌==◌, ◌≡◌, refl, false, none, some, [], ◌∷◌, ℤ, pos, arith, if◌then◌else◌,
}
use sim_universal_constructi.Combining.Oyama.{Oyama, resume}
use sim_universal_constructi.Combining.OyamaServes.{Outcome, oyama_serves}

abbrev counter : ℕ → ℤ → ℕ → ℤ × ℕ
counter s arg pid = (pos s, s + 1)

-- Node 1 was announced after node 0.
abbrev two : Oyama
two = record {
  lock = false;
  tail = some 1;
  nthreads = 2;
  nodes = record {
    next = λ i. if i == 1 then some 0 else none;
    arg_ret = λ i. pos i;
    pid = λ i. i;
    completed = λ i. false;
  };
}

oyama_serves_example :
    (m : Oyama) × (t : ℕ) × (resume ℕ counter 2 2 two 0 5 ≡ some (m.nodes.arg_ret 0, m, t))
    × Outcome ℕ counter (1 ∷ 0 ∷ []) two.nodes 5 m.nodes t
    × (m.tail ≡ none)
    × (m.lock ≡ false)
oyama_serves_example =
    oyama_serves ℕ counter two 0 (1 ∷ 0 ∷ []) 5 0 2 refl (omega arith) (refl, (refl, refl))
      (refl, (refl, tt)) (omega arith)
