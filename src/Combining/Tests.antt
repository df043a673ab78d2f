-- ===== src/Combining/Tests.antt =====
-- Runs of the combining objects, with an object that counts the operations.
use sim_universal_constructi.Prelude.{
  ℕ, ◌+◌, ◌==◌, ◌≡◌, refl, true, false, none, some, [], ◌∷◌, ◌++◌, ℤ, pos, arith, if◌then◌else◌,
}
use sim_universal_constructi.Queues.Nodes.{end_of}
use sim_universal_constructi.Combining.Cc.{Nodes, CcSynch, resume, announce}
use sim_universal_constructi.Combining.Serves
use sim_universal_constructi.Combining.Serves.{Results, Same, resume_serves}
use sim_universal_constructi.Combining.Solo.{Pending, Idle, announce-Pending}
use sim_universal_constructi.Combining.Dsm.{DsmSynch, work}
use sim_universal_constructi.Combining.Flat.{Fc, combine_flat}
use sim_universal_constructi.Combining.FlatServes.{Served, combine_flat_serves}
use sim_universal_constructi.Combining.DsmServes
use sim_universal_constructi.Combining.DsmServes.{work_serves}

abbrev counter : ℕ → ℤ → ℕ → ℤ × ℕ
counter s arg pid = (pos s, s + 1)

-- Node 0 leads to node 1.
abbrev pair : Nodes
pair = record {
  next = λ i. if i == 0 then some 1 else none;
  arg_ret = λ i. pos i;
  pid = λ i. i;
  locked = λ i. false;
  completed = λ i. false;
}

abbrev two_waiting : CcSynch
two_waiting = record { nthreads = 2; tail = 1; nodes = pair; own = λ i. i + 2 }

resume_serves_example :
    (l' : CcSynch) × (t : ℕ) × (resume ℕ counter two_waiting 0 5 ≡ some (l'.nodes.arg_ret 0, l', t))
    × Serves.HandsOver ℕ counter two_waiting 0 (1 ∷ []) 5 (0 ∷ []) 1 7 l' t
resume_serves_example =
    resume_serves ℕ counter two_waiting 0 (1 ∷ []) 5 7 (refl, refl) (refl, (refl, tt)) refl refl
      refl refl

abbrev no_one : CcSynch
no_one = record { nthreads = 2; tail = 1; nodes = pair; own = λ i. i + 2 }

no_one-Idle : Idle no_one
no_one-Idle = record {
  threads = omega arith;
  end = refl;
  free = refl;
  fresh = refl;
  apart = λ i. ground arith;
  own = λ i j ne. ground arith;
}

announce-Pending_example :
    Pending (announce two_waiting (pos 9) 0).1 0 ((1 ∷ []) ++ 2 ∷ [])
    × ((announce two_waiting (pos 9) 0).0 ≡ end_of 0 (1 ∷ []))
    × ((announce two_waiting (pos 9) 0).1.nodes.arg_ret (end_of 0 (1 ∷ [])) ≡ pos 9)
    × ((announce two_waiting (pos 9) 0).1.nodes.pid (end_of 0 (1 ∷ [])) ≡ 0)
    × ((announce two_waiting (pos 9) 0).1.nodes.locked 2 ≡ true)
    × ((announce two_waiting (pos 9) 0).1.nodes.completed 2 ≡ false)
announce-Pending_example =
    announce-Pending two_waiting 0 (1 ∷ []) (pos 9) 0
      (record { chain = (refl, refl); distinct = (refl, (refl, tt)); tail = refl }) refl

abbrev dsm_waiting : DsmSynch
dsm_waiting = record {
  nthreads = 2;
  tail = some 1;
  nodes = pair;
  toggle = λ i. false;
  my_nodes = λ i b. i;
}

work_serves_example :
    (m : DsmSynch) × (t : ℕ) × (work ℕ counter dsm_waiting 0 5 ≡ (0, m, t))
    × Results ℕ counter (0 ∷ []) pair 5 (m.nodes, t)
    × Same pair m.nodes 7
    × (m.tail ≡ some 1)
    × DsmServes.HandsOver dsm_waiting m 0 (some 1)
work_serves_example =
    work_serves ℕ counter dsm_waiting 0 (1 ∷ []) 5 7 (refl, refl) (refl, (refl, tt)) refl

-- The requests 0 and 1 stand on the list, and request 1 is pending.
abbrev flat_waiting : Fc
flat_waiting = record {
  lock = true;
  count = 0;
  head = some 0;
  requests = record {
    next = λ i. if i == 0 then some 1 else none;
    val = λ i. pos i;
    pending = λ i. i == 1;
    active = λ i. true;
    age = λ i. 0;
  };
  node = λ i. i;
}

combine_flat_serves_example :
    (l' : Fc) × (t : ℕ) × (combine_flat ℕ counter 3 flat_waiting 5 1
      ≡ some (l'.requests.val 1, l', t))
    × Served ℕ counter 1 (0 ∷ 1 ∷ []) flat_waiting.requests 5 l'.requests t
    × (l'.lock ≡ false)
    × (l'.head ≡ some 0)
combine_flat_serves_example =
    combine_flat_serves ℕ counter 1 3 flat_waiting (0 ∷ 1 ∷ []) 5 (refl, (refl, refl))
      (refl, (refl, tt)) refl (omega arith)
