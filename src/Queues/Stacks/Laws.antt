-- ===== src/Queues/Stacks/Laws.antt =====
-- The stacks of ccstack.c, dsmstack.c, hstack.c and oscistack.c are last-in first-out, whatever
-- combining object runs them: the object is a parameter, for which Combining.Instance has CC-Synch.
use sim_universal_constructi.Prelude.{ℕ, ◌≡◌, ◌≢◌, false, Option, some, List, ℤ}
use sim_universal_constructi.Queues.Nodes.{has, pop_op}
use sim_universal_constructi.Queues.Combiner.{Combiner}
use sim_universal_constructi.Queues.SerialStack.{StackStruct}
use sim_universal_constructi.Queues.Lifo.{IsStack, Pushed, Popped, apply_push_lem, apply_pop_lem}
use sim_universal_constructi.Queues.Stacks.Cc
use sim_universal_constructi.Queues.Stacks.Dsm
use sim_universal_constructi.Queues.Stacks.Hier
use sim_universal_constructi.Queues.Stacks.Osci

module _ (c : Combiner) (s : StackStruct c) (xs : List ℕ) (pid : ℕ) where
  abbrev pub Pushes : ℕ → ℤ → (ℕ → StackStruct c → ℤ → ℕ → Option (StackStruct c)) → Type 0
  Pushes node v op =
      (t : StackStruct c) × (op node s v pid ≡ some t)
      × c.Ready t.object_struct
      × Pushed node v s.stack xs t.stack

  abbrev pub Pops : ℤ → (ℤ → StackStruct c → ℕ → Option (ℤ × StackStruct c)) → Type 0
  Pops word op =
      (r : ℤ) × (t : StackStruct c) × (op word s pid ≡ some (r, t))
      × c.Ready t.object_struct
      × Popped s.stack xs r t.stack

  -- While no thread is at work on the stack, each of the four push operations, of a value other than INT_MIN at a node that is not in the
  -- stack, returns, puts the value on top of the contents, and leaves no thread at work.
  pub apply_push-Pushes :
      (node : ℕ) (v : ℤ)
      → c.Ready s.object_struct
      → IsStack s.stack xs
      → has node xs ≡ false
      → v ≢ pop_op
      → Pushes node v (Cc.apply_push c)
        × Pushes node v (Dsm.apply_push c)
        × Pushes node v (Hier.apply_push c)
        × Pushes node v (Osci.apply_push c)
  unfolding Cc.apply_push Dsm.apply_push Hier.apply_push Osci.apply_push
  apply_push-Pushes node v ready i fresh ne =
      let p = apply_push_lem c s pid xs ready i node v fresh ne in (p, p, p, p)

  -- While no thread is at work on the stack, each of the four pop operations returns, whatever word the recycling stores in the node. It takes the top value off the contents; on an empty
  -- stack it returns EMPTY_STACK and changes nothing of the stack. No
  -- thread is left at work.
  pub apply_pop-Pops :
      (word : ℤ)
      → c.Ready s.object_struct
      → IsStack s.stack xs
      → Pops word (Cc.apply_pop c)
        × Pops word (Dsm.apply_pop c)
        × Pops word (Hier.apply_pop c)
        × Pops word (Osci.apply_pop c)
  unfolding Cc.apply_pop Dsm.apply_pop Hier.apply_pop Osci.apply_pop
  apply_pop-Pops word ready i = let p = apply_pop_lem c s pid xs ready i word in (p, p, p, p)
