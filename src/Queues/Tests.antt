-- ===== src/Queues/Tests.antt =====
-- Runs of the queues and stacks, under the combining object of one thread.
use sim_universal_constructi.Prelude.{
  ◌==◌, ◌≡◌, refl, none, some, [], ◌∷◌, ◌++◌, ℤ, pos, arith, if◌then◌else◌, update,
}
use sim_universal_constructi.Queues.Nodes.{Heap, guard_value}
use sim_universal_constructi.Queues.Combiner.{alone}
use sim_universal_constructi.Queues.Fifo.{IsQueue}
use sim_universal_constructi.Queues.Struct.{QueueStruct, Ready}
use sim_universal_constructi.Queues.SerialStack.{StackStruct}
use sim_universal_constructi.Queues.Lifo.{IsStack}
use sim_universal_constructi.Queues.Files.Cc
use sim_universal_constructi.Queues.Files.Dsm
use sim_universal_constructi.Queues.Files.Hier
use sim_universal_constructi.Queues.Files.Osci
use sim_universal_constructi.Queues.Files.Laws.{
  Enqueues, Dequeues, apply_enqueue-Enqueues, apply_dequeue-Dequeues,
}
use sim_universal_constructi.Queues.Stacks.Cc as CcStack
use sim_universal_constructi.Queues.Stacks.Dsm as DsmStack
use sim_universal_constructi.Queues.Stacks.Hier as HierStack
use sim_universal_constructi.Queues.Stacks.Osci as OsciStack
use sim_universal_constructi.Queues.Stacks.Laws.{Pushes, Pops, apply_push-Pushes, apply_pop-Pops}
use sim_universal_constructi.Queues.Flat.{fc_apply_enqueue, fc_apply_dequeue}
use sim_universal_constructi.Queues.FlatLaws.{Advanced, fc_enqueues_pid, fc_dequeues_late}

-- Node 0, with the guard value, leads to node 1, with the value 8.
abbrev pair : Heap
pair = record {
  val = λ i. if i == 0 then guard_value else pos 8;
  next = λ i. if i == 0 then some 1 else none;
}

abbrev one_value : QueueStruct alone
one_value = record {
  enqueue_struct = tt;
  dequeue_struct = tt;
  queue = record { heap = pair; first = 0; last = 1; recycled = [] };
}

one_value-IsQueue : IsQueue one_value.queue (1 ∷ [])
one_value-IsQueue = record { chain = (refl, refl); distinct = (refl, (refl, tt)); tail = refl }

apply_enqueue-Enqueues_example :
    Enqueues alone one_value (1 ∷ []) (pos 9) 0 2 (Cc.apply_enqueue alone)
    × Enqueues alone one_value (1 ∷ []) (pos 9) 0 2 (Dsm.apply_enqueue alone)
    × Enqueues alone one_value (1 ∷ []) (pos 9) 0 2 (Hier.apply_enqueue alone)
    × Enqueues alone one_value (1 ∷ []) (pos 9) 0 2 (Osci.apply_enqueue alone)
apply_enqueue-Enqueues_example =
    apply_enqueue-Enqueues alone one_value (1 ∷ []) (pos 9) 0 2 (tt, tt) one_value-IsQueue refl
      (λ e. ground (arith, e))

apply_dequeue-Dequeues_example :
    Dequeues alone one_value (1 ∷ []) (pos 0) 0 2 (pos 5) (Cc.apply_dequeue alone)
    × Dequeues alone one_value (1 ∷ []) (pos 0) 0 2 (pos 5) (Dsm.apply_dequeue alone)
    × Dequeues alone one_value (1 ∷ []) (pos 0) 0 2 (pos 5) (Hier.apply_dequeue alone)
    × Dequeues alone one_value (1 ∷ []) (pos 0) 0 2 (pos 5) (Osci.apply_dequeue alone)
apply_dequeue-Dequeues_example =
    apply_dequeue-Dequeues alone one_value (1 ∷ []) (pos 0) 0 2 (pos 5) (tt, tt) one_value-IsQueue
      (omega arith)

abbrev two_values : StackStruct alone
two_values = record {
  object_struct = tt;
  stack = record { heap = pair; top = some 0; recycled = [] };
}

two_values-IsStack : IsStack two_values.stack (0 ∷ 1 ∷ [])
two_values-IsStack = record { chain = (refl, (refl, refl)); distinct = (refl, (refl, tt)) }

apply_push-Pushes_example :
    Pushes alone two_values (0 ∷ 1 ∷ []) 0 2 (pos 9) (CcStack.apply_push alone)
    × Pushes alone two_values (0 ∷ 1 ∷ []) 0 2 (pos 9) (DsmStack.apply_push alone)
    × Pushes alone two_values (0 ∷ 1 ∷ []) 0 2 (pos 9) (HierStack.apply_push alone)
    × Pushes alone two_values (0 ∷ 1 ∷ []) 0 2 (pos 9) (OsciStack.apply_push alone)
apply_push-Pushes_example =
    apply_push-Pushes alone two_values (0 ∷ 1 ∷ []) 0 2 (pos 9) tt two_values-IsStack refl
      (λ e. ground (arith, e))

apply_pop-Pops_example :
    Pops alone two_values (0 ∷ 1 ∷ []) 0 (pos 5) (CcStack.apply_pop alone)
    × Pops alone two_values (0 ∷ 1 ∷ []) 0 (pos 5) (DsmStack.apply_pop alone)
    × Pops alone two_values (0 ∷ 1 ∷ []) 0 (pos 5) (HierStack.apply_pop alone)
    × Pops alone two_values (0 ∷ 1 ∷ []) 0 (pos 5) (OsciStack.apply_pop alone)
apply_pop-Pops_example =
    apply_pop-Pops alone two_values (0 ∷ 1 ∷ []) 0 (pos 5) tt two_values-IsStack

fc_enqueues_pid_example :
    (t : QueueStruct alone) × (fc_apply_enqueue alone 2 one_value (pos 9) 3 ≡ some t)
    × Ready alone t
    × IsQueue t.queue ((1 ∷ []) ++ 2 ∷ [])
    × (t.queue.heap.val ≡ update one_value.queue.heap.val 2 (pos 3))
    × (t.queue.first ≡ 0)
fc_enqueues_pid_example =
    fc_enqueues_pid alone one_value (1 ∷ []) 3 (tt, tt) one_value-IsQueue 2 (pos 9) refl

fc_dequeues_late_example :
    (r : ℤ) × (t : QueueStruct alone) × (fc_apply_dequeue alone one_value 3 ≡ some (r, t))
    × Ready alone t
    × Advanced one_value.queue (1 ∷ []) r t.queue
fc_dequeues_late_example = fc_dequeues_late alone one_value (1 ∷ []) 3 (tt, tt) one_value-IsQueue
