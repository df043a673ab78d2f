-- ===== src/LockFree/MsQueue/Phases.antt =====
-- What a thread of an MS-Queue is about: the order of its calls, their effects and their returns.
use sim_universal_constructi.Prelude.{ℕ, Option, none, some, ℤ, eq_ℤ, if◌then◌else◌}
use sim_universal_constructi.Queues.Nodes.{empty_queue}
use sim_universal_constructi.LockFree.MsQueue.{
  Pc, idle, enters, reads_tail, reads_next, links, helps, swings, removes, reads_first, reads_last,
  reads_second, aids, reads_val, takes, returns, faults, Event, calls_enqueue, calls_dequeue,
  enqueued, dequeued, saw_empty, retries, settles, ends, answers,
}

-- No call; an enqueue of a value, before and after it took effect; a dequeue, before and after a look at an
-- empty queue; or the return of a value
pub data Phase : Type 0 where
  resting : Phase
  enqueuing : ℤ → Phase
  linked : Phase
  dequeuing : Phase
  looked : Phase
  answering : ℤ → Phase

abbrev pub thread_of : Event → ℕ
thread_of (calls_enqueue i v) = i
thread_of (calls_dequeue i) = i
thread_of (enqueued i v) = i
thread_of (dequeued i r) = i
thread_of (saw_empty i) = i
thread_of (retries i) = i
thread_of (settles i) = i
thread_of (ends i) = i
thread_of (answers i r) = i

-- A thread's events, one after the other: an enqueue takes effect once, with the value that it was called
-- with, and a dequeue returns the value that it took out, or EMPTY_QUEUE after a look at an empty queue.
-- `none` is any other order.
unfoldable pub move : Event → Phase → Option Phase
move (calls_enqueue i v) resting = some (enqueuing v)
move (enqueued i r) (enqueuing v) = if eq_ℤ r v then some linked else none
move (ends i) linked = some resting
move (calls_dequeue i) resting = some dequeuing
move (dequeued i r) dequeuing = some (answering r)
move (saw_empty i) dequeuing = some looked
move (retries i) looked = some dequeuing
move (retries i) dequeuing = some dequeuing
move (settles i) looked = some (answering empty_queue)
move (answers i r) (answering v) = if eq_ℤ r v then some resting else none
move _ _ = none

-- What a thread is about where it stands
unfoldable pub phase : (ℕ → ℤ) → Pc → Phase
phase val idle = resting
phase val (enters p) = enqueuing (val p)
phase val (reads_tail p last) = enqueuing (val p)
phase val (reads_next p last next) = enqueuing (val p)
phase val (links p last) = enqueuing (val p)
phase val (helps p last next) = enqueuing (val p)
phase val (swings last p) = linked
phase val removes = dequeuing
phase val (reads_first first) = dequeuing
phase val (reads_last first last) = dequeuing
phase val (reads_second first last none) = looked
phase val (reads_second first last (some x)) = dequeuing
phase val (aids last next) = dequeuing
phase val (reads_val first next) = dequeuing
phase val (takes first next v) = dequeuing
phase val (returns r) = answering r
phase val faults = looked
