-- ===== src/LockFree/Threads.antt =====
-- What a thread keeps for an LF-Stack, an MS-Queue or a universal object: its backoff object and its pool.
use sim_universal_constructi.Prelude.{ℕ, Option, none, some}
use sim_universal_constructi.Backoff.{Backoff, init_backoff}
use sim_universal_constructi.Pool.{Pool, init_pool}

-- `sizeof(Node)`, with 64-bit values and pointers
abbrev pub node_size : ℕ
node_size = 16

pub record ThreadState : Type 0 where
  pub pool : Pool
  pub backoff : Backoff

-- `LFStackThreadStateInit`
unfoldable pub thread_state_init : ℕ → ℕ → Option ThreadState
thread_state_init min_back max_back = elim (init_pool node_size) [
  | none ↦ none
  | some p ↦ some (record { pool = p; backoff = init_backoff min_back max_back 1 })
]

-- `LFUObjectThreadStateInit`
unfoldable pub object_thread_state_init : ℕ → ℕ → Backoff
object_thread_state_init min_back max_back = init_backoff min_back max_back 1

-- `MSQueueThreadStateInit`, which has the text of `LFStackThreadStateInit`
unfoldable pub queue_thread_state_init : ℕ → ℕ → Option ThreadState
queue_thread_state_init = thread_state_init
