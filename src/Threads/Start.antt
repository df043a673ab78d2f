-- ===== src/Threads/Start.antt =====
-- `synchStartThreadsN`: the POSIX threads that it creates, the fibers that those spawn, and the
-- scheduling flags.
--
-- `pthread_create` is taken to succeed (the source exits otherwise). The last thread of the list is
-- the caller. An id is an argument with which the user's function is run.
use sim_universal_constructi.Prelude.{
  ℕ, zero, suc, ◌+◌, ◌-◌, ◌*◌, ◌/◌, ◌%◌, ◌^◌, Bool, true, false, List, [], ◌∷◌, ◌++◌, ltb,
  if◌then◌else◌,
}

abbrev pub dont_use_uthreads : ℕ
dont_use_uthreads = 1

pub record Started : Type 0 where
  pub ids : List ℕ
  pub barrier : ℕ
  pub uthread_sched : Bool
  pub system_oversubscription : Bool
  pub noop_resched : Bool

-- i, i + 1, ..., i + n - 1
unfoldable pub count_up : ℕ → ℕ → List ℕ
count_up i zero = []
count_up i (suc n) = i ∷ count_up (i + 1) n

-- `uthreadWrapper`: spawns a fiber for each id behind `pid`, then runs `pid` itself.
unfoldable pub uthread_wrapper : ℕ → ℕ → List ℕ
unfolding count_up
uthread_wrapper uthreads pid = count_up (pid + 1) (uthreads - 1) ++ pid ∷ []

-- The wrappers of threads i, i + 1, ..., of which there are n.
unfoldable pub uthreads_from : ℕ → ℕ → ℕ → List ℕ
unfolding uthread_wrapper
uthreads_from uthreads i zero = []
uthreads_from uthreads i (suc n) =
    uthread_wrapper uthreads (i * uthreads) ++ uthreads_from uthreads (i + 1) n

-- How many threads run: the loop creates `n - 1` of them, a difference of uint32_t that wraps round at 0, and
-- the caller is one more. `pthread_create` succeeds.
unfoldable pub started : ℕ → ℕ
started n = (n + (2 ^ 32 - 1)) % 2 ^ 32 + 1

unfoldable pub start_threads : ℕ → ℕ → ℕ → Started
unfolding uthreads_from
start_threads ncores nthreads uthreads =
    if ltb 1 uthreads
    then record {
      ids = uthreads_from uthreads 0 (started (nthreads / uthreads));
      barrier = (nthreads / uthreads + 1) % 2 ^ 32;
      uthread_sched = true;
      system_oversubscription = true;
      noop_resched = false;
    }
    else record {
      ids = count_up 0 (started nthreads);
      barrier = (nthreads + 1) % 2 ^ 32;
      uthread_sched = false;
      system_oversubscription = ltb ncores nthreads;
      noop_resched = if ltb ncores nthreads then false else true;
    }
