-- ===== src/Combining/Flat.antt =====
-- libconcurrent/concurrent/fc.c: flat combining. A request belongs to one thread and stands at an
-- address; `none` is NULL. `FCEnqueueRequest` succeeds at its first compare-and-swap here.
--
-- `FCApplyOp` is `publish`, then, once the thread has the lock, `combine`. A thread that does not get the lock
-- waits until its request is served, which is `answer`.
use sim_universal_constructi.Prelude.{
  ℕ, zero, suc, ◌+◌, ◌%◌, ◌==◌, Bool, true, false, Option, none, some, update, ℤ, ltb,
}

-- FCRequest
pub record Requests : Type 0 where
  pub next : ℕ → Option ℕ
  pub val : ℕ → ℤ
  pub pending : ℕ → Bool
  pub active : ℕ → Bool
  pub age : ℕ → ℕ

-- FCStruct; `node` is the array `nodes`.
pub record Fc : Type 0 where
  pub lock : Bool
  pub count : ℕ
  pub head : Option ℕ
  pub requests : Requests
  pub node : ℕ → ℕ

abbrev pub cleanup_frequency : ℕ
cleanup_frequency = 100

abbrev pub cleanup_old_threshold : ℕ
cleanup_old_threshold = 100

-- `FCStructInit`
unfoldable pub fc_struct_init : Requests → (ℕ → ℕ) → Fc
fc_struct_init q node = record { lock = false; count = 0; head = none; requests = q; node = node }

-- `FCThreadStateInit`
unfoldable pub fc_thread_state_init : Fc → ℕ → Fc
fc_thread_state_init l pid = record l {
  requests = record l.requests {
    age = update l.requests.age (l.node pid) 0;
    active = update l.requests.active (l.node pid) false;
  };
}

-- `FCEnqueueRequest`
unfoldable pub enqueue_request : Fc → ℕ → Fc
enqueue_request l request = record l {
  head = some request;
  requests = record l.requests {
    active = update l.requests.active request true;
    next = update l.requests.next request l.head;
  };
}

-- `if (request->active == false) FCEnqueueRequest(lock, st_thread)`
unfoldable pub join : Fc → ℕ → Fc
join l request = elim (l.requests.active request) [ true ↦ l | false ↦ enqueue_request l request ]

-- `request->val = arg; request->pending = true`
unfoldable pub publish : Fc → ℤ → ℕ → Fc
publish l arg pid = record l {
  requests = record l.requests {
    val = update l.requests.val (l.node pid) arg;
    pending = update l.requests.pending (l.node pid) true;
  };
}

-- What a thread without the lock finds: its result, or `none` while it waits.
unfoldable pub answer : Fc → ℕ → Option ℤ
answer l pid = elim (l.requests.pending (l.node pid)) [
  | true ↦ none
  | false ↦ some (l.requests.val (l.node pid))
]

-- `cur->val = ret; cur->pending = false; cur->age = count`
unfoldable pub serve_request : Requests → ℕ → ℤ → ℕ → Requests
serve_request q cur ret count = record q {
  val = update q.val cur ret;
  pending = update q.pending cur false;
  age = update q.age cur count;
}

-- The removal of old requests behind `prev`, on fuel
unfoldable pub clean_up : ℕ → Requests → ℕ → ℕ → Option Requests
clean_up zero q prev count = none
clean_up (suc fuel) q prev count = elim (q.next prev) [
  | none ↦ some q
  | some cur ↦ elim (ltb (q.age cur + cleanup_old_threshold) count) [
    | true ↦
        clean_up fuel
          (record q { next = update q.next prev (q.next cur); active = update q.active cur false })
          prev count
    | false ↦ clean_up fuel q cur count
  ]
]

module _ (S : Type 0) (sfunc : S → ℤ → ℕ → ℤ × S) (count pid : ℕ) where
  -- One pass over the list, on fuel: the serial function gets the pid of the combiner.
  unfoldable pub pass : ℕ → Option ℕ → Requests → S → Option (Requests × S)
  pass zero cur q s = none
  pass (suc fuel) none q s = some (q, s)
  pass (suc fuel) (some c) q s = elim (q.pending c) [
    | true ↦
        let (ret, t) = sfunc s (q.val c) pid in pass fuel (q.next c) (serve_request q c ret count) t
    | false ↦ pass fuel (q.next c) q s
  ]

  -- FC_COMBINING_ROUNDS passes; the parameter is how many are left.
  unfoldable pub passes : ℕ → ℕ → Option ℕ → Requests → S → Option (Requests × S)
  passes zero fuel head q s = some (q, s)
  passes (suc rounds) fuel head q s = elim (pass fuel head q s) [
    | none ↦ none
    | some (q', t) ↦ passes rounds fuel head q' t
  ]

module _ (S : Type 0) (sfunc : S → ℤ → ℕ → ℤ × S) where
  -- The rest of `FCApplyOp`, from `lock->count = 1` on
  unfoldable pub critical : ℕ → Fc → ℕ → S → ℕ → Option (ℤ × Fc × S)
  critical fuel m request s pid =
      let result : Requests → S → ℤ × Fc × S =
        λ r t. (r.val request, record m { count = 1; requests = r; lock = false }, t) in
      elim (passes S sfunc 1 pid 3 fuel m.head m.requests s) [
        | none ↦ none
        | some (q, t) ↦ elim (1 % cleanup_frequency == 0) [
          | false ↦ some (result q t)
          | true ↦ elim (m.head) [
            | none ↦ none
            | some head ↦ elim (clean_up fuel q head 1) [ none ↦ none | some r ↦ some (result r t) ]
          ]
        ]
      ]

  -- A combiner, from the moment that it has the lock: the result, the object and the state.
  unfoldable pub combine_flat : ℕ → Fc → S → ℕ → Option (ℤ × Fc × S)
  combine_flat fuel l s pid = critical fuel (join l (l.node pid)) (l.node pid) s pid
