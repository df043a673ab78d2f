-- ===== src/Barrier.antt =====
-- libconcurrent/primitives/barrier.c: the barrier, one shared access at a time.
--
-- The counters are the 32-bit words of `int32_t` values. The threads 0 to n - 1 interleave in any order, and
-- each one calls `synchBarrierWait` again and again; `calls` counts its calls.
use sim_universal_constructi.Prelude.{
  ℕ, suc, ◌+◌, ◌-◌, ◌%◌, ◌^◌, ◌<◌, ◌≡◌, Bool, true, false, ◌&&◌, ◌==◌, not, ltb, update,
}
pub mod Count
pub mod Phases
pub mod Arrival
pub mod Departure
pub mod Waits
pub mod Progress
mod Tests

pub record Barrier : Type 0 where
  pub arrive : ℕ
  pub leave : ℕ
  pub arrive_flag : Bool
  pub leave_flag : Bool
  pub val_at_set : ℕ

-- `synchBarrierSet`
unfoldable pub barrier_set : ℕ → Barrier
barrier_set n = record {
  arrive = n;
  leave = n;
  arrive_flag = true;
  leave_flag = true;
  val_at_set = n;
}

-- what `synchFAA32(.., -1)` leaves
abbrev pub less_one : ℕ → ℕ
less_one w = (w + (2 ^ 32 - 1)) % 2 ^ 32

-- `w > 1`, of a signed word
abbrev pub more_than_one : ℕ → Bool
more_than_one w = ltb 1 w && ltb w (2 ^ 31)

-- Where a thread stands in `synchBarrierWait`: outside of it; as one that found others missing, at the loop
-- on `arrive_flag`; as the last to arrive, before each of its three stores; before the second
-- fetch-and-add; and the same again for the departure.
pub data Pc : Type 0 where
  outside : Pc
  waits_arrive : Pc
  resets_arrive : Pc
  raises_leave : Pc
  clears_arrive : Pc
  between : Pc
  waits_leave : Pc
  resets_leave : Pc
  raises_arrive : Pc
  clears_leave : Pc

pub record System : Type 0 where
  pub bar : Barrier
  pub pc : ℕ → Pc
  pub calls : ℕ → ℕ

abbrev pub goes : System → Barrier → ℕ → Pc → System
goes s b i p = record s { bar = b; pc = update s.pc i p }

-- The call, with `synchFAA32(&bar->arrive, -1) > 1`
unfoldable pub arrives : System → ℕ → System
arrives s i = record {
  bar = record s.bar { arrive = less_one s.bar.arrive };
  pc =
      update s.pc i
        (elim (more_than_one s.bar.arrive) [ true ↦ waits_arrive | false ↦ resets_arrive ]);
  calls = update s.calls i (suc (s.calls i));
}

-- `synchFAA32(&bar->leave, -1) > 1`
unfoldable pub departs : System → ℕ → System
departs s i =
    goes s (record s.bar { leave = less_one s.bar.leave }) i
      (elim (more_than_one s.bar.leave) [ true ↦ waits_leave | false ↦ resets_leave ])

-- The next shared access of thread i
unfoldable pub advance : System → ℕ → System
advance s i = elim (s.pc i) [
  | outside ↦ arrives s i
  | waits_arrive ↦ elim (s.bar.arrive_flag) [ true ↦ s | false ↦ goes s s.bar i between ]
  | resets_arrive ↦ goes s (record s.bar { arrive = s.bar.val_at_set }) i raises_leave
  | raises_leave ↦ goes s (record s.bar { leave_flag = true }) i clears_arrive
  | clears_arrive ↦ goes s (record s.bar { arrive_flag = false }) i between
  | between ↦ departs s i
  | waits_leave ↦ elim (s.bar.leave_flag) [ true ↦ s | false ↦ goes s s.bar i outside ]
  | resets_leave ↦ goes s (record s.bar { leave = s.bar.val_at_set }) i raises_arrive
  | raises_arrive ↦ goes s (record s.bar { arrive_flag = true }) i clears_leave
  | clears_leave ↦ goes s (record s.bar { leave_flag = false }) i outside
]

-- `synchBarrierLeave`
unfoldable pub barrier_leave : Barrier → Barrier
barrier_leave b = record b { arrive = less_one b.arrive; leave = less_one b.leave }

-- The loop of `synchBarrierLastLeave`, after its `synchBarrierLeave`: does it go on?
unfoldable pub last_leave_waits : Barrier → Bool
last_leave_waits b = not (b.arrive == 0) && not (b.leave == 0)

pub data Reach (n : ℕ) (s : System) : System → Type 0 where
  here : Reach n s s
  later : {t : System} (i : ℕ) → i < n → Reach n s t → Reach n s (advance t i)

abbrev pub init : ℕ → System
init n = record { bar = barrier_set n; pc = λ i. outside; calls = λ i. 0 }
