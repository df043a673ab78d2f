-- ===== src/Locks/Mcs/Safety.antt =====
-- An MCS lock is held by one thread at a time, and no step follows a NULL pointer.
use sim_universal_constructi.Prelude.{
  ℕ, ◌==◌, ◌≡◌, ◌≢◌, Option-cases, refl, sym, ◌∙◌, ap, Bool, true, false, none, some, List, [], ◌∷◌,
  arith, update, subst, Bool-cases, inl, inr, ==_refl,
}
use sim_universal_constructi.Queues.Nodes.{has, end_of}
use sim_universal_constructi.Locks.Mcs.{
  McsLock, Pc, idle, readies, marks_tail, marks_node, marks_own, links, waits, critical, tries,
  awaits, hands, clears, faults, System, goes,
}
use sim_universal_constructi.Locks.Mcs.Queue.{queued, in_front, Behind, Outside, Aim, Inv, tail_of}
use sim_universal_constructi.Locks.Mcs.{
  swap_tail, mark_tail, mark_node, cas_tail, hand_over, advance, Reach, here, later, init,
  lock_init,
}
use sim_universal_constructi.Locks.Mcs.Aims.{Aims-has, Aims-last}
use sim_universal_constructi.Locks.Mcs.Moves.{predecessor_lem}
use sim_universal_constructi.Locks.Mcs.Steps.{
  Kept, becomes, clear_own, front_goes, is_front, in_rest, nonempty, back_goes, back_moves,
}
use sim_universal_constructi.Locks.Mcs.Shifts.{swap-Kept, link-Kept, cas-Kept, hand-Kept}

module _ (s : System) (i : ℕ) where
  mark_tail-Kept :
      (q : List ℕ) (prev : ℕ) → Inv s q → s.pc i ≡ marks_tail prev → Kept (mark_tail s i prev)
  unfolding mark_tail
  mark_tail-Kept [] prev v at = absurd (ground (arith, nonempty s i (marks_tail prev) v at refl))
  mark_tail-Kept (h ∷ []) prev v at =
      let (m, ne) = in_rest s i h [] (marks_tail prev) v at refl refl in absurd (ground (arith, m))
  mark_tail-Kept (h ∷ x ∷ r) prev v at =
      let (m, ne) = in_rest s i h (x ∷ r) (marks_tail prev) v at refl refl in
      let a = end_of x r in
      let ends = tail_of s h (x ∷ r) v.front.2 in
      becomes (goes s s.lock i (marks_node a prev)) (mark_tail s i prev) (ground (arith, ends)) (
        back_moves s i h (x ∷ r) (marks_node a prev) s.lock.locked v m ne refl refl (λ j l. l)
          (λ j out. refl) (Aims-last s.pc i h prev (x ∷ r) v.aims)
          (λ c b. subst (Behind s.lock c i) at b))

  mark_node-Kept :
      (q : List ℕ) (a prev : ℕ) → Inv s q → s.pc i ≡ marks_node a prev → Kept (mark_node s i a prev)
  unfolding mark_node
  mark_node-Kept [] a prev v at =
      absurd (ground (arith, nonempty s i (marks_node a prev) v at refl))
  mark_node-Kept (h ∷ r) a prev v at =
      let (m, ne) = in_rest s i h r (marks_node a prev) v at refl refl in
      back_goes s i h r (marks_own prev) a v m ne (Aims-has s.pc i a prev r v.aims.1 m at) refl
        (λ q'. tt) (λ c b. subst (Behind s.lock c i) at b)

  mark_own-Kept :
      (q : List ℕ) (prev : ℕ)
      → Inv s q
      → s.pc i ≡ marks_own prev
      → Kept (goes s (record s.lock { locked = update s.lock.locked i true }) i (links prev))
  mark_own-Kept [] prev v at = absurd (ground (arith, nonempty s i (marks_own prev) v at refl))
  mark_own-Kept (h ∷ r) prev v at =
      let (m, ne) = in_rest s i h r (marks_own prev) v at refl refl in
      back_goes s i h r (links prev) i v m ne m refl (λ q'. tt)
        (λ c b. let k = subst (Behind s.lock c i) at b in (k.0, k.1, rw (==_refl i) refl))

  -- A thread that finds its node unlocked is the first.
  unlocked_first :
      (h : ℕ) (r : List ℕ) → Inv s (h ∷ r) → s.pc i ≡ waits → s.lock.locked i ≡ false → h ≡ i
  unlocked_first h r v at free = elim (Bool-cases (i == h)) [
    | inl e ↦ ground arith
    | inr e ↦
        let m : has i (h ∷ r) ≡ true = v.members i ∙ ap queued at in
        let (b, behind) = predecessor_lem s h i r v.front.2 (ground (arith, m, e)) in
        absurd (ground (arith, free, (subst (Behind s.lock b i) at behind).1))
  ]

  wait-Kept :
      (q : List ℕ)
      → Inv s q
      → s.pc i ≡ waits
      → s.lock.locked i ≡ false
      → Kept (goes s s.lock i critical)
  wait-Kept [] v at free = absurd (ground (arith, nonempty s i waits v at refl))
  wait-Kept (h ∷ r) v at free =
      let same = unlocked_first h r v at free in
      front_goes s i h r critical v same refl refl (λ e. absurd (ground (arith, e))) (λ q'. tt)

  -- A thread that is the first goes on, and one that cannot be behind another is the first.
  goes_on :
      (q : List ℕ) (p p' : Pc)
      → Inv s q
      → s.pc i ≡ p
      → queued p ≡ true
      → ((b : ℕ) → Behind s.lock b i p → true ≡ false)
      → in_front p' ≡ true
      → queued p' ≡ true
      → (p' ≡ hands → s.lock.next i ≢ none)
      → ((r : List ℕ) → Aim p' r)
      → Kept (goes s s.lock i p')
  goes_on [] p p' v at busy never is busy' next plain =
      absurd (ground (arith, nonempty s i p v at busy))
  goes_on (h ∷ r) p p' v at busy never is busy' next plain =
      let same = is_front s i h r p v at busy never in
      front_goes s i h r p' v same is busy'
        (λ e. subst (λ (k : ℕ). s.lock.next k ≢ none) (sym same) (next e)) plain

  advance-Kept : (q : List ℕ) (p : Pc) → Inv s q → s.pc i ≡ p → Kept (advance s i)
  unfolding advance
  advance-Kept q idle v at =
      let out = subst (Outside s.lock i) at (v.outside i) in
      becomes (goes s (record s.lock { next = update s.lock.next i none }) i readies) (advance s i)
        (rw (at, advance) refl)
        (clear_own s i q readies v (ap queued at) refl (out, rw (==_refl i) refl) (λ r. tt))
  advance-Kept q readies v at =
      becomes (swap_tail s i) (advance s i) (rw (at, advance) refl) (swap-Kept s i q v at)
  advance-Kept q (marks_tail prev) v at =
      becomes (mark_tail s i prev) (advance s i) (rw (at, advance) refl)
        (mark_tail-Kept q prev v at)
  advance-Kept q (marks_node a prev) v at =
      becomes (mark_node s i a prev) (advance s i) (rw (at, advance) refl)
        (mark_node-Kept q a prev v at)
  advance-Kept q (marks_own prev) v at =
      becomes (goes s (record s.lock { locked = update s.lock.locked i true }) i (links prev))
        (advance s i) (rw (at, advance) refl) (mark_own-Kept q prev v at)
  advance-Kept q (links prev) v at =
      becomes (goes s (record s.lock { next = update s.lock.next prev (some i) }) i waits)
        (advance s i) (rw (at, advance) refl) (link-Kept s i q prev v at)
  advance-Kept q waits v at = elim (Bool-cases (s.lock.locked i)) [
    | inl e ↦ becomes s (advance s i) (ground (arith, at, e)) (q, v)
    | inr e ↦
        becomes (goes s s.lock i critical) (advance s i) (ground (arith, at, e))
          (wait-Kept q v at e)
  ]
  advance-Kept q critical v at = elim (Option-cases (s.lock.next i)) [
    | inl e ↦ becomes (goes s s.lock i tries) (advance s i) (ground (arith, at, e)) (
        goes_on q critical tries v at refl (λ b x. x) refl refl
          (λ bad. absurd (ground (arith, bad))) (λ r. tt))
    | inr (b, e) ↦ becomes (goes s s.lock i hands) (advance s i) (ground (arith, at, e)) (
        goes_on q critical hands v at refl (λ c x. x) refl refl
          (λ ok bad. absurd (ground (arith, e, bad))) (λ r. tt))
  ]
  advance-Kept q tries v at =
      becomes (cas_tail s i) (advance s i) (rw (at, advance) refl) (cas-Kept s i q v at)
  advance-Kept q awaits v at = elim (Option-cases (s.lock.next i)) [
    | inl e ↦ becomes s (advance s i) (ground (arith, at, e)) (q, v)
    | inr (b, e) ↦ becomes (goes s s.lock i hands) (advance s i) (ground (arith, at, e)) (
        goes_on q awaits hands v at refl (λ c x. x) refl refl
          (λ ok bad. absurd (ground (arith, e, bad))) (λ r. tt))
  ]
  advance-Kept q hands v at =
      becomes (hand_over s i) (advance s i) (rw (at, advance) refl) (hand-Kept s i q v at)
  advance-Kept q clears v at =
      let out = subst (Outside s.lock i) at (v.outside i) in
      becomes (goes s (record s.lock { next = update s.lock.next i none }) i idle) (advance s i)
        (rw (at, advance) refl) (clear_own s i q idle v (ap queued at) refl out (λ r. tt))
  advance-Kept q faults v at = absurd (ground (arith, subst (Outside s.lock i) at (v.outside i)))

Reach-Kept : (s : System) → Reach init s → Kept s
unfolding lock_init
Reach-Kept _ here = (
  [],
  record { distinct = tt; members = λ i. refl; front = refl; aims = tt; outside = λ i. refl },
)
Reach-Kept _ (later {t = t} i run) =
    let (q, v) = Reach-Kept t run in advance-Kept t i q (t.pc i) v refl

-- Between `MCSLock` and `MCSUnlock`, or in `MCSUnlock` before the lock is given away
abbrev pub holds : Pc → Bool
holds critical = true
holds tries = true
holds awaits = true
holds hands = true
holds _ = false

holder_lem :
    (l : McsLock) (b i : ℕ) (p : Pc)
    → holds p ≡ true
    → (queued p ≡ true) × (Behind l b i p → true ≡ false)
holder_lem l b i idle e = absurd (ground (arith, e))
holder_lem l b i readies e = absurd (ground (arith, e))
holder_lem l b i (marks_tail n) e = absurd (ground (arith, e))
holder_lem l b i (marks_node a n) e = absurd (ground (arith, e))
holder_lem l b i (marks_own n) e = absurd (ground (arith, e))
holder_lem l b i (links n) e = absurd (ground (arith, e))
holder_lem l b i waits e = absurd (ground (arith, e))
holder_lem l b i critical e = (refl, λ x. x)
holder_lem l b i tries e = (refl, λ x. x)
holder_lem l b i awaits e = (refl, λ x. x)
holder_lem l b i hands e = (refl, λ x. x)
holder_lem l b i clears e = absurd (ground (arith, e))
holder_lem l b i faults e = absurd (ground (arith, e))

holder_first :
    (s : System) (h : ℕ) (r : List ℕ) (i : ℕ) → Inv s (h ∷ r) → holds (s.pc i) ≡ true → h ≡ i
holder_first s h r i v e =
    is_front s i h r (s.pc i) v refl (holder_lem s.lock h i (s.pc i) e).0
      (λ b. (holder_lem s.lock b i (s.pc i) e).1)

same_holder :
    (s : System) (q : List ℕ) (i j : ℕ)
    → Inv s q
    → holds (s.pc i) ≡ true
    → holds (s.pc j) ≡ true
    → i ≡ j
same_holder s [] i j v in_i in_j =
    absurd (ground (arith, nonempty s i (s.pc i) v refl (holder_lem s.lock 0 i (s.pc i) in_i).0))
same_holder s (h ∷ r) i j v in_i in_j =
    sym (holder_first s h r i v in_i) ∙ holder_first s h r j v in_j

-- However the threads interleave, two threads that hold an MCS lock are the same one: a thread holds it
-- from the return of `MCSLock` until `MCSUnlock` takes the tail away or unlocks the next node.
pub mcs_mutual_exclusion :
    (s : System) (i j : ℕ) → Reach init s → holds (s.pc i) ≡ true → holds (s.pc j) ≡ true → i ≡ j
mcs_mutual_exclusion s i j run in_i in_j =
    let (q, v) = Reach-Kept s run in same_holder s q i j v in_i in_j

-- However the threads interleave, no thread that calls `MCSLock` and `MCSUnlock` in turn follows a NULL
-- pointer.
pub mcs_never_faults : (s : System) (i : ℕ) → Reach init s → s.pc i ≢ faults
mcs_never_faults s i run at =
    let (q, v) = Reach-Kept s run in ground (arith, subst (Outside s.lock i) at (v.outside i))
