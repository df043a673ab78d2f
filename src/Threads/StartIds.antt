-- ===== src/Threads/StartIds.antt =====
-- Which ids a start runs.
use native.Mathlib.Nat.{div-le_self}
use sim_universal_constructi.Prelude.{
  ℕ, zero, suc, ◌+◌, ◌-◌, ◌*◌, ◌/◌, ◌^◌, ◌<◌, ◌≡◌, ◌&&◌, List, [], ◌∷◌, ◌++◌, arith, ltb, ltb→lt,
  leb, ◌==◌, if◌then◌else◌, ◌∙◌, ap, Bool-cases, inl, inr,
}
use sim_universal_constructi.Threads.Start.{
  count_up, uthread_wrapper, uthreads_from, started, start_threads,
}

-- How often id `a` is run.
unfoldable pub times : ℕ → List ℕ → ℕ
times a [] = 0
times a (b ∷ bs) = (if a == b then 1 else 0) + times a bs

times-append : (a : ℕ) (xs ys : List ℕ) → times a (xs ++ ys) ≡ times a xs + times a ys
unfolding times
times-append a [] ys = omega arith
times-append a (x ∷ xs) ys = omega (arith, times-append a xs ys)

times-count_up : (a i n : ℕ) → times a (count_up i n) ≡ (if leb i a && ltb a (i + n) then 1 else 0)
unfolding times count_up
times-count_up a i zero = ground arith
times-count_up a i (suc n) = ground (arith, times-count_up a (i + 1) n)

times-wrapper :
    (a u i : ℕ)
    → 0 < u
    → times a (uthread_wrapper u i) ≡ (if leb i a && ltb a (i + u) then 1 else 0)
unfolding times uthread_wrapper
times-wrapper a u i h =
    times-append a (count_up (i + 1) (u - 1)) (i ∷ [])
    ∙ ground (arith, times-count_up a (i + 1) (u - 1))

times-uthreads :
    (a u i n : ℕ)
    → 0 < u
    → times a (uthreads_from u i n) ≡ (if leb (i * u) a && ltb a ((i + n) * u) then 1 else 0)
unfolding times uthreads_from
times-uthreads a u i zero h = ground arith
times-uthreads a u i (suc n) h =
    times-append a (uthread_wrapper u (i * u)) (uthreads_from u (i + 1) n)
    ∙ ground (arith, times-wrapper a u (i * u) h, times-uthreads a u (i + 1) n h)

started_lem : (n : ℕ) → n < 2 ^ 32 → started n ≡ (if ltb 0 n then n else 2 ^ 32)
unfolding started
started_lem n h = ground arith

times-all : (a u n : ℕ) → 0 < u → times a (uthreads_from u 0 n) ≡ (if ltb a (n * u) then 1 else 0)
times-all a u n h = times-uthreads a u 0 n h ∙ ground arith

-- With n the number of threads, which is `nthreads` divided by `uthreads` when that is more than one, a
-- start runs each id below n times the fibers to a thread once, and no other. When n is 0, the number
-- wraps round to 2 ^ 32 threads, with their fibers.
pub start_threads_ids :
    (ncores nthreads uthreads a : ℕ)
    → nthreads < 2 ^ 32
    → let n = if ltb 1 uthreads then nthreads / uthreads else nthreads in
      let u = if ltb 1 uthreads then uthreads else 1 in
      times a (start_threads ncores nthreads uthreads).ids
      ≡ (if ltb a ((if ltb 0 n then n else 2 ^ 32) * u) then 1 else 0)
unfolding start_threads
start_threads_ids ncores nthreads uthreads a h = elim (Bool-cases (ltb 1 uthreads)) [
  | inl many ↦
      let k = nthreads / uthreads in
      let pos : 1 < uthreads = ltb→lt 1 uthreads many in
      let lt : k < 2 ^ 32 = omega (arith, h, div-le_self nthreads uthreads) in
      rw many (
        times-all a uthreads (started k) (omega (arith, pos))
        ∙ ap (λ (m : ℕ). if ltb a (m * uthreads) then 1 else 0) (started_lem k lt))
  | inr one ↦
      rw one (times-count_up a 0 (started nthreads) ∙ ground (arith, started_lem nthreads h))
]
