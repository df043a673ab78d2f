-- ===== src/Combining/FlatServes.antt =====
-- A combiner of flat combining serves all pending requests of the list, in the order of the list.
use sim_universal_constructi.Prelude.{
  ℕ, zero, suc, ◌<◌, ◌==◌, ◌≡◌, refl, ap, sym, ◌∙◌, Bool, true, false, Option, some, List, [], ◌∷◌,
  map, length, update, ℤ, arith, subst, Bool-cases, inl, inr, ==_refl, if◌then◌else◌,
}
use sim_universal_constructi.Queues.Nodes.{has, Distinct}
use sim_universal_constructi.Queues.Lifo.{From}
use sim_universal_constructi.Combining.Serves.{serial}
use sim_universal_constructi.Combining.Flat.{
  Requests, Fc, serve_request, pass, passes, join, critical, combine_flat,
}

-- The pending ones of the requests xs
abbrev pub waiting : (ℕ → Bool) → List ℕ → List ℕ
waiting pending [] = []
waiting pending (x ∷ xs) = if pending x then x ∷ waiting pending xs else waiting pending xs

abbrev pub NonePending : (ℕ → Bool) → List ℕ → Type 0
NonePending pending [] = Unit
NonePending pending (x ∷ xs) = (pending x ≡ false) × NonePending pending xs

-- The arguments of the requests ws, each with the pid of the combiner
abbrev pub calls : (ℕ → ℤ) → ℕ → List ℕ → List (ℤ × ℕ)
calls val pid ws = map (λ (a : ℕ). (val a, pid)) ws

waiting-update :
    (pending : ℕ → Bool) (x : ℕ) (xs : List ℕ)
    → has x xs ≡ false
    → waiting (update pending x false) xs ≡ waiting pending xs
waiting-update pending x [] h = refl
waiting-update pending x (y ∷ ys) h = ground (arith, waiting-update pending x ys (ground arith))

calls-update :
    (pending : ℕ → Bool) (val : ℕ → ℤ) (r : ℤ) (pid x : ℕ) (xs : List ℕ)
    → has x xs ≡ false
    → calls (update val x r) pid (waiting pending xs) ≡ calls val pid (waiting pending xs)
calls-update pending val r pid x [] h = refl
calls-update pending val r pid x (y ∷ ys) h = elim (Bool-cases (pending y)) [
  | inl e ↦ ground (arith, e, calls-update pending val r pid x ys (ground arith))
  | inr e ↦ ground (arith, e, calls-update pending val r pid x ys (ground arith))
]

join_active : (l : Fc) (request : ℕ) → l.requests.active request ≡ true → join l request ≡ l
unfolding join
join_active l request e = rw (e, join) refl

module _ (S : Type 0) (sfunc : S → ℤ → ℕ → ℤ × S) (pid : ℕ) where
  abbrev pub Served : List ℕ → Requests → S → Requests → S → Type 0
  Served xs q s q' t =
      (map q'.val (waiting q.pending xs)
        ≡ (serial S sfunc s (calls q.val pid (waiting q.pending xs))).0)
      × (t ≡ (serial S sfunc s (calls q.val pid (waiting q.pending xs))).1)
      × NonePending q'.pending xs
      × (q'.next ≡ q.next)
      × (q'.active ≡ q.active)

  abbrev Kept : List ℕ → Requests → Requests → Type 0
  Kept xs q q' = (a : ℕ) → has a xs ≡ false → (q'.val a ≡ q.val a) × (q'.pending a ≡ q.pending a)

  serve_first :
      (count x : ℕ) (xs : List ℕ) (q : Requests) (s : S) (q' : Requests) (t : S)
      → has x xs ≡ false
      → q.pending x ≡ true
      → Served xs (serve_request q x (sfunc s (q.val x) pid).0 count) (sfunc s (q.val x) pid).1 q' t
      → Kept xs (serve_request q x (sfunc s (q.val x) pid).0 count) q'
      → Served (x ∷ xs) q s q' t
  unfolding serve_request
  serve_first count x xs q s q' t out e (rets, state, none_left, links, act) kept =
      let r = (sfunc s (q.val x) pid).0 in
      let s1 = (sfunc s (q.val x) pid).1 in
      let k = kept x out in
      let ws = waiting-update q.pending x xs out in
      let same : calls (update q.val x r) pid (waiting (update q.pending x false) xs)
          ≡ calls q.val pid (waiting q.pending xs) =
        ap (λ (w : List ℕ). calls (update q.val x r) pid w) ws
        ∙ calls-update q.pending q.val r pid x xs out in
      (
        rw e (
            ground (
              arith,
              k.0,
              ==_refl x,
              ap (map q'.val) ws,
              rets ∙ ap (λ cs. (serial S sfunc s1 cs).0) same,
            )),
        rw e (state ∙ ap (λ cs. (serial S sfunc s1 cs).1) same),
        (k.1 ∙ rw (==_refl x) refl, none_left),
        links,
        act,
      )

  pass_lem :
      (count fuel : ℕ) (cur : Option ℕ) (xs : List ℕ) (q : Requests) (s : S)
      → From q.next cur xs
      → Distinct xs
      → length xs < fuel
      → (q' : Requests) × (t : S) × (pass S sfunc count pid fuel cur q s ≡ some (q', t))
        × Served xs q s q' t
        × Kept xs q q'
  unfolding pass serve_request
  pass_lem count zero cur xs q s f d lt = absurd (omega arith)
  pass_lem count (suc fuel) cur [] q s f d lt =
      (q, s, rw (f, pass) refl, (refl, refl, tt, refl, refl), λ a h. (refl, refl))
  pass_lem count (suc fuel) cur (x ∷ xs) q s f d lt = elim (Bool-cases (q.pending x)) [
    | inl e ↦
        let (q', t, run, done, kept) =
          pass_lem count fuel (q.next x) xs (serve_request q x (sfunc s (q.val x) pid).0 count)
            (sfunc s (q.val x) pid).1 f.1 d.1 (omega arith) in
        (
          q',
          t,
          rw (f.0, pass) (rw (e, pass) run),
          serve_first count x xs q s q' t d.0 e done kept,
          λ a h.
              let k = kept a (ground arith) in
              let apart : (a == x) ≡ false = ground arith in
              (ground (arith, k.0, apart), ground (arith, k.1, apart)),
        )
    | inr e ↦
        let (q', t, run, done, kept) =
          pass_lem count fuel (q.next x) xs q s f.1 d.1 (omega arith) in
        (
          q',
          t,
          rw (f.0, pass) (rw (e, pass) run),
          (rw e (done.0), rw e (done.1), ((kept x d.0).1 ∙ e, done.2), done.3, done.4),
          λ a h. kept a (ground arith),
        )
  ]

  -- A pass over requests that are not pending changes nothing.
  pass_idle :
      (count fuel : ℕ) (cur : Option ℕ) (xs : List ℕ) (q : Requests) (s : S)
      → From q.next cur xs
      → NonePending q.pending xs
      → length xs < fuel
      → pass S sfunc count pid fuel cur q s ≡ some (q, s)
  unfolding pass
  pass_idle count zero cur xs q s f idle lt = absurd (omega arith)
  pass_idle count (suc fuel) cur [] q s f idle lt = rw (f, pass) refl
  pass_idle count (suc fuel) cur (x ∷ xs) q s f idle lt =
      rw (f.0, pass)
        (rw (idle.0, pass) (pass_idle count fuel (q.next x) xs q s f.1 idle.1 (omega arith)))

  -- The later passes find nothing to do.
  passes_lem :
      (count fuel : ℕ) (head : Option ℕ) (xs : List ℕ) (q : Requests) (s : S)
      → From q.next head xs
      → Distinct xs
      → length xs < fuel
      → (q' : Requests) × (t : S) × (passes S sfunc count pid 3 fuel head q s ≡ some (q', t))
        × Served xs q s q' t
  unfolding passes
  passes_lem count fuel head xs q s f d lt =
      let (q', t, run, done, kept) = pass_lem count fuel head xs q s f d lt in
      let again =
        pass_idle count fuel head xs q' t
          (subst (λ (n : ℕ → Option ℕ). From n head xs) (sym done.3) f) done.2 lt in
      (q', t, ground (arith, run, again), done)

  -- A combiner of flat combining whose request is active, with fuel for one round more than the
  -- list has requests, returns. It has served all pending requests of the list, all different, in
  -- the order of the list, and none of them is pending: their results and the state of the object
  -- are those of the serial run in which each request carries the pid of the combiner. It gives
  -- the lock back, and the list and the active requests stay as they were.
  pub combine_flat_serves :
      (fuel : ℕ) (l : Fc) (xs : List ℕ) (s : S)
      → From l.requests.next l.head xs
      → Distinct xs
      → l.requests.active (l.node pid) ≡ true
      → length xs < fuel
      → (l' : Fc) × (t : S) × (combine_flat S sfunc fuel l s pid
          ≡ some (l'.requests.val (l.node pid), l', t))
        × Served xs l.requests s l'.requests t
        × (l'.lock ≡ false)
        × (l'.head ≡ l.head)
  unfolding combine_flat critical
  combine_flat_serves fuel l xs s f d on lt =
      let (q', t, run, done) = passes_lem 1 fuel l.head xs l.requests s f d lt in
      (
        record l { count = 1; requests = q'; lock = false },
        t,
        ap (λ (m : Fc). critical S sfunc fuel m (l.node pid) s pid) (join_active l (l.node pid) on)
            ∙ rw (run, critical) refl,
        done,
        refl,
        refl,
      )
