-- ===== src/LockFree/Stack/Steps.antt =====
-- What each step of an LF-Stack does to the list of its values.
use sim_universal_constructi.Prelude.{
  ℕ, ◌==◌, ◌≡◌, refl, sym, ◌∙◌, ap, true, false, Option, none, some, List, [], ◌∷◌, map, arith,
  update, ℤ, ==_refl, Bool-cases, inl, inr, subst,
}
use sim_universal_constructi.Queues.Nodes.{ne_by, has, ne_of_has}
use sim_universal_constructi.Queues.Lifo.{From-frame, map-frame}
use sim_universal_constructi.LockFree.Stack.{
  Pc, idle, pushes, links, reads, swings, System, Event, pushed, goes, same, cas, start_push,
  load_top, push_cas, replay,
}
use sim_universal_constructi.LockFree.Stack.Chain.{
  owns, touches, Ok, Clear, Inv, touches-used, owns-out, Ok-frame, moved-Inv,
}

-- The step leads to t, whose stack holds what the events leave of the values.
abbrev pub Takes : System → List ℕ → List Event → System → Type 0
Takes s xs events t =
    (ys : List ℕ) × Inv t ys
    × (replay events (map s.stack.heap.val xs) ≡ some (map t.stack.heap.val ys))

pub same_lem : (x y : Option ℕ) → same x y ≡ true → x ≡ y
same_lem none none e = refl
same_lem none (some y) e = absurd (ground (arith, e))
same_lem (some x) none e = absurd (ground (arith, e))
same_lem (some x) (some y) e = ap some (ground (arith, e))

push_cas_hit :
    (s : System) (i n : ℕ) (old : Option ℕ)
    → same s.stack.top old ≡ true
    → push_cas s i n old
      ≡ (pushed i (s.stack.heap.val n) ∷ [], goes s (record s.stack { top = some n }) i idle)
unfolding push_cas cas
push_cas_hit s i n old e = ground (arith, e)

push_cas_miss :
    (s : System) (i n : ℕ) (old : Option ℕ)
    → same s.stack.top old ≡ false
    → push_cas s i n old ≡ ([], goes s s.stack i (pushes n))
unfolding push_cas cas
push_cas_miss s i n old e = ground (arith, e)

pub does :
    (s : System) (xs : List ℕ) (out : List Event × System) (es : List Event) (t : System)
    → out ≡ (es, t)
    → Takes s xs es t
    → Takes s xs out.0 out.1
does s xs out es t e r = subst (λ o. Takes s xs o.0 o.1) (sym e) r

module _ (s : System) (xs : List ℕ) (h : Inv s xs) (i : ℕ) where
  -- A thread that changes nothing but where it stands
  pub stays-Inv :
      (p : Pc)
      → Ok s.stack s.used xs p
      → ((j : ℕ) → (i == j) ≡ false → Clear p (s.pc j) × Clear (s.pc j) p)
      → Inv (goes s s.stack i p) xs
  stays-Inv p mine apart =
      moved-Inv s xs h s.stack s.used i p xs h.chain h.distinct h.allocated mine (λ j e. h.knows j)
        apart

  pub stays :
      (p : Pc)
      → Ok s.stack s.used xs p
      → ((j : ℕ) → (i == j) ≡ false → Clear p (s.pc j) × Clear (s.pc j) p)
      → Takes s xs [] (goes s s.stack i p)
  stays p mine apart = (xs, stays-Inv p mine apart, refl)

  -- A thread that lets go of its nodes
  pub quiet :
      (p : Pc)
      → ((a : ℕ) → touches p a ≡ false)
      → ((a : ℕ) → owns p a ≡ false)
      → (j : ℕ) → (i == j) ≡ false
      → Clear p (s.pc j) × Clear (s.pc j) p
  quiet p no_touch no_own j ne = (λ a o. absurd (ground (arith, o, no_own a)), λ a o. no_touch a)

  -- What the thread's place says, the other threads' included
  pub place-Ok : (p : Pc) → s.pc i ≡ p → Ok s.stack s.used xs p
  place-Ok p e = rw (sym e) (h.knows i)

  pub others-Clear :
      (p : Pc) → s.pc i ≡ p → (j : ℕ) → (i == j) ≡ false → Clear p (s.pc j) × Clear (s.pc j) p
  others-Clear p e j ne = (rw (sym e) (h.clear i j ne), rw (sym e) (h.clear j i (ground arith)))

  pub start_push-Takes : (n : ℕ) (v : ℤ) → s.used n ≡ false → Takes s xs [] (start_push s i n v)
  unfolding start_push
  start_push-Takes n v fresh =
      let st = record s.stack {
        heap = record s.stack.heap { val = update s.stack.heap.val n v };
      } in
      let out : has n xs ≡ false = elim (Bool-cases (has n xs)) [
        | inl e ↦ absurd (ground (arith, h.allocated n e))
        | inr e ↦ e
      ] in
      let used : (j a : ℕ) → touches (s.pc j) a ≡ true → s.used a ≡ true =
        λ j a t. touches-used s.stack s.used xs (s.pc j) a (h.knows j) t in
      (
        xs,
        moved-Inv s xs h st (update s.used n true) i (pushes n) xs h.chain h.distinct
            (λ a m. ground (arith, h.allocated a m)) (ground (arith, ==_refl n), out)
            (λ j e.
              Ok-frame s.stack st s.used (update s.used n true) xs xs (s.pc j)
                (λ a t u. ground (arith, ne_by s.used n a u fresh, u)) (λ a o m. m) (h.knows j))
            (λ j e. (
              λ a o. elim (Bool-cases (touches (s.pc j) a)) [
                | inl t ↦ absurd (ground (arith, ne_by s.used n a (used j a t) fresh))
                | inr t ↦ t
              ],
              λ a o.
                  ne_by s.used n a
                    (used j a (owns-out s.stack s.used xs (s.pc j) a (h.knows j) o).1) fresh,
            )),
        ap some (
            sym (
              map-frame s.stack.heap.val (update s.stack.heap.val n v) xs
                (λ a m. ground (arith, ne_by s.used n a (h.allocated a m) fresh)))),
      )

  pub load_top-Takes : (n : ℕ) → s.pc i ≡ pushes n → Takes s xs [] (load_top s i n)
  unfolding load_top
  load_top-Takes n at =
      let st = record s.stack {
        heap = record s.stack.heap { next = update s.stack.heap.next n s.stack.top };
      } in
      let me = place-Ok (pushes n) at in
      (
        xs,
        moved-Inv s xs h st s.used i (links n s.stack.top) xs
            (From-frame s.stack.heap.next st.heap.next s.stack.top xs
              (λ a m. ground (arith, ne_of_has n a xs me.1 m)) h.chain)
            h.distinct h.allocated (me.0, me.1, ground (arith, ==_refl n))
            (λ j e.
              Ok-frame s.stack st s.used s.used xs xs (s.pc j)
                (λ a t u. ground (
                  arith,
                  ne_by (touches (s.pc j)) n a t ((others-Clear (pushes n) at j e).0 n (==_refl n)),
                  u,
                ))
                (λ a o m. m) (h.knows j))
            (λ j e. others-Clear (pushes n) at j e),
        refl,
      )

  pub push_cas-Takes :
      (n : ℕ) (old : Option ℕ)
      → s.pc i ≡ links n old
      → Takes s xs (push_cas s i n old).0 (push_cas s i n old).1
  unfolding push_cas
  push_cas-Takes n old at =
      let me = place-Ok (links n old) at in
      elim (Bool-cases (same s.stack.top old)) [
        | inl e ↦
            does s xs (push_cas s i n old) (pushed i (s.stack.heap.val n) ∷ [])
              (goes s (record s.stack { top = some n }) i idle) (push_cas_hit s i n old e)
              (
                n ∷ xs,
                moved-Inv s xs h (record s.stack { top = some n }) s.used i idle (n ∷ xs)
                    (refl, rw (me.2 ∙ sym (same_lem s.stack.top old e)) (h.chain))
                    (me.1, h.distinct)
                    (λ a m. elim (Bool-cases (a == n)) [
                      | inl e ↦ ground (arith, me.0)
                      | inr e ↦ h.allocated a (ground (arith, m, e))
                    ])
                    tt
                    (λ j e.
                      Ok-frame s.stack (record s.stack { top = some n }) s.used s.used xs (n ∷ xs)
                        (s.pc j) (λ a t u. (u, refl, refl))
                        (λ a o m. ground (
                          arith,
                          m,
                          ne_by (touches (s.pc j)) n a
                              (owns-out s.stack s.used xs (s.pc j) a (h.knows j) o).1
                              ((others-Clear (links n old) at j e).0 n (==_refl n)),
                        ))
                        (h.knows j))
                    (quiet idle (λ a. refl) (λ a. refl)),
                refl,
              )
        | inr e ↦
            does s xs (push_cas s i n old) [] (goes s s.stack i (pushes n))
              (push_cas_miss s i n old e)
              (stays (pushes n) (me.0, me.1) (λ j ne. others-Clear (links n old) at j ne))
      ]

  pub follow-Takes :
      (x : ℕ) → s.pc i ≡ reads x → Takes s xs [] (goes s s.stack i (swings x (s.stack.heap.next x)))
  follow-Takes x at =
      stays (swings x (s.stack.heap.next x)) (place-Ok (reads x) at, refl)
        (λ j ne. others-Clear (reads x) at j ne)
