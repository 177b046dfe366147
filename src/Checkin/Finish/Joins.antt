-- ===== src/Checkin/Finish/Joins.antt =====
-- The joins of a2/A2.c's `main`: the customers that it has joined have left.
use csc.Base.{ℕ, ◌≤◌, ◌<◌, ◌≡◌, ◌⊎◌, refl, sym, subst, ap, ◌∙◌, inl, inr, Bool-cases, ltb, arith}
use csc.Checkin.Threads.{
  Class, Phase, arriving, entered, queued, signalled, taken, serving, left, System, Setup,
}
use csc.Checkin.Threads.Runs.{IsClassed}
use csc.Checkin.Threads.Agreement.{put-cases}
use csc.Checkin.Threads.Moves.{Moves, stays, goes_on, is_taken, customer_entry-Moves}
use csc.Checkin.Finish.{
  Doubles, Program, Time, Main, joining, finished, keeps_time, join, main_in, main_step, reports,
  Plays, starts, customer_plays, clerk_plays, wait_returns, main_plays, with_system,
}
use csc.Checkin.Finish.Wakes.{
  Wakes, as_is, is_woken, OnlyWakes, clerk_entry-OnlyWakes, Spurious-OnlyWakes,
}
use csc.Checkin.Finish.Steps.{customer_step-after, now, keeps-main}

-- A customer that has left does nothing.
Moves-left :
    {setup : Setup} {s t : System} {i : ℕ} (j : ℕ)
    → Moves setup s i t
    → s.customer j ≡ left
    → t.customer j ≡ left
Moves-left j stays gone = gone
Moves-left {s} {i} j (goes_on q cust num past on here) gone =
    ap (λ f. f j) cust
    ∙ put-cases (λ r. r ≡ left) s.customer i j q (λ e. absurd (here (ap s.customer (sym e) ∙ gone)))
        (λ _. gone)
Moves-left {s} {i} j (is_taken c clerk of_c at cust num) gone =
    ap (λ f. f j) cust
    ∙ put-cases (λ r. r ≡ left) s.customer i j (taken clerk)
        (λ e. absurd (let clash : signalled ≡ left = sym at ∙ ap s.customer (sym e) ∙ gone in cc))
        (λ _. gone)

Moves-over :
    {setup : Setup} {s t : System} {i : ℕ} → Moves setup s i t → s.customer i ≡ left → t ≡ s
Moves-over stays gone = refl
Moves-over (goes_on q cust num past on here) gone = absurd (here gone)
Moves-over (is_taken c clerk of_c at cust num) gone =
    absurd (let clash : signalled ≡ left = sym at ∙ gone in cc)

Wakes-left : {p q : Phase} → Wakes p q → p ≡ left → q ≡ left
Wakes-left (as_is same) gone = same ∙ gone
Wakes-left (is_woken was is) gone = absurd (let clash : queued ≡ left = sym was ∙ gone in cc)

module _ (doubles : Doubles) (n : ℕ) where
  -- The customers that `main` has joined have left, and what it has printed is of the times as they are.
  abbrev pub Stands : Program doubles → Main → Type 0
  Stands p (joining j) = (i : ℕ) → i < j → p.system.customer i ≡ left
  Stands p finished =
      ((i : ℕ) → i < n → p.system.customer i ≡ left) × (p.output ≡ reports doubles p)

  with_system-Stands :
      (p : Program doubles) (s : System) (m : Main)
      → OnlyWakes p.system s
      → Stands p m
      → Stands (with_system doubles p s) m
  with_system-Stands p s (joining j) wakes st =
      λ i below. Wakes-left (wakes.customer i) (st i below)
  with_system-Stands p s finished wakes (st, out) = (
    λ i below. Wakes-left (wakes.customer i) (st i below),
    out
        ∙ ap (λ f. reports doubles (record p { system = record p.system { num_customers = f } }))
            (sym wakes.num_customers),
  )

  customer-Stands :
      {setup : Setup} (p : Program doubles) (read : doubles.Double) (c : Class) (s : System) (i : ℕ)
      (m : Main)
      → i < n
      → Moves setup p.system i s
      → Stands p m
      → Stands
          (record (keeps_time doubles read i c p (p.system.customer i) (s.customer i)) {
            system = s;
          })
          m
  customer-Stands p read c s i (joining j) below moves st =
      λ h joined. Moves-left h moves (st h joined)
  customer-Stands p read c s i finished below moves (all, out) =
      let gone = all i below in
      subst
        (λ s.
          Stands
            (record (keeps_time doubles read i c p (p.system.customer i) (s.customer i)) {
              system = s;
            })
            finished)
        (sym (Moves-over moves gone))
        (subst
          (λ x. Stands (record (keeps_time doubles read i c p x x) { system = p.system }) finished)
          (sym gone) (all, out))

  join-Stands :
      (p : Program doubles) (j : ℕ) (x : Phase)
      → p.main ≡ joining j
      → p.system.customer j ≡ x
      → Stands p (joining j)
      → Stands (join doubles p j x) (join doubles p j x).main
  join-Stands p j left at e st = λ i below.
      let sides : (i < j) ⊎ (i ≡ j) = omega (arith, below) in
      elim sides [ inl joined ↦ st i joined | inr this ↦ ap p.system.customer this ∙ e ]
  join-Stands p j arriving at e st = subst (Stands p) (sym at) st
  join-Stands p j entered at e st = subst (Stands p) (sym at) st
  join-Stands p j queued at e st = subst (Stands p) (sym at) st
  join-Stands p j signalled at e st = subst (Stands p) (sym at) st
  join-Stands p j (taken clerk) at e st = subst (Stands p) (sym at) st
  join-Stands p j (serving clerk) at e st = subst (Stands p) (sym at) st

  main_in-Stands :
      (p : Program doubles) (m : Main)
      → p.main ≡ m
      → Stands p m
      → Stands (main_in doubles n p m) (main_in doubles n p m).main
  main_in-Stands p (joining j) at st = elim (Bool-cases (ltb j n)) [
    | inl below ↦ rw below (join-Stands p j (p.system.customer j) at refl st)
    | inr over ↦ rw over (
      λ i below. let over' : n ≤ j = ground (arith, over) in st i (omega (arith, below, over')),
      refl,
    )
  ]
  main_in-Stands p finished at st = subst (Stands p) (sym at) st

  -- A step of `main` changes no time and no thread.
  join-rest :
      (p : Program doubles) (j : ℕ) (x : Phase)
      → join doubles p j x
        ≡ record p { main = (join doubles p j x).main; output = (join doubles p j x).output }
  join-rest p j left = refl
  join-rest p j arriving = refl
  join-rest p j entered = refl
  join-rest p j queued = refl
  join-rest p j signalled = refl
  join-rest p j (taken clerk) = refl
  join-rest p j (serving clerk) = refl

  main_in-rest :
      (p : Program doubles) (m : Main)
      → main_in doubles n p m
        ≡ record p { main = (main_in doubles n p m).main; output = (main_in doubles n p m).output }
  main_in-rest p (joining j) = elim (Bool-cases (ltb j n)) [
    | inl below ↦ rw below (join-rest p j (p.system.customer j))
    | inr over ↦ rw over refl
  ]
  main_in-rest p finished = refl

  pub main_step-rest :
      (p : Program doubles)
      → main_step doubles n p
        ≡ record p { main = (main_step doubles n p).main; output = (main_step doubles n p).output }
  unfolding main_step
  main_step-rest p = main_in-rest p p.main

module _ (doubles : Doubles) {init_time : Time} {setup : Setup} {n : ℕ} where
  pub Plays-Stands :
      {p : Program doubles}
      → ((i : ℕ) → IsClassed setup i → i < n)
      → Plays doubles init_time setup n p
      → Stands doubles n p p.main
  unfolding main_step
  Plays-Stands classed (starts unset) = λ i below. absurd (omega (arith, below))
  Plays-Stands classed (customer_plays {p} curr_time i k plays chosen run) =
      let (c, s, of_class, entry, same) =
        customer_step-after doubles init_time curr_time setup i k p run in
      let read = now doubles init_time curr_time setup i k in
      let q = record (keeps_time doubles read i c p (p.system.customer i) (s.customer i)) {
        system = s;
      } in
      subst (λ q. Stands doubles n q q.main) same
        (subst (Stands doubles n q)
          (sym (keeps-main doubles read i c p (p.system.customer i) (s.customer i)))
          (customer-Stands doubles n p read c s i p.main (classed i (c, of_class))
            (customer_entry-Moves setup p.system i k entry) (Plays-Stands classed plays)))
  Plays-Stands classed (clerk_plays {p} k plays low high) =
      with_system-Stands doubles n p _ p.main (clerk_entry-OnlyWakes setup p.system k)
        (Plays-Stands classed plays)
  Plays-Stands classed (wait_returns {p} plays returns) =
      with_system-Stands doubles n p _ p.main (Spurious-OnlyWakes returns)
        (Plays-Stands classed plays)
  Plays-Stands classed (main_plays {p} plays) =
      main_in-Stands doubles n p p.main refl (Plays-Stands classed plays)
