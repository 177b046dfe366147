-- ===== src/Samples/Create/Serviced.antt =====
-- Which customers a2/pthread_create.c says it serves.
use csc.Base.{
  ℕ, ◌+◌, ◌%◌, ◌≤◌, ◌<◌, ◌≡◌, ◌≢◌, ◌⊎◌, refl, sym, ap, ◌∙◌, inl, inr, true, false, Bool-cases, List,
  [], ◌∷◌, ltb, ◌==◌, arith,
}
use csc.Samples.Create.{
  Customer, Thread, not_created, sleeping, returned, Main, creating, failed, waiting, finished,
  Message, service_customer, cannot_create, System, put, main_in, main_step, thread_in,
  print_function, Reach, start, main_acts, thread_acts,
}

-- The message is among the output.
abbrev pub IsPrinted : (id time : ℕ) → List Message → Type 0
IsPrinted id time [] = ⊥
IsPrinted id time (service_customer j t ∷ ms) = ((id ≡ j) × (time ≡ t)) ⊎ IsPrinted id time ms
IsPrinted id time (cannot_create rc ∷ ms) = IsPrinted id time ms

-- No customer is served twice.
abbrev pub EachOnce : List Message → Type 0
EachOnce [] = Unit
EachOnce (service_customer j t ∷ ms) = ((time : ℕ) → IsPrinted j time ms → ⊥) × EachOnce ms
EachOnce (cannot_create rc ∷ ms) = EachOnce ms

pub record IsServing (s : System) : Type 0 where
  pub of_thread :
      (i : ℕ)
      → s.thread i ≢ not_created
      → (i < 10)
        × ((s.cus_array i).id ≡ i)
        × (1 ≤ (s.cus_array i).time)
        × ((s.cus_array i).time ≤ 10)
  pub of_printed :
      (id time : ℕ)
      → IsPrinted id time s.output
      → (s.thread id ≡ returned) × (time ≡ (s.cus_array id).time)
  pub once : EachOnce s.output
  pub later : (i j : ℕ) → s.main ≡ creating i → i ≤ j → s.thread j ≡ not_created

one_main : {i j : ℕ} → creating i ≡ creating j → i ≡ j
one_main e = cc

apart :
    (s : System) {i j : ℕ} {p q : Thread}
    → s.thread i ≡ p
    → s.thread j ≡ q
    → p ≢ q
    → (j == i) ≡ false
apart s {i} {j} at_i at_j differ = elim (Bool-cases (j == i)) [
  | inr other ↦ other
  | inl same ↦
      let e : j ≡ i = ground arith in absurd (differ (sym at_i ∙ ap s.thread (sym e) ∙ at_j))
]

module _ (s : System) (g : IsServing s) (i : ℕ) where
  unset-at : s.main ≡ creating i → (j : ℕ) → s.thread j ≢ not_created → (j == i) ≡ false
  unset-at at j there = elim (Bool-cases (j == i)) [
    | inr other ↦ other
    | inl same ↦
        let e : j ≡ i = ground arith in
        absurd (there (ap s.thread e ∙ g.later i i at (omega arith)))
  ]

  created-IsServing :
      (time : ℕ)
      → s.main ≡ creating i
      → i < 10
      → 1 ≤ time
      → time ≤ 10
      → IsServing (record s {
        cus_array = put s.cus_array i (record { id = i; time = time });
        thread = put s.thread i sleeping;
        main = creating (i + 1);
      })
  created-IsServing time at small low high = record {
    of_thread = λ j there. elim (Bool-cases (j == i)) [
      | inl same ↦
          let e : j ≡ i = ground arith in rw same (omega (arith, e, small), sym e, low, high)
      | inr other ↦ rw other (g.of_thread j (rw other at there))
    ];
    of_printed = λ id t among.
        let (gone, same) = g.of_printed id t among in
        let other =
          unset-at at id
            (λ none_yet. let clash : returned ≡ not_created = sym gone ∙ none_yet in cc) in
        rw other (gone, same);
    once = g.once;
    later = λ a j next from.
        let e = one_main next in
        let other : (j == i) ≡ false = ground (arith, e, from) in
        rw other (g.later i j at (omega (arith, e, from)));
  }

  failed-IsServing :
      (c : Customer) (rc : ℕ)
      → s.main ≡ creating i
      → IsServing (record s {
        cus_array = put s.cus_array i c;
        main = failed;
        output = cannot_create rc ∷ s.output;
      })
  failed-IsServing c rc at = record {
    of_thread = λ j there. rw (unset-at at j there) (g.of_thread j there);
    of_printed = λ id t among.
        let (gone, same) = g.of_printed id t among in
        let other =
          unset-at at id
            (λ none_yet. let clash : returned ≡ not_created = sym gone ∙ none_yet in cc) in
        rw other (gone, same);
    once = g.once;
    later = λ a j next from. cc;
  }

  serves-IsServing :
      s.thread i ≡ sleeping
      → IsServing (record s {
        thread = put s.thread i returned;
        output = service_customer (s.cus_array i).id (s.cus_array i).time ∷ s.output;
      })
  serves-IsServing asleep = record {
    of_thread = λ j there. elim (Bool-cases (j == i)) [
      | inl same ↦
          let e : j ≡ i = ground arith in
          g.of_thread j (λ none_yet.
            let clash : sleeping ≡ not_created = sym asleep ∙ ap s.thread (sym e) ∙ none_yet in cc)
      | inr other ↦ g.of_thread j (rw other at there)
    ];
    of_printed = λ id t. elim [
      | inl (same_id, same_time) ↦
          let e = same_id ∙ own_id in
          (
            let here : (id == i) ≡ true = ground (arith, e) in rw here refl,
            same_time ∙ ap (λ k. (s.cus_array k).time) (sym e),
          )
      | inr among ↦
          let (gone, same) = g.of_printed id t among in
          (rw (apart s asleep gone (λ e. cc)) gone, same)
    ];
    once = (
      λ t among.
          let (gone, same) = g.of_printed (s.cus_array i).id t among in
          let clash : sleeping ≡ returned = sym asleep ∙ ap s.thread (sym own_id) ∙ gone in cc,
      g.once,
    );
    later = λ a j next from.
        let none_yet = g.later a j next from in rw (apart s asleep none_yet (λ e. cc)) none_yet;
  }
    where
      own_id : (s.cus_array i).id ≡ i
      own_id =
          (g.of_thread i
            (λ none_yet. let clash : sleeping ≡ not_created = sym asleep ∙ none_yet in cc)).1

main_in-IsServing :
    (s : System) (rand rc : ℕ) (m : Main)
    → s.main ≡ m
    → IsServing s
    → IsServing (main_in rand rc s m)
main_in-IsServing s rand rc (creating i) at g = elim (Bool-cases (ltb i 10)) [
  | inr over ↦ rw over (record {
    of_thread = g.of_thread;
    of_printed = g.of_printed;
    once = g.once;
    later = λ a j next from. cc;
  })
  | inl small ↦ rw small (elim (Bool-cases (rc == 0)) [
    | inl created ↦ rw created (
        created-IsServing s g i (rand % 10 + 1) at (ground (arith, small)) (omega arith)
          (omega arith))
    | inr error ↦ rw error (failed-IsServing s g i _ rc at)
  ])
]
main_in-IsServing s rand rc failed at g = g
main_in-IsServing s rand rc waiting at g = record {
  of_thread = g.of_thread;
  of_printed = g.of_printed;
  once = g.once;
  later = λ a j next from. cc;
}
main_in-IsServing s rand rc finished at g = g

thread_in-IsServing :
    (s : System) (i : ℕ) (m : Main) (t : Thread)
    → s.thread i ≡ t
    → IsServing s
    → IsServing (thread_in s i m t)
thread_in-IsServing s i failed t at g = g
thread_in-IsServing s i finished t at g = g
thread_in-IsServing s i (creating j) not_created at g = g
thread_in-IsServing s i (creating j) sleeping at g = serves-IsServing s g i at
thread_in-IsServing s i (creating j) returned at g = g
thread_in-IsServing s i waiting not_created at g = g
thread_in-IsServing s i waiting sleeping at g = serves-IsServing s g i at
thread_in-IsServing s i waiting returned at g = g

-- In every state that the program reaches, in whatever order `main` and the threads go on, and whatever
-- `rand` and `pthread_create` return: each thread that was created has a customer of its own, one of
-- ten, with a time from 1 to 10; what is printed is of customers whose threads have returned, with
-- their times; and no customer is printed twice.
pub Reach-IsServing : {s : System} → Reach s → IsServing s
unfolding main_step print_function
Reach-IsServing (start unset) = record {
  of_thread = λ i there. absurd (there refl);
  of_printed = λ id t among. absurd among;
  once = tt;
  later = λ i j at from. refl;
}
Reach-IsServing (main_acts {s} rand rc r) =
    main_in-IsServing s rand rc s.main refl (Reach-IsServing r)
Reach-IsServing (thread_acts {s} i r) =
    thread_in-IsServing s i s.main (s.thread i) refl (Reach-IsServing r)
