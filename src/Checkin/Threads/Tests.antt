-- ===== src/Checkin/Threads/Tests.antt =====
-- Tests of the model of a2/A2.c's threads, and the theorems at two business customers.
use csc.Base.{
  value_or, ℕ, ◌+◌, ◌≤◌, ◌≡◌, ◌≢◌, refl, List, [], ◌∷◌, length, arith, ok, inl, inr, pos, ◌>>=◌,
  Bool-cases, ◌==◌,
}
use csc.Checkin.Queue.{read, queue_enqueue, queue_dequeue, check_head}
use csc.Checkin.Desk.{enter, wake, call, clear, Reached, starts, enters}
use csc.Checkin.Threads.{
  economy, business, taken, left, requesting, waiting, asleep, System, start_system, Setup,
  customer_entry, clerk_entry, enters_queue, round, calls_class,
}
use csc.Checkin.Threads.Runs.{IsSetup, IsChosen, Reach, start, acts, customer_acts, clerk_acts}
use csc.Checkin.Threads.Safety.{Reach-no_fault, Reach-Reached}
use csc.Checkin.Threads.Forgotten.{here, goes, IsForgotten}
use csc.Checkin.Threads.Forgotten.Steps.{Goes-waiting}
use csc.Checkin.Threads.Served.{call-serves}

abbrev all_business : Setup
all_business = record { id = λ i. i; class_type = λ i. pos 1; address = λ i. i + 16 }

all_business-IsSetup : IsSetup all_business
all_business-IsSetup = record {
  distinct_ids = λ i j classed_i classed_j e. e;
  distinct_nodes = λ i j e. omega (arith, e);
  allocated = λ i e. omega (arith, e);
}

abbrev customer_acts_on : System → ℕ → System
customer_acts_on s i = value_or s (customer_entry all_business s i 1)

abbrev clerk_acts_on : System → ℕ → System
clerk_acts_on s k = clerk_entry all_business s k

-- Customer 0 enters the queue, and signals.
abbrev one_queued : System
one_queued = customer_acts_on (customer_acts_on start_system 0) 0

-- A clerk finds it.
abbrev finds : System → ℕ → System
finds s k = clerk_acts_on (clerk_acts_on (clerk_acts_on s k) k) k

abbrev one_called : System
one_called = clerk_acts_on (finds one_queued 1) 1

one_taken : (customer_acts_on one_called 0).customer 0 ≡ taken 1
unfolding customer_entry clerk_entry enters_queue enter queue_enqueue round calls_class call wake
    check_head queue_dequeue read
one_taken = refl

nobody_asleep : IsChosen start_system.clerk 1
nobody_asleep = inr (λ j lo hi e. cc)

one_queued-Reach : Reach all_business one_queued
unfolding customer_entry enters_queue enter queue_enqueue read
one_queued-Reach =
    acts (acts start (customer_acts 0 1 nobody_asleep refl)) (customer_acts 0 1 nobody_asleep refl)

clerk-Reach :
    {s : System} (k : ℕ)
    → 1 ≤ k
    → k ≤ 5
    → Reach all_business s
    → Reach all_business (clerk_acts_on s k)
clerk-Reach k lo hi r = acts r (clerk_acts k lo hi)

finds-Reach :
    {s : System} (k : ℕ) → 1 ≤ k → k ≤ 5 → Reach all_business s → Reach all_business (finds s k)
finds-Reach k lo hi r = clerk-Reach k lo hi (clerk-Reach k lo hi (clerk-Reach k lo hi r))

one_called-Reach : Reach all_business one_called
one_called-Reach =
    clerk-Reach 1 (omega arith) (omega arith)
      (finds-Reach 1 (omega arith) (omega arith) one_queued-Reach)

Reach-no_fault_example : (t : System) × (customer_entry all_business one_called 0 1 ≡ ok t)
Reach-no_fault_example = Reach-no_fault 0 1 all_business-IsSetup (business, refl) one_called-Reach

Reach-Reached_example :
    (entered : List ℕ) × (taken : List (ℕ × ℕ)) × (calls : ℕ) × Reached
      (one_called.desk business)
      entered
      taken
      calls
    × (one_called.num_customers business ≡ length taken)
Reach-Reached_example = Reach-Reached business all_business-IsSetup one_called-Reach

abbrev one_found : System
one_found = finds one_queued 1

one_in : Reached (one_found.desk business) (0 ∷ []) [] 0
unfolding customer_entry clerk_entry enters_queue enter queue_enqueue read
one_in = enters 0 16 starts (omega arith) refl refl

call-serves_example :
    (t : System) × ((do
      taken_s ← customer_entry all_business (clerk_acts_on (clerk_acts_on one_found 1) 1) 0 1
      serving_s ← customer_entry all_business taken_s 0 1
      customer_entry all_business serving_s 0 1)
      ≡ ok t)
    × (t.customer 0 ≡ left)
    × (t.clerk 1 ≡ requesting)
    × (t.num_customers business ≡ one_found.num_customers business + 1)
unfolding customer_entry clerk_entry enters_queue enter queue_enqueue read
call-serves_example =
    call-serves all_business one_found 0 1 1 [] (omega arith) (omega arith) refl one_in refl refl
      refl refl

-- Clerks 1 and 2 call before customer 0 comes back, which is then taken by clerk 2.
abbrev called_twice : System
called_twice = clerk_acts_on (clerk_acts_on (finds (finds one_queued 1) 2) 1) 2

abbrev forgotten : System
forgotten = clerk_acts_on (customer_acts_on (customer_acts_on called_twice 0) 0) 1

awake : (j : ℕ) → 1 ≤ j → j ≤ 5 → called_twice.clerk j ≢ asleep
unfolding customer_entry clerk_entry enters_queue enter queue_enqueue calls_class call read
awake j lo hi e = elim (Bool-cases (j == 2)) [
  | inl two ↦ let e' : _ = rw two at e in cc
  | inr not_two ↦ elim (Bool-cases (j == 1)) [
    | inl one ↦ let e' : _ = rw (not_two, one) at e in cc
    | inr not_one ↦ let e' : _ = rw (not_two, not_one) at e in cc
  ]
]

forgotten-Reach : Reach all_business forgotten
unfolding customer_entry clerk_entry enters_queue enter queue_enqueue round calls_class call wake
    check_head queue_dequeue read
forgotten-Reach = clerk-Reach 1 (omega arith) (omega arith) (
    acts
      (acts
        (clerk-Reach 2 (omega arith) (omega arith) (
          clerk-Reach 1 (omega arith) (omega arith) (
            finds-Reach 2 (omega arith) (omega arith)
              (finds-Reach 1 (omega arith) (omega arith) one_queued-Reach))))
        (customer_acts 0 1 (inr awake) refl))
      (customer_acts 0 1 (inr awake) refl))

still_awake : (j : ℕ) → 1 ≤ j → j ≤ 5 → forgotten.clerk j ≢ asleep
unfolding customer_entry clerk_entry enters_queue enter queue_enqueue round calls_class call wake
    check_head queue_dequeue read clear
still_awake j lo hi e = elim (Bool-cases (j == 1)) [
  | inl one ↦ let e' : _ = rw one at e in cc
  | inr not_one ↦ elim (Bool-cases (j == 2)) [
    | inl two ↦ let e' : _ = rw (not_one, two) at e in cc
    | inr not_two ↦ let e' : _ = rw (not_one, not_two) at e in cc
  ]
]

forgotten-IsForgotten : IsForgotten 1 forgotten
unfolding customer_entry clerk_entry enters_queue enter queue_enqueue round calls_class call wake
    check_head queue_dequeue read clear
forgotten-IsForgotten = record {
  waits = refl;
  unserved =
      λ i. elim (Bool-cases (i == 0)) [ inl first ↦ rw first refl | inr other ↦ rw other refl ];
  unnamed = elim [ economy ↦ λ e. omega (arith, e) | business ↦ λ e. omega (arith, e) ];
}

Goes-waiting_example : (customer_acts_on forgotten 0).clerk 1 ≡ waiting
unfolding customer_entry clerk_entry enters_queue enter queue_enqueue round calls_class call wake
    check_head queue_dequeue read clear
Goes-waiting_example =
    Goes-waiting {setup = all_business} {t = customer_acts_on forgotten 0} 1 (omega arith)
      forgotten-IsForgotten (goes here (customer_acts 0 1 (inr still_awake) refl))
