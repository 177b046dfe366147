-- ===== src/Checkin/Threads/Stuck/Tests.antt =====
-- A run of a2/A2.c's threads that ends with a customer who waits for ever.
use csc.Base.{
  value_or, is_ok, ok-value_or, ℕ, zero, suc, ◌+◌, ◌≤◌, ◌≡◌, ◌≢◌, ◌⊎◌, refl, inl, inr, true, false,
  if◌then◌else◌, ltb, arith, pos,
}
use csc.Checkin.Queue.{read, queue_enqueue, queue_dequeue, check_head}
use csc.Checkin.Desk.{enter, wake, call, clear}
use csc.Checkin.Threads.{
  business, queued, left, asleep, waiting, System, start_system, Setup, customer_entry, clerk_entry,
  enters_queue, round, calls_class,
}
use csc.Checkin.Threads.Runs.{IsClassed, Reach, start, acts, customer_acts, clerk_acts}
use csc.Checkin.Threads.Idle.{idle, idle-IsChosen}
use csc.Checkin.Threads.Stuck.{here, then_step, IsStuck}
use csc.Checkin.Threads.Stuck.Lost.{IsTooLate, signal-lost}

-- Two business customers; there are no more.
abbrev two : Setup
two = record {
  id = λ i. i;
  class_type = λ i. if ltb i 2 then pos 1 else pos 2;
  address = λ i. i + 16;
}

abbrev customer : ℕ → System → System
customer i s = value_or s (customer_entry two s i 1)

abbrev clerk : ℕ → System → System
clerk k s = clerk_entry two s k

-- A clerk finds customers, calls them and comes to its wait.
abbrev finds : ℕ → System → System
finds k s = clerk k (clerk k (clerk k s))

abbrev calls : ℕ → System → System
calls k s = clerk k (clerk k s)

abbrev all_find : System → System
all_find s = finds 5 (finds 4 (finds 3 (finds 2 (finds 1 s))))

abbrev all_call : System → System
all_call s = calls 5 (calls 4 (calls 3 (calls 2 (calls 1 s))))

-- Customer 0 enters, and all five clerks call it; the last one serves it, and the others are forgotten.
abbrev served : System
served =
    customer 0
      (customer 0 (customer 0 (all_call (all_find (customer 0 (customer 0 start_system))))))

-- Clerk 5 sees empty queues and is about to wait when customer 1 enters and signals.
abbrev unheard : System
unheard = customer 1 (customer 1 (clerk 5 (clerk 5 (clerk 5 served))))

abbrev stuck : System
stuck = clerk 5 unheard

stuck_customer : stuck.customer 1 ≡ queued
unfolding customer_entry clerk_entry enters_queue enter queue_enqueue round calls_class call wake
    check_head queue_dequeue read clear
stuck_customer = refl

stuck_clerk : stuck.clerk 5 ≡ asleep
unfolding customer_entry clerk_entry enters_queue enter queue_enqueue round calls_class call wake
    check_head queue_dequeue read clear
stuck_clerk = refl

stuck_size : (stuck.desk business).queue.size ≡ 1
unfolding customer_entry clerk_entry enters_queue enter queue_enqueue round calls_class call wake
    check_head queue_dequeue read clear
stuck_size = refl

clerk-Reach : {s : System} (k : ℕ) → 1 ≤ k → k ≤ 5 → Reach two s → Reach two (clerk k s)
clerk-Reach k lo hi r = acts r (clerk_acts k lo hi)

finds-Reach : {s : System} (k : ℕ) → 1 ≤ k → k ≤ 5 → Reach two s → Reach two (finds k s)
finds-Reach k lo hi r = clerk-Reach k lo hi (clerk-Reach k lo hi (clerk-Reach k lo hi r))

calls-Reach : {s : System} (k : ℕ) → 1 ≤ k → k ≤ 5 → Reach two s → Reach two (calls k s)
calls-Reach k lo hi r = clerk-Reach k lo hi (clerk-Reach k lo hi r)

all_find-Reach : {s : System} → Reach two s → Reach two (all_find s)
all_find-Reach r = finds-Reach 5 (omega arith) (omega arith) (
    finds-Reach 4 (omega arith) (omega arith) (
      finds-Reach 3 (omega arith) (omega arith)
        (finds-Reach 2 (omega arith) (omega arith) (finds-Reach 1 (omega arith) (omega arith) r))))

all_call-Reach : {s : System} → Reach two s → Reach two (all_call s)
all_call-Reach r = calls-Reach 5 (omega arith) (omega arith) (
    calls-Reach 4 (omega arith) (omega arith) (
      calls-Reach 3 (omega arith) (omega arith)
        (calls-Reach 2 (omega arith) (omega arith) (calls-Reach 1 (omega arith) (omega arith) r))))

-- The states between.
abbrev in_queue_0 : System
in_queue_0 = customer 0 start_system

abbrev waits_0 : System
waits_0 = customer 0 in_queue_0

abbrev called_0 : System
called_0 = all_call (all_find waits_0)

abbrev taken_0 : System
taken_0 = customer 0 called_0

abbrev serving_0 : System
serving_0 = customer 0 taken_0

abbrev about_5 : System
about_5 = clerk 5 (clerk 5 (clerk 5 served))

abbrev in_queue_1 : System
in_queue_1 = customer 1 about_5

-- No clerk sleeps, and the customer's step has no fault.
abbrev Acts : ℕ → System → Type 0
Acts i s = (idle s.clerk 5 ≡ true) × (is_ok (customer_entry two s i 1) ≡ true)

start_system-Acts : Acts 0 start_system
unfolding customer_entry clerk_entry enters_queue enter queue_enqueue round calls_class call wake
    check_head queue_dequeue read clear
start_system-Acts = (refl, refl)

in_queue_0-Acts : Acts 0 in_queue_0
unfolding customer_entry clerk_entry enters_queue enter queue_enqueue round calls_class call wake
    check_head queue_dequeue read clear
in_queue_0-Acts = (refl, refl)

called_0-Acts : Acts 0 called_0
unfolding customer_entry clerk_entry enters_queue enter queue_enqueue round calls_class call wake
    check_head queue_dequeue read clear
called_0-Acts = (refl, refl)

taken_0-Acts : Acts 0 taken_0
unfolding customer_entry clerk_entry enters_queue enter queue_enqueue round calls_class call wake
    check_head queue_dequeue read clear
taken_0-Acts = (refl, refl)

serving_0-Acts : Acts 0 serving_0
unfolding customer_entry clerk_entry enters_queue enter queue_enqueue round calls_class call wake
    check_head queue_dequeue read clear
serving_0-Acts = (refl, refl)

about_5-Acts : Acts 1 about_5
unfolding customer_entry clerk_entry enters_queue enter queue_enqueue round calls_class call wake
    check_head queue_dequeue read clear
about_5-Acts = (refl, refl)

in_queue_1-Acts : Acts 1 in_queue_1
unfolding customer_entry clerk_entry enters_queue enter queue_enqueue round calls_class call wake
    check_head queue_dequeue read clear
in_queue_1-Acts = (refl, refl)

customer-Reach : {s : System} (i : ℕ) → Acts i s → Reach two s → Reach two (customer i s)
customer-Reach {s} i (e, run) r =
    acts r (customer_acts i 1 (idle-IsChosen s e) (ok-value_or s (customer_entry two s i 1) run))

called_0-Reach : Reach two called_0
called_0-Reach = all_call-Reach {s = all_find waits_0} (
    all_find-Reach {s = waits_0} (
      customer-Reach {s = in_queue_0} 0 in_queue_0-Acts
        (customer-Reach {s = start_system} 0 start_system-Acts start)))

served-Reach : Reach two served
served-Reach = customer-Reach {s = serving_0} 0 serving_0-Acts (
    customer-Reach {s = taken_0} 0 taken_0-Acts
      (customer-Reach {s = called_0} 0 called_0-Acts called_0-Reach))

about_5-Reach : Reach two about_5
about_5-Reach = clerk-Reach {s = clerk 5 (clerk 5 served)} 5 (omega arith) (omega arith) (
    clerk-Reach {s = clerk 5 served} 5 (omega arith) (omega arith)
      (clerk-Reach {s = served} 5 (omega arith) (omega arith) served-Reach))

in_queue_1-Reach : Reach two in_queue_1
in_queue_1-Reach = customer-Reach {s = about_5} 1 about_5-Acts about_5-Reach

stuck-Reach : Reach two stuck
stuck-Reach =
    clerk-Reach {s = unheard} 5 (omega arith) (omega arith)
      (customer-Reach {s = in_queue_1} 1 in_queue_1-Acts in_queue_1-Reach)

zero_out : 1 ≤ 0 → ⊥
zero_out lo = omega (arith, lo)

six_out : (k : ℕ) → suc (suc (suc (suc (suc (suc k))))) ≤ 5 → ⊥
six_out k hi = omega (arith, hi)

stuck-IsStuck : IsStuck two stuck
unfolding customer_entry clerk_entry enters_queue enter queue_enqueue round calls_class call wake
    check_head queue_dequeue read clear
stuck-IsStuck = record { customers = of_two; clerks = of_five }
  where
    of_two : (i : ℕ) → IsClassed two i → (stuck.customer i ≡ queued) ⊎ (stuck.customer i ≡ left)
    of_two zero k = inr refl
    of_two (suc zero) k = inl refl
    of_two (suc (suc i)) (c, e) =
        let none_more : ltb (suc (suc i)) 2 ≡ false = ground arith in
        let e' : _ = rw none_more at e in cc

    of_five : (k : ℕ) → 1 ≤ k → k ≤ 5 → (stuck.clerk k ≡ asleep) ⊎ (stuck.clerk k ≡ waiting)
    of_five zero lo hi = absurd (zero_out lo)
    of_five (suc zero) lo hi = inr refl
    of_five (suc (suc zero)) lo hi = inr refl
    of_five (suc (suc (suc zero))) lo hi = inr refl
    of_five (suc (suc (suc (suc zero)))) lo hi = inr refl
    of_five (suc (suc (suc (suc (suc zero))))) lo hi = inl refl
    of_five (suc (suc (suc (suc (suc (suc k)))))) lo hi = absurd (six_out k hi)

in_queue_1-IsTooLate : IsTooLate two in_queue_1 1 5
unfolding customer_entry clerk_entry enters_queue enter queue_enqueue round calls_class call wake
    check_head queue_dequeue read clear
in_queue_1-IsTooLate = record {
  low = omega arith;
  high = omega arith;
  tested = refl;
  others_wait = of_four;
  class = business;
  of_class = refl;
  in_queue = refl;
  others = of_one;
}
  where
    of_one :
        (j : ℕ)
        → IsClassed two j
        → j ≢ 1
        → (in_queue_1.customer j ≡ queued) ⊎ (in_queue_1.customer j ≡ left)
    of_one zero k apart = inr refl
    of_one (suc zero) k apart = absurd (apart refl)
    of_one (suc (suc j)) (c, e) apart =
        let none_more : ltb (suc (suc j)) 2 ≡ false = ground arith in
        let e' : _ = rw none_more at e in cc

    of_four : (k : ℕ) → 1 ≤ k → k ≤ 5 → k ≢ 5 → in_queue_1.clerk k ≡ waiting
    of_four zero lo hi apart = absurd (zero_out lo)
    of_four (suc zero) lo hi apart = refl
    of_four (suc (suc zero)) lo hi apart = refl
    of_four (suc (suc (suc zero))) lo hi apart = refl
    of_four (suc (suc (suc (suc zero)))) lo hi apart = refl
    of_four (suc (suc (suc (suc (suc zero))))) lo hi apart = absurd (apart refl)
    of_four (suc (suc (suc (suc (suc (suc k)))))) lo hi apart = absurd (six_out k hi)

signal-lost_example :
    Reach two (clerk 5 stuck)
    × (clerk 5 stuck ≡ clerk 5 unheard)
    × ((clerk 5 stuck).customer 1 ≡ queued)
    × ((clerk 5 stuck).desk ≡ in_queue_1.desk)
signal-lost_example =
    signal-lost {setup = two} {s = in_queue_1} {t = unheard} {u = clerk 5 stuck} 1 5 1
      in_queue_1-Reach in_queue_1-IsTooLate (idle-IsChosen in_queue_1 in_queue_1-Acts.0)
      (ok-value_or in_queue_1 (customer_entry two in_queue_1 1 1) in_queue_1-Acts.1)
      (then_step here (clerk_acts 5 (omega arith) (omega arith)))
