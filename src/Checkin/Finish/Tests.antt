-- ===== src/Checkin/Finish/Tests.antt =====
-- A run of a2/A2.c's program with one customer, up to the averages, with whole numbers for `double`.
use csc.Base.{
  List, some, inr, ◌⊎◌, length, ℕ, zero, suc, ◌+◌, ◌-◌, ◌/◌, ◌<◌, ◌≡◌, refl, true, [], ◌∷◌, arith,
  ok, value_or, is_ok, ok-value_or, pos,
}
use csc.Checkin.Queue.{read, queue_enqueue, queue_dequeue, check_head}
use csc.Text.{tokens, strtol}
use csc.Checkin.Input.{Customer, read_file, read_lines, add_customer_to_list, value_at}
use csc.Checkin.Input.Fields.{customer_line}
use csc.Checkin.Main.{started, customer_array, setup_of, main}
use csc.Checkin.Main.Starts.{IsFile, setup_of-IsSetup}
use csc.Checkin.Finish.History.{visits_of}
use csc.Checkin.Finish.Whole.{main-Averaged}
use csc.Checkin.Desk.{enter, wake, call, clear}
use csc.Checkin.Threads.{
  economy, business, Setup, customer_entry, clerk_entry, enters_queue, round, calls_class,
}
use csc.Checkin.Threads.Runs.{IsSetup}
use csc.Checkin.Threads.Idle.{idle, idle-IsChosen}
use csc.Checkin.Finish.{
  Doubles, Program, Time, all_jobs_done, average_business, average_economy, average_all, finished,
  start_program, customer_step, with_system, main_step, Plays, starts, customer_plays, clerk_plays,
  main_plays, get_current_system_time,
}
use csc.Checkin.Finish.Averages.{Averaged, Waited, Plays-Waited}

abbrev whole : Doubles
whole = record {
  Double = ℕ;
  of_int = λ n. n;
  add = λ a b. a + b;
  sub = λ a b. a - b;
  div = λ a b. a / b;
}

abbrev at_second : ℕ → Time
at_second n = record { tv_sec = n; tv_usec = 0 }

-- A file of one business customer.
abbrev as_text : List ℕ → List ℕ
as_text t = t

abbrev the_customer : Customer (List ℕ)
the_customer = record {
  id = pos 7;
  class_type = pos 1;
  service_time = b'9' ∷ [];
  arrival_time = b'1' ∷ [];
}

abbrev file : List (List ℕ)
file = (b'1' ∷ []) ∷ customer_line (b'7' ∷ []) (b'1' ∷ []) (b'1' ∷ []) (b'9' ∷ []) ∷ []

file-read : read_file as_text file ≡ ok (pos 1, the_customer ∷ [])
unfolding read_file read_lines add_customer_to_list value_at tokens strtol
file-read = refl

only_one : (i : ℕ) → suc i < 1 → ⊥
only_one i l = omega (arith, l)

the_customer-IsFile : IsFile [] 1 (the_customer ∷ [])
the_customer-IsFile = record {
  distinct_ids = λ i j li lj e. omega (arith, li, lj);
  two_classes = business_class;
}
  where
    business_class :
        (i : ℕ)
        → i < 1
        → ((customer_array [] (the_customer ∷ []) i).class_type ≡ pos 0)
          ⊎ ((customer_array [] (the_customer ∷ []) i).class_type ≡ pos 1)
    business_class zero l = inr refl
    business_class (suc i) l = absurd (only_one i l)

abbrev addresses : ℕ → ℕ
addresses i = i + 16

abbrev one : Setup
one = setup_of [] 1 (the_customer ∷ []) addresses

one-IsSetup : IsSetup one
one-IsSetup =
    setup_of-IsSetup [] the_customer-IsFile addresses
      (record { distinct = λ i j e. omega (arith, e); allocated = λ i e. omega (arith, e) })

abbrev customer_at : ℕ → Program whole → Program whole
customer_at second p = value_or p (customer_step whole (at_second 0) (at_second second) one p 0 1)

abbrev clerk_1 : Program whole → Program whole
clerk_1 p = with_system whole p (clerk_entry one p.system 1)

abbrev joins : Program whole → Program whole
joins p = main_step whole 1 p

-- The customer enters at second 1, is called, and is taken at second 31.
abbrev beginning : Program whole
beginning = start_program whole (λ i. 0)

abbrev in_queue : Program whole
in_queue = customer_at 1 beginning

abbrev called_at : Program whole
called_at = clerk_1 (clerk_1 (clerk_1 (clerk_1 (clerk_1 (customer_at 1 in_queue)))))

abbrev taken_at : Program whole
taken_at = customer_at 31 called_at

abbrev serving_at : Program whole
serving_at = customer_at 31 taken_at

abbrev gone_at : Program whole
gone_at = customer_at 40 serving_at

abbrev ended : Program whole
ended = joins (joins gone_at)

-- With no customer of the economy class the program divides by 0, which whole numbers take as 0.
ended_output :
    ended.output ≡ all_jobs_done ∷ average_business 30 ∷ average_economy 0 ∷ average_all 30 ∷ []
unfolding customer_step main_step customer_entry clerk_entry enters_queue enter queue_enqueue round
    calls_class call wake check_head queue_dequeue read clear get_current_system_time
ended_output = refl

-- No clerk sleeps, and the customer's step has no fault.
abbrev Acts : ℕ → Program whole → Type 0
Acts second p =
    (idle p.system.clerk 5 ≡ true)
    × (is_ok (customer_step whole (at_second 0) (at_second second) one p 0 1) ≡ true)

abbrev OneJoined : Program whole → Type 0
OneJoined p = Plays whole (at_second 0) one 1 p

customer-Plays :
    {p : Program whole} (second : ℕ)
    → Acts second p
    → OneJoined p
    → OneJoined (customer_at second p)
customer-Plays {p} second (e, run) plays =
    customer_plays (at_second second) 0 1 plays (idle-IsChosen p.system e)
      (ok-value_or p (customer_step whole (at_second 0) (at_second second) one p 0 1) run)

clerk-Plays : {p : Program whole} → OneJoined p → OneJoined (clerk_1 p)
clerk-Plays plays = clerk_plays 1 plays (omega arith) (omega arith)

beginning-Acts : Acts 1 beginning
unfolding customer_step customer_entry enters_queue enter queue_enqueue read
beginning-Acts = (refl, refl)

in_queue-Acts : Acts 1 in_queue
unfolding customer_step customer_entry enters_queue enter queue_enqueue read
in_queue-Acts = (refl, refl)

called-Acts : Acts 31 called_at
unfolding customer_step customer_entry clerk_entry enters_queue enter queue_enqueue round
    calls_class call wake check_head queue_dequeue read
called-Acts = (refl, refl)

taken-Acts : Acts 31 taken_at
unfolding customer_step customer_entry clerk_entry enters_queue enter queue_enqueue round
    calls_class call wake check_head queue_dequeue read clear
taken-Acts = (refl, refl)

serving-Acts : Acts 40 serving_at
unfolding customer_step customer_entry clerk_entry enters_queue enter queue_enqueue round
    calls_class call wake check_head queue_dequeue read clear
serving-Acts = (refl, refl)

called-Plays : OneJoined called_at
called-Plays = clerk-Plays (
    clerk-Plays (
      clerk-Plays (
        clerk-Plays (
          clerk-Plays {p = customer_at 1 in_queue} (
            customer-Plays {p = in_queue} 1 in_queue-Acts
              (customer-Plays {p = beginning} 1 beginning-Acts (starts (λ i. 0))))))))

-- Clerk 1 has called the customer, and it is taken.
taken-Plays : OneJoined taken_at
taken-Plays = customer-Plays {p = called_at} 31 called-Acts called-Plays

ended-Plays : OneJoined ended
ended-Plays = main_plays {p = joins gone_at} (
    main_plays {p = gone_at} (
      customer-Plays {p = serving_at} 40 serving-Acts
        (customer-Plays {p = taken_at} 31 taken-Acts taken-Plays)))

ended-finished : ended.main ≡ finished
unfolding customer_step main_step customer_entry clerk_entry enters_queue enter queue_enqueue round
    calls_class call wake check_head queue_dequeue read clear
ended-finished = refl

main-Averaged_example :
    (main as_text [] (some (some file)) addresses ≡ ok (started (1 ∷ 2 ∷ 3 ∷ 4 ∷ 5 ∷ []) 1 one))
    × Averaged whole ended-Plays
    × (length (visits_of whole ended-Plays business) + length (visits_of whole ended-Plays economy)
        ≡ 1)
main-Averaged_example =
    main-Averaged whole [] as_text file addresses file-read (omega arith) (omega arith)
      the_customer-IsFile ended-Plays ended-finished

Plays-Waited_example : Waited whole taken-Plays business
Plays-Waited_example = Plays-Waited whole taken-Plays business
