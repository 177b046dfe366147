-- ===== src/Samples/Tests.antt =====
-- Tests of the models of the samples.
use csc.Base.{
  true, pos, false, ℕ, ◌≡◌, ◌≢◌, ◌==◌, if◌then◌else◌, refl, List, [], ◌∷◌, ok, fault, some,
}
use csc.Text.{strtol}
use csc.Samples.Arguments.{rule, argument, print_arguments, prints, sleeps, repeat_tag}
use csc.Samples.Mutex.{
  looping, adding, creating, joining, finished, Message, final_value, cannot_create, System,
  start_system, Reach, thread_function, main_step,
}
use csc.Samples.Convar
use csc.Samples.Create
use csc.Samples.Create.Serviced.{IsServing, Reach-IsServing}
use csc.Samples.Convar.{
  first_begins, second_begins, second_ended, creating_second, joining_first, thread_1, thread_2,
  Runs, here, first_acts, second_acts, main_acts,
}
use csc.Samples.Convar.Lost.{before_wait, signal-before_wait}
use csc.Samples.Mutex.Final.{AllCreated, Reach-final}
use csc.Samples.Mutex.Completion.{Reach-finishes}

abbrev no_error : ℕ → ℕ
no_error i = 0

no_error-AllCreated : AllCreated no_error
no_error-AllCreated i small = refl

abbrev whole_run : (s : System) × Reach no_error s × (s.main ≡ finished)
whole_run = Reach-finishes no_error-AllCreated

Reach-finishes_example : (s : System) × Reach no_error s × (s.main ≡ finished)
Reach-finishes_example = Reach-finishes no_error-AllCreated

Reach-final_example :
    (earlier : List Message) × (whole_run.0.output ≡ final_value 5000000 ∷ earlier)
Reach-final_example = Reach-final no_error-AllCreated whole_run.1 whole_run.2

abbrev adds : System
adds = record start_system { counter = 7; lock = some 2; thread = λ t. adding 7 7 }

added :
    thread_function adds 2
    ≡ ok (record adds { counter = 8; thread = λ t. if t == 2 then looping 8 else adding 7 7 })
unfolding thread_function
added = refl

-- `pthread_create` fails for each thread, and `main` goes on.
none_created :
    main_step (λ i. 11) start_system
    ≡ ok (record start_system { main = creating 1; output = cannot_create ∷ [] })
unfolding main_step
none_created = refl

joins_nothing : main_step (λ i. 11) (record start_system { main = joining 0 }) ≡ fault
unfolding main_step
joins_nothing = refl

-- The first thread signals before the second one has the mutex.
abbrev both_begin : Convar.System
both_begin = record {
  locked = false;
  first = first_begins;
  second = second_begins;
  main = joining_first;
}

abbrev first_created : Convar.System
first_created = record Convar.start_system { first = first_begins; main = creating_second }

abbrev signal_sent : Convar.System
signal_sent = thread_1 (thread_1 (thread_1 both_begin))

-- `main` creates both threads, and then the first one runs.
signal_sent-Runs : Runs 1 Convar.start_system signal_sent
unfolding Convar.main_step
signal_sent-Runs = first_acts {t = thread_1 (thread_1 both_begin)} (
    first_acts {t = thread_1 both_begin} (
      first_acts {t = both_begin}
        (main_acts {u = both_begin} (main_acts {u = first_created} here refl) refl)))

signal-before_wait_example :
    (before_wait (thread_2 (thread_2 signal_sent)).second ≡ true)
    × ((thread_2 (thread_2 signal_sent)).main ≢ Convar.finished)
unfolding thread_1
signal-before_wait_example =
    signal-before_wait signal_sent-Runs refl refl (second_acts (second_acts here))

-- In the other order the second thread wakes.
woken_in_time :
    (thread_2 (thread_2 (thread_1 (thread_1 (thread_1 (thread_2 (thread_2 both_begin))))))).second
    ≡ second_ended
unfolding thread_1 thread_2
woken_in_time = refl

stores_behind : Convar.main_step 0 (record both_begin { main = creating_second }) ≡ fault
unfolding Convar.main_step
stores_behind = refl

abbrev name : List ℕ
name = b'p' ∷ []

abbrev word : List ℕ
word = b'w' ∷ []

print_arguments-word :
    print_arguments (name ∷ word ∷ []) ≡ rule ∷ argument 0 name ∷ argument 1 word ∷ rule ∷ []
unfolding print_arguments
print_arguments-word = refl

repeat_tag-word :
    repeat_tag 2 (name ∷ word ∷ (b'3' ∷ []) ∷ [])
    ≡ prints word ∷ sleeps (pos 3) ∷ prints word ∷ sleeps (pos 3) ∷ []
unfolding repeat_tag strtol
repeat_tag-word = refl

-- The first two threads are created, and the second one wakes first.
abbrev two_created : Create.System
two_created =
    Create.main_step 0 0
      (Create.main_step 8 0 (Create.start_system (λ i. record { id = 0; time = 0 })))

abbrev second_served : Create.System
second_served = Create.print_function two_created 1

second_served-output : second_served.output ≡ Create.service_customer 1 1 ∷ []
unfolding Create.main_step Create.print_function
second_served-output = refl

Reach-IsServing_example : IsServing second_served
Reach-IsServing_example = Reach-IsServing (
    Create.thread_acts 1 (
      Create.main_acts 0 0
        (Create.main_acts 8 0 (Create.start (λ i. record { id = 0; time = 0 })))))
