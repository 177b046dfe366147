-- ===== src/Samples/Create.antt =====
-- a2/pthread_create.c: ten threads that sleep for a time each, and `main`, which sleeps and then ends the
-- process without joining them. A thread may wake at any time. `rand` and what `pthread_create` returns
-- are parameters of a step; `priority` is never set.
pub mod Serviced
use csc.Base.{ℕ, ◌+◌, ◌%◌, ◌≡◌, List, [], ◌∷◌, ltb, ◌==◌, if◌then◌else◌}

-- `customer`
pub record Customer : Type 0 where
  pub id : ℕ
  pub time : ℕ

pub data Thread : Type 0 where
  not_created : Thread
  sleeping : Thread
  returned : Thread

pub data Main : Type 0 where
  creating : (i : ℕ) → Main
  failed : Main
  waiting : Main  -- in the `sleep` at the end
  finished : Main

pub data Message : Type 0 where
  service_customer : (id time : ℕ) → Message
  cannot_create : (rc : ℕ) → Message

pub record System : Type 0 where
  pub cus_array : ℕ → Customer
  pub thread : ℕ → Thread
  pub main : Main
  pub output : List Message

abbrev pub start_system : (ℕ → Customer) → System
start_system unset = record {
  cus_array = unset;
  thread = λ i. not_created;
  main = creating 0;
  output = [];
}

abbrev pub put {ℓ} : {A : Type ℓ} → (ℕ → A) → ℕ → A → ℕ → A
put f i a j = if j == i then a else f j

-- A round of the `for` loop.
abbrev pub creates : (rand rc : ℕ) → System → ℕ → System
creates rand rc s i =
    if rc == 0
    then (record s {
      cus_array = put s.cus_array i (record { id = i; time = rand % 10 + 1 });
      thread = put s.thread i sleeping;
      main = creating (i + 1);
    })
    else (record s {
      cus_array = put s.cus_array i (record { id = i; time = rand % 10 + 1 });
      main = failed;
      output = cannot_create rc ∷ s.output;
    })

abbrev pub main_in : (rand rc : ℕ) → System → Main → System
main_in rand rc s (creating i) =
    if ltb i 10 then creates rand rc s i else (record s { main = waiting })
main_in rand rc s failed = s
main_in rand rc s waiting = record s { main = finished }
main_in rand rc s finished = s

unfoldable pub main_step : (rand rc : ℕ) → System → System
main_step rand rc s = main_in rand rc s s.main

-- The process is there as long as `main` has not returned.
abbrev pub thread_in : System → ℕ → Main → Thread → System
thread_in s i failed t = s
thread_in s i finished t = s
thread_in s i (creating j) not_created = s
thread_in s i (creating j) sleeping = record s {
  thread = put s.thread i returned;
  output = service_customer (s.cus_array i).id (s.cus_array i).time ∷ s.output;
}
thread_in s i (creating j) returned = s
thread_in s i waiting not_created = s
thread_in s i waiting sleeping = record s {
  thread = put s.thread i returned;
  output = service_customer (s.cus_array i).id (s.cus_array i).time ∷ s.output;
}
thread_in s i waiting returned = s

unfoldable pub print_function : System → ℕ → System
print_function s i = thread_in s i s.main (s.thread i)

pub data Reach : System → Type 0 where
  start : (unset : ℕ → Customer) → Reach (start_system unset)
  main_acts : {s : System} (rand rc : ℕ) → Reach s → Reach (main_step rand rc s)
  thread_acts : {s : System} (i : ℕ) → Reach s → Reach (print_function s i)
