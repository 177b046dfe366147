-- ===== src/Checkin/Finish.antt =====
-- The end of `main` of a2/A2.c, and the times: `get_current_system_time`, the waiting times that the
-- customer threads add up, the joins, and the averages that `main` prints. `double` and its
-- operations are parameters.
pub mod Visits
pub mod History
pub mod Steps
pub mod Wakes
pub mod Joins
pub mod Averages
mod Tests
pub mod Whole
use csc.Base.{
  ◌≤◌, some, fault, ℕ, ◌+◌, ◌*◌, ◌≡◌, List, [], ◌∷◌, none, ltb, if◌then◌else◌, Run, ok, ◌>>=◌,
}
use csc.Checkin.Threads.{
  Class, economy, business, class_of, Phase, arriving, entered, queued, signalled, taken, serving,
  left, ClerkPhase, System, start_system, Setup, put, put_class, customer_entry, clerk_entry,
}
use csc.Checkin.Threads.Runs.{IsChosen, Spurious}

-- `double`
pub record Doubles : Type 1 where
  pub Double : Type 0
  pub of_int : ℕ → Double
  pub add : Double → Double → Double
  pub sub : Double → Double → Double
  pub div : Double → Double → Double

-- `struct timeval`
pub record Time : Type 0 where
  pub tv_sec : ℕ
  pub tv_usec : ℕ

pub data Message (Double : Type 0) : Type 0 where
  all_jobs_done : Message Double
  average_business : Double → Message Double
  average_economy : Double → Message Double
  average_all : Double → Message Double

pub data Main : Type 0 where
  joining : (j : ℕ) → Main
  finished : Main

module _ (doubles : Doubles) where
  open doubles use {Double, of_int, add, sub, div}

  abbrev pub microseconds : Time → Double
  microseconds t = of_int (t.tv_sec * 1000000 + t.tv_usec)

  unfoldable pub get_current_system_time : (init_time curr_time : Time) → Double
  get_current_system_time init_time curr_time =
      div (sub (microseconds curr_time) (microseconds init_time)) (of_int 100000)

  -- The threads, with the local `businessQueue_time_init` or `economyQueue_time_init` of each
  -- customer, the globals `businessQueue_time` and `economyQueue_time`, and `main`.
  pub record Program : Type 0 where
    pub system : System
    pub time_init : ℕ → Double
    pub queue_time : Class → Double
    pub main : Main
    pub output : List (Message Double)

  abbrev pub start_program : (ℕ → Double) → Program
  start_program unset = record {
    system = start_system;
    time_init = unset;
    queue_time = λ c. of_int 0;
    main = joining 0;
    output = [];
  }

  -- What a customer's step does to the times: it reads the time when it has entered the queue, and
  -- again when it is taken. The mutexes of the waiting times are taken under the queues' alone.
  abbrev pub keeps_time : Double → ℕ → Class → Program → (before after : Phase) → Program
  keeps_time now i c p arriving entered = record p { time_init = put p.time_init i now }
  keeps_time now i c p signalled (taken clerk) = record p {
    queue_time = put_class p.queue_time c (add (p.queue_time c) (sub now (p.time_init i)));
  }
  keeps_time now i c p _ _ = p

  -- A step of a customer, with the time that its clock shows.
  unfoldable pub customer_step :
      (init_time curr_time : Time) → Setup → Program → (i k : ℕ) → Run Program
  unfolding get_current_system_time
  customer_step init_time curr_time setup p i k = elim (class_of (setup.class_type i)) [
    | none ↦ fault
    | some c ↦ do
      s ← customer_entry setup p.system i k
      let now = get_current_system_time init_time curr_time
      ok (record (keeps_time now i c p (p.system.customer i) (s.customer i)) { system = s })
  ]

  abbrev pub with_system : Program → System → Program
  with_system p s = record p { system = s }

  -- `pthread_join` waits for the customer.
  abbrev pub join : Program → ℕ → Phase → Program
  join p j left = record p { main = joining (j + 1) }
  join p j _ = p

  abbrev pub average : Program → Class → Double
  average p c = div (p.queue_time c) (of_int (p.system.num_customers c * 10))

  abbrev pub reports : Program → List (Message Double)
  reports p =
      all_jobs_done
      ∷ average_business (average p business)
      ∷ average_economy (average p economy)
      ∷ average_all (
          div (add (p.queue_time business) (p.queue_time economy))
            (of_int ((p.system.num_customers business + p.system.num_customers economy) * 10)))
      ∷ []

  -- A step of `main` behind the start of the threads, of which `n` are those of customers.
  abbrev pub main_in : ℕ → Program → Main → Program
  main_in n p (joining j) =
      if ltb j n
      then join p j (p.system.customer j)
      else (record p { main = finished; output = reports p })
  main_in n p finished = p

  unfoldable pub main_step : ℕ → Program → Program
  main_step n p = main_in n p p.main

  -- The executions of the whole program.
  pub data Plays (init_time : Time) (setup : Setup) (n : ℕ) : Program → Type 0 where
    starts : (unset : ℕ → Double) → Plays init_time setup n (start_program unset)
    customer_plays :
        {p p' : Program} (curr_time : Time) (i k : ℕ)
        → Plays init_time setup n p
        → IsChosen p.system.clerk k
        → customer_step init_time curr_time setup p i k ≡ ok p'
        → Plays init_time setup n p'
    clerk_plays :
        {p : Program} (k : ℕ)
        → Plays init_time setup n p
        → 1 ≤ k
        → k ≤ 5
        → Plays init_time setup n (with_system p (clerk_entry setup p.system k))
    wait_returns :
        {p : Program} {s : System}
        → Plays init_time setup n p
        → Spurious p.system s
        → Plays init_time setup n (with_system p s)
    main_plays : {p : Program} → Plays init_time setup n p → Plays init_time setup n (main_step n p)
