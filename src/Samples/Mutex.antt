-- ===== src/Samples/Mutex.antt =====
-- a2/pt_mutex.c: five threads that count under one mutex, and the `main` that joins them.
pub mod Counting
pub mod Steps
pub mod Final
pub mod Rounds
pub mod Completion
use csc.Base.{
  ℕ, ◌+◌, ◌^◌, ◌<◌, ◌≡◌, ◌==◌, Bool, true, false, List, [], ◌∷◌, Option, none, some, ltb,
  if◌then◌else◌, Run, ok, fault,
}

abbrev pub n_threads : ℕ
n_threads = 5

-- The rounds of each thread's loop.
abbrev pub n_rounds : ℕ
n_rounds = 1000000

-- Where a thread stands. `counter++` reads the counter and stores it in two steps.
pub data Phase : Type 0 where
  not_created : Phase
  begins : Phase
  looping : (i : ℕ) → Phase
  adding : (i read : ℕ) → Phase
  has_printed : Phase  -- before the unlock
  ended : Phase

pub data Main : Type 0 where
  creating : (i : ℕ) → Main
  joining : (j : ℕ) → Main
  finished : Main

pub data Message : Type 0 where
  cannot_create : Message
  added_to : ℕ → Message
  final_value : ℕ → Message

-- `output` has the last message first.
pub record System : Type 0 where
  pub counter : ℕ
  pub lock : Option ℕ
  pub thread : ℕ → Phase
  pub main : Main
  pub output : List Message

abbrev pub start_system : System
start_system = record {
  counter = 0;
  lock = none;
  thread = λ t. not_created;
  main = creating 0;
  output = [];
}

abbrev pub put : (ℕ → Phase) → ℕ → Phase → ℕ → Phase
put f t p k = if k == t then p else f k

abbrev pub set_thread : System → ℕ → Phase → System
set_thread s t p = record s { thread = put s.thread t p }

abbrev pub is_free : Option ℕ → Bool
is_free none = true
is_free (some t) = false

-- A step of `thread_function`. A counter of 2^31 would leave the range of `int`.
abbrev pub thread_in : System → ℕ → Phase → Run System
thread_in s t not_created = ok s
thread_in s t begins =
    if is_free s.lock
    then ok (record s { thread = put s.thread t (looping 0); lock = some t })
    else ok s
thread_in s t (looping i) =
    if ltb i n_rounds
    then ok (set_thread s t (adding i s.counter))
    else ok
        (record s { thread = put s.thread t has_printed; output = added_to s.counter ∷ s.output })
thread_in s t (adding i read) =
    if ltb (read + 1) (2 ^ 31)
    then ok (record s { thread = put s.thread t (looping (i + 1)); counter = read + 1 })
    else fault
thread_in s t has_printed = ok (record s { thread = put s.thread t ended; lock = none })
thread_in s t ended = ok s

unfoldable pub thread_function : System → ℕ → Run System
thread_function s t = thread_in s t (s.thread t)

-- What `pthread_join` does: it waits for a thread, and needs one that was created.
abbrev pub join : System → ℕ → Phase → Run System
join s j not_created = fault
join s j begins = ok s
join s j (looping i) = ok s
join s j (adding i read) = ok s
join s j has_printed = ok s
join s j ended = ok (record s { main = joining (j + 1) })

-- A step of `main`. `create i` is what `pthread_create` returns for the thread `i`.
abbrev pub main_in : (ℕ → ℕ) → System → Main → Run System
main_in create s (creating i) =
    if ltb i n_threads
    then (if create i == 0
        then ok (record s { main = creating (i + 1); thread = put s.thread i begins })
        else ok (record s { main = creating (i + 1); output = cannot_create ∷ s.output }))
    else ok (record s { main = joining 0 })
main_in create s (joining j) =
    if ltb j n_threads
    then join s j (s.thread j)
    else ok (record s { main = finished; output = final_value s.counter ∷ s.output })
main_in create s finished = ok s

unfoldable pub main_step : (ℕ → ℕ) → System → Run System
main_step create s = main_in create s s.main

pub data Reach (create : ℕ → ℕ) : System → Type 0 where
  start : Reach create start_system
  thread_acts :
      {s s' : System} (t : ℕ)
      → Reach create s
      → t < n_threads
      → thread_function s t ≡ ok s'
      → Reach create s'
  main_acts : {s s' : System} → Reach create s → main_step create s ≡ ok s' → Reach create s'
