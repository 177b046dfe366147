-- ===== src/Samples/Convar.antt =====
-- a2/pt_convar.c: one thread waits for another's signal. The mutex and the condition variable are
-- initialised, and `pthread_create` succeeds. The waits do not return early.
pub mod Lost
use csc.Base.{ℕ, ◌≡◌, Bool, true, false, if◌then◌else◌, ltb, Run, ok, fault}

-- `thread_1`, which sends the signal.
pub data First : Type 0 where
  no_first : First
  first_begins : First
  signalling : First
  unlocking : First
  first_ended : First

-- `thread_2`, which waits for it.
pub data Second : Type 0 where
  no_second : Second
  second_begins : Second
  about_to_wait : Second
  waiting : Second
  woken : Second
  going_on : Second
  second_ended : Second

pub data Main : Type 0 where
  creating_first : Main
  creating_second : Main
  joining_first : Main
  joining_second : Main
  finished : Main

pub record System : Type 0 where
  pub locked : Bool
  pub first : First
  pub second : Second
  pub main : Main

abbrev pub start_system : System
start_system = record {
  locked = false;
  first = no_first;
  second = no_second;
  main = creating_first;
}

-- `pthread_cond_signal`
abbrev pub wake : Second → Second
wake waiting = woken
wake p = p

abbrev pub first_in : System → First → System
first_in s no_first = s
first_in s first_begins = if s.locked then s else (record s { locked = true; first = signalling })
first_in s signalling = record s { first = unlocking; second = wake s.second }
first_in s unlocking = record s { locked = false; first = first_ended }
first_in s first_ended = s

unfoldable pub thread_1 : System → System
thread_1 s = first_in s s.first

abbrev pub second_in : System → Second → System
second_in s no_second = s
second_in s second_begins =
    if s.locked then s else (record s { locked = true; second = about_to_wait })
second_in s about_to_wait = record s { locked = false; second = waiting }
second_in s waiting = s
second_in s woken = if s.locked then s else (record s { locked = true; second = going_on })
second_in s going_on = record s { locked = false; second = second_ended }
second_in s second_ended = s

unfoldable pub thread_2 : System → System
thread_2 s = second_in s s.second

abbrev pub join_first : System → First → System
join_first s first_ended = record s { main = joining_second }
join_first s p = s

abbrev pub join_second : System → Second → System
join_second s second_ended = record s { main = finished }
join_second s p = s

-- A step of `main`. `thread_id[NTHREADS]` lies behind the array: `behind` elements may be stored
-- there.
abbrev pub main_in : ℕ → System → Main → Run System
main_in behind s creating_first = ok (record s { first = first_begins; main = creating_second })
main_in behind s creating_second =
    if ltb 0 behind then ok (record s { second = second_begins; main = joining_first }) else fault
main_in behind s joining_first = ok (join_first s s.first)
main_in behind s joining_second = ok (join_second s s.second)
main_in behind s finished = ok s

unfoldable pub main_step : ℕ → System → Run System
main_step behind s = main_in behind s s.main

pub data Runs (behind : ℕ) (s : System) : System → Type 0 where
  here : Runs behind s s
  first_acts : {t : System} → Runs behind s t → Runs behind s (thread_1 t)
  second_acts : {t : System} → Runs behind s t → Runs behind s (thread_2 t)
  main_acts : {t u : System} → Runs behind s t → main_step behind t ≡ ok u → Runs behind s u
