-- ===== src/Samples/Clock.antt =====
-- a2/sample_gettimeofday.c: the seconds from the start of the program to a key press. `double` and its
-- operations are parameters.
use csc.Base.{List, [], ◌∷◌}
use csc.Checkin.Finish.{Doubles, Time}

pub data Message (Double : Type 0) : Type 0 where
  simulation_goes : Message Double
  simulation_time : Double → Message Double

module _ (doubles : Doubles) where
  open doubles use {Double, of_int, add, sub, div}

  abbrev pub seconds : Time → Double
  seconds t = add (of_int t.tv_sec) (div (of_int t.tv_usec) (of_int 1000000))

  abbrev pub get_current_simulation_time : (start_time cur_time : Time) → Double
  get_current_simulation_time start_time cur_time = sub (seconds cur_time) (seconds start_time)

  -- `main`, with what the clock shows before and behind `getchar`.
  abbrev pub simulation : (start_time cur_time : Time) → List (Message Double)
  simulation start_time cur_time =
      simulation_goes ∷ simulation_time (get_current_simulation_time start_time cur_time) ∷ []
