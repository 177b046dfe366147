-- ===== src/Pman/Shell.antt =====
-- What the shell of a1/PMan.c promises, on the list of its jobs instead of nodes in memory: which
-- command a line gives, and what the command does.
pub mod Refines
pub mod Sessions
use csc.Base.{
  ℕ, ℤ, pos, int_eq, Bool, true, false, List, [], ◌∷◌, ◌++◌, map, Option, none, some, length,
  if◌then◌else◌, Run, ok, fault, ◌>>=◌,
}
use csc.Text.{str_eq, tokens, strtol, to_int}
use csc.Pman.Store.Linked.{Job, has_pid}
use csc.Pman.Store.Append.{job}
use csc.Pman.Effects.{
  Effects, System, Text, cmd_bg, cmd_bglist, cmd_bgkill, cmd_bgstart, cmd_bgstop, cmd_pstat,
  command_not_found, does_not_exist, error_does_not_exist, fork_failed, job_line, missing_argument,
  printed, running, signalled, too_many_arguments, total_jobs,
}
use csc.Pman.Stat.{stat_data, status_data}
use csc.Pman.Commands.{Flow, goes_on, exits, in_child, is_positive, has_room}
use csc.Pman.Commands.Signals.{Order, stop, start, kill_it, signal_of, report_of}
use csc.Pman.Commands.Zombies.{Reaped, reap}

-- The commands, with their arguments.
pub data Command : Type 0 where
  starts_job : (program : Text) → Command
  lists_jobs : Command
  orders : Order → (pid : ℤ) → Command
  shows : (pid : ℤ) → Command
  lacks_argument : (name : Text) → Command
  has_arguments : Command
  not_found : (name : Text) → Command

abbrev pub order_of : Text → Option Order
order_of name =
    if str_eq name cmd_bgkill
    then some kill_it
    else if str_eq name cmd_bgstop
    then some stop
    else if str_eq name cmd_bgstart
    then some start
    else none

abbrev pub needs_one : Text → List Text → (Text → Command) → Command
needs_one name [] command = lacks_argument name
needs_one name (arg ∷ args) command = command arg

abbrev pub needs_none : List Text → Command
needs_none [] = lists_jobs
needs_none (arg ∷ args) = has_arguments

abbrev pub other_command : Text → List Text → Option Order → Command
other_command name args (some order) =
    needs_one name args (λ arg. orders order (to_int (strtol arg)))
other_command name args none =
    if str_eq name cmd_pstat
    then needs_one name args (λ arg. shows (to_int (strtol arg)))
    else not_found name

abbrev pub command_of : Text → List Text → Command
command_of name args =
    if str_eq name cmd_bg
    then needs_one name args starts_job
    else if str_eq name cmd_bglist
    then needs_none args
    else other_command name args (order_of name)

abbrev pub with_effects : Effects → Reaped → Reaped
with_effects effects r = record r { effects = effects ++ r.effects }

module _ (sys : System) where
  -- A command that leaves these jobs, behind which ended processes are taken out.
  abbrev pub leaves_jobs : List Job → Effects → Run Reaped
  leaves_jobs js effects = reap js sys.waits >>= λ r. ok (with_effects effects r)

  abbrev pub stays : List Job → Effects → Flow → Run Reaped
  stays js effects flow =
      ok (record { jobs = js; effects = effects; flow = flow; waits = sys.waits })

  -- The answer of `fork`: 0 in the child, the child's pid in the parent, or an error.
  abbrev pub forks : List Job → Text → Run Reaped
  forks js program =
      if int_eq sys.fork (pos 0)
      then stays js [] in_child
      else if is_positive sys.fork
      then leaves_jobs (js ++ (job sys.fresh sys.fork program ∷ []))
          (printed (running sys.fork) ∷ [])
      else stays js (printed fork_failed ∷ []) exits

  abbrev pub shown : ℤ → Run Effects
  shown pid = do
    first ← stat_data sys.clock_ticks (sys.stat pid)
    second ← status_data (sys.status pid)
    ok (first ++ second)

  abbrev pub obey : List Job → Command → Run Reaped
  obey js (starts_job program) = forks js program
  obey js lists_jobs =
      leaves_jobs js (
        map (λ j. printed (job_line j.pid j.command)) js ++ (printed (total_jobs (length js)) ∷ []))
  obey js (orders order pid) =
      if has_pid pid js
      then leaves_jobs js (signalled pid (signal_of order) ∷ report_of order pid)
      else leaves_jobs js (printed (does_not_exist pid) ∷ [])
  obey js (shows pid) =
      if has_pid pid js
      then shown pid >>= leaves_jobs js
      else leaves_jobs js (printed (error_does_not_exist pid) ∷ [])
  obey js (lacks_argument name) = stays js (printed (missing_argument name) ∷ []) goes_on
  obey js has_arguments = stays js (printed too_many_arguments ∷ []) goes_on
  obey js (not_found name) = leaves_jobs js (printed (command_not_found name) ∷ [])

  abbrev pub obey_words : List Job → List Text → Run Reaped
  obey_words js [] = fault
  obey_words js (name ∷ args) = obey js (command_of name args)

  -- A round of the shell. At the end of the input, with a line of spaces alone, and where the copies
  -- of the line and its words do not fit their blocks, it does what C does not allow.
  unfoldable pub shell : List Job → Option Text → Run Reaped
  shell js none = fault
  shell js (some []) = stays js [] goes_on
  shell js (some (b ∷ bs)) =
      if has_room sys (b ∷ bs) then obey_words js (tokens b' ' (b ∷ bs)) else fault

-- The shell on these lines, each with what the system answers meanwhile.
unfoldable pub session : List Job → List (System × Option Text) → Run Reaped
session js [] = ok (record { jobs = js; effects = []; flow = goes_on; waits = [] })
session js ((sys, line) ∷ lines) = do
  r ← shell sys js line
  elim r.flow [
    | goes_on ↦ do later ← session r.jobs lines; ok (with_effects r.effects later)
    | exits ↦ ok r
    | in_child ↦ ok r
  ]
