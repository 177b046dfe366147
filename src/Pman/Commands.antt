-- ===== src/Pman/Commands.antt =====
-- The commands of a1/PMan.c over the list of background processes. A command returns what it
-- prints and which signals it sends.
pub mod Signals
pub mod Zombies
pub mod Rounds
pub mod Ends
use csc.Base.{
  ℕ, zero, suc, ◌+◌, ◌/◌, ◌<◌, ℤ, pos, negsuc, int_eq, Bool, true, false, ◌||◌, ◌&&◌, leb, not,
  List, [], ◌∷◌, ◌++◌, map, Option, none, some, ltb, ◌==◌, if◌then◌else◌, length, get_elem?, Run,
  ok, fault, out_of_fuel, ◌>>=◌,
}
use csc.Text.{str_eq, tokens, strtol, to_int, negate}
use csc.Pman.Store.{Pointer, Store, null, check_pid, bglist_entry, insert_node, remove_node}
use csc.Pman.Effects.{
  Effect, Effects, Message, Signal, System, Text, Wait, cmd_bg, cmd_bgkill, cmd_bglist, cmd_bgstart,
  cmd_bgstop, cmd_pstat, command_not_found, does_not_exist, error_continuing, error_does_not_exist,
  error_killing, error_stopping, fork_failed, job_line, killed, missing_argument, no_stat_file,
  no_status_file, printed, resumed, running, sigcont, signalled, sigstop, sigterm, stat_fields,
  status_line, status_line_apart, stopped, terminated, too_many_arguments, total_jobs,
  waitpid_failed,
}
use csc.Pman.Stat.{pstat_entry}

-- `bgsig_entry` behind its check of the pid: three tests in a row, left early on an error. `kill`
-- is the system call.
module _ (kill : ℤ → Signal → ℤ) (pid : ℤ) (cmd : Text) where
  unfoldable pub kill_part : Effects
  kill_part =
      if str_eq cmd cmd_bgkill
      then signalled pid sigterm
        ∷ (if int_eq (kill pid sigterm) (pos 1) then printed (error_killing pid) ∷ [] else [])
      else []

  unfoldable pub start_part : Effects
  unfolding kill_part
  start_part =
      if str_eq cmd cmd_bgstart
      then signalled pid sigcont
        ∷ (if int_eq (kill pid sigcont) (pos 1)
            then printed (error_continuing pid) ∷ []
            else printed (resumed pid) ∷ kill_part)
      else kill_part

  unfoldable pub stop_part : Effects
  unfolding start_part
  stop_part =
      if str_eq cmd cmd_bgstop
      then signalled pid sigstop
        ∷ (if int_eq (kill pid sigstop) (pos 1)
            then printed (error_stopping pid) ∷ []
            else printed (stopped pid) ∷ start_part)
      else start_part

unfoldable pub bgsig_entry : ℕ → (ℤ → Signal → ℤ) → Store → ℤ → Text → Run Effects
unfolding stop_part
bgsig_entry fuel kill s pid cmd = do
  check ← check_pid fuel s pid
  if check == 1 then ok (printed (does_not_exist pid) ∷ []) else ok (stop_part kill pid cmd)

pub data Flow : Type 0 where
  goes_on : Flow
  exits : Flow
  in_child : Flow  -- the child of `fork`, which executes the command

-- The state behind a command: the store, the effects, how it goes on, the answers of `waitpid`
-- that are left.
pub record Outcome : Type 0 where
  pub store : Store
  pub effects : Effects
  pub flow : Flow
  pub waits : List Wait

abbrev pub outcome : Store → Effects → Flow → List Wait → Outcome
outcome s e f w = record { store = s; effects = e; flow = f; waits = w }

abbrev pub is_positive : ℤ → Bool
is_positive (pos n) = ltb 0 n
is_positive (negsuc n) = false

abbrev pub wait_messages : Wait → Effects
wait_messages w =
    (if w.if_exited then printed (terminated w.ret_val) ∷ [] else [])
    ++ (if w.if_signaled then printed (killed w.ret_val) ∷ [] else [])

-- `check_zombieProcess`, a round for each answer. Where the answers are used up the loop is still
-- waiting: `out_of_fuel`.
unfoldable pub check_zombie_process : ℕ → Store → List Wait → Run Outcome
check_zombie_process fuel s [] =
    if s.head == null then ok (outcome s [] goes_on []) else out_of_fuel
check_zombie_process fuel s (w ∷ ws) =
    if s.head == null
    then ok (outcome s [] goes_on (w ∷ ws))
    else if is_positive w.ret_val
    then (do
      s' ← remove_node fuel s w.ret_val
      rest ← check_zombie_process fuel s' ws
      ok (record rest { effects = wait_messages w ++ rest.effects }))
    else if int_eq w.ret_val (pos 0)
    then ok (outcome s [] goes_on ws)
    else ok (outcome s (printed waitpid_failed ∷ []) exits ws)

-- Whether the copy of a text, with its NUL, fits the block of `strlen` bytes that is made for it.
abbrev pub fits : System → Text → Bool
fits sys t = ltb (length t) (sys.usable (length t))

abbrev pub all_fit : System → List Text → Bool
all_fit sys [] = true
all_fit sys (t ∷ ts) = fits sys t && all_fit sys ts

-- `bg_entry`, with the first word of the command.
unfoldable pub bg_entry : ℕ → System → Store → Text → Run Outcome
bg_entry fuel sys s command =
    if int_eq sys.fork (pos 0)
    then ok (outcome s [] in_child sys.waits)
    else if is_positive sys.fork
    then (if fits sys command
        then (do
          s' ← insert_node fuel s sys.fresh sys.fork command
          ok (outcome s' (printed (running sys.fork) ∷ []) goes_on sys.waits))
        else fault)
    else ok (outcome s (printed fork_failed ∷ []) exits sys.waits)

abbrev pub job_lines : List (ℤ × Text) × ℕ → Effects
job_lines (lines, n) = map (λ l. printed (job_line l.0 l.1)) lines ++ (printed (total_jobs n) ∷ [])

-- The end of a round of `main`: the check for zombies behind what the command did.
unfoldable pub then_check : ℕ → Outcome → Run Outcome
then_check fuel o = elim o.flow [
  | goes_on ↦ do
    z ← check_zombie_process fuel o.store o.waits
    ok (record z { effects = o.effects ++ z.effects })
  | exits ↦ ok o
  | in_child ↦ ok o
]

-- The end of a round in which the command leaves the list alone.
abbrev pub done : ℕ → System → Store → Effects → Run Outcome
done fuel sys s effects = then_check fuel (outcome s effects goes_on sys.waits)

-- A command that wants an argument, and one that wants none. A `continue` skips the check.
abbrev pub with_argument : System → Store → Text → List Text → (Text → Run Outcome) → Run Outcome
with_argument sys s cmd_type [] run =
    ok (outcome s (printed (missing_argument cmd_type) ∷ []) goes_on sys.waits)
with_argument sys s cmd_type (arg ∷ args) run = run arg

abbrev pub no_argument : System → Store → List Text → Run Outcome → Run Outcome
no_argument sys s [] run = run
no_argument sys s (arg ∷ args) run =
    ok (outcome s (printed too_many_arguments ∷ []) goes_on sys.waits)

-- One command of `main`, from its words.
unfoldable pub dispatch : ℕ → System → Store → Text → List Text → Run Outcome
dispatch fuel sys s cmd_type args =
    if str_eq cmd_type cmd_bg
    then with_argument sys s cmd_type args (λ arg. bg_entry fuel sys s arg >>= then_check fuel)
    else if str_eq cmd_type cmd_bglist
    then no_argument sys s args
        (bglist_entry fuel s >>= λ listed. done fuel sys s (job_lines listed))
    else if str_eq cmd_type cmd_bgkill || str_eq cmd_type cmd_bgstop || str_eq cmd_type cmd_bgstart
    then with_argument sys s cmd_type args
        (λ arg. bgsig_entry fuel sys.kill s (to_int (strtol arg)) cmd_type >>= done fuel sys s)
    else if str_eq cmd_type cmd_pstat
    then with_argument sys s cmd_type args
        (λ arg. pstat_entry fuel sys s (to_int (strtol arg)) >>= done fuel sys s)
    else done fuel sys s (printed (command_not_found cmd_type) ∷ [])

abbrev pub words : ℕ → System → Store → List Text → Run Outcome
words fuel sys s [] = fault
words fuel sys s (cmd_type ∷ args) = dispatch fuel sys s cmd_type args

-- The copies of the line and of its words, and the NULL behind the words in `argv`.
abbrev pub has_room : System → Text → Bool
has_room sys line = fits sys line && all_fit sys (tokens b' ' line) && leb 8 sys.behind_argv

-- A round of `main` on what `readline` returns. At the end of the input it returns NULL, which
-- `strcmp` may not be given; a line of spaces alone has no first word, with the same end.
unfoldable pub round : ℕ → System → Store → Option Text → Run Outcome
round fuel sys s none = fault
round fuel sys s (some []) = ok (outcome s [] goes_on sys.waits)
round fuel sys s (some (b ∷ bs)) =
    if has_room sys (b ∷ bs) then words fuel sys s (tokens b' ' (b ∷ bs)) else fault

-- The loop of `main`, as far as these lines go, each with what the system answers meanwhile.
unfoldable pub main_loop : ℕ → Store → List (System × Option Text) → Run Outcome
main_loop fuel s [] = ok (outcome s [] goes_on [])
main_loop fuel s ((sys, line) ∷ lines) = do
  o ← round fuel sys s line
  elim o.flow [
    | goes_on ↦ do
      later ← main_loop fuel o.store lines
      ok (record later { effects = o.effects ++ later.effects })
    | exits ↦ ok o
    | in_child ↦ ok o
  ]
