-- ===== src/Pman/Effects.antt =====
-- What the commands of a1/PMan.c print and send, and what they ask of the system.
use csc.Base.{ℕ, ℤ, Bool, List, [], ◌∷◌, Option}
use csc.Pman.Store.{Pointer}

abbrev pub Text : Type 0
Text = List ℕ

-- The command names: `CMD_BG` to `CMD_PSTAT`.
abbrev pub cmd_bg : Text
cmd_bg = b'b' ∷ b'g' ∷ []

abbrev pub cmd_bglist : Text
cmd_bglist = b'b' ∷ b'g' ∷ b'l' ∷ b'i' ∷ b's' ∷ b't' ∷ []

abbrev pub cmd_bgkill : Text
cmd_bgkill = b'b' ∷ b'g' ∷ b'k' ∷ b'i' ∷ b'l' ∷ b'l' ∷ []

abbrev pub cmd_bgstop : Text
cmd_bgstop = b'b' ∷ b'g' ∷ b's' ∷ b't' ∷ b'o' ∷ b'p' ∷ []

abbrev pub cmd_bgstart : Text
cmd_bgstart = b'b' ∷ b'g' ∷ b's' ∷ b't' ∷ b'a' ∷ b'r' ∷ b't' ∷ []

abbrev pub cmd_pstat : Text
cmd_pstat = b'p' ∷ b's' ∷ b't' ∷ b'a' ∷ b't' ∷ []

pub data Signal : Type 0 where
  sigstop sigcont sigterm : Signal

-- What is printed, one constructor for each `printf` and `perror`.
pub data Message : Type 0 where
  missing_argument : Text → Message
  too_many_arguments : Message
  command_not_found : Text → Message
  running : ℤ → Message
  fork_failed : Message
  job_line : ℤ → Text → Message
  total_jobs : ℕ → Message
  does_not_exist : ℤ → Message
  error_does_not_exist : ℤ → Message
  error_stopping : ℤ → Message
  stopped : ℤ → Message
  error_continuing : ℤ → Message
  resumed : ℤ → Message
  error_killing : ℤ → Message
  terminated : ℤ → Message
  killed : ℤ → Message
  waitpid_failed : Message
  no_stat_file : Message
  stat_fields : (comm state : Text) (utime stime : ℤ) (rss : Text) → Message
  no_status_file : Message
  status_line : Text → Message
  status_line_apart : Text → Message

pub data Effect : Type 0 where
  printed : Message → Effect
  signalled : ℤ → Signal → Effect

abbrev pub Effects : Type 0
Effects = List Effect

-- What one `waitpid(-1, &status, WNOHANG)` gives: its value, WIFEXITED and WIFSIGNALED.
pub record Wait : Type 0 where
  pub ret_val : ℤ
  pub if_exited : Bool
  pub if_signaled : Bool

-- What the system answers while a command runs. `stat` and `status` are the lines that `fgets`
-- reads from the files of a pid in /proc. `usable` are the bytes that may be stored to a block for
-- which `malloc` is asked for so many, `behind_argv` those behind the array `argv`.
pub record System : Type 0 where
  pub kill : ℤ → Signal → ℤ
  pub fork : ℤ
  pub fresh : Pointer
  pub usable : ℕ → ℕ
  pub behind_argv : ℕ
  pub stat : ℤ → Option (List Text)
  pub status : ℤ → Option (List Text)
  pub clock_ticks : ℕ
  pub waits : List Wait
