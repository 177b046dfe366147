-- ===== src/Pman/Commands/Signals.antt =====
-- `bgkill`, `bgstop` and `bgstart` of a1/PMan.c: which signal goes to which process.
use csc.Base.{
  ℕ, ◌<◌, ◌≡◌, ap, ℤ, pos, negsuc, List, [], ◌∷◌, inl, inr, ◌⊎◌, Bool-cases, length, ok,
  if◌then◌else◌,
}
use csc.Pman.Store.{Store}
use csc.Pman.Store.Linked.{Job, IsList, has_pid}
use csc.Pman.Store.Search.{check_pid-has_pid}
use csc.Pman.Effects.{
  Text, cmd_bgkill, cmd_bgstop, cmd_bgstart, Signal, sigstop, sigcont, sigterm, does_not_exist,
  stopped, resumed, printed, signalled, Effects,
}
use csc.Pman.Commands.{stop_part, bgsig_entry}

-- The commands that `main` hands on to `bgsig_entry`.
pub data Order : Type 0 where
  stop start kill_it : Order

abbrev pub name_of : Order → Text
name_of stop = cmd_bgstop
name_of start = cmd_bgstart
name_of kill_it = cmd_bgkill

abbrev pub signal_of : Order → Signal
signal_of stop = sigstop
signal_of start = sigcont
signal_of kill_it = sigterm

abbrev pub report_of : Order → ℤ → Effects
report_of stop pid = printed (stopped pid) ∷ []
report_of start pid = printed (resumed pid) ∷ []
report_of kill_it pid = []

-- What `kill` documents: 0, or -1 on an error.
abbrev pub IsKill : (ℤ → Signal → ℤ) → Type 0
IsKill kill = (pid : ℤ) (s : Signal) → (kill pid s ≡ pos 0) ⊎ (kill pid s ≡ negsuc 0)

stop_part-report :
    (kill : ℤ → Signal → ℤ) (pid : ℤ) (order : Order)
    → IsKill kill
    → stop_part kill pid (name_of order) ≡ signalled pid (signal_of order) ∷ report_of order pid
unfolding stop_part
stop_part-report kill pid stop k = elim (k pid sigstop) [ inl e ↦ rw e | inr e ↦ rw e ]
stop_part-report kill pid start k = elim (k pid sigcont) [ inl e ↦ rw e | inr e ↦ rw e ]
stop_part-report kill pid kill_it k = elim (k pid sigterm) [ inl e ↦ rw e | inr e ↦ rw e ]

-- Given a list, fuel above its number of jobs, and a `kill` that returns 0 or -1: for a pid of the
-- list, each command sends its one signal to that pid and reports what it reports on success,
-- whether `kill` failed or not; for any other pid it sends no signal and says that there is no such
-- process.
pub bgsig_entry-report :
    {s : Store} {js : List Job} (fuel : ℕ) (kill : ℤ → Signal → ℤ) (pid : ℤ) (order : Order)
    → IsKill kill
    → IsList s js
    → length js < fuel
    → bgsig_entry fuel kill s pid (name_of order)
      ≡ ok (
          if has_pid pid js
          then signalled pid (signal_of order) ∷ report_of order pid
          else printed (does_not_exist pid) ∷ [])
unfolding bgsig_entry
bgsig_entry-report {js} fuel kill pid order k v f =
    rw (check_pid-has_pid pid fuel v f) (elim (Bool-cases (has_pid pid js)) [
      | inl known ↦ rw known (ap ok (stop_part-report kill pid order k))
      | inr unknown ↦ rw unknown
    ])
