-- ===== src/Pman/Tests.antt =====
-- Tests of the model of PMan, and its theorems at a list of two jobs.
use csc.Base.{
  ap, sym, ◌∙◌, ok-injective, ◌+◌, ◌++◌, ◌==◌, if◌then◌else◌, ◌≡◌, ◌≢◌, out_of_fuel, refl, List, [],
  ◌∷◌, arith, ℤ, pos, negsuc, Option, none, some, ok, ◌⊎◌, inl, inr, true, false,
}
use csc.Text.{tokens, strtol, to_int}
use csc.Pman.Store.{
  Pointer, Node, Store, load, put, set_next, free, last_loop, insert_node, remove_node,
}
use csc.Pman.Store.Linked.{Job, IsAt, IsList}
use csc.Pman.Store.Append.{job, insert_node-append}
use csc.Pman.Store.Remove.{remove_node-remove_first}
use csc.Pman.Effects.{
  cmd_bglist, job_line, total_jobs, Text, Signal, printed, System, Wait, running, terminated,
}
use csc.Pman.Commands.{
  goes_on, Outcome, outcome, check_zombie_process, then_check, bg_entry, dispatch, round, main_loop,
}
use csc.Pman.Commands.Zombies.{Agree, reap, check_zombie_process-reap}
use csc.Pman.Commands.Ends.{round-Ends}
use csc.Pman.Shell.{shell, session}
use csc.Pman.Shell.Refines.{Same, round-shell}
use csc.Pman.Shell.Sessions.{Answers, main_loop-session}
use csc.Pman.Commands.Rounds.{HoldsList, round-HoldsList}

abbrev ls : Text
ls = b'l' ∷ b's' ∷ []

abbrev jobs : List Job
jobs = job 16 (pos 500) ls ∷ job 32 (pos 501) ls ∷ []

abbrev nodes : Pointer → Option Node
nodes p =
    if p == 16
    then some (record { pid = pos 500; command = ls; next = 32 })
    else if p == 32
    then some (record { pid = pos 501; command = ls; next = 0 })
    else none

abbrev two_jobs : Store
two_jobs = record { node = nodes; head = 16 }

abbrev no_jobs : Store
no_jobs = record { node = λ p. none; head = 0 }

two_jobs-IsList : IsList two_jobs jobs
two_jobs-IsList = record {
  starts = refl;
  linked = (omega arith, refl, (omega arith, tt), (omega arith, refl, tt, tt));
}

remove_node-remove_first_example :
    (s : Store) × (remove_node 3 two_jobs (pos 501) ≡ ok s)
    × IsList s (job 16 (pos 500) ls ∷ [])
    × ((s.node 32 ≡ none) ⊎ (true ≡ false))
    × ((a : Pointer) → IsAt a jobs ⊎ (s.node a ≡ nodes a))
remove_node-remove_first_example =
    remove_node-remove_first 3 (pos 501) two_jobs-IsList (omega arith)

insert_node-append_example :
    (s : Store) × (insert_node 3 two_jobs 48 (pos 502) ls ≡ ok s)
    × IsList s (jobs ++ (job 48 (pos 502) ls ∷ []))
    × ((p : Pointer) → IsAt p (jobs ++ (job 48 (pos 502) ls ∷ [])) ⊎ (s.node p ≡ nodes p))
insert_node-append_example =
    insert_node-append 3 48 (pos 502) ls two_jobs-IsList (omega arith) (omega arith) refl

-- A process that cannot be signalled.
abbrev refuses : ℤ → Signal → ℤ
refuses pid signal = negsuc 0

-- `waitpid` reports that 500 exited, and then that nothing has changed.
abbrev waits : List Wait
waits =
    record { ret_val = pos 500; if_exited = true; if_signaled = false }
    ∷ record { ret_val = pos 0; if_exited = false; if_signaled = false }
    ∷ []

check_zombie_process-reap_example : Agree (check_zombie_process 3 two_jobs waits) (reap jobs waits)
check_zombie_process-reap_example =
    check_zombie_process-reap waits jobs 3 two_jobs-IsList (omega arith)

abbrev sys : System
sys = record {
  kill = refuses;
  fork = pos 502;
  fresh = 48;
  usable = λ n. n + 16;
  behind_argv = 8;
  stat = λ pid. none;
  status = λ pid. none;
  clock_ticks = 100;
  waits = waits;
}

abbrev bg_ls : Text
bg_ls = b'b' ∷ b'g' ∷ b' ' ∷ ls

-- `bg ls`: the new job is listed behind the others, and the job that has ended is taken out.
abbrev behind_bg_ls : Outcome
behind_bg_ls =
    outcome
      (record {
        node =
            put
              (put (put nodes 48 (some (record { pid = pos 502; command = ls; next = 0 }))) 32
                (some (record { pid = pos 501; command = ls; next = 48 })))
              16 none;
        head = 32;
      })
      (printed (running (pos 502)) ∷ printed (terminated (pos 500)) ∷ []) goes_on []

round-bg_ls : round 9 sys two_jobs (some bg_ls) ≡ ok behind_bg_ls
unfolding round dispatch bg_entry then_check check_zombie_process insert_node last_loop set_next
    remove_node free load tokens
round-bg_ls = refl

round-HoldsList_example : HoldsList behind_bg_ls
round-HoldsList_example =
    round-HoldsList 9 sys (some bg_ls) two_jobs-IsList (omega arith) (omega arith) refl round-bg_ls

round-shell_example : Same (round 9 sys two_jobs (some bg_ls)) (shell sys jobs (some bg_ls))
round-shell_example =
    round-shell 9 sys (some bg_ls) two_jobs-IsList (omega arith) (omega arith) refl
      (λ pid s. inr refl)

-- Then `bglist`, and no process has changed.
abbrev two_lines : List (System × Option Text)
two_lines =
    (sys, some bg_ls)
    ∷ (
      record sys {
        fresh = 64;
        waits = record { ret_val = pos 0; if_exited = false; if_signaled = false } ∷ [];
      },
      some cmd_bglist,
    )
    ∷ []

session-two_lines :
    session jobs two_lines
    ≡ ok (record {
      jobs = job 32 (pos 501) ls ∷ job 48 (pos 502) ls ∷ [];
      effects =
          printed (running (pos 502))
          ∷ printed (terminated (pos 500))
          ∷ printed (job_line (pos 501) ls)
          ∷ printed (job_line (pos 502) ls)
          ∷ printed (total_jobs 2)
          ∷ [];
      flow = goes_on;
      waits = [];
    })
unfolding session shell reap tokens
session-two_lines = refl

two_lines-Answers : Answers 9 two_jobs two_lines
two_lines-Answers = (
  omega arith,
  refl,
  λ pid s. inr refl,
  λ o came. (
    omega arith,
    ap (λ o. o.store.node 64) (sym (ok-injective (sym round-bg_ls ∙ came))),
    λ pid s. inr refl,
    λ o came. tt,
  ),
)

main_loop-session_example : Same (main_loop 9 two_jobs two_lines) (session jobs two_lines)
main_loop-session_example =
    main_loop-session 9 two_lines two_jobs-IsList (omega arith) two_lines-Answers

-- `atoi` saturates at 64 bits, and the cast keeps 32 of them.
to_int-strtol : to_int (strtol (b' ' ∷ b'-' ∷ b'4' ∷ b'2' ∷ b'x' ∷ [])) ≡ negsuc 41
unfolding strtol
to_int-strtol = refl

round-Ends_example : round 9 sys two_jobs (some bg_ls) ≢ out_of_fuel
round-Ends_example =
    round-Ends 9 sys (some bg_ls) two_jobs-IsList (omega arith) (omega arith) refl (inr (inl refl))
