-- ===== src/Pman/Shell/Sessions.antt =====
-- The loop of `main` of a1/PMan.c does what the shell promises, line for line.
use csc.Base.{
  ℕ, ◌+◌, ◌≤◌, ◌<◌, ◌≡◌, ◌≢◌, refl, ap₂, pos, int_eq, Bool, true, false, List, [], ◌∷◌, ◌++◌,
  Option, none, some, inl, inr, Bool-cases, length, length-append, arith, Run, ok, ◌>>=◌,
  if◌then◌else◌, Ensures, returns, faults, runs_out, Ensures-bind, Ensures-self, Ensures-value,
}
use csc.Text.{tokens}
use csc.Pman.Store.{Store, null}
use csc.Pman.Store.Linked.{Job, IsList, has_pid}
use csc.Pman.Store.Append.{job}
use csc.Pman.Store.Remove.{remove_first}
use csc.Pman.Effects.{
  printed, running, signalled, does_not_exist, error_does_not_exist, command_not_found, Text,
  Effects, System, Wait,
}
use csc.Pman.Commands.{
  Flow, goes_on, exits, in_child, Outcome, is_positive, has_room, round, main_loop,
}
use csc.Pman.Commands.Signals.{IsKill, signal_of, report_of}
use csc.Pman.Commands.Zombies.{Reaped, reap, length-remove_first}
use csc.Pman.Shell.{
  Command, starts_job, lists_jobs, orders, shows, lacks_argument, has_arguments, not_found,
  command_of, with_effects, leaves_jobs, shown, obey, obey_words, shell, session,
}
use csc.Pman.Shell.Refines.{Same, same_return, same_fault, same_wait, round-shell}

abbrev AtMost : ℕ → Reaped → Type 0
AtMost n r = length r.jobs ≤ n

reap-AtMost :
    (js : List Job) (ws : List Wait) (n : ℕ) → length js ≤ n → Ensures (AtMost n) (reap js ws)
unfolding reap
reap-AtMost [] ws n h = returns h
reap-AtMost (j ∷ js) [] n h = runs_out
reap-AtMost (j ∷ js) (w ∷ ws) n h = elim (Bool-cases (is_positive w.ret_val)) [
  | inl child ↦ rw child (
      Ensures-bind
        (reap-AtMost (remove_first w.ret_val (j ∷ js)) ws n
          (omega (arith, h, length-remove_first w.ret_val (j ∷ js))))
        λ r fewer. returns fewer)
  | inr other ↦ rw other (elim (Bool-cases (int_eq w.ret_val (pos 0))) [
    | inl nothing ↦ rw nothing (returns h)
    | inr failed ↦ rw failed (returns h)
  ])
]

-- A round makes the list longer by one job at most.
module _ (sys : System) (js : List Job) where
  abbrev OneMore : Run Reaped → Type 0
  OneMore = Ensures (AtMost (length js + 1))

  leaves-OneMore :
      (ks : List Job) (effects : Effects)
      → length ks ≤ length js + 1
      → OneMore (leaves_jobs sys ks effects)
  leaves-OneMore ks effects h =
      Ensures-bind (reap-AtMost ks sys.waits (length js + 1) h) λ r fewer. returns fewer

  if-OneMore : (b : Bool) (x y : Run Reaped) → OneMore x → OneMore y → OneMore (if b then x else y)
  if-OneMore true x y h g = h
  if-OneMore false x y h g = g

  as_before : length js ≤ length js + 1
  as_before = omega arith

  same-OneMore : (effects : Effects) → OneMore (leaves_jobs sys js effects)
  same-OneMore effects = leaves-OneMore js effects as_before

  obey-OneMore : (command : Command) → OneMore (obey sys js command)
  obey-OneMore (starts_job program) = elim (Bool-cases (int_eq sys.fork (pos 0))) [
    | inl child ↦ rw child (returns as_before)
    | inr other ↦ rw other (elim (Bool-cases (is_positive sys.fork)) [
      | inl parent ↦ rw parent (
          leaves-OneMore (js ++ (job sys.fresh sys.fork program ∷ []))
            (printed (running sys.fork) ∷ [])
            (omega (arith, length-append js (job sys.fresh sys.fork program ∷ []))))
      | inr failed ↦ rw failed (returns as_before)
    ])
  ]
  obey-OneMore lists_jobs = same-OneMore _
  obey-OneMore (orders order pid) =
      if-OneMore (has_pid pid js) _ _
        (same-OneMore (signalled pid (signal_of order) ∷ report_of order pid))
        (same-OneMore (printed (does_not_exist pid) ∷ []))
  obey-OneMore (shows pid) =
      if-OneMore (has_pid pid js) _ _
        (Ensures-bind (Ensures-self (shown sys pid)) λ effects _. same-OneMore effects)
        (same-OneMore (printed (error_does_not_exist pid) ∷ []))
  obey-OneMore (lacks_argument name) = returns as_before
  obey-OneMore has_arguments = returns as_before
  obey-OneMore (not_found name) = same-OneMore (printed (command_not_found name) ∷ [])

  words-OneMore : (ws : List Text) → OneMore (obey_words sys js ws)
  words-OneMore [] = faults
  words-OneMore (name ∷ args) = obey-OneMore (command_of name args)

  shell-OneMore : (line : Option Text) → OneMore (shell sys js line)
  unfolding shell
  shell-OneMore none = faults
  shell-OneMore (some []) = returns as_before
  shell-OneMore (some (b ∷ bs)) =
      if-OneMore (has_room sys (b ∷ bs)) _ _ (words-OneMore (tokens b' ' (b ∷ bs))) faults

-- What `malloc` and `kill` document, in each round: an address that is neither NULL nor allocated in
-- the store as it then is, and 0 or -1.
abbrev pub Answers : ℕ → Store → List (System × Option Text) → Type 0
Answers fuel s [] = Unit
Answers fuel s ((sys, line) ∷ lines) =
    (sys.fresh ≢ null)
    × (s.node sys.fresh ≡ none)
    × IsKill sys.kill
    × ((o : Outcome) → round fuel sys s line ≡ ok o → Answers fuel o.store lines)

-- What comes next, behind a round of each.
chain-Same :
    (p : Run Outcome) (q : Run Reaped) (next : Outcome → Run Outcome) (next' : Reaped → Run Reaped)
    → Same p q
    → ((o : Outcome) (r : Reaped)
        → p ≡ ok o
        → q ≡ ok r
        → IsList o.store r.jobs
        → o.effects ≡ r.effects
        → o.flow ≡ r.flow
        → o.waits ≡ r.waits
        → Same (next o) (next' r))
    → Same (p >>= next) (q >>= next')
chain-Same _ _ next next' (same_return {o} {r} v e f w) h = h o r refl refl v e f w
chain-Same _ _ next next' same_fault h = same_fault
chain-Same _ _ next next' same_wait h = same_wait

behind-Same :
    {p : Run Outcome} {q : Run Reaped} {e e' : Effects}
    → e ≡ e'
    → Same p q
    → Same
        (p >>= λ o. ok (record o { effects = e ++ o.effects }))
        (q >>= λ r. ok (with_effects e' r))
behind-Same same (same_return v a b c) = same_return v (ap₂ (λ x y. x ++ y) same a) b c
behind-Same same same_fault = same_fault
behind-Same same same_wait = same_wait

-- How a round ended decides whether there is a next.
flow-Same :
    (fuel : ℕ) (lines : List (System × Option Text)) (o : Outcome) (r : Reaped) (flow : Flow)
    → IsList o.store r.jobs
    → o.effects ≡ r.effects
    → o.waits ≡ r.waits
    → o.flow ≡ r.flow
    → r.flow ≡ flow
    → Same (main_loop fuel o.store lines) (session r.jobs lines)
    → Same
        (elim o.flow [
          | goes_on ↦ do
            later ← main_loop fuel o.store lines
            ok (record later { effects = o.effects ++ later.effects })
          | exits ↦ ok o
          | in_child ↦ ok o
        ])
        (elim r.flow [
          | goes_on ↦ do later ← session r.jobs lines; ok (with_effects r.effects later)
          | exits ↦ ok r
          | in_child ↦ ok r
        ])
flow-Same fuel lines o r goes_on v e w same at next = rw (same, at) (behind-Same e next)
flow-Same fuel lines o r exits v e w same at next = rw (same, at) (same_return v e same w)
flow-Same fuel lines o r in_child v e w same at next = rw (same, at) (same_return v e same w)

-- The loop of `main` on any lines: from a store that holds the list of some jobs, it does what the
-- shell does on these jobs and lines, up to where `readline` is asked for the next line, an error or a
-- child ends it, `waitpid` is waited for, or C allows no more. All that is printed and all signals are
-- the same, in the same order, and the store behind it holds the list of the shell's jobs. In every
-- round `malloc` returns an address that is neither NULL nor allocated and `kill` returns 0 or -1; the
-- fuel is above the number of jobs and lines.
pub main_loop-session :
    (fuel : ℕ) {s : Store} {js : List Job} (lines : List (System × Option Text))
    → IsList s js
    → length js + length lines < fuel
    → Answers fuel s lines
    → Same (main_loop fuel s lines) (session js lines)
unfolding main_loop session
main_loop-session fuel [] v f answers = same_return v refl refl refl
main_loop-session fuel {s} {js} ((sys, line) ∷ lines) v f (ne, unused, kills, later) =
    chain-Same (round fuel sys s line) (shell sys js line) _ _
      (round-shell fuel sys line v (omega (arith, f)) ne unused kills)
      (λ o r came gave v' e same w.
        let fewer : length r.jobs ≤ length js + 1 =
          Ensures-value (shell-OneMore sys js line) gave in
        flow-Same fuel lines o r r.flow v' e w same refl
          (main_loop-session fuel lines v' (omega (arith, f, fewer)) (later o came)))
