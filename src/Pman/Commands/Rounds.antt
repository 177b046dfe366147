-- ===== src/Pman/Commands/Rounds.antt =====
-- A round of `main` of a1/PMan.c, whatever the command.
use csc.Base.{
  ℕ, ◌+◌, ◌<◌, ◌≡◌, ◌≢◌, refl, pos, int_eq, Bool, true, false, List, [], ◌∷◌, Option, none, some,
  inl, inr, Bool-cases, length, length-append, arith, Run, ok, ◌>>=◌, if◌then◌else◌, Ensures,
  returns, faults, runs_out, Ensures-self, Ensures-bind, Ensures-value,
}
use csc.Pman.Store.{Store, null, bglist_entry}
use csc.Pman.Store.Linked.{Job, IsList}
use csc.Pman.Store.Append.{job, insert_node-append}
use csc.Pman.Effects.{Text, Effects, System}
use csc.Pman.Stat.{pstat_entry}
use csc.Pman.Commands.{
  Flow, goes_on, exits, in_child, Outcome, outcome, is_positive, then_check, bg_entry, bgsig_entry,
  done, with_argument, no_argument, dispatch, words, round, fits, has_room,
}
use csc.Pman.Commands.Zombies.{Reaped, Agree, both_return, both_wait, check_zombie_process-reap}

-- The nodes of the store are a list of jobs.
abbrev pub HoldsList : Outcome → Type 0
HoldsList o = (js : List Job) × IsList o.store js

Agree-HoldsList : {p : Run Outcome} {q : Run Reaped} → Agree p q → Ensures HoldsList p
Agree-HoldsList (both_return {r} v a b c) = returns (r.jobs, v)
Agree-HoldsList both_wait = runs_out

module _ (fuel : ℕ) (sys : System) where
  flow-HoldsList :
      (o : Outcome) (js : List Job) (flow : Flow)
      → o.flow ≡ flow
      → IsList o.store js
      → length js < fuel
      → Ensures HoldsList (then_check fuel o)
  unfolding then_check
  flow-HoldsList o js goes_on e v f = rw e (
      Ensures-bind (Agree-HoldsList (check_zombie_process-reap o.waits js fuel v f))
        λ z h. returns h)
  flow-HoldsList o js exits e v f = rw e (returns (js, v))
  flow-HoldsList o js in_child e v f = rw e (returns (js, v))

  then_check-HoldsList :
      (o : Outcome) (js : List Job)
      → IsList o.store js
      → length js < fuel
      → Ensures HoldsList (then_check fuel o)
  then_check-HoldsList o js v f = flow-HoldsList o js o.flow refl v f

  module _ (s : Store) (js : List Job) (v : IsList s js) (f : length js + 1 < fuel)
      (ne : sys.fresh ≢ null) (unused : s.node sys.fresh ≡ none) where
    done-HoldsList : (effects : Effects) → Ensures HoldsList (done fuel sys s effects)
    done-HoldsList effects =
        then_check-HoldsList (outcome s effects goes_on sys.waits) js v (omega arith)

    bg_entry-HoldsList :
        (arg : Text) → Ensures HoldsList (bg_entry fuel sys s arg >>= then_check fuel)
    unfolding bg_entry
    bg_entry-HoldsList arg = elim (Bool-cases (int_eq sys.fork (pos 0))) [
      | inl child ↦ rw child (then_check-HoldsList _ js v (omega arith))
      | inr other ↦ rw other (elim (Bool-cases (is_positive sys.fork)) [
        | inl parent ↦ elim (Bool-cases (fits sys arg)) [
          | inr small ↦ rw (parent, small) faults
          | inl fit ↦
              let (s', run, v', same) =
                insert_node-append fuel sys.fresh sys.fork arg v (omega arith) ne unused in
              rw (parent, fit, run)
                (then_check-HoldsList _ _ v'
                  (omega (arith, length-append js (job sys.fresh sys.fork arg ∷ []))))
        ]
        | inr failed ↦ rw failed (then_check-HoldsList _ js v (omega arith))
      ])
    ]

    with_argument-HoldsList :
        (cmd_type : Text) (args : List Text) (run : Text → Run Outcome)
        → ((arg : Text) → Ensures HoldsList (run arg))
        → Ensures HoldsList (with_argument sys s cmd_type args run)
    with_argument-HoldsList cmd_type [] run h = returns (js, v)
    with_argument-HoldsList cmd_type (arg ∷ args) run h = h arg

    no_argument-HoldsList :
        (args : List Text) (run : Run Outcome)
        → Ensures HoldsList run
        → Ensures HoldsList (no_argument sys s args run)
    no_argument-HoldsList [] run h = h
    no_argument-HoldsList (arg ∷ args) run h = returns (js, v)

    -- The branches of a chain of tests.
    if-HoldsList :
        (b : Bool) (x y : Run Outcome)
        → Ensures HoldsList x
        → Ensures HoldsList y
        → Ensures HoldsList (if b then x else y)
    if-HoldsList true x y hx hy = hx
    if-HoldsList false x y hx hy = hy

    dispatch-HoldsList :
        (cmd_type : Text) (args : List Text) → Ensures HoldsList (dispatch fuel sys s cmd_type args)
    unfolding dispatch
    dispatch-HoldsList cmd_type args =
        if-HoldsList _ _ _ (with_argument-HoldsList cmd_type args _ bg_entry-HoldsList) (
          if-HoldsList _ _ _
            (no_argument-HoldsList args _
              (Ensures-bind (Ensures-self (bglist_entry fuel s)) λ listed _. done-HoldsList _))
            (if-HoldsList _ _ _
              (with_argument-HoldsList cmd_type args _ λ arg.
                Ensures-bind (Ensures-self (bgsig_entry fuel sys.kill s _ cmd_type))
                  λ e _. done-HoldsList e)
              (if-HoldsList _ _ _
                (with_argument-HoldsList cmd_type args _ λ arg.
                  Ensures-bind (Ensures-self (pstat_entry fuel sys s _)) λ e _. done-HoldsList e)
                (done-HoldsList _))))

-- From a store that holds a list, and where `malloc` returns an address that is neither NULL nor
-- allocated, a round of `main` on any line that comes back leaves a store that holds a list again,
-- whatever else the system answers, also where `kill` returns no number that it documents. The fuel is
-- more than one above the number of jobs.
pub round-HoldsList :
    (fuel : ℕ) (sys : System) {s : Store} {js : List Job} (line : Option Text) {o : Outcome}
    → IsList s js
    → length js + 1 < fuel
    → sys.fresh ≢ null
    → s.node sys.fresh ≡ none
    → round fuel sys s line ≡ ok o
    → HoldsList o
unfolding round
round-HoldsList fuel sys {s} {js} line v f ne unused e = Ensures-value (round-Ensures line) e
  where
    words-Ensures : (ws : List Text) → Ensures HoldsList (words fuel sys s ws)
    words-Ensures [] = faults
    words-Ensures (w ∷ ws) = dispatch-HoldsList fuel sys s js v f ne unused w ws

    round-Ensures : (line : Option Text) → Ensures HoldsList (round fuel sys s line)
    round-Ensures none = faults
    round-Ensures (some []) = returns (js, v)
    round-Ensures (some (b ∷ bs)) = elim (Bool-cases (has_room sys (b ∷ bs))) [
      | inl room ↦ rw room (words-Ensures _)
      | inr none_left ↦ rw none_left faults
    ]
