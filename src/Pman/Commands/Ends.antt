-- ===== src/Pman/Commands/Ends.antt =====
-- A round of `main` of a1/PMan.c comes to an end.
use csc.Base.{
  ℕ, suc, ◌+◌, ◌<◌, ◌≡◌, ◌≢◌, refl, ℤ, pos, int_eq, Bool, true, false, List, [], ◌∷◌, Option, none,
  some, ◌⊎◌, inl, inr, if◌then◌else◌, ltb, Bool-cases, Option-cases, length, length-append,
  get_elem?, arith, Run, out_of_fuel, ◌>>=◌, Ends, with_value, with_fault, Ends-bind, Ends-ne,
}
use csc.Text.{tokens}
use csc.Pman.Store.{Store, null, bglist_entry}
use csc.Pman.Store.Linked.{Job, IsList}
use csc.Pman.Store.Search.{check_pid-has_pid, bglist_entry-map}
use csc.Pman.Store.Append.{insert_node-append}
use csc.Pman.Store.Remove.{remove_first}
use csc.Pman.Effects.{Text, Effects, Wait, System}
use csc.Pman.Stat.{field, last_line, stat_data, status_lines, status_data, pstat_entry}
use csc.Pman.Commands.{
  Flow, goes_on, exits, in_child, Outcome, outcome, is_positive, then_check, bg_entry, bgsig_entry,
  done, with_argument, no_argument, dispatch, words, round, fits, has_room,
}
use csc.Pman.Commands.Zombies.{
  Reaped, reap, Agree, both_return, both_wait, check_zombie_process-reap,
}

-- Some answer of `waitpid` reports no further process.
abbrev pub Stops : List Wait → Type 0
Stops [] = ⊥
Stops (w ∷ ws) = (is_positive w.ret_val ≡ false) ⊎ Stops ws

later : (w : Wait) (ws : List Wait) → is_positive w.ret_val ≡ true → Stops (w ∷ ws) → Stops ws
later w ws child (inl other) = cc
later w ws child (inr h) = h

reap-Ends : (ws : List Wait) (js : List Job) → Stops ws → Ends (reap js ws)
unfolding reap
reap-Ends [] js h = absurd h
reap-Ends (w ∷ ws) [] h = with_value
reap-Ends (w ∷ ws) (j ∷ js) h = elim (Bool-cases (is_positive w.ret_val)) [
  | inl child ↦ rw child (
      Ends-bind (reap-Ends ws (remove_first w.ret_val (j ∷ js)) (later w ws child h))
        λ r _. with_value)
  | inr other ↦ rw other (elim (Bool-cases (int_eq w.ret_val (pos 0))) [
    | inl nothing ↦ rw nothing with_value
    | inr failed ↦ rw failed with_value
  ])
]

Agree-Ends : {p : Run Outcome} {q : Run Reaped} → Agree p q → Ends q → Ends p
Agree-Ends (both_return v a b c) e = with_value
Agree-Ends both_wait e = absurd (Ends-ne e refl)

if-Ends {ℓ} : {A : Type ℓ} (b : Bool) (x y : Run A) → Ends x → Ends y → Ends (if b then x else y)
if-Ends true x y hx hy = hx
if-Ends false x y hx hy = hy

field-Ends : (fields : List Text) (i : ℕ) → Ends (field fields i)
field-Ends fields i = elim (Option-cases (get_elem? fields i)) [
  | inl missing ↦ rw (missing, field) with_fault
  | inr (t, found) ↦ rw (found, field) with_value
]

stat_data-Ends : (ticks : ℕ) (file : Option (List Text)) → Ends (stat_data ticks file)
unfolding stat_data
stat_data-Ends ticks none = with_value
stat_data-Ends ticks (some []) = with_fault
stat_data-Ends ticks (some (line ∷ lines)) =
    let fields = tokens b' ' (last_line line lines) in
    if-Ends (ltb 512 (suc (length lines))) _ _ with_fault (
      Ends-bind (field-Ends fields 1) λ a _. Ends-bind (field-Ends fields 2) λ b _.
        Ends-bind (field-Ends fields 13) λ c _.
          Ends-bind (field-Ends fields 14)
            λ d _. Ends-bind (field-Ends fields 24) λ e _. with_value)

status_lines-Ends : (lines : List Text) → Ends (status_lines lines)
unfolding status_lines
status_lines-Ends [] = with_value
status_lines-Ends (line ∷ lines) =
    if-Ends (ltb (length line) 800) _ _ (Ends-bind (status_lines-Ends lines) λ rest _. with_value)
      with_fault

status_data-Ends : (file : Option (List Text)) → Ends (status_data file)
unfolding status_data
status_data-Ends none = with_value
status_data-Ends (some lines) = status_lines-Ends lines

module _ (fuel : ℕ) (sys : System) (stops : Stops sys.waits) where
  flow-Ends :
      (o : Outcome) (js : List Job) (flow : Flow)
      → o.flow ≡ flow
      → o.waits ≡ sys.waits
      → IsList o.store js
      → length js < fuel
      → Ends (then_check fuel o)
  unfolding then_check
  flow-Ends o js goes_on e w v f =
      rw (e, w)
        (Ends-bind
          (Agree-Ends (check_zombie_process-reap sys.waits js fuel v f)
            (reap-Ends sys.waits js stops))
          λ z _. with_value)
  flow-Ends o js exits e w v f = rw e with_value
  flow-Ends o js in_child e w v f = rw e with_value

  module _ (s : Store) (js : List Job) (v : IsList s js) (f : length js + 1 < fuel)
      (ne : sys.fresh ≢ null) (unused : s.node sys.fresh ≡ none) where
    done-Ends : (effects : Effects) → Ends (done fuel sys s effects)
    done-Ends effects =
        flow-Ends (outcome s effects goes_on sys.waits) js goes_on refl refl v (omega arith)

    bg_entry-Ends : (arg : Text) → Ends (bg_entry fuel sys s arg >>= then_check fuel)
    unfolding bg_entry
    bg_entry-Ends arg = elim (Bool-cases (int_eq sys.fork (pos 0))) [
      | inl child ↦ rw child (flow-Ends _ js in_child refl refl v (omega arith))
      | inr other ↦ rw other (elim (Bool-cases (is_positive sys.fork)) [
        | inl parent ↦ elim (Bool-cases (fits sys arg)) [
          | inr small ↦ rw (parent, small) with_fault
          | inl fit ↦
              let (s', run, v', same) =
                insert_node-append fuel sys.fresh sys.fork arg v (omega arith) ne unused in
              rw (parent, fit, run)
                (flow-Ends _ _ goes_on refl refl v' (omega (arith, length-append js (_ ∷ []))))
        ]
        | inr failed ↦ rw failed (flow-Ends _ js exits refl refl v (omega arith))
      ])
    ]

    with_argument-Ends :
        (cmd_type : Text) (args : List Text) (run : Text → Run Outcome)
        → ((arg : Text) → Ends (run arg))
        → Ends (with_argument sys s cmd_type args run)
    with_argument-Ends cmd_type [] run h = with_value
    with_argument-Ends cmd_type (arg ∷ args) run h = h arg

    no_argument-Ends :
        (args : List Text) (run : Run Outcome) → Ends run → Ends (no_argument sys s args run)
    no_argument-Ends [] run h = h
    no_argument-Ends (arg ∷ args) run h = with_value

    listed-Ends : Ends (bglist_entry fuel s)
    listed-Ends = rw (bglist_entry-map fuel v (omega arith)) with_value

    signal-Ends : (pid : ℤ) (cmd : Text) → Ends (bgsig_entry fuel sys.kill s pid cmd)
    unfolding bgsig_entry
    signal-Ends pid cmd =
        rw (check_pid-has_pid pid fuel v (omega arith)) (if-Ends _ _ _ with_value with_value)

    pstat-Ends : (pid : ℤ) → Ends (pstat_entry fuel sys s pid)
    unfolding pstat_entry
    pstat-Ends pid = rw (check_pid-has_pid pid fuel v (omega arith)) (
        if-Ends _ _ _ with_value (
          Ends-bind (stat_data-Ends sys.clock_ticks (sys.stat pid))
            λ a _. Ends-bind (status_data-Ends (sys.status pid)) λ b _. with_value))

    dispatch-Ends : (cmd_type : Text) (args : List Text) → Ends (dispatch fuel sys s cmd_type args)
    unfolding dispatch
    dispatch-Ends cmd_type args = if-Ends _ _ _ (with_argument-Ends cmd_type args _ bg_entry-Ends) (
        if-Ends _ _ _ (no_argument-Ends args _ (Ends-bind listed-Ends λ listed _. done-Ends _)) (
          if-Ends _ _ _
            (with_argument-Ends cmd_type args _
              λ arg. Ends-bind (signal-Ends _ cmd_type) λ e _. done-Ends e)
            (if-Ends _ _ _
              (with_argument-Ends cmd_type args _
                λ arg. Ends-bind (pstat-Ends _) λ e _. done-Ends e)
              (done-Ends _))))

    words-Ends : (ws : List Text) → Ends (words fuel sys s ws)
    words-Ends [] = with_fault
    words-Ends (w ∷ ws) = dispatch-Ends w ws

-- From a store that holds a list, every round of `main` ends, on any line, if some answer of
-- `waitpid` reports no further process: it comes back, or stops at an access that C does not allow.
-- `malloc` returns an address that is neither NULL nor allocated, and the fuel is more than one
-- above the number of jobs.
pub round-Ends :
    (fuel : ℕ) (sys : System) {s : Store} {js : List Job} (line : Option Text)
    → IsList s js
    → length js + 1 < fuel
    → sys.fresh ≢ null
    → s.node sys.fresh ≡ none
    → Stops sys.waits
    → round fuel sys s line ≢ out_of_fuel
unfolding round
round-Ends fuel sys none v f ne unused stops = Ends-ne with_fault
round-Ends fuel sys (some []) v f ne unused stops = Ends-ne with_value
round-Ends fuel sys {s} {js} (some (b ∷ bs)) v f ne unused stops = Ends-ne (
    if-Ends (has_room sys (b ∷ bs)) _ _
      (words-Ends fuel sys stops s js v f ne unused (tokens b' ' (b ∷ bs))) with_fault)
