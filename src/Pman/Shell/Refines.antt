-- ===== src/Pman/Shell/Refines.antt =====
-- A round of `main` of a1/PMan.c does what the shell promises.
use csc.Base.{
  ℕ, ◌+◌, ◌<◌, ◌⊎◌, ◌≡◌, ◌≢◌, refl, ap, subst, ℤ, pos, int_eq, Bool, true, false, List, [], ◌∷◌,
  ◌++◌, map, Option, none, some, inl, inr, Bool-cases, length, length-append, arith, Run, ok, fault,
  out_of_fuel, ◌>>=◌, ◌||◌, if◌then◌else◌,
}
use csc.Text.{str_eq, tokens, strtol, to_int}
use csc.Text.Compare.{str_eq-eq}
use csc.Pman.Store.{Store, null, bglist_entry}
use csc.Pman.Store.Linked.{Job, IsList, has_pid}
use csc.Pman.Store.Search.{lines, check_pid-has_pid, bglist_entry-map}
use csc.Pman.Store.Append.{job, insert_node-append}
use csc.Pman.Effects.{
  Text, Effects, System, cmd_bg, cmd_bglist, cmd_bgkill, cmd_bgstop, cmd_bgstart, cmd_pstat,
  printed, job_line, total_jobs, running,
}
use csc.Pman.Stat.{pstat_entry}
use csc.Pman.Commands.{
  Outcome, is_positive, then_check, bg_entry, bgsig_entry, job_lines, done, with_argument,
  no_argument, dispatch, words, round, fits, all_fit, has_room,
}
use csc.Pman.Commands.Signals.{Order, stop, start, kill_it, name_of, IsKill, bgsig_entry-report}
use csc.Pman.Commands.Zombies.{Reaped, Agree, both_return, both_wait, check_zombie_process-reap}
use csc.Pman.Shell.{
  Command, starts_job, lists_jobs, orders, shows, order_of, needs_one, needs_none, command_of,
  with_effects, leaves_jobs, forks, shown, obey, obey_words, shell,
}

-- The rounds come back together, with the list of the same jobs and all else equal, or both meet an
-- access that C does not allow, or both wait on.
pub data Same : Run Outcome → Run Reaped → Type 0 where
  same_return :
      {o : Outcome} {r : Reaped}
      → IsList o.store r.jobs
      → o.effects ≡ r.effects
      → o.flow ≡ r.flow
      → o.waits ≡ r.waits
      → Same (ok o) (ok r)
  same_fault : Same fault fault
  same_wait : Same out_of_fuel out_of_fuel

Agree-Same :
    {p : Run Outcome} {q : Run Reaped} (e : Effects)
    → Agree p q
    → Same
        (p >>= λ o. ok (record o { effects = e ++ o.effects }))
        (q >>= λ r. ok (with_effects e r))
Agree-Same e (both_return v a b c) = same_return v (ap (λ x. e ++ x) a) b c
Agree-Same e both_wait = same_wait

-- Where both run the same code first.
bind-Same {ℓ} :
    {A : Type ℓ} (first : Run A) (next : A → Run Outcome) (next' : A → Run Reaped)
    → ((a : A) → Same (next a) (next' a))
    → Same (first >>= next) (first >>= next')
bind-Same out_of_fuel next next' h = same_wait
bind-Same fault next next' h = same_fault
bind-Same (ok a) next next' h = h a

order_of-cases :
    (name : Text)
    → ((order : Order) × (name ≡ name_of order)
        × (order_of name ≡ some order)
        × ((str_eq name cmd_bgkill || str_eq name cmd_bgstop || str_eq name cmd_bgstart) ≡ true))
      ⊎ ((order_of name ≡ none)
          × ((str_eq name cmd_bgkill || str_eq name cmd_bgstop || str_eq name cmd_bgstart) ≡ false))
order_of-cases name = elim (Bool-cases (str_eq name cmd_bgkill)) [
  | inl kills ↦ inl (kill_it, str_eq-eq name cmd_bgkill kills, rw kills refl, rw kills refl)
  | inr k ↦ elim (Bool-cases (str_eq name cmd_bgstop)) [
    | inl stops ↦
        inl (stop, str_eq-eq name cmd_bgstop stops, rw (k, stops) refl, rw (k, stops) refl)
    | inr p ↦ elim (Bool-cases (str_eq name cmd_bgstart)) [
      | inl starts ↦
          inl (
            start,
            str_eq-eq name cmd_bgstart starts,
            rw (k, p, starts) refl,
            rw (k, p, starts) refl,
          )
      | inr t ↦ inr (rw (k, p, t) refl, rw (k, p, t) refl)
    ]
  ]
]

module _ (fuel : ℕ) (sys : System) (kills : IsKill sys.kill) (s : Store) (js : List Job)
    (v : IsList s js) (f : length js + 1 < fuel) (ne : sys.fresh ≢ null)
    (unused : s.node sys.fresh ≡ none) where
  done-Same : (effects : Effects) → Same (done fuel sys s effects) (leaves_jobs sys js effects)
  unfolding then_check
  done-Same effects =
      Agree-Same effects (check_zombie_process-reap sys.waits js fuel v (omega arith))

  bg_entry-Same :
      (program : Text)
      → fits sys program ≡ true
      → Same (bg_entry fuel sys s program >>= then_check fuel) (forks sys js program)
  unfolding bg_entry then_check
  bg_entry-Same program fit = elim (Bool-cases (int_eq sys.fork (pos 0))) [
    | inl child ↦ rw child (same_return v refl refl refl)
    | inr other ↦ rw other (elim (Bool-cases (is_positive sys.fork)) [
      | inr failed ↦ rw failed (same_return v refl refl refl)
      | inl parent ↦
          let (s', run, v', same) =
            insert_node-append fuel sys.fresh sys.fork program v (omega arith) ne unused in
          rw (parent, fit, run)
            (Agree-Same (printed (running sys.fork) ∷ []) (
              check_zombie_process-reap sys.waits _ fuel v'
                (omega (arith, length-append js (job sys.fresh sys.fork program ∷ [])))))
    ])
  ]

  with_argument-Same :
      (name : Text) (args : List Text) (run : Text → Run Outcome) (command : Text → Command)
      → ((arg : Text) → fits sys arg ≡ true → Same (run arg) (obey sys js (command arg)))
      → all_fit sys args ≡ true
      → Same (with_argument sys s name args run) (obey sys js (needs_one name args command))
  with_argument-Same name [] run command h fit = same_return v refl refl refl
  with_argument-Same name (arg ∷ args) run command h fit = h arg (ground (arith, fit))

  no_argument-Same :
      (args : List Text) (run : Run Outcome)
      → Same run (obey sys js lists_jobs)
      → Same (no_argument sys s args run) (obey sys js (needs_none args))
  no_argument-Same [] run h = h
  no_argument-Same (arg ∷ args) run h = same_return v refl refl refl

  lists-Same :
      Same
        (bglist_entry fuel s >>= λ listed. done fuel sys s (job_lines listed))
        (obey sys js lists_jobs)
  lists-Same = rw (bglist_entry-map fuel v (omega arith)) (
      subst
        (λ ls.
          Same (done fuel sys s (job_lines (lines js, length js)))
            (leaves_jobs sys js (ls ++ (printed (total_jobs (length js)) ∷ []))))
        (lines-map js) (done-Same _))
    where
      lines-map :
          (js : List Job)
          → map (λ l. printed (job_line l.0 l.1)) (lines js)
            ≡ map (λ j. printed (job_line j.pid j.command)) js
      lines-map [] = refl
      lines-map (j ∷ js) = ap (λ x. printed (job_line j.pid j.command) ∷ x) (lines-map js)

  orders-Same :
      (name : Text) (order : Order) (pid : ℤ)
      → name ≡ name_of order
      → Same
          (bgsig_entry fuel sys.kill s pid name >>= done fuel sys s)
          (obey sys js (orders order pid))
  orders-Same name order pid same =
      rw (same, bgsig_entry-report fuel sys.kill pid order kills v (omega arith))
        (elim (Bool-cases (has_pid pid js)) [
          | inl known ↦ rw known (done-Same _)
          | inr unknown ↦ rw unknown (done-Same _)
        ])

  shows-Same :
      (pid : ℤ) → Same (pstat_entry fuel sys s pid >>= done fuel sys s) (obey sys js (shows pid))
  unfolding pstat_entry
  shows-Same pid =
      rw (check_pid-has_pid pid fuel v (omega arith)) (elim (Bool-cases (has_pid pid js)) [
        | inl known ↦ rw known (bind-Same (shown sys pid) _ _ done-Same)
        | inr unknown ↦ rw unknown (done-Same _)
      ])

  if-Same :
      (b : Bool) (x y : Run Outcome) (c d : Command)
      → Same x (obey sys js c)
      → Same y (obey sys js d)
      → Same (if b then x else y) (obey sys js (if b then c else d))
  if-Same true x y c d h g = h
  if-Same false x y c d h g = g

  dispatch-Same :
      (name : Text) (args : List Text)
      → all_fit sys args ≡ true
      → Same (dispatch fuel sys s name args) (obey sys js (command_of name args))
  unfolding dispatch
  dispatch-Same name args fit =
      if-Same (str_eq name cmd_bg) _ _ _ _
        (with_argument-Same name args _ starts_job bg_entry-Same fit)
        (if-Same (str_eq name cmd_bglist) _ _ _ _ (no_argument-Same args _ lists-Same)
          (elim (order_of-cases name) [
            | inl (order, same, found, test) ↦
                rw (test, found)
                  (with_argument-Same name args _ (λ arg. orders order (to_int (strtol arg)))
                    (λ arg _. orders-Same name order _ same) fit)
            | inr (not_order, test) ↦
                rw (test, not_order)
                  (if-Same (str_eq name cmd_pstat) _ _ _ _
                    (with_argument-Same name args _ (λ arg. shows (to_int (strtol arg)))
                      (λ arg _. shows-Same _) fit)
                    (done-Same _))
          ]))

  words-Same :
      (ws : List Text) → all_fit sys ws ≡ true → Same (words fuel sys s ws) (obey_words sys js ws)
  words-Same [] fit = same_fault
  words-Same (name ∷ args) fit = dispatch-Same name args (ground (arith, fit))

-- A round of `main`, on any line or at the end of the input: from a store that holds the list of some
-- jobs, it does what the shell does on the jobs, whether it comes back, waits on for `waitpid`, or does
-- what C does not allow. It prints and signals the same, goes on in the same way, and its store holds
-- the list of the jobs that the shell leaves. `malloc` returns an address that is neither NULL nor
-- allocated, `kill` returns 0 or -1, and the fuel is more than one above the number of jobs.
pub round-shell :
    (fuel : ℕ) (sys : System) {s : Store} {js : List Job} (line : Option Text)
    → IsList s js
    → length js + 1 < fuel
    → sys.fresh ≢ null
    → s.node sys.fresh ≡ none
    → IsKill sys.kill
    → Same (round fuel sys s line) (shell sys js line)
unfolding round shell
round-shell fuel sys none v f ne unused kills = same_fault
round-shell fuel sys (some []) v f ne unused kills = same_return v refl refl refl
round-shell fuel sys {s} {js} (some (b ∷ bs)) v f ne unused kills =
    elim (Bool-cases (has_room sys (b ∷ bs))) [
      | inr small ↦ rw small same_fault
      | inl room ↦ rw room (
          words-Same fuel sys kills s js v f ne unused (tokens b' ' (b ∷ bs))
            (ground (arith, room)))
    ]
