-- ===== src/Pman/Commands/Zombies.antt =====
-- `check_zombieProcess` of a1/PMan.c, against a loop over the list of jobs.
use csc.Base.{
  ℕ, ◌≤◌, ◌<◌, ◌≡◌, refl, ap₂, ℤ, pos, int_eq, Bool, true, false, List, [], ◌∷◌, ◌++◌, inl, inr,
  Bool-cases, length, arith, Run, ok, out_of_fuel, ◌>>=◌, ◌==◌, if◌then◌else◌,
}
use csc.Pman.Store.{Store, null}
use csc.Pman.Store.Linked.{Job, IsList}
use csc.Pman.Store.Remove.{remove_first, remove_node-remove_first}
use csc.Pman.Effects.{waitpid_failed, printed, terminated, killed, Effects, Wait}
use csc.Pman.Commands.{
  Flow, goes_on, exits, Outcome, is_positive, wait_messages, check_zombie_process,
}

-- The jobs, effects and flow behind the check, and the answers that are left.
pub record Reaped : Type 0 where
  pub jobs : List Job
  pub effects : Effects
  pub flow : Flow
  pub waits : List Wait

-- What is said of a process that ended: that it was terminated, where it exited, and that it was
-- killed, where a signal ended it.
abbrev pub farewell : (pid : ℤ) (exited signaled : Bool) → Effects
farewell pid true true = printed (terminated pid) ∷ printed (killed pid) ∷ []
farewell pid true false = printed (terminated pid) ∷ []
farewell pid false true = printed (killed pid) ∷ []
farewell pid false false = []

-- The check on the jobs: each answer with a pid takes the first job with that pid out of the list;
-- the check ends when no job is left, when no process has changed, or on an error.
unfoldable pub reap : List Job → List Wait → Run Reaped
reap [] ws = ok (record { jobs = []; effects = []; flow = goes_on; waits = ws })
reap (j ∷ js) [] = out_of_fuel
reap (j ∷ js) (w ∷ ws) =
    if is_positive w.ret_val
    then (do
      r ← reap (remove_first w.ret_val (j ∷ js)) ws
      ok (record r { effects = farewell w.ret_val w.if_exited w.if_signaled ++ r.effects }))
    else if int_eq w.ret_val (pos 0)
    then ok (record { jobs = j ∷ js; effects = []; flow = goes_on; waits = ws })
    else ok
        (record { jobs = j ∷ js; effects = printed waitpid_failed ∷ []; flow = exits; waits = ws })

-- The two loops return together, with the list of the same jobs and all else equal, or both go on
-- waiting.
pub data Agree : Run Outcome → Run Reaped → Type 0 where
  both_return :
      {o : Outcome} {r : Reaped}
      → IsList o.store r.jobs
      → o.effects ≡ r.effects
      → o.flow ≡ r.flow
      → o.waits ≡ r.waits
      → Agree (ok o) (ok r)
  both_wait : Agree out_of_fuel out_of_fuel

wait_messages-farewell : (w : Wait) → wait_messages w ≡ farewell w.ret_val w.if_exited w.if_signaled
wait_messages-farewell w = each w.if_exited w.if_signaled
  where
    each :
        (exited signaled : Bool)
        → (if exited then printed (terminated w.ret_val) ∷ [] else [])
            ++ (if signaled then printed (killed w.ret_val) ∷ [] else [])
          ≡ farewell w.ret_val exited signaled
    each true true = refl
    each true false = refl
    each false true = refl
    each false false = refl

Agree-effects :
    {p : Run Outcome} {q : Run Reaped} {e e' : Effects}
    → e ≡ e'
    → Agree p q
    → Agree
        (p >>= λ o. ok (record o { effects = e ++ o.effects }))
        (q >>= λ r. ok (record r { effects = e' ++ r.effects }))
Agree-effects same (both_return v a b c) = both_return v (ap₂ (λ x y. x ++ y) same a) b c
Agree-effects same both_wait = both_wait

pub length-remove_first : (pid : ℤ) (js : List Job) → length (remove_first pid js) ≤ length js
length-remove_first pid [] = omega arith
length-remove_first pid (j ∷ js) = ground (arith, length-remove_first pid js)

head-null : {s : Store} → IsList s [] → (s.head == null) ≡ true
head-null v = rw (v.starts)

head-ne : {s : Store} {j : Job} {js : List Job} → IsList s (j ∷ js) → (s.head == null) ≡ false
head-ne v = rw (v.starts) (ground (arith, v.linked.0))

-- On the list of some jobs, with fuel above their number, `check_zombieProcess` does what `reap`
-- does on the jobs: the first job with each pid that `waitpid` reports leaves the list, and the
-- process is said to be terminated where it exited, to be killed where a signal ended it, and
-- nothing is said of it otherwise. It stops where no job is left, where no process has changed, or on
-- an error of `waitpid`, and waits on where the answers are used up.
pub check_zombie_process-reap :
    (ws : List Wait) {s : Store} (js : List Job) (fuel : ℕ)
    → IsList s js
    → length js < fuel
    → Agree (check_zombie_process fuel s ws) (reap js ws)
unfolding check_zombie_process reap
check_zombie_process-reap [] [] fuel v f = rw (head-null v) (both_return v refl refl refl)
check_zombie_process-reap [] (j ∷ js) fuel v f = rw (head-ne v) both_wait
check_zombie_process-reap (w ∷ ws) [] fuel v f = rw (head-null v) (both_return v refl refl refl)
check_zombie_process-reap (w ∷ ws) (j ∷ js) fuel v f =
    rw (head-ne v) (elim (Bool-cases (is_positive w.ret_val)) [
      | inl child ↦
          let (s', run, v', freed, same) = remove_node-remove_first fuel w.ret_val v f in
          rw (child, run)
            (Agree-effects (wait_messages-farewell w) (
              check_zombie_process-reap ws (remove_first w.ret_val (j ∷ js)) fuel v'
                (omega (arith, length-remove_first w.ret_val (j ∷ js)))))
      | inr other ↦ rw other (elim (Bool-cases (int_eq w.ret_val (pos 0))) [
        | inl nothing ↦ rw nothing (both_return v refl refl refl)
        | inr failed ↦ rw failed (both_return v refl refl refl)
      ])
    ])
