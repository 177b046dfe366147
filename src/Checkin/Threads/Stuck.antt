-- ===== src/Checkin/Threads/Stuck.antt =====
-- When the threads of a2/A2.c can go no further though customers wait.
pub mod Lost
mod Tests
use csc.Base.{
  ℕ, zero, suc, ◌≤◌, ◌≡◌, ◌≢◌, ◌⊎◌, refl, sym, subst, ap, ◌∙◌, Option-cases, Option, none, some,
  inl, inr, arith, Run, ok, ok-injective,
}
use csc.Checkin.Threads.{
  Class, class_of, queued, left, asleep, waiting, System, Setup, customer_in, customer_entry,
  clerk_in, clerk_entry,
}
use csc.Checkin.Threads.Runs.{IsClassed, Step, customer_acts, clerk_acts}

-- Steps of the threads from a state on, where no wait returns early.
pub data Runs (setup : Setup) (s : System) : System → Type 0 where
  here : Runs setup s s
  then_step : {t u : System} → Runs setup s t → Step setup t u → Runs setup s u

-- Each customer waits in its queue or has left, and each clerk waits for an arrival or for a customer.
pub record IsStuck (setup : Setup) (s : System) : Type 0 where
  pub customers : (i : ℕ) → IsClassed setup i → (s.customer i ≡ queued) ⊎ (s.customer i ≡ left)
  pub clerks : (k : ℕ) → 1 ≤ k → k ≤ 5 → (s.clerk k ≡ asleep) ⊎ (s.clerk k ≡ waiting)

Step-same : {setup : Setup} {s t : System} → IsStuck setup s → Step setup s t → t ≡ s
unfolding customer_entry clerk_entry
Step-same {setup} {s} v (customer_acts i m chosen run) =
    elim (Option-cases (class_of (setup.class_type i))) [
      | inl no_class ↦ let e : _ = rw (no_class, customer_entry) at run in cc
      | inr (c, of_class) ↦
          let run' : _ = rw (of_class, customer_entry) at run in
          elim (v.customers i (c, of_class)) [
            | inl in_line ↦ sym (ok-injective (sym (ap (customer_in setup s i m c) in_line) ∙ run'))
            | inr gone ↦ sym (ok-injective (sym (ap (customer_in setup s i m c) gone) ∙ run'))
          ]
    ]
Step-same {setup} {s} v (clerk_acts k lo hi) = elim (v.clerks k lo hi) [
  | inl sleeps ↦ ap (clerk_in setup s k) sleeps
  | inr waits ↦ ap (clerk_in setup s k) waits
]

-- In a stuck state no step of a thread changes anything.
pub Runs-same : {setup : Setup} {s t : System} → IsStuck setup s → Runs setup s t → t ≡ s
Runs-same v here = refl
Runs-same {setup} v (then_step r step) =
    let same = Runs-same v r in Step-same (subst (IsStuck setup) (sym same) v) step ∙ same
