-- ===== src/Checkin/Threads/Stuck/Lost.antt =====
-- A signal of a customer of a2/A2.c that is sent between a clerk's test and its wait.
use csc.Base.{ℕ, ◌≤◌, ◌≡◌, ◌≢◌, ◌⊎◌, refl, sym, subst, ap, ◌∙◌, inl, inr, some, ok, ok-injective}
use csc.Checkin.Threads.{
  Class, class_of, entered, queued, left, ClerkPhase, about_to_wait, asleep, waiting, System, Setup,
  wake_asleep, signals_clerks, leaves_request, customer_entry, clerk_in, clerk_entry,
}
use csc.Checkin.Threads.Agreement.{put-cases}
use csc.Checkin.Threads.Runs.{IsClassed, IsChosen, customer_acts, clerk_acts, Reach, acts}
use csc.Checkin.Threads.Stuck.{Runs, here, then_step, IsStuck, Runs-same}

-- Clerk `k` has found both queues empty and is about to wait, and the other clerks wait for customers
-- that they called. Customer `i` has entered its queue, and is about to signal; the others
-- wait in their queues or have left.
pub record IsTooLate (setup : Setup) (s : System) (i k : ℕ) : Type 0 where
  pub low : 1 ≤ k
  pub high : k ≤ 5
  pub tested : s.clerk k ≡ about_to_wait
  pub others_wait : (j : ℕ) → 1 ≤ j → j ≤ 5 → j ≢ k → s.clerk j ≡ waiting
  pub class : Class
  pub of_class : class_of (setup.class_type i) ≡ some class
  pub in_queue : s.customer i ≡ entered
  pub others : (j : ℕ) → IsClassed setup j → j ≢ i → (s.customer j ≡ queued) ⊎ (s.customer j ≡ left)

Reach-Runs : {setup : Setup} {s t : System} → Reach setup s → Runs setup s t → Reach setup t
Reach-Runs r here = r
Reach-Runs r (then_step run step) = acts (Reach-Runs r run) step

module _ (setup : Setup) (s : System) (i k m : ℕ) (v : IsTooLate setup s i k) where
  signals : customer_entry setup s i m ≡ ok (signals_clerks s i v.class m)
  unfolding customer_entry
  signals = rw (v.of_class, customer_entry, v.in_queue) refl

  -- The signal wakes no clerk that is not asleep.
  unheard :
      (j : ℕ) (p : ClerkPhase)
      → s.clerk j ≡ p
      → wake_asleep p ≡ p
      → (signals_clerks s i v.class m).clerk j ≡ p
  unheard j p at not_asleep =
      put-cases (λ r. r ≡ p) s.clerk m j (wake_asleep (s.clerk m))
        (λ same. ap (λ j. wake_asleep (s.clerk j)) (sym same) ∙ ap wake_asleep at ∙ not_asleep)
        (λ _. at)

  waits_now :
      clerk_entry setup (signals_clerks s i v.class m) k
      ≡ leaves_request (signals_clerks s i v.class m) k asleep
  unfolding clerk_entry
  waits_now =
      ap (clerk_in setup (signals_clerks s i v.class m) k) (unheard k about_to_wait v.tested refl)

  lost-IsStuck : IsStuck setup (leaves_request (signals_clerks s i v.class m) k asleep)
  lost-IsStuck = record {
    customers = λ j classed.
        put-cases (λ r. (r ≡ queued) ⊎ (r ≡ left)) s.customer i j queued (λ _. inl refl)
          (λ other. v.others j classed other);
    clerks = λ j lo hi.
        put-cases (λ r. (r ≡ asleep) ⊎ (r ≡ waiting)) (signals_clerks s i v.class m).clerk k j
          asleep (λ _. inl refl)
          (λ other. inr (unheard j waiting (v.others_wait j lo hi other) refl));
  }

  lost-queued : (leaves_request (signals_clerks s i v.class m) k asleep).customer i ≡ queued
  lost-queued =
      put-cases (λ r. r ≡ queued) s.customer i i queued (λ _. refl) (λ other. absurd (other refl))

-- From a state that the threads reach, where a clerk is about to wait behind its test of both
-- queues, the other clerks wait for customers that they called, one customer has entered its queue
-- and the others wait or have left: if that customer now signals and the clerk then waits, the threads
-- are in a state that they reach, and they stay in it, whatever steps they take as long as no wait
-- returns early. The customer waits in its queue, which is as it was when it had entered, and no clerk
-- calls it.
pub signal-lost :
    {setup : Setup} {s t u : System} (i k m : ℕ)
    → Reach setup s
    → IsTooLate setup s i k
    → IsChosen s.clerk m
    → customer_entry setup s i m ≡ ok t
    → Runs setup (clerk_entry setup t k) u
    → Reach setup u × (u ≡ clerk_entry setup t k) × (u.customer i ≡ queued) × (u.desk ≡ s.desk)
signal-lost {setup} {s} {t} {u} i k m r v chosen signal run =
    let after : t ≡ signals_clerks s i v.class m =
      ok-injective (sym signal ∙ signals setup s i k m v) in
    let lost : clerk_entry setup t k ≡ leaves_request (signals_clerks s i v.class m) k asleep =
      ap (λ t. clerk_entry setup t k) after ∙ waits_now setup s i k m v in
    let same : u ≡ clerk_entry setup t k =
      Runs-same (subst (IsStuck setup) (sym lost) (lost-IsStuck setup s i k m v)) run in
    (
      Reach-Runs (acts (acts r (customer_acts i m chosen signal)) (clerk_acts k v.low v.high)) run,
      same,
      ap (λ u. u.customer i) (same ∙ lost) ∙ lost-queued setup s i k m v,
      ap (λ u. u.desk) (same ∙ lost),
    )
