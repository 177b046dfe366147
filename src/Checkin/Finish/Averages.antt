-- ===== src/Checkin/Finish/Averages.antt =====
-- The averages at the end of a2/A2.c's `main`.
use csc.Base.{
  ℕ, ◌+◌, ◌*◌, ◌<◌, ◌≡◌, refl, subst, ap, ap₂, ◌∙◌, true, false, List, [], ◌∷◌, length, some,
  if◌then◌else◌, fun_ext, ◌↔◌,
}
use csc.Checkin.Threads.{Class, economy, business, class_of, left, Setup, put}
use csc.Checkin.Threads.Runs.{IsClassed}
use csc.Checkin.Threads.Moves.{is_past}
use csc.Checkin.Finish.{
  Doubles, Program, Time, Message, all_jobs_done, average_business, average_economy, average_all,
  finished, main_step, reports, Plays, starts, customer_plays, clerk_plays, wait_returns,
  main_plays,
}
use csc.Checkin.Finish.History.{enters, entry_times, visits_of}
use csc.Checkin.Finish.Visits.{IsAmong, Once, total_wait, Visits, Visits-same}
use csc.Checkin.Finish.Joins.{Stands, Plays-Stands, main_step-rest}
use csc.Checkin.Finish.Wakes.{clerk_entry-OnlyWakes, Spurious-OnlyWakes, with_system-Visits}
use csc.Checkin.Finish.Steps.{customer_step-Visits, customer_step-after, now, keeps-entry}

module _ (doubles : Doubles) where
  main_step-Visits :
      {setup : Setup} (n : ℕ) (p : Program doubles) {c : Class} {visits : List (ℕ × doubles.Double)}
      → Visits doubles setup p c visits
      → Visits doubles setup (main_step doubles n p) c visits
  main_step-Visits n p {c} v =
      let rest = main_step-rest doubles n p in
      Visits-same doubles v (ap (λ q. q.queue_time c) rest) (λ i _. ap (λ q. q.time_init i) rest)
        (ap (λ q. q.system.num_customers c) rest)
        (λ i _. ap (λ q. is_past (q.system.customer i)) rest)

module _ (doubles : Doubles) {init_time : Time} {setup : Setup} {n : ℕ} where
  -- The local of a customer is the time at which it entered its queue.
  time_init-entry :
      {p : Program doubles} (plays : Plays doubles init_time setup n p)
      → p.time_init ≡ entry_times doubles plays
  time_init-entry (starts unset) = refl
  time_init-entry (customer_plays {p} {p'} curr_time i k plays chosen run) =
      let (c, s, of_class, entry, same) =
        customer_step-after doubles init_time curr_time setup i k p run in
      let read = now doubles init_time curr_time setup i k in
      subst
        (λ q. q.time_init ≡ (
          if enters (p.system.customer i) (q.system.customer i)
          then put (entry_times doubles plays) i read
          else entry_times doubles plays))
        same
        (keeps-entry doubles read i c p (p.system.customer i) (s.customer i)
          ∙ ap (λ f. if enters (p.system.customer i) (s.customer i) then put f i read else f)
              (time_init-entry plays))
  time_init-entry (clerk_plays k plays low high) = time_init-entry plays
  time_init-entry (wait_returns plays returns) = time_init-entry plays
  time_init-entry (main_plays {p} plays) =
      ap (λ q. q.time_init) (main_step-rest doubles n p) ∙ time_init-entry plays

  Plays-Visits :
      {p : Program doubles} (plays : Plays doubles init_time setup n p) (c : Class)
      → Visits doubles setup p c (visits_of doubles plays c)
  Plays-Visits (starts unset) c = record {
    summed = refl;
    counted = refl;
    once = tt;
    of_class = λ i among. absurd among;
    all_past = λ i of_c gone. let e : false ≡ true = gone in cc;
  }
  Plays-Visits (customer_plays {p} curr_time i k plays chosen run) c =
      customer_step-Visits doubles init_time curr_time setup i k p (visits_of doubles plays)
        (Plays-Visits plays) run c
  Plays-Visits (clerk_plays {p} k plays low high) c =
      with_system-Visits doubles p _ (clerk_entry-OnlyWakes setup p.system k) c
        (Plays-Visits plays c)
  Plays-Visits (wait_returns {p} plays returns) c =
      with_system-Visits doubles p _ (Spurious-OnlyWakes returns) c (Plays-Visits plays c)
  Plays-Visits (main_plays {p} plays) c = main_step-Visits doubles n p (Plays-Visits plays c)

-- The visits of an execution are over for the customers of a class that are taken or further, one for
-- each, and the program's time and number of the class are those of these visits.
pub record Waited (doubles : Doubles) {init_time : Time} {setup : Setup} {n : ℕ}
    {p : Program doubles} (plays : Plays doubles init_time setup n p) (c : Class) : Type 0 where
  pub summed :
      p.queue_time c ≡ total_wait doubles (entry_times doubles plays) (visits_of doubles plays c)
  pub counted : p.system.num_customers c ≡ length (visits_of doubles plays c)
  pub once : Once doubles (visits_of doubles plays c)
  pub of_taken :
      (i : ℕ)
      → IsAmong doubles i (visits_of doubles plays c)
        ↔ ((class_of (setup.class_type i) ≡ some c) × (is_past (p.system.customer i) ≡ true))

-- At every moment of every execution of the program, and for each class: the time kept is the waits
-- of the visits so far, each from the customer's entry into its queue to the step that took it, added
-- up in their order, and the number kept is the number of these visits. They are one for each
-- customer of the class that has been taken, whether it is still served or has left.
pub Plays-Waited :
    (doubles : Doubles) {init_time : Time} {setup : Setup} {n : ℕ} {p : Program doubles}
    (plays : Plays doubles init_time setup n p) (c : Class)
    → Waited doubles plays c
Plays-Waited doubles plays c =
    let v = Plays-Visits doubles plays c in
    record {
      summed =
          v.summed
          ∙ ap (λ f. total_wait doubles f (visits_of doubles plays c))
              (time_init-entry doubles plays);
      counted = v.counted;
      once = v.once;
      of_taken = λ i. (λ among. v.of_class i among, λ (of_c, gone). v.all_past i of_c gone);
    }

module _ (doubles : Doubles) where
  open doubles use {of_int, add, div}

  -- What `main` prints of the visits to the two queues.
  abbrev pub summary :
      (ℕ → doubles.Double) → (Class → List (ℕ × doubles.Double)) → List (Message doubles.Double)
  summary entry visits =
      all_jobs_done
      ∷ average_business (
          div (total_wait doubles entry (visits business)) (of_int (length (visits business) * 10)))
      ∷ average_economy
          (div (total_wait doubles entry (visits economy)) (of_int (length (visits economy) * 10)))
      ∷ average_all (
          div
            (add (total_wait doubles entry (visits business))
              (total_wait doubles entry (visits economy)))
            (of_int ((length (visits business) + length (visits economy)) * 10)))
      ∷ []

  reports-summary :
      {setup : Setup} (p : Program doubles) (visits : Class → List (ℕ × doubles.Double))
      → ((c : Class) → Visits doubles setup p c (visits c))
      → reports doubles p ≡ summary p.time_init visits
  reports-summary p visits v = ap₂ averages (fun_ext λ c. (v c).summed) (fun_ext λ c. (v c).counted)
    where
      averages : (Class → doubles.Double) → (Class → ℕ) → List (Message doubles.Double)
      averages time num =
          all_jobs_done
          ∷ average_business (div (time business) (of_int (num business * 10)))
          ∷ average_economy (div (time economy) (of_int (num economy * 10)))
          ∷ average_all (
              div (add (time business) (time economy)) (of_int ((num business + num economy) * 10)))
          ∷ []

  -- What `main` has printed is the averages over all the customers of a class, each with one visit:
  -- from the time at which it entered its queue to the time at which it was taken.
  pub record Averaged {init_time : Time} {setup : Setup} {n : ℕ} {p : Program doubles}
      (plays : Plays doubles init_time setup n p) : Type 0 where
    pub all_left : (i : ℕ) → IsClassed setup i → p.system.customer i ≡ left
    pub once : (c : Class) → Once doubles (visits_of doubles plays c)
    pub of_class :
        (c : Class) (i : ℕ)
        → IsAmong doubles i (visits_of doubles plays c) ↔ (class_of (setup.class_type i) ≡ some c)
    pub printed : p.output ≡ summary (entry_times doubles plays) (visits_of doubles plays)

  -- In every execution of the program, where the threads that run a class's branch are among the `n`
  -- that `main` joins: once `main` is finished, every customer has left, the visits of the execution
  -- are one for each customer of a class, and the three averages printed are the waits of these
  -- visits, each from the customer's entry into its queue to the step that took it, added up and
  -- divided by ten times their number.
  pub Plays-Averaged :
      {init_time : Time} {setup : Setup} {n : ℕ} {p : Program doubles}
      → ((i : ℕ) → IsClassed setup i → i < n)
      → (plays : Plays doubles init_time setup n p) → p.main ≡ finished
      → Averaged plays
  Plays-Averaged {setup} {n} {p} classed plays over =
      let (gone, out) = subst (Stands doubles n p) over (Plays-Stands doubles classed plays) in
      let v = Plays-Visits doubles plays in
      record {
        all_left = λ i of_class. gone i (classed i of_class);
        once = λ c. (v c).once;
        of_class = λ c i. (
          λ among. ((v c).of_class i among).0,
          λ of_c. (v c).all_past i of_c (ap is_past (gone i (classed i (c, of_c)))),
        );
        printed =
            out
            ∙ reports-summary p (visits_of doubles plays) v
            ∙ ap (λ f. summary f (visits_of doubles plays)) (time_init-entry doubles plays);
      }
