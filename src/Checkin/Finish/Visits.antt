-- ===== src/Checkin/Finish/Visits.antt =====
-- The waiting times of a2/A2.c against the customers that were taken.
use csc.Base.{
  ℕ, ◌+◌, ◌≡◌, ◌⊎◌, refl, sym, ap, ap₂, ◌∙◌, inl, inr, true, false, List, [], ◌∷◌, length, some,
  arith,
}
use csc.Checkin.Threads.{Class, class_of, signalled, taken, Setup, put}
use csc.Checkin.Threads.Agreement.{put-cases}
use csc.Checkin.Threads.Moves.{is_past}
use csc.Checkin.Finish.{Doubles, Program}

module _ (doubles : Doubles) where
  open doubles use {Double, of_int, add, sub}

  -- A visit: the customer, and the time at which it was taken; the last visit comes first.
  abbrev pub IsAmong : ℕ → List (ℕ × Double) → Type 0
  IsAmong i [] = ⊥
  IsAmong i ((j, end) ∷ visits) = (i ≡ j) ⊎ IsAmong i visits

  abbrev pub Once : List (ℕ × Double) → Type 0
  Once [] = Unit
  Once ((i, end) ∷ visits) = (IsAmong i visits → ⊥) × Once visits

  -- The waits, added in the order of the visits.
  abbrev pub total_wait : (ℕ → Double) → List (ℕ × Double) → Double
  total_wait time_init [] = of_int 0
  total_wait time_init ((i, end) ∷ visits) =
      add (total_wait time_init visits) (sub end (time_init i))

  -- The visits are those of the customers of a class that have left its queue, one for each.
  pub record Visits (setup : Setup) (p : Program doubles) (c : Class) (visits : List (ℕ × Double))
      : Type 0 where
    pub summed : p.queue_time c ≡ total_wait p.time_init visits
    pub counted : p.system.num_customers c ≡ length visits
    pub once : Once visits
    pub of_class :
        (i : ℕ)
        → IsAmong i visits
        → (class_of (setup.class_type i) ≡ some c) × (is_past (p.system.customer i) ≡ true)
    pub all_past :
        (i : ℕ)
        → class_of (setup.class_type i) ≡ some c
        → is_past (p.system.customer i) ≡ true
        → IsAmong i visits

  total_wait-same :
      (f g : ℕ → Double) (visits : List (ℕ × Double))
      → ((i : ℕ) → IsAmong i visits → g i ≡ f i)
      → total_wait g visits ≡ total_wait f visits
  total_wait-same f g [] h = refl
  total_wait-same f g ((i, end) ∷ visits) h =
      ap₂ (λ t s. add t (sub end s)) (total_wait-same f g visits (λ j among. h j (inr among)))
        (h i (inl refl))

  -- No customer of the class is taken.
  pub Visits-same :
      {setup : Setup} {p q : Program doubles} {c : Class} {visits : List (ℕ × Double)}
      → Visits setup p c visits
      → q.queue_time c ≡ p.queue_time c
      → ((i : ℕ) → is_past (p.system.customer i) ≡ true → q.time_init i ≡ p.time_init i)
      → q.system.num_customers c ≡ p.system.num_customers c
      → ((i : ℕ)
          → class_of (setup.class_type i) ≡ some c
          → is_past (q.system.customer i) ≡ is_past (p.system.customer i))
      → Visits setup q c visits
  Visits-same {p} {q} {visits} v time init num past = record {
    summed =
        time
        ∙ v.summed
        ∙ sym (
            total_wait-same p.time_init q.time_init visits
              (λ i among. init i (v.of_class i among).1));
    counted = num ∙ v.counted;
    once = v.once;
    of_class = λ i among. let (of_c, gone) = v.of_class i among in (of_c, past i of_c ∙ gone);
    all_past = λ i of_c gone. v.all_past i of_c (sym (past i of_c) ∙ gone);
  }

  -- A customer of the class is taken.
  pub Visits-taken :
      {setup : Setup} {p q : Program doubles} {c : Class} {visits : List (ℕ × Double)} (i : ℕ)
      (now : Double) (clerk : ℕ)
      → Visits setup p c visits
      → class_of (setup.class_type i) ≡ some c
      → p.system.customer i ≡ signalled
      → q.queue_time c ≡ add (p.queue_time c) (sub now (p.time_init i))
      → q.time_init ≡ p.time_init
      → q.system.num_customers c ≡ p.system.num_customers c + 1
      → q.system.customer ≡ put p.system.customer i (taken clerk)
      → Visits setup q c ((i, now) ∷ visits)
  Visits-taken {setup} {p} {q} {c} {visits} i now clerk v of_c at time init num cust = record {
    summed =
        time
        ∙ ap₂ (λ t s. add t (sub now s)) v.summed (ap (λ f. f i) (sym init))
        ∙ ap (λ f. add (total_wait f visits) (sub now (q.time_init i))) (sym init);
    counted = omega (arith, num, v.counted);
    once = (
      λ among. let gone : false ≡ true = ap is_past (sym at) ∙ (v.of_class i among).1 in cc,
      v.once,
    );
    of_class = λ j. elim [
      | inl same ↦ (
        ap (λ j. class_of (setup.class_type j)) same ∙ of_c,
        ap (λ f. is_past (f j)) cust
            ∙ put-cases (λ r. is_past r ≡ true) p.system.customer i j (taken clerk) (λ _. refl)
                (λ apart. absurd (apart same)),
      )
      | inr among ↦
          let (of_j, gone) = v.of_class j among in
          (
            of_j,
            ap (λ f. is_past (f j)) cust
                ∙ put-cases (λ r. is_past r ≡ true) p.system.customer i j (taken clerk) (λ _. refl)
                    (λ _. gone),
          )
    ];
    all_past = λ j of_j gone.
        put-cases (λ r. is_past r ≡ true → (j ≡ i) ⊎ IsAmong j visits) p.system.customer i j
          (taken clerk) (λ same _. inl same) (λ _ past. inr (v.all_past j of_j past))
          (ap (λ f. is_past (f j)) (sym cust) ∙ gone);
  }
