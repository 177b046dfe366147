-- ===== src/Checkin/Finish/Steps.antt =====
-- Every step of a2/A2.c's program keeps the waiting times and `main` in agreement with the customers.
use csc.Base.{
  ◌&&◌, fun_ext, ℕ, ◌+◌, ◌≡◌, ◌≢◌, refl, sym, subst, ap, ◌∙◌, inl, inr, Bool, true, false,
  Bool-cases, Option-cases, List, ◌∷◌, some, ◌==◌, if◌then◌else◌, arith, ok, ok-injective,
  returns_both,
}
use csc.Checkin.Threads.{
  Class, class_of, Phase, arriving, signalled, taken, System, Setup, put, put_class, is_class,
  customer_entry,
}
use csc.Checkin.Threads.{}
use csc.Checkin.Threads.Agreement.{put-cases, put_class_self, put_class_ne, Class-cases}
use csc.Checkin.Threads.Moves.{is_past, Moves, stays, goes_on, is_taken, customer_entry-Moves}
use csc.Checkin.Finish.{Doubles, Program, Time, keeps_time, get_current_system_time, customer_step}
use csc.Checkin.Finish.History.{enters, leaves, leaves-same, is_class_self, is_class_other}
use csc.Checkin.Finish.Visits.{Visits, Visits-same, Visits-taken}

module _ (doubles : Doubles) (now : doubles.Double) (i : ℕ) (c : Class) (p : Program doubles) where
  -- A customer that is not taken adds no waiting time, and sets its own time as it enters.
  keeps-queue :
      (x q : Phase)
      → is_past q ≡ is_past x
      → (keeps_time doubles now i c p x q).queue_time ≡ p.queue_time
  keeps-queue x q e = ground (arith, e)

  keeps-init :
      (x q : Phase) (j : ℕ)
      → (x ≡ arriving → j ≢ i)
      → (keeps_time doubles now i c p x q).time_init j ≡ p.time_init j
  keeps-init x q j h = ground (arith, h)

  pub keeps-main : (x q : Phase) → (keeps_time doubles now i c p x q).main ≡ p.main
  keeps-main x q = ground arith

  pub keeps-entry :
      (x q : Phase)
      → (keeps_time doubles now i c p x q).time_init
        ≡ (if enters x q then put p.time_init i now else p.time_init)
  keeps-entry x q = ground arith

one_class : {a b : Class} → some a ≡ some b → a ≡ b
one_class e = cc

itself : (f : ℕ → Phase) (i : ℕ) (q : Phase) → put f i q i ≡ q
itself f i q = let same : (i == i) ≡ true = ground arith in rw same refl

module _ (doubles : Doubles) (now : doubles.Double) (i : ℕ) (setup : Setup) (p : Program doubles)
    (visits : Class → List (ℕ × doubles.Double)) where
  abbrev after : Class → System → Program doubles
  after c s = record (keeps_time doubles now i c p (p.system.customer i) (s.customer i)) {
    system = s;
  }

  -- The visits to a queue behind the step.
  abbrev and_this : Phase → Class → List (ℕ × doubles.Double)
  and_this q d =
      if is_class d (class_of (setup.class_type i)) && leaves (p.system.customer i) q
      then (i, now) ∷ visits d
      else visits d

  and_this-same :
      (q : Phase) (d : Class) → is_past q ≡ is_past (p.system.customer i) → and_this q d ≡ visits d
  and_this-same q d e = elim (Bool-cases (is_class d (class_of (setup.class_type i)))) [
    | inl is ↦ rw (is, leaves-same (p.system.customer i) q e) refl
    | inr isnt ↦ rw isnt refl
  ]

  -- The customer was not taken.
  untaken-Visits :
      (c : Class) (s : System) (q : Phase)
      → ((c : Class) → Visits doubles setup p c (visits c))
      → s.customer ≡ put p.system.customer i q
      → s.num_customers ≡ p.system.num_customers
      → is_past q ≡ is_past (p.system.customer i)
      → (d : Class) → Visits doubles setup (after c s) d (and_this (s.customer i) d)
  untaken-Visits c s q v cust num same d =
      let at_i = ap (λ f. f i) cust ∙ itself p.system.customer i q in
      let past_i = ap is_past at_i ∙ same in
      subst (Visits doubles setup (after c s) d) (sym (and_this-same (s.customer i) d past_i)) (
        Visits-same doubles (v d)
          (ap (λ f. f d)
            (keeps-queue doubles now i c p (p.system.customer i) (s.customer i) past_i))
          (λ j past.
            keeps-init doubles now i c p (p.system.customer i) (s.customer i) j (λ arrives e.
              let gone : is_past (p.system.customer i) ≡ true =
                subst (λ j. is_past (p.system.customer j) ≡ true) e past in
              let not_past : false ≡ true = ap is_past (sym arrives) ∙ gone in cc))
          (ap (λ f. f d) num)
          (λ j of_d.
            ap (λ f. is_past (f j)) cust
            ∙ put-cases (λ r. is_past r ≡ is_past (p.system.customer j)) p.system.customer i j q
                (λ e. same ∙ ap (λ j. is_past (p.system.customer j)) (sym e)) (λ _. refl)))

  -- The customer was taken.
  abbrev stamped : Class → System → (clerk : ℕ) → Program doubles
  stamped c s clerk = record (keeps_time doubles now i c p signalled (taken clerk)) { system = s }

  stamped-Visits :
      (c : Class) (s : System) (clerk : ℕ)
      → class_of (setup.class_type i) ≡ some c
      → ((c : Class) → Visits doubles setup p c (visits c))
      → p.system.customer i ≡ signalled
      → s.customer ≡ put p.system.customer i (taken clerk)
      → s.num_customers ≡ put_class p.system.num_customers c (p.system.num_customers c + 1)
      → (d : Class)
      → Visits doubles setup
          (stamped c s clerk)
          d
          (if is_class d (some c) then (i, now) ∷ visits d else visits d)
  stamped-Visits c s clerk of_c v at cust num d =
      Class-cases
        (λ d.
          Visits doubles setup (stamped c s clerk) d
            (if is_class d (some c) then (i, now) ∷ visits d else visits d))
        c d
        (rw (is_class_self c) (
          Visits-taken doubles i now clerk (v c) of_c at (put_class_self p.queue_time c _) refl
            (ap (λ f. f c) num ∙ put_class_self p.system.num_customers c _) cust))
        (λ d apart. rw (is_class_other c d apart) (
          Visits-same doubles (v d) (put_class_ne p.queue_time c d _ apart) (λ _ _. refl)
            (ap (λ f. f d) num ∙ put_class_ne p.system.num_customers c d _ apart)
            (λ j of_d.
              ap (λ f. is_past (f j)) cust
              ∙ put-cases (λ r. is_past r ≡ is_past (p.system.customer j)) p.system.customer i j
                  (taken clerk)
                  (λ e. absurd (
                    apart
                      (one_class (sym of_d ∙ ap (λ j. class_of (setup.class_type j)) e ∙ of_c))))
                  (λ _. refl))))

  taken-Visits :
      (c : Class) (s : System) (clerk : ℕ)
      → class_of (setup.class_type i) ≡ some c
      → ((c : Class) → Visits doubles setup p c (visits c))
      → p.system.customer i ≡ signalled
      → s.customer ≡ put p.system.customer i (taken clerk)
      → s.num_customers ≡ put_class p.system.num_customers c (p.system.num_customers c + 1)
      → (d : Class) → Visits doubles setup (after c s) d (and_this (s.customer i) d)
  taken-Visits c s clerk of_c v at cust num d =
      let now_taken : s.customer i ≡ taken clerk =
        ap (λ f. f i) cust ∙ itself p.system.customer i (taken clerk) in
      let this : and_this (s.customer i) d
          ≡ (if is_class d (some c) then (i, now) ∷ visits d else visits d) =
        rw (at, now_taken, of_c) (and_true (is_class d (some c))) in
      let same : after c s ≡ stamped c s clerk = rw (at, now_taken) refl in
      subst (Visits doubles setup (after c s) d) (sym this) (
        subst
          (λ q.
            Visits doubles setup q d
              (if is_class d (some c) then (i, now) ∷ visits d else visits d))
          (sym same) (stamped-Visits c s clerk of_c v at cust num d))
    where
      and_true :
          (b : Bool)
          → (if b && true then (i, now) ∷ visits d else visits d)
            ≡ (if b then (i, now) ∷ visits d else visits d)
      and_true true = refl
      and_true false = refl

  moved-Visits :
      (c : Class) (s : System)
      → class_of (setup.class_type i) ≡ some c
      → ((c : Class) → Visits doubles setup p c (visits c))
      → Moves setup p.system i s
      → (d : Class) → Visits doubles setup (after c s) d (and_this (s.customer i) d)
  moved-Visits c s of_c v stays =
      untaken-Visits c p.system (p.system.customer i) v (fun_ext λ j. put_same j) refl refl
    where
      put_same : (j : ℕ) → p.system.customer j ≡ put p.system.customer i (p.system.customer i) j
      put_same j =
          put-cases (λ r. p.system.customer j ≡ r) p.system.customer i j (p.system.customer i)
            (λ e. ap p.system.customer e) (λ _. refl)
  moved-Visits c s of_c v (goes_on q cust num past on here) = untaken-Visits c s q v cust num past
  moved-Visits c s of_c v (is_taken b clerk of_b at cust num) =
      taken-Visits c s clerk of_c v at cust (
        num
        ∙ ap (λ c. put_class p.system.num_customers c (p.system.num_customers c + 1))
            (one_class (sym of_b ∙ of_c)))

module _ (doubles : Doubles) (init_time curr_time : Time) (setup : Setup) (i k : ℕ) where
  abbrev pub now : doubles.Double
  now = get_current_system_time doubles init_time curr_time

  -- What a customer's step comes from.
  pub customer_step-after :
      (p : Program doubles) {p' : Program doubles}
      → customer_step doubles init_time curr_time setup p i k ≡ ok p'
      → (c : Class) × (s : System) × (class_of (setup.class_type i) ≡ some c)
        × (customer_entry setup p.system i k ≡ ok s)
        × (record (keeps_time doubles now i c p (p.system.customer i) (s.customer i)) { system = s }
            ≡ p')
  unfolding customer_step
  customer_step-after p run = elim (Option-cases (class_of (setup.class_type i))) [
    | inl no_class ↦ let e : _ = rw (no_class, customer_step) at run in cc
    | inr (c, of_class) ↦
        let run' : _ = rw (of_class, customer_step) at run in
        let (s, entry, next) = returns_both (customer_entry setup p.system i k) _ run' in
        (c, s, of_class, entry, ok-injective next)
  ]

  pub customer_step-Visits :
      (p : Program doubles) {p' : Program doubles} (visits : Class → List (ℕ × doubles.Double))
      → ((c : Class) → Visits doubles setup p c (visits c))
      → customer_step doubles init_time curr_time setup p i k ≡ ok p'
      → (d : Class)
      → Visits doubles setup p' d (
          if is_class d (class_of (setup.class_type i))
            && leaves (p.system.customer i) (p'.system.customer i)
          then (i, now) ∷ visits d
          else visits d)
  customer_step-Visits p visits v run d =
      let (c, s, of_class, entry, same) = customer_step-after p run in
      subst
        (λ q. Visits doubles setup q d (
          if is_class d (class_of (setup.class_type i))
            && leaves (p.system.customer i) (q.system.customer i)
          then (i, now) ∷ visits d
          else visits d))
        same
        (moved-Visits doubles now i setup p visits c s of_class v
          (customer_entry-Moves setup p.system i k entry) d)
