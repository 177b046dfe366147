-- ===== src/Checkin/Threads/Customers.antt =====
-- Each step of a customer of a2/A2.c is free of faults and keeps the agreement.
use csc.Base.{ℕ, ◌+◌, ◌≡◌, refl, sym, subst, ap, inl, inr, Bool-cases, Option, none, some, Run, ok}
use csc.Checkin.Desk.{Desk, clear, clears}
use csc.Checkin.Desk.Sections.{enter-Reached, Round, takes, again, wake-Round}
use csc.Checkin.Threads.{
  Class, economy, business, class_of, Phase, arriving, entered, queued, signalled, taken, serving,
  left, System, Setup, put, put_class, is_free, enters_queue, signals_clerks, after_round, round,
  starts_service, finishes, customer_in, customer_entry,
}
use csc.Checkin.Threads.Runs.{IsSetup}
use csc.Checkin.Threads.Agreement.{
  Agreement, Calm, CalmAt, Agreement-calm, Agreement-same, CalmAt-put, CalmAt-other, put_class_self,
  put_class_ne, Class-cases,
}
use csc.Checkin.Threads.Agreement.Line.{Agreement-enters, Agreement-takes}

clear_nodes : (d : Desk) → (clear d).nodes ≡ d.nodes
unfolding clear
clear_nodes d = refl

module _ (setup : Setup) (good : IsSetup setup) (s : System) (i k : ℕ) (c : Class)
    (of_class : class_of (setup.class_type i) ≡ some c)
    (agreed : (d : Class) → Agreement setup s d) where
  abbrev Kept : Run System → Type 0
  Kept r = (t : System) × (r ≡ ok t) × ((d : Class) → Agreement setup t d)

  enters-Kept : s.customer i ≡ arriving → Kept (enters_queue setup s i c)
  unfolding enters_queue
  enters-Kept e = elim (Bool-cases (is_free (s.owner c))) [
    | inr owned ↦ (s, rw owned, agreed)
    | inl free ↦
        let a = agreed c in
        let (unused, out) = a.fresh i of_class e in
        let (d, run, r, kept) =
          enter-Reached (setup.id i) (setup.address i) a.reached (good.allocated i) unused in
        let t : System = record s {
          desk = put_class s.desk c d;
          owner = put_class s.owner c (some i);
          customer = put s.customer i entered;
        } in
        (
          t,
          rw (free, run),
          λ b.
              Class-cases (Agreement setup t) c b
                (Agreement-enters good i of_class a r kept out (put_class_self s.desk c d) refl
                  refl)
                λ b apart.
                  Agreement-same (agreed b) (put_class_ne s.desk c b d apart) refl
                    (CalmAt-other setup s.customer i entered of_class apart),
        )
  ]

  round-Kept : s.customer i ≡ signalled → Kept (round setup s i c)
  unfolding round
  round-Kept e = elim (Bool-cases (is_free (s.owner c))) [
    | inr owned ↦ (s, rw owned, agreed)
    | inl free ↦
        let a = agreed c in
        let (there, out) = a.in_line i of_class (rw e) in
        let (o, d, run, r) = wake-Round (setup.id i) a.reached there out in
        (after_round s i c (o, d), rw (free, run), round_lem o d r)
  ]
    where
      round_lem :
          (o : Option ℕ) (d : Desk)
          → Round (setup.id i) (s.desk c) (agreed c).all (agreed c).gone (agreed c).calls (o, d)
          → (b : Class) → Agreement setup (after_round s i c (o, d)) b
      round_lem none d again b =
          Agreement-same (agreed b)
            (Class-cases (λ b. put_class s.desk c (s.desk c) b ≡ s.desk b) c b
              (put_class_self s.desk c (s.desk c))
              (λ b apart. put_class_ne s.desk c b (s.desk c) apart))
            refl (CalmAt-put setup b s.customer i queued e (λ e. cc, λ _. refl))
      round_lem (some clerk) d (takes nodes r) b =
          Class-cases (Agreement setup (after_round s i c (some clerk, d))) c b
            (Agreement-takes good i clerk of_class (agreed c) r nodes (put_class_self s.desk c d)
              (put_class_self s.num_customers c (s.num_customers c + 1)) refl)
            λ b apart.
              Agreement-same (agreed b) (put_class_ne s.desk c b d apart)
                (put_class_ne s.num_customers c b (s.num_customers c + 1) apart)
                (CalmAt-put setup b s.customer i (taken clerk) e (λ e. cc, λ e. cc))

  -- A phase of which nothing but the customer is seen at the desks.
  goes_on :
      {p : Phase} (q : Phase) (t : System)
      → s.customer i ≡ p
      → Calm p q
      → t.desk ≡ s.desk
      → t.num_customers ≡ s.num_customers
      → t.customer ≡ put s.customer i q
      → (d : Class) → Agreement setup t d
  goes_on q t e calm desk num cust d =
      Agreement-same (agreed d) (ap (λ f. f d) desk) (ap (λ f. f d) num)
        (subst (CalmAt setup d s.customer) (sym cust) (CalmAt-put setup d s.customer i q e calm))

  starts-Kept :
      (clerk : ℕ)
      → s.customer i ≡ taken clerk
      → (d : Class) → Agreement setup (starts_service s i c clerk) d
  starts-Kept clerk e =
      elim c as (λ c. (d : Class) → Agreement setup (starts_service s i c clerk) d) [
        | economy ↦ goes_on (serving clerk) _ e (λ e. cc, λ e. cc) refl refl refl
        | business ↦ λ d. cleared d
      ]
    where
      calm : (d : Class) → CalmAt setup d s.customer (put s.customer i (serving clerk))
      calm d = CalmAt-put setup d s.customer i (serving clerk) e (λ e. cc, λ e. cc)

      cleared : (d : Class) → Agreement setup (starts_service s i business clerk) d
      cleared economy = Agreement-same (agreed economy) refl refl (calm economy)
      cleared business =
          let a = agreed business in
          Agreement-calm a (clears a.reached) (clear_nodes (s.desk business)) refl (calm business)

  customer_in-Kept : (p : Phase) → s.customer i ≡ p → Kept (customer_in setup s i k c p)
  customer_in-Kept arriving e = enters-Kept e
  customer_in-Kept entered e =
      (_, refl, goes_on queued (signals_clerks s i c k) e (λ e. cc, λ _. refl) refl refl refl)
  customer_in-Kept queued e = (s, refl, agreed)
  customer_in-Kept signalled e = round-Kept e
  customer_in-Kept (taken clerk) e = (_, refl, starts-Kept clerk e)
  customer_in-Kept (serving clerk) e =
      (_, refl, goes_on left (finishes s i clerk) e (λ e. cc, λ e. cc) refl refl refl)
  customer_in-Kept left e = (s, refl, agreed)

-- A step of a customer of either class has no fault and keeps the agreement of both queues.
pub customer_entry-Kept :
    (setup : Setup) (s : System) (i k : ℕ) {c : Class}
    → IsSetup setup
    → class_of (setup.class_type i) ≡ some c
    → ((d : Class) → Agreement setup s d)
    → (t : System) × (customer_entry setup s i k ≡ ok t) × ((d : Class) → Agreement setup t d)
unfolding customer_entry
customer_entry-Kept setup s i k {c} good of_class agreed =
    let (t, run, kept) = customer_in-Kept setup good s i k c of_class agreed (s.customer i) refl in
    (t, rw (of_class, customer_entry) run, kept)
