-- ===== src/Checkin/Threads/Safety.antt =====
-- No thread of a2/A2.c meets a fault, and each queue sees its sections in some order.
use csc.Base.{
  ℕ, ◌+◌, ◌≡◌, refl, sym, subst, ap, ◌∙◌, inl, inr, Bool, true, false, Bool-cases, Option-cases,
  List, [], length, if◌then◌else◌, ok, ok-injective,
}
use csc.Checkin.Desk.{Desk, call, Reached, starts, calls_queue}
use csc.Checkin.Threads.{
  Class, class_of, Phase, arriving, queued, signalled, taken, serving, left, entered, ClerkPhase,
  System, start_system, Setup, put, put_class, is_free, hear, is_class, calls_class, clerk_in,
  customer_entry, clerk_entry, requesting, testing, testing_economy, about_to_wait, asleep, woken,
  selecting, selecting_economy, calling, called, waiting,
}
use csc.Checkin.Threads.Runs.{
  IsSetup, IsClassed, customer_acts, clerk_acts, Spurious, customer_returns, sleeper_returns,
  clerk_returns, Reach, start, acts, returns_early,
}
use csc.Checkin.Threads.Agreement.{
  Agreement, Calm, CalmAt, Agreement-calm, Agreement-same, CalmAt-put, put_class_self, put_class_ne,
  Class-cases,
}
use csc.Checkin.Threads.Customers.{customer_entry-Kept}

Calm-hear : (p : Phase) → Calm p (hear p)
Calm-hear arriving = (λ e. e, λ e. e)
Calm-hear entered = (λ e. e, λ e. e)
Calm-hear queued = (λ e. cc, λ e. refl)
Calm-hear signalled = (λ e. e, λ e. e)
Calm-hear (taken clerk) = (λ e. e, λ e. e)
Calm-hear (serving clerk) = (λ e. e, λ e. e)
Calm-hear left = (λ e. e, λ e. e)

Calm-if : (b : Bool) (p : Phase) → Calm p (if b then hear p else p)
Calm-if true p = Calm-hear p
Calm-if false p = (λ e. e, λ e. e)

call_nodes : (d : Desk) (k : ℕ) → (call d k).nodes ≡ d.nodes
unfolding call
call_nodes d k = refl

module _ (setup : Setup) (s : System) (agreed : (d : Class) → Agreement setup s d) where
  -- A clerk that calls a queue.
  calls-Agreement : (k : ℕ) (c d : Class) → Agreement setup (calls_class setup s k c) d
  unfolding calls_class
  calls-Agreement k c d = elim (Bool-cases (is_free (s.owner c))) [
    | inr owned ↦ rw owned (agreed d)
    | inl free ↦ rw free (
        Class-cases
          (Agreement setup (record s {
            desk = put_class s.desk c (call (s.desk c) k);
            customer = λ i.
                if is_class c (class_of (setup.class_type i))
                then hear (s.customer i)
                else s.customer i;
            clerk = put s.clerk k called;
          }))
          c d
          (let desk = put_class_self s.desk c (call (s.desk c) k) in
            let a = agreed c in
            Agreement-calm a
              (subst (λ d. Reached d a.all a.gone (a.calls + 1)) (sym desk)
                (calls_queue k a.reached))
              (ap Desk.nodes desk ∙ call_nodes (s.desk c) k) refl
              (λ i e. Calm-if (is_class c (class_of (setup.class_type i))) (s.customer i)))
          (λ d apart.
            Agreement-same (agreed d) (put_class_ne s.desk c d (call (s.desk c) k) apart) refl
              (λ i e. Calm-if (is_class c (class_of (setup.class_type i))) (s.customer i))))
  ]

  -- What touches no desk and no customer.
  aside :
      (t : System) (d : Class)
      → t.desk ≡ s.desk
      → t.num_customers ≡ s.num_customers
      → t.customer ≡ s.customer
      → Agreement setup t d
  aside t d desk num cust =
      Agreement-same (agreed d) (ap (λ f. f d) desk) (ap (λ f. f d) num)
        (subst (CalmAt setup d s.customer) (sym cust) (λ i e. (λ e. e, λ e. e)))

  if-aside :
      (b : Bool) (t u : System) (d : Class)
      → Agreement setup t d
      → Agreement setup u d
      → Agreement setup (if b then t else u) d
  if-aside true t u d h g = h
  if-aside false t u d h g = g

  clerk_in-Agreement :
      (k : ℕ) (p : ClerkPhase) (d : Class) → Agreement setup (clerk_in setup s k p) d
  clerk_in-Agreement k requesting d = if-aside _ _ _ d (aside _ d refl refl refl) (agreed d)
  clerk_in-Agreement k testing d =
      if-aside _ _ _ d (aside _ d refl refl refl) (aside _ d refl refl refl)
  clerk_in-Agreement k testing_economy d =
      if-aside _ _ _ d (aside _ d refl refl refl) (aside _ d refl refl refl)
  clerk_in-Agreement k about_to_wait d = aside _ d refl refl refl
  clerk_in-Agreement k asleep d = agreed d
  clerk_in-Agreement k woken d = if-aside _ _ _ d (aside _ d refl refl refl) (agreed d)
  clerk_in-Agreement k selecting d = aside _ d refl refl refl
  clerk_in-Agreement k selecting_economy d = aside _ d refl refl refl
  clerk_in-Agreement k (calling c) d = calls-Agreement k c d
  clerk_in-Agreement k called d = aside _ d refl refl refl
  clerk_in-Agreement k waiting d = agreed d

  clerk_entry-Agreement : (k : ℕ) (d : Class) → Agreement setup (clerk_entry setup s k) d
  unfolding clerk_entry
  clerk_entry-Agreement k d = clerk_in-Agreement k (s.clerk k) d

  Spurious-Agreement : {t : System} → Spurious s t → (d : Class) → Agreement setup t d
  Spurious-Agreement (customer_returns i e) d =
      Agreement-same (agreed d) refl refl
        (CalmAt-put setup d s.customer i signalled e (λ e. cc, λ _. refl))
  Spurious-Agreement (sleeper_returns k e) d = aside _ d refl refl refl
  Spurious-Agreement (clerk_returns k e) d = aside _ d refl refl refl

start-Agreement : (setup : Setup) (d : Class) → Agreement setup start_system d
start-Agreement setup d = record {
  all = [];
  gone = [];
  calls = 0;
  reached = starts;
  counted = refl;
  fresh = λ i k e. (refl, λ h. h);
  in_line = λ i k e. cc;
}

acted-Agreement :
    (setup : Setup) (s : System) (i k : ℕ) {t : System}
    → IsSetup setup
    → ((d : Class) → Agreement setup s d)
    → customer_entry setup s i k ≡ ok t
    → (d : Class) → Agreement setup t d
unfolding customer_entry
acted-Agreement setup s i k good agreed run d =
    elim (Option-cases (class_of (setup.class_type i))) [
      | inl no_class ↦ let e : _ = rw (no_class, customer_entry) at run in cc
      | inr (c, of_class) ↦
          let (t, run', kept) = customer_entry-Kept setup s i k good of_class agreed in
          subst (λ t. Agreement setup t d) (ok-injective (sym run' ∙ run)) (kept d)
    ]

pub Reach-Agreement :
    {setup : Setup} {s : System} → IsSetup setup → Reach setup s → (d : Class) → Agreement setup s d
Reach-Agreement {setup} good start d = start-Agreement setup d
Reach-Agreement {setup} good (acts {s} r (customer_acts i k chosen run)) d =
    acted-Agreement setup s i k good (Reach-Agreement good r) run d
Reach-Agreement {setup} good (acts {s} r (clerk_acts k lo hi)) d =
    clerk_entry-Agreement setup s (Reach-Agreement good r) k d
Reach-Agreement {setup} good (returns_early {s} r sp) d =
    Spurious-Agreement setup s (Reach-Agreement good r) sp d

-- Where customers of the two classes have ids of their own, and nodes have addresses of their own that are
-- not NULL: in every state that the threads reach, in whatever order they run and whenever waits return
-- early, the next step of each customer of the two classes meets no access that C does not allow.
pub Reach-no_fault :
    {setup : Setup} {s : System} (i k : ℕ)
    → IsSetup setup
    → IsClassed setup i
    → Reach setup s
    → (t : System) × (customer_entry setup s i k ≡ ok t)
Reach-no_fault {setup} {s} i k good (c, of_class) r =
    let (t, run, kept) = customer_entry-Kept setup s i k good of_class (Reach-Agreement good r) in
    (t, run)

-- Where customers of the two classes have ids of their own, and nodes have addresses of their own
-- that are not NULL: each of the two queues is, in every state that the threads reach, in whatever
-- order they run and whenever waits return early, the outcome of a sequence of sections as
-- `Reached` lists them; and the program's counter of a class is the number of customers that were
-- taken.
pub Reach-Reached :
    {setup : Setup} {s : System} (c : Class)
    → IsSetup setup
    → Reach setup s
    → (entered : List ℕ) × (taken : List (ℕ × ℕ)) × (calls : ℕ) × Reached
        (s.desk c)
        entered
        taken
        calls
      × (s.num_customers c ≡ length taken)
Reach-Reached c good r =
    let a = Reach-Agreement good r c in (a.all, a.gone, a.calls, a.reached, a.counted)
