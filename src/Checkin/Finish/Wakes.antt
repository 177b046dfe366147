-- ===== src/Checkin/Finish/Wakes.antt =====
-- The clerks of a2/A2.c, and waits that return early, take no customer from a queue.
use csc.Base.{
  ℕ, ◌≡◌, refl, sym, ap, ◌∙◌, inl, inr, Bool, true, false, Bool-cases, List, some, if◌then◌else◌,
}
use csc.Checkin.Threads.{
  Class, economy, business, class_of, Phase, arriving, entered, queued, signalled, taken, serving,
  left, System, Setup, put, hear, is_class, is_free, is_empty, locks_request, leaves_request,
  clerk_entry, clerk_in, calls_class, set_clerk,
}
use csc.Checkin.Threads.{
  ClerkPhase, requesting, testing, testing_economy, about_to_wait, asleep, woken, selecting,
  selecting_economy, calling, called, waiting,
}
use csc.Checkin.Threads.Runs.{Spurious, customer_returns, sleeper_returns, clerk_returns}
use csc.Checkin.Threads.Agreement.{put-cases}
use csc.Checkin.Threads.Moves.{is_past}
use csc.Checkin.Finish.{Doubles, Program, with_system}
use csc.Checkin.Finish.Visits.{Visits, Visits-same}

-- The clerks, and the waits that return early, only wake customers.
pub data Wakes (p q : Phase) : Type 0 where
  as_is : q ≡ p → Wakes p q
  is_woken : p ≡ queued → q ≡ signalled → Wakes p q

pub record OnlyWakes (s t : System) : Type 0 where
  pub num_customers : t.num_customers ≡ s.num_customers
  pub customer : (i : ℕ) → Wakes (s.customer i) (t.customer i)

Wakes-is_past : {p q : Phase} → Wakes p q → is_past q ≡ is_past p
Wakes-is_past (as_is same) = ap is_past same
Wakes-is_past (is_woken was is) = ap is_past is ∙ sym (ap is_past was)

pub with_system-Visits :
    (doubles : Doubles) {setup : Setup} (p : Program doubles) (s : System)
    → OnlyWakes p.system s
    → (c : Class) {visits : List (ℕ × doubles.Double)} → Visits doubles setup p c visits
    → Visits doubles setup (with_system doubles p s) c visits
with_system-Visits doubles p s wakes c v =
    Visits-same doubles v refl (λ _ _. refl) (ap (λ f. f c) wakes.num_customers)
      (λ i _. Wakes-is_past (wakes.customer i))

hear-Wakes : (p : Phase) → Wakes p (hear p)
hear-Wakes arriving = as_is refl
hear-Wakes entered = as_is refl
hear-Wakes queued = is_woken refl refl
hear-Wakes signalled = as_is refl
hear-Wakes (taken clerk) = as_is refl
hear-Wakes (serving clerk) = as_is refl
hear-Wakes left = as_is refl

if-Wakes : (b : Bool) (p : Phase) → Wakes p (if b then hear p else p)
if-Wakes true p = hear-Wakes p
if-Wakes false p = as_is refl

module _ (s : System) where
  if-OnlyWakes :
      (b : Bool) (t u : System) → OnlyWakes s t → OnlyWakes s u → OnlyWakes s (if b then t else u)
  if-OnlyWakes true t u h g = h
  if-OnlyWakes false t u h g = g

  aside : (t : System) → t.num_customers ≡ s.num_customers → t.customer ≡ s.customer → OnlyWakes s t
  aside t num cust = record { num_customers = num; customer = λ i. as_is (ap (λ f. f i) cust) }

  if-aside :
      (b : Bool) (t u : System)
      → t.num_customers ≡ s.num_customers
      → t.customer ≡ s.customer
      → u.num_customers ≡ s.num_customers
      → u.customer ≡ s.customer
      → OnlyWakes s (if b then t else u)
  if-aside b t u num cust num' cust' = if-OnlyWakes b t u (aside t num cust) (aside u num' cust')

  locks-OnlyWakes : (k : ℕ) → OnlyWakes s (locks_request s k)
  locks-OnlyWakes k =
      if-aside (is_free s.request_owner)
        (record s { clerk = put s.clerk k testing; request_owner = some k }) s refl refl refl refl

  clerk_in-OnlyWakes : (setup : Setup) (k : ℕ) (p : ClerkPhase) → OnlyWakes s (clerk_in setup s k p)
  unfolding calls_class
  clerk_in-OnlyWakes setup k requesting = locks-OnlyWakes k
  clerk_in-OnlyWakes setup k testing =
      if-aside (is_empty s business) (set_clerk s k testing_economy) (leaves_request s k selecting)
        refl refl refl refl
  clerk_in-OnlyWakes setup k testing_economy =
      if-aside (is_empty s economy) (set_clerk s k about_to_wait) (leaves_request s k selecting)
        refl refl refl refl
  clerk_in-OnlyWakes setup k about_to_wait = aside _ refl refl
  clerk_in-OnlyWakes setup k asleep = aside _ refl refl
  clerk_in-OnlyWakes setup k woken = locks-OnlyWakes k
  clerk_in-OnlyWakes setup k selecting = aside _ refl refl
  clerk_in-OnlyWakes setup k selecting_economy = aside _ refl refl
  clerk_in-OnlyWakes setup k (calling c) = elim (Bool-cases (is_free (s.owner c))) [
    | inr owned ↦ rw owned (aside s refl refl)
    | inl free ↦ rw free (record {
      num_customers = refl;
      customer = λ i. if-Wakes (is_class c (class_of (setup.class_type i))) (s.customer i);
    })
  ]
  clerk_in-OnlyWakes setup k called = aside _ refl refl
  clerk_in-OnlyWakes setup k waiting = aside _ refl refl

pub clerk_entry-OnlyWakes :
    (setup : Setup) (s : System) (k : ℕ) → OnlyWakes s (clerk_entry setup s k)
unfolding clerk_entry
clerk_entry-OnlyWakes setup s k = clerk_in-OnlyWakes s setup k (s.clerk k)

pub Spurious-OnlyWakes : {s t : System} → Spurious s t → OnlyWakes s t
Spurious-OnlyWakes {s} (customer_returns i e) = record {
  num_customers = refl;
  customer = λ j.
      put-cases (Wakes (s.customer j)) s.customer i j signalled
        (λ same. is_woken (ap s.customer same ∙ e) refl) (λ _. as_is refl);
}
Spurious-OnlyWakes {s} (sleeper_returns k e) = aside s _ refl refl
Spurious-OnlyWakes {s} (clerk_returns k e) = aside s _ refl refl
