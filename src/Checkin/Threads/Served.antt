-- ===== src/Checkin/Threads/Served.antt =====
-- One customer of a2/A2.c from the call of its queue until it leaves.
use csc.Base.{
  ℕ, ◌+◌, ◌≤◌, ◌≡◌, refl, ap, ◌∙◌, true, List, ◌∷◌, ◌++◌, none, some, ◌==◌, arith, ok, ◌>>=◌,
}
use csc.Checkin.Desk.{Desk, wake, call, customers, Reached, calls_queue}
use csc.Checkin.Desk.Order.{wake-turn}
use csc.Checkin.Threads.{
  Class, economy, business, class_of, Phase, queued, signalled, taken, serving, left, ClerkPhase,
  requesting, calling, called, waiting, System, Setup, put, set_clerk, clerk_of, wake_waiting,
  after_round, round, starts_service, finishes, customer_in, customer_entry, is_class, calls_class,
  clerk_in, clerk_entry,
}
use csc.Checkin.Threads.Agreement.{put_class_self}

put_self {ℓ} : {A : Type ℓ} (f : ℕ → A) (i : ℕ) (a : A) → put f i a i ≡ a
put_self f i a = let same : (i == i) ≡ true = ground arith in rw same refl

clerk_of_self : (k : ℕ) → 1 ≤ k → k ≤ 5 → clerk_of k ≡ k
clerk_of_self k lo hi = ground (arith, lo, hi)

is_class_self : (c : Class) → is_class c (some c) ≡ true
is_class_self economy = refl
is_class_self business = refl

called_turn :
    (d : Desk) (id k : ℕ) (rest : List ℕ) {all : List ℕ} {gone : List (ℕ × ℕ)} {calls : ℕ}
    → Reached (call d k) all gone calls
    → all ≡ customers gone ++ (id ∷ rest)
    → (d' : Desk) × (wake (call d k) id ≡ ok (some k, d'))
unfolding call
called_turn d id k rest r order =
    let (d', run) = wake-turn id id rest r order in
    let same : (id == id) ≡ true = ground arith in (d', rw same at run)

module _ (setup : Setup) (i m k : ℕ) (c : Class)
    (of_class : class_of (setup.class_type i) ≡ some c) where
  customer_step :
      (s : System) {p : Phase}
      → s.customer i ≡ p
      → customer_entry setup s i m ≡ customer_in setup s i m c p
  unfolding customer_entry
  customer_step s e = rw (of_class, customer_entry) (ap (customer_in setup s i m c) e)

  clerk_step :
      (s : System) {p : ClerkPhase} → s.clerk k ≡ p → clerk_entry setup s k ≡ clerk_in setup s k p
  unfolding clerk_entry
  clerk_step s e = ap (clerk_in setup s k) e

  -- What a call changes for the clerk and the customer.
  call_step :
      (s : System)
      → s.owner c ≡ none
      → s.customer i ≡ queued
      → ((calls_class setup s k c).desk c ≡ call (s.desk c) k)
        × ((calls_class setup s k c).owner c ≡ none)
        × ((calls_class setup s k c).num_customers c ≡ s.num_customers c)
        × ((calls_class setup s k c).customer i ≡ signalled)
        × ((calls_class setup s k c).clerk k ≡ called)
  unfolding calls_class
  call_step s free at_wait =
      rw (free, of_class, is_class_self c, at_wait)
        ((put_class_self s.desk c (call (s.desk c) k), free, refl, refl, put_self s.clerk k called))

  round_step :
      (s : System) {clerk : ℕ} {d : Desk}
      → s.owner c ≡ none
      → wake (s.desk c) (setup.id i) ≡ ok (some clerk, d)
      → round setup s i c ≡ ok (after_round s i c (some clerk, d))
  unfolding round
  round_step s free woken = rw (free, woken) refl

  starts_num :
      (s : System) (clerk : ℕ) (b : Class)
      → (starts_service s i b clerk).num_customers ≡ s.num_customers
  starts_num s clerk economy = refl
  starts_num s clerk business = refl

  starts_customer :
      (s : System) (clerk : ℕ) (b : Class) → (starts_service s i b clerk).customer i ≡ serving clerk
  starts_customer s clerk economy = put_self s.customer i (serving clerk)
  starts_customer s clerk business = put_self s.customer i (serving clerk)

  starts_clerk : (s : System) (clerk : ℕ) (b : Class) → (starts_service s i b clerk).clerk ≡ s.clerk
  starts_clerk s clerk economy = refl
  starts_clerk s clerk business = refl

  -- From the wake-up on, with the clerk in its wait.
  rest_of_visit :
      (s : System) (d : Desk)
      → 1 ≤ k
      → k ≤ 5
      → s.owner c ≡ none
      → s.customer i ≡ signalled
      → s.clerk k ≡ waiting
      → wake (s.desk c) (setup.id i) ≡ ok (some k, d)
      → (t : System) × ((do
        taken_s ← customer_entry setup s i m
        serving_s ← customer_entry setup taken_s i m
        customer_entry setup serving_s i m)
          ≡ ok t)
        × (t.customer i ≡ left)
        × (t.clerk k ≡ requesting)
        × (t.num_customers c ≡ s.num_customers c + 1)
  rest_of_visit s d lo hi free woken_i waits turn =
      let a : System = after_round s i c (some k, d) in
      let b : System = starts_service a i c k in
      let step₁ : customer_entry setup s i m ≡ ok a =
        customer_step s woken_i ∙ round_step s free turn in
      let step₂ : customer_entry setup a i m ≡ ok b =
        customer_step a (put_self s.customer i (taken k)) in
      let step₃ : customer_entry setup b i m ≡ ok (finishes b i k) =
        customer_step b (starts_customer a k c) in
      let named = clerk_of_self k lo hi in
      let waits_b : b.clerk k ≡ waiting = ap (λ f. f k) (starts_clerk a k c) ∙ waits in
      (
        finishes b i k,
        rw (step₁, step₂, step₃) refl,
        put_self b.customer i left,
        rw named (put_self b.clerk k (wake_waiting (b.clerk k)) ∙ ap wake_waiting waits_b),
        ap (λ f. f c) (starts_num a k c) ∙ put_class_self s.num_customers c (s.num_customers c + 1),
      )

-- Where a clerk is about to call a queue whose mutex is free, and the customer that is next in
-- line waits in it: if the clerk then calls and comes to its own wait before the customer goes on,
-- and the customer takes its next three steps, these have no fault and the customer has left; the
-- clerk is back at the start of its loop, and one more customer of the class is counted.
pub call-serves :
    {c : Class} {all : List ℕ} {gone : List (ℕ × ℕ)} {calls : ℕ} (setup : Setup) (s : System)
    (i m k : ℕ) (rest : List ℕ)
    → 1 ≤ k
    → k ≤ 5
    → class_of (setup.class_type i) ≡ some c
    → Reached (s.desk c) all gone calls
    → all ≡ customers gone ++ (setup.id i ∷ rest)
    → s.owner c ≡ none
    → s.customer i ≡ queued
    → s.clerk k ≡ calling c
    → (t : System) × ((do
      taken_s ← customer_entry setup (clerk_entry setup (clerk_entry setup s k) k) i m
      serving_s ← customer_entry setup taken_s i m
      customer_entry setup serving_s i m)
        ≡ ok t)
      × (t.customer i ≡ left)
      × (t.clerk k ≡ requesting)
      × (t.num_customers c ≡ s.num_customers c + 1)
call-serves {c} setup s i m k rest lo hi of_class r order free at_wait at_call =
    let u : System = calls_class setup s k c in
    let (desk, owner, num, cust, clerk) = call_step setup i m k c of_class s free at_wait in
    let called_u = clerk_step setup i m k c of_class s at_call in
    let waits_u = clerk_step setup i m k c of_class u clerk in
    let (d, turn) = called_turn (s.desk c) (setup.id i) k rest (calls_queue k r) order in
    let (t, run, gone_t, back, num_t) =
      rest_of_visit setup i m k c of_class (set_clerk u k waiting) d lo hi owner cust
        (put_self u.clerk k waiting) (rw desk turn) in
    (t, rw (called_u, waits_u) run, gone_t, back, num_t ∙ ap (λ n. n + 1) num)
