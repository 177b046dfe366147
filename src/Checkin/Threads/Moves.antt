-- ===== src/Checkin/Threads/Moves.antt =====
-- Where one step of a customer of a2/A2.c leads.
use csc.Base.{
  ℕ, ◌+◌, ◌≡◌, ◌≢◌, refl, sym, subst, ◌∙◌, inl, inr, Bool, true, false, Bool-cases, Option-cases,
  Option, none, some, ok, ok-injective, returns_both,
}
use csc.Checkin.Desk.{Desk, enter, wake}
use csc.Checkin.Threads.{
  Class, economy, business, class_of, Phase, arriving, entered, queued, signalled, taken, serving,
  left, System, Setup, put, put_class, is_free, enters_queue, after_round, round, starts_service,
  customer_in, customer_entry,
}

-- The customer has left the queue.
abbrev pub is_past : Phase → Bool
is_past (taken clerk) = true
is_past (serving clerk) = true
is_past left = true
is_past _ = false

-- The customer stays, goes on, or is taken.
pub data Moves (setup : Setup) (s : System) (i : ℕ) : System → Type 0 where
  stays : Moves setup s i s
  goes_on :
      {t : System} (q : Phase)
      → t.customer ≡ put s.customer i q
      → t.num_customers ≡ s.num_customers
      → is_past q ≡ is_past (s.customer i)
      → q ≢ arriving
      → s.customer i ≢ left
      → Moves setup s i t
  is_taken :
      {t : System} (c : Class) (clerk : ℕ)
      → class_of (setup.class_type i) ≡ some c
      → s.customer i ≡ signalled
      → t.customer ≡ put s.customer i (taken clerk)
      → t.num_customers ≡ put_class s.num_customers c (s.num_customers c + 1)
      → Moves setup s i t

apart : {p q r : Phase} → p ≡ q → q ≢ r → p ≢ r
apart e ne e' = ne (sym e ∙ e')

module _ (setup : Setup) (s : System) (i k : ℕ) (c : Class)
    (of_class : class_of (setup.class_type i) ≡ some c) where
  enters-Moves :
      {t : System} → s.customer i ≡ arriving → enters_queue setup s i c ≡ ok t → Moves setup s i t
  unfolding enters_queue
  enters-Moves e run = elim (Bool-cases (is_free (s.owner c))) [
    | inr owned ↦ subst (Moves setup s i) (ok-injective (rw owned at run)) stays
    | inl free ↦
        let (d, in_line, next) =
          returns_both (enter (s.desk c) (setup.address i) (setup.id i)) _ (rw free at run) in
        subst (Moves setup s i) (ok-injective next)
          (goes_on entered refl refl (rw e refl) (λ e. cc) (apart e λ e. cc))
  ]

  after-Moves :
      (r : Option ℕ × Desk) → s.customer i ≡ signalled → Moves setup s i (after_round s i c r)
  after-Moves (none, d) e = goes_on queued refl refl (rw e refl) (λ e. cc) (apart e λ e. cc)
  after-Moves (some clerk, d) e = is_taken c clerk of_class e refl refl

  round-Moves :
      {t : System} → s.customer i ≡ signalled → round setup s i c ≡ ok t → Moves setup s i t
  unfolding round
  round-Moves e run = elim (Bool-cases (is_free (s.owner c))) [
    | inr owned ↦ subst (Moves setup s i) (ok-injective (rw owned at run)) stays
    | inl free ↦
        let (r, woken, next) = returns_both (wake (s.desk c) (setup.id i)) _ (rw free at run) in
        subst (Moves setup s i) (ok-injective next) (after-Moves r e)
  ]

  starts-Moves :
      (clerk : ℕ) (b : Class)
      → s.customer i ≡ taken clerk
      → Moves setup s i (starts_service s i b clerk)
  starts-Moves clerk economy e =
      goes_on (serving clerk) refl refl (rw e refl) (λ e. cc) (apart e λ e. cc)
  starts-Moves clerk business e =
      goes_on (serving clerk) refl refl (rw e refl) (λ e. cc) (apart e λ e. cc)

  customer_in-Moves :
      (p : Phase) {t : System}
      → s.customer i ≡ p
      → customer_in setup s i k c p ≡ ok t
      → Moves setup s i t
  customer_in-Moves arriving e run = enters-Moves e run
  customer_in-Moves entered e run =
      subst (Moves setup s i) (ok-injective run)
        (goes_on queued refl refl (rw e refl) (λ e. cc) (apart e λ e. cc))
  customer_in-Moves queued e run = subst (Moves setup s i) (ok-injective run) stays
  customer_in-Moves signalled e run = round-Moves e run
  customer_in-Moves (taken clerk) e run =
      subst (Moves setup s i) (ok-injective run) (starts-Moves clerk c e)
  customer_in-Moves (serving clerk) e run =
      subst (Moves setup s i) (ok-injective run)
        (goes_on left refl refl (rw e refl) (λ e. cc) (apart e λ e. cc))
  customer_in-Moves left e run = subst (Moves setup s i) (ok-injective run) stays

pub customer_entry-Moves :
    (setup : Setup) (s : System) (i k : ℕ) {t : System}
    → customer_entry setup s i k ≡ ok t
    → Moves setup s i t
unfolding customer_entry
customer_entry-Moves setup s i k run = elim (Option-cases (class_of (setup.class_type i))) [
  | inl no_class ↦ let e : _ = rw (no_class, customer_entry) at run in cc
  | inr (c, of_class) ↦
      customer_in-Moves setup s i k c of_class (s.customer i) refl
        (rw (of_class, customer_entry) at run)
]
