-- ===== src/Checkin/Threads/Agreement.antt =====
-- Where the customers of a2/A2.c stand, against the sections that each queue has seen.
pub mod Line
use csc.Base.{
  ℕ, ◌≡◌, ◌≢◌, refl, sym, subst, ap, ◌∙◌, inl, inr, Bool, true, false, Bool-cases, List, length,
  none, some, ◌==◌, arith,
}
use csc.Checkin.Desk.{Desk, customers, IsIn, Reached}
use csc.Checkin.Threads.{
  Class, economy, business, class_of, Phase, arriving, entered, queued, signalled, System, Setup,
  put, put_class,
}

-- The customer stands in the queue.
abbrev pub in_queue : Phase → Bool
in_queue entered = true
in_queue queued = true
in_queue signalled = true
in_queue _ = false

-- The sections that the queue of a class has seen: the customers in the queue have entered and were
-- not taken, those that arrive have no node yet, and the counter counts those that were taken.
pub record Agreement (setup : Setup) (s : System) (c : Class) : Type 0 where
  pub all : List ℕ
  pub gone : List (ℕ × ℕ)
  pub calls : ℕ
  pub reached : Reached (s.desk c) all gone calls
  pub counted : s.num_customers c ≡ length gone
  pub fresh :
      (i : ℕ)
      → class_of (setup.class_type i) ≡ some c
      → s.customer i ≡ arriving
      → ((s.desk c).nodes (setup.address i) ≡ none) × (IsIn (setup.id i) all → ⊥)
  pub in_line :
      (i : ℕ)
      → class_of (setup.class_type i) ≡ some c
      → in_queue (s.customer i) ≡ true
      → IsIn (setup.id i) all × (IsIn (setup.id i) (customers gone) → ⊥)

-- A customer who stands in the queue, or arrives, stood so before.
abbrev pub Calm : Phase → Phase → Type 0
Calm p q = (q ≡ arriving → p ≡ arriving) × (in_queue q ≡ true → in_queue p ≡ true)

abbrev pub CalmAt : Setup → Class → (ℕ → Phase) → (ℕ → Phase) → Type 0
CalmAt setup c before after =
    (i : ℕ) → class_of (setup.class_type i) ≡ some c → Calm (before i) (after i)

-- The other sections leave the line as it is.
pub Agreement-calm :
    {setup : Setup} {s t : System} {c : Class} {calls : ℕ} (a : Agreement setup s c)
    → Reached (t.desk c) a.all a.gone calls
    → (t.desk c).nodes ≡ (s.desk c).nodes
    → t.num_customers c ≡ s.num_customers c
    → CalmAt setup c s.customer t.customer
    → Agreement setup t c
Agreement-calm {setup} a r nodes num calm = record {
  all = a.all;
  gone = a.gone;
  calls = _;
  reached = r;
  counted = num ∙ a.counted;
  fresh = λ i k e.
      let (unused, out) = a.fresh i k ((calm i k).0 e) in
      (ap (λ f. f (setup.address i)) nodes ∙ unused, out);
  in_line = λ i k e. a.in_line i k ((calm i k).1 e);
}

-- Nothing has changed at the desk of the class.
pub Agreement-same :
    {setup : Setup} {s t : System} {c : Class}
    → Agreement setup s c
    → t.desk c ≡ s.desk c
    → t.num_customers c ≡ s.num_customers c
    → CalmAt setup c s.customer t.customer
    → Agreement setup t c
Agreement-same a desk num calm =
    Agreement-calm a (subst (λ d. Reached d a.all a.gone a.calls) (sym desk) a.reached)
      (ap Desk.nodes desk) num calm

pub put-cases {ℓ κ} :
    {A : Type ℓ} (P : A → Type κ) (f : ℕ → A) (i j : ℕ) (a : A)
    → (j ≡ i → P a)
    → (j ≢ i → P (f j))
    → P (put f i a j)
put-cases P f i j a here elsewhere = elim (Bool-cases (j == i)) [
  | inl same ↦ rw same (here (ground arith))
  | inr other ↦ rw other (elsewhere (ground arith))
]

Calm-refl : (p : Phase) → Calm p p
Calm-refl p = (λ e. e, λ e. e)

-- One customer goes on.
pub CalmAt-put :
    (setup : Setup) (c : Class) (customer : ℕ → Phase) (i : ℕ) {p : Phase} (q : Phase)
    → customer i ≡ p
    → Calm p q
    → CalmAt setup c customer (put customer i q)
CalmAt-put setup c customer i q e calm j k =
    put-cases (λ r. Calm (customer j) r) customer i j q (λ same. rw (ap customer same ∙ e) calm)
      (λ other. Calm-refl (customer j))

-- A customer of another class goes on.
pub CalmAt-other :
    (setup : Setup) {c d : Class} (customer : ℕ → Phase) (i : ℕ) (q : Phase)
    → class_of (setup.class_type i) ≡ some c
    → d ≢ c
    → CalmAt setup d customer (put customer i q)
CalmAt-other setup {c} {d} customer i q k apart j l =
    put-cases (λ r. Calm (customer j) r) customer i j q
      (λ same. absurd (apart (classes (sym l ∙ ap (λ j. class_of (setup.class_type j)) same ∙ k))))
      (λ other. Calm-refl (customer j))
  where
    classes : some d ≡ some c → d ≡ c
    classes e = cc

pub put_class_self {ℓ} : {A : Type ℓ} (f : Class → A) (c : Class) (a : A) → put_class f c a c ≡ a
put_class_self f economy a = refl
put_class_self f business a = refl

pub put_class_ne {ℓ} :
    {A : Type ℓ} (f : Class → A) (c d : Class) (a : A) → d ≢ c → put_class f c a d ≡ f d
put_class_ne f economy economy a h = absurd (h refl)
put_class_ne f economy business a h = refl
put_class_ne f business economy a h = refl
put_class_ne f business business a h = absurd (h refl)

-- What holds at one class and at those that differ from it holds at all.
pub Class-cases {ℓ} : (P : Class → Type ℓ) (c d : Class) → P c → ((d : Class) → d ≢ c → P d) → P d
Class-cases P economy economy p other = p
Class-cases P economy business p other = other business (λ e. cc)
Class-cases P business economy p other = other economy (λ e. cc)
Class-cases P business business p other = p
