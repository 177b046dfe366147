-- ===== src/Checkin/Threads/Forgotten.antt =====
-- When a clerk of a2/A2.c waits for ever at its condition variable.
pub mod Steps
use csc.Base.{
  ℕ, ◌≤◌, ◌<◌, ◌≡◌, ◌≢◌, refl, sym, subst, ap, ◌∙◌, inl, inr, Bool, true, false, Bool-cases,
  Option-cases, Option, none, some, ◌&&◌, ◌==◌, if◌then◌else◌, arith, ok, ok-injective,
  returns_both,
}
use csc.Checkin.Queue.{Pointer, create_node, queue_enqueue, queue_dequeue, check_head}
use csc.Checkin.Desk.{Desk, enter, wake, call, clear}
use csc.Checkin.Threads.{
  Class, economy, business, class_of, Phase, arriving, entered, queued, signalled, taken, serving,
  left, ClerkPhase, requesting, testing, testing_economy, about_to_wait, asleep, woken, selecting,
  selecting_economy, calling, called, waiting, System, Setup, put, put_class, is_free, clerk_of,
  enters_queue, after_round, round, starts_service, finishes, customer_in, customer_entry, hear,
  is_class, calls_class, clerk_in, clerk_entry, set_customer,
}
use csc.Checkin.Threads.Runs.{Step, customer_acts, clerk_acts}
use csc.Checkin.Threads.Agreement.{put-cases, put_class_self, put_class_ne, Class-cases}

-- Steps of the threads from a state on. No wait of a clerk returns early; those of customers may.
pub data Goes (setup : Setup) (s : System) : System → Type 0 where
  here : Goes setup s s
  goes : {t u : System} → Goes setup s t → Step setup t u → Goes setup s u
  returns_early :
      {t : System} (i : ℕ)
      → Goes setup s t
      → t.customer i ≡ queued
      → Goes setup s (set_customer t i signalled)

-- The customer will signal this clerk.
abbrev pub serves : ℕ → Phase → Bool
serves k (taken curr_clerk) = clerk_of curr_clerk == k
serves k (serving curr_clerk) = clerk_of curr_clerk == k
serves k _ = false

-- The clerk waits, no customer will signal it, and no queue's status sends one to it.
pub record IsForgotten (k : ℕ) (s : System) : Type 0 where
  pub waits : s.clerk k ≡ waiting
  pub unserved : (i : ℕ) → serves k (s.customer i) ≡ false
  pub unnamed : (c : Class) → clerk_of (s.desk c).queue_status ≢ k

pub enter-status :
    (d : Desk) (fresh : Pointer) (id : ℕ) {d' : Desk}
    → enter d fresh id ≡ ok d'
    → d'.queue_status ≡ d.queue_status
unfolding enter
enter-status d fresh id run =
    let (r, put, next) =
      returns_both (queue_enqueue (create_node d.nodes fresh id) d.queue fresh) _ run in
    ap Desk.queue_status (sym (ok-injective next))

-- What a round does with the status.
abbrev pub FromStatus : Desk → Option ℕ × Desk → Type 0
FromStatus d (none, d') = d'.queue_status ≡ d.queue_status
FromStatus d (some clerk, d') = (d'.queue_status ≡ d.queue_status) × (clerk ≡ d.queue_status)

pub wake-FromStatus : (d : Desk) (id : ℕ) {r : Option ℕ × Desk} → wake d id ≡ ok r → FromStatus d r
unfolding wake
wake-FromStatus d id run =
    let (at_head, found, next) = returns_both (check_head d.nodes d.queue id) _ run in
    elim (Bool-cases (at_head && (d.winner_selected == 0))) [
      | inl turn ↦
          let (queue', removed, next') =
            returns_both (queue_dequeue d.nodes d.queue) _ (rw turn at next) in
          subst (FromStatus d) (ok-injective next') (refl, refl)
      | inr other ↦ subst (FromStatus d) (ok-injective (rw other at next)) refl
    ]

-- A change of one desk and one customer.
module _ (k : ℕ) (s : System) (v : IsForgotten k s) where
  pub kept_by :
      (t : System)
      → t.clerk k ≡ waiting
      → ((i : ℕ) → serves k (t.customer i) ≡ false)
      → t.desk ≡ s.desk
      → IsForgotten k t
  kept_by t w none_serves desk = record {
    waits = w;
    unserved = none_serves;
    unnamed = λ c. subst (λ f. clerk_of (f c).queue_status ≢ k) (sym desk) (v.unnamed c);
  }

  pub put_unserved :
      (i : ℕ) (p : Phase) → serves k p ≡ false → (j : ℕ) → serves k (put s.customer i p j) ≡ false
  put_unserved i p e j =
      put-cases (λ p. serves k p ≡ false) s.customer i j p (λ _. e) (λ _. v.unserved j)

  pub desk_unnamed :
      (c : Class) (d : Desk)
      → clerk_of d.queue_status ≢ k
      → (b : Class) → clerk_of (put_class s.desk c d b).queue_status ≢ k
  desk_unnamed c d ne b =
      Class-cases (λ b. clerk_of (put_class s.desk c d b).queue_status ≢ k) c b
        (subst (λ (d : Desk). clerk_of d.queue_status ≢ k) (sym (put_class_self s.desk c d)) ne)
        (λ b apart.
          subst (λ (d : Desk). clerk_of d.queue_status ≢ k) (sym (put_class_ne s.desk c b d apart))
            (v.unnamed b))

  pub put_waits : (j : ℕ) (p : ClerkPhase) → (k ≡ j → p ≡ waiting) → put s.clerk j p k ≡ waiting
  put_waits j p h = put-cases (λ p. p ≡ waiting) s.clerk j k p h (λ _. v.waits)

pub if-Forgotten :
    {k : ℕ} (b : Bool) (t u : System)
    → IsForgotten k t
    → IsForgotten k u
    → IsForgotten k (if b then t else u)
if-Forgotten true t u h g = h
if-Forgotten false t u h g = g

pub serves-hear :
    (k : ℕ) (b : Bool) (p : Phase) → serves k p ≡ false → serves k (if b then hear p else p) ≡ false
serves-hear k false p h = h
serves-hear k true arriving h = refl
serves-hear k true entered h = refl
serves-hear k true queued h = refl
serves-hear k true signalled h = refl
serves-hear k true (taken clerk) h = h
serves-hear k true (serving clerk) h = h
serves-hear k true left h = refl
