-- ===== src/Checkin/Threads/Forgotten/Steps.antt =====
-- Each step of the threads of a2/A2.c leaves a forgotten clerk forgotten.
use csc.Base.{
  ℕ, ◌≤◌, ◌<◌, ◌≡◌, ◌≢◌, refl, sym, subst, ap, ◌∙◌, inl, inr, false, Bool-cases, Option-cases,
  Option, none, some, ◌==◌, if◌then◌else◌, arith, ok, ok-injective, returns_both,
}
use csc.Checkin.Desk.{Desk, enter, wake, call, clear}
use csc.Checkin.Threads.{
  Class, economy, business, class_of, Phase, arriving, entered, queued, signalled, taken, serving,
  left, ClerkPhase, requesting, testing, testing_economy, about_to_wait, asleep, woken, selecting,
  selecting_economy, calling, called, waiting, System, Setup, put, put_class, is_free, clerk_of,
  enters_queue, after_round, round, starts_service, finishes, customer_in, customer_entry, hear,
  is_class, calls_class, clerk_in, clerk_entry, set_customer,
}
use csc.Checkin.Threads.Runs.{customer_acts, clerk_acts}
use csc.Checkin.Threads.Forgotten.{
  Goes, here, goes, returns_early, serves, IsForgotten, FromStatus, enter-status, wake-FromStatus,
  if-Forgotten, serves-hear, kept_by, put_unserved, desk_unnamed, put_waits,
}

module _ (setup : Setup) (k : ℕ) (small : k < 5) (s : System) (v : IsForgotten k s) where
  -- A customer's steps.
  module _ (i m : ℕ) where
    enters-Forgotten : (c : Class) {t : System} → enters_queue setup s i c ≡ ok t → IsForgotten k t
    unfolding enters_queue
    enters-Forgotten c run = elim (Bool-cases (is_free (s.owner c))) [
      | inr owned ↦ subst (IsForgotten k) (ok-injective (rw owned at run)) v
      | inl free ↦
          let (d, entered_d, next) =
            returns_both (enter (s.desk c) (setup.address i) (setup.id i)) _ (rw free at run) in
          subst (IsForgotten k) (ok-injective next) (record {
            waits = v.waits;
            unserved = put_unserved k s v i entered refl;
            unnamed = desk_unnamed k s v c d (
                rw (enter-status (s.desk c) (setup.address i) (setup.id i) entered_d)
                  (v.unnamed c));
          })
    ]

    after-Forgotten :
        (c : Class) (r : Option ℕ × Desk)
        → FromStatus (s.desk c) r
        → IsForgotten k (after_round s i c r)
    after-Forgotten c (none, d) e = record {
      waits = v.waits;
      unserved = put_unserved k s v i queued refl;
      unnamed = desk_unnamed k s v c d (rw e (v.unnamed c));
    }
    after-Forgotten c (some clerk, d) (e, e') = record {
      waits = v.waits;
      unserved = put_unserved k s v i (taken clerk) (rw e' (ground (arith, v.unnamed c)));
      unnamed = desk_unnamed k s v c d (rw e (v.unnamed c));
    }

    round-Forgotten : (c : Class) {t : System} → round setup s i c ≡ ok t → IsForgotten k t
    unfolding round
    round-Forgotten c run = elim (Bool-cases (is_free (s.owner c))) [
      | inr owned ↦ subst (IsForgotten k) (ok-injective (rw owned at run)) v
      | inl free ↦
          let (r, woken_r, next) = returns_both (wake (s.desk c) (setup.id i)) _ (rw free at run) in
          subst (IsForgotten k) (ok-injective next)
            (after-Forgotten c r (wake-FromStatus (s.desk c) (setup.id i) woken_r))
    ]

    starts-Forgotten :
        (c : Class) (clerk : ℕ)
        → serves k (serving clerk) ≡ false
        → IsForgotten k (starts_service s i c clerk)
    unfolding clear
    starts-Forgotten economy clerk h =
        kept_by k s v _ (v.waits) (put_unserved k s v i (serving clerk) h) refl
    starts-Forgotten business clerk h = record {
      waits = v.waits;
      unserved = put_unserved k s v i (serving clerk) h;
      unnamed = desk_unnamed k s v business (clear (s.desk business)) (ground (arith, small));
    }

    customer_in-Forgotten :
        (c : Class) (p : Phase) {t : System}
        → serves k p ≡ false
        → customer_in setup s i m c p ≡ ok t
        → IsForgotten k t
    customer_in-Forgotten c arriving h run = enters-Forgotten c run
    customer_in-Forgotten c entered h run = subst (IsForgotten k) (ok-injective run) (
        kept_by k s v _
          (put_waits k s v m _
            (λ e. let w : s.clerk m ≡ waiting = ap s.clerk (sym e) ∙ v.waits in rw w))
          (put_unserved k s v i queued refl) refl)
    customer_in-Forgotten c queued h run = subst (IsForgotten k) (ok-injective run) v
    customer_in-Forgotten c signalled h run = round-Forgotten c run
    customer_in-Forgotten c (taken clerk) h run =
        subst (IsForgotten k) (ok-injective run) (starts-Forgotten c clerk h)
    customer_in-Forgotten c (serving clerk) h run = subst (IsForgotten k) (ok-injective run) (
        kept_by k s v (finishes s i clerk)
          (put_waits k s v (clerk_of clerk) _ (λ e. ground (arith, e, h)))
          (put_unserved k s v i left refl) refl)
    customer_in-Forgotten c left h run = subst (IsForgotten k) (ok-injective run) v

    customer_entry-Forgotten : {t : System} → customer_entry setup s i m ≡ ok t → IsForgotten k t
    unfolding customer_entry
    customer_entry-Forgotten run = elim (Option-cases (class_of (setup.class_type i))) [
      | inl no_class ↦ let e : _ = rw (no_class, customer_entry) at run in cc
      | inr (c, of_class) ↦
          customer_in-Forgotten c (s.customer i) (v.unserved i)
            (rw (of_class, customer_entry) at run)
    ]

  -- A clerk's steps.
  module _ (j : ℕ) (lo : 1 ≤ j) (hi : j ≤ 5) where
    -- Another clerk goes on.
    moves :
        (p : ClerkPhase) (t : System)
        → j ≢ k
        → t.clerk ≡ put s.clerk j p
        → t.customer ≡ s.customer
        → t.desk ≡ s.desk
        → IsForgotten k t
    moves p t apart clerk cust desk =
        kept_by k s v t (ap (λ f. f k) clerk ∙ put_waits k s v j p (λ e. absurd (apart (sym e))))
          (λ i. ap (λ f. serves k (f i)) cust ∙ v.unserved i) desk

    calls-Forgotten : (c : Class) → j ≢ k → IsForgotten k (calls_class setup s j c)
    unfolding calls_class call
    calls-Forgotten c apart =
        if-Forgotten (is_free (s.owner c))
          (record s {
            desk = put_class s.desk c (call (s.desk c) j);
            customer = λ i.
                if is_class c (class_of (setup.class_type i))
                then hear (s.customer i)
                else s.customer i;
            clerk = put s.clerk j called;
          })
          s
          (record {
            waits = put_waits k s v j called (λ e. absurd (apart (sym e)));
            unserved = λ i.
                serves-hear k (is_class c (class_of (setup.class_type i))) (s.customer i)
                  (v.unserved i);
            unnamed = desk_unnamed k s v c (call (s.desk c) j) (ground (arith, apart, lo, hi));
          })
          v

    clerk_in-Forgotten : (p : ClerkPhase) → j ≢ k → IsForgotten k (clerk_in setup s j p)
    clerk_in-Forgotten requesting apart =
        if-Forgotten _ _ _ (moves testing _ apart refl refl refl) v
    clerk_in-Forgotten testing apart =
        if-Forgotten _ _ _ (moves testing_economy _ apart refl refl refl)
          (moves selecting _ apart refl refl refl)
    clerk_in-Forgotten testing_economy apart =
        if-Forgotten _ _ _ (moves about_to_wait _ apart refl refl refl)
          (moves selecting _ apart refl refl refl)
    clerk_in-Forgotten about_to_wait apart = moves asleep _ apart refl refl refl
    clerk_in-Forgotten asleep apart = v
    clerk_in-Forgotten woken apart = if-Forgotten _ _ _ (moves testing _ apart refl refl refl) v
    clerk_in-Forgotten selecting apart = moves _ _ apart refl refl refl
    clerk_in-Forgotten selecting_economy apart = moves _ _ apart refl refl refl
    clerk_in-Forgotten (calling c) apart = calls-Forgotten c apart
    clerk_in-Forgotten called apart = moves waiting _ apart refl refl refl
    clerk_in-Forgotten waiting apart = v

    clerk_entry-Forgotten : IsForgotten k (clerk_entry setup s j)
    unfolding clerk_entry
    clerk_entry-Forgotten = elim (Bool-cases (j == k)) [
      | inl same ↦
          let e : j ≡ k = ground arith in
          let w : s.clerk j ≡ waiting = ap s.clerk e ∙ v.waits in rw w v
      | inr apart ↦ clerk_in-Forgotten (s.clerk j) (ground arith)
    ]

Goes-Forgotten :
    {setup : Setup} {s t : System} (k : ℕ)
    → k < 5
    → IsForgotten k s
    → Goes setup s t
    → IsForgotten k t
Goes-Forgotten k small v here = v
Goes-Forgotten {setup} k small v (goes {t} g (customer_acts i m chosen run)) =
    customer_entry-Forgotten setup k small t (Goes-Forgotten k small v g) i m run
Goes-Forgotten {setup} k small v (goes {t} g (clerk_acts j lo hi)) =
    clerk_entry-Forgotten setup k small t (Goes-Forgotten k small v g) j lo hi
Goes-Forgotten k small v (returns_early {t} i g e) =
    let w = Goes-Forgotten k small v g in
    kept_by k t w (set_customer t i signalled) (w.waits) (put_unserved k t w i signalled refl) refl

-- One of the first four clerks that waits for a customer, while no customer has been taken for it and
-- no queue's status names it, waits for ever: whatever steps the threads take, in any order and also
-- where waits of customers return early, it is not woken.
pub Goes-waiting :
    {setup : Setup} {s t : System} (k : ℕ)
    → k < 5
    → IsForgotten k s
    → Goes setup s t
    → t.clerk k ≡ waiting
Goes-waiting k small v g = (Goes-Forgotten k small v g).waits
