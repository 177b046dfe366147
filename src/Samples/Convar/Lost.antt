-- ===== src/Samples/Convar/Lost.antt =====
-- The signal of a2/pt_convar.c that comes before the wait.
use csc.Base.{
  ℕ, ◌≡◌, ◌≢◌, refl, sym, subst, ap, ◌∙◌, Bool, true, false, Bool-cases, inl, inr, if◌then◌else◌,
  ltb, ok, ok-injective,
}
use csc.Samples.Convar.{
  First, no_first, first_begins, signalling, unlocking, first_ended, start_system, wake, Second,
  no_second, second_begins, about_to_wait, waiting, woken, going_on, second_ended, Main,
  creating_first, creating_second, joining_first, joining_second, finished, System, first_in,
  thread_1, second_in, thread_2, join_first, join_second, main_in, main_step, Runs, here,
  first_acts, second_acts, main_acts,
}

-- The second thread has not been woken.
abbrev pub before_wait : Second → Bool
before_wait no_second = true
before_wait second_begins = true
before_wait about_to_wait = true
before_wait waiting = true
before_wait p = false

-- The signal was sent before the second thread was woken.
pub record IsLost (s : System) : Type 0 where
  pub sent : s.first ≡ first_ended
  pub unheard : before_wait s.second ≡ true
  pub unfinished : s.main ≢ finished
  pub created_once : s.main ≢ creating_first

if-IsLost : (b : Bool) (s t : System) → IsLost s → IsLost t → IsLost (if b then s else t)
if-IsLost true s t v w = v
if-IsLost false s t v w = w

goes_on :
    {s : System} (v : IsLost s) (l : Bool) (p : Second)
    → before_wait p ≡ true
    → IsLost (record s { locked = l; second = p })
goes_on v l p e = record {
  sent = v.sent;
  unheard = e;
  unfinished = v.unfinished;
  created_once = v.created_once;
}

thread_1-IsLost : {s : System} → IsLost s → IsLost (thread_1 s)
unfolding thread_1
thread_1-IsLost {s} v =
    let same : first_in s s.first ≡ s = ap (first_in s) v.sent in subst IsLost (sym same) v

second_in-IsLost :
    {s : System} (v : IsLost s) (p : Second) → before_wait p ≡ true → IsLost (second_in s p)
second_in-IsLost v no_second e = v
second_in-IsLost {s} v second_begins e =
    if-IsLost s.locked s _ v (goes_on v true about_to_wait refl)
second_in-IsLost v about_to_wait e = goes_on v false waiting refl
second_in-IsLost v waiting e = v
second_in-IsLost v woken e = cc
second_in-IsLost v going_on e = cc
second_in-IsLost v second_ended e = cc

thread_2-IsLost : {s : System} → IsLost s → IsLost (thread_2 s)
unfolding thread_2
thread_2-IsLost {s} v = second_in-IsLost v s.second v.unheard

main_goes :
    {s : System} (v : IsLost s) (p : Second) (m : Main)
    → before_wait p ≡ true
    → m ≢ finished
    → m ≢ creating_first
    → IsLost (record s { second = p; main = m })
main_goes v p m e ne nc = record { sent = v.sent; unheard = e; unfinished = ne; created_once = nc }

join_second-IsLost :
    {s : System} (v : IsLost s) (p : Second) → before_wait p ≡ true → IsLost (join_second s p)
join_second-IsLost v no_second e = v
join_second-IsLost v second_begins e = v
join_second-IsLost v about_to_wait e = v
join_second-IsLost v waiting e = v
join_second-IsLost v woken e = v
join_second-IsLost v going_on e = v
join_second-IsLost v second_ended e = cc

main_in-IsLost :
    {s : System} (behind : ℕ) (v : IsLost s) (m : Main)
    → s.main ≡ m
    → (u : System) → main_in behind s m ≡ ok u
    → IsLost u
main_in-IsLost behind v creating_first at u run = absurd (v.created_once at)
main_in-IsLost {s} behind v creating_second at u run = elim (Bool-cases (ltb 0 behind)) [
  | inl room ↦
      subst IsLost (ok-injective (rw room at run))
        (main_goes v second_begins joining_first refl (λ e. cc) (λ e. cc))
  | inr none_left ↦ let e : _ = rw none_left at run in cc
]
main_in-IsLost {s} behind v joining_first at u run =
    subst IsLost (ok-injective (subst (λ p. ok (join_first s p) ≡ ok u) v.sent run))
      (main_goes v s.second joining_second v.unheard (λ e. cc) (λ e. cc))
main_in-IsLost {s} behind v joining_second at u run =
    subst IsLost (ok-injective run) (join_second-IsLost v s.second v.unheard)
main_in-IsLost behind v finished at u run = absurd (v.unfinished at)

Runs-IsLost : {behind : ℕ} {s t : System} → IsLost s → Runs behind s t → IsLost t
unfolding main_step
Runs-IsLost v here = v
Runs-IsLost v (first_acts r) = thread_1-IsLost (Runs-IsLost v r)
Runs-IsLost v (second_acts r) = thread_2-IsLost (Runs-IsLost v r)
Runs-IsLost {behind} v (main_acts {t} {u} r run) =
    main_in-IsLost behind (Runs-IsLost v r) t.main refl u run

Runs-unfinished : {behind : ℕ} {s t : System} → IsLost s → Runs behind s t → t.main ≢ finished
Runs-unfinished v r = (Runs-IsLost v r).unfinished

-- `main` has finished only if it has joined the second thread, and there is no first thread before
-- `main` creates it.
record Joined (s : System) : Type 0 where
  pub done : s.main ≡ finished → s.second ≡ second_ended
  pub fresh : s.main ≡ creating_first → s.first ≡ no_first

-- `main` is between its first and its last step.
between : {s : System} {m : Main} → s.main ≡ m → m ≢ finished → m ≢ creating_first → Joined s
between at not_done not_fresh = record {
  done = λ e. absurd (not_done (sym at ∙ e));
  fresh = λ e. absurd (not_fresh (sym at ∙ e));
}

first-main : (s : System) (f : First) → (first_in s f).main ≡ s.main
first-main s no_first = refl
first-main s first_begins = elim (Bool-cases s.locked) [ inl e ↦ rw e refl | inr e ↦ rw e refl ]
first-main s signalling = refl
first-main s unlocking = refl
first-main s first_ended = refl

first-second :
    (s : System) (f : First) → s.second ≡ second_ended → (first_in s f).second ≡ second_ended
first-second s no_first at = at
first-second s first_begins at = elim (Bool-cases s.locked) [ inl e ↦ rw e at | inr e ↦ rw e at ]
first-second s signalling at = ap wake at
first-second s unlocking at = at
first-second s first_ended at = at

second-rest :
    (s : System) (p : Second) → ((second_in s p).main ≡ s.main) × ((second_in s p).first ≡ s.first)
second-rest s no_second = (refl, refl)
second-rest s second_begins = elim (Bool-cases s.locked) [
  | inl e ↦ rw e (refl, refl)
  | inr e ↦ rw e (refl, refl)
]
second-rest s about_to_wait = (refl, refl)
second-rest s waiting = (refl, refl)
second-rest s woken = elim (Bool-cases s.locked) [
  | inl e ↦ rw e (refl, refl)
  | inr e ↦ rw e (refl, refl)
]
second-rest s going_on = (refl, refl)
second-rest s second_ended = (refl, refl)

thread_1-Joined : {s : System} → Joined s → Joined (thread_1 s)
unfolding thread_1
thread_1-Joined {s} v = record {
  done = λ e. first-second s s.first (v.done (sym (first-main s s.first) ∙ e));
  fresh = λ e.
      let none_yet = v.fresh (sym (first-main s s.first) ∙ e) in
      subst (λ f. (first_in s f).first ≡ no_first) (sym none_yet) none_yet;
}

thread_2-Joined : {s : System} → Joined s → Joined (thread_2 s)
unfolding thread_2
thread_2-Joined {s} v =
    let (same_main, same_first) = second-rest s s.second in
    record {
      done = λ e.
          let over = v.done (sym same_main ∙ e) in
          subst (λ p. (second_in s p).second ≡ second_ended) (sym over) over;
      fresh = λ e. same_first ∙ v.fresh (sym same_main ∙ e);
    }

join_first-Joined : (s : System) → s.main ≡ joining_first → (f : First) → Joined (join_first s f)
join_first-Joined s at no_first = between at (λ e. cc) (λ e. cc)
join_first-Joined s at first_begins = between at (λ e. cc) (λ e. cc)
join_first-Joined s at signalling = between at (λ e. cc) (λ e. cc)
join_first-Joined s at unlocking = between at (λ e. cc) (λ e. cc)
join_first-Joined s at first_ended = between refl (λ e. cc) (λ e. cc)

join_second-Joined :
    (s : System) → s.main ≡ joining_second → (p : Second) → s.second ≡ p → Joined (join_second s p)
join_second-Joined s at no_second e = between at (λ e. cc) (λ e. cc)
join_second-Joined s at second_begins e = between at (λ e. cc) (λ e. cc)
join_second-Joined s at about_to_wait e = between at (λ e. cc) (λ e. cc)
join_second-Joined s at waiting e = between at (λ e. cc) (λ e. cc)
join_second-Joined s at woken e = between at (λ e. cc) (λ e. cc)
join_second-Joined s at going_on e = between at (λ e. cc) (λ e. cc)
join_second-Joined s at second_ended e = record { done = λ _. e; fresh = λ e. cc }

main_in-Joined :
    {s : System} (behind : ℕ)
    → Joined s
    → (m : Main) → s.main ≡ m
    → (u : System) → main_in behind s m ≡ ok u
    → Joined u
main_in-Joined behind v creating_first at u run =
    subst Joined (ok-injective run) (between refl (λ e. cc) (λ e. cc))
main_in-Joined behind v creating_second at u run = elim (Bool-cases (ltb 0 behind)) [
  | inl room ↦ subst Joined (ok-injective (rw room at run)) (between refl (λ e. cc) (λ e. cc))
  | inr none_left ↦ let e : _ = rw none_left at run in cc
]
main_in-Joined {s} behind v joining_first at u run =
    subst Joined (ok-injective run) (join_first-Joined s at s.first)
main_in-Joined {s} behind v joining_second at u run =
    subst Joined (ok-injective run) (join_second-Joined s at s.second refl)
main_in-Joined behind v finished at u run = subst Joined (ok-injective run) v

Runs-Joined : {behind : ℕ} {s : System} → Runs behind start_system s → Joined s
unfolding main_step
Runs-Joined here = record { done = λ e. cc; fresh = λ e. refl }
Runs-Joined (first_acts r) = thread_1-Joined (Runs-Joined r)
Runs-Joined (second_acts r) = thread_2-Joined (Runs-Joined r)
Runs-Joined {behind} (main_acts {t} {u} r run) =
    main_in-Joined behind (Runs-Joined r) t.main refl u run

-- Where `pthread_create` succeeds and no wait returns early: if the program comes to a state in which
-- the first thread has ended and the second has not been woken, then in whatever order the threads
-- and `main` go on, the second thread is never woken and `main` never finishes.
pub signal-before_wait :
    {behind : ℕ} {s t : System}
    → Runs behind start_system s
    → s.first ≡ first_ended
    → before_wait s.second ≡ true
    → Runs behind s t
    → (before_wait t.second ≡ true) × (t.main ≢ finished)
signal-before_wait {behind} {s} {t} r ended unheard later =
    let v = Runs-Joined r in
    let lost : IsLost s = record {
      sent = ended;
      unheard = unheard;
      unfinished = λ e. let over : _ = subst (λ p. before_wait p ≡ true) (v.done e) unheard in cc;
      created_once = λ e. let none_yet = v.fresh e in cc;
    } in
    ((Runs-IsLost lost later).unheard, Runs-unfinished lost later)
