-- ===== src/Samples/Mutex/Rounds.antt =====
-- A whole run of one thread of a2/pt_mutex.c.
use csc.Base.{
  ℕ, zero, suc, ◌+◌, ◌^◌, ◌<◌, ◌≡◌, ◌≢◌, refl, ap, ◌∙◌, true, false, none, some, ◌==◌, ltb, arith,
  ok, ◌∷◌,
}
use csc.Samples.Mutex.{
  n_threads, n_rounds, Phase, begins, looping, adding, has_printed, ended, System, put, thread_in,
  thread_function, Reach, thread_acts, added_to, set_thread,
}
use csc.Samples.Mutex.Counting.{counter_lt}
use csc.Samples.Mutex.Final.{AllCreated, Reach-Running}

put_self : (f : ℕ → Phase) (t : ℕ) (p : Phase) → put f t p t ≡ p
put_self f t p = let same : (t == t) ≡ true = ground arith in rw same refl

put_other : (f : ℕ → Phase) (t k : ℕ) (p : Phase) → k ≢ t → put f t p k ≡ f k
put_other f t k p apart = let other : (k == t) ≡ false = ground (arith, apart) in rw other refl

thread_function-in :
    (s : System) (t : ℕ) {p : Phase} → s.thread t ≡ p → thread_function s t ≡ thread_in s t p
unfolding thread_function
thread_function-in s t at = ap (thread_in s t) at

-- A state that is reached, and in which a thread stands somewhere with all else as before.
pub record Later (create : ℕ → ℕ) (before : System) (t : ℕ) (p : Phase) : Type 0 where
  pub state : System
  pub reached : Reach create state
  pub here : state.thread t ≡ p
  pub elsewhere : (k : ℕ) → k ≢ t → state.thread k ≡ before.thread k
  pub same_main : state.main ≡ before.main

module _ {create : ℕ → ℕ} (created : AllCreated create) (t : ℕ) (small : t < n_threads) where
  steps :
      {s s' : System} {p : Phase}
      → Reach create s
      → s.thread t ≡ p
      → thread_in s t p ≡ ok s'
      → Reach create s'
  steps {s} r at e = thread_acts t r small (thread_function-in s t at ∙ e)

  one_round :
      {s : System} (i : ℕ)
      → Reach create s
      → s.thread t ≡ looping i
      → i < n_rounds
      → Later create s t (looping (i + 1))
  one_round {s} i r at lt =
      let more : ltb i n_rounds ≡ true = ground (arith, lt) in
      let a : System = set_thread s t (adding i s.counter) in
      let ra : Reach create a = steps r at (rw more refl) in
      let at_a = put_self s.thread t (adding i s.counter) in
      let below = counter_lt (Reach-Running created ra).counting t i s.counter small at_a in
      let fits : ltb (s.counter + 1) (2 ^ 31) ≡ true = ground (arith, below) in
      let b : System = record a {
        thread = put a.thread t (looping (i + 1));
        counter = s.counter + 1;
      } in
      record {
        state = b;
        reached = steps ra at_a (rw fits refl);
        here = put_self a.thread t (looping (i + 1));
        elsewhere = λ k apart.
            put_other a.thread t k (looping (i + 1)) apart
            ∙ put_other s.thread t k (adding i s.counter) apart;
        same_main = refl;
      }

  -- The rounds that are left.
  rounds :
      (left : ℕ) {s : System} (i : ℕ)
      → Reach create s
      → s.thread t ≡ looping i
      → left + i ≡ n_rounds
      → Later create s t (looping n_rounds)
  rounds zero {s} i r at e = record {
    state = s;
    reached = r;
    here = at ∙ ap looping (let all : i ≡ n_rounds = omega (arith, e) in all);
    elsewhere = λ k apart. refl;
    same_main = refl;
  }
  rounds (suc left) i r at e =
      let next = one_round i r at (omega (arith, e)) in
      let rest = rounds left (i + 1) next.reached next.here (omega (arith, e)) in
      record {
        state = rest.state;
        reached = rest.reached;
        here = rest.here;
        elsewhere = λ k apart. rest.elsewhere k apart ∙ next.elsewhere k apart;
        same_main = rest.same_main ∙ next.same_main;
      }

  -- The whole thread, from a free mutex to a free mutex.
  pub run_thread :
      {s : System}
      → Reach create s
      → s.thread t ≡ begins
      → s.lock ≡ none
      → (l : Later create s t ended) × (l.state.lock ≡ none)
  run_thread {s} r at free =
      let a : System = record s { thread = put s.thread t (looping 0); lock = some t } in
      let ra : Reach create a = steps r at (rw free refl) in
      let all = rounds n_rounds 0 ra (put_self s.thread t (looping 0)) (omega arith) in
      let b : System = all.state in
      let c : System = record b {
        thread = put b.thread t has_printed;
        output = added_to b.counter ∷ b.output;
      } in
      let rc : Reach create c = steps all.reached all.here refl in
      let rd = steps rc (put_self b.thread t has_printed) refl in
      (
        record {
          state = record c { thread = put c.thread t ended; lock = none };
          reached = rd;
          here = put_self c.thread t ended;
          elsewhere = λ k apart.
              put_other c.thread t k ended apart
              ∙ (put_other b.thread t k has_printed apart
                  ∙ (all.elsewhere k apart ∙ put_other s.thread t k (looping 0) apart));
          same_main = all.same_main;
        },
        refl,
      )
