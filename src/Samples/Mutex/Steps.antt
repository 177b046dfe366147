-- ===== src/Samples/Mutex/Steps.antt =====
-- The steps of the threads of a2/pt_mutex.c: none has a fault, and the counter stays in step.
use csc.Base.{
  ℕ, ◌+◌, ◌*◌, ◌^◌, ◌≤◌, ◌<◌, ◌≡◌, ◌≢◌, refl, sym, ap, ◌∙◌, true, false, Bool-cases, Option, none,
  some, ltb, inl, inr, arith, List, ◌∷◌, Run, ok,
}
use csc.Samples.Mutex.{
  n_threads, n_rounds, Phase, not_created, begins, looping, adding, has_printed, ended, Main,
  creating, joining, finished, Message, added_to, final_value, System, put, is_free, thread_in,
}
use csc.Samples.Mutex.Counting.{
  put-cases, contribution, in_section, IsCounting, advance, counter_lt,
}

-- How far `main` has come, where every thread can be created.
abbrev pub Stands : System → Main → Type 0
Stands s (creating i) =
    ((k : ℕ) → i ≤ k → s.thread k ≡ not_created)
    × ((k : ℕ) → k < i → s.thread k ≢ not_created)
    × (i ≤ n_threads)
Stands s (joining j) =
    ((k : ℕ) → k < n_threads → s.thread k ≢ not_created)
    × ((k : ℕ) → k < j → s.thread k ≡ ended)
    × (j ≤ n_threads)
Stands s finished =
    ((k : ℕ) → k < n_threads → s.thread k ≡ ended)
    × ((earlier : List Message) × (s.output ≡ final_value (n_threads * n_rounds) ∷ earlier))

pub record IsRunning (s : System) : Type 0 where
  pub counting : IsCounting s
  pub stands : Stands s s.main

-- A thread that was created and has not ended goes on.
module _ (s : System) (t : ℕ) {p : Phase} (q : Phase) (small : t < n_threads) (at : s.thread t ≡ p)
    (created : p ≢ not_created) (lives : p ≢ ended) (on : q ≢ not_created) where
  still_created : (k : ℕ) → s.thread k ≢ not_created → put s.thread t q k ≢ not_created
  still_created k h = put-cases (λ r. r ≢ not_created) s.thread t k q (λ _. on) (λ _. h)

  still_ended : (k : ℕ) → s.thread k ≡ ended → put s.thread t q k ≡ ended
  still_ended k h =
      put-cases (λ r. r ≡ ended) s.thread t k q
        (λ same. absurd (lives (sym at ∙ ap s.thread (sym same) ∙ h))) (λ _. h)

  still_waits : (k : ℕ) → s.thread k ≡ not_created → put s.thread t q k ≡ not_created
  still_waits k h =
      put-cases (λ r. r ≡ not_created) s.thread t k q
        (λ same. absurd (created (sym at ∙ ap s.thread (sym same) ∙ h))) (λ _. h)

  goes-Stands :
      (m : Main) (c : ℕ) (l : Option ℕ) (o : List Message)
      → Stands s m
      → Stands (record { counter = c; lock = l; thread = put s.thread t q; main = m; output = o }) m
  goes-Stands (creating i) c l o (later, before, le) =
      (λ k h. still_waits k (later k h), λ k h. still_created k (before k h), le)
  goes-Stands (joining j) c l o (all, before, le) =
      (λ k h. still_created k (all k h), λ k h. still_ended k (before k h), le)
  goes-Stands finished c l o (all, e) = absurd (lives (sym at ∙ all t small))

-- What a thread has read in `counter++`.
abbrev read_by : Phase → ℕ
read_by (adding i read) = read
read_by _ = 0

abbrev pub Keeps : Run System → Type 0
Keeps r = (s' : System) × (r ≡ ok s') × IsRunning s'

module _ {s : System} (v : IsRunning s) (t : ℕ) (small : t < n_threads) where
  -- Where the thread owns the mutex, no other is between its lock and its unlock.
  alone :
      {c : ℕ} {l : Option ℕ}
      → s.lock ≡ some t
      → (k : ℕ) → k ≢ t
      → in_section (s.thread k) ≡ true
      → (l ≡ some k) × (c ≡ s.counter)
  alone mine k other h = absurd (other (same (sym (v.counting.holder k h) ∙ mine)))
    where
      same : some k ≡ some t → k ≡ t
      same e = cc

  moved :
      {p : Phase} (q : Phase) (c : ℕ) (l : Option ℕ) (o : List Message)
      → s.thread t ≡ p
      → p ≢ not_created
      → p ≢ ended
      → q ≢ not_created
      → IsCounting
          (record { counter = c; lock = l; thread = put s.thread t q; main = s.main; output = o })
      → IsRunning
          (record { counter = c; lock = l; thread = put s.thread t q; main = s.main; output = o })
  moved q c l o at created lives on counting = record {
    counting = counting;
    stands = goes-Stands s t q small at created lives on s.main c l o v.stands;
  }

  pub thread_in-Keeps : (p : Phase) → s.thread t ≡ p → Keeps (thread_in s t p)
  thread_in-Keeps not_created at = (s, refl, v)
  thread_in-Keeps ended at = (s, refl, v)
  thread_in-Keeps begins at = elim (Bool-cases (is_free s.lock)) [
    | inr owned ↦ (s, rw owned refl, v)
    | inl free ↦ (
      _,
      rw free refl,
      moved (looping 0) s.counter (some t) s.output at (λ e. cc) (λ e. cc) (λ e. cc)
          (advance v.counting t (looping 0) s.counter (some t) s.main s.output small at refl
            (λ _. refl)
            (λ k other h.
              let owned : is_free s.lock ≡ false = ap is_free (v.counting.holder k h) in cc)
            (λ i e. let none_yet = ap contribution e in omega (arith, none_yet)) (λ i read e. cc)),
    )
  ]
  thread_in-Keeps (looping i) at =
      let mine = v.counting.holder t (ap in_section at) in
      elim (Bool-cases (ltb i n_rounds)) [
        | inl more ↦ (
          _,
          rw more refl,
          moved (adding i s.counter) s.counter s.lock s.output at (λ e. cc) (λ e. cc) (λ e. cc)
              (advance v.counting t (adding i s.counter) s.counter s.lock s.main s.output small at
                refl (λ _. mine) (alone mine) (λ j e. cc)
                (λ j read e.
                  let same_i = ap contribution e in
                  let same_read = ap read_by e in (ground (arith, more, same_i), sym same_read))),
        )
        | inr over ↦ (
          _,
          rw over refl,
          moved has_printed s.counter s.lock (added_to s.counter ∷ s.output) at (λ e. cc) (λ e. cc)
              (λ e. cc)
              (advance v.counting t has_printed s.counter s.lock s.main _ small at
                (let le = v.counting.in_loop t i at in ground (arith, le)) (λ _. mine) (alone mine)
                (λ j e. cc) (λ j read e. cc)),
        )
      ]
  thread_in-Keeps (adding i read) at =
      let mine = v.counting.holder t (ap in_section at) in
      let (lt, seen) = v.counting.in_round t i read at in
      let below = counter_lt v.counting t i read small at in
      let fits : ltb (read + 1) (2 ^ 31) ≡ true = ground (arith, below, seen) in
      (
        _,
        rw fits refl,
        moved (looping (i + 1)) (read + 1) s.lock s.output at (λ e. cc) (λ e. cc) (λ e. cc)
            (advance v.counting t (looping (i + 1)) (read + 1) s.lock s.main s.output small at
              (omega (arith, seen)) (λ _. mine) (alone mine)
              (λ j e. let next = ap contribution e in omega (arith, next, lt)) (λ j r e. cc)),
      )
  thread_in-Keeps has_printed at =
      let mine = v.counting.holder t (ap in_section at) in
      (
        _,
        refl,
        moved ended s.counter none s.output at (λ e. cc) (λ e. cc) (λ e. cc)
            (advance v.counting t ended s.counter none s.main s.output small at refl (λ e. cc)
              (alone mine) (λ j e. cc) (λ j r e. cc)),
      )
