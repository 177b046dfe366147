-- ===== src/Samples/Mutex/Completion.antt =====
-- A run of a2/pt_mutex.c from its start to its end.
use csc.Base.{
  ℕ, zero, suc, ◌+◌, ◌≤◌, ◌<◌, ◌≡◌, inl, inr, refl, ap, ◌∙◌, true, false, Bool-cases, none, ◌==◌,
  ltb, arith, ok, ◌∷◌,
}
use csc.Samples.Mutex.{
  n_threads, Main, begins, ended, creating, joining, finished, System, put, main_in, main_step,
  Reach, start, main_acts, final_value, join,
}
use csc.Samples.Mutex.Counting.{put-cases}
use csc.Samples.Mutex.Final.{none_below, AllCreated}
use csc.Samples.Mutex.Rounds.{run_thread}

module _ {create : ℕ → ℕ} (created : AllCreated create) where
  main_step-in : (s : System) {m : Main} → s.main ≡ m → main_step create s ≡ main_in create s m
  unfolding main_step
  main_step-in s e = ap (main_in create s) e

  create_all :
      (left : ℕ) {s : System} (i : ℕ)
      → left + i ≡ n_threads
      → Reach create s
      → s.main ≡ creating i
      → s.lock ≡ none
      → ((k : ℕ) → k < i → s.thread k ≡ begins)
      → (s' : System) × Reach create s'
        × (s'.main ≡ joining 0)
        × (s'.lock ≡ none)
        × ((k : ℕ) → k < n_threads → s'.thread k ≡ begins)
  create_all zero {s} i e r at free before =
      let over : ltb i n_threads ≡ false = ground (arith, e) in
      (
        record s { main = joining 0 },
        main_acts r (main_step-in s at ∙ rw over refl),
        refl,
        free,
        λ k h. before k (omega (arith, e, h)),
      )
  create_all (suc left) {s} i e r at free before =
      let more : ltb i n_threads ≡ true = ground (arith, e) in
      let fine : (create i == 0) ≡ true = ground (arith, created i (omega (arith, e))) in
      create_all left (i + 1) (omega (arith, e))
        (main_acts r (
          main_step-in s at
          ∙ (let run : main_in create s (creating i)
                  ≡ ok (record s { main = creating (i + 1); thread = put s.thread i begins }) =
                rw (more, fine) refl in
              run)))
        refl free
        (λ k h.
          put-cases (λ p. p ≡ begins) s.thread i k begins (λ _. refl)
            (λ other. before k (omega (arith, other, h))))

  run_all :
      (left : ℕ) {s : System} (t : ℕ)
      → left + t ≡ n_threads
      → Reach create s
      → s.main ≡ joining 0
      → s.lock ≡ none
      → ((k : ℕ) → k < t → s.thread k ≡ ended)
      → ((k : ℕ) → t ≤ k → k < n_threads → s.thread k ≡ begins)
      → (s' : System) × Reach create s'
        × (s'.main ≡ joining 0)
        × ((k : ℕ) → k < n_threads → s'.thread k ≡ ended)
  run_all zero {s} t e r at free before later = (s, r, at, λ k h. before k (omega (arith, e, h)))
  run_all (suc left) {s} t e r at free before later =
      let small : t < n_threads = omega (arith, e) in
      let (one, free') = run_thread created t small r (later t (omega arith) small) free in
      run_all left (t + 1) (omega (arith, e)) one.reached (one.same_main ∙ at) free'
        (λ k h. elim (Bool-cases (k == t)) [
          | inl same ↦ ap one.state.thread (ground arith) ∙ one.here
          | inr other ↦ one.elsewhere k (ground arith) ∙ before k (ground (arith, h))
        ])
        (λ k h lt. one.elsewhere k (omega (arith, h)) ∙ later k (omega (arith, h)) lt)

  join_all :
      (left : ℕ) {s : System} (j : ℕ)
      → left + j ≡ n_threads
      → Reach create s
      → s.main ≡ joining j
      → ((k : ℕ) → k < n_threads → s.thread k ≡ ended)
      → (s' : System) × Reach create s' × (s'.main ≡ finished)
  join_all zero {s} j e r at all =
      let over : ltb j n_threads ≡ false = ground (arith, e) in
      (
        record s { main = finished; output = final_value s.counter ∷ s.output },
        main_acts r (main_step-in s at ∙ rw over refl),
        refl,
      )
  join_all (suc left) {s} j e r at all =
      let more : ltb j n_threads ≡ true = ground (arith, e) in
      let joined : join s j (s.thread j) ≡ ok (record s { main = joining (j + 1) }) =
        ap (join s j) (all j (omega (arith, e))) in
      let run : main_in create s (joining j) ≡ ok (record s { main = joining (j + 1) }) =
        rw more joined in
      join_all left (j + 1) (omega (arith, e)) (main_acts r (main_step-in s at ∙ run)) refl all

-- Where every thread can be created, the program can come to its end: some order of the steps of the
-- threads and `main` leads to a state in which `main` has finished.
pub Reach-finishes :
    {create : ℕ → ℕ} → AllCreated create → (s : System) × Reach create s × (s.main ≡ finished)
Reach-finishes created =
    let (a, ra, main_a, free, begun) =
      create_all created n_threads 0 (omega arith) start refl refl (λ k h. absurd (none_below h)) in
    let (b, rb, main_b, all) =
      run_all created n_threads 0 (omega arith) ra main_a free (λ k h. absurd (none_below h))
        (λ k _ h. begun k h) in
    join_all created n_threads 0 (omega arith) rb main_b all
