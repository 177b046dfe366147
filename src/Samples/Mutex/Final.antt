-- ===== src/Samples/Mutex/Final.antt =====
-- What `main` of a2/pt_mutex.c prints at the end.
use csc.Base.{
  ℕ, ◌+◌, ◌≤◌, ◌<◌, ◌≡◌, ◌≢◌, refl, sym, ap, ◌∙◌, true, Bool-cases, ◌==◌, ltb, inl, inr, arith,
  List, ◌∷◌, Run, ok, ok-injective, subst,
}
use csc.Samples.Mutex.{
  n_threads, Phase, not_created, begins, looping, adding, has_printed, ended, Main, creating,
  joining, finished, Message, final_value, System, start_system, put, thread_function, join,
  main_in, main_step, Reach, start, thread_acts, main_acts,
}
use csc.Samples.Mutex.Counting.{put-cases, total-ended, IsCounting, advance}
use csc.Samples.Mutex.Steps.{Stands, IsRunning, Keeps, thread_in-Keeps}

pub none_below : {k : ℕ} → k < 0 → ⊥
none_below h = omega (arith, h)

-- Every thread can be created.
abbrev pub AllCreated : (ℕ → ℕ) → Type 0
AllCreated create = (i : ℕ) → i < n_threads → create i ≡ 0

-- The counter and the threads stay; `main` goes on.
main_goes :
    {s : System} (v : IsCounting s) (m : Main) (o : List Message)
    → IsCounting (record s { main = m; output = o })
main_goes v m o = record {
  counted = v.counted;
  holder = v.holder;
  in_loop = v.in_loop;
  in_round = v.in_round;
}

module _ {s : System} (v : IsRunning s) where
  create-Running :
      (i : ℕ)
      → i < n_threads
      → Stands s (creating i)
      → IsRunning (record s { main = creating (i + 1); thread = put s.thread i begins })
  create-Running i small (later, before, le) = record {
    counting =
        advance v.counting i begins s.counter s.lock (creating (i + 1)) s.output small
          (later i (omega arith)) refl (λ e. cc) (λ k other h. (v.counting.holder k h, refl))
          (λ j e. cc) (λ j r e. cc);
    stands = (
      λ k h.
          put-cases (λ r. r ≡ not_created) s.thread i k begins (λ same. absurd (no_room same h))
            (λ _. later k (omega (arith, h))),
      λ k h.
          put-cases (λ r. r ≢ not_created) s.thread i k begins (λ _ e. cc)
            (λ other. before k (omega (arith, other, h))),
      omega (arith, small),
    );
  }
    where
      no_room : {k : ℕ} → k ≡ i → i + 1 ≤ k → ⊥
      no_room same h = omega (arith, same, h)

  join-Keeps :
      (j : ℕ) (p : Phase)
      → j < n_threads
      → s.thread j ≡ p
      → Stands s (joining j)
      → s.main ≡ joining j
      → Keeps (join s j p)
  join-Keeps j not_created small at (all, before, le) e = absurd (all j small at)
  join-Keeps j begins small at st e = (s, refl, v)
  join-Keeps j (looping i) small at st e = (s, refl, v)
  join-Keeps j (adding i read) small at st e = (s, refl, v)
  join-Keeps j has_printed small at st e = (s, refl, v)
  join-Keeps j ended small at (all, before, le) e = (
    _,
    refl,
    record {
      counting = main_goes v.counting (joining (j + 1)) s.output;
      stands = (
        all,
        λ k h. elim (Bool-cases (k == j)) [
          | inl same ↦ ap s.thread (ground arith) ∙ at
          | inr other ↦ before k (ground (arith, h))
        ],
        omega (arith, small),
      );
    },
  )

  main_in-Keeps :
      {create : ℕ → ℕ}
      → AllCreated create
      → (m : Main) → s.main ≡ m
      → Stands s m
      → Keeps (main_in create s m)
  main_in-Keeps {create} created (creating i) e st = elim (Bool-cases (ltb i n_threads)) [
    | inl more ↦
        let small : i < n_threads = ground (arith, more) in
        let fine : (create i == 0) ≡ true = ground (arith, created i small) in
        (_, rw (more, fine) refl, create-Running i small st)
    | inr over ↦
        let (later, before, le) = st in
        (
          _,
          rw over refl,
          record {
            counting = main_goes v.counting (joining 0) s.output;
            stands = (
              λ k h. before k (ground (arith, over, h)),
              λ k h. absurd (none_below h),
              omega arith,
            );
          },
        )
  ]
  main_in-Keeps {create} created (joining j) e st = elim (Bool-cases (ltb j n_threads)) [
    | inl more ↦ rw more (join-Keeps j (s.thread j) (ground (arith, more)) refl st e)
    | inr over ↦
        let (all, before, le) = st in
        let done : (k : ℕ) → k < n_threads → s.thread k ≡ ended =
          λ k h. before k (ground (arith, over, h)) in
        (
          _,
          rw over refl,
          record {
            counting = main_goes v.counting finished (final_value s.counter ∷ s.output);
            stands = (
              done,
              (
                s.output,
                ap (λ c. final_value c ∷ s.output)
                    (v.counting.counted ∙ total-ended s.thread n_threads done),
              ),
            );
          },
        )
  ]
  main_in-Keeps {create} created finished e st = (s, refl, v)

start-Running : IsRunning start_system
start-Running = record {
  counting = record {
    counted = refl;
    holder = λ t e. cc;
    in_loop = λ t i e. cc;
    in_round = λ t i r e. cc;
  };
  stands = (λ k h. refl, λ k h. omega (arith, h), omega arith);
}

thread_function-Keeps :
    {s : System} (v : IsRunning s) (t : ℕ) → t < n_threads → Keeps (thread_function s t)
unfolding thread_function
thread_function-Keeps {s} v t small = thread_in-Keeps v t small (s.thread t) refl

main_step-Keeps :
    {create : ℕ → ℕ} {s : System} → AllCreated create → IsRunning s → Keeps (main_step create s)
unfolding main_step
main_step-Keeps {s} created v = main_in-Keeps v created s.main refl v.stands

Keeps-value : {r : Run System} {s : System} → Keeps r → r ≡ ok s → IsRunning s
Keeps-value (t, run, v) e = subst IsRunning (ok-injective (sym run ∙ e)) v

pub Reach-Running : {create : ℕ → ℕ} {s : System} → AllCreated create → Reach create s → IsRunning s
Reach-Running created start = start-Running
Reach-Running created (thread_acts t r small e) =
    Keeps-value (thread_function-Keeps (Reach-Running created r) t small) e
Reach-Running created (main_acts r e) =
    Keeps-value (main_step-Keeps created (Reach-Running created r)) e

-- Where every thread can be created, no thread has a fault at its next step in any state that is reached,
-- in whatever order the threads and `main` run: the counter stays an `int`.
pub thread_function-no_fault :
    {create : ℕ → ℕ} {s : System} (t : ℕ)
    → AllCreated create
    → Reach create s
    → t < n_threads
    → (s' : System) × (thread_function s t ≡ ok s')
thread_function-no_fault t created r small =
    let (s', run, kept) = thread_function-Keeps (Reach-Running created r) t small in (s', run)

-- Where every thread can be created, and in whatever order the threads and `main` run: once `main` has
-- finished, the last line that it has printed gives the counter's final value as 5000000.
pub Reach-final :
    {create : ℕ → ℕ} {s : System}
    → AllCreated create
    → Reach create s
    → s.main ≡ finished
    → (earlier : List Message) × (s.output ≡ final_value 5000000 ∷ earlier)
Reach-final {create} {s} created r e = (subst (Stands s) e (Reach-Running created r).stands).1
