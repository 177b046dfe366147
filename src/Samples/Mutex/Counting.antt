-- ===== src/Samples/Mutex/Counting.antt =====
-- The counter of a2/pt_mutex.c against what each thread has added.
use csc.Base.{
  sum_below, sum_below-change, sum_below-le, sum_below-all, ℕ, ◌+◌, ◌*◌, ◌≤◌, ◌<◌, ◌≡◌, ◌≢◌, refl,
  sym, ap, ◌∙◌, Bool, true, false, Bool-cases, Option, some, ◌==◌, inl, inr, arith, List,
}
use csc.Samples.Mutex.{
  n_threads, n_rounds, Phase, not_created, begins, looping, adding, has_printed, ended, Main,
  Message, System, put,
}

pub put-cases {ℓ} :
    (P : Phase → Type ℓ) (f : ℕ → Phase) (t k : ℕ) (p : Phase)
    → (k ≡ t → P p)
    → (k ≢ t → P (f k))
    → P (put f t p k)
put-cases P f t k p here elsewhere = elim (Bool-cases (k == t)) [
  | inl same ↦ rw same (here (ground arith))
  | inr other ↦ rw other (elsewhere (ground arith))
]

-- What a thread has added.
abbrev pub contribution : Phase → ℕ
contribution not_created = 0
contribution begins = 0
contribution (looping i) = i
contribution (adding i read) = i
contribution has_printed = n_rounds
contribution ended = n_rounds

abbrev pub total : (ℕ → Phase) → ℕ → ℕ
total f = sum_below (λ t. contribution (f t))

pub total-put :
    (f : ℕ → Phase) (t n : ℕ) (p : Phase)
    → t < n
    → total (put f t p) n + contribution (f t) ≡ total f n + contribution p
total-put f t n p h =
    let itself : (t == t) ≡ true = ground arith in
    let at : contribution (put f t p t) ≡ contribution p = rw itself refl in
    let moved =
      sum_below-change (λ k. contribution (f k)) (λ k. contribution (put f t p k)) t n h
        (λ k apart. let other : (k == t) ≡ false = ground (arith, apart) in rw other refl) in
    omega (arith, moved, at)

pub total-le :
    (f : ℕ → Phase) (n : ℕ)
    → ((t : ℕ) → t < n → contribution (f t) ≤ n_rounds)
    → total f n ≤ n * n_rounds
total-le f n h = sum_below-le (λ t. contribution (f t)) n n_rounds h

pub total-ended :
    (f : ℕ → Phase) (n : ℕ) → ((t : ℕ) → t < n → f t ≡ ended) → total f n ≡ n * n_rounds
total-ended f n h =
    sum_below-all (λ t. contribution (f t)) n n_rounds (λ t lt. ap contribution (h t lt))

abbrev pub in_section : Phase → Bool
in_section (looping i) = true
in_section (adding i read) = true
in_section has_printed = true
in_section _ = false

-- The counter is the sum of what the threads have added, and a thread between its lock and its unlock
-- owns the mutex.
pub record IsCounting (s : System) : Type 0 where
  pub counted : s.counter ≡ total s.thread n_threads
  pub holder : (t : ℕ) → in_section (s.thread t) ≡ true → s.lock ≡ some t
  pub in_loop : (t i : ℕ) → s.thread t ≡ looping i → i ≤ n_rounds
  pub in_round : (t i read : ℕ) → s.thread t ≡ adding i read → (i < n_rounds) × (read ≡ s.counter)

-- One thread goes on.
pub advance :
    {s : System} (v : IsCounting s) (t : ℕ) {p : Phase} (q : Phase) (c : ℕ) (l : Option ℕ)
    (m : Main) (o : List Message)
    → t < n_threads
    → s.thread t ≡ p
    → c + contribution p ≡ s.counter + contribution q
    → (in_section q ≡ true → l ≡ some t)
    → ((k : ℕ) → k ≢ t → in_section (s.thread k) ≡ true → (l ≡ some k) × (c ≡ s.counter))
    → ((i : ℕ) → q ≡ looping i → i ≤ n_rounds)
    → ((i read : ℕ) → q ≡ adding i read → (i < n_rounds) × (read ≡ c))
    → IsCounting (record { counter = c; lock = l; thread = put s.thread t q; main = m; output = o })
advance {s} v t {p} q c l m o small at sum own others loop_q round_q = record {
  counted =
      let moved = total-put s.thread t n_threads q small in
      let before = ap contribution at in omega (arith, moved, before, sum, v.counted);
  holder = λ k.
      put-cases (λ r. in_section r ≡ true → l ≡ some k) s.thread t k q (λ same h. rw same (own h))
        (λ other h. (others k other h).0);
  in_loop = λ k i.
      put-cases (λ r. r ≡ looping i → i ≤ n_rounds) s.thread t k q (λ same. loop_q i)
        (λ other. v.in_loop k i);
  in_round = λ k i read.
      put-cases (λ r. r ≡ adding i read → (i < n_rounds) × (read ≡ c)) s.thread t k q
        (λ same. round_q i read)
        (λ other e.
          let (lt, seen) = v.in_round k i read e in
          (lt, seen ∙ sym (others k other (ap in_section e)).1));
}

contribution_le :
    {s : System} (v : IsCounting s) (t : ℕ) (p : Phase) → s.thread t ≡ p → contribution p ≤ n_rounds
contribution_le v t not_created e = omega arith
contribution_le v t begins e = omega arith
contribution_le v t (looping i) e = v.in_loop t i e
contribution_le v t (adding i read) e = omega (arith, (v.in_round t i read e).0)
contribution_le v t has_printed e = omega arith
contribution_le v t ended e = omega arith

-- A counter that a thread is about to increment is below its last value.
pub counter_lt :
    {s : System} (v : IsCounting s) (t i read : ℕ)
    → t < n_threads
    → s.thread t ≡ adding i read
    → s.counter < n_threads * n_rounds
counter_lt {s} v t i read small e =
    let moved = total-put s.thread t n_threads ended small in
    let room = total-le (put s.thread t ended) n_threads (λ k _.
      put-cases (λ r. contribution r ≤ n_rounds) s.thread t k ended (λ _. omega arith)
        (λ _. contribution_le v k (s.thread k) refl)) in
    let at = ap contribution e in
    omega (arith, moved, room, at, (v.in_round t i read e).0, v.counted)
