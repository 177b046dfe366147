-- ===== src/Checkin/Threads/Idle.antt =====
-- Whether a clerk of a2/A2.c sleeps, by computation.
use csc.Base.{
  ℕ, zero, suc, ◌≤◌, ◌≡◌, ◌≢◌, subst, inl, inr, Bool, true, false, Bool-cases, ◌&&◌, ◌==◌,
  if◌then◌else◌, arith,
}
use csc.Checkin.Threads.{ClerkPhase, asleep, System}
use csc.Checkin.Threads.Runs.{IsChosen}

-- A test of the clerks 1 to 5.
abbrev is_asleep : ClerkPhase → Bool
is_asleep asleep = true
is_asleep p = false

abbrev pub idle : (ℕ → ClerkPhase) → ℕ → Bool
idle f zero = true
idle f (suc n) = (if is_asleep (f (suc n)) then false else true) && idle f n

not_asleep : (f : ℕ → ClerkPhase) (n j : ℕ) → idle f n ≡ true → 1 ≤ j → j ≤ n → f j ≢ asleep
not_asleep f zero j e lo hi s = absurd (none_here lo hi)
  where
    none_here : 1 ≤ j → j ≤ 0 → ⊥
    none_here lo hi = omega (arith, lo, hi)
not_asleep f (suc n) j e lo hi s = elim (Bool-cases (j == suc n)) [
  | inl same ↦
      let at : f (suc n) ≡ asleep = subst (λ k. f k ≡ asleep) (ground arith) s in
      let e' : _ = rw at at e in cc
  | inr other ↦ not_asleep f n j (ground arith) lo (ground (arith, other, hi)) s
]

pub idle-IsChosen : (s : System) → idle s.clerk 5 ≡ true → IsChosen s.clerk 1
idle-IsChosen s e = inr (λ j lo hi. not_asleep s.clerk 5 j e lo hi)
