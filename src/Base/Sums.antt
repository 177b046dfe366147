-- ===== src/Base/Sums.antt =====
-- Sums of the values below a number.
use Prim.Native.Nat.{ℕ, zero, suc, ◌+◌, ◌*◌, ◌≤◌, ◌<◌}
use mathlib.Core.Path.{◌≡◌, refl, ap}
use mathlib.Core.Logic.{◌≢◌, inl, inr}
use native.Mathlib.Omega.{arith}
use csc.Base.Tests.{◌==◌, Bool-cases}

abbrev pub sum_below : (ℕ → ℕ) → ℕ → ℕ
sum_below f zero = 0
sum_below f (suc n) = sum_below f n + f n

pub sum_below-same :
    (f g : ℕ → ℕ) (n : ℕ) → ((k : ℕ) → k < n → g k ≡ f k) → sum_below g n ≡ sum_below f n
sum_below-same f g zero h = refl
sum_below-same f g (suc n) h =
    let rest = sum_below-same f g n (λ k lt. h k (omega (arith, lt))) in
    let last = h n (omega arith) in omega (arith, rest, last)

-- One value changes.
pub sum_below-change :
    (f g : ℕ → ℕ) (t n : ℕ)
    → t < n
    → ((k : ℕ) → k ≢ t → g k ≡ f k)
    → sum_below g n + f t ≡ sum_below f n + g t
sum_below-change f g t zero lt h = omega (arith, lt)
sum_below-change f g t (suc n) lt h = elim (Bool-cases (n == t)) [
  | inl same ↦
      let e : n ≡ t = ground arith in
      let before = sum_below-same f g n (λ k l. h k (omega (arith, l, e))) in
      let at_f = ap f e in let at_g = ap g e in omega (arith, before, at_f, at_g)
  | inr other ↦
      let rest = sum_below-change f g t n (ground (arith, lt)) h in
      let last = h n (ground arith) in omega (arith, rest, last)
]

pub sum_below-le : (f : ℕ → ℕ) (n m : ℕ) → ((k : ℕ) → k < n → f k ≤ m) → sum_below f n ≤ n * m
sum_below-le f zero m h = omega arith
sum_below-le f (suc n) m h =
    let rest = sum_below-le f n m (λ k lt. h k (omega (arith, lt))) in
    let last = h n (omega arith) in grind (arith, rest, last)

pub sum_below-all : (f : ℕ → ℕ) (n m : ℕ) → ((k : ℕ) → k < n → f k ≡ m) → sum_below f n ≡ n * m
sum_below-all f zero m h = omega arith
sum_below-all f (suc n) m h =
    let rest = sum_below-all f n m (λ k lt. h k (omega (arith, lt))) in
    let last = h n (omega arith) in grind (arith, rest, last)

pub sum_below-add :
    (f g : ℕ → ℕ) (n : ℕ) → sum_below (λ k. f k + g k) n ≡ sum_below f n + sum_below g n
sum_below-add f g zero = refl
sum_below-add f g (suc n) = let rest = sum_below-add f g n in omega (arith, rest)
