-- ===== src/Base/Runs.antt =====
-- Results of C code: a value, an access that C does not allow, or fuel that ran out.
use mathlib.Core.Path.{◌≡◌, refl, subst}
use mathlib.Core.Logic.{◌≢◌}
use mathlib.Core.Bool.{Bool, true, false}

pub data Run {ℓ} (A : Type ℓ) : Type ℓ where
  out_of_fuel : Run A
  fault : Run A
  ok : A → Run A

-- The first run that does not return ends them all.
abbrev pub ◌>>=◌ {ℓ κ} : {A : Type ℓ} {C : Type κ} (first : Run A) (next : A → Run C) → Run C
out_of_fuel >>= next = out_of_fuel
fault >>= next = fault
ok value >>= next = next value

infixl 5 ◌>>=◌
pub ok-injective {ℓ} : {A : Type ℓ} {a b : A} → ok a ≡ ok b → a ≡ b
ok-injective e = cc

-- The value that a run returns.
abbrev pub value_or {ℓ} : {A : Type ℓ} → A → Run A → A
value_or a out_of_fuel = a
value_or a fault = a
value_or a (ok value) = value

abbrev pub is_ok {ℓ} : {A : Type ℓ} → Run A → Bool
is_ok out_of_fuel = false
is_ok fault = false
is_ok (ok value) = true

pub ok-value_or {ℓ} :
    {A : Type ℓ} (a : A) (run : Run A) → is_ok run ≡ true → run ≡ ok (value_or a run)
ok-value_or a out_of_fuel e = cc
ok-value_or a fault e = cc
ok-value_or a (ok value) e = refl

-- A chain that returns: its first run returned, and so did what came next.
pub returns_both {ℓ κ} :
    {A : Type ℓ} {C : Type κ} (first : Run A) (next : A → Run C) {result : C}
    → (first >>= next) ≡ ok result
    → (value : A) × (first ≡ ok value) × (next value ≡ ok result)
returns_both out_of_fuel next run = cc
returns_both fault next run = cc
returns_both (ok value) next run = (value, refl, run)

-- Partial correctness: what a run returns, if it returns.
pub data Ensures {ℓ κ} {A : Type ℓ} (P : A → Type κ) : Run A → Type (ℓ ⊔ κ) where
  returns : {a : A} → P a → Ensures P (ok a)
  faults : Ensures P fault
  runs_out : Ensures P out_of_fuel

-- The run comes to an end: it returns, or meets an access that C does not allow.
pub data Ends {ℓ} {A : Type ℓ} : Run A → Type ℓ where
  with_value : {a : A} → Ends (ok a)
  with_fault : Ends fault

pub Ensures-value {ℓ κ} :
    {A : Type ℓ} {P : A → Type κ} {r : Run A} {a : A} → Ensures P r → r ≡ ok a → P a
Ensures-value {P} (returns p) e = subst P (ok-injective e) p
Ensures-value faults e = cc
Ensures-value runs_out e = cc

-- Whatever a run returns, it is what it returns.
pub Ensures-self {ℓ} : {A : Type ℓ} (r : Run A) → Ensures (λ a. r ≡ ok a) r
Ensures-self (ok a) = returns refl
Ensures-self fault = faults
Ensures-self out_of_fuel = runs_out

pub Ensures-bind {ℓ κ ι η} :
    {A : Type ℓ} {B : Type κ} {P : A → Type ι} {Q : B → Type η} {r : Run A} {k : A → Run B}
    → Ensures P r
    → ((a : A) → P a → Ensures Q (k a))
    → Ensures Q (r >>= k)
Ensures-bind (returns p) next = next _ p
Ensures-bind faults next = faults
Ensures-bind runs_out next = runs_out

pub Ends-bind {ℓ κ} :
    {A : Type ℓ} {B : Type κ} {r : Run A} {k : A → Run B}
    → Ends r
    → ((a : A) → r ≡ ok a → Ends (k a))
    → Ends (r >>= k)
Ends-bind with_value next = next _ refl
Ends-bind with_fault next = with_fault

pub Ends-ne {ℓ} : {A : Type ℓ} {r : Run A} → Ends r → r ≢ out_of_fuel
Ends-ne with_value e = cc
Ends-ne with_fault e = cc
