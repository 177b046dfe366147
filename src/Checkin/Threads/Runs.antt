-- ===== src/Checkin/Threads/Runs.antt =====
-- The executions of a2/A2.c: steps of its threads in any order, from the start.
use csc.Base.{some, ℕ, ◌≤◌, ◌≡◌, ◌≢◌, ◌⊎◌, ok}
use csc.Checkin.Queue.{null}
use csc.Checkin.Threads.{
  Class, class_of, queued, signalled, ClerkPhase, requesting, asleep, woken, waiting, System,
  start_system, Setup, set_customer, set_clerk, customer_entry, clerk_entry,
}

-- The customer is of one of the two classes.
abbrev pub IsClassed : Setup → ℕ → Type 0
IsClassed setup i = (c : Class) × (class_of (setup.class_type i) ≡ some c)

-- Customers of the two classes have ids of their own, and nodes addresses of their own.
pub record IsSetup (setup : Setup) : Type 0 where
  pub distinct_ids :
      (i j : ℕ) → IsClassed setup i → IsClassed setup j → setup.id i ≡ setup.id j → i ≡ j
  pub distinct_nodes : (i j : ℕ) → setup.address i ≡ setup.address j → i ≡ j
  pub allocated : (i : ℕ) → setup.address i ≢ null

-- A signal wakes a clerk that sleeps, if there is any.
abbrev pub IsChosen : (ℕ → ClerkPhase) → ℕ → Type 0
IsChosen clerk k = (clerk k ≡ asleep) ⊎ ((j : ℕ) → 1 ≤ j → j ≤ 5 → clerk j ≢ asleep)

pub data Step (setup : Setup) (s : System) : System → Type 0 where
  customer_acts :
      (i k : ℕ) {s' : System}
      → IsChosen s.clerk k
      → customer_entry setup s i k ≡ ok s'
      → Step setup s s'
  clerk_acts : (k : ℕ) → 1 ≤ k → k ≤ 5 → Step setup s (clerk_entry setup s k)

-- `pthread_cond_wait` may return without a signal.
pub data Spurious (s : System) : System → Type 0 where
  customer_returns : (i : ℕ) → s.customer i ≡ queued → Spurious s (set_customer s i signalled)
  sleeper_returns : (k : ℕ) → s.clerk k ≡ asleep → Spurious s (set_clerk s k woken)
  clerk_returns : (k : ℕ) → s.clerk k ≡ waiting → Spurious s (set_clerk s k requesting)

pub data Reach (setup : Setup) : System → Type 0 where
  start : Reach setup start_system
  acts : {s t : System} → Reach setup s → Step setup s t → Reach setup t
  returns_early : {s t : System} → Reach setup s → Spurious s t → Reach setup t
