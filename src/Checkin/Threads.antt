-- ===== src/Checkin/Threads.antt =====
-- The threads of a2/A2.c: `Customer_entry` and `clerk_entry`, interleaved in any order. A step of a
-- thread ends where another thread can see what it did: at the end of a section under a mutex, at a
-- read of a queue's size or a write of its status without the mutex, and at each signal. A customer's
-- signal to the clerks and the wait behind it are one step: the wait only gives the mutex back.
pub mod Runs
pub mod Agreement
pub mod Customers
pub mod Safety
pub mod Forgotten
pub mod Served
pub mod Stuck
pub mod Moves
pub mod Idle
mod Tests
use csc.Base.{
  ℕ, zero, suc, ◌+◌, ◌≤◌, ◌<◌, ◌≡◌, ◌≢◌, ◌⊎◌, ℤ, pos, negsuc, Bool, true, false, Option, none, some,
  ltb, leb, ◌&&◌, ◌==◌, if◌then◌else◌, Run, ok, fault, ◌>>=◌,
}
use csc.Checkin.Queue.{Pointer}
use csc.Checkin.Desk.{Desk, start_desk, enter, wake, call, clear}

-- The two queues, by their index in the global arrays: 0 and 1.
pub data Class : Type 0 where
  economy business : Class

-- The class of a `class_type`; no branch of `Customer_entry` is for any other number.
abbrev pub class_of : ℤ → Option Class
class_of (pos n) = if n == 1 then some business else if n == 0 then some economy else none
class_of (negsuc n) = none

-- Where a customer thread stands. `entered` holds the queue's mutex.
pub data Phase : Type 0 where
  arriving : Phase
  entered : Phase
  queued : Phase  -- in `pthread_cond_wait` of the queue
  signalled : Phase  -- before it has the mutex again
  taken : (curr_clerk : ℕ) → Phase  -- behind the section
  serving : (curr_clerk : ℕ) → Phase
  left : Phase

-- Where a clerk thread stands. The three phases from `testing` on hold `request_queue_mutex`.
pub data ClerkPhase : Type 0 where
  requesting : ClerkPhase
  testing : ClerkPhase
  testing_economy : ClerkPhase
  about_to_wait : ClerkPhase
  asleep : ClerkPhase  -- in `pthread_cond_wait` of `request_queue_convar`
  woken : ClerkPhase
  selecting : ClerkPhase
  selecting_economy : ClerkPhase
  calling : (selected_queue : Class) → ClerkPhase
  called : ClerkPhase  -- before the clerk's own mutex
  waiting : ClerkPhase  -- in `pthread_cond_wait` of the clerk's own condition variable

-- The globals, with the owners of the queues' mutexes and of `request_queue_mutex`.
pub record System : Type 0 where
  pub desk : Class → Desk
  pub owner : Class → Option ℕ
  pub num_customers : Class → ℕ
  pub customer : ℕ → Phase
  pub clerk : ℕ → ClerkPhase
  pub request_owner : Option ℕ

abbrev pub start_system : System
start_system = record {
  desk = λ c. start_desk;
  owner = λ c. none;
  num_customers = λ c. 0;
  customer = λ i. arriving;
  clerk = λ k. requesting;
  request_owner = none;
}

-- What the threads are started with: each customer's record, and the address that `malloc` returns
-- for its node.
pub record Setup : Type 0 where
  pub id : ℕ → ℕ
  pub class_type : ℕ → ℤ
  pub address : ℕ → Pointer

abbrev pub put {ℓ} : {A : Type ℓ} → (ℕ → A) → ℕ → A → ℕ → A
put f i a j = if j == i then a else f j

abbrev pub put_class {ℓ} : {A : Type ℓ} → (Class → A) → Class → A → Class → A
put_class f economy a economy = a
put_class f economy a business = f business
put_class f business a economy = f economy
put_class f business a business = a

abbrev pub is_free : Option ℕ → Bool
is_free none = true
is_free (some i) = false

abbrev pub set_customer : System → ℕ → Phase → System
set_customer s i p = record s { customer = put s.customer i p }

abbrev pub set_clerk : System → ℕ → ClerkPhase → System
set_clerk s k p = record s { clerk = put s.clerk k p }

-- The clerk whose condition variable a customer signals, from `curr_clerk`.
abbrev pub clerk_of : ℕ → ℕ
clerk_of curr_clerk = if leb 1 curr_clerk && ltb curr_clerk 5 then curr_clerk else 5

abbrev pub wake_asleep : ClerkPhase → ClerkPhase
wake_asleep asleep = woken
wake_asleep p = p

abbrev pub wake_waiting : ClerkPhase → ClerkPhase
wake_waiting waiting = requesting
wake_waiting p = p

-- A customer enters its queue, if the mutex is free.
unfoldable pub enters_queue : Setup → System → ℕ → Class → Run System
enters_queue setup s i c =
    if is_free (s.owner c)
    then (do
      d ← enter (s.desk c) (setup.address i) (setup.id i)
      ok (record s {
        desk = put_class s.desk c d;
        owner = put_class s.owner c (some i);
        customer = put s.customer i entered;
      }))
    else ok s

-- The signal to the clerks, of whom `k` is woken if it sleeps, and the first wait.
abbrev pub signals_clerks : System → ℕ → Class → ℕ → System
signals_clerks s i c k = record s {
  owner = put_class s.owner c none;
  customer = put s.customer i queued;
  clerk = put s.clerk k (wake_asleep (s.clerk k));
}

-- A round of the `while` loop, if the mutex is free.
abbrev pub after_round : System → ℕ → Class → Option ℕ × Desk → System
after_round s i c (none, d) = record s {
  desk = put_class s.desk c d;
  customer = put s.customer i queued;
}
after_round s i c (some curr_clerk, d) = record s {
  desk = put_class s.desk c d;
  num_customers = put_class s.num_customers c (s.num_customers c + 1);
  customer = put s.customer i (taken curr_clerk);
}

unfoldable pub round : Setup → System → ℕ → Class → Run System
round setup s i c =
    if is_free (s.owner c)
    then (do r ← wake (s.desk c) (setup.id i); ok (after_round s i c r))
    else ok s

-- Behind the section only a business customer stores to `queue_status`.
abbrev pub starts_service : System → ℕ → Class → ℕ → System
starts_service s i economy curr_clerk = set_customer s i (serving curr_clerk)
starts_service s i business curr_clerk = record s {
  desk = put_class s.desk business (clear (s.desk business));
  customer = put s.customer i (serving curr_clerk);
}

abbrev pub finishes : System → ℕ → ℕ → System
finishes s i curr_clerk = record s {
  customer = put s.customer i left;
  clerk = put s.clerk (clerk_of curr_clerk) (wake_waiting (s.clerk (clerk_of curr_clerk)));
}

-- A step of a customer of a class in a phase. A thread that is blocked, or has ended, does nothing.
abbrev pub customer_in : Setup → System → (i k : ℕ) → Class → Phase → Run System
customer_in setup s i k c arriving = enters_queue setup s i c
customer_in setup s i k c entered = ok (signals_clerks s i c k)
customer_in setup s i k c queued = ok s
customer_in setup s i k c signalled = round setup s i c
customer_in setup s i k c (taken curr_clerk) = ok (starts_service s i c curr_clerk)
customer_in setup s i k c (serving curr_clerk) = ok (finishes s i curr_clerk)
customer_in setup s i k c left = ok s

-- `Customer_entry`. With no class, `curr_clerk` is read before it is set.
unfoldable pub customer_entry : Setup → System → (i k : ℕ) → Run System
customer_entry setup s i k = elim (class_of (setup.class_type i)) [
  | none ↦ fault
  | some c ↦ customer_in setup s i k c (s.customer i)
]

-- A customer of the class that waits is woken by a broadcast.
abbrev pub hear : Phase → Phase
hear queued = signalled
hear p = p

abbrev pub is_class : Class → Option Class → Bool
is_class c none = false
is_class economy (some economy) = true
is_class economy (some business) = false
is_class business (some economy) = false
is_class business (some business) = true

-- The section in which a clerk calls a queue, if the mutex is free.
unfoldable pub calls_class : Setup → System → ℕ → Class → System
calls_class setup s k c =
    if is_free (s.owner c)
    then (record s {
      desk = put_class s.desk c (call (s.desk c) k);
      customer = λ i.
          if is_class c (class_of (setup.class_type i)) then hear (s.customer i) else s.customer i;
      clerk = put s.clerk k called;
    })
    else s

abbrev pub locks_request : System → ℕ → System
locks_request s k =
    if is_free s.request_owner
    then (record s { clerk = put s.clerk k testing; request_owner = some k })
    else s

abbrev pub leaves_request : System → ℕ → ClerkPhase → System
leaves_request s k p = record s { clerk = put s.clerk k p; request_owner = none }

abbrev pub is_empty : System → Class → Bool
is_empty s c = (s.desk c).queue.size == 0

-- A step of a clerk in a phase.
abbrev pub clerk_in : Setup → System → ℕ → ClerkPhase → System
clerk_in setup s k requesting = locks_request s k
clerk_in setup s k testing =
    if is_empty s business then set_clerk s k testing_economy else leaves_request s k selecting
clerk_in setup s k testing_economy =
    if is_empty s economy then set_clerk s k about_to_wait else leaves_request s k selecting
clerk_in setup s k about_to_wait = leaves_request s k asleep
clerk_in setup s k asleep = s
clerk_in setup s k woken = locks_request s k
clerk_in setup s k selecting =
    set_clerk s k (if is_empty s business then selecting_economy else calling business)
clerk_in setup s k selecting_economy =
    set_clerk s k (if is_empty s economy then requesting else calling economy)
clerk_in setup s k (calling c) = calls_class setup s k c
clerk_in setup s k called = set_clerk s k waiting
clerk_in setup s k waiting = s

unfoldable pub clerk_entry : Setup → System → ℕ → System
unfolding calls_class
clerk_entry setup s k = clerk_in setup s k (s.clerk k)
