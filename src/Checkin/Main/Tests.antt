-- ===== src/Checkin/Main/Tests.antt =====
-- Tests of the model of a2/A2.c's `main`, and the theorems at a file of two customers.
use csc.Base.{
  ℕ, ◌⊎◌, zero, suc, ◌+◌, ◌<◌, inr, ◌≡◌, ◌≢◌, refl, List, [], ◌∷◌, none, some, arith, ok, inl, pos,
}
use csc.Checkin.Queue.{store, queue_enqueue}
use csc.Text.{tokens, strtol}
use csc.Text.Tokens.{IsWord}
use csc.Checkin.Input.{Customer, value_at, add_customer_to_list, read_lines, read_file}
use csc.Checkin.Input.Fields.{customer_line, Parsed, add_customer-fields, read_lines-take}
use csc.Checkin.Desk.{start_desk, enter}
use csc.Checkin.Threads.{
  economy, arriving, entered, requesting, System, Setup, put, put_class, customer_entry,
  enters_queue,
}
use csc.Checkin.Threads.Runs.{Reach, start, acts, customer_acts}
use csc.Checkin.Main.{started, customer_array, setup_of, main}
use csc.Checkin.Main.Starts.{IsFresh, IsFile, main-no_fault}

-- Numbers as their text.
abbrev as_text : List ℕ → List ℕ
as_text t = t

abbrev d : ℕ → List ℕ
d b = b ∷ []

one_digit : (separator b : ℕ) → b ≢ separator → IsWord separator (d b)
one_digit separator b h = (λ e. cc, (h, tt))

abbrev first_customer : Customer (List ℕ)
first_customer = record {
  id = pos 1;
  class_type = pos 0;
  service_time = d b'6';
  arrival_time = d b'2';
}

abbrev second_customer : Customer (List ℕ)
second_customer = record {
  id = pos 4;
  class_type = pos 1;
  service_time = d b'3';
  arrival_time = d b'6';
}

add_customer-fields_example :
    add_customer_to_list as_text (customer_line (d b'1') (d b'0') (d b'2') (d b'6'))
    ≡ ok first_customer
unfolding strtol
add_customer-fields_example =
    add_customer-fields as_text (d b'1') (d b'0') (d b'2') (d b'6')
      (one_digit b':' b'1' (omega arith)) (one_digit b':' b'0' (omega arith)) (omega arith, tt)
      (omega arith, tt) (one_digit b',' b'2' (omega arith)) (one_digit b',' b'6' (omega arith))

abbrev two_lines : List (List ℕ)
two_lines =
    customer_line (d b'1') (d b'0') (d b'2') (d b'6')
    ∷ customer_line (d b'4') (d b'1') (d b'6') (d b'3')
    ∷ []

abbrev two_customers : List (Customer (List ℕ))
two_customers = first_customer ∷ second_customer ∷ []

two_lines-Parsed : Parsed as_text two_lines two_customers
unfolding add_customer_to_list value_at tokens strtol
two_lines-Parsed = (refl, (refl, tt))

read_lines-take_example : read_lines as_text (pos 1) 0 two_lines ≡ ok (first_customer ∷ [])
read_lines-take_example =
    read_lines-take as_text 1 0 two_lines two_customers two_lines-Parsed (omega arith)

abbrev file : List (List ℕ)
file = d b'2' ∷ two_lines

file-read : read_file as_text file ≡ ok (pos 2, two_customers)
unfolding read_file read_lines add_customer_to_list value_at tokens strtol
file-read = refl

too_large : (i : ℕ) → suc (suc i) < 2 → ⊥
too_large i l = omega (arith, l)

ids_apart :
    (i j : ℕ)
    → i < 2
    → j < 2
    → (customer_array [] two_customers i).id ≡ (customer_array [] two_customers j).id
    → i ≡ j
ids_apart zero zero li lj e = refl
ids_apart zero (suc zero) li lj e = cc
ids_apart zero (suc (suc j)) li lj e = absurd (too_large j lj)
ids_apart (suc zero) zero li lj e = cc
ids_apart (suc zero) (suc zero) li lj e = refl
ids_apart (suc zero) (suc (suc j)) li lj e = absurd (too_large j lj)
ids_apart (suc (suc i)) j li lj e = absurd (too_large i li)

zero_or_one :
    (i : ℕ)
    → i < 2
    → ((customer_array [] two_customers i).class_type ≡ pos 0)
      ⊎ ((customer_array [] two_customers i).class_type ≡ pos 1)
zero_or_one zero l = inl refl
zero_or_one (suc zero) l = inr refl
zero_or_one (suc (suc i)) l = absurd (too_large i l)

two_customers-IsFile : IsFile [] 2 two_customers
two_customers-IsFile = record { distinct_ids = ids_apart; two_classes = zero_or_one }

abbrev addresses : ℕ → ℕ
addresses i = i + 16

addresses-IsFresh : IsFresh addresses
addresses-IsFresh = record {
  distinct = λ i j e. omega (arith, e);
  allocated = λ i e. omega (arith, e);
}

abbrev shared : Setup
shared = setup_of [] 2 two_customers addresses

-- The first customer has entered the economy queue.
abbrev one_entered : System
one_entered = record {
  desk =
      put_class (λ c. start_desk) economy
        (record {
          nodes = store (λ p. none) 16 (record { customer = 2; next = 0 });
          queue = record { head = 16; tail = 16; size = 1 };
          queue_length = 1;
          queue_status = 0;
          winner_selected = 0;
        });
  owner = put_class (λ c. none) economy (some 0);
  num_customers = λ c. 0;
  customer = put (λ i. arriving) 0 entered;
  clerk = λ k. requesting;
  request_owner = none;
}

one_entered-Reach : Reach shared one_entered
unfolding customer_entry enters_queue enter queue_enqueue
one_entered-Reach = acts start (customer_acts 0 1 (inr (λ j lo hi e. cc)) refl)

main-no_fault_example :
    (main as_text [] (some (some file)) addresses ≡ ok (started (1 ∷ 2 ∷ 3 ∷ 4 ∷ 5 ∷ []) 2 shared))
    × ((t : System) × (customer_entry shared one_entered 1 1 ≡ ok t))
main-no_fault_example =
    main-no_fault [] as_text file addresses 1 1 file-read (omega arith) (omega arith)
      two_customers-IsFile addresses-IsFresh one_entered-Reach (omega arith)
