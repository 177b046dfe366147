-- ===== src/Checkin/Main.antt =====
-- `main` of a2/A2.c up to the start of its threads: from the customer file to what the threads share.
-- `atof` is the C library's, and `zero_time` the `float` that a global starts with.
pub mod Starts
mod Tests
use csc.Base.{
  ℕ, zero, suc, ◌+◌, ◌*◌, ℤ, pos, negsuc, Bool, List, [], ◌∷◌, Option, none, some, ltb, leb, ◌&&◌,
  if◌then◌else◌, get_or, Run, ok, fault, ◌>>=◌,
}
use csc.Checkin.Queue.{Pointer}
use csc.Checkin.Input.{Customer, max_size, read_file}
use csc.Checkin.Threads.{Setup}

-- `createClerkArray`: the ids that its loop stores, of which `rounds` are left.
abbrev pub clerk_loop : (rounds i : ℕ) → List ℕ
clerk_loop zero i = []
clerk_loop (suc rounds) i = i ∷ clerk_loop rounds (i + 1)

abbrev pub create_clerk_array : List ℕ
create_clerk_array = clerk_loop 5 1

-- Numbers for the ids, which the threads only compare: different ids have different numbers.
abbrev pub number : ℤ → ℕ
number (pos n) = 2 * n
number (negsuc n) = 2 * n + 1

-- The number of customer threads. `customer_threads` has that many elements, of which there must be one,
-- and each thread is given its element of `customerArray`.
unfoldable pub thread_count : ℤ → Run ℕ
thread_count (pos n) = if ltb 0 n && leb n max_size then ok n else fault
thread_count (negsuc n) = fault

-- No argument, or the threads of the clerks and of the customers.
pub data Started (Float : Type 0) : Type 0 where
  no_argument : Started Float
  started : (clerks : List ℕ) (customers : ℕ) (setup : Setup) → Started Float

module _ {Float : Type 0} (zero_time : Float) where
  abbrev pub zero_customer : Customer Float
  zero_customer = record {
    id = pos 0;
    class_type = pos 0;
    service_time = zero_time;
    arrival_time = zero_time;
  }

  -- `customerArray`, whose elements are zero before `addCustomertoList` stores to them.
  abbrev pub customer_array : List (Customer Float) → ℕ → Customer Float
  customer_array customers i = get_or customers i zero_customer

  -- What the threads work on. There is no thread behind the first `n`: a class without a queue, with
  -- which a customer takes no step, stands for that.
  abbrev pub setup_of : ℕ → List (Customer Float) → (ℕ → Pointer) → Setup
  setup_of n customers address = record {
    id = λ i. number (customer_array customers i).id;
    class_type = λ i. if ltb i n then (customer_array customers i).class_type else pos 2;
    address = address;
  }

-- `main`, with the file that its argument names, if it has one, and the addresses that `malloc` will
-- return for the nodes. `fopen` is not checked, and `fgets` reads through NULL where it fails.
unfoldable pub main :
    {Float : Type 0} (atof : List ℕ → Float) (zero_time : Float)
    → Option (Option (List (List ℕ)))
    → (ℕ → Pointer)
    → Run (Started Float)
unfolding read_file thread_count
main atof zero_time none address = ok no_argument
main atof zero_time (some none) address = fault
main atof zero_time (some (some lines)) address = do
  file ← read_file atof lines
  n ← thread_count file.0
  ok (started create_clerk_array n (setup_of zero_time n file.1 address))
