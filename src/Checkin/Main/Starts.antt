-- ===== src/Checkin/Main/Starts.antt =====
-- The threads that `main` of a2/A2.c starts for a customer file run without faults.
use csc.Base.{
  ℕ, ◌+◌, ◌*◌, ◌≤◌, ◌<◌, ◌≡◌, ◌≢◌, refl, sym, ap, ◌⊎◌, inl, inr, ℤ, pos, negsuc, true, Bool-cases,
  List, [], ◌∷◌, some, ltb, leb, ◌&&◌, arith, ok,
}
use csc.Checkin.Queue.{Pointer, null}
use csc.Checkin.Input.{Customer, max_size, read_file}
use csc.Checkin.Threads.{economy, business, System, customer_entry}
use csc.Checkin.Threads.Runs.{IsClassed, IsSetup, Reach}
use csc.Checkin.Threads.Safety.{Reach-no_fault}
use csc.Checkin.Main.{number, thread_count, started, customer_array, setup_of, main}

-- `malloc` returns addresses of their own.
pub record IsFresh (address : ℕ → Pointer) : Type 0 where
  pub distinct : (i j : ℕ) → address i ≡ address j → i ≡ j
  pub allocated : (i : ℕ) → address i ≢ null

parity : (a b : ℕ) → 2 * a ≡ 2 * b + 1 → ⊥
parity a b e = omega (arith, e)

number-injective : (a b : ℤ) → number a ≡ number b → a ≡ b
number-injective (pos a) (pos b) e = let same : a ≡ b = omega (arith, e) in ap pos same
number-injective (pos a) (negsuc b) e = absurd (parity a b e)
number-injective (negsuc a) (pos b) e = absurd (parity b a (sym e))
number-injective (negsuc a) (negsuc b) e = let same : a ≡ b = omega (arith, e) in ap negsuc same

module _ {Float : Type 0} (zero_time : Float) where
  -- The first `n` elements of `customerArray` have ids of their own and one of the two classes.
  pub record IsFile (n : ℕ) (customers : List (Customer Float)) : Type 0 where
    pub distinct_ids :
        (i j : ℕ)
        → i < n
        → j < n
        → (customer_array zero_time customers i).id ≡ (customer_array zero_time customers j).id
        → i ≡ j
    pub two_classes :
        (i : ℕ)
        → i < n
        → ((customer_array zero_time customers i).class_type ≡ pos 0)
          ⊎ ((customer_array zero_time customers i).class_type ≡ pos 1)

  module _ {n : ℕ} {customers : List (Customer Float)} (v : IsFile n customers)
      (address : ℕ → Pointer) where
    pub classed_lt : (i : ℕ) → IsClassed (setup_of zero_time n customers address) i → i < n
    classed_lt i (c, e) = elim (Bool-cases (ltb i n)) [
      | inl lt ↦ ground (arith, lt)
      | inr ge ↦ let e' : _ = rw ge at e in cc
    ]

    pub lt-IsClassed : (i : ℕ) → i < n → IsClassed (setup_of zero_time n customers address) i
    lt-IsClassed i lt =
        let there : ltb i n ≡ true = ground (arith, lt) in
        elim (v.two_classes i lt) [
          | inl zero_class ↦ (economy, rw (there, zero_class) refl)
          | inr one_class ↦ (business, rw (there, one_class) refl)
        ]

    pub setup_of-IsSetup : IsFresh address → IsSetup (setup_of zero_time n customers address)
    setup_of-IsSetup fresh = record {
      distinct_ids = λ i j k l e.
          v.distinct_ids i j (classed_lt i k) (classed_lt j l) (number-injective _ _ e);
      distinct_nodes = fresh.distinct;
      allocated = fresh.allocated;
    }

  pub main-starts :
      {n : ℕ} {customers : List (Customer Float)} (atof : List ℕ → Float) (lines : List (List ℕ))
      (address : ℕ → Pointer)
      → read_file atof lines ≡ ok (pos n, customers)
      → 0 < n
      → n ≤ max_size
      → main atof zero_time (some (some lines)) address
        ≡ ok (started (1 ∷ 2 ∷ 3 ∷ 4 ∷ 5 ∷ []) n (setup_of zero_time n customers address))
  unfolding main thread_count
  main-starts {n} atof lines address read some_customer small =
      let room : (ltb 0 n && leb n max_size) ≡ true = ground (arith, some_customer, small) in
      rw (read, room) refl

  -- Where the file is read without a fault and announces 1 to 1024 customers, so many elements of
  -- `customerArray` have ids of their own and the class 0 or 1, and `malloc` returns addresses of
  -- their own that are not NULL: `main` starts the threads of the clerks 1 to 5 and of these
  -- customers, and in every state that the threads reach, in whatever order and whenever waits
  -- return early, the next step of each of these customers has no fault.
  pub main-no_fault :
      {n : ℕ} {customers : List (Customer Float)} {s : System} (atof : List ℕ → Float)
      (lines : List (List ℕ)) (address : ℕ → Pointer) (i k : ℕ)
      → read_file atof lines ≡ ok (pos n, customers)
      → 0 < n
      → n ≤ max_size
      → IsFile n customers
      → IsFresh address
      → Reach (setup_of zero_time n customers address) s
      → i < n
      → (main atof zero_time (some (some lines)) address
          ≡ ok (started (1 ∷ 2 ∷ 3 ∷ 4 ∷ 5 ∷ []) n (setup_of zero_time n customers address)))
        × ((t : System) × (customer_entry (setup_of zero_time n customers address) s i k ≡ ok t))
  main-no_fault atof lines address i k read some_customer small v fresh r lt = (
    main-starts atof lines address read some_customer small,
    Reach-no_fault i k (setup_of-IsSetup v address fresh) (lt-IsClassed v address i lt) r,
  )
