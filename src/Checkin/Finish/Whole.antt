-- ===== src/Checkin/Finish/Whole.antt =====
-- a2/A2.c from the customer file to the averages.
use csc.Base.{
  false, ℕ, ◌+◌, ◌≤◌, ◌<◌, ◌≡◌, ◌↔◌, refl, sym, ◌∙◌, inl, inr, pos, Bool-cases, List, [], ◌∷◌,
  length, some, ok, ◌==◌, if◌then◌else◌, arith, sum_below, sum_below-change, sum_below-all,
  sum_below-add,
}
use csc.Checkin.Queue.{Pointer}
use csc.Checkin.Input.{Customer, max_size, read_file}
use csc.Checkin.Threads.{Class, economy, business, class_of, Setup}
use csc.Checkin.Threads.Runs.{IsClassed}
use csc.Checkin.Main.{started, setup_of, main}
use csc.Checkin.Main.Starts.{IsFile, classed_lt, lt-IsClassed, main-starts}
use csc.Checkin.Finish.{Doubles, Program, Time, Plays, finished}
use csc.Checkin.Finish.History.{visits_of}
use csc.Checkin.Finish.Visits.{IsAmong, Once}
use csc.Checkin.Finish.Averages.{Averaged, Plays-Averaged}

module _ (doubles : Doubles) where
  open doubles use {Double}

  -- 1 for a customer that is among the visits, else 0.
  abbrev occurs : List (ℕ × Double) → ℕ → ℕ
  occurs [] i = 0
  occurs ((j, end) ∷ visits) i = if i == j then 1 else occurs visits i

  occurs-IsAmong :
      (i : ℕ) (visits : List (ℕ × Double)) → IsAmong doubles i visits → occurs visits i ≡ 1
  occurs-IsAmong i [] among = absurd among
  occurs-IsAmong i ((j, end) ∷ visits) (inl same) = ground (arith, same)
  occurs-IsAmong i ((j, end) ∷ visits) (inr among) =
      let rest = occurs-IsAmong i visits among in ground (arith, rest)

  occurs-missing :
      (i : ℕ) (visits : List (ℕ × Double)) → (IsAmong doubles i visits → ⊥) → occurs visits i ≡ 0
  occurs-missing i [] missing = refl
  occurs-missing i ((j, end) ∷ visits) missing = elim (Bool-cases (i == j)) [
    | inl same ↦ let e : i ≡ j = ground arith in absurd (missing (inl e))
    | inr other ↦ rw other (occurs-missing i visits (λ among. missing (inr among)))
  ]

  -- As many visits as customers that occur in them.
  sum_below-occurs :
      (n : ℕ) (visits : List (ℕ × Double))
      → Once doubles visits
      → ((i : ℕ) → IsAmong doubles i visits → i < n)
      → sum_below (occurs visits) n ≡ length visits
  sum_below-occurs n [] once below =
      let none_there = sum_below-all (occurs []) n 0 (λ k lt. refl) in omega (arith, none_there)
  sum_below-occurs n ((j, end) ∷ visits) (apart, once) below =
      let rest = sum_below-occurs n visits once (λ i among. below i (inr among)) in
      let new = occurs-missing j visits apart in
      let here = occurs-IsAmong j ((j, end) ∷ visits) (inl refl) in
      let change =
        sum_below-change (occurs visits) (occurs ((j, end) ∷ visits)) j n (below j (inl refl))
          (λ k other. let off : (k == j) ≡ false = ground (arith, other) in rw off refl) in
      omega (arith, rest, new, here, change)

  module _ (setup : Setup) {n : ℕ} (visits : Class → List (ℕ × Double))
      (once : (c : Class) → Once doubles (visits c))
      (of_class : (c : Class) (i : ℕ)
        → IsAmong doubles i (visits c) ↔ (class_of (setup.class_type i) ≡ some c))
      (below : (i : ℕ) → IsClassed setup i → i < n)
      (classed : (i : ℕ) → i < n → IsClassed setup i) where
    one_each : (i : ℕ) → i < n → occurs (visits business) i + occurs (visits economy) i ≡ 1
    one_each i lt = in_class (classed i lt)
      where
        in_class : IsClassed setup i → occurs (visits business) i + occurs (visits economy) i ≡ 1
        in_class (business, at) =
            let b = occurs-IsAmong i (visits business) ((of_class business i).1 at) in
            let e = occurs-missing i (visits economy) (λ among.
              let clash : some business ≡ some economy = sym at ∙ (of_class economy i).0 among in
              cc) in
            omega (arith, b, e)
        in_class (economy, at) =
            let e = occurs-IsAmong i (visits economy) ((of_class economy i).1 at) in
            let b = occurs-missing i (visits business) (λ among.
              let clash : some economy ≡ some business = sym at ∙ (of_class business i).0 among in
              cc) in
            omega (arith, b, e)

    length-visits : length (visits business) + length (visits economy) ≡ n
    length-visits =
        let b =
          sum_below-occurs n (visits business) (once business)
            (λ i among. below i (business, (of_class business i).0 among)) in
        let e =
          sum_below-occurs n (visits economy) (once economy)
            (λ i among. below i (economy, (of_class economy i).0 among)) in
        let both = sum_below-add (occurs (visits business)) (occurs (visits economy)) n in
        let all =
          sum_below-all (λ i. occurs (visits business) i + occurs (visits economy) i) n 1
            one_each in
        omega (arith, b, e, both, all)

-- Where the file is read without a fault and announces 1 to 1024 customers, and so many elements of
-- `customerArray` have ids of their own and the class 0 or 1: `main` starts the threads of the clerks 1
-- to 5 and of these customers; and in every execution from there on in which `main` comes to its end,
-- the visits to the two queues are one for each of these customers, as many as there are, and the
-- averages that are printed are those of the waits of these visits.
pub main-Averaged :
    {Float : Type 0} (doubles : Doubles) (zero_time : Float) {n : ℕ}
    {customers : List (Customer Float)} {init_time : Time} {p : Program doubles}
    (atof : List ℕ → Float) (lines : List (List ℕ)) (address : ℕ → Pointer)
    → read_file atof lines ≡ ok (pos n, customers)
    → 0 < n
    → n ≤ max_size
    → IsFile zero_time n customers
    → (plays : Plays doubles init_time (setup_of zero_time n customers address) n p)
    → p.main ≡ finished
    → (main atof zero_time (some (some lines)) address
        ≡ ok (started (1 ∷ 2 ∷ 3 ∷ 4 ∷ 5 ∷ []) n (setup_of zero_time n customers address)))
      × Averaged doubles plays
      × (length (visits_of doubles plays business) + length (visits_of doubles plays economy) ≡ n)
main-Averaged doubles zero_time {n} {customers} atof lines address read some_customer small v plays
      over =
    let averaged = Plays-Averaged doubles (classed_lt zero_time v address) plays over in
    (
      main-starts zero_time atof lines address read some_customer small,
      averaged,
      length-visits doubles (setup_of zero_time n customers address) (visits_of doubles plays)
          averaged.once averaged.of_class (classed_lt zero_time v address)
          (lt-IsClassed zero_time v address),
    )
