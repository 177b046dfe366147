-- ===== src/Checkin/Input.antt =====
-- The customer file of a2/A2.c: `addCustomertoList`, and the loop of `main` over the file's lines.
-- `atof` is the C library's.
pub mod Fields
use csc.Base.{
  ℕ, zero, suc, ◌+◌, ℤ, pos, negsuc, Bool, true, false, List, [], ◌∷◌, Option, none, some, ltb,
  ◌==◌, if◌then◌else◌, length, get_elem?, Run, ok, fault, ◌>>=◌,
}
use csc.Text.{tokens, strtol, to_int}

-- `customer`, over the type of `float`
pub record Customer (Float : Type 0) : Type 0 where
  pub id : ℤ
  pub class_type : ℤ
  pub service_time : Float
  pub arrival_time : Float

-- `MAX_SIZE`
abbrev pub max_size : ℕ
max_size = 1024

-- An element of an array of pointers that was set.
unfoldable pub value_at : List (List ℕ) → ℕ → Run (List ℕ)
value_at values i = elim (get_elem? values i) [ none ↦ fault | some text ↦ ok text ]

-- `strlen(line)` behind the first `strtok`: the separators in front, and the first token.
abbrev pub leading : ℕ → List ℕ → ℕ
leading separator [] = 0
leading separator (b ∷ bs) = if b == separator then suc (leading separator bs) else 0

abbrev pub first_length : List (List ℕ) → ℕ
first_length [] = 0
first_length (t ∷ ts) = length t

-- Whether an `int` lies below another, the first from 0 on.
abbrev pub below : ℕ → ℤ → Bool
below index (pos n) = ltb index n
below index (negsuc n) = false

module _ {Float : Type 0} (atof : List ℕ → Float) where
  -- The `values` array has `strlen(line)` elements, and `temp` has 2.
  unfoldable pub add_customer_to_list : List ℕ → Run (Customer Float)
  unfolding value_at
  add_customer_to_list line = do
    let values = tokens b',' line
    if ltb (leading b',' line + first_length values) (length values) then fault else do
      identity ← value_at values 0
      let temp = tokens b':' identity
      if ltb 2 (length temp) then fault else do
        id ← value_at temp 0
        class_type ← value_at temp 1
        arrival_time ← value_at values 1
        service_time ← value_at values 2
        ok (record {
          id = to_int (strtol id);
          class_type = to_int (strtol class_type);
          arrival_time = atof arrival_time;
          service_time = atof service_time;
        })

  -- The lines behind the first one; `index` customers are stored.
  unfoldable pub read_lines : ℤ → ℕ → List (List ℕ) → Run (List (Customer Float))
  unfolding add_customer_to_list
  read_lines num_customers index [] = ok []
  read_lines num_customers index (line ∷ lines) = elim (below index num_customers) [
    | true ↦
        if ltb index max_size
        then (do
          customer ← add_customer_to_list line
          rest ← read_lines num_customers (index + 1) lines
          ok (customer ∷ rest))
        else fault
    | false ↦ ok []
  ]

  -- The number of customers and the customers that are stored. An empty file sets no number.
  unfoldable pub read_file : List (List ℕ) → Run (ℤ × List (Customer Float))
  unfolding read_lines
  read_file [] = fault
  read_file (line ∷ lines) = do
    customers ← read_lines (to_int (strtol line)) 0 lines
    ok (to_int (strtol line), customers)
