-- ===== src/Checkin/Input/Fields.antt =====
-- What `addCustomertoList` of a2/A2.c reads from the lines of a customer file.
use csc.Base.{
  ℕ, zero, suc, ◌+◌, ◌-◌, ◌≤◌, ◌≡◌, ◌≢◌, refl, sym, ap, ◌∙◌, pos, List, [], ◌∷◌, ◌++◌, append-nil,
  ltb, ◌==◌, length, length-append, take, arith, inl, inr, Bool-cases, true, false, ok,
}
use csc.Text.{tokens, strtol, to_int}
use csc.Text.Tokens.{Without, IsWord, tokens-words}
use csc.Checkin.Input.{Customer, value_at, leading, max_size, add_customer_to_list, read_lines}

-- `id:class,arrival,service`
abbrev pub identity : List ℕ → List ℕ → List ℕ
identity id class_type = id ++ (b':' ∷ class_type)

abbrev pub customer_line : (id class_type arrival service : List ℕ) → List ℕ
customer_line id class_type arrival service =
    identity id class_type ++ (b',' ∷ (arrival ++ (b',' ∷ service)))

leading-word :
    (separator : ℕ) (w rest : List ℕ) → IsWord separator w → leading separator (w ++ rest) ≡ 0
leading-word separator [] rest h = absurd (h.0 refl)
leading-word separator (b ∷ w) rest h =
    let other : (b == separator) ≡ false = ground (arith, h.1.0) in rw other

Without-append :
    (separator : ℕ) (v w : List ℕ)
    → Without separator v
    → Without separator w
    → Without separator (v ++ w)
Without-append separator [] w h g = g
Without-append separator (b ∷ v) w h g = (h.0, Without-append separator v w h.1 g)

not_empty : (v : List ℕ) (b : ℕ) (w : List ℕ) → v ++ (b ∷ w) ≢ []
not_empty [] b w e = cc
not_empty (a ∷ v) b w e = cc

length-word : (separator : ℕ) (w : List ℕ) → IsWord separator w → 1 ≤ length w
length-word separator [] h = absurd (h.0 refl)
length-word separator (b ∷ w) h = omega arith

module _ {Float : Type 0} (atof : List ℕ → Float) (id class_type arrival service : List ℕ)
    (id_word : IsWord b':' id) (class_word : IsWord b':' class_type) (no_comma_id : Without b',' id)
    (no_comma_class : Without b',' class_type) (arrival_word : IsWord b',' arrival)
    (service_word : IsWord b',' service) where
  identity-IsWord : IsWord b',' (identity id class_type)
  identity-IsWord = (
    not_empty id b':' class_type,
    Without-append b',' id (b':' ∷ class_type) no_comma_id (omega arith, no_comma_class),
  )

  tokens-customer_line :
      tokens b',' (customer_line id class_type arrival service)
      ≡ identity id class_type ∷ arrival ∷ service ∷ []
  tokens-customer_line =
      ap (λ s. tokens b',' (identity id class_type ++ (b',' ∷ (arrival ++ (b',' ∷ s)))))
        (sym (append-nil service))
      ∙ tokens-words b',' 0 0 (identity id class_type) ((0, arrival) ∷ (0, service) ∷ [])
          (identity-IsWord, (arrival_word, (service_word, tt)))

  tokens-identity : tokens b':' (identity id class_type) ≡ id ∷ class_type ∷ []
  tokens-identity =
      ap (λ s. tokens b':' (id ++ (b':' ∷ s))) (sym (append-nil class_type))
      ∙ tokens-words b':' 0 0 id ((0, class_type) ∷ []) (id_word, (class_word, tt))

  values_fit :
      ltb
        (leading b',' (customer_line id class_type arrival service)
          + length (identity id class_type))
        3
      ≡ false
  values_fit =
      rw
        (
          leading-word b',' (identity id class_type) (b',' ∷ (arrival ++ (b',' ∷ service)))
              identity-IsWord,
          length-append id (b':' ∷ class_type),
        )
        (ground (arith, length-word b':' id id_word, length-word b':' class_type class_word))

  -- From a line `id:class,arrival,service` whose fields are not empty and hold no comma, and no colon
  -- in the first two, `addCustomertoList` stores a customer with these four values, and stays inside
  -- its two arrays.
  pub add_customer-fields :
      add_customer_to_list atof (customer_line id class_type arrival service)
      ≡ ok (record {
        id = to_int (strtol id);
        class_type = to_int (strtol class_type);
        service_time = atof service;
        arrival_time = atof arrival;
      })
  unfolding add_customer_to_list value_at
  add_customer-fields = rw (tokens-customer_line, values_fit, tokens-identity)

-- Each line is that of a customer.
abbrev pub Parsed : {F : Type 0} → (List ℕ → F) → List (List ℕ) → List (Customer F) → Type 0
Parsed atof [] [] = Unit
Parsed atof [] (c ∷ cs) = ⊥
Parsed atof (line ∷ lines) [] = ⊥
Parsed atof (line ∷ lines) (c ∷ cs) = (add_customer_to_list atof line ≡ ok c) × Parsed atof lines cs

module _ {Float : Type 0} (atof : List ℕ → Float) where
  take_nil : (k : ℕ) → ◌≡◌ {A = List (Customer Float)} [] (take k [])
  take_nil zero = refl
  take_nil (suc k) = refl

  -- Where each line is that of a customer, the number that the first line names is not negative,
  -- and the customers stored and the lines left are at most 1024 together, the loop of `main`
  -- stores the customers of the lines in order, up to that number.
  pub read_lines-take :
      (n index : ℕ) (lines : List (List ℕ)) (cs : List (Customer Float))
      → Parsed atof lines cs
      → index + length lines ≤ max_size
      → read_lines atof (pos n) index lines ≡ ok (take (n - index) cs)
  unfolding read_lines
  read_lines-take n index [] [] e h = ap ok (take_nil (n - index))
  read_lines-take n index [] (c ∷ cs) e h = absurd e
  read_lines-take n index (line ∷ lines) [] e h = absurd e
  read_lines-take n index (line ∷ lines) (c ∷ cs) (parsed, later) h =
      let room : ltb index max_size ≡ true = ground arith in
      elim (Bool-cases (ltb index n)) [
        | inl more ↦
            let one_more : n - index ≡ suc (n - (index + 1)) = ground arith in
            rw (
              more,
              read_lines,
              room,
              parsed,
              read_lines-take n (index + 1) lines cs later (omega arith),
              one_more,
            )
        | inr full ↦
            let none_left : n - index ≡ 0 = ground arith in rw (full, none_left, read_lines)
      ]
