-- ===== src/Checkin/Desk/Sections.antt =====
-- The nodes behind each section of a2/A2.c, and that a section of a customer in line has no fault.
use csc.Base.{
  ℕ, ◌+◌, ◌≡◌, ◌≢◌, refl, sym, ap, ◌∙◌, List, [], ◌∷◌, ◌++◌, Option, none, some, ◌==◌, ◌&&◌, inl,
  inr, Bool-cases, Option-cases, false, arith, ok, returns_both, ok-injective,
}
use csc.Checkin.Queue.{
  Pointer, null, Node, Nodes, Queue, create_node, read, queue_enqueue, queue_dequeue, check_head,
}
use csc.Checkin.Queue.Chain.{Cell, queue_enqueue-append}
use csc.Checkin.Desk.{Desk, enter, wake, customers, IsIn, Reached, enters, is_taken}
use csc.Checkin.Desk.Line.{InLine, wake-Woken, in_line, Reached-InLine}

read-some : (nodes : Nodes) (p : Pointer) {n : Node} → read nodes p ≡ ok n → nodes p ≡ some n
unfolding read
read-some nodes p e = elim (Bool-cases (p == null)) [
  | inl at_null ↦ let e' : _ = rw at_null at e in cc
  | inr there ↦ elim (Option-cases (nodes p)) [
    | inl missing ↦ let e' : _ = rw (there, missing) at e in cc
    | inr (n, found) ↦ let e' : _ = rw (there, found) at e in cc
  ]
]

-- An address that is not allocated stays so when another node is stored.
enqueue_none :
    (nodes : Nodes) (queue : Queue) (node p : Pointer) {r : Nodes × Queue}
    → queue_enqueue nodes queue node ≡ ok r
    → nodes p ≡ none
    → r.0 p ≡ none
unfolding queue_enqueue
enqueue_none nodes queue node p run e = elim (Bool-cases (queue.size == 0)) [
  | inl empty ↦
      let same = ok-injective (rw empty at run) in ap (λ (r : Nodes × Queue). r.0 p) (sym same) ∙ e
  | inr more ↦
      let (last, found, rest) = returns_both (read nodes queue.tail) _ (rw more at run) in
      let there = read-some nodes queue.tail found in
      let apart : (queue.tail == p) ≡ false = ground (arith, there, e) in
      ap (λ (r : Nodes × Queue). r.0 p) (sym (ok-injective rest)) ∙ rw apart e
]

-- A customer who enters at an address that is not allocated.
pub enter-Reached :
    {d : Desk} {entered : List ℕ} {taken : List (ℕ × ℕ)} {calls : ℕ} (id : ℕ) (fresh : Pointer)
    → Reached d entered taken calls
    → fresh ≢ null
    → d.nodes fresh ≡ none
    → (d' : Desk) × (enter d fresh id ≡ ok d')
      × Reached d' (entered ++ (id ∷ [])) taken calls
      × ((p : Pointer) → p ≢ fresh → d.nodes p ≡ none → d'.nodes p ≡ none)
unfolding enter
enter-Reached {d} id fresh r ne unused =
    let (cells, v) = Reached-InLine r in
    let (nodes', queue', put, v') = queue_enqueue-append cells fresh id v.holds ne unused in
    let d' : Desk = record d {
      nodes = nodes';
      queue = queue';
      queue_length = d.queue_length + 1;
    } in
    let run : enter d fresh id ≡ ok d' = rw put in
    (
      d',
      run,
      enters id fresh r ne unused run,
      λ p apart e.
          enqueue_none (create_node d.nodes fresh id) d.queue fresh p put
            (let other : (fresh == p) ≡ false = ground arith in rw other e),
    )

-- What a round of the wait loop leads to.
pub data Round (id : ℕ) (d : Desk) (entered : List ℕ) (taken : List (ℕ × ℕ)) (calls : ℕ)
    : Option ℕ × Desk → Type 0 where
  takes :
      {clerk : ℕ} {d' : Desk}
      → d'.nodes ≡ d.nodes
      → Reached d' entered (taken ++ ((id, clerk) ∷ [])) calls
      → Round id d entered taken calls (some clerk, d')
  again : Round id d entered taken calls (none, d)

wake-nodes :
    (d : Desk) (id : ℕ) {clerk : ℕ} {d' : Desk}
    → wake d id ≡ ok (some clerk, d')
    → d'.nodes ≡ d.nodes
unfolding wake
wake-nodes d id run =
    let (at_head, found, next) = returns_both (check_head d.nodes d.queue id) _ run in
    elim (Bool-cases (at_head && (d.winner_selected == 0))) [
      | inl turn ↦
          let (queue', removed, next') =
            returns_both (queue_dequeue d.nodes d.queue) _ (rw turn at next) in
          ap (λ (p : Option ℕ × Desk). p.1.nodes) (sym (ok-injective next'))
      | inr other ↦ let e : _ = rw other at next in cc
    ]

-- A customer in line comes through the round with no fault.
pub wake-Round :
    {d : Desk} {entered : List ℕ} {taken : List (ℕ × ℕ)} {calls : ℕ} (id : ℕ)
    → Reached d entered taken calls
    → IsIn id entered
    → (IsIn id (customers taken) → ⊥)
    → (o : Option ℕ) × (d' : Desk) × (wake d id ≡ ok (o, d'))
      × Round id d entered taken calls (o, d')
wake-Round {d} {entered} {taken} {calls} id r there out =
    let (cells, v) = Reached-InLine r in from_line cells v
  where
    from_line :
        (cells : List Cell)
        → InLine d entered taken calls cells
        → (o : Option ℕ) × (d' : Desk) × (wake d id ≡ ok (o, d'))
          × Round id d entered taken calls (o, d')
    from_line [] v = absurd (in_line id [] v there out refl)
    from_line (c ∷ cells) v =
        let (d₁, woken, v₁, less, won) = wake-Woken d id c cells v.holds in
        elim (Bool-cases ((id == c.customer) && (d.winner_selected == 0))) [
          | inl turn ↦
              let run : wake d id ≡ ok (some d.queue_status, d₁) = woken ∙ rw turn in
              (
                some d.queue_status,
                d₁,
                run,
                takes (wake-nodes d id run) (is_taken id d.queue_status r there out run),
              )
          | inr other ↦ (none, d, woken ∙ rw other, again)
        ]
