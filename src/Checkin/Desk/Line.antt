-- ===== src/Checkin/Desk/Line.antt =====
-- Behind any sequence of sections, the queue of a2/A2.c holds the customers that wait, in order.
use csc.Base.{
  ℕ, suc, ◌+◌, ◌-◌, ◌≤◌, ◌≡◌, ◌≢◌, refl, sym, ap, subst, ◌∙◌, List, [], ◌∷◌, ◌++◌, append_assoc,
  map, Option, none, some, ◌==◌, ◌&&◌, if◌then◌else◌, ok, Run, length, length-append, arith, true,
  inl, inr, Bool-cases, ok-injective,
}
use csc.Checkin.Queue.{Pointer, null}
use csc.Checkin.Queue.Chain.{
  Cell, cell, IsQueue, queue_enqueue-append, queue_dequeue-rest, check_head-first,
}
use csc.Checkin.Desk.{
  Desk, enter, wake, call, clear, customers, IsIn, Reached, starts, enters, is_taken, waits_again,
  calls_queue, clears,
}

abbrev pub ids : List Cell → List ℕ
ids = map Cell.customer

-- Behind a sequence of sections: the queue holds the customers that have entered and were not yet
-- taken, in order, and the globals agree.
pub record InLine (d : Desk) (entered : List ℕ) (taken : List (ℕ × ℕ)) (calls : ℕ)
    (cells : List Cell) : Type 0 where
  pub holds : IsQueue d.nodes d.queue cells
  pub order : entered ≡ customers taken ++ ids cells
  pub counted : d.queue_length ≡ length cells
  pub few : length taken ≤ calls + (if d.winner_selected == 0 then 0 else 1)

ids-append : (cs : List Cell) (c : Cell) → ids (cs ++ (c ∷ [])) ≡ ids cs ++ (c.customer ∷ [])
ids-append [] c = refl
ids-append (b ∷ cs) c = ap (λ r. b.customer ∷ r) (ids-append cs c)

pub customers-append :
    (ts : List (ℕ × ℕ)) (id clerk : ℕ)
    → customers (ts ++ ((id, clerk) ∷ [])) ≡ customers ts ++ (id ∷ [])
customers-append [] id clerk = refl
customers-append ((i, k) ∷ ts) id clerk = ap (λ r. i ∷ r) (customers-append ts id clerk)

pub length-ids : (cs : List Cell) → length (ids cs) ≡ length cs
length-ids [] = refl
length-ids (c ∷ cs) = ap suc (length-ids cs)

-- What a round of the wait loop does where some customer is queued.
abbrev pub Woken : Desk → ℕ → Cell → List Cell → Type 0
Woken d id c cells =
    (d' : Desk) × (wake d id
      ≡ ok (
          if (id == c.customer) && (d.winner_selected == 0)
          then (some d.queue_status, d')
          else (none, d)))
    × IsQueue d'.nodes d'.queue cells
    × (d'.queue_length ≡ d.queue_length - 1)
    × (d'.winner_selected ≡ 1)

pub wake-Woken :
    (d : Desk) (id : ℕ) (c : Cell) (cells : List Cell)
    → IsQueue d.nodes d.queue (c ∷ cells)
    → Woken d id c cells
unfolding wake
wake-Woken d id c cells v =
    let (queue', removed, v') = queue_dequeue-rest c cells v in
    (
      record d { queue = queue'; queue_length = d.queue_length - 1; winner_selected = 1 },
      rw (check_head-first c cells id v)
          (elim (Bool-cases ((id == c.customer) && (d.winner_selected == 0))) [
            | inl turn ↦ rw (turn, removed)
            | inr other ↦ rw other
          ]),
      v',
      refl,
      refl,
    )

IsIn-behind : (x : ℕ) (as_ bs : List ℕ) → IsIn x (as_ ++ bs) → (IsIn x as_ → ⊥) → IsIn x bs
IsIn-behind x [] bs h out = h
IsIn-behind x (a ∷ as_) bs (inl e) out = absurd (out (inl e))
IsIn-behind x (a ∷ as_) bs (inr h) out = IsIn-behind x as_ bs h (λ i. out (inr i))

-- A round of a customer who is first in line, and who is not.
InLine-taken :
    {d d' : Desk} {entered : List ℕ} {taken : List (ℕ × ℕ)} {calls : ℕ} (id clerk : ℕ) (c : Cell)
    (cells : List Cell)
    → InLine d entered taken calls (c ∷ cells)
    → wake d id ≡ ok (some clerk, d')
    → InLine d' entered (taken ++ ((id, clerk) ∷ [])) calls cells
InLine-taken {d} {d'} {entered} {taken} {calls} id clerk c cells v run =
    let (d₁, woken, v₁, one_less, won) = wake-Woken d id c cells v.holds in
    elim (Bool-cases ((id == c.customer) && (d.winner_selected == 0))) [
      | inl turn ↦
          let e : Path (Run (Option ℕ × Desk)) (ok (some clerk, d'))
              (ok (some d.queue_status, d₁)) =
            sym run ∙ (rw turn at woken) in
          let same : d₁ ≡ d' = sym (ap (λ (p : Option ℕ × Desk). p.1) (ok-injective e)) in
          let first : id ≡ c.customer = ground arith in
          let free : (d.winner_selected == 0) ≡ true = ground arith in
          let few : length taken ≤ calls + (if d.winner_selected == 0 then 0 else 1) = v.few in
          subst (λ d'. InLine d' entered (taken ++ ((id, clerk) ∷ [])) calls cells) same
            (record {
              holds = v₁;
              order =
                  v.order
                  ∙ rw (
                    customers-append taken id clerk,
                    first,
                    append_assoc (customers taken) (c.customer ∷ []) (ids cells),
                  );
              counted = omega (arith, one_less, v.counted);
              few =
                  rw (won, length-append taken ((id, clerk) ∷ [])) (omega (arith, rw free at few));
            })
      | inr other ↦
          let e : Path (Run (Option ℕ × Desk)) (ok (some clerk, d')) (ok (none, d)) =
            sym run ∙ (rw other at woken) in
          cc
    ]

InLine-again :
    {d d' : Desk} {entered : List ℕ} {taken : List (ℕ × ℕ)} {calls : ℕ} (id : ℕ) (c : Cell)
    (cells : List Cell)
    → InLine d entered taken calls (c ∷ cells)
    → wake d id ≡ ok (none, d')
    → InLine d' entered taken calls (c ∷ cells)
InLine-again {d} {d'} {entered} {taken} {calls} id c cells v run =
    let (d₁, woken, v₁, one_less, won) = wake-Woken d id c cells v.holds in
    elim (Bool-cases ((id == c.customer) && (d.winner_selected == 0))) [
      | inl turn ↦
          let e : Path (Run (Option ℕ × Desk)) (ok (none, d')) (ok (some d.queue_status, d₁)) =
            sym run ∙ (rw turn at woken) in
          cc
      | inr other ↦
          let e : Path (Run (Option ℕ × Desk)) (ok (none, d')) (ok (none, d)) =
            sym run ∙ (rw other at woken) in
          subst (λ d'. InLine d' entered taken calls (c ∷ cells))
            (sym (ap (λ (p : Option ℕ × Desk). p.1) (ok-injective e))) v
    ]

-- Who comes back from a wait is still in line, so the line is not empty.
pub in_line :
    {d : Desk} {entered : List ℕ} {taken : List (ℕ × ℕ)} {calls : ℕ} (id : ℕ) (cells : List Cell)
    → InLine d entered taken calls cells
    → IsIn id entered
    → (IsIn id (customers taken) → ⊥)
    → cells ≢ []
in_line {taken} id cells v there out e =
    IsIn-behind id (customers taken) []
      (subst (IsIn id) (v.order ∙ ap (λ cs. customers taken ++ ids cs) e) there) out

some_taken :
    {d d' : Desk} {entered : List ℕ} {taken : List (ℕ × ℕ)} {calls : ℕ} (id clerk : ℕ)
    (cells : List Cell)
    → InLine d entered taken calls cells
    → IsIn id entered
    → (IsIn id (customers taken) → ⊥)
    → wake d id ≡ ok (some clerk, d')
    → (rest : List Cell) × InLine d' entered (taken ++ ((id, clerk) ∷ [])) calls rest
some_taken id clerk [] v there out run = absurd (in_line id [] v there out refl)
some_taken id clerk (c ∷ cells) v there out run = (cells, InLine-taken id clerk c cells v run)

none_taken :
    {d d' : Desk} {entered : List ℕ} {taken : List (ℕ × ℕ)} {calls : ℕ} (id : ℕ) (cells : List Cell)
    → InLine d entered taken calls cells
    → IsIn id entered
    → (IsIn id (customers taken) → ⊥)
    → wake d id ≡ ok (none, d')
    → InLine d' entered taken calls cells
none_taken id [] v there out run = absurd (in_line id [] v there out refl)
none_taken id (c ∷ cells) v there out run = InLine-again id c cells v run

InLine-enters :
    {d d' : Desk} {entered : List ℕ} {taken : List (ℕ × ℕ)} {calls : ℕ} (id : ℕ) (fresh : Pointer)
    (cells : List Cell)
    → InLine d entered taken calls cells
    → fresh ≢ null
    → d.nodes fresh ≡ none
    → enter d fresh id ≡ ok d'
    → InLine d' (entered ++ (id ∷ [])) taken calls (cells ++ (cell fresh id ∷ []))
unfolding enter
InLine-enters {d} {d'} {entered} {taken} {calls} id fresh cells v ne unused run =
    let (nodes', queue', put, v') = queue_enqueue-append cells fresh id v.holds ne unused in
    let after : Desk = record d {
      nodes = nodes';
      queue = queue';
      queue_length = d.queue_length + 1;
    } in
    let computed : enter d fresh id ≡ ok after = rw put in
    subst (λ d'. InLine d' (entered ++ (id ∷ [])) taken calls (cells ++ (cell fresh id ∷ [])))
      (ok-injective (sym computed ∙ run))
      (record {
        holds = v';
        order =
            ap (λ es. es ++ (id ∷ [])) v.order
            ∙ append_assoc (customers taken) (ids cells) (id ∷ [])
            ∙ ap (λ cs. customers taken ++ cs) (sym (ids-append cells (cell fresh id)));
        counted = omega (arith, v.counted, length-append cells (cell fresh id ∷ []));
        few = v.few;
      })

pub Reached-InLine :
    {d : Desk} {entered : List ℕ} {taken : List (ℕ × ℕ)} {calls : ℕ}
    → Reached d entered taken calls
    → (cells : List Cell) × InLine d entered taken calls cells
unfolding enter call clear
Reached-InLine starts = (
  [],
  record {
    holds = record { first = refl; last = refl; counted = refl; chained = tt };
    order = refl;
    counted = refl;
    few = omega arith;
  },
)
Reached-InLine (enters id fresh r ne unused run) =
    let (cells, v) = Reached-InLine r in
    (cells ++ (cell fresh id ∷ []), InLine-enters id fresh cells v ne unused run)
Reached-InLine (is_taken id clerk r there out run) =
    let (cells, v) = Reached-InLine r in some_taken id clerk cells v there out run
Reached-InLine (waits_again id r there out run) =
    let (cells, v) = Reached-InLine r in (cells, none_taken id cells v there out run)
Reached-InLine (calls_queue {d} {taken} clerk_id r) =
    let (cells, v) = Reached-InLine r in
    (
      cells,
      record { holds = v.holds; order = v.order; counted = v.counted; few = ground (arith, v.few) },
    )
Reached-InLine (clears r) =
    let (cells, v) = Reached-InLine r in
    (cells, record { holds = v.holds; order = v.order; counted = v.counted; few = v.few })
