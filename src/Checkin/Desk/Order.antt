-- ===== src/Checkin/Desk/Order.antt =====
-- In which order the customers of a2/A2.c are taken from a queue, and by which clerk.
use csc.Base.{
  ℕ, ◌+◌, ◌≤◌, ◌≡◌, refl, sym, ◌∙◌, List, [], ◌∷◌, ◌++◌, none, some, ◌==◌, ◌&&◌, if◌then◌else◌, ok,
  length, arith, false, true,
}
use csc.Checkin.Queue.Chain.{Cell}
use csc.Checkin.Desk.{Desk, wake, call, customers, Reached, calls_queue}
use csc.Checkin.Desk.Line.{ids, InLine, length-ids, wake-Woken, Reached-InLine}

-- In whatever order the threads run their sections: the customers taken are, in order, the first of
-- those that entered; the length that is printed and the queue's size are the number of customers
-- that wait; and the customers taken are at most one more than the calls of clerks.
pub Reached-in_order :
    {d : Desk} {entered : List ℕ} {taken : List (ℕ × ℕ)} {calls : ℕ}
    → Reached d entered taken calls
    → (waiting : List ℕ) × (entered ≡ customers taken ++ waiting)
      × (d.queue_length ≡ length waiting)
      × (d.queue.size ≡ length waiting)
      × (length taken ≤ calls + 1)
Reached-in_order {d} r =
    let (cells, v) = Reached-InLine r in
    (
      ids cells,
      v.order,
      v.counted ∙ sym (length-ids cells),
      v.holds.counted ∙ sym (length-ids cells),
      ground (arith, v.few),
    )

append_cancel : (as_ bs cs : List ℕ) → as_ ++ bs ≡ as_ ++ cs → bs ≡ cs
append_cancel [] bs cs e = e
append_cancel (a ∷ as_) bs cs e = append_cancel as_ bs cs (cc)

line-Woken :
    {d : Desk} {entered : List ℕ} {taken : List (ℕ × ℕ)} {calls : ℕ} (id first : ℕ) (rest : List ℕ)
    (cells : List Cell)
    → InLine d entered taken calls cells
    → entered ≡ customers taken ++ (first ∷ rest)
    → (d' : Desk) × (wake d id
        ≡ ok (
            if (id == first) && (d.winner_selected == 0)
            then (some d.queue_status, d')
            else (none, d)))
line-Woken {taken} id first rest [] v e =
    let none_left : [] ≡ first ∷ rest =
      append_cancel (customers taken) [] (first ∷ rest) (sym v.order ∙ e) in
    cc
line-Woken {d} {taken} id first rest (c ∷ cells) v e =
    let same : c.customer ∷ ids cells ≡ first ∷ rest =
      append_cancel (customers taken) _ (first ∷ rest) (sym v.order ∙ e) in
    let at : c.customer ≡ first = cc in
    let (d', woken, v', less, won) = wake-Woken d id c cells v.holds in (d', rw at at woken)

-- While customers wait, a round of the wait loop reads no NULL pointer, whoever comes back from the
-- wait: the customer next in line is taken if no winner is selected, and goes to the clerk of the
-- queue's status; in all other cases the customer waits again, and nothing changes.
pub wake-turn :
    {d : Desk} {entered : List ℕ} {taken : List (ℕ × ℕ)} {calls : ℕ} (id first : ℕ) (rest : List ℕ)
    → Reached d entered taken calls
    → entered ≡ customers taken ++ (first ∷ rest)
    → (d' : Desk) × (wake d id
        ≡ ok (
            if (id == first) && (d.winner_selected == 0)
            then (some d.queue_status, d')
            else (none, d)))
wake-turn id first rest r e =
    let (cells, v) = Reached-InLine r in line-Woken id first rest cells v e

two-Woken :
    {d : Desk} {entered : List ℕ} {taken : List (ℕ × ℕ)} {calls : ℕ} (other first id second : ℕ)
    (rest : List ℕ) (cells : List Cell)
    → InLine d entered taken calls cells
    → entered ≡ customers taken ++ (first ∷ second ∷ rest)
    → d.queue_status ≡ other
    → d.winner_selected ≡ 0
    → (d' : Desk) × (wake d first ≡ ok (some other, d')) × (wake d' id ≡ ok (none, d'))
two-Woken {taken} other first id second rest [] v e status free =
    let none_left : [] ≡ first ∷ second ∷ rest =
      append_cancel (customers taken) [] _ (sym v.order ∙ e) in
    cc
two-Woken {taken} other first id second rest (c ∷ []) v e status free =
    let one_left : c.customer ∷ [] ≡ first ∷ second ∷ rest =
      append_cancel (customers taken) _ _ (sym v.order ∙ e) in
    cc
two-Woken {d} {taken} other first id second rest (c ∷ b ∷ cells) v e status free =
    let same : c.customer ∷ b.customer ∷ ids cells ≡ first ∷ second ∷ rest =
      append_cancel (customers taken) _ _ (sym v.order ∙ e) in
    let at : first ≡ c.customer = cc in
    let (d', woken, v', less, won) = wake-Woken d first c (b ∷ cells) v.holds in
    let (d₂, again, v₂, less₂, won₂) = wake-Woken d' id b cells v' in
    let turn : ((first == c.customer) && (d.winner_selected == 0)) ≡ true = ground arith in
    let lost : ((id == b.customer) && (d'.winner_selected == 0)) ≡ false = ground arith in
    (d', woken ∙ rw (turn, status), again ∙ rw lost)

-- Where at least two customers wait and two clerks call, one behind the other, before a customer
-- comes back from the wait: the next in line, coming back, is taken and goes to the second clerk,
-- and whoever comes back then waits again.
pub call-call-wake :
    {d : Desk} {entered : List ℕ} {taken : List (ℕ × ℕ)} {calls : ℕ}
    (clerk other first id second : ℕ) (rest : List ℕ)
    → Reached d entered taken calls
    → entered ≡ customers taken ++ (first ∷ second ∷ rest)
    → (d' : Desk) × (wake (call (call d clerk) other) first ≡ ok (some other, d'))
      × (wake d' id ≡ ok (none, d'))
unfolding call
call-call-wake {taken} clerk other first id second rest r e =
    let (cells, v) = Reached-InLine (calls_queue other (calls_queue clerk r)) in
    two-Woken other first id second rest cells v e refl refl
