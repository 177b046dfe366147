-- ===== src/Checkin/Tests.antt =====
-- Tests of the models of a2/A2.c, and the theorems at a queue of two customers.
use csc.Base.{ℕ, ◌≤◌, ◌≡◌, refl, List, [], ◌∷◌, none, some, arith, ok, inl, false, length}
use csc.Checkin.Queue.{
  Nodes, Queue, create_node, store, read, queue_enqueue, queue_dequeue, check_head,
}
use csc.Checkin.Queue.Chain.{Cell, cell, IsQueue, check_head-first}
use csc.Checkin.Desk.{Desk, enter, wake, call, Reached, starts, enters, is_taken, calls_queue}
use csc.Checkin.Desk.Order.{Reached-in_order, call-call-wake}

-- The customers 7 and 9 at the addresses 8 and 16.
abbrev nodes : Nodes
nodes =
    store (create_node (create_node (λ p. none) 8 7) 16 9) 8 (record { customer = 7; next = 16 })

abbrev two_queued : Queue
two_queued = record { head = 8; tail = 16; size = 2 }

abbrev cells : List Cell
cells = cell 8 7 ∷ cell 16 9 ∷ []

two_queued-IsQueue : IsQueue nodes two_queued cells
two_queued-IsQueue = record {
  first = refl;
  last = refl;
  counted = refl;
  chained = (omega arith, refl, (omega arith, tt), (omega arith, refl, tt, tt));
}

check_head-first_example : check_head nodes two_queued 9 ≡ ok false
check_head-first_example = check_head-first (cell 8 7) (cell 16 9 ∷ []) 9 two_queued-IsQueue

abbrev two_in : Desk
two_in = record {
  nodes = nodes;
  queue = two_queued;
  queue_length = 2;
  queue_status = 0;
  winner_selected = 0;
}

two_in-Reached : Reached two_in (7 ∷ 9 ∷ []) [] 0
unfolding enter queue_enqueue read
two_in-Reached = enters 9 16 (enters 7 8 starts (omega arith) refl refl) (omega arith) refl refl

-- Clerk 3 calls, and customer 7 is taken.
abbrev one_left : Desk
one_left = record {
  nodes = nodes;
  queue = record { head = 16; tail = 16; size = 1 };
  queue_length = 1;
  queue_status = 3;
  winner_selected = 1;
}

one_left-Reached : Reached one_left (7 ∷ 9 ∷ []) ((7, 3) ∷ []) 1
unfolding call wake check_head queue_dequeue read
one_left-Reached = is_taken 7 3 (calls_queue 3 two_in-Reached) (inl refl) (λ e. e) refl

Reached-in_order_example :
    (waiting : List ℕ) × (7 ∷ 9 ∷ [] ≡ 7 ∷ waiting)
    × (1 ≡ length waiting)
    × (1 ≡ length waiting)
    × (1 ≤ 2)
Reached-in_order_example = Reached-in_order one_left-Reached

call-call-wake_example :
    (d' : Desk) × (wake (call (call two_in 1) 2) 7 ≡ ok (some 2, d')) × (wake d' 9 ≡ ok (none, d'))
call-call-wake_example = call-call-wake 1 2 7 9 9 [] two_in-Reached refl
