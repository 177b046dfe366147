-- ===== src/RingQueue/Tests.antt =====
-- Tests of the circular queue, and its theorems at queues of two and three places.
use csc.Base.{◌≡◌, refl, [], ◌∷◌, arith, pos, ok}
use csc.RingQueue.{Queue, int_min}
use csc.RingQueue.Contents.{IsValid}
use csc.RingQueue.Order.{put, take, head, tail, run, answers, run-answers}

-- The items 5 and 6, the first of them in the last place of the array.
abbrev two_items : Queue
two_items = record {
  head = 2;
  tail = 0;
  size = 2;
  capacity = 3;
  array = pos 6 ∷ pos 7 ∷ pos 5 ∷ [];
}

two_items-IsValid : IsValid two_items
two_items-IsValid = record {
  some_room = omega arith;
  fits_int = omega arith;
  allocated = omega arith;
  size_fits = omega arith;
  head_in = omega arith;
  tail_in = omega arith;
  newest = refl;
}

run-answers_example :
    run two_items (put (pos 8) ∷ put (pos 9) ∷ take ∷ head ∷ tail ∷ take ∷ take ∷ take ∷ [])
    ≡ ok (pos 1 ∷ int_min ∷ pos 5 ∷ pos 6 ∷ pos 8 ∷ pos 6 ∷ pos 8 ∷ int_min ∷ [])
unfolding answers
run-answers_example =
    run-answers (put (pos 8) ∷ put (pos 9) ∷ take ∷ head ∷ tail ∷ take ∷ take ∷ take ∷ [])
      two_items-IsValid
