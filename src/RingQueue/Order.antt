-- ===== src/RingQueue/Order.antt =====
-- The circular queue of a2/customerQueue.h is a bounded first-in, first-out queue.
use csc.Base.{
  ℕ, zero, suc, ◌+◌, ◌-◌, ◌%◌, ◌^◌, ◌<◌, ◌≡◌, ◌≢◌, refl, sym, ap, ap₂, ◌∙◌, ℤ, pos, List, [], ◌∷◌,
  ◌++◌, some, arith, inl, inr, Bool-cases, false, lt→ltb, ◌==◌, ==_iff, if◌then◌else◌, length,
  length-set, get_elem?, get_or, set, Run, ok, ◌>>=◌,
}
use native.Mathlib.Nat.{mod-lt, mod-add-mod, add-mod_right}
use native.Mathlib.Numerals.{add-one}
use csc.RingQueue.{
  Queue, int_min, advance, read_cell, write_cell, enqueue, dequeue, get_head, get_tail,
}
use csc.RingQueue.Contents.{
  items, contents, IsValid, length-items, get_or-set_self, items-set, items-suc,
}

get_elem?-get_or :
    (xs : List ℤ) (i : ℕ) (d : ℤ) → i < length xs → get_elem? xs i ≡ some (get_or xs i d)
get_elem?-get_or [] i d h = absurd (omega arith)
get_elem?-get_or (x ∷ xs) zero d h = refl
get_elem?-get_or (x ∷ xs) (suc i) d h = get_elem?-get_or xs i d (omega arith)

-- A first-in, first-out queue that answers as the calls of the header do.
abbrev pub front : List ℤ → ℤ × List ℤ
front [] = (int_min, [])
front (x ∷ xs) = (x, xs)

abbrev pub back : List ℤ → ℤ
back [] = int_min
back (x ∷ []) = x
back (x ∷ y ∷ ys) = back (y ∷ ys)

abbrev pub put_back : ℕ → List ℤ → ℤ → ℤ × List ℤ
put_back capacity xs x = if length xs == capacity then (int_min, xs) else (pos 1, xs ++ (x ∷ []))

back-snoc : (xs : List ℤ) (x : ℤ) → back (xs ++ (x ∷ [])) ≡ x
back-snoc [] x = refl
back-snoc (y ∷ []) x = refl
back-snoc (y ∷ z ∷ zs) x = back-snoc (z ∷ zs) x

module _ {q : Queue} (v : IsValid q) where
  advance-ok : (i : ℕ) → i < q.capacity → advance q i ≡ ok ((i + 1) % q.capacity)
  unfolding advance
  advance-ok i h =
      let some_room : (q.capacity == 0) ≡ false = ground (arith, v.some_room) in
      let fits : (i + 1) % 2 ^ 32 ≡ i + 1 = omega arith in rw (some_room, fits)

  read-ok : (i : ℕ) → i < q.capacity → read_cell q i ≡ ok (get_or q.array i (pos 0))
  unfolding read_cell
  read-ok i h = rw (get_elem?-get_or q.array i (pos 0) (omega arith), read_cell)

  write-ok : (i : ℕ) (x : ℤ) → i < q.capacity → write_cell q i x ≡ ok (set q.array i x)
  unfolding write_cell
  write-ok i x h = rw (lt→ltb i (length q.array) (omega arith))

  -- One place on from the newest item is the place for the next one.
  next_place : (q.tail + 1) % q.capacity ≡ (q.head + q.size) % q.capacity
  next_place =
      ap (λ t. (t + 1) % q.capacity) v.newest
      ∙ mod-add-mod (q.head + q.size + q.capacity - 1) q.capacity 1
      ∙ ap (λ k. k % q.capacity) (omega arith)
      ∙ add-mod_right (q.head + q.size) q.capacity

  size_lem : length (contents q) ≡ q.size
  size_lem = length-items q.array q.capacity q.head q.size

  pub enqueue_room :
      (x : ℤ)
      → q.size < q.capacity
      → (q' : Queue) × (enqueue q x ≡ ok (pos 1, q'))
        × IsValid q'
        × (q'.capacity ≡ q.capacity)
        × (contents q' ≡ contents q ++ (x ∷ []))
  unfolding enqueue
  enqueue_room x room =
      let place = (q.head + q.size) % q.capacity in
      let place_in : place < q.capacity = mod-lt (q.head + q.size) v.some_room in
      let not_full : (q.size == q.capacity) ≡ false = ground arith in
      let at : (q.tail + 1) % q.capacity ≡ place = next_place in
      (
        record q { tail = place; array = set q.array place x; size = q.size + 1 },
        rw (not_full, advance-ok q.tail v.tail_in, at, write-ok place x place_in),
        record {
          some_room = v.some_room;
          fits_int = v.fits_int;
          allocated = rw (length-set q.array place x) v.allocated;
          size_fits = omega arith;
          head_in = v.head_in;
          tail_in = place_in;
          newest =
              sym (add-mod_right (q.head + q.size) q.capacity)
              ∙ ap (λ k. k % q.capacity) (omega (arith, v.some_room));
        },
        refl,
        ap (items (set q.array place x) q.capacity q.head) (add-one q.size)
            ∙ ap₂ (λ xs y. xs ++ (y ∷ []))
                (items-set q.array q.capacity q.head q.size q.size x v.head_in (omega arith) room)
                (get_or-set_self q.array place x (pos 0) (omega (arith, v.allocated))),
      )

  pub dequeue_some :
      q.size ≢ 0
      → (q' : Queue) × (dequeue q ≡ ok (get_or q.array q.head (pos 0), q'))
        × IsValid q'
        × (q'.capacity ≡ q.capacity)
        × (contents q ≡ get_or q.array q.head (pos 0) ∷ contents q')
  unfolding dequeue
  dequeue_some some_left =
      let not_empty : (q.size == 0) ≡ false = ground (arith, some_left) in
      let place = (q.head + 1) % q.capacity in
      let one_more : q.size ≡ suc (q.size - 1) = omega (arith, some_left) in
      (
        record q { head = place; size = q.size - 1 },
        rw (not_empty, read-ok q.head v.head_in, advance-ok q.head v.head_in),
        record {
          some_room = v.some_room;
          fits_int = v.fits_int;
          allocated = v.allocated;
          size_fits = omega arith;
          head_in = mod-lt (q.head + 1) v.some_room;
          tail_in = v.tail_in;
          newest =
              v.newest
              ∙ ap (λ k. k % q.capacity) (omega (arith, some_left))
              ∙ sym (mod-add-mod (q.head + 1) q.capacity (q.size - 1 + q.capacity - 1))
              ∙ ap (λ k. k % q.capacity) (omega (arith, v.some_room));
        },
        refl,
        ap (items q.array q.capacity q.head) one_more
            ∙ items-suc q.array q.capacity q.head (q.size - 1) v.head_in,
      )

  -- On a valid queue `enqueue` returns INT_MIN and changes nothing where `capacity` items are held,
  -- and else returns 1 and puts the item behind the others. The queue stays valid.
  enqueue-put_back :
      (x : ℤ)
      → (q' : Queue) × (enqueue q x ≡ ok ((put_back q.capacity (contents q) x).0, q'))
        × IsValid q'
        × (q'.capacity ≡ q.capacity)
        × (contents q' ≡ (put_back q.capacity (contents q) x).1)
  enqueue-put_back x = elim (Bool-cases (q.size == q.capacity)) [
    | inl full ↦ (q, rw (size_lem, full) (unfold enqueue in rw full), v, refl, rw (size_lem, full))
    | inr room ↦
        let (q', run, v', same, put) = enqueue_room x (ground arith) in
        (q', rw (size_lem, room) run, v', same, rw (size_lem, room) put)
  ]

  -- On a valid queue `dequeue` returns INT_MIN and changes nothing where nothing is held, and else
  -- takes the oldest item out and returns it. The queue stays valid.
  dequeue-front :
      (q' : Queue) × (dequeue q ≡ ok ((front (contents q)).0, q'))
      × IsValid q'
      × (q'.capacity ≡ q.capacity)
      × (contents q' ≡ (front (contents q)).1)
  dequeue-front = elim (Bool-cases (q.size == 0)) [
    | inl none_left ↦
        let e : contents q ≡ [] =
          ap (items q.array q.capacity q.head) ((==_iff q.size 0).0 none_left) in
        (q, rw e (unfold dequeue in rw none_left), v, refl, rw e)
    | inr some_left ↦
        let (q', run, v', same, taken) = dequeue_some (ground arith) in
        (q', rw taken run, v', same, rw taken)
  ]

  newest_place : q.size ≢ 0 → q.tail ≡ (q.head + (q.size - 1)) % q.capacity
  newest_place h =
      v.newest
      ∙ ap (λ k. k % q.capacity) (omega (arith, h))
      ∙ add-mod_right (q.head + (q.size - 1)) q.capacity

  newest_last :
      q.size ≢ 0
      → contents q
        ≡ items q.array q.capacity q.head (q.size - 1)
          ++ (get_or q.array ((q.head + (q.size - 1)) % q.capacity) (pos 0) ∷ [])
  newest_last h =
      let one_more : q.size ≡ suc (q.size - 1) = omega (arith, h) in
      ap (items q.array q.capacity q.head) one_more

  -- On a valid queue `getHead` returns the oldest item, and `getTail` the newest; both return
  -- INT_MIN where nothing is held.
  pub get_head-front :
      (get_head q ≡ ok (front (contents q)).0) × (get_tail q ≡ ok (back (contents q)))
  unfolding get_head get_tail
  get_head-front = elim (Bool-cases (q.size == 0)) [
    | inl none_left ↦
        let e : contents q ≡ [] =
          ap (items q.array q.capacity q.head) ((==_iff q.size 0).0 none_left) in
        (rw (none_left, e), rw (none_left, e))
    | inr some_left ↦
        let some_left' : q.size ≢ 0 = ground arith in
        let (q', run, v', same, taken) = dequeue_some some_left' in
        (
          rw (some_left, taken) (read-ok q.head v.head_in),
          rw (some_left, newest_last some_left', back-snoc)
              (read-ok q.tail v.tail_in
                ∙ ap (λ k. ok (get_or q.array k (pos 0))) (newest_place some_left')),
        )
  ]

pub data Op : Type 0 where
  put : ℤ → Op
  take : Op
  head : Op
  tail : Op

-- A client's calls in order, with what each returns.
pub run : Queue → List Op → Run (List ℤ)
run q [] = ok []
run q (put x ∷ ops) = do r ← enqueue q x; rest ← run r.1 ops; ok (r.0 ∷ rest)
run q (take ∷ ops) = do r ← dequeue q; rest ← run r.1 ops; ok (r.0 ∷ rest)
run q (head ∷ ops) = do x ← get_head q; rest ← run q ops; ok (x ∷ rest)
run q (tail ∷ ops) = do x ← get_tail q; rest ← run q ops; ok (x ∷ rest)

-- The same calls of a list with a bound.
unfoldable pub answers : ℕ → List ℤ → List Op → List ℤ
answers capacity xs [] = []
answers capacity xs (put x ∷ ops) =
    (put_back capacity xs x).0 ∷ answers capacity (put_back capacity xs x).1 ops
answers capacity xs (take ∷ ops) = (front xs).0 ∷ answers capacity (front xs).1 ops
answers capacity xs (head ∷ ops) = (front xs).0 ∷ answers capacity xs ops
answers capacity xs (tail ∷ ops) = back xs ∷ answers capacity xs ops

-- Whatever calls a client makes of a valid queue, none reads or writes outside the array, and each
-- returns what a first-in, first-out list with the same bound returns.
pub run-answers :
    (ops : List Op) {q : Queue} → IsValid q → run q ops ≡ ok (answers q.capacity (contents q) ops)
unfolding run answers
run-answers [] v = refl
run-answers (put x ∷ ops) v =
    let (q', e, v', same, c) = enqueue-put_back v x in
    let later = run-answers ops v' ∙ ap₂ (λ k xs. ok (answers k xs ops)) same c in rw (e, later)
run-answers (take ∷ ops) v =
    let (q', e, v', same, c) = dequeue-front v in
    let later = run-answers ops v' ∙ ap₂ (λ k xs. ok (answers k xs ops)) same c in rw (e, later)
run-answers (head ∷ ops) v = rw ((get_head-front v).0, run-answers ops v)
run-answers (tail ∷ ops) v = rw ((get_head-front v).1, run-answers ops v)
