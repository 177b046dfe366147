-- ===== src/Checkin/Queue/Chain.antt =====
-- The linked queue of a2/A2.c holds its customers first in, first out.
use csc.Base.{
  ℕ, ◌+◌, ◌-◌, ◌≡◌, ◌≢◌, refl, sym, ap, List, [], ◌∷◌, ◌++◌, none, some, ◌==◌, ok, length,
  length-append, arith, false, true,
}
use csc.Checkin.Queue.{
  Pointer, null, Node, Nodes, Queue, store, create_node, read, queue_enqueue, queue_dequeue,
  check_head,
}

-- A customer in the queue, with the address of the node.
pub record Cell : Type 0 where
  pub at : Pointer
  pub customer : ℕ

abbrev pub first_at : List Cell → Pointer
first_at [] = null
first_at (c ∷ cs) = c.at

abbrev pub last_of : Cell → List Cell → Cell
last_of c [] = c
last_of c (d ∷ ds) = last_of d ds

abbrev pub last_at : List Cell → Pointer
last_at [] = null
last_at (c ∷ cs) = (last_of c cs).at

abbrev node_for : Cell → Pointer → Node
node_for c q = record { customer = c.customer; next = q }

abbrev pub IsApart : Pointer → List Cell → Type 0
IsApart p [] = Unit
IsApart p (c ∷ cs) = (p ≢ c.at) × IsApart p cs

-- Each node of the chain holds its customer and points at the next one, the last at NULL.
abbrev pub IsChain : Nodes → List Cell → Type 0
IsChain nodes [] = Unit
IsChain nodes (c ∷ cs) =
    (c.at ≢ null)
    × (nodes c.at ≡ some (node_for c (first_at cs)))
    × IsApart c.at cs
    × IsChain nodes cs

pub record IsQueue (nodes : Nodes) (queue : Queue) (cells : List Cell) : Type 0 where
  pub first : queue.head ≡ first_at cells
  pub last : queue.tail ≡ last_at cells
  pub counted : queue.size ≡ length cells
  pub chained : IsChain nodes cells

read-ok :
    (nodes : Nodes) {p : Pointer} {n : Node} → p ≢ null → nodes p ≡ some n → read nodes p ≡ ok n
unfolding read
read-ok nodes {p} ne e = let there : (p == null) ≡ false = ground arith in rw (there, e)

IsApart-none :
    (nodes : Nodes) (p : Pointer) (cs : List Cell)
    → nodes p ≡ none
    → IsChain nodes cs
    → IsApart p cs
IsApart-none nodes p [] e l = tt
IsApart-none nodes p (c ∷ cs) e l = (ground arith, IsApart-none nodes p cs e l.3)

IsChain-store :
    (nodes : Nodes) (p : Pointer) (n : Node) (cs : List Cell)
    → IsApart p cs
    → IsChain nodes cs
    → IsChain (store nodes p n) cs
IsChain-store nodes p n [] a l = tt
IsChain-store nodes p n (c ∷ cs) a (ne, here, out, l) =
    (ne, ground arith, out, IsChain-store nodes p n cs a.1 l)

last_of-holds :
    (nodes : Nodes) (c : Cell) (cs : List Cell)
    → IsChain nodes (c ∷ cs)
    → ((last_of c cs).at ≢ null) × (nodes (last_of c cs).at ≡ some (node_for (last_of c cs) null))
last_of-holds nodes c [] l = (l.0, l.1)
last_of-holds nodes c (d ∷ ds) l = last_of-holds nodes d ds l.3

IsApart-last_of :
    (p : Pointer) (c : Cell) (cs : List Cell) → IsApart p (c ∷ cs) → p ≢ (last_of c cs).at
IsApart-last_of p c [] a = a.0
IsApart-last_of p c (d ∷ ds) a = IsApart-last_of p d ds a.1

IsApart-append :
    (p : Pointer) (cs : List Cell) (new : Cell)
    → IsApart p cs
    → p ≢ new.at
    → IsApart p (cs ++ (new ∷ []))
IsApart-append p [] new a ne = (ne, tt)
IsApart-append p (c ∷ cs) new a ne = (a.0, IsApart-append p cs new a.1 ne)

IsChain-append :
    (nodes : Nodes) (c : Cell) (cs : List Cell) (new : Cell)
    → IsChain nodes (c ∷ cs)
    → IsApart new.at (c ∷ cs)
    → new.at ≢ null
    → nodes new.at ≡ some (node_for new null)
    → IsChain
        (store nodes (last_of c cs).at (node_for (last_of c cs) new.at))
        (c ∷ cs ++ (new ∷ []))
IsChain-append nodes c [] new l a ne there =
    (l.0, ground arith, (λ e. a.0 (sym e), tt), (ne, ground arith, tt, tt))
IsChain-append nodes c (d ∷ ds) new (ne_c, here, out, l) a ne there =
    let apart = IsApart-last_of c.at d ds out in
    (
      ne_c,
      ground arith,
      IsApart-append c.at (d ∷ ds) new out (λ e. a.0 (sym e)),
      IsChain-append nodes d ds new l a.1 ne there,
    )

last_at-append : (c : Cell) (cs : List Cell) (new : Cell) → last_at (c ∷ cs ++ (new ∷ [])) ≡ new.at
last_at-append c [] new = refl
last_at-append c (d ∷ ds) new = last_at-append d ds new

abbrev pub cell : Pointer → ℕ → Cell
cell p id = record { at = p; customer = id }

-- `Queue_Enqueue` of a new node, at an address that is neither NULL nor allocated, puts the node's
-- customer behind the others of the queue.
pub queue_enqueue-append :
    {nodes : Nodes} {queue : Queue} (cells : List Cell) (fresh : Pointer) (id : ℕ)
    → IsQueue nodes queue cells
    → fresh ≢ null
    → nodes fresh ≡ none
    → (nodes' : Nodes) × (queue' : Queue) × (queue_enqueue (create_node nodes fresh id) queue fresh
        ≡ ok (nodes', queue'))
      × IsQueue nodes' queue' (cells ++ (cell fresh id ∷ []))
unfolding queue_enqueue
queue_enqueue-append {nodes} {queue} [] fresh id v ne unused =
    let empty : (queue.size == 0) ≡ true = ground (arith, v.counted) in
    (
      create_node nodes fresh id,
      record { head = fresh; tail = fresh; size = queue.size + 1 },
      rw empty,
      record {
        first = refl;
        last = refl;
        counted = ap (λ n. n + 1) v.counted;
        chained = (ne, ground arith, tt, tt);
      },
    )
queue_enqueue-append {nodes} {queue} (c ∷ cs) fresh id v ne unused =
    let some_left : (queue.size == 0) ≡ false = ground (arith, v.counted) in
    let out = IsApart-none nodes fresh (c ∷ cs) unused v.chained in
    let new = create_node nodes fresh id in
    let kept = IsChain-store nodes fresh (node_for (cell fresh id) null) (c ∷ cs) out v.chained in
    let (ne_last, at_last) = last_of-holds new c cs kept in
    (
      store new (last_of c cs).at (node_for (last_of c cs) fresh),
      record queue { tail = fresh; size = queue.size + 1 },
      rw (some_left, v.last, read-ok new ne_last at_last),
      record {
        first = v.first;
        last = sym (last_at-append c cs (cell fresh id));
        counted = omega (arith, v.counted, length-append (c ∷ cs) (cell fresh id ∷ []));
        chained = IsChain-append new c cs (cell fresh id) kept out ne (ground arith);
      },
    )

-- `Queue_Dequeue` removes the customer at the head, and the others stay in order.
pub queue_dequeue-rest :
    {nodes : Nodes} {queue : Queue} (c : Cell) (cells : List Cell)
    → IsQueue nodes queue (c ∷ cells)
    → (queue' : Queue) × (queue_dequeue nodes queue ≡ ok queue') × IsQueue nodes queue' cells
unfolding queue_dequeue
queue_dequeue-rest {nodes} {queue} c [] v =
    let some_left : (queue.size == 0) ≡ false = ground (arith, v.counted) in
    let one : (queue.size == 1) ≡ true = ground (arith, v.counted) in
    (
      record { head = null; tail = null; size = queue.size - 1 },
      rw (some_left, one),
      record { first = refl; last = refl; counted = omega (arith, v.counted); chained = tt },
    )
queue_dequeue-rest {nodes} {queue} c (d ∷ ds) v =
    let some_left : (queue.size == 0) ≡ false = ground (arith, v.counted) in
    let more : (queue.size == 1) ≡ false = ground (arith, v.counted) in
    (
      record queue { head = d.at; size = queue.size - 1 },
      rw (some_left, more, v.first, read-ok nodes v.chained.0 v.chained.1),
      record {
        first = refl;
        last = v.last;
        counted = omega (arith, v.counted);
        chained = v.chained.3;
      },
    )

-- `checkHead` reads no pointer that is NULL where some customer is queued, and tells whether the
-- first one has the id.
pub check_head-first :
    {nodes : Nodes} {queue : Queue} (c : Cell) (cells : List Cell) (id : ℕ)
    → IsQueue nodes queue (c ∷ cells)
    → check_head nodes queue id ≡ ok (id == c.customer)
unfolding check_head
check_head-first {nodes} c cells id v = rw (v.first, read-ok nodes v.chained.0 v.chained.1)
