-- ===== src/Checkin/Queue.antt =====
-- The linked queue of customers of a2/A2.c: `createNode`, `Queue_Enqueue`, `Queue_Dequeue` and
-- `checkHead`. A node holds the id of its customer; removed nodes are not freed.
pub mod Chain
use csc.Base.{ℕ, ◌+◌, ◌-◌, Bool, Option, none, some, ◌==◌, if◌then◌else◌, Run, ok, fault, ◌>>=◌}

abbrev pub Pointer : Type 0
Pointer = ℕ

abbrev pub null : Pointer
null = 0

pub record Node : Type 0 where
  pub customer : ℕ
  pub next : Pointer

abbrev pub Nodes : Type 0
Nodes = Pointer → Option Node

-- `struct Queue`
pub record Queue : Type 0 where
  pub head : Pointer
  pub tail : Pointer
  pub size : ℕ

abbrev pub create_queue : Queue
create_queue = record { head = null; tail = null; size = 0 }

abbrev pub store : Nodes → Pointer → Node → Nodes
store nodes p n q = if p == q then some n else nodes q

-- `fresh` is what `malloc` returns.
abbrev pub create_node : Nodes → Pointer → ℕ → Nodes
create_node nodes fresh customer = store nodes fresh (record { customer = customer; next = null })

-- `*p`. Through NULL or a pointer to no node it is not allowed.
unfoldable pub read : Nodes → Pointer → Run Node
read nodes p = if p == null then fault else elim (nodes p) [ none ↦ fault | some n ↦ ok n ]

unfoldable pub queue_enqueue : Nodes → Queue → Pointer → Run (Nodes × Queue)
queue_enqueue nodes queue node =
    if queue.size == 0
    then ok (nodes, record { head = node; tail = node; size = queue.size + 1 })
    else do
      last ← read nodes queue.tail
      ok (
        store nodes queue.tail (record last { next = node }),
        record queue { tail = node; size = queue.size + 1 },
      )

-- On an empty queue it prints an error and changes nothing.
unfoldable pub queue_dequeue : Nodes → Queue → Run Queue
queue_dequeue nodes queue =
    if queue.size == 0
    then ok queue
    else if queue.size == 1
    then ok (record { head = null; tail = null; size = queue.size - 1 })
    else do
      first ← read nodes queue.head
      ok (record queue { head = first.next; size = queue.size - 1 })

-- Whether the customer with this id stands at the head.
unfoldable pub check_head : Nodes → Queue → ℕ → Run Bool
check_head nodes queue id = do first ← read nodes queue.head; ok (id == first.customer)
