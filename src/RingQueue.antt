-- ===== src/RingQueue.antt =====
-- a2/customerQueue.h: a bounded queue of `int`s in an array that is used in a circle.
pub mod Contents
pub mod Order
mod Tests
use csc.Base.{
  ℕ, zero, suc, ◌+◌, ◌-◌, ◌%◌, ◌^◌, ℤ, pos, negsuc, Bool, List, [], ◌∷◌, Option, none, some, ltb,
  ◌==◌, if◌then◌else◌, length, get_elem?, set, Run, ok, fault, ◌>>=◌,
}

-- `struct Queue`. `size` and the two indices are `int`s and `capacity` is unsigned: all of them are
-- kept as their 32 bits.
pub record Queue : Type 0 where
  pub head : ℕ
  pub tail : ℕ
  pub size : ℕ
  pub capacity : ℕ
  pub array : List ℤ

abbrev pub int_min : ℤ
int_min = negsuc (2 ^ 31 - 1)

-- `memory` is what `malloc` returns for the array.
unfoldable pub construct_custom_queue : ℕ → List ℤ → Queue
construct_custom_queue capacity memory = record {
  head = 0;
  tail = (capacity + 2 ^ 32 - 1) % 2 ^ 32;
  size = 0;
  capacity = capacity;
  array = memory;
}

abbrev pub is_full : Queue → Bool
is_full q = q.size == q.capacity

abbrev pub is_empty : Queue → Bool
is_empty q = q.size == 0

-- `(i + 1) % capacity`, unsigned; there is no remainder by 0.
unfoldable pub advance : Queue → ℕ → Run ℕ
advance q i = if q.capacity == 0 then fault else ok ((i + 1) % 2 ^ 32 % q.capacity)

unfoldable pub read_cell : Queue → ℕ → Run ℤ
read_cell q i = elim (get_elem? q.array i) [ none ↦ fault | some v ↦ ok v ]

unfoldable pub write_cell : Queue → ℕ → ℤ → Run (List ℤ)
write_cell q i v = if ltb i (length q.array) then ok (set q.array i v) else fault

-- What a call returns, and the queue behind it.
unfoldable pub enqueue : Queue → ℤ → Run (ℤ × Queue)
enqueue q item = if is_full q then ok (int_min, q) else do
  tail' ← advance q q.tail
  array' ← write_cell q tail' item
  ok (pos 1, record q { tail = tail'; array = array'; size = q.size + 1 })

unfoldable pub dequeue : Queue → Run (ℤ × Queue)
dequeue q = if is_empty q then ok (int_min, q) else do
  item ← read_cell q q.head
  head' ← advance q q.head
  ok (item, record q { head = head'; size = q.size - 1 })

unfoldable pub get_head : Queue → Run ℤ
get_head q = if is_empty q then ok int_min else read_cell q q.head

unfoldable pub get_tail : Queue → Run ℤ
get_tail q = if is_empty q then ok int_min else read_cell q q.tail
