-- ===== src/Pman/Store.antt =====
-- The list of background processes of a1/PMan.c: its nodes in memory, the global `head`, and the
-- functions that walk and change the list. Loops run on fuel.
pub mod Linked
pub mod Search
pub mod Append
pub mod Remove
use csc.Base.{
  ℕ, zero, suc, ◌+◌, ℤ, int_eq, Bool, true, false, not, ◌&&◌, List, [], ◌∷◌, ◌++◌, Option, none,
  some, ◌==◌, if◌then◌else◌, Run, ok, fault, out_of_fuel, ◌>>=◌,
}

abbrev pub Pointer : Type 0
Pointer = ℕ

abbrev pub null : Pointer
null = 0

-- `Node`, with the command as its bytes
pub record Node : Type 0 where
  pub pid : ℤ
  pub command : List ℕ
  pub next : Pointer

-- The allocated nodes, and the global `head`.
pub record Store : Type 0 where
  pub node : Pointer → Option Node
  pub head : Pointer

abbrev pub put : (Pointer → Option Node) → Pointer → Option Node → Pointer → Option Node
put nodes p n q = if p == q then n else nodes q

-- `*p`. Through NULL or a pointer to no node it is not allowed.
unfoldable pub load : Store → Pointer → Run Node
load s p = if p == null then fault else elim (s.node p) [ none ↦ fault | some n ↦ ok n ]

-- `p->next = q`
unfoldable pub set_next : Store → Pointer → Pointer → Run Store
set_next s p q = do
  n ← load s p
  ok (record s { node = put s.node p (some (record n { next = q })) })

unfoldable pub free : Store → Pointer → Run Store
free s p = do n ← load s p; ok (record s { node = put s.node p none })

-- `check_pid`: 0 if a node of the list has this pid, 1 if none has.
unfoldable pub check_loop : ℕ → Store → ℤ → Pointer → Run ℕ
check_loop zero s pid curr = out_of_fuel
check_loop (suc fuel) s pid curr =
    if curr == null
    then ok 1
    else do n ← load s curr; if int_eq n.pid pid then ok 0 else check_loop fuel s pid n.next

unfoldable pub check_pid : ℕ → Store → ℤ → Run ℕ
unfolding check_loop
check_pid fuel s pid = check_loop fuel s pid s.head

-- `bglist_entry`: the lines that it prints, and the number of jobs under them.
unfoldable pub list_loop : ℕ → Store → Pointer → ℕ → Run (List (ℤ × List ℕ) × ℕ)
list_loop zero s curr i = out_of_fuel
list_loop (suc fuel) s curr i = if curr == null then ok ([], i) else do
  n ← load s curr
  rest ← list_loop fuel s n.next (i + 1)
  ok ((n.pid, n.command) ∷ rest.0, rest.1)

unfoldable pub bglist_entry : ℕ → Store → Run (List (ℤ × List ℕ) × ℕ)
unfolding list_loop
bglist_entry fuel s = list_loop fuel s s.head 0

-- The walk of `bg_entry` to the last node.
unfoldable pub last_loop : ℕ → Store → Pointer → Run Pointer
last_loop zero s curr = out_of_fuel
last_loop (suc fuel) s curr = do
  n ← load s curr
  if n.next == null then ok curr else last_loop fuel s n.next

-- The parent's part of `bg_entry`: `fresh` is what `malloc` returns for the node.
unfoldable pub insert_node : ℕ → Store → Pointer → ℤ → List ℕ → Run Store
unfolding last_loop set_next
insert_node fuel s fresh pid command =
    if s.head == null
    then ok (record new { head = fresh })
    else do curr ← last_loop fuel new new.head; set_next new curr fresh
  where
    new : Store
    new = record s {
      node = put s.node fresh (some (record { pid = pid; command = command; next = null }));
    }

-- The `while` loop of `removeNode`: the pointers `prev` and `curr` at its end.
unfoldable pub find_loop : ℕ → Store → ℤ → Pointer → Pointer → Run (Pointer × Pointer)
find_loop zero s pid prev curr = out_of_fuel
find_loop (suc fuel) s pid prev curr = if curr == null then ok (prev, curr) else do
  n ← load s curr
  if int_eq n.pid pid then ok (prev, curr) else find_loop fuel s pid curr n.next

-- `removeNode` from the loop on.
unfoldable pub unlink : ℕ → Store → ℤ → Run Store
unfolding find_loop set_next free
unlink fuel s pid = do
  found ← find_loop fuel s pid null s.head
  if found.1 == null
      then ok s
      else do n ← load s found.1; s' ← set_next s found.0 n.next; free s' found.1

unfoldable pub remove_node : ℕ → Store → ℤ → Run Store
unfolding unlink
remove_node fuel s pid = if s.head == null then unlink fuel s pid else do
  n ← load s s.head
  if int_eq n.pid pid then free (record s { head = n.next }) s.head else unlink fuel s pid
