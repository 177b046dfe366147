-- ===== src/Checkin/Desk.antt =====
-- What the customer and clerk threads of a2/A2.c do to one class's queue while they hold its mutex.
-- The mutex runs these sections one at a time, so an execution is a sequence of them in some order.
pub mod Line
pub mod Order
pub mod Sections
use csc.Base.{
  ℕ, ◌+◌, ◌-◌, ◌≡◌, ◌≢◌, ◌⊎◌, Bool, ◌&&◌, List, [], ◌∷◌, ◌++◌, Option, none, some, ◌==◌,
  if◌then◌else◌, Run, ok, ◌>>=◌,
}
use csc.Checkin.Queue.{
  Pointer, null, Nodes, Queue, create_queue, create_node, queue_enqueue, queue_dequeue, check_head,
}

-- One class's queue, and its places in the global arrays.
pub record Desk : Type 0 where
  pub nodes : Nodes
  pub queue : Queue
  pub queue_length : ℕ
  pub queue_status : ℕ
  pub winner_selected : ℕ

abbrev pub start_desk : Desk
start_desk = record {
  nodes = λ p. none;
  queue = create_queue;
  queue_length = 0;
  queue_status = 0;
  winner_selected = 0;
}

-- `Customer_entry` up to its first wait: the customer enters the queue.
unfoldable pub enter : Desk → Pointer → ℕ → Run Desk
enter d fresh id = do
  entered ← queue_enqueue (create_node d.nodes fresh id) d.queue fresh
  ok (record d { nodes = entered.0; queue = entered.1; queue_length = d.queue_length + 1 })

-- A round of the `while` loop behind `pthread_cond_wait`: the clerk that the customer goes to, or
-- none where the customer waits again.
unfoldable pub wake : Desk → ℕ → Run (Option ℕ × Desk)
wake d id = do
  at_head ← check_head d.nodes d.queue id
  if at_head && (d.winner_selected == 0)
      then (do
        queue' ← queue_dequeue d.nodes d.queue
        ok (
          some d.queue_status,
          record d { queue = queue'; queue_length = d.queue_length - 1; winner_selected = 1 },
        ))
      else ok (none, d)

-- `clerk_entry`: a clerk calls the queue's customers.
unfoldable pub call : Desk → ℕ → Desk
call d clerk_id = record d { queue_status = clerk_id; winner_selected = 0 }

-- `queue_status[curr_queue] = 0`, which a business customer stores behind the section.
unfoldable pub clear : Desk → Desk
clear d = record d { queue_status = 0 }

abbrev pub customers : List (ℕ × ℕ) → List ℕ
customers [] = []
customers ((id, clerk) ∷ ps) = id ∷ customers ps

abbrev pub IsIn : ℕ → List ℕ → Type 0
IsIn x [] = ⊥
IsIn x (y ∷ ys) = (x ≡ y) ⊎ IsIn x ys

-- The desks that sections in some order lead to, with the customers that have entered, those that
-- were taken and by which clerk, and how often a clerk has called. A thread comes back from a wait
-- at any time, called or not, until it is taken.
pub data Reached : Desk → List ℕ → List (ℕ × ℕ) → ℕ → Type 0 where
  starts : Reached start_desk [] [] 0
  enters :
      {d d' : Desk} {entered : List ℕ} {taken : List (ℕ × ℕ)} {calls : ℕ} (id : ℕ) (fresh : Pointer)
      → Reached d entered taken calls
      → fresh ≢ null
      → d.nodes fresh ≡ none
      → enter d fresh id ≡ ok d'
      → Reached d' (entered ++ (id ∷ [])) taken calls
  is_taken :
      {d d' : Desk} {entered : List ℕ} {taken : List (ℕ × ℕ)} {calls : ℕ} (id clerk : ℕ)
      → Reached d entered taken calls
      → IsIn id entered
      → (IsIn id (customers taken) → ⊥)
      → wake d id ≡ ok (some clerk, d')
      → Reached d' entered (taken ++ ((id, clerk) ∷ [])) calls
  waits_again :
      {d d' : Desk} {entered : List ℕ} {taken : List (ℕ × ℕ)} {calls : ℕ} (id : ℕ)
      → Reached d entered taken calls
      → IsIn id entered
      → (IsIn id (customers taken) → ⊥)
      → wake d id ≡ ok (none, d')
      → Reached d' entered taken calls
  calls_queue :
      {d : Desk} {entered : List ℕ} {taken : List (ℕ × ℕ)} {calls : ℕ} (clerk_id : ℕ)
      → Reached d entered taken calls
      → Reached (call d clerk_id) entered taken (calls + 1)
  clears :
      {d : Desk} {entered : List ℕ} {taken : List (ℕ × ℕ)} {calls : ℕ}
      → Reached d entered taken calls
      → Reached (clear d) entered taken calls
