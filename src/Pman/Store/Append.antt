-- ===== src/Pman/Store/Append.antt =====
-- The parent's part of `bg_entry` of a1/PMan.c puts the new job behind the others.
use csc.Base.{
  ℕ, zero, suc, ◌<◌, ◌≡◌, ◌≢◌, refl, sym, ℤ, List, [], ◌∷◌, ◌++◌, Option, none, some, ◌==◌, inl,
  inr, ◌⊎◌, length, arith, ok, false,
}
use csc.Pman.Store.{Pointer, null, Node, Store, put, set_next, last_loop, insert_node}
use csc.Pman.Store.Linked.{
  Job, node_of, Absent, IsAt, IsAt-or-Absent, Linked, IsList, load-ok, Linked-put, Absent-none,
  store_of, at_store,
}

abbrev pub last_job : Job → List Job → Job
last_job j [] = j
last_job j (k ∷ ks) = last_job k ks

last_loop-last_job :
    (s : Store) (j : Job) (js : List Job) (fuel : ℕ)
    → Linked s.node (j ∷ js)
    → length js < fuel
    → last_loop fuel s j.at ≡ ok (last_job j js).at
unfolding last_loop
last_loop-last_job s j js zero l f = absurd (omega arith)
last_loop-last_job s j [] (suc fuel) (ne, here, out, l) f = rw (load-ok s ne here)
last_loop-last_job s j (k ∷ ks) (suc fuel) (ne, here, out, l) f =
    let there : (k.at == null) ≡ false = ground arith in
    rw (load-ok s ne here, there) (last_loop-last_job s k ks fuel l (omega arith))

last_job-holds :
    (nodes : Pointer → Option Node) (j : Job) (js : List Job)
    → Linked nodes (j ∷ js)
    → ((last_job j js).at ≢ null) × (nodes (last_job j js).at ≡ some (node_of (last_job j js) null))
last_job-holds nodes j [] l = (l.0, l.1)
last_job-holds nodes j (k ∷ ks) l = last_job-holds nodes k ks l.3

Absent-last_job :
    (p : Pointer) (j : Job) (js : List Job) → Absent p (j ∷ js) → p ≢ (last_job j js).at
Absent-last_job p j [] a = a.0
Absent-last_job p j (k ∷ ks) a = Absent-last_job p k ks a.1

Absent-snoc :
    (p : Pointer) (js : List Job) (new : Job)
    → Absent p js
    → p ≢ new.at
    → Absent p (js ++ (new ∷ []))
Absent-snoc p [] new a ne = (ne, tt)
Absent-snoc p (j ∷ js) new a ne = (a.0, Absent-snoc p js new a.1 ne)

-- The link from the last node to a new one that points at NULL.
Linked-snoc :
    (nodes : Pointer → Option Node) (j : Job) (js : List Job) (new : Job)
    → Linked nodes (j ∷ js)
    → Absent new.at (j ∷ js)
    → new.at ≢ null
    → nodes new.at ≡ some (node_of new null)
    → Linked
        (put nodes (last_job j js).at (some (node_of (last_job j js) new.at)))
        (j ∷ js ++ (new ∷ []))
Linked-snoc nodes j [] new l a ne at_new =
    (l.0, ground arith, (λ e. a.0 (sym e), tt), (ne, ground arith, tt, tt))
Linked-snoc nodes j (k ∷ ks) new (ne_j, here, out, l) a ne at_new =
    let apart = Absent-last_job j.at k ks out in
    (
      ne_j,
      ground arith,
      Absent-snoc j.at (k ∷ ks) new out (λ e. a.0 (sym e)),
      Linked-snoc nodes k ks new l a.1 ne at_new,
    )

abbrev pub job : Pointer → ℤ → List ℕ → Job
job p pid command = record { at = p; pid = pid; command = command }

abbrev new_store : Store → Pointer → ℤ → List ℕ → Store
new_store s fresh pid command = record s {
  node = put s.node fresh (some (node_of (job fresh pid command) null));
}

abbrev Inserted : Store → ℕ → Pointer → ℤ → List ℕ → List Job → Type 0
Inserted s fuel fresh pid command js =
    (s' : Store) × (insert_node fuel s fresh pid command ≡ ok s')
    × IsList s' js
    × ((p : Pointer) → Absent p js → s'.node p ≡ s.node p)

Absent-append : (p : Pointer) (xs ys : List Job) → Absent p (xs ++ ys) → Absent p xs × Absent p ys
Absent-append p [] ys a = (tt, a)
Absent-append p (x ∷ xs) ys a = let (b, c) = Absent-append p xs ys a.1 in ((a.0, b), c)

insert-Inserted :
    (nodes : Pointer → Option Node) (js : List Job) (fuel : ℕ) (fresh : Pointer) (pid : ℤ)
    (command : List ℕ)
    → Linked nodes js
    → length js < fuel
    → fresh ≢ null
    → nodes fresh ≡ none
    → Inserted (store_of nodes js) fuel fresh pid command (js ++ (job fresh pid command ∷ []))
unfolding insert_node set_next
insert-Inserted nodes [] fuel fresh pid command l f ne unused =
    (_, refl, record { starts = refl; linked = (ne, ground arith, tt, tt) }, λ p a. ground arith)
insert-Inserted nodes (j ∷ js) fuel fresh pid command l f ne unused =
    let out = Absent-none nodes fresh (j ∷ js) unused l in
    let kept =
      Linked-put nodes fresh (some (node_of (job fresh pid command) null)) (j ∷ js) out l in
    let s = new_store (store_of nodes (j ∷ js)) fresh pid command in
    let walk = last_loop-last_job s j js fuel kept (omega arith) in
    let (ne_last, at_last) = last_job-holds s.node j js kept in
    let there : (j.at == null) ≡ false = ground (arith, l.0) in
    (
      _,
      rw (there, walk, load-ok s ne_last at_last) refl,
      record {
        starts = refl;
        linked = Linked-snoc s.node j js (job fresh pid command) kept out ne (ground arith);
      },
      λ p a.
          let (b, c) = Absent-append p (j ∷ js) _ a in
          let other = Absent-last_job p j js b in ground (arith, c.0),
    )

-- From a store that holds a list of jobs, with fuel above their number and an address that is neither
-- NULL nor allocated, what `bg_entry` does in the parent with the nodes has no fault and puts the new
-- job behind all others: the list afterwards is the list before with this job at its end, and nodes
-- that are not of the list afterwards are left alone.
pub insert_node-append :
    {s : Store} {js : List Job} (fuel : ℕ) (fresh : Pointer) (pid : ℤ) (command : List ℕ)
    → IsList s js
    → length js < fuel
    → fresh ≢ null
    → s.node fresh ≡ none
    → (s' : Store) × (insert_node fuel s fresh pid command ≡ ok s')
      × IsList s' (js ++ (job fresh pid command ∷ []))
      × ((p : Pointer) → IsAt p (js ++ (job fresh pid command ∷ [])) ⊎ (s'.node p ≡ s.node p))
insert_node-append {s} {js} fuel fresh pid command v f ne unused =
    let (s', run, v', same) =
      at_store (λ s. Inserted s fuel fresh pid command (js ++ (job fresh pid command ∷ []))) v
        (insert-Inserted s.node js fuel fresh pid command v.linked f ne unused) in
    (
      s',
      run,
      v',
      λ p. elim (IsAt-or-Absent p (js ++ (job fresh pid command ∷ []))) [
        | inl at ↦ inl at
        | inr out ↦ inr (same p out)
      ],
    )
