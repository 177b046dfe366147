-- ===== src/Pman/Store/Linked.antt =====
-- When the nodes in memory are a list: distinct allocated nodes, each pointing at the next.
use csc.Base.{
  Bool, false, ◌||◌, int_eq, ◌⊎◌, inl, inr, Bool-cases, ok, sym, subst, ℕ, ◌≡◌, ◌≢◌, ℤ, List, [],
  ◌∷◌, Option, none, some, ◌==◌, arith,
}
use csc.Pman.Store.{Pointer, null, Node, Store, put, load}

-- A process as the list shows it, with the address of its node.
pub record Job : Type 0 where
  pub at : Pointer
  pub pid : ℤ
  pub command : List ℕ

abbrev pub node_of : Job → Pointer → Node
node_of j q = record { pid = j.pid; command = j.command; next = q }

abbrev pub first_or : Pointer → List Job → Pointer
first_or stop [] = stop
first_or stop (j ∷ js) = j.at

abbrev pub Absent : Pointer → List Job → Type 0
Absent p [] = Unit
Absent p (j ∷ js) = (p ≢ j.at) × Absent p js

-- Some job's node stands at this address.
abbrev pub IsAt : Pointer → List Job → Type 0
IsAt p [] = ⊥
IsAt p (j ∷ js) = (p ≡ j.at) ⊎ IsAt p js

pub IsAt-or-Absent : (p : Pointer) (js : List Job) → IsAt p js ⊎ Absent p js
IsAt-or-Absent p [] = inr tt
IsAt-or-Absent p (j ∷ js) = elim (Bool-cases (p == j.at)) [
  | inl here ↦ inl (inl (ground arith))
  | inr apart ↦ elim (IsAt-or-Absent p js) [
    | inl later ↦ inl (inr later)
    | inr out ↦ inr (ground arith, out)
  ]
]

-- The nodes hold these jobs, each points at the next, and the last one at NULL.
abbrev pub Linked : (Pointer → Option Node) → List Job → Type 0
Linked nodes [] = Unit
Linked nodes (j ∷ js) =
    (j.at ≢ null)
    × (nodes j.at ≡ some (node_of j (first_or null js)))
    × Absent j.at js
    × Linked nodes js

-- The store holds the list of these jobs.
pub record IsList (s : Store) (js : List Job) : Type 0 where
  pub starts : s.head ≡ first_or null js
  pub linked : Linked s.node js

abbrev pub has_pid : ℤ → List Job → Bool
has_pid pid [] = false
has_pid pid (j ∷ js) = int_eq j.pid pid || has_pid pid js

pub load-ok : (s : Store) {p : Pointer} {n : Node} → p ≢ null → s.node p ≡ some n → load s p ≡ ok n
unfolding load
load-ok s {p} h e = let there : (p == null) ≡ false = ground arith in rw (there, e)

-- A write elsewhere leaves the list as it is.
pub Linked-put :
    (nodes : Pointer → Option Node) (p : Pointer) (n : Option Node) (js : List Job)
    → Absent p js
    → Linked nodes js
    → Linked (put nodes p n) js
Linked-put nodes p n [] a l = tt
Linked-put nodes p n (j ∷ js) a (ne, here, out, l) =
    (ne, ground arith, out, Linked-put nodes p n js a.1 l)

pub Absent-null : (nodes : Pointer → Option Node) (js : List Job) → Linked nodes js → Absent null js
Absent-null nodes [] l = tt
Absent-null nodes (j ∷ js) l = (λ e. l.0 (sym e), Absent-null nodes js l.3)

-- An address that is not allocated is that of no job.
pub Absent-none :
    (nodes : Pointer → Option Node) (p : Pointer) (js : List Job)
    → nodes p ≡ none
    → Linked nodes js
    → Absent p js
Absent-none nodes p [] e l = tt
Absent-none nodes p (j ∷ js) e l = (ground arith, Absent-none nodes p js e l.3)

-- The store of a chain of nodes, and a property of it that carries over to any store of the list.
abbrev pub store_of : (Pointer → Option Node) → List Job → Store
store_of nodes js = record { node = nodes; head = first_or null js }

pub at_store {ℓ} :
    {s : Store} {js : List Job} (P : Store → Type ℓ) → IsList s js → P (store_of s.node js) → P s
at_store {s} P v p = subst (λ h. P (record { node = s.node; head = h })) (sym v.starts) p
