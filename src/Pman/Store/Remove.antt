-- ===== src/Pman/Store/Remove.antt =====
-- `removeNode` of a1/PMan.c takes out the first job with the pid and frees its node.
use csc.Base.{
  ℕ, zero, suc, ◌<◌, ◌≡◌, ◌≢◌, refl, sym, subst, ◌∙◌, ℤ, int_eq, List, [], ◌∷◌, Option, none, some,
  ◌==◌, if◌then◌else◌, inl, inr, ◌⊎◌, Bool-cases, length, arith, ok, false, true,
}
use csc.Pman.Store.{Pointer, null, Node, Store, put, set_next, free, find_loop, unlink, remove_node}
use csc.Pman.Store.Linked.{
  Job, node_of, first_or, Absent, IsAt, IsAt-or-Absent, Linked, IsList, has_pid, load-ok,
  Linked-put, store_of, at_store,
}

abbrev pub remove_first : ℤ → List Job → List Job
remove_first pid [] = []
remove_first pid (j ∷ js) = if int_eq j.pid pid then js else j ∷ remove_first pid js

-- The address of the first job with the pid.
abbrev pub address_of : ℤ → List Job → Pointer
address_of pid [] = null
address_of pid (j ∷ js) = if int_eq j.pid pid then j.at else address_of pid js

Absent-remove_first :
    (p : Pointer) (pid : ℤ) (js : List Job) → Absent p js → Absent p (remove_first pid js)
Absent-remove_first p pid [] a = tt
Absent-remove_first p pid (j ∷ js) a = elim (Bool-cases (int_eq j.pid pid)) [
  | inl hit ↦ rw hit (a.1)
  | inr miss ↦ rw miss (a.0, Absent-remove_first p pid js a.1)
]

Absent-address_of :
    (p : Pointer) (pid : ℤ) (js : List Job)
    → Absent p js
    → has_pid pid js ≡ true
    → p ≢ address_of pid js
Absent-address_of p pid [] a h = cc
Absent-address_of p pid (j ∷ js) a h = elim (Bool-cases (int_eq j.pid pid)) [
  | inl hit ↦ rw hit (a.0)
  | inr miss ↦ rw miss (Absent-address_of p pid js a.1 (ground (arith, h)))
]

remove_first-missing : (pid : ℤ) (js : List Job) → has_pid pid js ≡ false → remove_first pid js ≡ js
remove_first-missing pid [] h = refl
remove_first-missing pid (j ∷ js) h =
    let miss : int_eq j.pid pid ≡ false = ground arith in
    rw (miss, remove_first-missing pid js (ground arith))

not_null : {p : Pointer} → p ≢ null → (p == null) ≡ false
not_null h = ground arith

put_self : (nodes : Pointer → Option Node) (p : Pointer) (n : Option Node) → put nodes p n p ≡ n
put_self nodes p n = ground arith

put-ne :
    (nodes : Pointer → Option Node) (p a : Pointer) (n : Option Node)
    → a ≢ p
    → put nodes p n a ≡ nodes a
put-ne nodes p a n h = ground arith

-- Where no job has the pid the loop runs to the end of the list.
find_loop-missing :
    (s : Store) (pid : ℤ) (prev : Pointer) (js : List Job) (fuel : ℕ)
    → Linked s.node js
    → has_pid pid js ≡ false
    → length js < fuel
    → (q : Pointer) × (find_loop fuel s pid prev (first_or null js) ≡ ok (q, null))
unfolding find_loop
find_loop-missing s pid prev js zero l h f = absurd (omega arith)
find_loop-missing s pid prev [] (suc fuel) l h f = (prev, refl)
find_loop-missing s pid prev (j ∷ js) (suc fuel) (ne, here, out, l) h f =
    let there : (j.at == null) ≡ false = ground arith in
    let miss : int_eq j.pid pid ≡ false = ground arith in
    let (q, found) = find_loop-missing s pid j.at js fuel l (ground arith) (omega arith) in
    (q, rw (there, load-ok s ne here, miss) found)

abbrev relinked : (Pointer → Option Node) → Pointer → Node → Pointer → Pointer → Option Node
relinked nodes q m c = put (put nodes q (some m)) c none

-- What the loop finds behind the job `p`, and what the writes at what it finds come to.
record Found (s : Store) (pid : ℤ) (p : Job) (js : List Job) (fuel : ℕ) (c : Pointer)
    (rest : List Job) : Type 0 where
  q : Pointer
  m : Node
  n : Node
  found : find_loop fuel s pid p.at (first_or null js) ≡ ok (q, c)
  q_ne : q ≢ null
  c_ne : c ≢ null
  apart : c ≢ q
  at_q : s.node q ≡ some m
  at_c : s.node c ≡ some n
  links : Linked (relinked s.node q (record m { next = n.next }) c) (p ∷ rest)
  same :
      (a : Pointer)
      → Absent a (p ∷ js)
      → relinked s.node q (record m { next = n.next }) c a ≡ s.node a

find_loop-Found :
    (s : Store) (pid : ℤ) (p : Job) (js : List Job) (fuel : ℕ)
    → Linked s.node (p ∷ js)
    → has_pid pid js ≡ true
    → length js < fuel
    → Found s pid p js fuel (address_of pid js) (remove_first pid js)
unfolding find_loop
find_loop-Found s pid p js zero l h f = absurd (omega arith)
find_loop-Found s pid p [] (suc fuel) l h f = cc
find_loop-Found s pid p (j ∷ js) (suc fuel) (ne, here, out, (ne_j, here_j, out_j, l)) h f =
    let there : (j.at == null) ≡ false = ground arith in
    let l' = Linked-put s.node p.at (some (node_of p (first_or null js))) js out.1 l in
    elim (Bool-cases (int_eq j.pid pid)) [
      | inl hit ↦ rw hit (record {
        q = p.at;
        m = node_of p j.at;
        n = node_of j (first_or null js);
        found = rw (there, load-ok s ne_j here_j, hit);
        q_ne = ne;
        c_ne = ne_j;
        apart = λ e. out.0 (sym e);
        at_q = here;
        at_c = here_j;
        links = (ne, ground arith, out.1, Linked-put _ j.at none js out_j l');
        same = λ a x. ground (arith, x.0, x.1);
      })
      | inr miss ↦
          let r =
            find_loop-Found s pid j js fuel (ne_j, here_j, out_j, l) (ground arith) (omega arith) in
          rw miss (record {
            q = r.q;
            m = r.m;
            n = r.n;
            found = rw (there, load-ok s ne_j here_j, miss) r.found;
            q_ne = r.q_ne;
            c_ne = r.c_ne;
            apart = r.apart;
            at_q = r.at_q;
            at_c = r.at_c;
            links = (
              ne,
              r.same p.at out ∙ here,
              (out.0, Absent-remove_first p.at pid js out.1),
              r.links,
            );
            same = λ a x. r.same a x.1;
          })
    ]

-- What a run of `removeNode` does to the list.
abbrev Removed : Store → ℕ → ℤ → List Job → Type 0
Removed s fuel pid js =
    (s' : Store) × (remove_node fuel s pid ≡ ok s')
    × IsList s' (remove_first pid js)
    × (has_pid pid js ≡ true → s'.node (address_of pid js) ≡ none)
    × ((a : Pointer) → Absent a js → s'.node a ≡ s.node a)

module _ (nodes : Pointer → Option Node) (j : Job) (js : List Job) (fuel : ℕ) (pid : ℤ)
    (l : Linked nodes (j ∷ js)) (there : (j.at == null) ≡ false) where
  abbrev before : Store
  before = store_of nodes (j ∷ js)

  remove_head : int_eq j.pid pid ≡ true → Removed before (suc fuel) pid (j ∷ js)
  unfolding remove_node free
  remove_head hit = (
    record { node = put nodes j.at none; head = first_or null js },
    rw (
      there,
      load-ok before l.0 l.1,
      hit,
      load-ok (record before { head = first_or null js }) l.0 l.1,
    ),
    rw hit (record { starts = refl; linked = Linked-put nodes j.at none js l.2 l.3 }),
    rw hit (λ h. ground arith),
    λ a x. ground (arith, x.0),
  )

  remove_later :
      int_eq j.pid pid ≡ false
      → Found before pid j js fuel (address_of pid js) (remove_first pid js)
      → Removed before (suc fuel) pid (j ∷ js)
  unfolding remove_node unlink set_next free find_loop
  remove_later miss r = (
    record { node = nodes'; head = j.at },
    rw (
      there,
      load-ok before l.0 l.1,
      miss,
      r.found,
      c_there,
      load-ok before r.c_ne r.at_c,
      load-ok before r.q_ne r.at_q,
      load-ok middle r.c_ne kept,
    ),
    rw miss (record { starts = refl; linked = r.links }),
    rw miss (λ h. put_self middle.node (address_of pid js) none),
    r.same,
  )
    where
      nodes' : Pointer → Option Node
      nodes' = relinked nodes r.q (record r.m { next = r.n.next }) (address_of pid js)

      middle : Store
      middle = record { node = put nodes r.q (some (record r.m { next = r.n.next })); head = j.at }

      kept : middle.node (address_of pid js) ≡ some r.n
      kept = put-ne nodes r.q (address_of pid js) _ r.apart ∙ r.at_c

      c_there : (address_of pid js == null) ≡ false
      c_there = not_null r.c_ne

  remove_missing :
      int_eq j.pid pid ≡ false
      → has_pid pid js ≡ false
      → length js < fuel
      → Removed before (suc fuel) pid (j ∷ js)
  unfolding remove_node unlink find_loop
  remove_missing miss none_left f =
      let (q, found) = find_loop-missing before pid j.at js fuel l.3 none_left f in
      (
        before,
        rw (there, load-ok before l.0 l.1, miss, found),
        subst (IsList before) (sym same_list) (record { starts = refl; linked = l }),
        λ h. cc,
        λ a x. refl,
      )
    where
      same_list : remove_first pid (j ∷ js) ≡ j ∷ js
      same_list = remove_first-missing pid (j ∷ js) (rw (miss, none_left))

remove-Removed :
    (nodes : Pointer → Option Node) (js : List Job) (fuel : ℕ) (pid : ℤ)
    → Linked nodes js
    → length js < fuel
    → Removed (store_of nodes js) fuel pid js
unfolding remove_node unlink find_loop
remove-Removed nodes js zero pid l f = absurd (omega arith)
remove-Removed nodes [] (suc fuel) pid l f =
    (store_of nodes [], refl, record { starts = refl; linked = tt }, λ h. cc, λ a x. refl)
remove-Removed nodes (j ∷ js) (suc fuel) pid l f =
    let there : (j.at == null) ≡ false = ground (arith, l.0) in
    elim (Bool-cases (int_eq j.pid pid)) [
      | inl hit ↦ remove_head nodes j js fuel pid l there hit
      | inr miss ↦ elim (Bool-cases (has_pid pid js)) [
        | inl later ↦
            remove_later nodes j js fuel pid l there miss
              (find_loop-Found (store_of nodes (j ∷ js)) pid j js fuel l later (omega arith))
        | inr missing ↦ remove_missing nodes j js fuel pid l there miss missing (omega arith)
      ]
    ]

-- With fuel above the number of jobs, `removeNode` on a list returns, takes the first job with the
-- pid out of the list and frees its node; where no job has the pid the list stays as it is. Nodes
-- that are not of the list are left alone.
pub remove_node-remove_first :
    {s : Store} {js : List Job} (fuel : ℕ) (pid : ℤ)
    → IsList s js
    → length js < fuel
    → (s' : Store) × (remove_node fuel s pid ≡ ok s')
      × IsList s' (remove_first pid js)
      × ((s'.node (address_of pid js) ≡ none) ⊎ (has_pid pid js ≡ false))
      × ((a : Pointer) → IsAt a js ⊎ (s'.node a ≡ s.node a))
remove_node-remove_first {s} {js} fuel pid v f =
    let (s', run, v', freed, same) =
      at_store (λ s. Removed s fuel pid js) v (remove-Removed s.node js fuel pid v.linked f) in
    (
      s',
      run,
      v',
      elim (Bool-cases (has_pid pid js)) [
        | inl known ↦ inl (freed known)
        | inr unknown ↦ inr unknown
      ],
      λ a. elim (IsAt-or-Absent a js) [ inl at ↦ inl at | inr out ↦ inr (same a out) ],
    )
