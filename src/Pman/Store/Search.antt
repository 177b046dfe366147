-- ===== src/Pman/Store/Search.antt =====
-- `check_pid` and `bglist_entry` of a1/PMan.c on a list of jobs.
use csc.Base.{
  ℕ, zero, suc, ◌+◌, ◌<◌, ◌≡◌, refl, sym, ap, ◌∙◌, ℤ, int_eq, List, [], ◌∷◌, map, ◌==◌,
  if◌then◌else◌, inl, inr, Bool-cases, length, arith, ok, false,
}
use native.Mathlib.Nat.{zero-add, add-zero}
use csc.Pman.Store.{null, Store, check_loop, check_pid, list_loop, bglist_entry}
use csc.Pman.Store.Linked.{Job, first_or, Linked, IsList, has_pid, load-ok, store_of, at_store}

check_loop-has_pid :
    (s : Store) (pid : ℤ) (js : List Job) (fuel : ℕ)
    → Linked s.node js
    → length js < fuel
    → check_loop fuel s pid (first_or null js) ≡ ok (if has_pid pid js then 0 else 1)
unfolding check_loop
check_loop-has_pid s pid js zero l f = absurd (omega arith)
check_loop-has_pid s pid [] (suc fuel) l f = refl
check_loop-has_pid s pid (j ∷ js) (suc fuel) (ne, here, out, l) f =
    let there : (j.at == null) ≡ false = ground arith in
    rw (there, load-ok s ne here)
      (elim (Bool-cases (int_eq j.pid pid)) [
        | inl hit ↦ rw hit
        | inr miss ↦ rw miss (check_loop-has_pid s pid js fuel l (omega arith))
      ])

-- On a list, with fuel above its number of jobs, `check_pid` returns 0 if a job has the pid, and
-- else 1.
pub check_pid-has_pid :
    {s : Store} {js : List Job} (pid : ℤ) (fuel : ℕ)
    → IsList s js
    → length js < fuel
    → check_pid fuel s pid ≡ ok (if has_pid pid js then 0 else 1)
unfolding check_pid
check_pid-has_pid {s} {js} pid fuel v f =
    at_store (λ s. check_pid fuel s pid ≡ ok (if has_pid pid js then 0 else 1)) v
      (check_loop-has_pid (store_of s.node js) pid js fuel v.linked f)

-- What a list shows of its jobs.
abbrev pub lines : List Job → List (ℤ × List ℕ)
lines = map (λ j. (j.pid, j.command))

list_loop-map :
    (s : Store) (js : List Job) (fuel i : ℕ)
    → Linked s.node js
    → length js < fuel
    → list_loop fuel s (first_or null js) i ≡ ok (lines js, i + length js)
unfolding list_loop
list_loop-map s js zero i l f = absurd (omega arith)
list_loop-map s [] (suc fuel) i l f = ap (λ n. ok ([], n)) (sym (add-zero i))
list_loop-map s (j ∷ js) (suc fuel) i (ne, here, out, l) f =
    let there : (j.at == null) ≡ false = ground arith in
    rw (there, load-ok s ne here, list_loop-map s js fuel (i + 1) l (omega arith))
      (ap (λ n. ok (lines (j ∷ js), n)) (shift (length js)))
  where
    shift : (n : ℕ) → i + 1 + n ≡ i + suc n
    shift n = omega arith

-- On a list, with fuel above its number of jobs, `bglist_entry` prints pid and command of each job
-- in order, and their number.
pub bglist_entry-map :
    {s : Store} {js : List Job} (fuel : ℕ)
    → IsList s js
    → length js < fuel
    → bglist_entry fuel s ≡ ok (lines js, length js)
unfolding bglist_entry
bglist_entry-map {s} {js} fuel v f =
    at_store (λ s. bglist_entry fuel s ≡ ok (lines js, length js)) v
      (list_loop-map (store_of s.node js) js fuel 0 v.linked f
        ∙ ap (λ n. ok (lines js, n)) (zero-add (length js)))
