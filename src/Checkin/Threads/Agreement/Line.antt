-- ===== src/Checkin/Threads/Agreement/Line.antt =====
-- The agreement of a2/A2.c's threads at a queue whose line a section has changed.
use csc.Base.{
  some, ℕ, ◌+◌, ◌≡◌, ◌≢◌, refl, sym, subst, ap, ◌∙◌, ◌⊎◌, inl, inr, true, List, [], ◌∷◌, ◌++◌,
  length-append, none, arith,
}
use csc.Checkin.Desk.{Desk, customers, IsIn, Reached}
use csc.Checkin.Desk.Line.{customers-append, Reached-InLine}
use csc.Checkin.Threads.{class_of, Class, arriving, entered, taken, System, Setup, put}
use csc.Checkin.Threads.Runs.{IsSetup}
use csc.Checkin.Threads.Agreement.{in_queue, Agreement, put-cases}

IsIn-left : (x : ℕ) (as_ bs : List ℕ) → IsIn x as_ → IsIn x (as_ ++ bs)
IsIn-left x [] bs h = absurd h
IsIn-left x (a ∷ as_) bs (inl e) = inl e
IsIn-left x (a ∷ as_) bs (inr h) = inr (IsIn-left x as_ bs h)

IsIn-snoc : (x y : ℕ) (as_ : List ℕ) → IsIn x (as_ ++ (y ∷ [])) → IsIn x as_ ⊎ (x ≡ y)
IsIn-snoc x y [] (inl e) = inr e
IsIn-snoc x y [] (inr h) = absurd h
IsIn-snoc x y (a ∷ as_) (inl e) = inl (inl e)
IsIn-snoc x y (a ∷ as_) (inr h) = elim (IsIn-snoc x y as_ h) [ inl i ↦ inl (inr i) | inr e ↦ inr e ]

pub IsIn-last : (x : ℕ) (as_ : List ℕ) → IsIn x (as_ ++ (x ∷ []))
IsIn-last x [] = inl refl
IsIn-last x (a ∷ as_) = inr (IsIn-last x as_)

pub taken-entered :
    {d : Desk} {all : List ℕ} {gone : List (ℕ × ℕ)} {calls : ℕ} (x : ℕ)
    → Reached d all gone calls
    → IsIn x (customers gone)
    → IsIn x all
taken-entered {gone} x r h =
    let (cells, v) = Reached-InLine r in rw (v.order) (IsIn-left x (customers gone) _ h)

-- The agreement at a queue that a customer enters.
pub Agreement-enters :
    {setup : Setup} {s t : System} {c : Class} {d : Desk} (good : IsSetup setup) (i : ℕ)
    (of_class : class_of (setup.class_type i) ≡ some c) (a : Agreement setup s c)
    → Reached d (a.all ++ (setup.id i ∷ [])) a.gone a.calls
    → ((p : ℕ) → p ≢ setup.address i → (s.desk c).nodes p ≡ none → d.nodes p ≡ none)
    → (IsIn (setup.id i) a.all → ⊥)
    → t.desk c ≡ d
    → t.num_customers c ≡ s.num_customers c
    → t.customer ≡ put s.customer i entered
    → Agreement setup t c
Agreement-enters {setup} {s} {t} {c} {d} good i of_class a r kept out desk num cust = record {
  all = a.all ++ (setup.id i ∷ []);
  gone = a.gone;
  calls = a.calls;
  reached = subst (λ d. Reached d (a.all ++ (setup.id i ∷ [])) a.gone a.calls) (sym desk) r;
  counted = num ∙ a.counted;
  fresh = λ j k e.
      put-cases
        (λ p.
          p ≡ arriving
          → ((t.desk c).nodes (setup.address j) ≡ none)
            × (IsIn (setup.id j) (a.all ++ (setup.id i ∷ [])) → ⊥))
        s.customer i j entered (λ same e. cc)
        (λ other e.
          let (unused, out_j) = a.fresh j k e in
          (
            ap (λ (d : Desk). d.nodes (setup.address j)) desk
                ∙ kept (setup.address j) (λ e. other (good.distinct_nodes j i e)) unused,
            λ h. elim (IsIn-snoc (setup.id j) (setup.id i) a.all h) [
              | inl before ↦ out_j before
              | inr e ↦ other (good.distinct_ids j i (c, k) (c, of_class) e)
            ],
          ))
        (ap (λ f. f j) (sym cust) ∙ e);
  in_line = λ j k e.
      put-cases
        (λ p.
          in_queue p ≡ true
          → IsIn (setup.id j) (a.all ++ (setup.id i ∷ []))
            × (IsIn (setup.id j) (customers a.gone) → ⊥))
        s.customer i j entered
        (λ same e.
          rw same (IsIn-last (setup.id i) a.all, λ h. out (taken-entered (setup.id i) a.reached h)))
        (λ other e.
          let (there, out_j) = a.in_line j k e in (IsIn-left (setup.id j) a.all _ there, out_j))
        (ap (λ f. in_queue (f j)) (sym cust) ∙ e);
}

-- The agreement at a queue from which a customer is taken.
pub Agreement-takes :
    {setup : Setup} {s t : System} {c : Class} {d : Desk} (good : IsSetup setup) (i clerk : ℕ)
    (of_class : class_of (setup.class_type i) ≡ some c) (a : Agreement setup s c)
    → Reached d a.all (a.gone ++ ((setup.id i, clerk) ∷ [])) a.calls
    → d.nodes ≡ (s.desk c).nodes
    → t.desk c ≡ d
    → t.num_customers c ≡ s.num_customers c + 1
    → t.customer ≡ put s.customer i (taken clerk)
    → Agreement setup t c
Agreement-takes {setup} {s} {t} {c} {d} good i clerk of_class a r kept desk num cust = record {
  all = a.all;
  gone = a.gone ++ ((setup.id i, clerk) ∷ []);
  calls = a.calls;
  reached =
      subst (λ d. Reached d a.all (a.gone ++ ((setup.id i, clerk) ∷ [])) a.calls) (sym desk) r;
  counted = omega (arith, num, a.counted, length-append a.gone ((setup.id i, clerk) ∷ []));
  fresh = λ j k e.
      put-cases
        (λ p.
          p ≡ arriving
          → ((t.desk c).nodes (setup.address j) ≡ none) × (IsIn (setup.id j) a.all → ⊥))
        s.customer i j (taken clerk) (λ same e. cc)
        (λ other e.
          let (unused, out_j) = a.fresh j k e in
          (
            ap (λ (d : Desk). d.nodes (setup.address j)) desk
                ∙ ap (λ f. f (setup.address j)) kept
                ∙ unused,
            out_j,
          ))
        (ap (λ f. f j) (sym cust) ∙ e);
  in_line = λ j k e.
      put-cases
        (λ p.
          in_queue p ≡ true
          → IsIn (setup.id j) a.all
            × (IsIn (setup.id j) (customers (a.gone ++ ((setup.id i, clerk) ∷ []))) → ⊥))
        s.customer i j (taken clerk) (λ same e. cc)
        (λ other e.
          let (there, out_j) = a.in_line j k e in
          (
            there,
            λ h.
                elim (IsIn-snoc (setup.id j) (setup.id i) (customers a.gone)
                  (subst (IsIn (setup.id j)) (customers-append a.gone (setup.id i) clerk) h)) [
                    | inl before ↦ out_j before
                    | inr e ↦ other (good.distinct_ids j i (c, k) (c, of_class) e)
                  ],
          ))
        (ap (λ f. in_queue (f j)) (sym cust) ∙ e);
}
