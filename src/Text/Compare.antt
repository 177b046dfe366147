-- ===== src/Text/Compare.antt =====
-- `strcmp` tells different texts apart.
use csc.Base.{ℕ, ◌≡◌, refl, ap₂, true, List, [], ◌∷◌, arith}
use csc.Text.{str_eq}

pub str_eq-eq : (xs ys : List ℕ) → str_eq xs ys ≡ true → xs ≡ ys
str_eq-eq [] [] e = refl
str_eq-eq [] (y ∷ ys) e = cc
str_eq-eq (x ∷ xs) [] e = cc
str_eq-eq (x ∷ xs) (y ∷ ys) e =
    let head : x ≡ y = ground (arith, e) in
    let tail : str_eq xs ys ≡ true = ground (arith, e) in
    ap₂ (λ a as_. a ∷ as_) head (str_eq-eq xs ys tail)
