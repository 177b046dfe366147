-- ===== src/Text.antt =====
-- What the programs use of <string.h> and <stdlib.h>: `strcmp`, `strtok`, `strtol` and `atoi` on bytes.
pub mod Tokens
pub mod Compare
use csc.Base.{
  ℕ, zero, suc, ◌+◌, ◌-◌, ◌*◌, ◌%◌, ◌^◌, ℤ, pos, negsuc, int32, Bool, true, false, ◌&&◌, ◌||◌, List,
  [], ◌∷◌, ◌++◌, ltb, leb, ◌==◌, if◌then◌else◌, min,
}

-- `strcmp(a, b) == 0`
abbrev pub str_eq : List ℕ → List ℕ → Bool
str_eq [] [] = true
str_eq [] (b ∷ bs) = false
str_eq (a ∷ as_) [] = false
str_eq (a ∷ as_) (b ∷ bs) = (a == b) && str_eq as_ bs

abbrev pub emit : List ℕ → List (List ℕ) → List (List ℕ)
emit [] tokens = tokens
emit (b ∷ bs) tokens = (b ∷ bs) ∷ tokens

-- The tokens that calls of `strtok` with one separator return; `current` is the token begun.
unfoldable pub split : ℕ → List ℕ → List ℕ → List (List ℕ)
split separator current [] = emit current []
split separator current (b ∷ bs) = elim (b == separator) [
  | true ↦ emit current (split separator [] bs)
  | false ↦ split separator (current ++ (b ∷ [])) bs
]

unfoldable pub tokens : ℕ → List ℕ → List (List ℕ)
unfolding split
tokens separator line = split separator [] line

abbrev pub is_digit : ℕ → Bool
is_digit b = leb b'0' b && leb b b'9'

-- Space, and the five control characters from tab on.
abbrev pub is_space : ℕ → Bool
is_space b = b == b' ' || leb 9 b && leb b 13

-- The value of the digits in front.
unfoldable pub digits : ℕ → List ℕ → ℕ
digits n [] = n
digits n (b ∷ bs) = elim (is_digit b) [ true ↦ digits (n * 10 + (b - b'0')) bs | false ↦ n ]

abbrev pub negate : ℕ → ℤ
negate zero = pos 0
negate (suc n) = negsuc n

abbrev pub signed : List ℕ → ℤ
signed [] = pos 0
signed (b ∷ bs) =
    if b == b'-'
    then negate (min (digits 0 bs) (2 ^ 63))
    else if b == b'+'
    then pos (min (digits 0 bs) (2 ^ 63 - 1))
    else pos (min (digits 0 (b ∷ bs)) (2 ^ 63 - 1))

-- `strtol(text, NULL, 10)`, a 64-bit `long` that saturates.
unfoldable pub strtol : List ℕ → ℤ
unfolding digits
strtol [] = pos 0
strtol (b ∷ bs) = elim (is_space b) [ true ↦ strtol bs | false ↦ signed (b ∷ bs) ]

-- The cast of a `long` to the 32 bits of `pid_t` or `int`.
abbrev pub to_int : ℤ → ℤ
to_int (pos n) = int32 (n % 2 ^ 32)
to_int (negsuc n) = int32 (2 ^ 32 - 1 - n % 2 ^ 32)
