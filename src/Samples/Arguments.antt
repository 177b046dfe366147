-- ===== src/Samples/Arguments.antt =====
-- a1/args.c and a1/inf.c: programs that PMan is tried on. `argv` is the list of the arguments, the
-- program's name first.
use csc.Base.{ℕ, zero, suc, ◌+◌, ℤ, List, [], ◌∷◌, ◌++◌, length, ltb, if◌then◌else◌}
use csc.Text.{strtol, to_int}

-- What args.c prints, on the error stream too.
pub data Line : Type 0 where
  usage : Line
  rule : Line
  argument : ℕ → List ℕ → Line

-- The `for` loop, from argument `i` on.
abbrev pub argument_lines : ℕ → List (List ℕ) → List Line
argument_lines i [] = []
argument_lines i (arg ∷ args) = argument i arg ∷ argument_lines (i + 1) args

unfoldable pub print_arguments : List (List ℕ) → List Line
print_arguments argv =
    if ltb (length argv) 2 then usage ∷ [] else rule ∷ (argument_lines 0 argv ++ (rule ∷ []))

-- What inf.c does.
pub data Act : Type 0 where
  usage_inf : Act
  prints : List ℕ → Act
  sleeps : ℤ → Act

-- The first rounds of the `while` loop, which never ends.
abbrev pub rounds : ℕ → List ℕ → ℤ → List Act
rounds zero tag interval = []
rounds (suc n) tag interval = prints tag ∷ sleeps interval ∷ rounds n tag interval

-- `main` of inf.c, as far as some rounds of its loop.
unfoldable pub repeat_tag : ℕ → List (List ℕ) → List Act
repeat_tag n (name ∷ tag ∷ interval ∷ []) = rounds n tag (to_int (strtol interval))
repeat_tag n argv = usage_inf ∷ []
