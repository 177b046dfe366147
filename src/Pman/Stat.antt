-- ===== src/Pman/Stat.antt =====
-- `pstat` of a1/PMan.c: the files of a process in /proc.
use csc.Base.{
  ℕ, suc, ◌/◌, ℤ, pos, negsuc, true, false, List, [], ◌∷◌, ◌++◌, Option, none, some, ltb, ◌==◌,
  if◌then◌else◌, length, get_elem?, Run, ok, fault, ◌>>=◌,
}
use csc.Text.{str_eq, tokens, strtol, to_int, negate}
use csc.Pman.Store.{Store, check_pid}
use csc.Pman.Effects.{
  Text, no_stat_file, stat_fields, no_status_file, status_line, status_line_apart,
  error_does_not_exist, printed, Effects, System,
}

-- Division of C, towards 0.
abbrev pub divide : ℤ → ℕ → ℤ
divide (pos a) b = pos (a / b)
divide (negsuc a) b = negate (suc a / b)

abbrev pub field : List Text → ℕ → Run Text
field fields i = elim (get_elem? fields i) [ none ↦ fault | some t ↦ ok t ]

abbrev pub last_line : Text → List Text → Text
last_line line [] = line
last_line line (l ∷ ls) = last_line l ls

-- `statData`: every `data[i]` is the one buffer `str`, so the last line read is split. `none` is a
-- file that cannot be opened; a pointer that no line or token sets may not be used.
unfoldable pub stat_data : ℕ → Option (List Text) → Run Effects
stat_data ticks none = ok (printed no_stat_file ∷ [])
stat_data ticks (some []) = fault
stat_data ticks (some (line ∷ lines)) = if ltb 512 (suc (length lines)) then fault else do
  let fields = tokens b' ' (last_line line lines)
  comm ← field fields 1
  state ← field fields 2
  utime ← field fields 13
  stime ← field fields 14
  rss ← field fields 24
  ok (
      printed (
        stat_fields comm state (divide (to_int (strtol utime)) ticks)
          (divide (to_int (strtol stime)) ticks) rss)
      ∷ [])

abbrev pub voluntary : Text
voluntary =
    b'v' ∷ b'o' ∷ b'l' ∷ b'u' ∷ b'n' ∷ b't' ∷ b'a' ∷ b'r' ∷ b'y' ∷ b'_' ∷ b'c' ∷ b't' ∷ b'x' ∷ b't'
    ∷ b'_' ∷ b's' ∷ b'w' ∷ b'i' ∷ b't' ∷ b'c' ∷ b'h' ∷ b'e' ∷ b's' ∷ []

abbrev pub nonvoluntary : Text
nonvoluntary = b'n' ∷ b'o' ∷ b'n' ∷ voluntary

-- One token of a line of the status file.
abbrev pub token_effects : Text → Text → Effects
token_effects line token =
    if str_eq token voluntary
    then printed (status_line line) ∷ []
    else if str_eq token nonvoluntary
    then printed (status_line_apart line) ∷ []
    else []

abbrev pub all_tokens : Text → List Text → Effects
all_tokens line [] = []
all_tokens line (t ∷ ts) = token_effects line t ++ all_tokens line ts

-- `strtok(str, ":")`, and the bytes behind the separator that ends the token.
unfoldable pub first_token : ℕ → Text → Text → Text × Text
first_token separator current [] = (current, [])
first_token separator current (b ∷ bs) = elim (b == separator) [
  | true ↦ elim current [ [] ↦ first_token separator [] bs | c ∷ cs ↦ (c ∷ cs, bs) ]
  | false ↦ first_token separator (current ++ (b ∷ [])) bs
]

abbrev pub line_tokens : Text × Text → List Text
line_tokens ([], rest) = []
line_tokens (b ∷ bs, rest) = (b ∷ bs) ∷ tokens b' ' rest

-- `statusData`: a line of 800 bytes and more does not fit the buffers.
unfoldable pub status_lines : List Text → Run Effects
unfolding first_token
status_lines [] = ok []
status_lines (line ∷ lines) =
    if ltb (length line) 800
    then (do
      rest ← status_lines lines
      ok (all_tokens line (line_tokens (first_token b':' [] line)) ++ rest))
    else fault

unfoldable pub status_data : Option (List Text) → Run Effects
unfolding status_lines
status_data none = ok (printed no_status_file ∷ [])
status_data (some lines) = status_lines lines

unfoldable pub pstat_entry : ℕ → System → Store → ℤ → Run Effects
pstat_entry fuel sys s pid = do
  check ← check_pid fuel s pid
  if check == 1 then ok (printed (error_does_not_exist pid) ∷ []) else do
    first ← stat_data sys.clock_ticks (sys.stat pid)
    second ← status_data (sys.status pid)
    ok (first ++ second)
