-- ===== src/Samples/Stamp.antt =====
-- a3/sample_time_date_print.c: the creation time and date of a directory entry.
use csc.Base.{
  ℕ, ◌+◌, ◌*◌, ◌/◌, ◌%◌, ◌^◌, ◌≡◌, refl, List, map, [], ◌∷◌, arith, Run, ok, fault, out_of_fuel,
  ◌>>=◌,
}
use csc.Disk.Image.{Image, load_word, bits}
use csc.Disk.Entry.{Print, date_field, time_field, print_datetime}

abbrev pub time_offset : ℕ
time_offset = 14

abbrev pub date_offset : ℕ
date_offset = 16

-- `x & mask` for the mask of `width` ones at `lo`
abbrev pub masked : ℕ → ℕ → ℕ → ℕ
masked x lo width = x / 2 ^ lo % 2 ^ width * 2 ^ lo

-- What is printed, one constructor for each `printf`.
pub data Field : Type 0 where
  date_part : (year month day : ℕ) → Field  -- "%d-%02d-%02d "
  time_part : (hours minutes : ℕ) → Field  -- "%02d:%02d\n"

-- `print_date_time`. The two `unsigned short`s are read in little-endian order.
unfoldable pub print_date_time : Image → ℕ → Run (List Field)
print_date_time img e = do
  time ← load_word img (e + time_offset)
  date ← load_word img (e + date_offset)
  let year = masked date 9 7 / 2 ^ 9 + 1980
  let month = masked date 5 4 / 2 ^ 5
  let day = masked date 0 5
  let hours = masked time 11 5 / 2 ^ 11
  let minutes = masked time 5 6 / 2 ^ 5
  ok (date_part year month day ∷ time_part hours minutes ∷ [])

-- What disklist prints for it, with a space in front of the date.
abbrev pub as_listed : Field → Print
as_listed (date_part year month day) = date_field year month day
as_listed (time_part hours minutes) = time_field hours minutes

-- For every entry the sample prints the date and the time that disklist prints, but for the space that
-- disklist prints in front of the date, and reads outside of the image where disklist does.
pub print_date_time-datetime :
    (img : Image) (e : ℕ)
    → (print_date_time img e >>= λ fields. ok (map as_listed fields)) ≡ print_datetime img e
unfolding print_date_time print_datetime
print_date_time-datetime img e = both (load_word img (e + 14)) (load_word img (e + 16))
  where
    both :
        (time date : Run ℕ)
        → ((time >>= λ t. date >>= λ d. ok (
              date_part (masked d 9 7 / 2 ^ 9 + 1980) (masked d 5 4 / 2 ^ 5) (masked d 0 5)
              ∷ time_part (masked t 11 5 / 2 ^ 11) (masked t 5 6 / 2 ^ 5)
              ∷ []))
            >>= λ fields. ok (map as_listed fields))
          ≡ (time >>= λ t. date >>= λ d. ok (
              date_field (bits d 9 7 + 1980) (bits d 5 4) (bits d 0 5)
              ∷ time_field (bits t 11 5) (bits t 5 6)
              ∷ []))
    both (ok t) (ok d) = ground arith
    both (ok t) fault = refl
    both (ok t) out_of_fuel = refl
    both fault date = refl
    both out_of_fuel date = refl
