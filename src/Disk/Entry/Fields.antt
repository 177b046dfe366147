-- ===== src/Disk/Entry/Fields.antt =====
-- Time stamps and sizes of directory entries, as DOS stores them and as a3/disklist.c prints them.
use csc.Base.{
  ℕ, ◌+◌, ◌-◌, ◌*◌, ◌/◌, ◌%◌, ◌^◌, ◌≤◌, ◌<◌, ◌≡◌, [], ◌∷◌, arith, ltb, pos, negsuc, if◌then◌else◌,
  ok,
}
use csc.Disk.Image.{Image, load, load_word}
use csc.Disk.Entry.{date_field, time_field, print_datetime, filesize}

-- A creation time, as DOS packs it into two 16-bit words.
pub record Stamp : Type 0 where
  pub year : ℕ
  pub month : ℕ
  pub day : ℕ
  pub hours : ℕ
  pub minutes : ℕ
  pub two_seconds : ℕ

pub record IsStamp (s : Stamp) : Type 0 where
  pub from_1980 : 1980 ≤ s.year
  pub to_2107 : s.year < 2108
  pub month_fits : s.month < 16
  pub day_fits : s.day < 32
  pub hours_fit : s.hours < 32
  pub minutes_fit : s.minutes < 64
  pub seconds_fit : s.two_seconds < 32

abbrev pub date_word : Stamp → ℕ
date_word s = (s.year - 1980) * 512 + s.month * 32 + s.day

abbrev pub time_word : Stamp → ℕ
time_word s = s.hours * 2048 + s.minutes * 32 + s.two_seconds

-- For an entry that holds a creation time from 1980 to 2107 as DOS packs it, `print_datetime`
-- prints its year, month, day, hours and minutes.
pub print_datetime-Stamp :
    (img : Image) (e : ℕ) (s : Stamp)
    → IsStamp s
    → load_word img (e + 14) ≡ ok (time_word s)
    → load_word img (e + 16) ≡ ok (date_word s)
    → print_datetime img e
      ≡ ok (date_field s.year s.month s.day ∷ time_field s.hours s.minutes ∷ [])
unfolding print_datetime
print_datetime-Stamp img e s v t d = rw (t, d) (ground arith)

-- For a size below 2 ^ 32 whose four bytes stand in the size field in little-endian order,
-- `filesize` returns the size if it lies below 2 ^ 31, and else the size less 2 ^ 32.
pub filesize_lem :
    (img : Image) (e size : ℕ)
    → size < 2 ^ 32
    → load img (e + 28) ≡ ok (size % 256)
    → load img (e + 29) ≡ ok (size / 2 ^ 8 % 256)
    → load img (e + 30) ≡ ok (size / 2 ^ 16 % 256)
    → load img (e + 31) ≡ ok (size / 2 ^ 24 % 256)
    → filesize img e ≡ ok (if ltb size (2 ^ 31) then pos size else negsuc (2 ^ 32 - 1 - size))
unfolding filesize
filesize_lem img e size h a b c d =
    let sum : size % 256
          + size / 2 ^ 8 % 256 * 2 ^ 8
          + size / 2 ^ 16 % 256 * 2 ^ 16
          + size / 2 ^ 24 % 256 * 2 ^ 24
        ≡ size =
      omega arith in
    rw (a, b, c, d, sum) (ground arith)
