-- ===== src/Disk/Sample.antt =====
-- A small disk image for the tests: a label, the file A.TXT, and the directory D with the
-- directories E and F and the file X.
use csc.Base.{
  ℕ, zero, suc, ◌+◌, ◌-◌, ◌<◌, ◌≡◌, refl, List, [], ◌∷◌, arith, ltb, if◌then◌else◌, get_or, ok,
  Bool, true, false, ◌&&◌, Run, leb, length,
}
use csc.Disk.Image.{Image}
use csc.Disk.Fat.Packed.{packed_byte, IsPacked}
use csc.Disk.Entry.{Kind, skipped, entry_kind}
use csc.Disk.Forest.{empty, slots, Shows, no_slots, skip}

-- A directory entry: 11 bytes of name, attribute, time and date, cluster, size.
abbrev entry_bytes : List ℕ → ℕ → ℕ → ℕ → List ℕ
entry_bytes name attribute flc size =
    get_or name 0 32
    ∷ get_or name 1 32
    ∷ get_or name 2 32
    ∷ get_or name 3 32
    ∷ get_or name 4 32
    ∷ get_or name 5 32
    ∷ get_or name 6 32
    ∷ get_or name 7 32
    ∷ get_or name 8 32
    ∷ get_or name 9 32
    ∷ get_or name 10 32
    ∷ attribute
    ∷ 0
    ∷ 0
    ∷ 131
    ∷ 108
    ∷ 123
    ∷ 77
    ∷ 0
    ∷ 0
    ∷ 0
    ∷ 0
    ∷ 0
    ∷ 0
    ∷ 0
    ∷ 0
    ∷ flc
    ∷ 0
    ∷ size
    ∷ 1
    ∷ 0
    ∷ 0
    ∷ []

abbrev a_txt : List ℕ
a_txt = b'A' ∷ 32 ∷ 32 ∷ 32 ∷ 32 ∷ 32 ∷ 32 ∷ 32 ∷ b'T' ∷ b'X' ∷ b'T' ∷ []

abbrev segments : List (ℕ × List ℕ)
segments =
    (
      3,
      b'M' ∷ b'S' ∷ b'D' ∷ b'O' ∷ b'S' ∷ b'5' ∷ b'.' ∷ b'0' ∷ 0 ∷ 2 ∷ 1 ∷ 1 ∷ 0 ∷ 2 ∷ 224 ∷ 0 ∷ 80
          ∷ 0 ∷ 240 ∷ 9 ∷ 0 ∷ [],
    )
    ∷ (9728, entry_bytes (b'D' ∷ b'I' ∷ b'S' ∷ b'K' ∷ []) 8 0 0)
    ∷ (9760, entry_bytes a_txt 0 3 44)
    ∷ (9792, entry_bytes (b'D' ∷ []) 16 2 0)
    ∷ (16896, entry_bytes (b'E' ∷ []) 16 4 0)
    ∷ (16928, entry_bytes (b'F' ∷ []) 16 5 0)
    ∷ (16960, entry_bytes (b'X' ∷ []) 0 6 0)
    ∷ []

at_segment : List (ℕ × List ℕ) → ℕ → ℕ
at_segment [] i = 0
at_segment ((o, bs) ∷ rest) i =
    if leb o i && ltb i (o + length bs) then get_or bs (i - o) 0 else at_segment rest i

-- Clusters 2 to 6 are in use, each the last of its chain.
abbrev pub fat_entry : ℕ → ℕ
fat_entry n = if ltb n 7 then 0xfff else 0

unfoldable pub sample_byte : ℕ → ℕ
unfolding at_segment
sample_byte i =
    if ltb i 512
    then at_segment segments i
    else if ltb i 5120
    then packed_byte fat_entry (i - 512)
    else at_segment segments i

abbrev pub sample : Image
sample = record { size = 40960; byte = sample_byte }

pub sample-IsPacked : IsPacked sample 512 4608 fat_entry
unfolding sample_byte
sample-IsPacked = record { mapped = omega arith; small = λ n. ground arith; packed = sample-packed }
  where
    sample-packed : (i : ℕ) → i < 4608 → sample_byte (512 + i) ≡ packed_byte fat_entry i
    sample-packed i h =
        let below : ltb (512 + i) 512 ≡ false = ground arith in
        let above : ltb (512 + i) 5120 ≡ true = ground arith in
        let back : 512 + i - 512 ≡ i = omega arith in rw (below, above, back)

abbrev is_blank : Run Kind → Bool
is_blank (ok skipped) = true
is_blank _ = false

-- Slots that hold nothing.
abbrev pub all_blank : ℕ → ℕ → Bool
all_blank zero e = true
all_blank (suc k) e = is_blank (entry_kind sample e) && all_blank k (e + 32)

unfoldable pub blank_kind : (r : Run Kind) → is_blank r ≡ true → r ≡ ok skipped
blank_kind (ok skipped) h = refl
blank_kind (ok (Kind.directory flc)) h = cc
blank_kind (ok Kind.file) h = cc
blank_kind Run.fault h = cc
blank_kind Run.out_of_fuel h = cc

unfoldable pub and_parts : (a b : Bool) → (a && b) ≡ true → (a ≡ true) × (b ≡ true)
and_parts true b h = (refl, h)
and_parts false b h = cc

unfoldable pub blank_slots : (k e : ℕ) → all_blank k e ≡ true → Shows sample 512 (slots k e) empty
blank_slots zero e h = no_slots
blank_slots (suc k) e h =
    let (a, b) = and_parts (is_blank (entry_kind sample e)) (all_blank k (e + 32)) h in
    skip (blank_kind (entry_kind sample e) a) (blank_slots k (e + 32) b)
