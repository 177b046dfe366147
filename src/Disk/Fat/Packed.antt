-- ===== src/Disk/Fat/Packed.antt =====
-- The FAT12 layout: two 12-bit entries in three bytes. The readers of a3 undo it.
use csc.Base.{ℕ, ◌+◌, ◌*◌, ◌/◌, ◌%◌, ◌^◌, ◌<◌, ◌≡◌, arith, ◌==◌, if◌then◌else◌, ◌-◌, dec_lt, ap, ok}
use csc.Disk.Image.{Image, sector_size, load_word, load-ok}
use csc.Disk.Fat.{get_fat_entry, get_free_space_fat_entry, fat_table_location}

-- Byte `i` of the table of the entries `entry 0`, `entry 1`, …
abbrev pub packed_byte : (ℕ → ℕ) → ℕ → ℕ
packed_byte entry i =
    if i % 3 == 0
    then entry (2 * (i / 3)) % 256
    else if i % 3 == 1
    then entry (2 * (i / 3)) / 256 + entry (2 * (i / 3) + 1) % 16 * 16
    else entry (2 * (i / 3) + 1) / 16

-- The image holds the table of these entries in `len` bytes from offset `table` on.
pub record IsPacked (img : Image) (table len : ℕ) (entry : ℕ → ℕ) : Type 0 where
  pub mapped : table + len < img.size
  pub small : (n : ℕ) → entry n < 4096
  pub packed : (i : ℕ) → i < len → img.byte (table + i) ≡ packed_byte entry i

module _ (entry : ℕ → ℕ) (n : ℕ) where
  -- The two bytes that hold an entry of even index.
  packed-even :
      n % 2 ≡ 0
      → (packed_byte entry (3 * n / 2) ≡ entry n % 256)
        × (packed_byte entry (3 * n / 2 + 1) ≡ entry n / 256 + entry (n + 1) % 16 * 16)
  packed-even h =
      let e : 2 * (3 * n / 2 / 3) ≡ n = omega arith in
      let e' : 2 * ((3 * n / 2 + 1) / 3) ≡ n = omega arith in
      let r : 3 * n / 2 % 3 ≡ 0 = omega arith in
      let r' : (3 * n / 2 + 1) % 3 ≡ 1 = omega arith in (rw (r, e), rw (r', e'))

  -- The two bytes that hold an entry of odd index.
  packed-odd :
      n % 2 ≡ 1
      → (packed_byte entry (3 * n / 2) ≡ entry (n - 1) / 256 + entry n % 16 * 16)
        × (packed_byte entry (3 * n / 2 + 1) ≡ entry n / 16)
  packed-odd h =
      let e : 2 * (3 * n / 2 / 3) ≡ n - 1 = omega arith in
      let d : n - 1 + 1 ≡ n = omega arith in
      let e' : 2 * ((3 * n / 2 + 1) / 3) + 1 ≡ n = omega arith in
      let r : 3 * n / 2 % 3 ≡ 1 = omega arith in
      let r' : (3 * n / 2 + 1) % 3 ≡ 2 = omega arith in (rw (r, e, d), rw (r', e'))

-- Each entry of a table in the FAT12 layout whose bytes all lie in the table is read back whole, at
-- even and at odd indices.
pub get_fat_entry-packed :
    {img : Image} {table len : ℕ} {entry : ℕ → ℕ} (n : ℕ)
    → IsPacked img table len entry
    → 3 * n / 2 + 1 < len
    → get_fat_entry img table n ≡ ok (entry n)
unfolding get_fat_entry
get_fat_entry-packed {img} {table} {len} {entry} n t h =
    let lo = load-ok img (table + 3 * n / 2) (omega arith) in
    let hi = load-ok img (table + (3 * n / 2 + 1)) (omega arith) in
    let lo' = t.packed (3 * n / 2) (omega arith) in
    let hi' = t.packed (3 * n / 2 + 1) h in
    elim (dec_lt (n % 2) 1) [
      | yes p ↦
          let (a, b) = packed-even entry n (omega arith) in
          let even : n % 2 ≡ 0 = omega arith in
          rw (even, hi, lo, hi', lo', a, b) (ap ok (omega (arith, t.small n, t.small (n + 1))))
      | no p ↦
          let (a, b) = packed-odd entry n (omega arith) in
          let odd : n % 2 ≡ 1 = omega arith in
          rw (odd, lo, hi, lo', hi', a, b) (ap ok (omega (arith, t.small n, t.small (n - 1))))
    ]

-- With the table behind one sector the two readers of diskinfo.c agree at every index, where they
-- fail too.
pub free_space-eq-fat_entry :
    (img : Image) (n : ℕ) → get_free_space_fat_entry img n ≡ get_fat_entry img sector_size n
unfolding get_free_space_fat_entry get_fat_entry
free_space-eq-fat_entry img n =
    let e : sector_size + 3 * n / 2 + 1 ≡ sector_size + (3 * n / 2 + 1) = omega arith in rw e

-- The table starts behind the reserved sectors that the boot sector names.
pub fat_table_location_lem :
    (img : Image) (bytes reserved : ℕ)
    → load_word img 11 ≡ ok bytes
    → load_word img 14 ≡ ok reserved
    → bytes * reserved < 2 ^ 31
    → fat_table_location img ≡ ok (bytes * reserved)
unfolding fat_table_location
fat_table_location_lem img bytes reserved b r h = rw (b, r) (ground arith)
