-- ===== src/Disk/Fat.antt =====
-- The 12-bit entries of the file allocation table: `get_FAT_entry` of a3/disklist.c and
-- a3/diskinfo.c, and `get_free_space_FAT_entry` of a3/diskinfo.c.
pub mod Packed
use csc.Base.{ℕ, ◌+◌, ◌*◌, ◌/◌, ◌%◌, ◌^◌, ltb, ◌==◌, if◌then◌else◌, Run, ok, fault, ◌>>=◌}
use csc.Disk.Image.{Image, sector_size, load, load_word}

-- `get_FAT_entry(fat_table_location, n)`; `table` is the offset of `fat_table_location`.
unfoldable pub get_fat_entry : Image → ℕ → ℕ → Run ℕ
get_fat_entry img table n = if n % 2 == 0 then even else odd
  where
    even : Run ℕ
    even = do
      b ← load img (table + (3 * n / 2 + 1))
      let low4bits = b % 2 ^ 4
      c ← load img (table + 3 * n / 2)
      let eight_bits = c % 2 ^ 8
      ok (low4bits * 2 ^ 8 + eight_bits)

    odd : Run ℕ
    odd = do
      b ← load img (table + 3 * n / 2)
      let high4bits = b / 2 ^ 4 % 2 ^ 4 * 2 ^ 4
      c ← load img (table + (3 * n / 2 + 1))
      let eight_bits = c % 2 ^ 8
      ok (high4bits / 2 ^ 4 + eight_bits * 2 ^ 4)

-- `get_free_space_FAT_entry(p, n)` for an `n` whose triple fits an `int`, as its callers give it; it
-- takes the table to stand behind the first sector
unfoldable pub get_free_space_fat_entry : Image → ℕ → Run ℕ
get_free_space_fat_entry img n = if n % 2 == 0 then even else odd
  where
    even : Run ℕ
    even = do
      b ← load img (sector_size + 3 * n / 2 + 1)
      let low4bits = b % 2 ^ 4
      c ← load img (sector_size + 3 * n / 2)
      let eight_bits = c % 2 ^ 8
      ok (low4bits * 2 ^ 8 + eight_bits)

    odd : Run ℕ
    odd = do
      b ← load img (sector_size + 3 * n / 2)
      let high4bits = b / 2 ^ 4 % 2 ^ 4 * 2 ^ 4
      c ← load img (sector_size + 3 * n / 2 + 1)
      let eight_bits = c % 2 ^ 8
      ok (high4bits / 2 ^ 4 + eight_bits * 2 ^ 4)

-- `main`: the boot sector's bytes per sector times its reserved sectors. The product of two
-- `int`s must fit an `int`.
unfoldable pub fat_table_location : Image → Run ℕ
fat_table_location img = do
  bytes_per_sector ← load_word img 11
  reserved ← load_word img 14
  if ltb (bytes_per_sector * reserved) (2 ^ 31) then ok (bytes_per_sector * reserved) else fault
