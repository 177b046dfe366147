-- ===== src/Disk/Signed.antt =====
-- a3/diskinfo-2.c: a summary of a disk image that reads its bytes as signed `char`s, and counts the
-- files of the root directory alone.
pub mod Agreement
use csc.Base.{
  ℕ, zero, suc, ◌+◌, ◌-◌, ◌*◌, ◌/◌, ◌%◌, ◌^◌, ℤ, pos, negsuc, int32, Bool, not, ◌&&◌, List, [], ◌∷◌,
  ltb, ◌==◌, if◌then◌else◌, Run, ok, fault, out_of_fuel, ◌>>=◌,
}
use csc.Disk.Image.{
  Image, Opened, not_opened, not_mapped, mapped, sector_size, load, load_bytes, has_bit,
  store_front, read_string,
}

-- A byte as a signed `char`, and the 32 bits of the `int` that it becomes.
abbrev pub extend : ℕ → ℕ
extend b = if ltb b (2 ^ 7) then b else b + (2 ^ 32 - 2 ^ 8)

-- `(p[i + 1] << 8) + p[i]`: gcc shifts a negative number as its 32 bits.
unfoldable pub signed_word : Image → ℕ → Run ℕ
signed_word img i = do
  hi ← load img (i + 1)
  lo ← load img i
  ok ((extend hi * 2 ^ 8 + extend lo) % 2 ^ 32)

-- `SizeOfDisk`. The product of the two `int`s always fits an `int`.
unfoldable pub size_of_disk : Image → Run ℤ
unfolding signed_word
size_of_disk img = do
  bytes_in_each_sector ← signed_word img 11
  total_num_sectors ← signed_word img 19
  ok (int32 (bytes_in_each_sector * total_num_sectors % 2 ^ 32))

unfoldable pub go_through_fat_entries : Image → ℕ → Run ℕ
go_through_fat_entries img i = if i % 2 == 0 then even else odd
  where
    odd : Run ℕ
    odd = do
      b ← load img (sector_size + 3 * i / 2)
      let first = extend b / 2 ^ 4 % 2 ^ 4 * 2 ^ 4
      c ← load img (sector_size + 3 * i / 2 + 1)
      let second = extend c % 2 ^ 8
      ok (first / 2 ^ 4 + second * 2 ^ 4)

    even : Run ℕ
    even = do
      b ← load img (sector_size + 3 * i / 2 + 1)
      let first = extend b % 2 ^ 4
      c ← load img (sector_size + 3 * i / 2)
      let second = extend c % 2 ^ 8
      ok (first * 2 ^ 8 + second)

unfoldable pub free_loop : ℕ → Image → ℕ → ℕ → Run ℕ
free_loop zero img i free = ok free
free_loop (suc rounds) img i free = do
  entry ← go_through_fat_entries img i
  free_loop rounds img (i + 1) (if entry == 0x00 then free + 1 else free)

-- The rounds of the loop from 2 on to `SizeOfDisk / SECTOR_SIZE - 31`, none where that is negative.
abbrev pub rounds_of : ℤ → ℕ
rounds_of (pos size) = size / sector_size - 31 - 2
rounds_of (negsuc size) = 0

unfoldable pub free_size_of_disk : Image → Run ℕ
unfolding free_loop
free_size_of_disk img = do
  size ← size_of_disk img
  free ← free_loop (rounds_of size) img 2 0
  ok (sector_size * free)

-- The label's block behind the loop.
unfoldable pub fetch_label : ℕ → Image → ℕ → List ℕ → Run (List ℕ)
fetch_label zero img e label = out_of_fuel
fetch_label (suc fuel) img e label = do
  first ← load img e
  if first == 0x00 then ok label else do
    attribute ← load img (e + 11)
    label' ←
        if attribute == 0x08
        then load_bytes img e 8 >>= (λ name. store_front name label)
        else ok label
    fetch_label fuel img (e + 32) label'

-- The attributes of an entry that counts as a file: no volume label, no directory, not hidden.
abbrev pub counts : ℕ → Bool
counts attribute =
    not (has_bit attribute 3) && not (has_bit attribute 4) && not (has_bit attribute 1)

-- The `continue` stands behind tests that one byte is 0 and is 1; it would never end.
unfoldable pub file_loop : ℕ → Image → ℕ → ℕ → Run ℕ
file_loop zero img e num_of_files = out_of_fuel
file_loop (suc fuel) img e num_of_files = do
  first ← load img e
  if first == 0x00 then ok num_of_files else do
    cluster ← load img (e + 26)
    attribute ← load img (e + 11)
    if (cluster == 0x00) && (cluster == 0x01) && (attribute == 0x0F)
        then out_of_fuel
        else file_loop fuel img (e + 32)
            (if counts attribute then num_of_files + 1 else num_of_files)

unfoldable pub total_num_of_files : ℕ → Image → Run ℕ
unfolding file_loop
total_num_of_files fuel img = file_loop fuel img (sector_size * 19) 0

-- What `main` prints.
pub data Line : Type 0 where
  usage : Line
  unable_to_read : Line
  unable_to_map : Line
  os_name : List ℕ → Line
  disk_label : List ℕ → Line
  total_size : ℤ → Line
  free_size : ℕ → Line
  number_of_files : ℕ → Line
  fat_copies : ℤ → Line
  sectors_per_fat : ℤ → Line

unfoldable pub report : ℕ → Image → (os_block label_block : List ℕ) → Run (List Line)
report fuel img os_block label_block = do
  name ← load_bytes img 3 8
  os ← store_front name os_block
  label ← fetch_label fuel img (sector_size * 19) label_block
  size ← size_of_disk img
  free ← free_size_of_disk img
  files ← total_num_of_files fuel img
  os_text ← read_string os
  label_text ← read_string label
  copies ← load img 16
  per_fat ← signed_word img 22
  ok (
      os_name os_text
      ∷ disk_label label_text
      ∷ total_size size
      ∷ free_size free
      ∷ number_of_files files
      ∷ fat_copies (int32 (extend copies))
      ∷ sectors_per_fat (int32 per_fat)
      ∷ [])

unfoldable pub main :
    (argc : ℕ) → Opened → ℕ → (os_block label_block : List ℕ) → Run (ℕ × List Line)
main argc opened fuel os_block label_block = if ltb argc 2 then ok (1, usage ∷ []) else run opened
  where
    run : Opened → Run (ℕ × List Line)
    run not_opened = ok (1, unable_to_read ∷ [])
    run not_mapped = ok (1, unable_to_map ∷ [])
    run (mapped img) = do lines ← report fuel img os_block label_block; ok (0, lines)
