-- ===== src/Disk/Info.antt =====
-- a3/diskinfo.c: the summary of a disk image.
pub mod Free
pub mod Volume
pub mod Count
pub mod Root
use csc.Base.{
  ℕ, zero, suc, ◌+◌, ◌-◌, ◌*◌, ◌/◌, ◌^◌, Bool, not, ◌&&◌, List, [], ◌∷◌, ltb, leb, ◌==◌,
  if◌then◌else◌, Run, ok, fault, out_of_fuel, ◌>>=◌,
}
use csc.Disk.Image.{
  Image, Opened, not_opened, not_mapped, mapped, sector_size, load, load_word, load_bytes, has_bit,
  store_front, read_string,
}
use csc.Disk.Fat.{get_fat_entry, get_free_space_fat_entry, fat_table_location}
use csc.Disk.Entry.{Kind, skipped, file, directory, root_kind, entry_kind}

-- What `main` prints, one constructor for each line.
pub data Line : Type 0 where
  too_many_arguments : Line
  too_few_arguments : Line
  invalid_input : Line
  map_failed : Line
  os_name : List ℕ → Line
  disk_label : List ℕ → Line
  total_size : ℕ → Line
  free_size : ℕ → Line
  separator : Line
  number_of_files : ℕ → Line
  fat_copies : ℕ → Line
  sectors_per_fat_line : ℕ → Line

-- `block` is the memory that `malloc` returns for the name.
unfoldable pub print_os_name : Image → List ℕ → Run Line
print_os_name img block = do
  name ← load_bytes img 3 8
  stored ← store_front name block
  text ← read_string stored
  ok (os_name text)

abbrev pub is_label : ℕ → Bool
is_label attribute = not (attribute == 0x0F) && has_bit attribute 3

-- The label's block after the loop over the root directory, from offset `e` on.
unfoldable pub label_loop : ℕ → Image → ℕ → List ℕ → Run (List ℕ)
label_loop zero img e label = out_of_fuel
label_loop (suc fuel) img e label = do
  first ← load img e
  if first == 0x00 then ok label else do
    attribute ← load img (e + 11)
    label' ←
        if is_label attribute
        then load_bytes img e 8 >>= (λ name. store_front name label)
        else ok label
    label_loop fuel img (e + 32) label'

unfoldable pub print_disk_label : ℕ → Image → List ℕ → Run Line
unfolding label_loop
print_disk_label fuel img block = do
  stored ← label_loop fuel img (sector_size * 19) block
  text ← read_string stored
  ok (disk_label text)

-- The product of two `int`s must fit an `int`.
unfoldable pub total_disk_size : Image → Run ℕ
total_disk_size img = do
  bytes_per_sector ← load_word img 11
  total_sector_count ← load_word img 19
  if ltb (bytes_per_sector * total_sector_count) (2 ^ 31)
      then ok (bytes_per_sector * total_sector_count)
      else fault

unfoldable pub print_total_disk_size : Image → Run Line
unfolding total_disk_size
print_total_disk_size img = do size ← total_disk_size img; ok (total_size size)

-- The rounds of the loop that are left, its index, and the empty entries counted before.
unfoldable pub empty_loop : ℕ → Image → ℕ → ℕ → Run ℕ
empty_loop zero img i free = ok free
empty_loop (suc rounds) img i free = do
  entry ← get_free_space_fat_entry img i
  empty_loop rounds img (i + 1) (if entry == 0x00 then free + 1 else free)

-- `for (i = 2; i < size / SECTOR_SIZE - 31; i++)`: no round where the bound is 2 or less.
unfoldable pub count_empty_fat_entries : Image → Run ℕ
unfolding empty_loop
count_empty_fat_entries img = do
  size ← total_disk_size img
  free ← empty_loop (size / sector_size - 31 - 2) img 2 0
  ok (free * sector_size)

-- diskinfo's own `get_FAT_entry`, word for word that of disklist.
abbrev pub table_entry : Image → (table n : ℕ) → Run ℕ
table_entry img table n = get_fat_entry img table n

-- One entry of a directory; `sub` is the recursive call of `parse_sub`.
abbrev pub count_kind : (ℕ → Run ℕ) → Kind → ℕ → Run ℕ
count_kind sub skipped total = ok total
count_kind sub file total = ok (total + 1)
count_kind sub (directory flc) total = do n ← sub flc; ok (total + n)

-- The `slots` entries from offset `e` on.
unfoldable pub count_slots : (ℕ → Run ℕ) → Image → ℕ → ℕ → ℕ → Run ℕ
count_slots sub img zero e total = ok total
count_slots sub img (suc slots) e total = do
  kind ← entry_kind img e
  total' ← count_kind sub kind total
  count_slots sub img slots (e + 32) total'

-- The loop of `parse_sub` over the chain of sectors. Fuel bounds the chain and the recursion.
unfoldable pub parse_loop : ℕ → Image → ℕ → ℕ → ℕ → Run ℕ
parse_loop zero img table next_loc total_count = out_of_fuel
parse_loop (suc fuel) img table next_loc total_count =
    if leb next_loc 0xff0
    then (do
      total_count' ←
          count_slots (λ flc. parse_loop fuel img table flc 0) img 16
            ((31 + next_loc) * sector_size) total_count
      next ← table_entry img table next_loc
      parse_loop fuel img table next total_count')
    else ok total_count

unfoldable pub parse_sub : ℕ → Image → ℕ → ℕ → Run ℕ
parse_sub fuel img table flc = parse_loop fuel img table flc 0

-- The loop of `print_num_of_files` over the root directory.
unfoldable pub root_loop : ℕ → Image → ℕ → ℕ → ℕ → Run ℕ
root_loop zero img table e count = out_of_fuel
root_loop (suc fuel) img table e count = do
  first ← load img e
  if first == 0x00 then ok count else do
    kind ← root_kind img e
    count' ← count_kind (parse_sub fuel img table) kind count
    root_loop fuel img table (e + 32) count'

unfoldable pub print_num_of_files : ℕ → Image → ℕ → Run Line
unfolding root_loop parse_sub
print_num_of_files fuel img table = do
  count ← root_loop fuel img table (sector_size * 19) 0
  ok (number_of_files count)

unfoldable pub num_fat_copies : Image → Run ℕ
num_fat_copies img = load img 16

unfoldable pub sectors_per_fat : Image → Run ℕ
sectors_per_fat img = load_word img 22

-- The lines that `main` prints for a mapped image.
unfoldable pub report : ℕ → Image → (os_block label_block : List ℕ) → Run (List Line)
report fuel img os_block label_block = do
  table ← fat_table_location img
  os ← print_os_name img os_block
  label ← print_disk_label fuel img label_block
  total ← print_total_disk_size img
  free ← count_empty_fat_entries img
  files ← print_num_of_files fuel img table
  copies ← num_fat_copies img
  per_fat ← sectors_per_fat img
  ok (
      os
      ∷ label
      ∷ total
      ∷ free_size free
      ∷ separator
      ∷ files
      ∷ separator
      ∷ fat_copies copies
      ∷ sectors_per_fat_line per_fat
      ∷ [])

-- `main`: the exit status and the lines.
unfoldable pub main :
    (argc : ℕ) → Opened → ℕ → (os_block label_block : List ℕ) → Run (ℕ × List Line)
main argc opened fuel os_block label_block =
    if ltb 2 argc
    then ok (1, too_many_arguments ∷ [])
    else if ltb argc 2
    then ok (1, too_few_arguments ∷ [])
    else run opened
  where
    run : Opened → Run (ℕ × List Line)
    run not_opened = ok (1, invalid_input ∷ [])
    run not_mapped = ok (1, map_failed ∷ [])
    run (mapped img) = do lines ← report fuel img os_block label_block; ok (0, lines)
