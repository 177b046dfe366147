-- ===== src/Disk/Listing.antt =====
-- a3/disklist.c: the listing of all directories of a disk image.
pub mod Lines
pub mod Paths
pub mod Root
pub mod Ends
use csc.Base.{
  ℕ, zero, suc, ◌+◌, ◌*◌, List, [], ◌∷◌, ◌++◌, ◌⊎◌, inl, inr, pos, ltb, leb, ◌==◌, if◌then◌else◌,
  length, Run, ok, fault, out_of_fuel, ◌>>=◌,
}
use csc.Disk.Image.{Image, Opened, not_opened, not_mapped, mapped, sector_size, load, load_word}
use csc.Disk.Fat.{get_fat_entry, fat_table_location}
use csc.Disk.Entry.{
  Print, root_heading, newline, file_mark, directory_mark, size_field, path_line, Kind, skipped,
  file, directory, root_kind, entry_kind, copy_name, terminate, print_filename, print_subdir_name,
  print_datetime, filesize,
}

abbrev pub Prints : Type 0
Prints = List Print

-- The line of one directory entry.
unfoldable pub print_entry : Image → ℕ → ℕ → Kind → Run Prints
print_entry img room e skipped = ok []
print_entry img room e file = do
  size ← filesize img e
  name ← print_filename img room e
  stamp ← print_datetime img e
  ok (file_mark ∷ size_field size ∷ (name ++ stamp))
print_entry img room e (directory flc) = do
  name ← print_subdir_name img e
  stamp ← print_datetime img e
  ok (directory_mark ∷ size_field (pos 0) ∷ (name ++ stamp))

-- The rounds of the loop of `print_directory` that are left, from the entry at offset `e` on. The
-- loop reads the entry's first byte before it compares the offset.
unfoldable pub print_slots : ℕ → Image → ℕ → ℕ → Run Prints
print_slots zero img room e = do first ← load img e; ok []
print_slots (suc slots) img room e = do
  first ← load img e
  if first == 0x00 then ok [] else do
    kind ← entry_kind img e
    line ← print_entry img room e kind
    rest ← print_slots slots img room (e + 32)
    ok (line ++ rest)

unfoldable pub print_directory : Image → ℕ → ℕ → Run Prints
unfolding print_slots
print_directory img room path = print_slots 16 img room path

-- `strcat(dir_path, temp2)` into a block of `room` bytes
unfoldable pub str_cat : ℕ → List ℕ → List ℕ → Run (List ℕ)
str_cat room dir_path temp =
    if ltb (length dir_path + length temp) room then ok (dir_path ++ temp) else fault

-- The first loop of `parse_sub`.
unfoldable pub print_sectors : ℕ → Image → ℕ → ℕ → ℕ → Run Prints
print_sectors zero img room table next_loc = out_of_fuel
print_sectors (suc fuel) img room table next_loc =
    if leb next_loc 0xff0
    then (do
      sector ← print_directory img room ((31 + next_loc) * sector_size)
      next ← get_fat_entry img table next_loc
      rest ← print_sectors fuel img room table next
      ok (sector ++ (newline ∷ rest)))
    else ok []

-- What is printed, and the path that is left in `dir_path`.
abbrev pub Walk : Type 0
Walk = Prints × List ℕ

-- One entry in the second loop of `parse_sub`; `sub` is the recursive call.
unfoldable pub walk_kind : (ℕ → List ℕ → Run Walk) → Image → ℕ → ℕ → Kind → List ℕ → Run Walk
walk_kind sub img room e skipped dir_path = ok ([], dir_path)
walk_kind sub img room e file dir_path = ok ([], dir_path)
walk_kind sub img room e (directory flc) dir_path = do
  name ← copy_name img e 11
  temp ← terminate room (name ++ (b'/' ∷ []))
  dir_path' ← str_cat room dir_path temp
  walk ← sub flc dir_path'
  ok (path_line dir_path' ∷ walk.0, walk.1)

unfoldable pub walk_slots : (ℕ → List ℕ → Run Walk) → ℕ → Image → ℕ → ℕ → List ℕ → Run Walk
walk_slots sub zero img room e dir_path = ok ([], dir_path)
walk_slots sub (suc slots) img room e dir_path = do
  kind ← entry_kind img e
  first ← walk_kind sub img room e kind dir_path
  rest ← walk_slots sub slots img room (e + 32) first.1
  ok (first.0 ++ rest.0, rest.1)

-- Both loops of `parse_sub`, the second one given.
unfoldable pub both_loops : ℕ → (ℕ → List ℕ → Run Walk) → Image → ℕ → ℕ → ℕ → List ℕ → Run Walk
both_loops fuel second img room table flc dir_path = do
  sectors ← print_sectors fuel img room table flc
  walk ← second flc dir_path
  ok (sectors ++ walk.0, walk.1)

-- The second loop of `parse_sub`. Fuel bounds the chain and the recursion.
unfoldable pub walk_sectors : ℕ → Image → ℕ → ℕ → ℕ → List ℕ → Run Walk
walk_sectors zero img room table next_loc dir_path = out_of_fuel
walk_sectors (suc fuel) img room table next_loc dir_path =
    if leb next_loc 0xff0
    then (do
      first ←
          walk_slots (both_loops fuel (walk_sectors fuel img room table) img room table) 16 img room
            ((31 + next_loc) * sector_size) dir_path
      next ← get_fat_entry img table next_loc
      rest ← walk_sectors fuel img room table next first.1
      ok (first.0 ++ rest.0, rest.1))
    else ok ([], dir_path)

unfoldable pub parse_sub : ℕ → Image → ℕ → ℕ → ℕ → List ℕ → Run Walk
unfolding both_loops walk_sectors
parse_sub fuel img room table flc dir_path =
    both_loops fuel (walk_sectors fuel img room table) img room table flc dir_path

unfoldable pub max_root_entries : Image → Run ℕ
max_root_entries img = load_word img 17

-- The `for` loop of `print_entire_image` over the sectors from offset `e` on.
unfoldable pub print_root : ℕ → Image → ℕ → ℕ → Run Prints
print_root zero img room e = ok []
print_root (suc sectors) img room e = do
  first ← load img e
  if first == 0x00 then ok [] else do
    sector ← print_directory img room e
    rest ← print_root sectors img room (e + sector_size)
    ok (sector ++ (newline ∷ rest))

-- One entry of the root directory. `dir_path` begins anew at each.
unfoldable pub root_entry : ℕ → Image → ℕ → ℕ → ℕ → Kind → Run Prints
root_entry fuel img room table e skipped = ok []
root_entry fuel img room table e file = ok []
root_entry fuel img room table e (directory flc) = do
  name ← copy_name img e 11
  dir_path ← terminate room (name ++ (b'/' ∷ []))
  walk ← parse_sub fuel img room table flc dir_path
  ok (path_line dir_path ∷ walk.0)

-- The `while` loop of `print_entire_image`, with `left` entries left. It too reads first.
unfoldable pub walk_root : ℕ → ℕ → Image → ℕ → ℕ → ℕ → Run Prints
walk_root zero fuel img room table e = do first ← load img e; ok []
walk_root (suc left) fuel img room table e = do
  first ← load img e
  if first == 0x00 then ok [] else do
    kind ← root_kind img e
    entry ← root_entry fuel img room table e kind
    rest ← walk_root left fuel img room table (e + 32)
    ok (entry ++ rest)

unfoldable pub print_entire_image : ℕ → Image → ℕ → ℕ → Run Prints
unfolding print_root walk_root
print_entire_image fuel img room table = do
  root ← print_root 19 img room (sector_size * 19)
  max_entries ← max_root_entries img
  rest ← walk_root max_entries fuel img room table (sector_size * 19)
  ok (root_heading ∷ (root ++ rest))

-- `main` for an image that is opened and mapped.
unfoldable pub list_image : ℕ → Image → ℕ → Run Prints
list_image fuel img room = do table ← fat_table_location img; print_entire_image fuel img room table

-- What `main` prints before it lists anything.
pub data Message : Type 0 where
  too_many_arguments : Message
  too_few_arguments : Message
  invalid_input : Message
  map_failed : Message

-- `main`: the exit status, with the message or the listing.
unfoldable pub main : (argc : ℕ) → Opened → ℕ → ℕ → Run (ℕ × (Message ⊎ Prints))
main argc opened fuel room =
    if ltb 2 argc
    then ok (1, inl too_many_arguments)
    else if ltb argc 2
    then ok (1, inl too_few_arguments)
    else run opened
  where
    run : Opened → Run (ℕ × (Message ⊎ Prints))
    run not_opened = ok (1, inl invalid_input)
    run not_mapped = ok (1, inl map_failed)
    run (mapped img) = do prints ← list_image fuel img room; ok (0, inr prints)
