-- ===== src/Disk/Tests.antt =====
-- Tests of the models of a3, and the theorems at the sample image.
use csc.Base.{
  map, ◌>>=◌, value_or, is_ok, ok-value_or, true, false, ℕ, ◌*◌, ◌≡◌, ◌≢◌, refl, List, [], ◌∷◌,
  arith, pos, ok, fault, out_of_fuel,
}
use csc.Disk.Image.{sector_size, load, load_word, mapped, load_bytes, store_front, read_string}
use csc.Disk.Fat.{get_fat_entry, get_free_space_fat_entry, fat_table_location}
use csc.Disk.Entry.{
  name_field, date_field, time_field, root_kind, entry_kind, copy_name, terminate, print_filename,
  print_subdir_name, print_datetime, filesize,
}
use csc.Disk.Entry.Names.{print_filename_lem, print_subdir_name_lem}
use csc.Disk.Entry.Fields.{Stamp, print_datetime-Stamp, filesize_lem}
use csc.Disk.Fat.Packed.{get_fat_entry-packed, free_space-eq-fat_entry}
use csc.Disk.Info.Root.{print_num_of_files-files, print_num_of_files-ShowsRoot}
use csc.Disk.Info.Free.{zeros}
use csc.Disk.Info.Volume.{Volume, Labels, labels_end, no_label, a_label, main-Volume}
use csc.Disk.Listing.Lines.{path_lines}
use csc.Disk.Listing.Root.{Listed, list_image-Listed}
use csc.Disk.Listing.Ends.{print_entire_image-Ends}
use csc.Disk.Forest.{
  Forest, empty, a_file, a_directory, Shows, chain, chain_end, sector, one_file, one_directory,
  ShowsRoot, root_end, root_skip, root_file, root_directory, files,
}
use csc.Disk.Info
use csc.Disk.Info.{print_num_of_files, number_of_files, report}
use csc.Disk.Listing
use csc.Disk.Signed
use csc.Samples.Stamp.{print_date_time, as_listed, print_date_time-datetime}
use csc.Disk.Signed.Agreement.{
  Attributes, HasEntries, go_through-get_free_space, size_of_disk-total, total_num_of_files-counted,
}
use csc.Disk.Sample.{sample, sample_byte, fat_entry, sample-IsPacked, blank_slots}

-- E and F show nothing; D shows both, and the file X behind them.
shows_e : Shows sample 512 (chain 4) empty
unfolding sample_byte entry_kind load_word load get_fat_entry
shows_e =
    sector {next = 0xfff} (omega arith) (blank_slots 16 17920 refl) refl (chain_end (omega arith))
      refl

shows_f : Shows sample 512 (chain 5) empty
unfolding sample_byte entry_kind load_word load get_fat_entry
shows_f =
    sector {next = 0xfff} (omega arith) (blank_slots 16 18432 refl) refl (chain_end (omega arith))
      refl

abbrev tree_d : Forest
tree_d = a_directory 16896 empty (a_directory 16928 empty (a_file 16960 empty))

shows_d : Shows sample 512 (chain 2) tree_d
unfolding sample_byte entry_kind load_word load get_fat_entry
shows_d =
    sector {next = 0xfff} (omega arith)
      (one_directory refl shows_e
        (one_directory refl shows_f (one_file refl (blank_slots 13 16992 refl))))
      refl (chain_end (omega arith)) refl

shows_root : ShowsRoot sample 512 9728 (a_file 9760 (a_directory 9792 tree_d empty))
unfolding sample_byte root_kind load_word load
shows_root = root_skip {b = b'D'} refl (omega arith) refl (
    root_file {b = b'A'} refl (omega arith) refl
      (root_directory {b = b'D'} refl (omega arith) refl shows_d (root_end refl)))

print_num_of_files-files_example : print_num_of_files 9 sample 512 ≡ ok (number_of_files 2)
unfolding shows_root shows_d shows_e shows_f blank_slots
print_num_of_files-files_example = print_num_of_files-files shows_root 9 (omega arith)

print_num_of_files-ShowsRoot_example :
    (f : Forest) × ShowsRoot sample 512 (sector_size * 19) f × (2 ≡ files f)
unfolding print_num_of_files sample_byte root_kind entry_kind load_word load get_fat_entry
    Info.count_slots Info.parse_loop
print_num_of_files-ShowsRoot_example = print_num_of_files-ShowsRoot 9 sample 512 2 refl

print_entire_image-Ends_example : Listing.print_entire_image 9 sample 24 512 ≢ out_of_fuel
unfolding shows_root shows_d shows_e shows_f blank_slots
print_entire_image-Ends_example = print_entire_image-Ends shows_root 9 24 (omega arith)

abbrev listing : Listing.Prints
listing = value_or [] (Listing.list_image 9 sample 24)

-- The path of D/F names E too.
path_lines-listing :
    path_lines listing
    ≡ (b'D' ∷ b'/' ∷ [])
      ∷ (b'D' ∷ b'/' ∷ b'E' ∷ b'/' ∷ [])
      ∷ (b'D' ∷ b'/' ∷ b'E' ∷ b'/' ∷ b'F' ∷ b'/' ∷ [])
      ∷ []
unfolding Listing.list_image Listing.print_entire_image Listing.print_root Listing.walk_root
    Listing.root_entry Listing.max_root_entries Listing.parse_sub Listing.walk_slots
    Listing.walk_kind Listing.print_entry Listing.str_cat Listing.print_sectors
    Listing.print_directory copy_name terminate print_filename print_subdir_name print_datetime
    filesize sample_byte root_kind entry_kind load_word load get_fat_entry fat_table_location
path_lines-listing = refl

listed : is_ok (Listing.list_image 9 sample 24) ≡ true
unfolding Listing.list_image Listing.print_entire_image Listing.print_root Listing.walk_root
    Listing.root_entry Listing.max_root_entries Listing.parse_sub Listing.walk_slots
    Listing.walk_kind Listing.print_entry Listing.str_cat Listing.print_sectors
    Listing.print_directory copy_name terminate print_filename print_subdir_name print_datetime
    filesize sample_byte root_kind entry_kind load_word load get_fat_entry fat_table_location
listed = refl

list_image-Listed_example : Listed sample 24 listing
list_image-Listed_example =
    list_image-Listed sample 24 9 (ok-value_or [] (Listing.list_image 9 sample 24) listed)

get_fat_entry-packed_example : get_fat_entry sample 512 5 ≡ ok 0xfff
get_fat_entry-packed_example = get_fat_entry-packed 5 sample-IsPacked (omega arith)

free_space-eq-fat_entry_example : get_free_space_fat_entry sample 7 ≡ get_fat_entry sample 512 7
free_space-eq-fat_entry_example = free_space-eq-fat_entry sample 7

abbrev a : List ℕ
a = b'A' ∷ []

abbrev txt : List ℕ
txt = b'T' ∷ b'X' ∷ b'T' ∷ []

-- A block of the one byte that the code asks for.
print_filename_lem_example : print_filename sample 1 9760 ≡ fault
unfolding sample_byte load
print_filename_lem_example =
    print_filename_lem sample 1 9760 a txt (omega arith) (omega arith) (omega arith) (omega arith)
      (ground arith) (ground arith)

print_subdir_name_lem_example : print_subdir_name sample 9792 ≡ ok (name_field (b'D' ∷ []) ∷ [])
unfolding sample_byte load
print_subdir_name_lem_example =
    print_subdir_name_lem sample 9792 (b'D' ∷ []) (omega arith) (omega arith) (ground arith)

abbrev stamp : Stamp
stamp = record { year = 2018; month = 11; day = 27; hours = 13; minutes = 36; two_seconds = 3 }

print_datetime-Stamp_example :
    print_datetime sample 9760 ≡ ok (date_field 2018 11 27 ∷ time_field 13 36 ∷ [])
unfolding sample_byte load_word load
print_datetime-Stamp_example = print_datetime-Stamp sample 9760 stamp (omega arith) refl refl

filesize_lem_example : filesize sample 9760 ≡ ok (pos 300)
unfolding sample_byte load
filesize_lem_example = filesize_lem sample 9760 300 (omega arith) refl refl refl refl

zeroes : List ℕ
zeroes = 0 ∷ 0 ∷ 0 ∷ 0 ∷ 0 ∷ 0 ∷ 0 ∷ 0 ∷ 0 ∷ []

-- The whole summary of the sample image.
report_sample :
    Info.main 2 (mapped sample) 9 zeroes zeroes
    ≡ ok (
      0,
      Info.os_name (b'M' ∷ b'S' ∷ b'D' ∷ b'O' ∷ b'S' ∷ b'5' ∷ b'.' ∷ b'0' ∷ [])
          ∷ Info.disk_label (b'D' ∷ b'I' ∷ b'S' ∷ b'K' ∷ 32 ∷ 32 ∷ 32 ∷ 32 ∷ [])
          ∷ Info.total_size 40960
          ∷ Info.free_size 21504
          ∷ Info.separator
          ∷ number_of_files 2
          ∷ Info.separator
          ∷ Info.fat_copies 2
          ∷ Info.sectors_per_fat_line 9
          ∷ [],
    )
unfolding Info.main Info.report Info.print_total_disk_size Info.print_os_name Info.print_disk_label
    Info.total_disk_size Info.count_empty_fat_entries print_num_of_files Info.num_fat_copies
    Info.sectors_per_fat Info.count_slots Info.parse_loop sample_byte root_kind entry_kind load_word
    load load_bytes store_front read_string get_fat_entry get_free_space_fat_entry
    fat_table_location zeroes
report_sample = refl

abbrev system_name : List ℕ
system_name = b'M' ∷ b'S' ∷ b'D' ∷ b'O' ∷ b'S' ∷ b'5' ∷ b'.' ∷ b'0' ∷ []

abbrev label_name : List ℕ
label_name = b'D' ∷ b'I' ∷ b'S' ∷ b'K' ∷ 32 ∷ 32 ∷ 32 ∷ 32 ∷ []

sample-Labels : Labels sample 4 9728 (label_name ∷ [])
unfolding sample_byte load load_bytes
sample-Labels = a_label {b = b'D'} {attribute = 8} refl (omega arith) refl refl refl (
    no_label {b = b'A'} {attribute = 0} refl (omega arith) refl refl
      (no_label {b = b'D'} {attribute = 16} refl (omega arith) refl refl (labels_end refl)))

abbrev volume : Volume sample
unfolding sample_byte load load_word load_bytes fat_table_location
volume = record {
  table = 512;
  located = refl;
  os = system_name;
  named = refl;
  left = 4;
  labels = label_name ∷ [];
  labelled = sample-Labels;
  bytes = 512;
  per_sector = refl;
  sectors = 80;
  all_sectors = refl;
  small = omega arith;
  entry = fat_entry;
  table_length = _;
  packed = sample-IsPacked;
  covered = omega arith;
  forest = _;
  shows = shows_root;
  copies = 2;
  copied = refl;
  fat_sectors = 9;
  per_fat = refl;
}

main-Volume_example :
    Info.main 2 (mapped sample) 9 zeroes zeroes
    ≡ ok (
      0,
      Info.os_name system_name
          ∷ Info.disk_label label_name
          ∷ Info.total_size 40960
          ∷ Info.free_size (zeros fat_entry 2 47 * 512)
          ∷ Info.separator
          ∷ number_of_files 2
          ∷ Info.separator
          ∷ Info.fat_copies 2
          ∷ Info.sectors_per_fat_line 9
          ∷ [],
    )
unfolding shows_root shows_d shows_e shows_f blank_slots zeroes volume
main-Volume_example =
    main-Volume volume 9 zeroes zeroes (omega arith) refl (omega arith) refl (omega arith)
      (omega arith)

-- The label, the file A and the directory D.
abbrev plain : Attributes
plain = record {
  read_only = false;
  hidden = false;
  system = false;
  volume_label = false;
  directory = false;
  archive = false;
  rest = 0;
}

abbrev root_attributes : List Attributes
root_attributes =
    record plain { volume_label = true } ∷ plain ∷ record plain { directory = true } ∷ []

root-HasEntries : HasEntries sample 9728 root_attributes
unfolding sample_byte load
root-HasEntries = (
  (b'D', refl, omega arith),
  (0, refl),
  refl,
  ((b'A', refl, omega arith), (3, refl), refl, ((b'D', refl, omega arith), (2, refl), refl, refl)),
)

total_num_of_files-counted_example : Signed.total_num_of_files 9 sample ≡ ok 1
total_num_of_files-counted_example =
    total_num_of_files-counted 9 sample root_attributes root-HasEntries (omega arith)

go_through-get_free_space_example :
    Signed.go_through_fat_entries sample 7 ≡ get_free_space_fat_entry sample 7
go_through-get_free_space_example = go_through-get_free_space sample 7

size_of_disk-total_example :
    (size : ℕ) × (Info.total_disk_size sample ≡ ok size)
    × (Signed.size_of_disk sample ≡ ok (pos size))
unfolding sample_byte load
size_of_disk-total_example =
    size_of_disk-total sample 0 2 80 0 refl refl refl refl (omega arith) (omega arith) (omega arith)
      (omega arith)

-- The file A of the sample image.
print_date_time-datetime_example :
    (print_date_time sample 9760 >>= λ fields. ok (map as_listed fields))
    ≡ print_datetime sample 9760
print_date_time-datetime_example = print_date_time-datetime sample 9760
