-- ===== src/Disk/Listing/Ends.antt =====
-- The listing of a3/disklist.c ends on every image whose directories form a finite tree.
use csc.Base.{
  ℕ, zero, suc, ◌+◌, ◌*◌, ◌%◌, ◌≤◌, ◌≡◌, ◌≢◌, arith, List, inl, inr, Bool-cases, false, ◌==◌,
  le→leb, lt→leb, ltb, length, out_of_fuel, Ends, with_value, with_fault, Ends-bind, Ends-ne,
}
use csc.Disk.Image.{Image, sector_size, load, load_word}
use csc.Disk.Fat.{get_fat_entry}
use csc.Disk.Entry.{
  Kind, skipped, file, directory, entry_kind, copy_name, terminate, print_filename,
  print_subdir_name, print_datetime, filesize,
}
use csc.Disk.Forest.{
  Forest, Place, chain, slots, Shows, chain_end, sector, no_slots, skip, one_file, one_directory,
  depth, ShowsRoot, root_end, root_skip, root_file, root_directory, root_depth,
}
use csc.Disk.Listing.{
  print_entry, print_slots, print_directory, print_sectors, str_cat, walk_kind, walk_slots,
  both_loops, walk_sectors, parse_sub, max_root_entries, print_root, root_entry, walk_root,
  print_entire_image,
}

module _ (img : Image) where
  load-Ends : (i : ℕ) → Ends (load img i)
  unfolding load
  load-Ends i = elim (Bool-cases (ltb i img.size)) [
    | inl yes_ ↦ rw yes_ with_value
    | inr no_ ↦ rw no_ with_fault
  ]

  load_word-Ends : (i : ℕ) → Ends (load_word img i)
  unfolding load_word
  load_word-Ends i = Ends-bind (load-Ends i) λ a _. Ends-bind (load-Ends (i + 1)) λ b _. with_value

  get_fat_entry-Ends : (table n : ℕ) → Ends (get_fat_entry img table n)
  unfolding get_fat_entry
  get_fat_entry-Ends table n = elim (Bool-cases (n % 2 == 0)) [
    | inl even ↦ rw even (Ends-bind (load-Ends _) λ a _. Ends-bind (load-Ends _) λ b _. with_value)
    | inr odd ↦ rw odd (Ends-bind (load-Ends _) λ a _. Ends-bind (load-Ends _) λ b _. with_value)
  ]

  entry_kind-Ends : (e : ℕ) → Ends (entry_kind img e)
  unfolding entry_kind
  entry_kind-Ends e =
      Ends-bind (load_word-Ends (e + 26))
        λ a _. Ends-bind (load-Ends (e + 11)) λ b _. Ends-bind (load-Ends e) λ c _. with_value

  copy_name-Ends : (a k : ℕ) → Ends (copy_name img a k)
  unfolding copy_name
  copy_name-Ends a zero = with_value
  copy_name-Ends a (suc k) = Ends-bind (load-Ends a) λ b _. elim (Bool-cases (b == b' ')) [
    | inl space ↦ rw space with_value
    | inr other ↦ rw other (Ends-bind (copy_name-Ends (a + 1) k) λ bs _. with_value)
  ]

  terminate-Ends : (room : ℕ) (bs : List ℕ) → Ends (terminate room bs)
  unfolding terminate
  terminate-Ends room bs = elim (Bool-cases (ltb (length bs) room)) [
    | inl fits ↦ rw fits with_value
    | inr full ↦ rw full with_fault
  ]

  str_cat-Ends : (room : ℕ) (p t : List ℕ) → Ends (str_cat room p t)
  unfolding str_cat
  str_cat-Ends room p t = elim (Bool-cases (ltb (length p + length t) room)) [
    | inl fits ↦ rw fits with_value
    | inr full ↦ rw full with_fault
  ]

  print_datetime-Ends : (e : ℕ) → Ends (print_datetime img e)
  unfolding print_datetime
  print_datetime-Ends e =
      Ends-bind (load_word-Ends (e + 14))
        λ t _. Ends-bind (load_word-Ends (e + 16)) λ d _. with_value

  filesize-Ends : (e : ℕ) → Ends (filesize img e)
  unfolding filesize
  filesize-Ends e = Ends-bind (load-Ends (e + 28)) λ a _.
      Ends-bind (load-Ends (e + 29)) λ b _.
        Ends-bind (load-Ends (e + 30)) λ c _. Ends-bind (load-Ends (e + 31)) λ d _. with_value

  module _ (room : ℕ) where
    print_entry-Ends : (e : ℕ) (k : Kind) → Ends (print_entry img room e k)
    unfolding print_entry print_filename print_subdir_name
    print_entry-Ends e skipped = with_value
    print_entry-Ends e file = Ends-bind (filesize-Ends e) λ s _.
        Ends-bind
          (Ends-bind (copy_name-Ends e 8) λ a _. Ends-bind (terminate-Ends room a) λ b _.
            Ends-bind (copy_name-Ends (e + 8) 3) λ c _.
              Ends-bind (terminate-Ends room c)
                λ d _. Ends-bind (terminate-Ends room _) λ f _. with_value)
          λ n _. Ends-bind (print_datetime-Ends e) λ t _. with_value
    print_entry-Ends e (directory flc) =
        Ends-bind
          (Ends-bind (copy_name-Ends e 11) λ a _. Ends-bind (terminate-Ends 11 a) λ b _. with_value)
          λ n _. Ends-bind (print_datetime-Ends e) λ t _. with_value

    print_slots-Ends : (k e : ℕ) → Ends (print_slots k img room e)
    unfolding print_slots
    print_slots-Ends zero e = Ends-bind (load-Ends e) λ b _. with_value
    print_slots-Ends (suc k) e = Ends-bind (load-Ends e) λ b _. elim (Bool-cases (b == 0)) [
      | inl z ↦ rw z with_value
      | inr nz ↦ rw nz (
          Ends-bind (entry_kind-Ends e) λ kind _.
            Ends-bind (print_entry-Ends e kind)
              λ l _. Ends-bind (print_slots-Ends k (e + 32)) λ r _. with_value)
    ]

    print_root-Ends : (k e : ℕ) → Ends (print_root k img room e)
    unfolding print_root print_directory
    print_root-Ends zero e = with_value
    print_root-Ends (suc k) e = Ends-bind (load-Ends e) λ b _. elim (Bool-cases (b == 0)) [
      | inl z ↦ rw z with_value
      | inr nz ↦ rw nz (
          Ends-bind (print_slots-Ends 16 e)
            λ l _. Ends-bind (print_root-Ends k (e + sector_size)) λ r _. with_value)
    ]

    module _ (table : ℕ) where
      print_sectors-Ends :
          {loc : ℕ} {f : Forest} (s : Shows img table (chain loc) f)
          → (fuel : ℕ) → depth s ≤ fuel
          → Ends (print_sectors fuel img room table loc)
      unfolding print_sectors print_directory
      print_sectors-Ends (chain_end h) zero d = absurd (omega arith)
      print_sectors-Ends (chain_end {loc} h) (suc fuel) d = rw (lt→leb loc 0xff0 h) with_value
      print_sectors-Ends (sector h s link t e) zero d = absurd (omega arith)
      print_sectors-Ends (sector {loc} h s link t e) (suc fuel) d =
          rw (le→leb loc 0xff0 h, link)
            (Ends-bind (print_slots-Ends 16 ((31 + loc) * sector_size))
              λ l _. Ends-bind (print_sectors-Ends t fuel (omega arith)) λ r _. with_value)

      -- The second loop from a place on.
      abbrev WalkEnds : ℕ → Place → List ℕ → Type 0
      WalkEnds fuel (chain loc) path = Ends (walk_sectors fuel img room table loc path)
      WalkEnds fuel (slots k e) path = Ends (
          walk_slots (both_loops fuel (walk_sectors fuel img room table) img room table) k img room
            e path)

      walk-Ends :
          {place : Place} {f : Forest} (s : Shows img table place f)
          → (fuel : ℕ) → depth s ≤ fuel
          → (path : List ℕ) → WalkEnds fuel place path
      unfolding walk_slots walk_sectors walk_kind both_loops
      walk-Ends (chain_end h) zero d path = absurd (omega arith)
      walk-Ends (chain_end {loc} h) (suc fuel) d path = rw (lt→leb loc 0xff0 h) with_value
      walk-Ends (sector h s link t e) zero d path = absurd (omega arith)
      walk-Ends (sector {loc} h s link t e) (suc fuel) d path =
          rw (le→leb loc 0xff0 h, link)
            (Ends-bind (walk-Ends s fuel (omega arith) path)
              λ v _. Ends-bind (walk-Ends t fuel (omega arith) v.1) λ w _. with_value)
      walk-Ends no_slots fuel d path = with_value
      walk-Ends (skip k s) fuel d path =
          rw k (Ends-bind (walk-Ends s fuel d path) λ w _. with_value)
      walk-Ends (one_file k s) fuel d path =
          rw k (Ends-bind (walk-Ends s fuel d path) λ w _. with_value)
      walk-Ends (one_directory {e} k c s) fuel d path = rw k (
          Ends-bind
            (Ends-bind (copy_name-Ends e 11) λ a _. Ends-bind (terminate-Ends room _) λ n _.
              Ends-bind (str_cat-Ends room path n) λ p _.
                Ends-bind
                  (Ends-bind (print_sectors-Ends c fuel (omega arith))
                    λ l _. Ends-bind (walk-Ends c fuel (omega arith) p) λ w _. with_value)
                  λ w _. with_value)
            λ v _. Ends-bind (walk-Ends s fuel (omega arith) v.1) λ w _. with_value)

      parse_sub-Ends :
          {flc : ℕ} {f : Forest} (s : Shows img table (chain flc) f)
          → (fuel : ℕ) → depth s ≤ fuel
          → (path : List ℕ) → Ends (parse_sub fuel img room table flc path)
      unfolding parse_sub both_loops
      parse_sub-Ends s fuel d path =
          Ends-bind (print_sectors-Ends s fuel d)
            λ l _. Ends-bind (walk-Ends s fuel d path) λ w _. with_value

      root_entry-Ends :
          {flc : ℕ} {f : Forest} (s : Shows img table (chain flc) f)
          → (fuel e : ℕ) → depth s ≤ fuel
          → Ends (root_entry fuel img room table e (directory flc))
      unfolding root_entry
      root_entry-Ends s fuel e d = Ends-bind (copy_name-Ends e 11) λ a _.
          Ends-bind (terminate-Ends room _)
            λ n _. Ends-bind (parse_sub-Ends s fuel d n) λ w _. with_value

      eqb-false : {b : ℕ} → b ≢ 0 → (b == 0) ≡ false
      eqb-false h = ground arith

      walk_root-Ends :
          (left : ℕ) {e : ℕ} {f : Forest} (s : ShowsRoot img table e f)
          → (fuel : ℕ) → root_depth s ≤ fuel
          → Ends (walk_root left fuel img room table e)
      unfolding walk_root root_entry
      walk_root-Ends zero {e} s fuel d = Ends-bind (load-Ends e) λ b _. with_value
      walk_root-Ends (suc left) (root_end z) fuel d = rw z with_value
      walk_root-Ends (suc left) (root_skip b nz k s) fuel d =
          rw (b, eqb-false nz, k)
            (Ends-bind (walk_root-Ends left s fuel (omega arith)) λ r _. with_value)
      walk_root-Ends (suc left) (root_file b nz k s) fuel d =
          rw (b, eqb-false nz, k)
            (Ends-bind (walk_root-Ends left s fuel (omega arith)) λ r _. with_value)
      walk_root-Ends (suc left) (root_directory {e} b nz k c s) fuel d =
          rw (b, eqb-false nz, k)
            (Ends-bind (root_entry-Ends c fuel e (omega arith))
              λ l _. Ends-bind (walk_root-Ends left s fuel (omega arith)) λ r _. with_value)

-- On an image whose root directory shows a finite tree, `print_entire_image` ends, with any fuel
-- from the tree's depth on: it prints the listing, or stops at an access that C does not allow.
pub print_entire_image-Ends :
    {img : Image} {table : ℕ} {f : Forest} (s : ShowsRoot img table (sector_size * 19) f)
    → (fuel room : ℕ) → root_depth s ≤ fuel
    → print_entire_image fuel img room table ≢ out_of_fuel
unfolding print_entire_image max_root_entries
print_entire_image-Ends {img} {table} s fuel room d = Ends-ne (
    Ends-bind (print_root-Ends img room 19 (sector_size * 19)) λ r _.
      Ends-bind (load_word-Ends img 17)
        λ m _. Ends-bind (walk_root-Ends img room table m s fuel d) λ w _. with_value)
