-- ===== src/Disk/Info/Volume.antt =====
-- All that a3/diskinfo.c prints for the image of a volume.
use csc.Base.{
  ℕ, zero, suc, ◌+◌, ◌-◌, ◌*◌, ◌/◌, ◌^◌, ◌≤◌, ◌<◌, ◌≡◌, ◌≢◌, refl, ap, sym, ◌∙◌, true, false, List,
  [], ◌∷◌, ◌++◌, length, length-append, drop, arith, ltb, lt→ltb, ◌==◌, ok, returns_both,
  ok-injective,
}
use csc.Disk.Image.{
  Image, mapped, sector_size, load, load_word, load_bytes, c_string, has_nul, store_front,
  read_string,
}
use csc.Disk.Fat.{fat_table_location}
use csc.Disk.Fat.Packed.{IsPacked}
use csc.Disk.Forest.{Forest, files, ShowsRoot, root_depth}
use csc.Disk.Info.{
  os_name, disk_label, total_size, free_size, separator, number_of_files, fat_copies,
  sectors_per_fat_line, is_label, label_loop, print_total_disk_size, print_os_name,
  print_disk_label, total_disk_size, num_fat_copies, sectors_per_fat, report, main,
}
use csc.Disk.Info.Root.{print_num_of_files-files}
use csc.Disk.Info.Free.{zeros, count_empty-zeros}

-- The names of the root directory's volume labels, from the entry at `e` on; `left` entries are read.
pub data Labels (img : Image) : (left e : ℕ) → List (List ℕ) → Type 0 where
  labels_end : {left e : ℕ} → load img e ≡ ok 0 → Labels img (suc left) e []
  no_label :
      {left e b attribute : ℕ} {names : List (List ℕ)}
      → load img e ≡ ok b
      → b ≢ 0
      → load img (e + 11) ≡ ok attribute
      → is_label attribute ≡ false
      → Labels img left (e + 32) names
      → Labels img (suc left) e names
  a_label :
      {left e b attribute : ℕ} {name : List ℕ} {names : List (List ℕ)}
      → load img e ≡ ok b
      → b ≢ 0
      → load img (e + 11) ≡ ok attribute
      → is_label attribute ≡ true
      → load_bytes img e 8 ≡ ok name
      → Labels img left (e + 32) names
      → Labels img (suc left) e (name ∷ names)

-- A block behind the names that were stored at its front, one over the other.
abbrev pub overwritten : List (List ℕ) → List ℕ → List ℕ
overwritten [] block = block
overwritten (name ∷ names) block = overwritten names (name ++ drop 8 block)

-- An image of a volume: what its boot sector, table and root directory hold.
pub record Volume (img : Image) : Type 0 where
  pub table : ℕ
  pub located : fat_table_location img ≡ ok table
  pub os : List ℕ
  pub named : load_bytes img 3 8 ≡ ok os
  pub left : ℕ
  pub labels : List (List ℕ)
  pub labelled : Labels img left (sector_size * 19) labels
  pub bytes : ℕ
  pub per_sector : load_word img 11 ≡ ok bytes
  pub sectors : ℕ
  pub all_sectors : load_word img 19 ≡ ok sectors
  pub small : bytes * sectors < 2 ^ 31
  pub entry : ℕ → ℕ
  pub table_length : ℕ
  pub packed : IsPacked img sector_size table_length entry
  pub covered : 3 * (bytes * sectors / 512 + 2) / 2 < table_length
  pub forest : Forest
  pub shows : ShowsRoot img table (sector_size * 19) forest
  pub copies : ℕ
  pub copied : load img 16 ≡ ok copies
  pub fat_sectors : ℕ
  pub per_fat : load_word img 22 ≡ ok fat_sectors

module _ (img : Image) where
  length-load_bytes : (i k : ℕ) {bs : List ℕ} → load_bytes img i k ≡ ok bs → length bs ≡ k
  unfolding load_bytes
  length-load_bytes i zero run = ap length (sym (ok-injective run))
  length-load_bytes i (suc k) run =
      let (b, first, more) = returns_both (load img i) _ run in
      let (bs, rest, same) = returns_both (load_bytes img (i + 1) k) _ more in
      let shorter = length-load_bytes (i + 1) k rest in
      ap length (sym (ok-injective same)) ∙ omega (arith, shorter)

  store_front-drop :
      (i : ℕ) (block : List ℕ) {bs : List ℕ}
      → load_bytes img i 8 ≡ ok bs
      → 8 ≤ length block
      → store_front bs block ≡ ok (bs ++ drop 8 block)
  unfolding store_front
  store_front-drop i block {bs} run room =
      let eight = length-load_bytes i 8 run in
      let fits : ltb (length block) 8 ≡ false = ground (arith, room) in rw (eight, fits) refl

  still_eight :
      (i : ℕ) (block : List ℕ) {bs : List ℕ}
      → load_bytes img i 8 ≡ ok bs
      → 8 ≤ length (bs ++ drop 8 block)
  still_eight i block {bs} run =
      let eight = length-load_bytes i 8 run in
      let sum = length-append bs (drop 8 block) in omega (arith, eight, sum)

  label_loop-Labels :
      {left e : ℕ} {names : List (List ℕ)}
      → Labels img left e names
      → (fuel : ℕ) (block : List ℕ) → left ≤ fuel
      → 8 ≤ length block
      → label_loop fuel img e block ≡ ok (overwritten names block)
  unfolding label_loop
  label_loop-Labels (labels_end over) zero block enough room = absurd (omega (arith, enough))
  label_loop-Labels (labels_end over) (suc fuel) block enough room = rw over refl
  label_loop-Labels (no_label at nz attr not_label later) zero block enough room =
      absurd (omega (arith, enough))
  label_loop-Labels (no_label {b} at nz attr not_label later) (suc fuel) block enough room =
      let more : (b == 0) ≡ false = ground (arith, nz) in
      rw (at, more, attr, not_label)
        (label_loop-Labels later fuel block (omega (arith, enough)) room)
  label_loop-Labels (a_label at nz attr label named later) zero block enough room =
      absurd (omega (arith, enough))
  label_loop-Labels (a_label {e} {b} {name} at nz attr label named later) (suc fuel) block enough
        room =
      let more : (b == 0) ≡ false = ground (arith, nz) in
      rw (at, more, attr, label, named, store_front-drop e block named room)
        (label_loop-Labels later fuel (name ++ drop 8 block) (omega (arith, enough))
          (still_eight e block named))

-- Where the image holds a volume, the two blocks have room for the names they are asked to hold, and a
-- NUL ends what is in them: `main` with one argument prints the summary and returns 0. The summary has
-- the name of the system, the last label of the root directory, the size of the disk, 512 bytes for each
-- entry of the table that is 0 among those of the data sectors, the number of files in the whole tree, and
-- the boot sector's copies of the table and sectors for each. The fuel is at least the depth of the tree
-- and the number of entries of the root directory.
pub main-Volume :
    {img : Image} (v : Volume img) (fuel : ℕ) (os_block label_block : List ℕ)
    → 8 ≤ length os_block
    → has_nul (v.os ++ drop 8 os_block) ≡ true
    → 8 ≤ length label_block
    → has_nul (overwritten v.labels label_block) ≡ true
    → root_depth v.shows ≤ fuel
    → v.left ≤ fuel
    → main 2 (mapped img) fuel os_block label_block
      ≡ ok (
        0,
        os_name (c_string (v.os ++ drop 8 os_block))
            ∷ disk_label (c_string (overwritten v.labels label_block))
            ∷ total_size (v.bytes * v.sectors)
            ∷ free_size (zeros v.entry 2 (v.bytes * v.sectors / 512 - 31 - 2) * 512)
            ∷ separator
            ∷ number_of_files (files v.forest)
            ∷ separator
            ∷ fat_copies v.copies
            ∷ sectors_per_fat_line v.fat_sectors
            ∷ [],
      )
unfolding main report print_total_disk_size print_os_name print_disk_label total_disk_size
    num_fat_copies sectors_per_fat read_string
main-Volume {img} v fuel os_block label_block os_room os_ends label_room label_ends deep long =
    rw
      (
        v.located,
        v.named,
        store_front-drop img 3 os_block v.named os_room,
        os_ends,
        label_loop-Labels img v.labelled fuel label_block long label_room,
        label_ends,
        v.per_sector,
        v.all_sectors,
        lt→ltb _ _ v.small,
        count_empty-zeros v.bytes v.sectors v.per_sector v.all_sectors v.small v.packed v.covered,
        print_num_of_files-files v.shows fuel deep,
        v.copied,
        v.per_fat,
      )
      refl
