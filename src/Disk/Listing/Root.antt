-- ===== src/Disk/Listing/Root.antt =====
-- The directory paths that a3/disklist.c prints for a whole image.
use csc.Base.{
  ℕ, zero, suc, ◌+◌, ◌*◌, ◌≡◌, ◌≢◌, refl, ap, sym, subst, ◌∙◌, List, [], ◌∷◌, ◌++◌, inl, inr,
  Bool-cases, ◌==◌, arith, ok, ◌>>=◌, Ensures, returns, Ensures-self, Ensures-bind, Ensures-value,
}
use csc.Disk.Image.{Image, sector_size, load}
use csc.Disk.Entry.{newline, Kind, skipped, file, directory, root_kind, copy_name, terminate}
use csc.Disk.Fat.{fat_table_location}
use csc.Disk.Forest.{Forest, chain, Shows}
use csc.Disk.Listing.{
  Prints, print_directory, print_root, max_root_entries, parse_sub, root_entry, walk_root,
  print_entire_image, list_image,
}
use csc.Disk.Listing.Lines.{
  path_lines, path_lines-append, NoPaths, NoPaths-append, print_slots-NoPaths,
}
use csc.Disk.Listing.Paths.{running, dir_name, Named, parse_sub-Walked}

-- The paths that belong to the entries of the root directory from `e` on, of which `left` may be
-- read: the first that begins with 0 ends them.
-- For each subdirectory that is its name, and then the paths of its tree, begun with this name.
pub data RootPaths (img : Image) (room table : ℕ) : (left e : ℕ) → List (List ℕ) → Type 0 where
  no_entries : {e : ℕ} → RootPaths img room table 0 e []
  last_entry : {left e : ℕ} → load img e ≡ ok 0 → RootPaths img room table (suc left) e []
  skipped_entry :
      {left e b : ℕ} {paths : List (List ℕ)}
      → load img e ≡ ok b
      → b ≢ 0
      → root_kind img e ≡ ok skipped
      → RootPaths img room table left (e + 32) paths
      → RootPaths img room table (suc left) e paths
  file_entry :
      {left e b : ℕ} {paths : List (List ℕ)}
      → load img e ≡ ok b
      → b ≢ 0
      → root_kind img e ≡ ok file
      → RootPaths img room table left (e + 32) paths
      → RootPaths img room table (suc left) e paths
  directory_entry :
      {left e b flc : ℕ} {name : List ℕ} {contents : Forest} {paths all : List (List ℕ)}
      (names : List (List ℕ))
      → load img e ≡ ok b
      → b ≢ 0
      → root_kind img e ≡ ok (directory flc)
      → dir_name img room e ≡ ok name
      → Shows img table (chain flc) contents
      → Named img room contents names
      → RootPaths img room table left (e + 32) paths
      → all ≡ name ∷ (running name names ++ paths)
      → RootPaths img room table (suc left) e all

module _ (img : Image) (room : ℕ) where
  print_root-NoPaths : (sectors e : ℕ) → Ensures (NoPaths img room) (print_root sectors img room e)
  unfolding print_root print_directory
  print_root-NoPaths zero e = returns refl
  print_root-NoPaths (suc sectors) e = Ensures-bind (Ensures-self (load img e)) λ b _.
      elim (Bool-cases (b == 0)) [
        | inl over ↦ rw over (returns refl)
        | inr more ↦ rw more (
            Ensures-bind (print_slots-NoPaths img room 16 e) λ l hl.
              Ensures-bind (print_root-NoPaths sectors (e + sector_size))
                λ r hr. returns (NoPaths-append img room l (newline ∷ r) hl hr))
      ]

  module _ (fuel table : ℕ) where
    abbrev Lists : ℕ → ℕ → Prints → Type 0
    Lists left e prints = RootPaths img room table left e (path_lines prints)

    entry-Lists :
        (left e b : ℕ) (kind : Kind)
        → load img e ≡ ok b
        → b ≢ 0
        → root_kind img e ≡ ok kind
        → Ensures (Lists left (e + 32)) (walk_root left fuel img room table (e + 32))
        → Ensures (Lists (suc left) e) (
            root_entry fuel img room table e kind >>= λ entry.
            walk_root left fuel img room table (e + 32) >>= λ rest. ok (entry ++ rest))
    unfolding root_entry dir_name
    entry-Lists left e b skipped read nz at later =
        Ensures-bind later λ rest h. returns (skipped_entry read nz at h)
    entry-Lists left e b file read nz at later =
        Ensures-bind later λ rest h. returns (file_entry read nz at h)
    entry-Lists left e b (directory flc) read nz at later =
        Ensures-bind
          {P = λ entry.
            (name : List ℕ) × (contents : Forest) × (names : List (List ℕ)) × (dir_name img room e
              ≡ ok name)
            × Shows img table (chain flc) contents
            × Named img room contents names
            × (path_lines entry ≡ name ∷ running name names)}
          (Ensures-bind (Ensures-self (copy_name img e 11)) λ a ha.
            Ensures-bind (Ensures-self (terminate room (a ++ (b'/' ∷ [])))) λ n hn.
              Ensures-bind (Ensures-self (parse_sub fuel img room table flc n)) λ w hw.
                let walked = parse_sub-Walked img room table fuel flc n hw in
                returns (
                  n,
                  walked.forest,
                  walked.names,
                  rw ha hn,
                  walked.shown,
                  walked.named,
                  ap (λ r. n ∷ r) walked.printed,
                ))
          λ entry (name, contents, names, named, shows, below, printed).
            Ensures-bind later λ rest h. returns (
              directory_entry names read nz at named shows below h
                (path_lines-append entry rest ∙ ap (λ p. p ++ path_lines rest) printed))

    walk_root-Lists : (left e : ℕ) → Ensures (Lists left e) (walk_root left fuel img room table e)
    unfolding walk_root
    walk_root-Lists zero e = Ensures-bind (Ensures-self (load img e)) λ b _. returns no_entries
    walk_root-Lists (suc left) e = Ensures-bind (Ensures-self (load img e)) λ b read.
        elim (Bool-cases (b == 0)) [
          | inl over ↦
              let zero_byte : b ≡ 0 = ground arith in
              rw over (returns (last_entry (read ∙ ap ok zero_byte)))
          | inr more ↦
              let nz : b ≢ 0 = ground arith in
              rw more (
                Ensures-bind (Ensures-self (root_kind img e))
                  λ kind at. entry-Lists left e b kind read nz at (walk_root-Lists left (e + 32)))
        ]

-- The paths among what is printed are those of the root directory, of which the boot sector gives the
-- number of entries.
pub record Listed (img : Image) (room : ℕ) (prints : Prints) : Type 0 where
  pub table : ℕ
  pub max_entries : ℕ
  pub located : fat_table_location img ≡ ok table
  pub counted : max_root_entries img ≡ ok max_entries
  pub paths : RootPaths img room table max_entries (sector_size * 19) (path_lines prints)

-- Whatever disklist prints for an image: the directory paths among it are those of the root directory's
-- entries in front of the first that begins with 0, up to the number that the boot sector gives, in
-- order. The path of each of its
-- subdirectories is the name alone; behind it come those of the tree that the image shows from there
-- on, where each directory adds its name to the path that the one before it left.
pub list_image-Listed :
    (img : Image) (room fuel : ℕ) {prints : Prints}
    → list_image fuel img room ≡ ok prints
    → Listed img room prints
unfolding list_image print_entire_image
list_image-Listed img room fuel run =
    Ensures-value {P = Listed img room}
      (Ensures-bind (Ensures-self (fat_table_location img)) λ table located.
        Ensures-bind (print_root-NoPaths img room 19 (sector_size * 19)) λ root none.
          Ensures-bind (Ensures-self (max_root_entries img)) λ max_entries counted.
            Ensures-bind (walk_root-Lists img room fuel table max_entries (sector_size * 19))
              λ rest h. returns (record {
                table = table;
                max_entries = max_entries;
                located = located;
                counted = counted;
                paths =
                    subst (RootPaths img room table max_entries (sector_size * 19))
                      (sym (path_lines-append root rest ∙ ap (λ p. p ++ path_lines rest) none)) h;
              }))
      run
