-- ===== src/Disk/Listing/Lines.antt =====
-- The directory paths among what a3/disklist.c prints; files and directories' lines are none.
use csc.Base.{
  ℕ, zero, suc, ◌+◌, ◌*◌, ◌≡◌, refl, ap, ap₂, ◌∙◌, List, [], ◌∷◌, ◌++◌, inl, inr, Bool-cases, leb,
  ◌==◌, Ensures, returns, runs_out, Ensures-self, Ensures-bind,
}
use csc.Disk.Image.{Image, sector_size, load, load_word}
use csc.Disk.Fat.{get_fat_entry}
use csc.Disk.Entry.{
  newline, path_line, Kind, skipped, file, directory, entry_kind, copy_name, terminate,
  print_filename, print_subdir_name, print_datetime, filesize,
}
use csc.Disk.Forest.{}
use csc.Disk.Listing.{Prints, print_entry, print_slots, print_directory, print_sectors}

abbrev pub path_lines : Prints → List (List ℕ)
path_lines [] = []
path_lines (path_line p ∷ ps) = p ∷ path_lines ps
path_lines (_ ∷ ps) = path_lines ps

pub path_lines-append : (p q : Prints) → path_lines (p ++ q) ≡ path_lines p ++ path_lines q
path_lines-append [] q = refl
path_lines-append (path_line x ∷ p) q = ap (λ r. x ∷ r) (path_lines-append p q)
path_lines-append (_ ∷ p) q = path_lines-append p q

module _ (img : Image) (room : ℕ) where
  abbrev pub NoPaths : Prints → Type 0
  NoPaths l = path_lines l ≡ []

  pub NoPaths-append : (p q : Prints) → NoPaths p → NoPaths q → NoPaths (p ++ q)
  NoPaths-append p q a b = path_lines-append p q ∙ ap₂ ◌++◌ a b

  print_filename-NoPaths : (e : ℕ) → Ensures NoPaths (print_filename img room e)
  unfolding print_filename
  print_filename-NoPaths e = Ensures-bind (Ensures-self (copy_name img e 8)) λ a _.
      Ensures-bind (Ensures-self (terminate room a)) λ b _.
        Ensures-bind (Ensures-self (copy_name img (e + 8) 3)) λ c _.
          Ensures-bind (Ensures-self (terminate room c))
            λ d _. Ensures-bind (Ensures-self (terminate room _)) λ f _. returns refl

  print_datetime-NoPaths : (e : ℕ) → Ensures NoPaths (print_datetime img e)
  unfolding print_datetime
  print_datetime-NoPaths e =
      Ensures-bind (Ensures-self (load_word img (e + 14)))
        λ t _. Ensures-bind (Ensures-self (load_word img (e + 16))) λ d _. returns refl

  print_entry-NoPaths : (e : ℕ) (k : Kind) → Ensures NoPaths (print_entry img room e k)
  unfolding print_entry print_subdir_name
  print_entry-NoPaths e skipped = returns refl
  print_entry-NoPaths e file = Ensures-bind (Ensures-self (filesize img e)) λ s _.
      Ensures-bind (print_filename-NoPaths e)
        λ n hn. Ensures-bind (print_datetime-NoPaths e) λ t ht. returns (NoPaths-append n t hn ht)
  print_entry-NoPaths e (directory flc) =
      Ensures-bind {P = NoPaths}
        (Ensures-bind (Ensures-self (copy_name img e 11))
          λ a _. Ensures-bind (Ensures-self (terminate 11 a)) λ b _. returns refl)
        λ n hn. Ensures-bind (print_datetime-NoPaths e) λ t ht. returns (NoPaths-append n t hn ht)

  pub print_slots-NoPaths : (k e : ℕ) → Ensures NoPaths (print_slots k img room e)
  unfolding print_slots
  print_slots-NoPaths zero e = Ensures-bind (Ensures-self (load img e)) λ b _. returns refl
  print_slots-NoPaths (suc k) e = Ensures-bind (Ensures-self (load img e)) λ b _.
      elim (Bool-cases (b == 0)) [
        | inl z ↦ rw z (returns refl)
        | inr nz ↦ rw nz (
            Ensures-bind (Ensures-self (entry_kind img e)) λ kind _.
              Ensures-bind (print_entry-NoPaths e kind) λ l hl.
                Ensures-bind (print_slots-NoPaths k (e + 32))
                  λ r hr. returns (NoPaths-append l r hl hr))
      ]

  pub print_sectors-NoPaths :
      (fuel table loc : ℕ) → Ensures NoPaths (print_sectors fuel img room table loc)
  unfolding print_sectors print_directory
  print_sectors-NoPaths zero table loc = runs_out
  print_sectors-NoPaths (suc fuel) table loc = elim (Bool-cases (leb loc 0xff0)) [
    | inl more ↦ rw more (
        Ensures-bind (print_slots-NoPaths 16 ((31 + loc) * sector_size)) λ l hl.
          Ensures-bind (Ensures-self (get_fat_entry img table loc)) λ next _.
            Ensures-bind (print_sectors-NoPaths fuel table next)
              λ r hr. returns (NoPaths-append l (newline ∷ r) hl hr))
    | inr done ↦ rw done (returns refl)
  ]
