-- ===== src/Disk/Info/Root.antt =====
-- `print_num_of_files` of a3/diskinfo.c, against the directory tree of the whole image.
use csc.Base.{
  ℕ, zero, suc, ◌+◌, ◌*◌, ◌≤◌, ◌≡◌, ap, ◌∙◌, arith, inl, inr, ◌==◌, ==_iff, ◌≢◌, Bool-cases, false,
  ok, ◌>>=◌, returns_both,
}
use csc.Disk.Image.{Image, sector_size, load}
use csc.Disk.Entry.{Kind, skipped, file, directory, root_kind}
use csc.Disk.Forest.{
  Forest, empty, a_file, a_directory, files, ShowsRoot, root_end, root_skip, root_file,
  root_directory, root_depth,
}
use csc.Disk.Info.{number_of_files, count_kind, parse_sub, root_loop, print_num_of_files}
use csc.Disk.Info.Count.{parse_sub-files, parse_sub-Shows}

eqb-false : (a b : ℕ) → a ≢ b → (a == b) ≡ false
eqb-false a b h = ground arith

root_loop-files :
    {img : Image} {table e : ℕ} {f : Forest} (s : ShowsRoot img table e f)
    → (fuel count : ℕ) → root_depth s ≤ fuel
    → root_loop fuel img table e count ≡ ok (count + files f)
unfolding root_loop
root_loop-files (root_end z) zero count d = absurd (omega arith)
root_loop-files (root_end z) (suc fuel) count d = rw z (ap ok (omega arith))
root_loop-files (root_skip b nz k s) zero count d = absurd (omega arith)
root_loop-files (root_skip b nz k s) (suc fuel) count d =
    rw (b, eqb-false _ _ nz, k) (root_loop-files s fuel count (omega arith))
root_loop-files (root_file b nz k s) zero count d = absurd (omega arith)
root_loop-files (root_file b nz k s) (suc fuel) count d =
    rw (b, eqb-false _ _ nz, k)
      (root_loop-files s fuel (count + 1) (omega arith) ∙ ap ok (omega arith))
root_loop-files (root_directory b nz k c s) zero count d = absurd (omega arith)
root_loop-files (root_directory {c = t} b nz k c s) (suc fuel) count d =
    rw (b, eqb-false _ _ nz, k, parse_sub-files c fuel (omega arith))
      (root_loop-files s fuel (count + files t) (omega arith) ∙ ap ok (omega arith))

-- Where the image shows a tree from the root directory on, `print_num_of_files` prints the number
-- of its files, those of all subdirectories included, with any fuel from the tree's depth on.
pub print_num_of_files-files :
    {img : Image} {table : ℕ} {f : Forest} (s : ShowsRoot img table (sector_size * 19) f)
    → (fuel : ℕ) → root_depth s ≤ fuel
    → print_num_of_files fuel img table ≡ ok (number_of_files (files f))
unfolding print_num_of_files
print_num_of_files-files s fuel d =
    rw (root_loop-files s fuel 0 d) (ap (λ n. ok (number_of_files n)) (omega arith))

abbrev Counted : Image → ℕ → ℕ → ℕ → ℕ → Type 0
Counted img table e count n = (f : Forest) × ShowsRoot img table e f × (n ≡ count + files f)

module _ (fuel : ℕ) (img : Image) (table e b : ℕ) (at : load img e ≡ ok b) (nz : b ≢ 0) where
  root_entry-Counted :
      (count n : ℕ) (kind : Kind)
      → root_kind img e ≡ ok kind
      → (count_kind (parse_sub fuel img table) kind count >>= root_loop fuel img table (e + 32))
        ≡ ok n
      → ((count' : ℕ)
          → root_loop fuel img table (e + 32) count' ≡ ok n
          → Counted img table (e + 32) count' n)
      → Counted img table e count n
  root_entry-Counted count n skipped k h rest =
      let (f, s, q) = rest count h in (f, root_skip at nz k s, q)
  root_entry-Counted count n file k h rest =
      let (f, s, q) = rest (count + 1) h in (a_file e f, root_file at nz k s, omega arith)
  root_entry-Counted count n (directory flc) k h rest =
      let (m, got, h') = returns_both (parse_sub fuel img table flc >>= λ m. ok (count + m)) _ h in
      let (c, got', e') = returns_both (parse_sub fuel img table flc) _ got in
      let (f, s, q) = rest m h' in
      let (t, s', q') = parse_sub-Shows fuel img table flc c got' in
      (a_directory e t f, root_directory at nz k s' s, ground arith)

root_loop-Counted :
    (fuel : ℕ) (img : Image) (table e count n : ℕ)
    → root_loop fuel img table e count ≡ ok n
    → Counted img table e count n
unfolding root_loop
root_loop-Counted zero img table e count n h = cc
root_loop-Counted (suc fuel) img table e count n h =
    let (b, at, h') = returns_both (load img e) _ h in
    elim (Bool-cases (b == 0)) [
      | inl z ↦ (empty, root_end (at ∙ ap ok ((==_iff b 0).0 z)), ground (arith, rw z at h'))
      | inr nz ↦
          let h₂ = rw nz at h' in
          let (kind, k, h₃) = returns_both (root_kind img e) _ h₂ in
          root_entry-Counted fuel img table e b at (ground arith) count n kind k h₃
            (λ count'. root_loop-Counted fuel img table (e + 32) count' n)
    ]

-- A number that `print_num_of_files` prints, with any fuel, is the number of files of a tree that
-- the image shows from the root directory on.
pub print_num_of_files-ShowsRoot :
    (fuel : ℕ) (img : Image) (table n : ℕ)
    → print_num_of_files fuel img table ≡ ok (number_of_files n)
    → (f : Forest) × ShowsRoot img table (sector_size * 19) f × (n ≡ files f)
unfolding print_num_of_files
print_num_of_files-ShowsRoot fuel img table n h =
    let (m, got, h') = returns_both (root_loop fuel img table (sector_size * 19) 0) _ h in
    let (f, s, q) = root_loop-Counted fuel img table (sector_size * 19) 0 m got in
    (f, s, ground arith)
