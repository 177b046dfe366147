-- ===== src/Disk/Forest.antt =====
-- The directory tree of an image as a data type, and when an image holds it.
use csc.Base.{ℕ, zero, suc, ◌+◌, ◌*◌, ◌≤◌, ◌<◌, ◌≡◌, ◌≢◌, max, arith, ok}
use csc.Disk.Image.{Image, sector_size, load}
use csc.Disk.Fat.{get_fat_entry}
use csc.Disk.Entry.{skipped, file, directory, root_kind, entry_kind}

-- What a directory lists: each file and each subdirectory with the offset of its entry, and each
-- subdirectory with what it lists.
pub data Forest : Type 0 where
  empty : Forest
  a_file : (e : ℕ) → (siblings : Forest) → Forest
  a_directory : (e : ℕ) → (contents siblings : Forest) → Forest

abbrev pub append : Forest → Forest → Forest
append empty g = g
append (a_file e f) g = a_file e (append f g)
append (a_directory e c f) g = a_directory e c (append f g)

-- The files of a tree, in all its directories.
abbrev pub files : Forest → ℕ
files empty = 0
files (a_file e f) = 1 + files f
files (a_directory e c f) = files c + files f

pub files-append : (f g : Forest) → files (append f g) ≡ files f + files g
files-append empty g = omega arith
files-append (a_file e f) g = omega (arith, files-append f g)
files-append (a_directory e c f) g = omega (arith, files-append f g)

-- Where a listing stands: at a sector of a chain, or before some slots of a sector.
pub data Place : Type 0 where
  chain : (sector : ℕ) → Place
  slots : (left e : ℕ) → Place

-- From this place on the image lists this forest. A derivation is finite, so no chain of sectors
-- and no nesting of directories comes round to itself.
pub data Shows (img : Image) (table : ℕ) : Place → Forest → Type 0 where
  chain_end : {loc : ℕ} → 0xff0 < loc → Shows img table (chain loc) empty
  sector :
      {loc next : ℕ} {f g h : Forest}
      → loc ≤ 0xff0
      → Shows img table (slots 16 ((31 + loc) * sector_size)) f
      → get_fat_entry img table loc ≡ ok next
      → Shows img table (chain next) g
      → h ≡ append f g
      → Shows img table (chain loc) h
  no_slots : {e : ℕ} → Shows img table (slots zero e) empty
  skip :
      {k e : ℕ} {f : Forest}
      → entry_kind img e ≡ ok skipped
      → Shows img table (slots k (e + 32)) f
      → Shows img table (slots (suc k) e) f
  one_file :
      {k e : ℕ} {f : Forest}
      → entry_kind img e ≡ ok file
      → Shows img table (slots k (e + 32)) f
      → Shows img table (slots (suc k) e) (a_file e f)
  one_directory :
      {k e flc : ℕ} {c f : Forest}
      → entry_kind img e ≡ ok (directory flc)
      → Shows img table (chain flc) c
      → Shows img table (slots k (e + 32)) f
      → Shows img table (slots (suc k) e) (a_directory e c f)

-- Fuel that is enough to walk through what a derivation shows.
abbrev pub depth : {img : Image} {table : ℕ} {p : Place} {f : Forest} → Shows img table p f → ℕ
depth (chain_end h) = 1
depth (sector h s next t e) = suc (max (depth s) (depth t))
depth no_slots = 0
depth (skip k s) = depth s
depth (one_file k s) = depth s
depth (one_directory k c s) = max (depth c) (depth s)

-- From the entry at `e` on the root directory lists this forest. It ends at the first entry that
-- begins with 0.
pub data ShowsRoot (img : Image) (table : ℕ) : ℕ → Forest → Type 0 where
  root_end : {e : ℕ} → load img e ≡ ok 0 → ShowsRoot img table e empty
  root_skip :
      {e b : ℕ} {f : Forest}
      → load img e ≡ ok b
      → b ≢ 0
      → root_kind img e ≡ ok skipped
      → ShowsRoot img table (e + 32) f
      → ShowsRoot img table e f
  root_file :
      {e b : ℕ} {f : Forest}
      → load img e ≡ ok b
      → b ≢ 0
      → root_kind img e ≡ ok file
      → ShowsRoot img table (e + 32) f
      → ShowsRoot img table e (a_file e f)
  root_directory :
      {e b flc : ℕ} {c f : Forest}
      → load img e ≡ ok b
      → b ≢ 0
      → root_kind img e ≡ ok (directory flc)
      → Shows img table (chain flc) c
      → ShowsRoot img table (e + 32) f
      → ShowsRoot img table e (a_directory e c f)

abbrev pub root_depth : {img : Image} {table e : ℕ} {f : Forest} → ShowsRoot img table e f → ℕ
root_depth (root_end z) = 1
root_depth (root_skip b nz k s) = suc (root_depth s)
root_depth (root_file b nz k s) = suc (root_depth s)
root_depth (root_directory b nz k c s) = suc (max (depth c) (root_depth s))
