-- ===== src/Disk/Entry.antt =====
-- Directory entries of 32 bytes: the filters, names, sizes and time stamps of a3/disklist.c, and
-- the filters of a3/diskinfo.c.
pub mod Fields
pub mod Names
use csc.Base.{
  ℕ, zero, suc, ◌+◌, ◌*◌, ◌^◌, Bool, ◌||◌, List, [], ◌∷◌, ◌++◌, ltb, ◌==◌, if◌then◌else◌, length, ℤ,
  int32, Run, ok, fault, ◌>>=◌,
}
use csc.Disk.Image.{Image, load, load_word, bits, has_bit, c_string}

-- What the programs print, one constructor for each `printf`.
pub data Print : Type 0 where
  root_heading : Print  -- "Root\n==================\n"
  newline : Print  -- "\n"
  file_mark : Print  -- "F "
  directory_mark : Print  -- "D "
  size_field : ℤ → Print  -- "%10d"
  name_field : List ℕ → Print  -- "%20s"
  date_field : (year month day : ℕ) → Print  -- " %d-%02d-%02d "
  time_field : (hours minutes : ℕ) → Print  -- "%02d:%02d\n"
  path_line : List ℕ → Print  -- "/%s", and the rule under it

pub data Kind : Type 0 where
  skipped : Kind
  file : Kind
  directory : (flc : ℕ) → Kind

-- The filter of the loops over the root directory: first logical cluster, attribute, first byte.
abbrev pub is_skipped_in_root : ℕ → ℕ → ℕ → Bool
is_skipped_in_root flc attribute first =
    flc == 0x00 || flc == 0x01 || attribute == 0x0F || has_bit attribute 3 || first == 0xE5

-- The filter of the loops over subdirectories, which passes over `.` and `..` too.
abbrev pub is_skipped : ℕ → ℕ → ℕ → Bool
is_skipped flc attribute first =
    flc == 0x00
    || flc == 0x01
    || attribute == 0x0F
    || has_bit attribute 3
    || first == b'.'
    || first == 0xE5

abbrev pub kind_of : Bool → ℕ → ℕ → Kind
kind_of skip flc attribute =
    if skip then skipped else if has_bit attribute 4 then directory flc else file

-- The entry at offset `e`. The cluster's bytes lie last and are read first.
unfoldable pub root_kind : Image → ℕ → Run Kind
root_kind img e = do
  flc ← load_word img (e + 26)
  attribute ← load img (e + 11)
  first ← load img e
  ok (kind_of (is_skipped_in_root flc attribute first) flc attribute)

unfoldable pub entry_kind : Image → ℕ → Run Kind
entry_kind img e = do
  flc ← load_word img (e + 26)
  attribute ← load img (e + 11)
  first ← load img e
  ok (kind_of (is_skipped flc attribute first) flc attribute)

-- The bytes up to the first space, `k` at most: the loops that copy a name.
unfoldable pub copy_name : Image → ℕ → ℕ → Run (List ℕ)
copy_name img a zero = ok []
copy_name img a (suc k) = do
  b ← load img a
  if b == b' ' then ok [] else do bs ← copy_name img (a + 1) k; ok (b ∷ bs)

-- A string in an array of `room` bytes, with the NUL stored behind the copied bytes.
unfoldable pub terminate : ℕ → List ℕ → Run (List ℕ)
terminate room bs = if ltb (length bs) room then ok (c_string bs) else fault

-- `room` is the usable size of each block that `malloc(sizeof(char))` returns.
unfoldable pub print_filename : Image → ℕ → ℕ → Run (List Print)
print_filename img room e = do
  name_bytes ← copy_name img e 8
  filename ← terminate room name_bytes
  extension_bytes ← copy_name img (e + 8) 3
  extension ← terminate room extension_bytes
  fullname ←
      terminate room (if ltb 0 (length extension) then filename ++ (b'.' ∷ extension) else filename)
  ok (name_field fullname ∷ [])

-- `char subdir_name[11]`
unfoldable pub print_subdir_name : Image → ℕ → Run (List Print)
print_subdir_name img e = do
  name_bytes ← copy_name img e 11
  subdir_name ← terminate 11 name_bytes
  ok (name_field subdir_name ∷ [])

-- The two `unsigned short`s are read in little-endian order.
unfoldable pub print_datetime : Image → ℕ → Run (List Print)
print_datetime img e = do
  time ← load_word img (e + 14)
  date ← load_word img (e + 16)
  ok (
      date_field (bits date 9 7 + 1980) (bits date 5 4) (bits date 0 5)
      ∷ time_field (bits time 11 5) (bits time 5 6)
      ∷ [])

-- `byte4 << 24` reaches the sign bit of an `int`: gcc wraps it.
unfoldable pub filesize : Image → ℕ → Run ℤ
filesize img e = do
  byte1 ← load img (e + 28)
  byte2 ← load img (e + 29)
  byte3 ← load img (e + 30)
  byte4 ← load img (e + 31)
  ok (int32 (byte1 + byte2 * 2 ^ 8 + byte3 * 2 ^ 16 + byte4 * 2 ^ 24))
