-- ===== src/Disk/Signed/Agreement.antt =====
-- Where a3/diskinfo-2.c agrees with a3/diskinfo.c, and which files it counts.
use csc.Base.{
  ℕ, zero, suc, ◌+◌, ◌*◌, ◌/◌, ◌%◌, ◌^◌, ◌≤◌, ◌<◌, ◌≡◌, ◌≢◌, refl, sym, ap, ◌∙◌, pos, Bool, true,
  false, not, ◌&&◌, List, [], ◌∷◌, length, ltb, lt→ltb, ◌==◌, if◌then◌else◌, arith, inl, inr,
  Bool-cases, ok,
}
use native.Mathlib.Nat.{zero-add, mul-le-mul, mod-eq_of_lt}
use csc.Disk.Image.{Image, sector_size, load, load_word}
use csc.Disk.Fat.{get_free_space_fat_entry}
use csc.Disk.Info.{total_disk_size}
use csc.Disk.Signed.{
  signed_word, size_of_disk, go_through_fat_entries, counts, file_loop, total_num_of_files,
}

-- For a table entry the sign of the bytes makes no difference: `goThroughFATEntries` returns what
-- `get_free_space_FAT_entry` of diskinfo returns, and faults where that does.
pub go_through-get_free_space :
    (img : Image) (i : ℕ) → go_through_fat_entries img i ≡ get_free_space_fat_entry img i
unfolding go_through_fat_entries get_free_space_fat_entry load
go_through-get_free_space img i = ground arith

-- Where the bytes of the two fields of the boot sector, lower and upper, lie below 128, the size of
-- the disk is that of diskinfo.
pub size_of_disk-total :
    (img : Image) (a b c d : ℕ)
    → load img 11 ≡ ok a
    → load img 12 ≡ ok b
    → load img 19 ≡ ok c
    → load img 20 ≡ ok d
    → a < 128
    → b < 128
    → c < 128
    → d < 128
    → (size : ℕ) × (total_disk_size img ≡ ok size) × (size_of_disk img ≡ ok (pos size))
unfolding size_of_disk signed_word total_disk_size load_word
size_of_disk-total img a b c d ha hb hc hd la lb lc ld =
    let product = (a + b * 2 ^ 8) * (c + d * 2 ^ 8) in
    let sector_fits : a + b * 2 ^ 8 ≤ 2 ^ 15 = omega arith in
    let count_fits : c + d * 2 ^ 8 ≤ 2 ^ 15 = omega arith in
    let fits : product ≤ 2 ^ 30 = mul-le-mul sector_fits count_fits in
    let small : ltb product (2 ^ 31) ≡ true = lt→ltb product (2 ^ 31) (omega arith) in
    let whole : product % 2 ^ 32 ≡ product = mod-eq_of_lt (omega arith) in
    (
      product,
      rw (ha, hb, hc, hd, small),
      rw (
        ha,
        hb,
        hc,
        hd,
        lt→ltb a 128 la,
        lt→ltb b 128 lb,
        lt→ltb c 128 lc,
        lt→ltb d 128 ld,
        swapped a b la lb,
        swapped c d lc ld,
        whole,
        small,
      ),
    )
  where
    swapped : (lo hi : ℕ) → lo < 128 → hi < 128 → (hi * 2 ^ 8 + lo) % 2 ^ 32 ≡ lo + hi * 2 ^ 8
    swapped lo hi l h = omega arith

-- The attributes of a directory entry; the two highest bits of the byte have no meaning.
pub record Attributes : Type 0 where
  pub read_only : Bool
  pub hidden : Bool
  pub system : Bool
  pub volume_label : Bool
  pub directory : Bool
  pub archive : Bool
  pub rest : ℕ

abbrev pub bit : Bool → ℕ
bit false = 0
bit true = 1

-- The byte that stands for attributes.
abbrev pub byte_of : Attributes → ℕ
byte_of a =
    bit a.read_only
    + 2 * bit a.hidden
    + 4 * bit a.system
    + 8 * bit a.volume_label
    + 16 * bit a.directory
    + 32 * bit a.archive
    + 64 * a.rest

-- The attributes of the entries from an offset on, up to one that begins with 0.
abbrev pub HasEntries : Image → ℕ → List Attributes → Type 0
HasEntries img e [] = load img e ≡ ok 0
HasEntries img e (a ∷ as_) =
    ((b : ℕ) × (load img e ≡ ok b) × (b ≢ 0))
    × ((c : ℕ) × (load img (e + 26) ≡ ok c))
    × (load img (e + 11) ≡ ok (byte_of a))
    × HasEntries img (e + 32) as_

abbrev pub is_none : Bool → Bool → Bool → Bool
is_none false false false = true
is_none _ _ _ = false

-- Neither hidden nor a volume label nor a directory.
abbrev pub is_plain : Attributes → Bool
is_plain a = is_none a.hidden a.volume_label a.directory

abbrev pub number_of_plain : List Attributes → ℕ
number_of_plain [] = 0
number_of_plain (a ∷ as_) = (if is_plain a then 1 else 0) + number_of_plain as_

bit-le : (b : Bool) → bit b ≤ 1
bit-le false = omega arith
bit-le true = omega arith

bit-eq : (b : Bool) → (bit b == 1) ≡ b
bit-eq false = refl
bit-eq true = refl

counts-plain : (a : Attributes) → counts (byte_of a) ≡ is_plain a
counts-plain a =
    let r_le = bit-le a.read_only in
    let h_le = bit-le a.hidden in
    let s_le = bit-le a.system in
    let v_le = bit-le a.volume_label in
    let d_le = bit-le a.directory in
    let has_label : byte_of a / 2 ^ 3 % 2 ^ 1 ≡ bit a.volume_label = omega arith in
    let has_directory : byte_of a / 2 ^ 4 % 2 ^ 1 ≡ bit a.directory = omega arith in
    let has_hidden : byte_of a / 2 ^ 1 % 2 ^ 1 ≡ bit a.hidden = omega arith in
    rw
      (
        has_label,
        has_directory,
        has_hidden,
        bit-eq a.volume_label,
        bit-eq a.directory,
        bit-eq a.hidden,
      )
      (neither a.hidden a.volume_label a.directory)
  where
    neither : (h v d : Bool) → not v && not d && not h ≡ is_none h v d
    neither false false false = refl
    neither false false true = refl
    neither false true false = refl
    neither false true true = refl
    neither true false false = refl
    neither true false true = refl
    neither true true false = refl
    neither true true true = refl

file_loop-counted :
    (fuel : ℕ) (img : Image) (e n : ℕ) (attributes : List Attributes)
    → HasEntries img e attributes
    → length attributes < fuel
    → file_loop fuel img e n ≡ ok (n + number_of_plain attributes)
unfolding file_loop
file_loop-counted zero img e n attributes h f = absurd (omega arith)
file_loop-counted (suc fuel) img e n [] h f = rw h (ap ok (omega arith))
file_loop-counted (suc fuel) img e n (a ∷ as_) ((b, at_e, ne), (c, at_26), at_11, h) f =
    let there : (b == 0x00) ≡ false = ground arith in
    let never : ((c == 0x00) && (c == 0x01) && (byte_of a == 0x0F)) ≡ false = ground arith in
    rw (at_e, there, at_26, at_11, never, counts-plain a)
      (elim (Bool-cases (is_plain a)) [
        | inl counted ↦ rw counted (
            file_loop-counted fuel img (e + 32) (n + 1) as_ h (omega arith)
            ∙ ap ok (plus_one (number_of_plain as_)))
        | inr other ↦ rw other (
            file_loop-counted fuel img (e + 32) n as_ h (omega arith)
            ∙ ap (λ k. ok (n + k)) (sym (zero-add (number_of_plain as_))))
      ])
  where
    plus_one : (k : ℕ) → n + 1 + k ≡ n + (1 + k)
    plus_one k = omega arith

-- With fuel above the number of the root directory's entries in front of the first that begins with
-- 0, where the entries and their attributes are as listed, `totalNumOfFiles` returns how many of these
-- entries are neither hidden nor a directory nor a volume label, whatever their other attributes,
-- their cluster and their first byte. What lies in the subdirectories is not counted.
pub total_num_of_files-counted :
    (fuel : ℕ) (img : Image) (attributes : List Attributes)
    → HasEntries img (sector_size * 19) attributes
    → length attributes < fuel
    → total_num_of_files fuel img ≡ ok (number_of_plain attributes)
unfolding total_num_of_files
total_num_of_files-counted fuel img attributes h f =
    file_loop-counted fuel img (sector_size * 19) 0 attributes h f
    ∙ ap ok (zero-add (number_of_plain attributes))
