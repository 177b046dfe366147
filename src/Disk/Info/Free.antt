-- ===== src/Disk/Info/Free.antt =====
-- The free space that a3/diskinfo.c prints, against the table of 12-bit entries.
use csc.Base.{
  ℕ, zero, suc, ◌+◌, ◌-◌, ◌*◌, ◌/◌, ◌^◌, ◌<◌, ◌≡◌, ap, ◌∙◌, arith, lt→ltb, ◌==◌, if◌then◌else◌, ok,
}
use csc.Disk.Image.{Image, sector_size, load_word}
use csc.Disk.Fat.{get_free_space_fat_entry}
use csc.Disk.Fat.Packed.{IsPacked, get_fat_entry-packed, free_space-eq-fat_entry}
use csc.Disk.Info.{total_disk_size, empty_loop, count_empty_fat_entries}

-- How many of the `k` entries from index `i` on are 0.
abbrev pub zeros : (ℕ → ℕ) → ℕ → ℕ → ℕ
zeros entry i zero = 0
zeros entry i (suc k) = (if entry i == 0 then 1 else 0) + zeros entry (i + 1) k

empty_loop-zeros :
    {img : Image} {len : ℕ} {entry : ℕ → ℕ} (k i free : ℕ)
    → IsPacked img sector_size len entry
    → 3 * (i + k) / 2 < len
    → empty_loop k img i free ≡ ok (free + zeros entry i k)
unfolding empty_loop
empty_loop-zeros zero i free t h = ap ok (omega arith)
empty_loop-zeros {img} {entry} (suc k) i free t h =
    let read : get_free_space_fat_entry img i ≡ ok (entry i) =
      free_space-eq-fat_entry img i ∙ get_fat_entry-packed i t (omega arith) in
    rw read (
      empty_loop-zeros k (i + 1) (if entry i == 0 then free + 1 else free) t (omega arith)
      ∙ ap ok (ground arith))

-- Where the boot sector gives `bytes` times `sectors` as the size of the disk, and the table
-- behind the first sector is in the FAT12 layout and covers the data sectors, `diskinfo` counts 512
-- bytes for each entry that is 0 among those of the data sectors.
pub count_empty-zeros :
    {img : Image} {len : ℕ} {entry : ℕ → ℕ} (bytes sectors : ℕ)
    → load_word img 11 ≡ ok bytes
    → load_word img 19 ≡ ok sectors
    → bytes * sectors < 2 ^ 31
    → IsPacked img sector_size len entry
    → 3 * (bytes * sectors / 512 + 2) / 2 < len
    → count_empty_fat_entries img ≡ ok (zeros entry 2 (bytes * sectors / 512 - 31 - 2) * 512)
unfolding count_empty_fat_entries total_disk_size
count_empty-zeros {img} {entry} bytes sectors b s fits t h =
    rw
      (b, s, lt→ltb _ _ fits, empty_loop-zeros (bytes * sectors / 512 - 31 - 2) 2 0 t (omega arith))
      (ap ok (omega arith))
