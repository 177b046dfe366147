-- ===== src/Disk/Info/Count.antt =====
-- The number of files that a3/diskinfo.c prints, against the directory tree of the image.
use csc.Base.{
  ℕ, zero, suc, ◌+◌, ◌≤◌, ◌≡◌, refl, ap, ◌∙◌, arith, leb, le→leb, lt→leb, leb→lt, ok, Run,
  Bool-cases, inl, inr, returns_both, ◌>>=◌, leb→le,
}
use csc.Disk.Image.{Image}
use csc.Disk.Fat.{get_fat_entry}
use csc.Disk.Entry.{skipped, file, directory, entry_kind, Kind}
use csc.Disk.Forest.{
  Forest, empty, a_file, a_directory, append, files, files-append, Place, chain, slots, Shows,
  chain_end, sector, no_slots, skip, one_file, one_directory, depth,
}
use csc.Disk.Info.{count_kind, count_slots, parse_loop, parse_sub}

-- What a walk from a place counts on top of `total`.
abbrev Counts : ℕ → Image → ℕ → Place → ℕ → Run ℕ
Counts fuel img table (chain loc) total = parse_loop fuel img table loc total
Counts fuel img table (slots k e) total =
    count_slots (λ flc. parse_loop fuel img table flc 0) img k e total

Counts-files :
    {img : Image} {table : ℕ} {p : Place} {f : Forest} (s : Shows img table p f)
    → (fuel total : ℕ) → depth s ≤ fuel
    → Counts fuel img table p total ≡ ok (total + files f)
unfolding count_slots parse_loop
Counts-files (chain_end h) zero total d = absurd (omega arith)
Counts-files (chain_end {loc} h) (suc fuel) total d = rw (lt→leb loc 0xff0 h) (ap ok (omega arith))
Counts-files (sector h s next t e) zero total d = absurd (omega arith)
Counts-files {f = g} (sector {loc} {f} {g = f'} h s next t e) (suc fuel) total d =
    rw
      (
        le→leb loc 0xff0 h,
        Counts-files s fuel total (omega arith),
        next,
        Counts-files t fuel (total + files f) (omega arith),
        e,
      )
      (ap ok (omega (arith, files-append f f')))
Counts-files no_slots fuel total d = ap ok (omega arith)
Counts-files (skip k s) fuel total d = rw k (Counts-files s fuel total d)
Counts-files (one_file {f} k s) fuel total d =
    rw k (Counts-files s fuel (total + 1) d ∙ ap ok (omega arith))
Counts-files (one_directory {c} {f} k t s) fuel total d =
    rw (k, Counts-files t fuel 0 (omega arith))
      (Counts-files s fuel (total + (0 + files c)) (omega arith) ∙ ap ok (omega arith))

-- Where the chain of a directory shows a tree, `parse_sub` returns the number of its files, with
-- any fuel from the tree's depth on.
pub parse_sub-files :
    {img : Image} {table flc : ℕ} {f : Forest} (s : Shows img table (chain flc) f)
    → (fuel : ℕ) → depth s ≤ fuel
    → parse_sub fuel img table flc ≡ ok (files f)
unfolding parse_sub
parse_sub-files s fuel d = Counts-files s fuel 0 d ∙ ap ok (omega arith)

abbrev Counted : Image → ℕ → Place → ℕ → ℕ → Type 0
Counted img table p total n = (f : Forest) × Shows img table p f × (n ≡ total + files f)

module _ (img : Image) (table : ℕ) (sub : ℕ → Run ℕ)
    (sound : (flc n : ℕ) → sub flc ≡ ok n → Counted img table (chain flc) 0 n) where
  slot-Counted :
      (k e total n : ℕ) (kind : Kind)
      → entry_kind img e ≡ ok kind
      → (count_kind sub kind total >>= count_slots sub img k (e + 32)) ≡ ok n
      → ((total' : ℕ)
          → count_slots sub img k (e + 32) total' ≡ ok n
          → Counted img table (slots k (e + 32)) total' n)
      → Counted img table (slots (suc k) e) total n
  slot-Counted k e total n skipped kd h rest = let (f, s, q) = rest total h in (f, skip kd s, q)
  slot-Counted k e total n file kd h rest =
      let (f, s, q) = rest (total + 1) h in (a_file e f, one_file kd s, omega arith)
  slot-Counted k e total n (directory flc) kd h rest =
      let (m, got, h') = returns_both (sub flc >>= λ m. ok (total + m)) _ h in
      let (c, got', e') = returns_both (sub flc) _ got in
      let (f, s, q) = rest m h' in
      let (f', s', q') = sound flc c got' in
      (a_directory e f' f, one_directory kd s' s, ground arith)

  slots-Counted :
      (k e total n : ℕ)
      → count_slots sub img k e total ≡ ok n
      → Counted img table (slots k e) total n
  unfolding count_slots
  slots-Counted zero e total n h = (empty, no_slots, ground arith)
  slots-Counted (suc k) e total n h =
      let (kind, kd, h') = returns_both (entry_kind img e) _ h in
      slot-Counted k e total n kind kd h' (λ total'. slots-Counted k (e + 32) total' n)

pub loop-Counted :
    (fuel : ℕ) (img : Image) (table loc total n : ℕ)
    → parse_loop fuel img table loc total ≡ ok n
    → Counted img table (chain loc) total n
unfolding parse_loop
loop-Counted zero img table loc total n h = cc
loop-Counted (suc fuel) img table loc total n h = elim (Bool-cases (leb loc 0xff0)) [
  | inl more ↦
      let h' = rw more at h in
      let (m, got, h₂) = returns_both _ _ h' in
      let (next, link, h₃) = returns_both (get_fat_entry img table loc) _ h₂ in
      let (f, s, q) =
        slots-Counted img table _ (λ flc. loop-Counted fuel img table flc 0) 16 _ total m got in
      let (g, t, q') = loop-Counted fuel img table next m n h₃ in
      (append f g, sector (leb→le loc 0xff0 more) s link t refl, omega (arith, files-append f g))
  | inr done ↦ (empty, chain_end (leb→lt loc 0xff0 done), ground (arith, rw done at h))
]

-- A count that `parse_sub` returns, with any fuel, is the number of files of a tree that the
-- image shows from that chain on.
pub parse_sub-Shows :
    (fuel : ℕ) (img : Image) (table flc n : ℕ)
    → parse_sub fuel img table flc ≡ ok n
    → (f : Forest) × Shows img table (chain flc) f × (n ≡ files f)
unfolding parse_sub
parse_sub-Shows fuel img table flc n h =
    let (f, s, q) = loop-Counted fuel img table flc 0 n h in (f, s, omega arith)
