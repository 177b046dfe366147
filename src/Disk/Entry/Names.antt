-- ===== src/Disk/Entry/Names.antt =====
-- The names that a3/disklist.c prints, against the padded 8.3 names of a directory entry.
use csc.Base.{
  ℕ, zero, suc, ◌+◌, ◌≤◌, ◌<◌, ◌≡◌, ◌≢◌, refl, List, [], ◌∷◌, ◌++◌, arith, ltb, ◌==◌, if◌then◌else◌,
  length, length-append, ok, fault, ltb→lt, lt→ltb, Bool-cases, inl, inr, false,
}
use csc.Disk.Image.{Image, load, c_string}
use csc.Disk.Entry.{name_field, copy_name, terminate, print_filename, print_subdir_name}

-- The image holds these bytes from offset `a` on.
abbrev pub Holds : Image → ℕ → List ℕ → Type 0
Holds img a [] = Unit
Holds img a (b ∷ bs) = (load img a ≡ ok b) × Holds img (a + 1) bs

-- No space, and no NUL.
abbrev pub IsPlain : List ℕ → Type 0
IsPlain [] = Unit
IsPlain (b ∷ bs) = (b ≢ b' ') × (b ≢ 0) × IsPlain bs

-- A name behind which spaces fill `k` bytes.
abbrev pub pad : ℕ → List ℕ → List ℕ
pad zero name = []
pad (suc k) [] = b' ' ∷ pad k []
pad (suc k) (b ∷ name) = b ∷ pad k name

abbrev pub full_name : List ℕ → List ℕ → List ℕ
full_name name [] = name
full_name name (b ∷ extension) = name ++ (b'.' ∷ b ∷ extension)

pub copy_name-pad :
    (img : Image) (a k : ℕ) (name : List ℕ)
    → IsPlain name
    → length name ≤ k
    → Holds img a (pad k name)
    → copy_name img a k ≡ ok name
unfolding copy_name
copy_name-pad img a zero [] p l h = refl
copy_name-pad img a zero (b ∷ name) p l h = absurd (omega arith)
copy_name-pad img a (suc k) [] p l h = rw (h.0)
copy_name-pad img a (suc k) (b ∷ name) p l h =
    let other : (b == b' ') ≡ false = ground arith in
    rw (h.0, other, copy_name-pad img (a + 1) k name p.2 (omega arith) h.1)

c_string-IsPlain : (bs : List ℕ) → IsPlain bs → c_string bs ≡ bs
c_string-IsPlain [] p = refl
c_string-IsPlain (b ∷ bs) p = ground (arith, c_string-IsPlain bs p.2)

terminate-IsPlain :
    (room : ℕ) (bs : List ℕ) → IsPlain bs → length bs < room → terminate room bs ≡ ok bs
unfolding terminate
terminate-IsPlain room bs p h = rw (lt→ltb _ _ h, c_string-IsPlain bs p)

IsPlain-append : (xs ys : List ℕ) → IsPlain xs → IsPlain ys → IsPlain (xs ++ ys)
IsPlain-append [] ys p q = q
IsPlain-append (x ∷ xs) ys p q = (p.0, p.1, IsPlain-append xs ys p.2 q)

full_name-cases :
    (name extension : List ℕ)
    → (if ltb 0 (length extension) then name ++ (b'.' ∷ extension) else name)
      ≡ full_name name extension
full_name-cases name [] = refl
full_name-cases name (b ∷ extension) = rw (lt→ltb 0 (suc (length extension)) (omega arith))

full_name-IsPlain :
    (name extension : List ℕ)
    → IsPlain name
    → IsPlain extension
    → IsPlain (full_name name extension)
full_name-IsPlain name [] p q = p
full_name-IsPlain name (b ∷ extension) p q = IsPlain-append name _ p (omega arith, omega arith, q)

terminate-fault : (room : ℕ) (bs : List ℕ) → room ≤ length bs → terminate room bs ≡ fault
unfolding terminate
terminate-fault room bs h =
    let full : ltb (length bs) room ≡ false = ground (arith, h) in rw full refl

-- The full name is as long as the name at least, and as the extension.
full_name-covers :
    (name extension : List ℕ)
    → (length name ≤ length (full_name name extension))
      × (length extension ≤ length (full_name name extension))
full_name-covers name [] = (omega arith, omega arith)
full_name-covers name (b ∷ extension) =
    let sum = length-append name (b'.' ∷ b ∷ extension) in (omega (arith, sum), omega (arith, sum))

module _ (img : Image) (room e : ℕ) (name extension : List ℕ) (p : IsPlain name)
    (q : IsPlain extension) (l : length name ≤ 8) (m : length extension ≤ 3)
    (h : Holds img e (pad 8 name)) (g : Holds img (e + 8) (pad 3 extension)) where
  fitting_name :
      length (full_name name extension) < room
      → print_filename img room e ≡ ok (name_field (full_name name extension) ∷ [])
  unfolding print_filename
  fitting_name fits =
      let (long, short) = full_name-covers name extension in
      rw (
        copy_name-pad img e 8 name p l h,
        terminate-IsPlain room name p (omega (arith, long, fits)),
        copy_name-pad img (e + 8) 3 extension q m g,
        terminate-IsPlain room extension q (omega (arith, short, fits)),
        full_name-cases name extension,
        terminate-IsPlain room (full_name name extension) (full_name-IsPlain name extension p q)
            fits,
      )

  long_name : room ≤ length (full_name name extension) → print_filename img room e ≡ fault
  unfolding print_filename
  long_name long = elim (Bool-cases (ltb (length name) room)) [
    | inr full ↦
        rw (copy_name-pad img e 8 name p l h, terminate-fault room name (ground (arith, full))) refl
    | inl fits ↦ elim (Bool-cases (ltb (length extension) room)) [
      | inr full ↦
          rw
            (
              copy_name-pad img e 8 name p l h,
              terminate-IsPlain room name p (ltb→lt _ _ fits),
              copy_name-pad img (e + 8) 3 extension q m g,
              terminate-fault room extension (ground (arith, full)),
            )
            refl
      | inl fits_too ↦
          rw
            (
              copy_name-pad img e 8 name p l h,
              terminate-IsPlain room name p (ltb→lt _ _ fits),
              copy_name-pad img (e + 8) 3 extension q m g,
              terminate-IsPlain room extension q (ltb→lt _ _ fits_too),
              full_name-cases name extension,
              terminate-fault room (full_name name extension) long,
            )
            refl
    ]
  ]

-- For an entry with an 8.3 name of plain bytes, padded with spaces, and blocks of `malloc` of any
-- usable size: `print_filename` prints the name, a dot and the extension, and no dot where there is no
-- extension, if that is shorter than a block; and otherwise it stores out of bounds.
pub print_filename_lem :
    (img : Image) (room e : ℕ) (name extension : List ℕ)
    → IsPlain name
    → IsPlain extension
    → length name ≤ 8
    → length extension ≤ 3
    → Holds img e (pad 8 name)
    → Holds img (e + 8) (pad 3 extension)
    → print_filename img room e ≡ (
        if ltb (length (full_name name extension)) room
        then ok (name_field (full_name name extension) ∷ [])
        else fault)
print_filename_lem img room e name extension p q l m h g =
    elim (Bool-cases (ltb (length (full_name name extension)) room)) [
      | inl fits ↦ rw fits (fitting_name img room e name extension p q l m h g (ltb→lt _ _ fits))
      | inr long ↦ rw long (long_name img room e name extension p q l m h g (ground (arith, long)))
    ]

-- For a directory name of at most 11 bytes, none a space or NUL, padded with spaces:
-- `print_subdir_name` prints a name of at most 10 bytes, and stores out of bounds on a name of 11.
pub print_subdir_name_lem :
    (img : Image) (e : ℕ) (name : List ℕ)
    → IsPlain name
    → length name ≤ 11
    → Holds img e (pad 11 name)
    → print_subdir_name img e ≡ (if ltb (length name) 11 then ok (name_field name ∷ []) else fault)
unfolding print_subdir_name
print_subdir_name_lem img e name p l h =
    rw (copy_name-pad img e 11 name p l h) (elim (Bool-cases (ltb (length name) 11)) [
      | inl short ↦ rw (short, terminate-IsPlain 11 name p (ltb→lt (length name) 11 short))
      | inr long ↦ rw long (unfold terminate in rw long)
    ])
