-- ===== src/Disk/Image.antt =====
-- The disk image that `mmap` maps (a3/diskinfo.c, a3/disklist.c), and C strings in memory blocks.
use csc.Base.{
  ℕ, zero, suc, ◌+◌, ◌*◌, ◌/◌, ◌%◌, ◌^◌, ◌<◌, ◌≡◌, Bool, true, false, List, [], ◌∷◌, ◌++◌, arith,
  ltb, ◌==◌, if◌then◌else◌, length, drop, Run, ok, fault, ◌>>=◌,
}

-- The mapped file: its size, and its byte at each offset below the size.
pub record Image : Type 0 where
  pub size : ℕ
  pub byte : ℕ → ℕ

-- What `open` and `mmap` give.
pub data Opened : Type 0 where
  not_opened : Opened
  not_mapped : Opened
  mapped : Image → Opened

abbrev pub sector_size : ℕ
sector_size = 512

-- `p[i]`, an unsigned char. An access behind the mapped file is not allowed.
unfoldable pub load : Image → ℕ → Run ℕ
load img i = if ltb i img.size then ok (img.byte i % 256) else fault

-- `p[i] + (p[i + 1] << 8)`
unfoldable pub load_word : Image → ℕ → Run ℕ
load_word img i = do lo ← load img i; hi ← load img (i + 1); ok (lo + hi * 2 ^ 8)

-- `k` bytes from an offset on
unfoldable pub load_bytes : Image → ℕ → ℕ → Run (List ℕ)
load_bytes img i zero = ok []
load_bytes img i (suc k) = do b ← load img i; bs ← load_bytes img (i + 1) k; ok (b ∷ bs)

-- `(x & mask) >> lo` for the mask of `width` ones at `lo`
abbrev pub bits : ℕ → ℕ → ℕ → ℕ
bits x lo width = x / 2 ^ lo % 2 ^ width

-- `(x & 2 ^ k) != 0`
abbrev pub has_bit : ℕ → ℕ → Bool
has_bit x k = bits x k 1 == 1

-- The bytes in front of the first NUL.
abbrev pub c_string : List ℕ → List ℕ
c_string [] = []
c_string (b ∷ bs) = if b == 0 then [] else b ∷ c_string bs

abbrev pub has_nul : List ℕ → Bool
has_nul [] = false
has_nul (b ∷ bs) = if b == 0 then true else has_nul bs

-- A block is the memory from a pointer on. Bytes stored at its front; no byte may lie behind it.
unfoldable pub store_front : List ℕ → List ℕ → Run (List ℕ)
store_front bs block =
    if ltb (length block) (length bs) then fault else ok (bs ++ drop (length bs) block)

-- The string that `printf("%s")` reads from a block.
unfoldable pub read_string : List ℕ → Run (List ℕ)
read_string block = if has_nul block then ok (c_string block) else fault

pub load-ok : (img : Image) (i : ℕ) → i < img.size → load img i ≡ ok (img.byte i % 256)
unfolding load
load-ok img i h = ground arith

pub load-fault : (img : Image) (i : ℕ) → ltb i img.size ≡ false → load img i ≡ fault
unfolding load
load-fault img i h = ground arith

pub load_word-ok :
    (img : Image) (i : ℕ)
    → i + 1 < img.size
    → load_word img i ≡ ok (img.byte i % 256 + img.byte (i + 1) % 256 * 2 ^ 8)
unfolding load_word load
load_word-ok img i h = ground arith
