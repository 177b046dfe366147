-- ===== src/Text/Tokens.antt =====
-- How `strtok` splits a line into words (a1/PMan.c, a2/A2.c).
use csc.Base.{
  ℕ, zero, suc, ◌≡◌, ◌≢◌, refl, ap, ◌∙◌, List, [], ◌∷◌, ◌++◌, append-nil, append_assoc, false, true,
  arith, ◌==◌, replicate,
}
use csc.Text.{emit, split, tokens}

-- A word: at least one byte, and none of them the separator.
abbrev pub Without : ℕ → List ℕ → Type 0
Without separator [] = Unit
Without separator (b ∷ bs) = (b ≢ separator) × Without separator bs

abbrev pub IsWord : ℕ → List ℕ → Type 0
IsWord separator word = (word ≢ []) × Without separator word

abbrev pub AllWords : ℕ → List (List ℕ) → Type 0
AllWords separator [] = Unit
AllWords separator (w ∷ ws) = IsWord separator w × AllWords separator ws

-- Words with separators in front of each, `n` and one more, and then a tail.
abbrev pub spaced : ℕ → List (ℕ × List ℕ) → List ℕ → List ℕ
spaced separator [] tail = tail
spaced separator ((n, w) ∷ ws) tail = replicate (suc n) separator ++ (w ++ spaced separator ws tail)

abbrev pub words_of : List (ℕ × List ℕ) → List (List ℕ)
words_of [] = []
words_of ((n, w) ∷ ws) = w ∷ words_of ws

same : (b : ℕ) → (b == b) ≡ true
same b = ground arith

other : {a b : ℕ} → a ≢ b → (a == b) ≡ false
other h = ground arith

emit-word : (word : List ℕ) (rest : List (List ℕ)) → word ≢ [] → emit word rest ≡ word ∷ rest
emit-word [] rest h = absurd (h refl)
emit-word (b ∷ bs) rest h = refl

split-hit :
    (separator : ℕ) (current rest : List ℕ)
    → split separator current (separator ∷ rest) ≡ emit current (split separator [] rest)
unfolding split
split-hit separator current rest = rw (same separator, split)

split-miss :
    (separator b : ℕ) (current rest : List ℕ)
    → b ≢ separator
    → split separator current (b ∷ rest) ≡ split separator (current ++ (b ∷ [])) rest
unfolding split
split-miss separator b current rest h = rw (other h, split)

-- Separators in a row end no token.
split-replicate :
    (separator n : ℕ) (rest : List ℕ)
    → split separator [] (replicate n separator ++ rest) ≡ split separator [] rest
split-replicate separator zero rest = refl
split-replicate separator (suc n) rest =
    split-hit separator [] (replicate n separator ++ rest) ∙ split-replicate separator n rest

-- The bytes of a word are added to the token begun.
split-word :
    (separator : ℕ) (current word rest : List ℕ)
    → Without separator word
    → split separator current (word ++ rest) ≡ split separator (current ++ word) rest
split-word separator current [] rest h = rw append-nil
split-word separator current (b ∷ word) rest (ne, h) =
    split-miss separator b current (word ++ rest) ne
    ∙ split-word separator (current ++ (b ∷ [])) word rest h
    ∙ ap (λ c. split separator c rest) (append_assoc current (b ∷ []) word)

split_tail :
    (separator after : ℕ) (current : List ℕ)
    → split separator current (replicate after separator) ≡ emit current []
unfolding split
split_tail separator zero current = refl
split_tail separator (suc n) current =
    split-hit separator current (replicate n separator)
    ∙ ap (emit current) (split_tail separator n [])

-- A token ends where the next spaced word begins.
split-spaced :
    (separator after : ℕ) (current : List ℕ) (ws : List (ℕ × List ℕ))
    → AllWords separator (words_of ws)
    → split separator current (spaced separator ws (replicate after separator))
      ≡ emit current (words_of ws)
split-spaced separator after current [] h = split_tail separator after current
split-spaced separator after current ((n, w) ∷ ws) (hw, h) =
    let tail = spaced separator ws (replicate after separator) in
    split-hit separator current (replicate n separator ++ (w ++ tail))
    ∙ ap (emit current) (
        split-replicate separator n (w ++ tail)
        ∙ split-word separator [] w tail hw.1
        ∙ split-spaced separator after w ws h
        ∙ emit-word w (words_of ws) hw.0)

-- Words with any number of separators in front, at least one between them, and any number behind
-- are split into just these words.
pub tokens-words :
    (separator before after : ℕ) (w : List ℕ) (ws : List (ℕ × List ℕ))
    → AllWords separator (w ∷ words_of ws)
    → tokens separator
        (replicate before separator ++ (w ++ spaced separator ws (replicate after separator)))
      ≡ w ∷ words_of ws
unfolding tokens
tokens-words separator before after w ws (hw, h) =
    let tail = spaced separator ws (replicate after separator) in
    split-replicate separator before (w ++ tail)
    ∙ split-word separator [] w tail hw.1
    ∙ split-spaced separator after w ws h
    ∙ emit-word w (words_of ws) hw.0
