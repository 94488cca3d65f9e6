-- ===== src/Shell/Words.antt =====
-- The words of a line of text: what stands between its spaces.
use cool_os.Prelude.{
  ℕ, ◌≡◌, ◌≢◌, refl, ap, ◌∙◌, ◌⊎◌, List, [], ◌∷◌, ◌++◌, append_assoc, append-nil, ◌==◌,
  if◌then◌else◌, All, arith, Bool-cases, inl, inr,
}

abbrev pub flush : List ℕ → List (List ℕ) → List (List ℕ)
flush [] ws = ws
flush (c ∷ w) ws = (c ∷ w) ∷ ws

-- The words of a text that follows the part `w` of a word.
unfoldable pub words_after : List ℕ → List ℕ → List (List ℕ)
words_after w [] = flush w []
words_after w (c ∷ cs) =
    if c == b' ' then flush w (words_after [] cs) else words_after (w ++ (c ∷ [])) cs

abbrev pub words : List ℕ → List (List ℕ)
words text = words_after [] text

abbrev pub IsText : List ℕ → Type 0
IsText text = All (λ c. c ≢ 0) text

-- A byte of a word.
abbrev pub IsLetter : ℕ → Type 0
IsLetter c = (c ≢ 0) × (c ≢ b' ')

-- The line is cut at its spaces `s`.
pub words-spaces : (s t : List ℕ) → All (λ c. c ≡ b' ') s → words (s ++ t) ≡ words t
unfolding words_after
words-spaces [] t h = refl
words-spaces (c ∷ s) t h = rw h.0 (words-spaces s t h.1)

pub words_after-letters :
    (v w t : List ℕ) → All IsLetter w → words_after v (w ++ t) ≡ words_after (v ++ w) t
unfolding words_after
words_after-letters v [] t h = rw (append-nil v) refl
words_after-letters v (c ∷ w) t h = elim (Bool-cases (c == b' ')) [
  | inl space ↦ absurd (h.0.1 (ground (arith, space)))
  | inr letter ↦
      rw letter (words_after-letters (v ++ (c ∷ [])) w t h.1 ∙ rw (append_assoc v (c ∷ []) w) refl)
]

-- Where a text stands in its words: nothing but spaces, or a word up to the end or up to a space.
pub data View (text : List ℕ) : Type 0 where
  no_word : All (λ c. c ≡ b' ') text → View text
  word :
      (s : List ℕ) (c : ℕ) (w t : List ℕ)
      → All (λ d. d ≡ b' ') s
      → All IsLetter (c ∷ w)
      → ((t ≡ []) ⊎ ((t' : List ℕ) × (t ≡ b' ' ∷ t')))
      → text ≡ s ++ ((c ∷ w) ++ t)
      → View text

pub data Prefix (text : List ℕ) : Type 0 where
  letters_then :
      (w t : List ℕ)
      → All IsLetter w
      → ((t ≡ []) ⊎ ((t' : List ℕ) × (t ≡ b' ' ∷ t')))
      → text ≡ w ++ t
      → Prefix text

prefix_of : (text : List ℕ) → IsText text → Prefix text
prefix_of [] h = letters_then [] [] tt (inl refl) refl
prefix_of (c ∷ text) h = elim (Bool-cases (c == b' ')) [
  | inl space ↦ letters_then [] (c ∷ text) tt (inr (text, ground (arith, space))) refl
  | inr letter ↦ elim (prefix_of text h.1) [
    | letters_then w t letters rest same ↦
        letters_then (c ∷ w) t ((h.0, ground (arith, letter)), letters) rest (ap (λ l. c ∷ l) same)
  ]
]

pub view : (text : List ℕ) → IsText text → View text
view [] h = no_word tt
view (c ∷ text) h = elim (Bool-cases (c == b' ')) [
  | inl space ↦ elim (view text h.1) [
    | no_word spaces ↦ no_word (ground (arith, space), spaces)
    | word s d w t spaces letters rest same ↦
        word (c ∷ s) d w t (ground (arith, space), spaces) letters rest (ap (λ l. c ∷ l) same)
  ]
  | inr letter ↦ elim (prefix_of text h.1) [
    | letters_then w t letters rest same ↦
        word [] c w t tt ((h.0, ground (arith, letter)), letters) rest (ap (λ l. c ∷ l) same)
  ]
]
