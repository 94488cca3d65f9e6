-- ===== src/Shell/Tokens.antt =====
-- Where `shell_parse` of src/shell.c stops, and the strings that its pointers stand for.
use cool_os.Prelude.{
  ℕ, zero, suc, ◌+◌, ◌≤◌, ◌≡◌, ◌≢◌, refl, ap, subst, ◌∙◌, ◌⊎◌, List, [], ◌∷◌, ◌++◌, append_assoc,
  length, length-append, set, All, arith,
}
use cool_os.Shell.{char_at, skip_spaces, token_end}
use cool_os.Shell.Words.{IsText, IsLetter}

pub char_at-append :
    (before : List ℕ) (c : ℕ) (after : List ℕ) → char_at (before ++ (c ∷ after)) (length before) ≡ c
char_at-append [] c after = refl
char_at-append (b ∷ before) c after = char_at-append before c after

pub set-append :
    (before : List ℕ) (c : ℕ) (after : List ℕ) (v : ℕ)
    → set (before ++ (c ∷ after)) (length before) v ≡ before ++ (v ∷ after)
set-append [] c after v = refl
set-append (b ∷ before) c after v = ap (λ l. b ∷ l) (set-append before c after v)

pub length-snoc : (xs : List ℕ) (c : ℕ) → length (xs ++ (c ∷ [])) ≡ length xs + 1
length-snoc xs c = omega (arith, length-append xs (c ∷ []))

-- The byte behind `before` and the spaces or letters `s` stops a loop.
pub skip_spaces-append :
    (n : ℕ) (before s : List ℕ) (c : ℕ) (after : List ℕ)
    → All (λ d. d ≡ b' ') s
    → c ≢ b' '
    → length s ≤ n
    → skip_spaces n (before ++ (s ++ (c ∷ after))) (length before) ≡ length before + length s
unfolding skip_spaces
skip_spaces-append zero before [] c after h other enough = omega arith
skip_spaces-append zero before (d ∷ s) c after h other enough = absurd (omega arith)
skip_spaces-append (suc n) before [] c after h other enough =
    ground (arith, char_at-append before c after)
skip_spaces-append (suc n) before (d ∷ s) c after h other enough =
    let rest = skip_spaces-append n (before ++ (d ∷ [])) s c after h.1 other (omega arith) in
    let here = char_at-append before d (s ++ (c ∷ after)) in
    let there =
      subst
        (λ l.
          skip_spaces n l (length (before ++ (d ∷ []))) ≡ length (before ++ (d ∷ [])) + length s)
        (append_assoc before (d ∷ []) (s ++ (c ∷ after))) rest in
    let there' =
      subst (λ k. skip_spaces n (before ++ (d ∷ (s ++ (c ∷ after)))) k ≡ k + length s)
        (length-snoc before d) there in
    rw here (ground (arith, there', h.0))

pub token_end-append :
    (n : ℕ) (before w : List ℕ) (c : ℕ) (after : List ℕ)
    → All IsLetter w
    → (c ≡ 0) ⊎ (c ≡ b' ')
    → length w ≤ n
    → token_end n (before ++ (w ++ (c ∷ after))) (length before) ≡ length before + length w
unfolding token_end
token_end-append zero before [] c after h stop enough = omega arith
token_end-append zero before (d ∷ w) c after h stop enough = absurd (omega arith)
token_end-append (suc n) before [] c after h stop enough =
    ground (arith, char_at-append before c after)
token_end-append (suc n) before (d ∷ w) c after h stop enough =
    let rest = token_end-append n (before ++ (d ∷ [])) w c after h.1 stop (omega arith) in
    let here = char_at-append before d (w ++ (c ∷ after)) in
    let there =
      subst
        (λ l. token_end n l (length (before ++ (d ∷ []))) ≡ length (before ++ (d ∷ [])) + length w)
        (append_assoc before (d ∷ []) (w ++ (c ∷ after))) rest in
    let there' =
      subst (λ k. token_end n (before ++ (d ∷ (w ++ (c ∷ after)))) k ≡ k + length w)
        (length-snoc before d) there in
    rw here (ground (arith, there', h.0.0, h.0.1))

-- The string `w` with its terminator stands at `q`.
pub record StandsAt (line : List ℕ) (q : ℕ) (w : List ℕ) : Type 0 where
  pub before : List ℕ
  pub after : List ℕ
  pub splits : line ≡ before ++ (w ++ (0 ∷ after))
  pub at : length before ≡ q
  pub text : IsText w

-- The pointers of `argv` are those of the words, in order.
abbrev pub Pointers : List ℕ → List ℕ → List (List ℕ) → Type 0
Pointers line [] [] = Unit
Pointers line [] (w ∷ ws) = ⊥
Pointers line (q ∷ qs) [] = ⊥
Pointers line (q ∷ qs) (w ∷ ws) = StandsAt line q w × Pointers line qs ws

pub StandsAt-append :
    (line x : List ℕ) (q : ℕ) (w : List ℕ) → StandsAt line q w → StandsAt (line ++ x) q w
StandsAt-append line x q w h = record {
  before = h.before;
  after = h.after ++ x;
  splits =
      ap (λ l. l ++ x) h.splits
      ∙ append_assoc h.before (w ++ (0 ∷ h.after)) x
      ∙ ap (λ l. h.before ++ l) (append_assoc w (0 ∷ h.after) x);
  at = h.at;
  text = h.text;
}

pub Pointers-append :
    (line x : List ℕ) (qs : List ℕ) (ws : List (List ℕ))
    → Pointers line qs ws
    → Pointers (line ++ x) qs ws
Pointers-append line x [] [] h = tt
Pointers-append line x [] (w ∷ ws) h = h
Pointers-append line x (q ∷ qs) [] h = h
Pointers-append line x (q ∷ qs) (w ∷ ws) h =
    (StandsAt-append line x q w h.0, Pointers-append line x qs ws h.1)

pub Pointers-snoc :
    (line : List ℕ) (qs : List ℕ) (ws : List (List ℕ)) (q : ℕ) (w : List ℕ)
    → Pointers line qs ws
    → StandsAt line q w
    → Pointers line (qs ++ (q ∷ [])) (ws ++ (w ∷ []))
Pointers-snoc line [] [] q w h new = (new, tt)
Pointers-snoc line [] (v ∷ ws) q w h new = absurd h
Pointers-snoc line (p ∷ qs) [] q w h new = absurd h
Pointers-snoc line (p ∷ qs) (v ∷ ws) q w h new = (h.0, Pointers-snoc line qs ws q w h.1 new)
