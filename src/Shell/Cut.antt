-- ===== src/Shell/Cut.antt =====
-- One round of the loop of `shell_parse` in src/shell.c, on a line that is cut at a word.
use cool_os.Prelude.{
  ℕ, zero, suc, ◌+◌, ◌≡◌, ◌≢◌, refl, sym, ap, ap₂, subst, ◌∙◌, ◌⊎◌, List, [], ◌∷◌, ◌++◌,
  append_assoc, length, length-append, set, take, All, arith,
}
use cool_os.Shell.{char_at, skip_spaces, token_end, terminate, parse_tokens}
use cool_os.Shell.Words.{words, words-spaces, words_after, words_after-letters, IsText, IsLetter}
use cool_os.Shell.Tokens.{
  char_at-append, set-append, length-snoc, skip_spaces-append, token_end-append, StandsAt, Pointers,
  Pointers-append, Pointers-snoc,
}

-- One round that finds a word.
pub parse_round :
    (n : ℕ) (line : List ℕ) (p : ℕ) (argv : List ℕ) (start stop : ℕ) (line' : List ℕ) (p' : ℕ)
    → char_at line p ≢ 0
    → skip_spaces (length line) line p ≡ start
    → char_at line start ≢ 0
    → token_end (length line) line start ≡ stop
    → terminate line stop ≡ (line', p')
    → parse_tokens (suc n) line p argv ≡ parse_tokens n line' p' (argv ++ (start ∷ []))
unfolding parse_tokens
parse_round n line p argv start stop line' p' more skips found ends terminated =
    rw (skips, ends, terminated) (ground (arith, more, found))

pub parse_nothing :
    (n : ℕ) (line : List ℕ) (p : ℕ) (argv : List ℕ)
    → char_at line (skip_spaces (length line) line p) ≡ 0
    → parse_tokens (suc n) line p argv ≡ (line, argv)
unfolding parse_tokens
parse_nothing n line p argv nothing = ground (arith, nothing)

pub skip_spaces-zero :
    (n : ℕ) (line : List ℕ) (p : ℕ) → char_at line p ≡ 0 → skip_spaces n line p ≡ p
unfolding skip_spaces
skip_spaces-zero zero line p h = refl
skip_spaces-zero (suc n) line p h = ground (arith, h)

pub parse_end :
    (n : ℕ) (line : List ℕ) (p : ℕ) (argv : List ℕ)
    → char_at line p ≡ 0
    → parse_tokens n line p argv ≡ (line, argv)
unfolding parse_tokens
parse_end zero line p argv h = refl
parse_end (suc n) line p argv h =
    parse_nothing n line p argv (ap (char_at line) (skip_spaces-zero (length line) line p h) ∙ h)

pub IsText-letters : (w : List ℕ) → All IsLetter w → IsText w
IsText-letters [] h = tt
IsText-letters (c ∷ w) h = (h.0.0, IsText-letters w h.1)

pub terminate-letter :
    (line : List ℕ) (p : ℕ) → char_at line p ≢ 0 → terminate line p ≡ (set line p 0, p + 1)
terminate-letter line p h = ground (arith, h)

pub All-drop : (s t : List ℕ) → IsText (s ++ t) → IsText t
All-drop [] t h = h
All-drop (c ∷ s) t h = All-drop s t h.1

pub IsText-rest :
    (s : List ℕ) (d : ℕ) (w t : List ℕ) → IsText (s ++ ((d ∷ w) ++ (b' ' ∷ t))) → IsText t
IsText-rest s d w t h = (All-drop (d ∷ w) (b' ' ∷ t) (All-drop s ((d ∷ w) ++ (b' ' ∷ t)) h)).1

-- The cut behind `before`, the spaces `s` and the word `w`, at the byte `c`.
module _ (before s : List ℕ) (d : ℕ) (w : List ℕ) (c : ℕ) (after : List ℕ)
    (spaces : All (λ e. e ≡ b' ') s) (letters : All IsLetter (d ∷ w))
    (stop : (c ≡ 0) ⊎ (c ≡ b' ')) where
  abbrev pub cut : List ℕ
  cut = before ++ (s ++ ((d ∷ w) ++ (c ∷ after)))

  pub length-cut : length cut ≡ length before + length s + length (d ∷ w) + 1 + length after
  length-cut = omega (
    arith,
    length-append before (s ++ ((d ∷ w) ++ (c ∷ after))),
    length-append s ((d ∷ w) ++ (c ∷ after)),
    length-append (d ∷ w) (c ∷ after),
  )

  pub cut_again : cut ≡ (before ++ s) ++ ((d ∷ w) ++ (c ∷ after))
  cut_again = sym (append_assoc before s ((d ∷ w) ++ (c ∷ after)))

  pub cut_at_end : cut ≡ ((before ++ s) ++ (d ∷ w)) ++ (c ∷ after)
  cut_at_end = cut_again ∙ sym (append_assoc (before ++ s) (d ∷ w) (c ∷ after))

  pub skips : skip_spaces (length cut) cut (length before) ≡ length (before ++ s)
  skips =
      skip_spaces-append (length cut) before s d (w ++ (c ∷ after)) spaces letters.0.1
        (omega (arith, length-cut))
      ∙ sym (length-append before s)

  pub found : char_at cut (length (before ++ s)) ≡ d
  found = rw cut_again (char_at-append (before ++ s) d (w ++ (c ∷ after)))

  pub ends : token_end (length cut) cut (length (before ++ s)) ≡ length ((before ++ s) ++ (d ∷ w))
  ends =
      subst
        (λ l. token_end (length cut) l (length (before ++ s)) ≡ length ((before ++ s) ++ (d ∷ w)))
        (sym cut_again)
        (token_end-append (length cut) (before ++ s) (d ∷ w) c after letters stop
            (omega (arith, length-cut))
          ∙ sym (length-append (before ++ s) (d ∷ w)))

  pub stopped : char_at cut (length ((before ++ s) ++ (d ∷ w))) ≡ c
  stopped = rw cut_at_end (char_at-append ((before ++ s) ++ (d ∷ w)) c after)

  pub first : char_at cut (length before) ≢ 0
  first =
      elim s
          as (λ s.
            All (λ e. e ≡ b' ') s
            → char_at (before ++ (s ++ ((d ∷ w) ++ (c ∷ after)))) (length before) ≢ 0) [
              | [] ↦ λ h z. letters.0.0 (sym (char_at-append before d (w ++ (c ∷ after))) ∙ z)
              | e ∷ r ↦ λ h z.
                  absurd (
                    ground (arith, h.0, z, char_at-append before e (r ++ ((d ∷ w) ++ (c ∷ after)))))
            ]
        spaces

  pub token : StandsAt (((before ++ s) ++ (d ∷ w)) ++ (0 ∷ [])) (length (before ++ s)) (d ∷ w)
  token = record {
    before = before ++ s;
    after = [];
    splits = append_assoc (before ++ s) (d ∷ w) (0 ∷ []);
    at = refl;
    text = IsText-letters (d ∷ w) letters;
  }

  pub words-cut : (t : List ℕ) → words (s ++ ((d ∷ w) ++ t)) ≡ words_after (d ∷ w) t
  words-cut t = words-spaces s ((d ∷ w) ++ t) spaces ∙ words_after-letters [] (d ∷ w) t letters

  module _ (n : ℕ) (argv : List ℕ) (ws : List (List ℕ)) (known : Pointers before argv ws) where
    abbrev pub argv' : List ℕ
    argv' = argv ++ (length (before ++ s) ∷ [])

    pub known' : Pointers (((before ++ s) ++ (d ∷ w)) ++ (0 ∷ [])) argv' (ws ++ ((d ∷ w) ∷ []))
    known' =
        Pointers-snoc (((before ++ s) ++ (d ∷ w)) ++ (0 ∷ [])) argv ws (length (before ++ s))
          (d ∷ w)
          (subst (λ l. Pointers l argv ws)
            (sym (
              append_assoc (before ++ s) (d ∷ w) (0 ∷ [])
              ∙ append_assoc before s ((d ∷ w) ++ (0 ∷ []))))
            (Pointers-append before (s ++ ((d ∷ w) ++ (0 ∷ []))) argv ws known))
          token

    pub round :
        (line' : List ℕ) (p' : ℕ)
        → terminate cut (length ((before ++ s) ++ (d ∷ w))) ≡ (line', p')
        → parse_tokens (suc n) cut (length before) argv ≡ parse_tokens n line' p' argv'
    round line' p' terminated =
        parse_round n cut (length before) argv (length (before ++ s))
          (length ((before ++ s) ++ (d ∷ w))) line' p' first skips
          (λ z. letters.0.0 (sym found ∙ z)) ends terminated

    pub round_last : c ≡ 0 → parse_tokens (suc n) cut (length before) argv ≡ (cut, argv')
    round_last last =
        round cut (length ((before ++ s) ++ (d ∷ w))) (ground (arith, stopped, last))
        ∙ parse_end n cut (length ((before ++ s) ++ (d ∷ w))) argv' (stopped ∙ last)

    pub round_more :
        c ≡ b' '
        → parse_tokens (suc n) cut (length before) argv
          ≡ parse_tokens n
              ((((before ++ s) ++ (d ∷ w)) ++ (0 ∷ [])) ++ after)
              (length (((before ++ s) ++ (d ∷ w)) ++ (0 ∷ [])))
              argv'
    round_more space = round _ _ (
        terminate-letter cut _ (λ z. absurd (ground (arith, z, stopped, space)))
        ∙ ap₂ (λ l p. (l, p))
            (ap (λ l. set l (length ((before ++ s) ++ (d ∷ w))) 0) cut_at_end
              ∙ set-append ((before ++ s) ++ (d ∷ w)) c after 0
              ∙ sym (append_assoc ((before ++ s) ++ (d ∷ w)) (0 ∷ []) after))
            (sym (length-snoc ((before ++ s) ++ (d ∷ w)) 0)))

pub take-one : (n : ℕ) (w : List ℕ) → take (suc n) (w ∷ []) ≡ w ∷ []
take-one zero w = refl
take-one (suc n) w = refl

pub regroup : (s u t x : List ℕ) → (s ++ (u ++ t)) ++ x ≡ s ++ (u ++ (t ++ x))
regroup s u t x = append_assoc s (u ++ t) x ∙ ap (λ l. s ++ l) (append_assoc u t x)
