-- ===== src/Shell/Parse.antt =====
-- `shell_parse` of src/shell.c against the words of the line.
use cool_os.Prelude.{
  ℕ, zero, suc, ◌≤◌, ◌≡◌, refl, sym, ap, subst, ◌∙◌, inl, inr, List, [], ◌∷◌, ◌++◌, append_assoc,
  append-nil, length, length-append, take, All, arith,
}
use cool_os.Shell.{char_at, skip_spaces, parse_tokens, shell_parse, shell_max_args}
use cool_os.Shell.Words.{words, words-spaces, words_after, IsText, IsLetter, no_word, word, view}
use cool_os.Shell.Tokens.{char_at-append, skip_spaces-append, Pointers, Pointers-append}
use cool_os.Shell.Cut.{
  parse_nothing, IsText-rest, take-one, regroup, cut, cut_at_end, words-cut, known', round_last,
  round_more,
}

-- What the rounds from `before` on leave behind.
abbrev Parsed : ℕ → List ℕ → List ℕ → List ℕ → List ℕ → List (List ℕ) → Type 0
Parsed n before text after argv ws =
    let r = parse_tokens n (before ++ (text ++ (0 ∷ after))) (length before) argv in
    Pointers r.0 r.1 (ws ++ take n (words text))

-- A result that is known.
by_result :
    (n : ℕ) (before text after argv : List ℕ) (ws : List (List ℕ)) (r : List ℕ × List ℕ)
    → parse_tokens n (before ++ (text ++ (0 ∷ after))) (length before) argv ≡ r
    → Pointers r.0 r.1 (ws ++ take n (words text))
    → Parsed n before text after argv ws
by_result n before text after argv ws r same h =
    subst (λ r. Pointers r.0 r.1 (ws ++ take n (words text))) (sym same) h

no_rounds :
    (before text after argv : List ℕ) (ws : List (List ℕ))
    → Pointers before argv ws
    → Parsed zero before text after argv ws
unfolding parse_tokens
no_rounds before text after argv ws known =
    rw (append-nil ws) (Pointers-append before (text ++ (0 ∷ after)) argv ws known)

no_letters :
    (n : ℕ) (before s after argv : List ℕ) (ws : List (List ℕ))
    → All (λ d. d ≡ b' ') s
    → Pointers before argv ws
    → Parsed (suc n) before s after argv ws
unfolding words_after
no_letters n before s after argv ws spaces known =
    let line = before ++ (s ++ (0 ∷ after)) in
    let room : length s ≤ length line =
      omega (arith, length-append before (s ++ (0 ∷ after)), length-append s (0 ∷ after)) in
    let stop =
      skip_spaces-append (length line) before s 0 after spaces (λ e. absurd (omega arith)) room in
    let nothing : char_at line (skip_spaces (length line) line (length before)) ≡ 0 =
      ap (char_at line) (stop ∙ sym (length-append before s))
      ∙ ap (λ l. char_at l (length (before ++ s))) (sym (append_assoc before s (0 ∷ after)))
      ∙ char_at-append (before ++ s) 0 after in
    let no_words : words s ≡ [] = ap words (sym (append-nil s)) ∙ words-spaces s [] spaces in
    by_result (suc n) before s after argv ws (line, argv)
      (parse_nothing n line (length before) argv nothing)
      (rw (no_words, append-nil ws) (Pointers-append before (s ++ (0 ∷ after)) argv ws known))

module _ (n : ℕ) (before s : List ℕ) (d : ℕ) (w after argv : List ℕ) (ws : List (List ℕ))
    (spaces : All (λ e. e ≡ b' ') s) (letters : All IsLetter (d ∷ w))
    (known : Pointers before argv ws) where
  abbrev pointers : List ℕ
  pointers = argv ++ (length (before ++ s) ∷ [])

  ended : List ℕ
  ended = ((before ++ s) ++ (d ∷ w)) ++ (0 ∷ [])

  ended_known : Pointers ended pointers (ws ++ ((d ∷ w) ∷ []))
  unfolding ended
  ended_known = known' before s d w 0 after spaces letters (inl refl) n argv ws known

  last_word : Parsed (suc n) before (s ++ ((d ∷ w) ++ [])) after argv ws
  unfolding ended words_after
  last_word =
      let whole = cut before s d w 0 after spaces letters (inl refl) in
      let same : before ++ ((s ++ ((d ∷ w) ++ [])) ++ (0 ∷ after)) ≡ whole =
        ap (λ l. before ++ l) (regroup s (d ∷ w) [] (0 ∷ after)) in
      let one : words (s ++ ((d ∷ w) ++ [])) ≡ (d ∷ w) ∷ [] =
        words-cut before s d w 0 after spaces letters (inl refl) [] in
      let there : ended ++ after ≡ whole =
        append_assoc ((before ++ s) ++ (d ∷ w)) (0 ∷ []) after
        ∙ sym (cut_at_end before s d w 0 after spaces letters (inl refl)) in
      by_result (suc n) before (s ++ ((d ∷ w) ++ [])) after argv ws (whole, pointers)
        (ap (λ l. parse_tokens (suc n) l (length before) argv) same
          ∙ round_last before s d w 0 after spaces letters (inl refl) n argv ws known refl)
        (rw (one, take-one n (d ∷ w))
          (subst (λ l. Pointers l pointers (ws ++ ((d ∷ w) ∷ []))) there
            (Pointers-append ended after pointers (ws ++ ((d ∷ w) ∷ []))
              (known' before s d w 0 after spaces letters (inl refl) n argv ws known))))

  next_word :
      (t : List ℕ)
      → Parsed n ended t after pointers (ws ++ ((d ∷ w) ∷ []))
      → Parsed (suc n) before (s ++ ((d ∷ w) ++ (b' ' ∷ t))) after argv ws
  unfolding ended words_after
  next_word t rest =
      let text = s ++ ((d ∷ w) ++ (b' ' ∷ t)) in
      let after' = t ++ (0 ∷ after) in
      let more : words text ≡ (d ∷ w) ∷ words t =
        words-cut before s d w b' ' after' spaces letters (inr refl) (b' ' ∷ t) in
      by_result (suc n) before text after argv ws
        (parse_tokens n (ended ++ (t ++ (0 ∷ after))) (length ended) pointers)
        (ap (λ l. parse_tokens (suc n) (before ++ l) (length before) argv)
            (regroup s (d ∷ w) (b' ' ∷ t) (0 ∷ after))
          ∙ round_more before s d w b' ' after' spaces letters (inr refl) n argv ws known refl)
        (rw more (subst (Pointers _ _) (append_assoc ws ((d ∷ w) ∷ []) (take n (words t))) rest))

parse_tokens-Parsed :
    (n : ℕ) (before text after argv : List ℕ) (ws : List (List ℕ))
    → IsText text
    → Pointers before argv ws
    → Parsed n before text after argv ws
parse_tokens-Parsed zero before text after argv ws h known =
    no_rounds before text after argv ws known
parse_tokens-Parsed (suc n) before text after argv ws h known = elim (view text h) [
  | no_word spaces ↦ no_letters n before text after argv ws spaces known
  | word s d w t spaces letters (inl last) same ↦
      subst (λ l. Parsed (suc n) before l after argv ws)
        (ap (λ l. s ++ ((d ∷ w) ++ l)) (sym last) ∙ sym same)
        (last_word n before s d w after argv ws spaces letters known)
  | word s d w t spaces letters (inr (t', more)) same ↦
      let here = ap (λ l. s ++ ((d ∷ w) ++ l)) (sym more) ∙ sym same in
      subst (λ l. Parsed (suc n) before l after argv ws) here
        (next_word n before s d w after argv ws spaces letters known t' (
          parse_tokens-Parsed n (ended n before s d w after argv ws spaces letters known) t' after
            (pointers n before s d w after argv ws spaces letters known) (ws ++ ((d ∷ w) ∷ []))
            (IsText-rest s d w t' (subst IsText (sym here) h))
            (ended_known n before s d w after argv ws spaces letters known)))
]

-- The strings that `argv` points to are the first eight words of the line, in order.
pub shell_parse-Words :
    (text after : List ℕ)
    → IsText text
    → Pointers
        (shell_parse (text ++ (0 ∷ after))).0
        (shell_parse (text ++ (0 ∷ after))).1
        (take shell_max_args (words text))
shell_parse-Words text after h = parse_tokens-Parsed shell_max_args [] text after [] [] h tt
