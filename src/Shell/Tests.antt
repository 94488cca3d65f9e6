-- ===== src/Shell/Tests.antt =====
-- Lines for src/shell.c.
use cool_os.Prelude.{ℕ, ◌≡◌, refl, List, [], ◌∷◌, ◌++◌, take, arith}
use cool_os.Shell.{shell_parse, shell_max_args, skip_spaces, token_end, parse_tokens}
use cool_os.Shell.Words.{words, words_after}
use cool_os.Shell.Tokens.{Pointers}
use cool_os.Shell.Parse.{shell_parse-Words}

-- " cat  A ".
abbrev line : List ℕ
line = b' ' ∷ b'c' ∷ b'a' ∷ b't' ∷ b' ' ∷ b' ' ∷ b'A' ∷ b' ' ∷ []

parsed :
    shell_parse (line ++ (0 ∷ 7 ∷ []))
    ≡ (b' ' ∷ b'c' ∷ b'a' ∷ b't' ∷ 0 ∷ b' ' ∷ b'A' ∷ 0 ∷ 0 ∷ 7 ∷ [], 1 ∷ 6 ∷ [])
unfolding parse_tokens skip_spaces token_end
parsed = refl

line_words : words line ≡ (b'c' ∷ b'a' ∷ b't' ∷ []) ∷ (b'A' ∷ []) ∷ []
unfolding words_after
line_words = refl

shell_parse-Words_example :
    Pointers
      (shell_parse (line ++ (0 ∷ 7 ∷ []))).0
      (shell_parse (line ++ (0 ∷ 7 ∷ []))).1
      (take shell_max_args (words line))
shell_parse-Words_example = shell_parse-Words line (7 ∷ []) (omega arith)
