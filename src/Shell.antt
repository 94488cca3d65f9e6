-- ===== src/Shell.antt =====
-- The kernel shell, src/shell.c: a line of input as its bytes, the table of commands and what the
-- commands print. A pointer into the line is an index.
pub mod Words
pub mod Tokens
pub mod Cut
pub mod Parse
mod Tests
use cool_os.Prelude.{
  ℕ, zero, suc, ◌+◌, ◌-◌, Bool, true, false, not, ◌&&◌, ◌||◌, List, [], ◌∷◌, ◌++◌, ltb, leb, ◌==◌,
  if◌then◌else◌, length, get_or, set,
}

abbrev pub shell_max_line : ℕ
shell_max_line = 128

abbrev pub shell_max_args : ℕ
shell_max_args = 8

-- `*p`.
abbrev pub char_at : List ℕ → ℕ → ℕ
char_at line p = get_or line p 0

-- `while (*p == ' ') p++`; the fuel is the bytes of the line.
unfoldable pub skip_spaces : ℕ → List ℕ → ℕ → ℕ
skip_spaces zero line p = p
skip_spaces (suc n) line p =
    let rest = skip_spaces n line (p + 1) in if char_at line p == b' ' then rest else p

-- `while (*p && *p != ' ') p++`.
unfoldable pub token_end : ℕ → List ℕ → ℕ → ℕ
token_end zero line p = p
token_end (suc n) line p =
    let rest = token_end n line (p + 1) in
    if not (char_at line p == 0) && not (char_at line p == b' ') then rest else p

-- `if (*p) *p++ = '\0'`.
abbrev pub terminate : List ℕ → ℕ → List ℕ × ℕ
terminate line p = if char_at line p == 0 then (line, p) else (set line p 0, p + 1)

-- The loop of `shell_parse`, over the rounds that `argv` has room for. The result is the line with its
-- terminators and `argv`.
unfoldable pub parse_tokens : ℕ → List ℕ → ℕ → List ℕ → List ℕ × List ℕ
parse_tokens zero line p argv = (line, argv)
parse_tokens (suc n) line p argv =
    let start = skip_spaces (length line) line p in
    let stop = terminate line (token_end (length line) line start) in
    let rest = parse_tokens n stop.0 stop.1 (argv ++ (start ∷ [])) in
    if char_at line p == 0
    then (line, argv)
    else if char_at line start == 0
    then (line, argv)
    else rest

-- `shell_parse`.
abbrev pub shell_parse : List ℕ → List ℕ × List ℕ
shell_parse line = parse_tokens shell_max_args line 0 []
