-- ===== src/Fat/Names.antt =====
-- The 8.3 names of src/fat32.c: the name that a path stands for in a directory, and the name that
-- a directory entry is listed under.
use cool_os.Prelude.{
  ℕ, zero, suc, ◌-◌, ◌<◌, ◌≢◌, ◌⊎◌, Bool, true, false, ◌&&◌, List, [], ◌∷◌, ◌++◌, map, leb, ◌==◌,
  if◌then◌else◌, take, drop, length, replicate, get_or,
}

abbrev pub upper : ℕ → ℕ
upper c = if leb 97 c && leb c 122 then c - 32 else c

-- At most `n` characters before a dot or the end, in upper case, and the rest of the path.
unfoldable pub base_chars : ℕ → List ℕ → List ℕ × List ℕ
base_chars zero path = ([], path)
base_chars (suc n) [] = ([], [])
base_chars (suc n) (c ∷ path) =
    let rest = base_chars n path in if c == 46 then ([], c ∷ path) else (upper c ∷ rest.0, rest.1)

-- What follows the first dot.
unfoldable pub skip_to_dot : List ℕ → List ℕ
skip_to_dot [] = []
skip_to_dot (c ∷ path) = let rest = skip_to_dot path in if c == 46 then path else rest

unfoldable pub pad : ℕ → List ℕ → List ℕ
pad n cs = cs ++ replicate (n - length cs) 32

-- `target` of `fat_name_match`.
unfoldable pub short_name : List ℕ → List ℕ
short_name path =
    let base = base_chars 8 path in pad 8 base.0 ++ pad 3 (map upper (take 3 (skip_to_dot base.1)))

unfoldable pub same_chars : List ℕ → List ℕ → Bool
same_chars [] [] = true
same_chars (c ∷ cs) (d ∷ ds) = c == d && same_chars cs ds
same_chars cs ds = false

abbrev pub fat_name_match : List ℕ → List ℕ → Bool
fat_name_match name path = same_chars name (short_name path)

unfoldable pub until_space : List ℕ → List ℕ
until_space [] = []
until_space (c ∷ cs) = let rest = until_space cs in if c == 32 then [] else c ∷ rest

-- The string that `fat_list_root` passes to its callback.
unfoldable pub listed_name : List ℕ → List ℕ
listed_name name =
    until_space (take 8 name)
    ++ (if get_or name 8 0 == 32 then [] else 46 ∷ until_space (take 3 (drop 8 name)))

-- A character of a name: neither a space nor a dot nor a lower-case letter.
abbrev pub IsNameChar : ℕ → Type 0
IsNameChar c = (32 < c) × (c ≢ 46) × ((c < 97) ⊎ (122 < c))

abbrev pub AllName : List ℕ → Type 0
AllName [] = Unit {0}
AllName (c ∷ cs) = IsNameChar c × AllName cs

-- An entry's name: a base of one to eight characters and an extension of up to three.
abbrev pub entry_name : List ℕ → List ℕ → List ℕ
entry_name base ext = pad 8 base ++ pad 3 ext
