-- ===== src/Fat/NameRound.antt =====
-- The name that `fat_list_root` of src/fat32.c lists an entry under is one that `fat_open` finds it
-- by.
use mathlib.Core.List.{append-nil}
use cool_os.Prelude.{
  ℕ, zero, suc, ◌-◌, ◌≤◌, ◌≡◌, refl, subst, ap, ap₂, true, false, List, [], ◌∷◌, ◌++◌, map, arith,
  ◌==◌, take, drop, length, replicate, get_or, length-append, length-replicate,
}
use cool_os.Fat.Names.{
  upper, base_chars, skip_to_dot, pad, short_name, same_chars, fat_name_match, until_space,
  listed_name, IsNameChar, AllName, entry_name,
}

same_chars_refl : (cs : List ℕ) → same_chars cs cs ≡ true
unfolding same_chars
same_chars_refl [] = refl
same_chars_refl (c ∷ cs) = ground (arith, same_chars_refl cs)

upper-IsNameChar : (c : ℕ) → IsNameChar c → upper c ≡ c
upper-IsNameChar c h = ground arith

map-upper : (cs : List ℕ) → AllName cs → map upper cs ≡ cs
map-upper [] h = refl
map-upper (c ∷ cs) h = ap₂ (λ x y. x ∷ y) (upper-IsNameChar c h.0) (map-upper cs h.1)

until_space-pad : (cs : List ℕ) (n : ℕ) → AllName cs → until_space (cs ++ replicate n 32) ≡ cs
unfolding until_space
until_space-pad [] zero h = refl
until_space-pad [] (suc n) h = refl
until_space-pad (c ∷ cs) n h =
    let no_space : (c == 32) ≡ false = ground arith in
    rw no_space (ap (λ x. c ∷ x) (until_space-pad cs n h.1))

base_chars-dot :
    (n : ℕ) (cs rest : List ℕ)
    → AllName cs
    → length cs ≤ n
    → base_chars n (cs ++ 46 ∷ rest) ≡ (map upper cs, 46 ∷ rest)
unfolding base_chars
base_chars-dot zero [] rest h le = refl
base_chars-dot zero (c ∷ cs) rest h le = elim le [ ]
base_chars-dot (suc n) [] rest h le = refl
base_chars-dot (suc n) (c ∷ cs) rest h le =
    let no_dot : (c == 46) ≡ false = ground arith in
    rw (no_dot, base_chars-dot n cs rest h.1 (omega arith)) refl

base_chars-end :
    (n : ℕ) (cs : List ℕ) → AllName cs → length cs ≤ n → base_chars n cs ≡ (map upper cs, [])
unfolding base_chars
base_chars-end zero [] h le = refl
base_chars-end zero (c ∷ cs) h le = elim le [ ]
base_chars-end (suc n) [] h le = refl
base_chars-end (suc n) (c ∷ cs) h le =
    let no_dot : (c == 46) ≡ false = ground arith in
    rw (no_dot, base_chars-end n cs h.1 (omega arith)) refl

take-append : (xs ys : List ℕ) → take (length xs) (xs ++ ys) ≡ xs
take-append [] ys = refl
take-append (x ∷ xs) ys = ap (λ t. x ∷ t) (take-append xs ys)

drop-append : (xs ys : List ℕ) → drop (length xs) (xs ++ ys) ≡ ys
drop-append [] ys = refl
drop-append (x ∷ xs) ys = drop-append xs ys

get_or-append : (xs ys : List ℕ) (d : ℕ) → get_or (xs ++ ys) (length xs) d ≡ get_or ys 0 d
get_or-append [] ys d = refl
get_or-append (x ∷ xs) ys d = get_or-append xs ys d

take_ge : (n : ℕ) (xs : List ℕ) → length xs ≤ n → take n xs ≡ xs
take_ge zero [] h = refl
take_ge zero (x ∷ xs) h = elim h [ ]
take_ge (suc n) [] h = refl
take_ge (suc n) (x ∷ xs) h = ap (λ t. x ∷ t) (take_ge n xs (omega arith))

length-pad : (n : ℕ) (cs : List ℕ) → length cs ≤ n → length (pad n cs) ≡ n
unfolding pad
length-pad n cs h = omega (
  arith,
  length-append cs (replicate (n - length cs) 32),
  length-replicate {A = ℕ} (n - length cs) 32,
)

until_space-ext :
    (ext : List ℕ) → AllName ext → length ext ≤ 3 → until_space (take 3 (pad 3 ext)) ≡ ext
unfolding pad
until_space-ext ext h le =
    rw (take_ge 3 (pad 3 ext) (omega (arith, length-pad 3 ext le)))
      (until_space-pad ext (3 - length ext) h)

skip_dot : (path : List ℕ) → skip_to_dot (46 ∷ path) ≡ path
unfolding skip_to_dot
skip_dot path = refl

skip_end : skip_to_dot [] ≡ []
unfolding skip_to_dot
skip_end = refl

-- A base with its extension, if there is one.
abbrev pub with_dot : List ℕ → List ℕ → List ℕ
with_dot base [] = base
with_dot base (c ∷ cs) = base ++ 46 ∷ c ∷ cs

module _ (base : List ℕ) (named : AllName base) (short : length base ≤ 8) where
  take-entry_name : (ext : List ℕ) → take 8 (entry_name base ext) ≡ pad 8 base
  take-entry_name ext =
      subst (λ n. take n (entry_name base ext) ≡ pad 8 base) (length-pad 8 base short)
        (take-append (pad 8 base) (pad 3 ext))

  drop-entry_name : (ext : List ℕ) → drop 8 (entry_name base ext) ≡ pad 3 ext
  drop-entry_name ext =
      subst (λ n. drop n (entry_name base ext) ≡ pad 3 ext) (length-pad 8 base short)
        (drop-append (pad 8 base) (pad 3 ext))

  get_or-entry_name : (ext : List ℕ) → get_or (entry_name base ext) 8 0 ≡ get_or (pad 3 ext) 0 0
  get_or-entry_name ext =
      subst (λ n. get_or (entry_name base ext) n 0 ≡ get_or (pad 3 ext) 0 0)
        (length-pad 8 base short) (get_or-append (pad 8 base) (pad 3 ext) 0)

  until_space-base : until_space (pad 8 base) ≡ base
  unfolding pad
  until_space-base = until_space-pad base (8 - length base) named

  listed_name-entry_name :
      (ext : List ℕ)
      → AllName ext
      → length ext ≤ 3
      → listed_name (entry_name base ext) ≡ with_dot base ext
  unfolding listed_name
  listed_name-entry_name [] h le =
      rw (take-entry_name [], get_or-entry_name [], until_space-base)
        (unfold pad in append-nil base)
  listed_name-entry_name (c ∷ cs) h le =
      let no_space : (get_or (pad 3 (c ∷ cs)) 0 0 == 32) ≡ false =
        unfold pad in ground (arith, h.0) in
      rw
        (
          take-entry_name (c ∷ cs),
          get_or-entry_name (c ∷ cs),
          no_space,
          drop-entry_name (c ∷ cs),
          until_space-base,
          until_space-ext (c ∷ cs) h le,
        )
        refl

  short_name-dot :
      (ext : List ℕ)
      → AllName ext
      → length ext ≤ 3
      → short_name (base ++ 46 ∷ ext) ≡ entry_name base ext
  unfolding short_name
  short_name-dot ext h le =
      rw
        (
          base_chars-dot 8 base ext named short,
          map-upper base named,
          skip_dot ext,
          take_ge 3 ext le,
          map-upper ext h,
        )
        refl

  short_name-with_dot :
      (ext : List ℕ)
      → AllName ext
      → length ext ≤ 3
      → short_name (with_dot base ext) ≡ entry_name base ext
  unfolding short_name
  short_name-with_dot [] h le =
      rw (base_chars-end 8 base named short, map-upper base named, skip_end) refl
  short_name-with_dot (c ∷ cs) h le = short_name-dot (c ∷ cs) h le

-- A directory entry whose name has a base of at most eight characters and an extension of at most
-- three, all of them neither spaces nor dots nor lower-case letters, is listed as the base, followed
-- by a dot and the extension if there is one; and opening that listed name matches the entry.
pub fat_name_match-listed_name :
    (base ext : List ℕ)
    → AllName base
    → AllName ext
    → length base ≤ 8
    → length ext ≤ 3
    → (listed_name (entry_name base ext) ≡ with_dot base ext)
      × (fat_name_match (entry_name base ext) (listed_name (entry_name base ext)) ≡ true)
fat_name_match-listed_name base ext b e short_base short_ext =
    let listed = listed_name-entry_name base b short_base ext e short_ext in
    let found = short_name-with_dot base b short_base ext e short_ext in
    (listed, rw (listed, found) (same_chars_refl (entry_name base ext)))
