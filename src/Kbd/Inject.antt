-- ===== src/Kbd/Inject.antt =====
-- Injection of test input, src/kbd.c: the text that is injected is the text that is read.
use cool_os.Prelude.{
  ℕ, ◌+◌, ◌≤◌, ◌<◌, ◌≡◌, ◌≢◌, refl, sym, ap, ◌∙◌, Bool, true, false, ◌&&◌, ◌||◌, List, [], ◌∷◌,
  ◌++◌, arith, ltb, leb, ◌==◌, if◌then◌else◌, get_or, table, table-entry, length, length-append,
  subst, inl, inr, Bool-cases,
}
use mathlib.Core.List.{append_assoc, append-nil}
use cool_os.Kbd.{Kbd, process_scancode, put_char, inject_char, inject_string}
use cool_os.Kbd.Tables.{scancode_normal, char_to_scancode}
use cool_os.Kbd.Ring.{IsValid, contents, offer}
use cool_os.Kbd.Typing.{key_char, translate_lem, process_scancode-typed, is_modifier}

-- The characters that a key types without shift.
unfoldable pub has_key : ℕ → Bool
has_key c =
    leb b'a' c && leb c b'z'
    || leb b'0' c && leb c b'9'
    || leb 8 c && leb c 10
    || leb 44 c && leb c 47
    || leb 91 c && leb c 93
    || c == 32
    || c == 39
    || c == 59
    || c == 61
    || c == 96

-- The character that arrives for an injected one, 0 for none: an upper-case letter arrives in
-- lower case, and `!` as `1`, since the injection presses no shift.
unfoldable pub arrives : ℕ → ℕ
arrives c =
    if leb b'A' c && leb c b'Z'
    then c + 32
    else if c == b'!'
    then b'1'
    else if has_key c
    then c
    else 0

-- Every code of the table is a key below 128 that is no modifier and gives the character.
inject_table : Bool
inject_table = table 128 (λ c.
    let s = get_or char_to_scancode c 0 in
    if s == 0
    then arrives c == 0
    else ltb s 128
      && (if is_modifier s then false else true)
      && key_char s false false == arrives c)

inject_table_holds : inject_table ≡ true
unfolding inject_table table key_char arrives has_key char_to_scancode scancode_normal
inject_table_holds = refl

table-arrives :
    (c : ℕ)
    → c < 128
    → let s = get_or char_to_scancode c 0 in
      (s ≡ 0 → arrives c ≡ 0)
      × (s ≢ 0 → s < 128 × (is_modifier s ≡ false) × (key_char s false false ≡ arrives c))
unfolding inject_table
table-arrives c h = ground (arith, table-entry 128 _ c inject_table_holds h)

-- No modifier that changes a character is on.
pub record IsPlain (k : Kbd) : Type 0 where
  pub left : k.shift_left ≡ false
  pub right : k.shift_right ≡ false
  pub caps : k.caps_lock ≡ false

process_scancode-IsPlain :
    {k : Kbd} (key : ℕ)
    → is_modifier key ≡ false
    → IsPlain k
    → IsPlain (process_scancode k key true)
unfolding process_scancode put_char
process_scancode-IsPlain key h v = ground arith

inject_char-arrives :
    {k : Kbd} (c : ℕ)
    → c < 128
    → IsPlain k
    → IsValid k
    → IsPlain (inject_char k c)
      × IsValid (inject_char k c)
      × (contents (inject_char k c) ≡ offer (contents k) (arrives c))
unfolding inject_char offer
inject_char-arrives {k} c h plain v =
    let s = get_or char_to_scancode c 0 in
    ground (
      arith,
      table-arrives c h,
      process_scancode-IsPlain {k = k} s,
      process_scancode-typed {k = k} s true v,
      translate_lem k s true,
    )

-- Every injected text that has an end. A key that a character lacks leaves nothing.
abbrev pub arriving : List ℕ → List ℕ
arriving [] = []
arriving (c ∷ s) = if arrives c == 0 then arriving s else arrives c ∷ arriving s

-- A code beyond the table presses no key.
beyond : {k : Kbd} (c : ℕ) → 128 ≤ c → (inject_char k c ≡ k) × (arrives c ≡ 0)
unfolding inject_char arrives has_key
beyond c far = ground (arith, far)

offer-none : (s : List ℕ) (c : ℕ) → offer s c ≡ (if c == 0 then s else offer s c)
unfolding offer
offer-none s c = ground arith

offer-room : (s : List ℕ) (c : ℕ) → (c == 0) ≡ false → length s < 255 → offer s c ≡ s ++ (c ∷ [])
unfolding offer
offer-room s c some_key room = ground (arith, some_key, room)

inject_char-step :
    {k : Kbd} (c : ℕ)
    → IsPlain k
    → IsValid k
    → IsPlain (inject_char k c)
      × IsValid (inject_char k c)
      × (contents (inject_char k c)
          ≡ (if arrives c == 0 then contents k else offer (contents k) (arrives c)))
inject_char-step {k} c plain v = elim (Bool-cases (ltb c 128)) [
  | inl below ↦
      let h = inject_char-arrives {k = k} c (ground (arith, below)) plain v in
      (h.0, h.1, h.2 ∙ offer-none (contents k) (arrives c))
  | inr above ↦
      let h = beyond {k = k} c (ground (arith, above)) in
      (subst IsPlain (sym h.0) plain, subst IsValid (sym h.0) v, ap contents h.0 ∙ rw h.1 refl)
]

-- Any text, injected while no modifier is on and while the ring has room for what its keys type, leaves
-- behind what the ring held what those keys type without shift: a letter in lower case, `1` for `!`,
-- another character of the table as it is, and nothing for one that the table lacks.
pub contents-inject_string :
    (s : List ℕ) {k : Kbd}
    → IsPlain k
    → IsValid k
    → length (contents k) + length (arriving s) ≤ 255
    → contents (inject_string k s) ≡ contents k ++ arriving s
unfolding inject_string
contents-inject_string [] plain v room = sym (append-nil _)
contents-inject_string (c ∷ s) {k} plain v room =
    let h = inject_char-step {k = k} c plain v in
    elim (Bool-cases (arrives c == 0)) [
      | inl nothing ↦
          let same : contents (inject_char k c) ≡ contents k = rw nothing at h.2 in
          let fits : length (contents k) + length (arriving s) ≤ 255 = rw nothing at room in
          contents-inject_string s h.0 h.1 (rw same fits) ∙ rw (same, nothing) refl
      | inr some_key ↦
          let fits : length (contents k) + length (arrives c ∷ arriving s) ≤ 255 =
            rw some_key at room in
          let stored : contents (inject_char k c) ≡ contents k ++ (arrives c ∷ []) =
            (rw some_key at h.2)
            ∙ offer-room (contents k) (arrives c) some_key (omega (arith, fits)) in
          contents-inject_string s h.0 h.1
            (omega (arith, ap length stored, length-append (contents k) (arrives c ∷ []), fits))
          ∙ rw (stored, some_key, append_assoc) refl
    ]
