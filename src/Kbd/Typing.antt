-- ===== src/Kbd/Typing.antt =====
-- Which character an interrupt of src/kbd.c types, and what the queue holds after any run of
-- interrupts and reads.
use cool_os.Prelude.{
  ℕ, ◌-◌, ◌%◌, ◌<◌, ◌≡◌, refl, Bool, true, false, not, ◌&&◌, ◌||◌, Option, List, [], ◌∷◌, arith,
  ltb, leb, ◌==◌, ==_iff, if◌then◌else◌, get_or, table, table-entry,
}
use cool_os.Kbd.{
  Kbd, put_char, sc_lshift, sc_rshift, sc_ctrl, sc_caps, sc_alt, apply_caps, translate,
  process_scancode, handle_irq, getc_nonblock,
}
use cool_os.Kbd.Tables.{scancode_normal, scancode_shifted}
use cool_os.Kbd.Ring.{
  IsValid, contents, offer, poll, put_char-IsValid, getc_nonblock-IsValid, contents-put_char,
  getc_nonblock_refines,
}

abbrev is_lower : ℕ → Bool
is_lower c = leb b'a' c && leb c b'z'

-- A key of the table with shift and caps lock: on a letter the two cancel, and caps lock changes
-- nothing else.
unfoldable pub key_char : ℕ → Bool → Bool → ℕ
key_char key shift caps =
    let c = get_or scancode_normal key 0 in
    if is_lower c
    then (if shift then (if caps then c else c - 32) else if caps then c - 32 else c)
    else if shift
    then get_or scancode_shifted key 0
    else c

key_table : Bool → Bool → Bool
key_table shift caps = table 128 (λ key.
    apply_caps caps (get_or (if shift then scancode_shifted else scancode_normal) key 0)
    == key_char key shift caps)

key_table_holds : (shift caps : Bool) → key_table shift caps ≡ true
unfolding key_table key_char table apply_caps scancode_normal scancode_shifted
key_table_holds true true = refl
key_table_holds true false = refl
key_table_holds false true = refl
key_table_holds false false = refl

apply_caps-eq-key_char :
    (key : ℕ) (shift caps : Bool)
    → key < 128
    → apply_caps caps (get_or (if shift then scancode_shifted else scancode_normal) key 0)
      ≡ key_char key shift caps
unfolding key_table
apply_caps-eq-key_char key shift caps h =
    (==_iff _ _).0 (table-entry 128 _ key (key_table_holds shift caps) h)

-- The translation of a scancode, for every state of the modifiers: a release and a code outside
-- the table type nothing, and a press types the key's character.
pub translate_lem :
    (k : Kbd) (key : ℕ) (pressed : Bool)
    → translate k key pressed ≡ (
        if pressed && ltb key 128
        then key_char key (k.shift_left || k.shift_right) k.caps_lock
        else 0)
unfolding translate
translate_lem k key pressed =
    ground (arith, apply_caps-eq-key_char key (k.shift_left || k.shift_right) k.caps_lock)

-- What decides the character of the next key.
pub record Mods : Type 0 where
  pub left : Bool
  pub right : Bool
  pub caps : Bool
  pub extended : Bool

unfoldable pub mods : Kbd → Mods
mods k = record {
  left = k.shift_left;
  right = k.shift_right;
  caps = k.caps_lock;
  extended = k.extended_scancode;
}

-- An extended code is dropped with its prefix; caps lock turns on a press only.
unfoldable pub next_mods : Mods → ℕ → Mods
next_mods m s =
    let plain = not (s == 0xe0) && not m.extended in
    let key = s % 0x80 in
    let pressed = ltb s 0x80 in
    record {
      left = if plain && key == sc_lshift then pressed else m.left;
      right = if plain && key == sc_rshift then pressed else m.right;
      caps = if plain && key == sc_caps && pressed then not m.caps else m.caps;
      extended = s == 0xe0;
    }

abbrev pub is_modifier : ℕ → Bool
is_modifier key =
    key == sc_lshift || key == sc_rshift || key == sc_ctrl || key == sc_caps || key == sc_alt

-- The character that an interrupt types, 0 for none.
unfoldable pub typed : Mods → ℕ → ℕ
typed m s =
    let key = s % 0x80 in
    if s == 0xe0 || m.extended || not (ltb s 0x80) || is_modifier key
    then 0
    else key_char key (m.left || m.right) m.caps

pub process_scancode-typed :
    {k : Kbd} (key : ℕ) (pressed : Bool)
    → IsValid k
    → IsValid (process_scancode k key pressed)
      × (contents (process_scancode k key pressed)
          ≡ offer (contents k) (if is_modifier key then 0 else translate k key pressed))
unfolding process_scancode offer contents
process_scancode-typed {k} key pressed v = ground (
  arith,
  put_char-IsValid {k = k} (translate k key pressed),
  contents-put_char {k = k} (translate k key pressed),
)

mods-handle_irq : (k : Kbd) (s : ℕ) → mods (handle_irq k s) ≡ next_mods (mods k) s
unfolding handle_irq process_scancode put_char mods next_mods
mods-handle_irq k s = ground arith

pub handle_irq-typed :
    {k : Kbd} (s : ℕ)
    → IsValid k
    → IsValid (handle_irq k s) × (contents (handle_irq k s) ≡ offer (contents k) (typed (mods k) s))
unfolding handle_irq typed mods offer contents
handle_irq-typed {k} s v = ground (
  arith,
  process_scancode-typed {k = k} (s % 0x80) (ltb s 0x80) v,
  translate_lem k (s % 0x80) (ltb s 0x80),
)

-- A run of the driver: an interrupt with its byte, or a read that does not block.
pub data Event : Type 0 where
  irq : ℕ → Event
  read : Event

-- What the reads return.
unfoldable pub run : Kbd → List Event → List (Option ℕ)
run k [] = []
run k (irq s ∷ es) = run (handle_irq k s) es
run k (read ∷ es) = let (c, k') = getc_nonblock k in c ∷ run k' es

unfoldable pub serve : Mods → List ℕ → List Event → List (Option ℕ)
serve m q [] = []
serve m q (irq s ∷ es) = serve (next_mods m s) (offer q (typed m s)) es
serve m q (read ∷ es) = let (c, q') = poll q in c ∷ serve m q' es

mods-getc_nonblock : (k : Kbd) → mods (getc_nonblock k).1 ≡ mods k
unfolding getc_nonblock mods
mods-getc_nonblock k = ground arith

-- Over every run of interrupts and reads, a valid driver returns what a queue of at most 255
-- characters returns, fed with the character that each interrupt types under the modifiers.
pub run_refines :
    (es : List Event) {k : Kbd} → IsValid k → run k es ≡ serve (mods k) (contents k) es
unfolding run serve
run_refines [] v = refl
run_refines (irq s ∷ es) {k} v =
    let h = handle_irq-typed {k = k} s v in rw (run_refines es h.0, mods-handle_irq k s, h.1)
run_refines (read ∷ es) {k} v =
    rw (run_refines es (getc_nonblock-IsValid v), mods-getc_nonblock k, ← getc_nonblock_refines v)
