-- ===== src/Kbd.antt =====
-- The keyboard driver, src/kbd.c: modifiers, the scancode handler, the ring buffer between the
-- interrupt and the reader, the line editor, and the injection of test input.
pub mod Ring
pub mod Echoes
pub mod LineEditor
mod Tables
mod Tests
pub mod Inject
pub mod Typing
use cool_os.Prelude.{
  ℕ, zero, suc, ◌+◌, ◌-◌, ◌%◌, Bool, true, false, not, ◌&&◌, ◌||◌, Option, none, some, List, [],
  ◌∷◌, ◌++◌, ltb, leb, ◌==◌, if◌then◌else◌, get_or, set, replicate,
}
use Tables.{scancode_normal, scancode_shifted, char_to_scancode}

-- The static variables. An `int` flag is a Boolean; a character is its code, at most 127.
pub record Kbd : Type 0 where
  pub shift_left : Bool
  pub shift_right : Bool
  pub caps_lock : Bool
  pub ctrl_held : Bool
  pub extended_scancode : Bool
  pub buffer : List ℕ
  pub head : ℕ
  pub tail : ℕ

abbrev pub kbd_buffer_size : ℕ
kbd_buffer_size = 256

abbrev pub sc_lshift : ℕ
sc_lshift = 0x2a

abbrev pub sc_rshift : ℕ
sc_rshift = 0x36

abbrev pub sc_ctrl : ℕ
sc_ctrl = 0x1d

abbrev pub sc_caps : ℕ
sc_caps = 0x3a

abbrev pub sc_alt : ℕ
sc_alt = 0x38

-- `kbd_reset_state`, and what `kbd_init` sets; the buffer keeps what it held.
pub reset_state : Kbd → Kbd
reset_state k = record {
  shift_left = false;
  shift_right = false;
  caps_lock = false;
  ctrl_held = false;
  extended_scancode = false;
  buffer = k.buffer;
  head = 0;
  tail = 0;
}

-- `status` is the first read of the status port: 0xFF means that no controller answers.
pub init : ℕ → Kbd → Kbd
unfolding reset_state
init status k = if status == 0xff then k else reset_state k

-- Caps lock on a character of the table.
pub apply_caps : Bool → ℕ → ℕ
apply_caps caps c =
    if caps && leb b'a' c && leb c b'z'
    then c - b'a' + b'A'
    else if caps && leb b'A' c && leb c b'Z'
    then c - b'A' + b'a'
    else c

-- `0` is no character.
pub translate : Kbd → ℕ → Bool → ℕ
unfolding apply_caps
translate k scancode pressed =
    if not pressed
    then 0
    else if leb 128 scancode
    then 0
    else apply_caps k.caps_lock (
        get_or (if k.shift_left || k.shift_right then scancode_shifted else scancode_normal)
          scancode 0)

-- The end of `kbd_process_scancode`: a character goes into the ring if there is room.
unfoldable pub put_char : Kbd → ℕ → Kbd
put_char k c =
    let next_head = (k.head + 1) % kbd_buffer_size in
    if c == 0
    then k
    else if next_head == k.tail
    then k
    else record k { buffer = set k.buffer k.head c; head = next_head }

unfoldable pub process_scancode : Kbd → ℕ → Bool → Kbd
process_scancode k key pressed =
    if key == sc_lshift
    then record k { shift_left = pressed }
    else if key == sc_rshift
    then record k { shift_right = pressed }
    else if key == sc_ctrl
    then record k { ctrl_held = pressed }
    else if key == sc_caps
    then (if pressed then record k { caps_lock = not k.caps_lock } else k)
    else if key == sc_alt
    then k
    else put_char k (translate k key pressed)

-- The interrupt, with the byte that the data port gives. Bit 7 marks a release.
pub handle_irq : Kbd → ℕ → Kbd
handle_irq k scancode =
    if scancode == 0xe0
    then record k { extended_scancode = true }
    else if k.extended_scancode
    then record k { extended_scancode = false }
    else process_scancode k (scancode % 0x80) (ltb scancode 0x80)

-- `none` is the -1 of an empty buffer.
pub getc_nonblock : Kbd → Option ℕ × Kbd
getc_nonblock k =
    if k.head == k.tail
    then (none, k)
    else (some (get_or k.buffer k.tail 0), record k { tail = (k.tail + 1) % kbd_buffer_size })

-- The interrupts taken during one `hlt`.
pub handle_irqs : Kbd → List ℕ → Kbd
handle_irqs k [] = k
handle_irqs k (s ∷ ss) = handle_irqs (handle_irq k s) ss

-- Each element is what one `hlt` lets in. `none`: the machine never wakes again.
pub getc_blocking : Kbd → List (List ℕ) → Option (ℕ × Kbd × List (List ℕ))
getc_blocking k [] = none
getc_blocking k (ss ∷ rest) =
    let k' = handle_irqs k ss in
    let wait = getc_blocking k' rest in
    let (c, k'') = getc_nonblock k' in elim c [ none ↦ wait | some c ↦ some (c, k'', rest) ]

-- What a line editor shows: an echoed character or an erased one.
pub data Echo : Type 0 where
  put : ℕ → Echo
  erase : Echo

pub record Line : Type 0 where
  pub dst : List ℕ
  pub pos : ℕ
  pub echo : List Echo

-- One turn of `kbd_readline`; the flag is its `break`.
pub edit : Line → ℕ → Bool × Line
edit l c =
    if c == 10
    then (true, record l { echo = l.echo ++ (put 10 ∷ []) })
    else if c == 8
    then (
      false,
      if ltb 0 l.pos then record l { pos = l.pos - 1; echo = l.echo ++ (erase ∷ []) } else l,
    )
    else (
      false,
      if leb 32 c && ltb c 127
          then record l { dst = set l.dst l.pos c; pos = l.pos + 1; echo = l.echo ++ (put c ∷ []) }
          else l,
    )

-- Fuel: a turn takes at least one `hlt`. `none` when the events run out before the line ends.
pub readline_loop : ℕ → ℕ → Line → Kbd → List (List ℕ) → Option (Line × Kbd)
readline_loop zero max l k evs = none
readline_loop (suc n) max l k evs =
    if ltb l.pos max
    then elim (getc_blocking k evs) [
      | none ↦ none
      | some (c, k', rest) ↦
          let (done, l') = edit l c in
          elim done [ true ↦ some (l', k') | false ↦ readline_loop n max l' k' rest ]
    ]
    else some (l, k)

-- `dst` is the caller's array of `max` characters; the result is its length as a string.
pub readline : ℕ → List ℕ → ℕ → Kbd → List (List ℕ) → Option (ℕ × List ℕ × List Echo × Kbd)
readline fuel dst max k evs =
    if max == 0
    then some (0, dst, [], k)
    else elim (readline_loop fuel (max - 1) (record { dst = dst; pos = 0; echo = [] }) k evs) [
      | none ↦ none
      | some (l, k') ↦ some (l.pos, set l.dst l.pos 0, l.echo, k')
    ]

-- One turn of `kbd_inject_string`.
pub inject_char : Kbd → ℕ → Kbd
inject_char k c =
    let scancode = get_or char_to_scancode c 0 in
    if ltb c 128 then (if scancode == 0 then k else process_scancode k scancode true) else k

pub inject_string : Kbd → List ℕ → Kbd
inject_string k [] = k
inject_string k (c ∷ s) = inject_string (inject_char k c) s
