-- ===== src/Kbd/Tests.antt =====
-- The keyboard driver at concrete inputs.
use cool_os.Prelude.{ℕ, ◌≡◌, refl, false, none, some, List, [], ◌∷◌, ◌++◌, arith, replicate}
use cool_os.Kbd.{
  Kbd, put, erase, inject_string, handle_irq, process_scancode, put_char, translate, getc_nonblock,
}
use cool_os.Kbd.Tables.{scancode_normal, scancode_shifted}
use cool_os.Kbd.Ring.{IsValid, contents}
use cool_os.Kbd.Typing.{Event, irq, read, run, serve, mods, run_refines}
use cool_os.Kbd.Inject.{has_key, arrives, arriving, contents-inject_string}
use cool_os.Kbd.Echoes.{type_echo, replay}
use cool_os.Kbd.LineEditor.{blank}

-- Four characters from the end of the array round to its start would wrap.
abbrev fresh : Kbd
fresh = record {
  shift_left = false;
  shift_right = false;
  caps_lock = false;
  ctrl_held = false;
  extended_scancode = false;
  buffer = replicate 256 0;
  head = 254;
  tail = 254;
}

fresh-IsValid : IsValid fresh
fresh-IsValid = record { size = refl; head_in = omega arith; tail_in = omega arith }

-- Shift down, `h`, shift up, `i`, an extended arrow, and reads between them.
abbrev session : List Event
session = irq 0x2a ∷ irq 0x23 ∷ irq 0xaa ∷ irq 0x17 ∷ irq 0xe0 ∷ irq 0x48 ∷ read ∷ read ∷ read ∷ []

run-session : run fresh session ≡ some b'H' ∷ some b'i' ∷ none ∷ []
unfolding run handle_irq process_scancode put_char translate getc_nonblock scancode_normal
    scancode_shifted
run-session = refl

run_refines_example : run fresh session ≡ serve (mods fresh) (contents fresh) session
run_refines_example = run_refines session fresh-IsValid

abbrev word : List ℕ
word = b'L' ∷ b's' ∷ 32 ∷ b'/' ∷ b'#' ∷ b'!' ∷ 10 ∷ []

arriving-word : arriving word ≡ b'l' ∷ b's' ∷ 32 ∷ b'/' ∷ b'1' ∷ 10 ∷ []
unfolding arrives has_key
arriving-word = refl

contents-inject_string_example :
    contents (inject_string fresh word) ≡ contents fresh ++ arriving word
unfolding contents arrives has_key
contents-inject_string_example =
    contents-inject_string word (record { left = refl; right = refl; caps = refl }) fresh-IsValid
      (omega arith)

-- `a`, a correction, `b`, and the line's end, one key to a wake.
abbrev wakes : List (List ℕ)
wakes = (0x1e ∷ []) ∷ (0x0e ∷ 0x30 ∷ []) ∷ [] ∷ (0x1c ∷ []) ∷ []

-- A line that begins in the last column but one: the rubout of its second character erases nothing,
-- since the cursor has gone on to the first column of the next row.
wrapped : (replay 80 (blank 78) (put b'a' ∷ put b'b' ∷ erase ∷ [])).text ≡ b'a' ∷ b'b' ∷ []
unfolding replay type_echo
wrapped = refl
