-- ===== src/Kbd/Tables.antt =====
-- The scancode tables of src/kbd.c: set 1 codes to characters, without and with shift, and the
-- characters to the make codes by which a test injects them.
use cool_os.Prelude.{ℕ, List, [], ◌∷◌}

unfoldable pub scancode_normal : List ℕ
scancode_normal =
    0 ∷ 27 ∷ b'1' ∷ b'2' ∷ b'3' ∷ b'4' ∷ b'5' ∷ b'6' ∷ b'7' ∷ b'8' ∷ b'9' ∷ b'0' ∷ b'-' ∷ b'=' ∷ 8
    ∷ 9 ∷ b'q' ∷ b'w' ∷ b'e' ∷ b'r' ∷ b't' ∷ b'y' ∷ b'u' ∷ b'i' ∷ b'o' ∷ b'p' ∷ b'[' ∷ b']' ∷ 10 ∷ 0
    ∷ b'a' ∷ b's' ∷ b'd' ∷ b'f' ∷ b'g' ∷ b'h' ∷ b'j' ∷ b'k' ∷ b'l' ∷ b';' ∷ 39 ∷ b'`' ∷ 0 ∷ 92
    ∷ b'z' ∷ b'x' ∷ b'c' ∷ b'v' ∷ b'b' ∷ b'n' ∷ b'm' ∷ b',' ∷ b'.' ∷ b'/' ∷ 0 ∷ b'*' ∷ 0 ∷ 32 ∷ 0
    ∷ 0 ∷ 0 ∷ 0 ∷ 0 ∷ 0 ∷ 0 ∷ 0 ∷ 0 ∷ 0 ∷ 0 ∷ 0 ∷ 0 ∷ 0 ∷ 0 ∷ 0 ∷ 0 ∷ 0 ∷ 0 ∷ 0 ∷ 0 ∷ 0 ∷ 0 ∷ 0 ∷ 0
    ∷ 0 ∷ 0 ∷ 0 ∷ 0 ∷ 0 ∷ 0 ∷ 0 ∷ 0 ∷ 0 ∷ 0 ∷ 0 ∷ 0 ∷ 0 ∷ 0 ∷ 0 ∷ 0 ∷ 0 ∷ 0 ∷ 0 ∷ 0 ∷ 0 ∷ 0 ∷ 0 ∷ 0
    ∷ 0 ∷ 0 ∷ 0 ∷ 0 ∷ 0 ∷ 0 ∷ 0 ∷ 0 ∷ 0 ∷ 0 ∷ 0 ∷ 0 ∷ 0 ∷ 0 ∷ 0 ∷ 0 ∷ 0 ∷ 0 ∷ 0 ∷ 0 ∷ 0 ∷ []

unfoldable pub scancode_shifted : List ℕ
scancode_shifted =
    0 ∷ 27 ∷ b'!' ∷ b'@' ∷ b'#' ∷ b'$' ∷ b'%' ∷ b'^' ∷ b'&' ∷ b'*' ∷ b'(' ∷ b')' ∷ b'_' ∷ b'+' ∷ 8
    ∷ 9 ∷ b'Q' ∷ b'W' ∷ b'E' ∷ b'R' ∷ b'T' ∷ b'Y' ∷ b'U' ∷ b'I' ∷ b'O' ∷ b'P' ∷ b'{' ∷ b'}' ∷ 10 ∷ 0
    ∷ b'A' ∷ b'S' ∷ b'D' ∷ b'F' ∷ b'G' ∷ b'H' ∷ b'J' ∷ b'K' ∷ b'L' ∷ b':' ∷ b'"' ∷ b'~' ∷ 0 ∷ b'|'
    ∷ b'Z' ∷ b'X' ∷ b'C' ∷ b'V' ∷ b'B' ∷ b'N' ∷ b'M' ∷ b'<' ∷ b'>' ∷ b'?' ∷ 0 ∷ b'*' ∷ 0 ∷ 32 ∷ 0
    ∷ 0 ∷ 0 ∷ 0 ∷ 0 ∷ 0 ∷ 0 ∷ 0 ∷ 0 ∷ 0 ∷ 0 ∷ 0 ∷ 0 ∷ 0 ∷ 0 ∷ 0 ∷ 0 ∷ 0 ∷ 0 ∷ 0 ∷ 0 ∷ 0 ∷ 0 ∷ 0 ∷ 0
    ∷ 0 ∷ 0 ∷ 0 ∷ 0 ∷ 0 ∷ 0 ∷ 0 ∷ 0 ∷ 0 ∷ 0 ∷ 0 ∷ 0 ∷ 0 ∷ 0 ∷ 0 ∷ 0 ∷ 0 ∷ 0 ∷ 0 ∷ 0 ∷ 0 ∷ 0 ∷ 0 ∷ 0
    ∷ 0 ∷ 0 ∷ 0 ∷ 0 ∷ 0 ∷ 0 ∷ 0 ∷ 0 ∷ 0 ∷ 0 ∷ 0 ∷ 0 ∷ 0 ∷ 0 ∷ 0 ∷ 0 ∷ 0 ∷ 0 ∷ 0 ∷ 0 ∷ 0 ∷ []

unfoldable pub char_to_scancode : List ℕ
char_to_scancode =
    0 ∷ 0 ∷ 0 ∷ 0 ∷ 0 ∷ 0 ∷ 0 ∷ 0 ∷ 0xe ∷ 0xf ∷ 0x1c ∷ 0 ∷ 0 ∷ 0 ∷ 0 ∷ 0 ∷ 0 ∷ 0 ∷ 0 ∷ 0 ∷ 0 ∷ 0 ∷ 0
    ∷ 0 ∷ 0 ∷ 0 ∷ 0 ∷ 0 ∷ 0 ∷ 0 ∷ 0 ∷ 0 ∷ 0x39 ∷ 0x2 ∷ 0 ∷ 0 ∷ 0 ∷ 0 ∷ 0 ∷ 0x28 ∷ 0 ∷ 0 ∷ 0 ∷ 0
    ∷ 0x33 ∷ 0xc ∷ 0x34 ∷ 0x35 ∷ 0xb ∷ 0x2 ∷ 0x3 ∷ 0x4 ∷ 0x5 ∷ 0x6 ∷ 0x7 ∷ 0x8 ∷ 0x9 ∷ 0xa ∷ 0
    ∷ 0x27 ∷ 0 ∷ 0xd ∷ 0 ∷ 0 ∷ 0 ∷ 0x1e ∷ 0x30 ∷ 0x2e ∷ 0x20 ∷ 0x12 ∷ 0x21 ∷ 0x22 ∷ 0x23 ∷ 0x17
    ∷ 0x24 ∷ 0x25 ∷ 0x26 ∷ 0x32 ∷ 0x31 ∷ 0x18 ∷ 0x19 ∷ 0x10 ∷ 0x13 ∷ 0x1f ∷ 0x14 ∷ 0x16 ∷ 0x2f
    ∷ 0x11 ∷ 0x2d ∷ 0x15 ∷ 0x2c ∷ 0x1a ∷ 0x2b ∷ 0x1b ∷ 0 ∷ 0 ∷ 0x29 ∷ 0x1e ∷ 0x30 ∷ 0x2e ∷ 0x20
    ∷ 0x12 ∷ 0x21 ∷ 0x22 ∷ 0x23 ∷ 0x17 ∷ 0x24 ∷ 0x25 ∷ 0x26 ∷ 0x32 ∷ 0x31 ∷ 0x18 ∷ 0x19 ∷ 0x10
    ∷ 0x13 ∷ 0x1f ∷ 0x14 ∷ 0x16 ∷ 0x2f ∷ 0x11 ∷ 0x2d ∷ 0x15 ∷ 0x2c ∷ 0 ∷ 0 ∷ 0 ∷ 0 ∷ 0 ∷ []
