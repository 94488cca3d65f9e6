-- ===== src/Stdio.antt =====
-- Formatted output of user programs, user/libc/stdio.c. A string is its characters without the
-- terminator; a buffer is the characters written so far.
pub mod Digits
pub mod Format
pub mod Returns
mod Tests
use cool_os.Prelude.{
  ℕ, zero, suc, ◌+◌, ◌-◌, ◌*◌, ◌/◌, ◌%◌, ◌^◌, Bool, true, false, Option, none, some, List, [], ◌∷◌,
  ◌++◌, ltb, ◌==◌, ◌||◌, if◌then◌else◌, length, get_or,
}
use cool_os.Heap.{Run, ok, fault, ◌>>=◌}

-- `PRINTF_BUF_SIZE - 1`.
abbrev pub buf_limit : ℕ
buf_limit = 511

-- `digits`.
abbrev pub lower_digits : List ℕ
lower_digits =
    b'0' ∷ b'1' ∷ b'2' ∷ b'3' ∷ b'4' ∷ b'5' ∷ b'6' ∷ b'7' ∷ b'8' ∷ b'9' ∷ b'a' ∷ b'b' ∷ b'c' ∷ b'd'
    ∷ b'e' ∷ b'f' ∷ []

abbrev pub upper_digits : List ℕ
upper_digits =
    b'0' ∷ b'1' ∷ b'2' ∷ b'3' ∷ b'4' ∷ b'5' ∷ b'6' ∷ b'7' ∷ b'8' ∷ b'9' ∷ b'A' ∷ b'B' ∷ b'C' ∷ b'D'
    ∷ b'E' ∷ b'F' ∷ []

-- The first loop of `uint_to_str` with the second one, which reverses: `tail` is what follows. A number of
-- 64 bits has at most 64 digits.
unfoldable pub to_digits : ℕ → List ℕ → ℕ → ℕ → List ℕ → List ℕ
to_digits zero digits base val tail = tail
to_digits (suc n) digits base val tail =
    if val == 0
    then tail
    else to_digits n digits base (val / base) (get_or digits (val % base) 0 ∷ tail)

unfoldable pub uint_to_str : ℕ → ℕ → Bool → List ℕ
uint_to_str val base uppercase =
    if val == 0
    then b'0' ∷ []
    else to_digits 64 (if uppercase then upper_digits else lower_digits) base val []

-- `int_to_str` of a 64-bit pattern.
unfoldable pub int_to_str : ℕ → List ℕ
int_to_str val =
    if ltb val (2 ^ 63)
    then uint_to_str val 10 false
    else b'-' ∷ uint_to_str (2 ^ 64 - val) 10 false

-- What a caller passes behind the format.
pub data Arg : Type 0 where
  text : Option (List ℕ) → Arg
  number : ℕ → Arg
  pointer : ℕ → Arg

-- The loops that append a string while there is room.
unfoldable pub append : List ℕ → List ℕ → List ℕ
append buf [] = buf
append buf (c ∷ s) = if ltb (length buf) buf_limit then append (buf ++ c ∷ []) s else buf

-- `(null)`.
abbrev pub null_text : List ℕ
null_text = b'(' ∷ b'n' ∷ b'u' ∷ b'l' ∷ b'l' ∷ b')' ∷ []

-- An `int` as a `long`.
abbrev pub extended : ℕ → ℕ
extended v = if ltb v (2 ^ 31) then v else v + (2 ^ 64 - 2 ^ 32)

-- The cases of the `switch`.
pub data Conversion : Type 0 where
  of_text of_signed of_pointer of_char percent unknown : Conversion
  of_unsigned : ℕ → Bool → Conversion

unfoldable pub conversion : ℕ → Conversion
conversion c =
    if c == b's'
    then of_text
    else if c == b'd' || c == b'i'
    then of_signed
    else if c == b'u'
    then of_unsigned 10 false
    else if c == b'x'
    then of_unsigned 16 false
    else if c == b'X'
    then of_unsigned 16 true
    else if c == b'p'
    then of_pointer
    else if c == b'c'
    then of_char
    else if c == b'%'
    then percent
    else unknown

-- One conversion: the buffer with it, and the arguments that are left. An argument that is missing
-- or of another type is a fault; `number` holds 32 bits.
unfoldable pub convert : Conversion → ℕ → List Arg → List ℕ → Run (List ℕ × List Arg)
convert percent c args buf = ok (buf ++ b'%' ∷ [], args)
convert unknown c args buf = ok (append (buf ++ b'%' ∷ []) (c ∷ []), args)
convert of_text c (text (some s) ∷ args) buf = ok (append buf s, args)
convert of_text c (text none ∷ args) buf = ok (append buf null_text, args)
convert of_signed c (number v ∷ args) buf = ok (append buf (int_to_str (extended v)), args)
convert (of_unsigned base uppercase) c (number v ∷ args) buf =
    ok (append buf (uint_to_str v base uppercase), args)
convert of_pointer c (pointer v ∷ args) buf =
    ok (append (append (buf ++ b'0' ∷ []) (b'x' ∷ [])) (uint_to_str v 16 false), args)
convert of_char c (number v ∷ args) buf = ok (buf ++ v % 256 ∷ [], args)
convert _ c args buf = fault

-- The loop of `printf`; the result is what it passes to `write`, and its length is returned.
unfoldable pub printf : List ℕ → List Arg → List ℕ → Run (List ℕ)
printf [] args buf = ok buf
printf (x ∷ []) args buf =
    if ltb (length buf) buf_limit
    then (if x == b'%' then ok buf else ok (buf ++ x ∷ []))
    else ok buf
printf (x ∷ y ∷ fmt) args buf = elim (ltb (length buf) buf_limit) [
  | false ↦ ok buf
  | true ↦ elim (x == b'%') [
    | true ↦ convert (conversion y) y args buf >>= λ r. printf fmt r.1 r.0
    | false ↦ printf (y ∷ fmt) args (buf ++ x ∷ [])
  ]
]
