-- ===== src/Stdio/Tests.antt =====
-- Runs of user/libc/stdio.c.
use cool_os.Prelude.{ℕ, ◌≤◌, ◌≡◌, inr, refl, true, some, List, [], ◌∷◌, arith, length}
use cool_os.Heap.{ok}
use cool_os.Stdio.{Arg, text, number, conversion, printf, uint_to_str}
use cool_os.Stdio.Digits.{value, value-uint_to_str}
use cool_os.Stdio.Returns.{suits, printf-returns}

value-uint_to_str_example : value 16 0 (uint_to_str 48879 16 true) ≡ 48879
value-uint_to_str_example = value-uint_to_str 16 true 48879 (inr refl) (omega arith)

-- "%s=%d".
abbrev format : List ℕ
format = b'%' ∷ b's' ∷ b'=' ∷ b'%' ∷ b'd' ∷ []

abbrev arguments : List Arg
arguments = text (some (b'x' ∷ [])) ∷ number 7 ∷ []

suited : suits format arguments ≡ true
unfolding suits conversion
suited = refl

printf-returns_example : (out : List ℕ) × (printf format arguments [] ≡ ok out) × (length out ≤ 511)
printf-returns_example = printf-returns format arguments suited
