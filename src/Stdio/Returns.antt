-- ===== src/Stdio/Returns.antt =====
-- `printf` in user/libc/stdio.c returns when its arguments are those that the format asks for.
use cool_os.Prelude.{
  ℕ, ◌%◌, ◌≤◌, ◌≡◌, refl, ap, Bool, true, false, Option, some, none, List, [], ◌∷◌, ◌++◌, ltb, ◌==◌,
  if◌then◌else◌, length, arith,
}
use cool_os.Heap.{ok, ◌>>=◌}
use cool_os.Stdio.{
  buf_limit, append, Arg, text, number, pointer, Conversion, of_text, of_signed, of_unsigned,
  of_pointer, of_char, percent, unknown, conversion, convert, printf, uint_to_str, int_to_str,
  null_text, extended,
}
use cool_os.Stdio.Format.{printf-bounded}

-- The arguments behind the one that a conversion takes.
abbrev pub accepts : Conversion → List Arg → Option (List Arg)
accepts percent args = some args
accepts unknown args = some args
accepts of_text (text s ∷ args) = some args
accepts of_signed (number v ∷ args) = some args
accepts (of_unsigned base uppercase) (number v ∷ args) = some args
accepts of_pointer (pointer v ∷ args) = some args
accepts of_char (number v ∷ args) = some args
accepts _ args = none

-- The arguments are those that a format asks for, or more.
unfoldable pub suits : List ℕ → List Arg → Bool
suits [] args = true
suits (x ∷ []) args = true
suits (x ∷ y ∷ fmt) args = elim (x == b'%') [
  | true ↦ elim (accepts (conversion y) args) [ none ↦ false | some rest ↦ suits fmt rest ]
  | false ↦ suits (y ∷ fmt) args
]

-- A conversion with an argument of its type comes to an end.
convert-ok :
    (k : Conversion) (c : ℕ) (args rest : List Arg) (buf : List ℕ)
    → accepts k args ≡ some rest
    → (b : List ℕ) × (convert k c args buf ≡ ok (b, rest))
unfolding convert
convert-ok percent c args rest buf h = (buf ++ b'%' ∷ [], ap (λ r. ok (buf ++ b'%' ∷ [], r)) cc)
convert-ok unknown c args rest buf h =
    (append (buf ++ b'%' ∷ []) (c ∷ []), ap (λ r. ok (append (buf ++ b'%' ∷ []) (c ∷ []), r)) cc)
convert-ok of_text c (text (some s) ∷ args) rest buf h =
    (append buf s, ap (λ r. ok (append buf s, r)) cc)
convert-ok of_text c (text none ∷ args) rest buf h =
    (append buf null_text, ap (λ r. ok (append buf null_text, r)) cc)
convert-ok of_signed c (number v ∷ args) rest buf h = (
  append buf (int_to_str (extended v)),
  ap (λ r. ok (append buf (int_to_str (extended v)), r)) cc,
)
convert-ok (of_unsigned base uppercase) c (number v ∷ args) rest buf h = (
  append buf (uint_to_str v base uppercase),
  ap (λ r. ok (append buf (uint_to_str v base uppercase), r)) cc,
)
convert-ok of_pointer c (pointer v ∷ args) rest buf h = (
  append (append (buf ++ b'0' ∷ []) (b'x' ∷ [])) (uint_to_str v 16 false),
  ap (λ r. ok (append (append (buf ++ b'0' ∷ []) (b'x' ∷ [])) (uint_to_str v 16 false), r)) cc,
)
convert-ok of_char c (number v ∷ args) rest buf h =
    (buf ++ v % 256 ∷ [], ap (λ r. ok (buf ++ v % 256 ∷ [], r)) cc)
convert-ok of_text c [] rest buf h = absurd cc
convert-ok of_text c (number v ∷ args) rest buf h = absurd cc
convert-ok of_text c (pointer v ∷ args) rest buf h = absurd cc
convert-ok of_signed c [] rest buf h = absurd cc
convert-ok of_signed c (text s ∷ args) rest buf h = absurd cc
convert-ok of_signed c (pointer v ∷ args) rest buf h = absurd cc
convert-ok (of_unsigned base uppercase) c [] rest buf h = absurd cc
convert-ok (of_unsigned base uppercase) c (text s ∷ args) rest buf h = absurd cc
convert-ok (of_unsigned base uppercase) c (pointer v ∷ args) rest buf h = absurd cc
convert-ok of_pointer c [] rest buf h = absurd cc
convert-ok of_pointer c (text s ∷ args) rest buf h = absurd cc
convert-ok of_pointer c (number v ∷ args) rest buf h = absurd cc
convert-ok of_char c [] rest buf h = absurd cc
convert-ok of_char c (text s ∷ args) rest buf h = absurd cc
convert-ok of_char c (pointer v ∷ args) rest buf h = absurd cc

module _ (x y : ℕ) (fmt : List ℕ) (args : List Arg) (buf : List ℕ)
    (behind : (a : List Arg) (b : List ℕ)
      → suits fmt a ≡ true
      → (out : List ℕ) × (printf fmt a b ≡ ok out))
    (next : (b : List ℕ)
      → suits (y ∷ fmt) args ≡ true
      → (out : List ℕ) × (printf (y ∷ fmt) args b ≡ ok out)) where
  by_args :
      (o : Option (List Arg))
      → accepts (conversion y) args ≡ o
      → elim o [ none ↦ false | some rest ↦ suits fmt rest ] ≡ true
      → (out : List ℕ) × ((convert (conversion y) y args buf >>= λ r. printf fmt r.1 r.0) ≡ ok out)
  by_args none e h = absurd cc
  by_args (some rest) e h =
      let c = convert-ok (conversion y) y args rest buf e in
      let p = behind rest c.0 h in (p.0, rw c.1 p.1)

  by_percent :
      (p : Bool)
      → elim p [
        | true ↦ elim (accepts (conversion y) args) [ none ↦ false | some rest ↦ suits fmt rest ]
        | false ↦ suits (y ∷ fmt) args
      ]
        ≡ true
      → (out : List ℕ) × (elim p [
        | true ↦ convert (conversion y) y args buf >>= λ r. printf fmt r.1 r.0
        | false ↦ printf (y ∷ fmt) args (buf ++ x ∷ [])
      ]
          ≡ ok out)
  by_percent true h = by_args (accepts (conversion y) args) refl h
  by_percent false h = next (buf ++ x ∷ []) h

  by_room :
      (b : Bool)
      → elim (x == b'%') [
        | true ↦ elim (accepts (conversion y) args) [ none ↦ false | some rest ↦ suits fmt rest ]
        | false ↦ suits (y ∷ fmt) args
      ]
        ≡ true
      → (out : List ℕ) × (elim b [
        | false ↦ ok buf
        | true ↦ elim (x == b'%') [
          | true ↦ convert (conversion y) y args buf >>= λ r. printf fmt r.1 r.0
          | false ↦ printf (y ∷ fmt) args (buf ++ x ∷ [])
        ]
      ]
          ≡ ok out)
  by_room false h = (buf, refl)
  by_room true h = by_percent (x == b'%') h

last_ok :
    (b p : Bool) (x : ℕ) (buf : List ℕ)
    → (out : List ℕ) × ((if b then (if p then ok buf else ok (buf ++ x ∷ [])) else ok buf) ≡ ok out)
last_ok false p x buf = (buf, refl)
last_ok true true x buf = (buf, refl)
last_ok true false x buf = (buf ++ x ∷ [], refl)

printf-ok :
    (fmt : List ℕ) (args : List Arg) (buf : List ℕ)
    → suits fmt args ≡ true
    → (out : List ℕ) × (printf fmt args buf ≡ ok out)
unfolding printf suits
printf-ok [] args buf h = (buf, refl)
printf-ok (x ∷ []) args buf h = last_ok (ltb (length buf) buf_limit) (x == b'%') x buf
printf-ok (x ∷ y ∷ fmt) args buf h =
    by_room x y fmt args buf (λ a b. printf-ok fmt a b) (λ b. printf-ok (y ∷ fmt) args b)
      (ltb (length buf) buf_limit) h

-- `printf` with the arguments that its format asks for comes to an end, and what it stores fits into its array
-- with a place to spare.
pub printf-returns :
    (fmt : List ℕ) (args : List Arg)
    → suits fmt args ≡ true
    → (out : List ℕ) × (printf fmt args [] ≡ ok out) × (length out ≤ buf_limit)
printf-returns fmt args h =
    let p = printf-ok fmt args [] h in (p.0, p.1, printf-bounded fmt args [] p.0 (omega arith) p.1)
