-- ===== src/Stdio/Format.antt =====
-- The buffer of `printf` in user/libc/stdio.c never overflows.
use cool_os.Prelude.{
  ℕ, suc, ◌%◌, ◌≤◌, ◌<◌, ◌≡◌, inl, inr, refl, subst, Bool, true, false, some, none, List, [], ◌∷◌,
  ◌++◌, ltb, ◌==◌, if◌then◌else◌, length, length-append, arith, Bool-cases, ltb→lt,
}
use cool_os.Heap.{ok, ◌>>=◌}
use cool_os.Heap.Outcome.{bind-ok, ok-injective}
use cool_os.Stdio.{
  buf_limit, append, Arg, text, number, pointer, Conversion, of_text, of_signed, of_unsigned,
  of_pointer, of_char, percent, unknown, conversion, convert, printf, uint_to_str, int_to_str,
  null_text, extended,
}

length-push : (buf : List ℕ) (c : ℕ) → length (buf ++ c ∷ []) ≡ suc (length buf)
length-push buf c = omega (arith, length-append buf (c ∷ []))

append-bounded : (buf s : List ℕ) → length buf ≤ buf_limit → length (append buf s) ≤ buf_limit
unfolding append
append-bounded buf [] small = small
append-bounded buf (c ∷ s) small = elim (Bool-cases (ltb (length buf) buf_limit)) [
  | inl room ↦ rw room (
      append-bounded (buf ++ c ∷ []) s
        (omega (arith, length-push buf c, ltb→lt (length buf) buf_limit room)))
  | inr full ↦ rw full small
]

-- What a result of a conversion is worth, from the buffer that it holds.
kept :
    (b : List ℕ) (args : List Arg) (r : List ℕ × List Arg)
    → length b ≤ buf_limit
    → ok (b, args) ≡ ok r
    → length r.0 ≤ buf_limit
kept b args r small h = subst (λ x. length x.0 ≤ buf_limit) (ok-injective (b, args) r h) small

length-pushed : (buf : List ℕ) (c : ℕ) → length buf < buf_limit → length (buf ++ c ∷ []) ≤ buf_limit
length-pushed buf c room = omega (arith, length-push buf c, room)

-- A conversion that begins with room for a character ends within the buffer.
convert-bounded :
    (k : Conversion) (c : ℕ) (args : List Arg) (buf : List ℕ) (r : List ℕ × List Arg)
    → length buf < buf_limit
    → convert k c args buf ≡ ok r
    → length r.0 ≤ buf_limit
unfolding convert
convert-bounded percent c args buf r room h =
    kept (buf ++ b'%' ∷ []) args r (length-pushed buf b'%' room) h
convert-bounded unknown c args buf r room h =
    kept (append (buf ++ b'%' ∷ []) (c ∷ [])) args r
      (append-bounded (buf ++ b'%' ∷ []) (c ∷ []) (length-pushed buf b'%' room)) h
convert-bounded of_text c (text (some s) ∷ args) buf r room h =
    kept (append buf s) args r (append-bounded buf s (omega (arith, room))) h
convert-bounded of_text c (text none ∷ args) buf r room h =
    kept (append buf null_text) args r (append-bounded buf null_text (omega (arith, room))) h
convert-bounded of_signed c (number v ∷ args) buf r room h =
    let s = int_to_str (extended v) in
    kept (append buf s) args r (append-bounded buf s (omega (arith, room))) h
convert-bounded (of_unsigned base uppercase) c (number v ∷ args) buf r room h =
    let s = uint_to_str v base uppercase in
    kept (append buf s) args r (append-bounded buf s (omega (arith, room))) h
convert-bounded of_pointer c (pointer v ∷ args) buf r room h =
    let zero_x = append (buf ++ b'0' ∷ []) (b'x' ∷ []) in
    let s = uint_to_str v 16 false in
    kept (append zero_x s) args r
      (append-bounded zero_x s
        (append-bounded (buf ++ b'0' ∷ []) (b'x' ∷ []) (length-pushed buf b'0' room)))
      h
convert-bounded of_char c (number v ∷ args) buf r room h =
    kept (buf ++ v % 256 ∷ []) args r (length-pushed buf (v % 256) room) h
convert-bounded of_text c [] buf r room h = absurd cc
convert-bounded of_text c (number v ∷ args) buf r room h = absurd cc
convert-bounded of_text c (pointer v ∷ args) buf r room h = absurd cc
convert-bounded of_signed c [] buf r room h = absurd cc
convert-bounded of_signed c (text s ∷ args) buf r room h = absurd cc
convert-bounded of_signed c (pointer v ∷ args) buf r room h = absurd cc
convert-bounded (of_unsigned base uppercase) c [] buf r room h = absurd cc
convert-bounded (of_unsigned base uppercase) c (text s ∷ args) buf r room h = absurd cc
convert-bounded (of_unsigned base uppercase) c (pointer v ∷ args) buf r room h = absurd cc
convert-bounded of_pointer c [] buf r room h = absurd cc
convert-bounded of_pointer c (text s ∷ args) buf r room h = absurd cc
convert-bounded of_pointer c (number v ∷ args) buf r room h = absurd cc
convert-bounded of_char c [] buf r room h = absurd cc
convert-bounded of_char c (text s ∷ args) buf r room h = absurd cc
convert-bounded of_char c (pointer v ∷ args) buf r room h = absurd cc

-- The steps of the loop, by what is known of the rest.
module _ (x y : ℕ) (fmt : List ℕ) (args : List Arg) (buf out : List ℕ)
    (small : length buf ≤ buf_limit)
    (rest : (a : List Arg) (b : List ℕ)
      → length b ≤ buf_limit
      → printf fmt a b ≡ ok out
      → length out ≤ buf_limit)
    (next : (b : List ℕ)
      → length b ≤ buf_limit
      → printf (y ∷ fmt) args b ≡ ok out
      → length out ≤ buf_limit) where
  by_percent :
      (p : Bool)
      → length buf < buf_limit
      → elim p [
        | true ↦ convert (conversion y) y args buf >>= λ r. printf fmt r.1 r.0
        | false ↦ printf (y ∷ fmt) args (buf ++ x ∷ [])
      ]
        ≡ ok out
      → length out ≤ buf_limit
  by_percent false room h = next (buf ++ x ∷ []) (length-pushed buf x room) h
  by_percent true room h =
      let r = bind-ok (convert (conversion y) y args buf) _ out h in
      rest r.0.1 r.0.0 (convert-bounded (conversion y) y args buf r.0 room r.1) r.2

  by_room :
      (b : Bool)
      → ltb (length buf) buf_limit ≡ b
      → elim b [
        | false ↦ ok buf
        | true ↦ elim (x == b'%') [
          | true ↦ convert (conversion y) y args buf >>= λ r. printf fmt r.1 r.0
          | false ↦ printf (y ∷ fmt) args (buf ++ x ∷ [])
        ]
      ]
        ≡ ok out
      → length out ≤ buf_limit
  by_room false e h = subst (λ o. length o ≤ buf_limit) (ok-injective buf out h) small
  by_room true e h = by_percent (x == b'%') (ltb→lt (length buf) buf_limit e) h

last_char :
    (x : ℕ) (buf out : List ℕ)
    → length buf ≤ buf_limit
    → (if ltb (length buf) buf_limit
        then (if x == b'%' then ok buf else ok (buf ++ x ∷ []))
        else ok buf)
      ≡ ok out
    → length out ≤ buf_limit
last_char x buf out small h = by_tests (ltb (length buf) buf_limit) (x == b'%') refl h
  where
    by_tests :
        (b p : Bool)
        → ltb (length buf) buf_limit ≡ b
        → (if b then (if p then ok buf else ok (buf ++ x ∷ [])) else ok buf) ≡ ok out
        → length out ≤ buf_limit
    by_tests false p e h = subst (λ o. length o ≤ buf_limit) (ok-injective buf out h) small
    by_tests true true e h = subst (λ o. length o ≤ buf_limit) (ok-injective buf out h) small
    by_tests true false e h =
        subst (λ o. length o ≤ buf_limit) (ok-injective (buf ++ x ∷ []) out h)
          (length-pushed buf x (ltb→lt (length buf) buf_limit e))

-- The loop of `printf` never leaves the buffer.
pub printf-bounded :
    (fmt : List ℕ) (args : List Arg) (buf out : List ℕ)
    → length buf ≤ buf_limit
    → printf fmt args buf ≡ ok out
    → length out ≤ buf_limit
unfolding printf
printf-bounded [] args buf out small h =
    subst (λ x. length x ≤ buf_limit) (ok-injective buf out h) small
printf-bounded (x ∷ []) args buf out small h = last_char x buf out small h
printf-bounded (x ∷ y ∷ fmt) args buf out small h =
    by_room x y fmt args buf out small (λ a b. printf-bounded fmt a b out)
      (λ b. printf-bounded (y ∷ fmt) args b out) (ltb (length buf) buf_limit) refl h
