-- ===== src/Kbd/Echoes.antt =====
-- What the echoes of `kbd_readline` in src/kbd.c leave on a screen as src/console.c draws them.
use cool_os.Prelude.{
  ℕ, zero, suc, ◌+◌, ◌-◌, ◌≤◌, ◌<◌, ◌≡◌, refl, ap, List, [], ◌∷◌, ◌++◌, arith, ltb, leb, ◌==◌,
  if◌then◌else◌, take, length, All,
}
use cool_os.Kbd.{Echo, put, erase}

-- The text that a screen shows after an echo, from the text that it showed.
unfoldable pub drop_last : List ℕ → List ℕ
drop_last [] = []
drop_last (c ∷ []) = []
drop_last (c ∷ d ∷ s) = c ∷ drop_last (d ∷ s)

-- What the echoes leave behind, and the column of the cursor: a character goes on to the next column and
-- from the last one to the first of the next row, and `console_erase_char` does nothing in the first.
pub record Screen : Type 0 where
  pub text : List ℕ
  pub column : ℕ

unfoldable pub type_echo : ℕ → Screen → Echo → Screen
unfolding drop_last
type_echo cols s (put c) = record {
  text = s.text ++ (c ∷ []);
  column = if c == 10 then 0 else if leb cols (s.column + 1) then 0 else s.column + 1;
}
type_echo cols s erase =
    if ltb 0 s.column then record { text = drop_last s.text; column = s.column - 1 } else s

unfoldable pub replay : ℕ → Screen → List Echo → Screen
replay cols s [] = s
replay cols s (e ∷ es) = replay cols (type_echo cols s e) es

pub replay-append :
    (cols : ℕ) (s : Screen) (es fs : List Echo)
    → replay cols s (es ++ fs) ≡ replay cols (replay cols s es) fs
unfolding replay
replay-append cols s [] fs = refl
replay-append cols s (e ∷ es) fs = replay-append cols (type_echo cols s e) es fs

drop_last-take-suc : (xs : List ℕ) (i : ℕ) → i < length xs → drop_last (take (suc i) xs) ≡ take i xs
unfolding drop_last
drop_last-take-suc [] i h = elim h [ ]
drop_last-take-suc (x ∷ xs) zero h = refl
drop_last-take-suc (x ∷ []) (suc i) h = absurd (omega arith)
drop_last-take-suc (x ∷ y ∷ ys) (suc i) h =
    ap (λ t. x ∷ t) (drop_last-take-suc (y ∷ ys) i (omega arith))

pub drop_last-take :
    (xs : List ℕ) (i : ℕ) → 0 < i → i ≤ length xs → drop_last (take i xs) ≡ take (i - 1) xs
drop_last-take xs zero p h = elim p [ ]
drop_last-take xs (suc i) p h =
    let e : suc i - 1 ≡ i = omega arith in rw e (drop_last-take-suc xs i h)

abbrev pub Printable : ℕ → Type 0
Printable c = (32 ≤ c) × (c < 127)

All-take-suc : (i : ℕ) (xs : List ℕ) → All Printable (take (suc i) xs) → All Printable (take i xs)
All-take-suc zero xs h = tt
All-take-suc (suc i) [] h = tt
All-take-suc (suc i) (x ∷ xs) h = (h.0, All-take-suc i xs h.1)

pub All-take : (i : ℕ) (xs : List ℕ) → All Printable (take i xs) → All Printable (take (i - 1) xs)
All-take zero xs h = tt
All-take (suc i) xs h = let e : suc i - 1 ≡ i = omega arith in rw e (All-take-suc i xs h)
