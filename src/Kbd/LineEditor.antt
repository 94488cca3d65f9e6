-- ===== src/Kbd/LineEditor.antt =====
-- The line editor `kbd_readline` of src/kbd.c: the caller's array is never written out of bounds,
-- and what the screen shows is what the caller gets.
use cool_os.Prelude.{
  ℕ, zero, suc, ◌+◌, ◌≤◌, ◌<◌, ◌≡◌, ◌⊎◌, inl, inr, Bool, false, List, [], ◌∷◌, ◌++◌, arith, ltb,
  if◌then◌else◌, get_or, take, length, get_elem?, Bool-cases, Option-cases, OnSome, nothing, just,
  OnSome-some, OnSome-mono, All,
}
use cool_os.Kbd.{Kbd, Echo, Line, edit, handle_irqs, getc_nonblock, getc_blocking, readline_loop}
use cool_os.Kbd.Echoes.{Screen, replay, Printable}

-- The screen before the line, with the cursor at a column.
abbrev pub blank : ℕ → Screen
blank x = record { text = []; column = x }

-- The line that starts at column `x` of a screen of `cols` columns, in the array `dst`.
module _ (cols x : ℕ) (dst : List ℕ) where
  -- While the line is edited, before and after its `break`.
  record Editing (max : ℕ) (done : Bool) (l : Line) : Type 0 where
    fits : l.pos ≤ max
    same_size : length l.dst ≡ length dst
    behind : (i : ℕ) → max ≤ i → get_elem? l.dst i ≡ get_elem? dst i
    printable : All Printable (take l.pos l.dst)
    shown :
        (replay cols (blank x) l.echo).text
        ≡ (if done then take l.pos l.dst ++ (10 ∷ []) else take l.pos l.dst)
    column : done ≡ false → (replay cols (blank x) l.echo).column ≡ x + l.pos

  module _ {max : ℕ} {l : Line} (on_row : x + max < cols) (fits_in : max < length dst)
      (room : l.pos < max) (h : Editing max false l) where
    now : Screen
    now = replay cols (blank x) l.echo

  -- What a line that `kbd_readline` returns is worth.
  record Edited (max : ℕ) (l : Line) : Type 0 where
    fits : l.pos ≤ max
    same_size : length l.dst ≡ length dst
    behind : (i : ℕ) → max ≤ i → get_elem? l.dst i ≡ get_elem? dst i
    printable : All Printable (take l.pos l.dst)
    shown :
        ((replay cols (blank x) l.echo).text ≡ take l.pos l.dst)
        ⊎ ((replay cols (blank x) l.echo).text ≡ take l.pos l.dst ++ (10 ∷ []))

  -- What `kbd_readline` hands to its caller.
  pub record Delivered (max : ℕ) (r : ℕ × List ℕ × List Echo × Kbd) : Type 0 where
    pub in_bounds : r.0 < max
    pub behind : (i : ℕ) → max ≤ i → get_elem? r.1 i ≡ get_elem? dst i
    pub terminated : get_or r.1 r.0 1 ≡ 0
    pub printable : All Printable (take r.0 r.1)
    pub shown :
        ((replay cols (blank x) r.2).text ≡ take r.0 r.1)
        ⊎ ((replay cols (blank x) r.2).text ≡ take r.0 r.1 ++ (10 ∷ []))

length-getc_blocking :
    (k : Kbd) (evs : List (List ℕ))
    → OnSome (λ (r : ℕ × Kbd × List (List ℕ)). length r.2 < length evs) (getc_blocking k evs)
unfolding getc_blocking
length-getc_blocking k [] = nothing
length-getc_blocking k (ss ∷ evs) =
    let k' = handle_irqs k ss in
    elim (Option-cases (getc_nonblock k').0) [
      | inl empty ↦
          rw (empty, getc_blocking)
            (OnSome-mono (λ r lt. omega (arith, lt)) (length-getc_blocking k' evs))
      | inr (c, got) ↦ rw (got, getc_blocking) (just (omega arith))
    ]

-- More than one turn for each wake of the machine changes nothing: `none` then means that the
-- machine sleeps before the line ends, and never that the fuel ran out.
readline_loop_fuel :
    (n m max : ℕ) (l : Line) (k : Kbd) (evs : List (List ℕ))
    → length evs < n
    → length evs < m
    → readline_loop n max l k evs ≡ readline_loop m max l k evs
unfolding readline_loop
readline_loop_fuel zero m max l k evs p q = elim p [ ]
readline_loop_fuel (suc n) zero max l k evs p q = elim q [ ]
readline_loop_fuel (suc n) (suc m) max l k evs p q = elim (Bool-cases (ltb l.pos max)) [
  | inl room ↦ rw room (elim (Option-cases (getc_blocking k evs)) [
    | inl none_left ↦ rw none_left
    | inr ((c, k₁, rest), got) ↦
        let shorter = OnSome-some (rw got at (length-getc_blocking k evs)) in
        rw got (elim (Bool-cases (edit l c).0) [
          | inl done ↦ rw done
          | inr more ↦ rw more (
              readline_loop_fuel n m max (edit l c).1 k₁ rest (omega (arith, shorter))
                (omega (arith, shorter)))
        ])
  ])
  | inr full ↦ rw full
]
