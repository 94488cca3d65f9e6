-- ===== src/Console/Screen.antt =====
-- What stands on the screen after `console_puts` of src/console.c.
use native.Mathlib.Nat.{mod-eq_of_lt}
use cool_os.Prelude.{
  ℕ, ◌+◌, ◌*◌, ◌/◌, ◌%◌, ◌^◌, ◌≤◌, ◌<◌, ◌≡◌, ◌≢◌, refl, sym, ap, subst, ◌∙◌, inl, inr, Bool, true,
  false, List, [], ◌∷◌, leb, ◌==◌, if◌then◌else◌, arith, Bool-cases,
}
use cool_os.Console.{
  Buffer, Console, pitch, draw_char, scroll, new_line, putc, put_text, fb_present, puts,
  present_rows,
}
use cool_os.Console.Pixels.{row_unique, mul_mono}
use cool_os.Console.Draw.{row_base}
use cool_os.Console.Paint.{IsLayout, Painted, row_base-small}
use cool_os.Console.Present.{present_rows-at}
use cool_os.Console.Shows.{Shows, Paints, putc-Shows}
use cool_os.Console.Terminal.{Cells, Terminal, type_char, type_text}

-- The dimensions, which no operation changes.
pub record Dimensions : Type 0 where
  pub cols : ℕ
  pub rows : ℕ
  pub width : ℕ
  pub height : ℕ
  pub hw_pitch : ℕ

abbrev pub dimensions : Console → Dimensions
dimensions k = record {
  cols = k.cols;
  rows = k.rows;
  width = k.fb.render_width;
  height = k.fb.render_height;
  hw_pitch = k.fb.hw_pitch;
}

new_line-dimensions : (k : Console) → dimensions (new_line k) ≡ dimensions k
unfolding new_line scroll
new_line-dimensions k = elim (Bool-cases (leb k.rows (k.cursor_y + 1))) [
  | inl full ↦ rw full refl
  | inr room ↦ rw room refl
]

column-dimensions :
    (k : Console) → dimensions (if leb k.cols k.cursor_x then new_line k else k) ≡ dimensions k
column-dimensions k = elim (Bool-cases (leb k.cols k.cursor_x)) [
  | inl over ↦ rw over (new_line-dimensions k)
  | inr fits ↦ rw fits refl
]

putc-dimensions :
    (font : ℕ → ℕ → ℕ) (c : ℕ) (k : Console) → dimensions (putc font c k) ≡ dimensions k
unfolding putc draw_char
putc-dimensions font c k = elim (Bool-cases (c == 10)) [
  | inl line ↦ rw line (new_line-dimensions k)
  | inr not_line ↦ elim (Bool-cases (c == 13)) [
    | inl back ↦ rw (not_line, back) refl
    | inr not_back ↦ elim (Bool-cases (c == 9)) [
      | inl tab ↦
          rw (not_line, not_back, tab)
            (column-dimensions (record k { cursor_x = (k.cursor_x + 4) / 4 * 4 }))
      | inr not_tab ↦ elim (Bool-cases (c == 8)) [
        | inl rub ↦ rw (not_line, not_back, not_tab, rub) refl
        | inr plain ↦
            rw (not_line, not_back, not_tab, plain)
              (column-dimensions
                (record (draw_char font k.cursor_x k.cursor_y c k) { cursor_x = k.cursor_x + 1 }))
      ]
    ]
  ]
]

put_text-dimensions :
    (font : ℕ → ℕ → ℕ) (s : List ℕ) (k : Console) → dimensions (put_text font s k) ≡ dimensions k
unfolding put_text
put_text-dimensions font [] k = refl
put_text-dimensions font (c ∷ s) k =
    put_text-dimensions font s (putc font c k) ∙ putc-dimensions font c k

put_text-Shows :
    (font : ℕ → ℕ → ℕ) (s : List ℕ) (k : Console) (t : Terminal)
    → Shows font k t
    → Shows font (put_text font s k) (type_text k.cols k.rows s t)
unfolding put_text type_text
put_text-Shows font [] k t h = h
put_text-Shows font (c ∷ s) k t h =
    let same = putc-dimensions font c k in
    subst
      (λ d.
        Shows font (put_text font (c ∷ s) k)
          (type_text d.cols d.rows s (type_char k.cols k.rows c t)))
      same
      (put_text-Shows font s (putc font c k) (type_char k.cols k.rows c t)
        (putc-Shows font k t c h))

-- The screen is as large as its pitch and its 32-bit offsets allow.
pub record IsScreen (d : Dimensions) : Type 0 where
  pub tall : d.rows * 16 ≤ d.height
  pub wide : d.width * 4 ≤ d.hw_pitch
  pub small : d.height * d.hw_pitch < 2 ^ 32
  pub some_rows : 0 < d.height

-- The cells stand on the screen.
abbrev pub OnScreen : (ℕ → ℕ → ℕ) → Console → Cells → Type 0
OnScreen font k cells =
    Painted font k.fg_color k.bg_color k.fb.hw_pitch k.cols k.rows k.fb.front cells

module _ (font : ℕ → ℕ → ℕ) (k : Console) (cells : Cells) (h : Paints font k cells)
    (screen : IsScreen (dimensions k)) where
  front_small : (y : ℕ) → y < k.fb.render_height → row_base k.fb.hw_pitch y ≡ y * k.fb.hw_pitch
  front_small y low =
      let under = mul_mono y k.fb.render_height k.fb.hw_pitch (omega arith) in
      mod-eq_of_lt (omega (arith, under, screen.small))

  words_all : (k.fb.render_width * 4) % 2 ^ 32 / 8 * 2 ≡ k.fb.render_width / 2 * 2
  words_all =
      let one = mul_mono 1 k.fb.render_height k.fb.hw_pitch (omega (arith, screen.some_rows)) in
      let whole : (k.fb.render_width * 4) % 2 ^ 32 ≡ k.fb.render_width * 4 =
        mod-eq_of_lt (omega (arith, one, screen.wide, screen.small)) in
      rw whole (omega arith)

  apart :
      (i j i' j' : ℕ)
      → i < k.fb.render_height
      → i' < k.fb.render_height
      → j < k.fb.render_width
      → j' < k.fb.render_width
      → i' ≢ i
      → row_base k.fb.hw_pitch i + j * 4 ≢ row_base k.fb.hw_pitch i' + j' * 4
  apart i j i' j' hi hi' hj hj' other e = other (
      sym
        (row_unique k.fb.hw_pitch i i' (j * 4) (j' * 4) (omega (arith, screen.wide))
          (omega (arith, screen.wide))
          (ap (λ o. o + j * 4) (sym (front_small i hi))
            ∙ e
            ∙ ap (λ o. o + j' * 4) (front_small i' hi'))).0)

  back_fits : k.fb.has_back ≡ true → IsLayout k.cols k.rows k.fb.back_pitch k.fb.render_width
  back_fits back =
      subst
        (λ b.
          IsLayout k.cols k.rows (if b then k.fb.back_pitch else k.fb.hw_pitch) k.fb.render_width)
        back h.0

  back_ready :
      k.fb.has_back ≡ true
      → Painted font k.fg_color k.bg_color k.fb.back_pitch k.cols k.rows k.fb.back cells
  back_ready back =
      subst
        (λ b.
          Painted font k.fg_color k.bg_color (if b then k.fb.back_pitch else k.fb.hw_pitch) k.cols
            k.rows (if b then k.fb.back else k.fb.front) cells)
        back h.1

  direct_ready : k.fb.has_back ≡ false → OnScreen font k cells
  direct_ready direct =
      subst
        (λ b.
          Painted font k.fg_color k.bg_color (if b then k.fb.back_pitch else k.fb.hw_pitch) k.cols
            k.rows (if b then k.fb.back else k.fb.front) cells)
        direct h.1

  present_back :
      k.fb.has_back ≡ true
      → Painted font k.fg_color k.bg_color k.fb.hw_pitch k.cols k.rows
          (present_rows k.fb.render_height k.fb.back k.fb.back_pitch k.fb.hw_pitch
            ((k.fb.render_width * 4) % 2 ^ 32 / 8)
            0
            k.fb.front)
          cells
  present_back back cy cx row col hy hx hr hc =
      let y = cy * 16 + row in
      let x = cx * 8 + col in
      let shown =
        present_rows k.fb.render_height k.fb.back k.fb.back_pitch k.fb.hw_pitch
          ((k.fb.render_width * 4) % 2 ^ 32 / 8) 0 k.fb.front in
      ap (λ o. shown (o + x * 4)) (sym (front_small y (omega (arith, screen.tall))))
      ∙ present_rows-at k.fb.back k.fb.back_pitch k.fb.hw_pitch
          ((k.fb.render_width * 4) % 2 ^ 32 / 8) k.fb.render_height 0 k.fb.front y x (omega arith)
          (omega (arith, screen.tall)) (omega (arith, words_all, h.0.wide))
          (λ i j other low thin.
            apart y x i j (omega (arith, screen.tall)) (omega arith) (omega (arith, h.0.wide))
              (omega (arith, words_all)) other)
      ∙ ap (λ o. k.fb.back (o + x * 4)) (row_base-small (back_fits back) y (omega arith))
      ∙ back_ready back cy cx row col hy hx hr hc

  presented-OnScreen : OnScreen font (record k { fb = fb_present k.fb }) cells
  unfolding fb_present
  presented-OnScreen = elim (Bool-cases k.fb.has_back) [
    | inl back ↦
        subst
          (λ b.
            Painted font k.fg_color k.bg_color k.fb.hw_pitch k.cols k.rows
              (if b
                then present_rows k.fb.render_height k.fb.back k.fb.back_pitch k.fb.hw_pitch
                    ((k.fb.render_width * 4) % 2 ^ 32 / 8) 0 k.fb.front
                else k.fb.front)
              cells)
          (sym back) (present_back back)
    | inr direct ↦
        subst
          (λ b.
            Painted font k.fg_color k.bg_color k.fb.hw_pitch k.cols k.rows
              (if b
                then present_rows k.fb.render_height k.fb.back k.fb.back_pitch k.fb.hw_pitch
                    ((k.fb.render_width * 4) % 2 ^ 32 / 8) 0 k.fb.front
                else k.fb.front)
              cells)
          (sym direct) (direct_ready direct)
  ]

kept_target :
    (has_back : Bool) (back front front' : Buffer)
    → (if has_back then back else front)
      ≡ (if has_back then back else (if has_back then front' else front))
kept_target true back front front' = refl
kept_target false back front front' = refl

presented-Shows :
    (font : ℕ → ℕ → ℕ) (k : Console) (t : Terminal)
    → Shows font k t
    → Shows font (record k { fb = fb_present k.fb }) t
unfolding fb_present
presented-Shows font k t h = record {
  paints = (
    h.paints.0,
    subst (λ b. Painted font k.fg_color k.bg_color (pitch k.fb) k.cols k.rows b t.cells)
        (kept_target k.fb.has_back k.fb.back k.fb.front _) h.paints.1,
  );
  x = h.x;
  y = h.y;
  x_inside = h.x_inside;
  y_inside = h.y_inside;
}

-- `console_puts` types the text on the terminal that the console shows, line ends, tabs and scrolling included, and what
-- the terminal then shows stands on the screen, pixel by pixel, with a back buffer or without.
pub puts-OnScreen :
    (font : ℕ → ℕ → ℕ) (s : List ℕ) (k : Console) (t : Terminal)
    → Shows font k t
    → IsScreen (dimensions k)
    → Shows font (puts font s k) (type_text k.cols k.rows s t)
      × OnScreen font (puts font s k) (type_text k.cols k.rows s t).cells
unfolding puts
puts-OnScreen font s k t h screen =
    let typed = put_text-Shows font s k t h in
    let same = put_text-dimensions font s k in
    (
      presented-Shows font (put_text font s k) (type_text k.cols k.rows s t) typed,
      presented-OnScreen font (put_text font s k) (type_text k.cols k.rows s t).cells typed.paints
          (subst IsScreen (sym same) screen),
    )
