-- ===== src/Console/Shows.antt =====
-- The console of src/console.c shows the terminal.
use cool_os.Prelude.{
  ℕ, ◌+◌, ◌-◌, ◌*◌, ◌/◌, ◌<◌, ◌≡◌, refl, sym, ap, subst, inl, inr, Bool, true, false, leb, ◌==◌,
  if◌then◌else◌, arith, Bool-cases,
}
use cool_os.Console.{Buffer, Fb, Console, target, pitch, drawn, draw_char, scroll, new_line, putc}
use cool_os.Console.Paint.{IsLayout, Painted, draw_rows-Painted, scroll-Painted}
use cool_os.Console.Terminal.{
  Cells, Terminal, put_cell, scroll_cells, next_line, at_column, type_char,
}

-- The pixels of the console are those of the cells.
abbrev pub Paints : (ℕ → ℕ → ℕ) → Console → Cells → Type 0
Paints font k cells =
    IsLayout k.cols k.rows (pitch k.fb) k.fb.render_width
    × Painted font k.fg_color k.bg_color (pitch k.fb) k.cols k.rows (target k.fb) cells

-- The console shows the terminal, and the cursor is that of the terminal and in the grid.
pub record Shows (font : ℕ → ℕ → ℕ) (k : Console) (t : Terminal) : Type 0 where
  pub paints : Paints font k t.cells
  pub x : k.cursor_x ≡ t.x
  pub y : k.cursor_y ≡ t.y
  pub x_inside : t.x < k.cols
  pub y_inside : t.y < k.rows

drawn_to :
    (has_back : Bool) (b front back : Buffer)
    → (if has_back then (if has_back then b else back) else (if has_back then front else b)) ≡ b
drawn_to true b front back = refl
drawn_to false b front back = refl

pub target-drawn : (b : Buffer) (fb : Fb) → target (drawn b fb) ≡ b
target-drawn b fb = drawn_to fb.has_back b fb.front fb.back

module _ (font : ℕ → ℕ → ℕ) where
  draw_char-Paints :
      (k : Console) (cells : Cells) (cy cx c : ℕ)
      → Paints font k cells
      → cy < k.rows
      → cx < k.cols
      → Paints font (draw_char font cx cy c k) (put_cell cy cx c cells)
  unfolding draw_char
  draw_char-Paints k cells cy cx c h hy hx = (
    h.0,
    subst
        (λ b.
          Painted font k.fg_color k.bg_color (pitch k.fb) k.cols k.rows b (put_cell cy cx c cells))
        (sym (target-drawn _ k.fb))
        (draw_rows-Painted font k.fg_color k.bg_color h.0 (target k.fb) cells h.1 cy cx c hy hx),
  )

  scroll-Paints :
      (k : Console) (cells : Cells)
      → Paints font k cells
      → Paints font (scroll k) (scroll_cells k.rows cells)
  unfolding scroll
  scroll-Paints k cells h = (
    h.0,
    subst
        (λ b.
          Painted font k.fg_color k.bg_color (pitch k.fb) k.cols k.rows b
            (scroll_cells k.rows cells))
        (sym (target-drawn _ k.fb))
        (scroll-Painted font k.fg_color k.bg_color h.0 (target k.fb) cells h.1),
  )

  new_line-Shows :
      (k : Console) (t : Terminal)
      → Paints font k t.cells
      → k.cursor_y ≡ t.y
      → t.y < k.rows
      → Shows font (new_line k) (next_line k.rows t)
  unfolding new_line scroll
  new_line-Shows k t h same inside = elim (Bool-cases (leb k.rows (t.y + 1))) [
    | inl full ↦
        let there : leb k.rows (k.cursor_y + 1) ≡ true = rw same full in
        rw (full, there)
          (record {
            paints = scroll-Paints (record k { cursor_x = 0; cursor_y = k.cursor_y + 1 }) t.cells h;
            x = refl;
            y = refl;
            x_inside = h.0.some_cols;
            y_inside = omega (arith, h.0.some_rows);
          })
    | inr room ↦
        let there : leb k.rows (k.cursor_y + 1) ≡ false = rw same room in
        rw (room, there)
          (record {
            paints = h;
            x = refl;
            y = ap (λ a. a + 1) same;
            x_inside = h.0.some_cols;
            y_inside = ground (arith, room);
          })
  ]

  -- The cursor at the next column, or on the next line. The test of the code is on its own cursor.
  column-Shows :
      (k : Console) (t : Terminal) (x : ℕ)
      → Paints font k t.cells
      → k.cursor_y ≡ t.y
      → t.y < k.rows
      → k.cursor_x ≡ x
      → Shows font (if leb k.cols k.cursor_x then new_line k else k) (at_column k.cols k.rows x t)
  column-Shows k t x h same inside there = elim (Bool-cases (leb k.cols x)) [
    | inl over ↦
        let over' : leb k.cols k.cursor_x ≡ true = rw there over in
        rw (over, over') (new_line-Shows k t h same inside)
    | inr fits ↦
        let fits' : leb k.cols k.cursor_x ≡ false = rw there fits in
        rw (fits, fits')
          (record {
            paints = h;
            x = there;
            y = same;
            x_inside = ground (arith, fits);
            y_inside = inside;
          })
  ]

  draw_char-frame :
      (k : Console) (cy cx c : ℕ)
      → ((draw_char font cx cy c k).cols ≡ k.cols) × ((draw_char font cx cy c k).rows ≡ k.rows)
  unfolding draw_char
  draw_char-frame k cy cx c = (refl, refl)

  printed-Shows :
      (k : Console) (t : Terminal) (c : ℕ)
      → Shows font k t
      → Shows font
          (let k'' = record (draw_char font k.cursor_x k.cursor_y c k) {
            cursor_x = k.cursor_x + 1;
          } in
            if leb k.cols k''.cursor_x then new_line k'' else k'')
          (at_column k.cols k.rows (t.x + 1) (record t { cells = put_cell t.y t.x c t.cells }))
  unfolding draw_char
  printed-Shows k t c h =
      column-Shows (record (draw_char font k.cursor_x k.cursor_y c k) { cursor_x = k.cursor_x + 1 })
        (record t { cells = put_cell t.y t.x c t.cells }) (t.x + 1) (ap₂-Paints k t c h) h.y
        h.y_inside (ap (λ a. a + 1) h.x)
    where
      ap₂-Paints :
          (k : Console) (t : Terminal) (c : ℕ)
          → Shows font k t
          → Paints font (draw_char font k.cursor_x k.cursor_y c k) (put_cell t.y t.x c t.cells)
      ap₂-Paints k t c h =
          rw (h.x, h.y) (draw_char-Paints k t.cells t.y t.x c h.paints h.y_inside h.x_inside)

  pub putc-Shows :
      (k : Console) (t : Terminal) (c : ℕ)
      → Shows font k t
      → Shows font (putc font c k) (type_char k.cols k.rows c t)
  unfolding putc type_char
  putc-Shows k t c h = elim (Bool-cases (c == 10)) [
    | inl line ↦ rw line (new_line-Shows k t h.paints h.y h.y_inside)
    | inr not_line ↦ elim (Bool-cases (c == 13)) [
      | inl back ↦
          rw (not_line, back)
            (record {
              paints = h.paints;
              x = refl;
              y = h.y;
              x_inside = h.paints.0.some_cols;
              y_inside = h.y_inside;
            })
      | inr not_back ↦ elim (Bool-cases (c == 9)) [
        | inl tab ↦
            rw (not_line, not_back, tab)
              (column-Shows (record k { cursor_x = (k.cursor_x + 4) / 4 * 4 }) t ((t.x + 4) / 4 * 4)
                h.paints h.y h.y_inside (ap (λ a. (a + 4) / 4 * 4) h.x))
        | inr not_tab ↦ elim (Bool-cases (c == 8)) [
          | inl rub ↦
              rw (not_line, not_back, not_tab, rub)
                (record {
                  paints = h.paints;
                  x = ap (λ a. a - 1) h.x;
                  y = h.y;
                  x_inside = omega (arith, h.x_inside);
                  y_inside = h.y_inside;
                })
          | inr plain ↦ rw (not_line, not_back, not_tab, plain) (printed-Shows k t c h)
        ]
      ]
    ]
  ]
