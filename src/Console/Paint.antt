-- ===== src/Console/Paint.antt =====
-- How the pixels of src/console.c stand for cells, and that drawing and scrolling keep it.
use cool_os.Prelude.{
  ℕ, ◌+◌, ◌-◌, ◌*◌, ◌/◌, ◌%◌, ◌^◌, ◌≤◌, ◌<◌, ◌≡◌, sym, ap, ap₂, ◌∙◌, inl, inr, ◌&&◌, Option, none,
  some, ltb, ◌==◌, arith, Bool-cases,
}
use native.Mathlib.Nat.{mod-eq_of_lt}
use cool_os.Console.{Buffer, draw_rows, clear_rows, memmove, copy_forward}
use cool_os.Console.Pixels.{pixel, row_unique, mul_mono, add_mul, mul_four, mul_sixteen}
use cool_os.Console.Draw.{color_of, row_base, draw_rows-other, draw_rows-at}
use cool_os.Console.Scroll.{copy_forward_all, clear_rows-other, clear_rows-at}
use cool_os.Console.Terminal.{Cells, put_cell, scroll_cells}

-- The cells fit into the buffer: `p` is its pitch and `width` its pixels in a row.
pub record IsLayout (cols rows p width : ℕ) : Type 0 where
  pub aligned : p % 4 ≡ 0
  pub narrow : width * 4 ≤ p
  pub wide : cols * 8 ≤ width
  pub small : rows * 16 * p < 2 ^ 32
  pub some_cols : 0 < cols
  pub some_rows : 0 < rows

-- The colour of a pixel of a cell.
abbrev pub cell_color : (ℕ → ℕ → ℕ) → ℕ → ℕ → Option ℕ → ℕ → ℕ → ℕ
cell_color font fg bg none row col = bg
cell_color font fg bg (some c) row col = color_of (font c row) fg bg col

abbrev pub Painted : (ℕ → ℕ → ℕ) → ℕ → ℕ → ℕ → ℕ → ℕ → Buffer → Cells → Type 0
Painted font fg bg p cols rows b cells =
    (cy cx row col : ℕ)
    → cy < rows
    → cx < cols
    → row < 16
    → col < 8
    → b (pixel p (cy * 16 + row) (cx * 8 + col)) ≡ cell_color font fg bg (cells cy cx) row col

module _ {cols rows p width : ℕ} (l : IsLayout cols rows p width) where
  -- No offset of a row wraps.
  pub row_base-small : (y : ℕ) → y < rows * 16 → row_base p y ≡ y * p
  row_base-small y h =
      let under : y * p ≤ rows * 16 * p = mul_mono y (rows * 16) p (omega arith) in
      mod-eq_of_lt (omega (arith, under, l.small))

  in_row : (x : ℕ) → x < width → x * 4 < p
  in_row x h = omega (arith, l.narrow)

  unique :
      (y x y' x' : ℕ)
      → y' < rows * 16
      → x < width
      → x' < width
      → pixel p y x ≡ row_base p y' + x' * 4
      → (y ≡ y') × (x ≡ x')
  unique y x y' x' hy hx hx' e =
      let same =
        row_unique p y y' (x * 4) (x' * 4) (in_row x hx) (in_row x' hx')
          (e ∙ ap (λ o. o + x' * 4) (row_base-small y' hy)) in
      (same.0, omega (arith, same.1))

  src_small : (16 * p) % 2 ^ 32 ≡ 16 * p
  src_small =
      let under : 16 * p ≤ rows * 16 * p = mul_mono 16 (rows * 16) p (omega (arith, l.some_rows)) in
      mod-eq_of_lt (omega (arith, under, l.small))

  -- The length of the copy, in words of 64 bits.
  length_whole : ((rows * 16 - 16) * p) % 2 ^ 32 / 8 * 8 ≡ (rows * 16 - 16) * p
  length_whole =
      let under : (rows * 16 - 16) * p ≤ rows * 16 * p = mul_mono _ (rows * 16) p (omega arith) in
      let same : rows * 16 - 16 ≡ (rows - 1) * 16 = omega arith in
      let eight : (rows * 16 - 16) * p ≡ (rows - 1) * p * 16 =
        ap (λ a. a * p) same ∙ mul_sixteen (rows - 1) p in
      let whole : ((rows * 16 - 16) * p) % 2 ^ 32 ≡ (rows * 16 - 16) * p =
        mod-eq_of_lt (omega (arith, under, l.small)) in
      rw whole (omega (arith, eight))

  -- A pixel is copied from sixteen rows below.
  copied :
      (b : Buffer) (cy row x : ℕ)
      → cy + 1 < rows
      → row < 16
      → x < width
      → memmove 0
          ((16 * p) % 2 ^ 32)
          (((rows * 16 - 16) * p) % 2 ^ 32)
          b
          (pixel p (cy * 16 + row) x)
        ≡ b (pixel p ((cy + 1) * 16 + row) x)
  copied b cy row x below hr hx =
      let y = cy * 16 + row in
      let n = ((rows * 16 - 16) * p) % 2 ^ 32 / 8 in
      let s = p / 4 in
      let quarter : p ≡ s * 4 = omega (arith, l.aligned) in
      let row_words : y * p ≡ y * s * 4 = ap (λ a. y * a) quarter ∙ mul_four y s in
      let at : (y * s + x) * 4 ≡ pixel p y x = omega (arith, row_words) in
      let next_row : (y + 1) * p ≤ (rows * 16 - 16) * p = mul_mono (y + 1) _ p (omega arith) in
      let inside : (y * s + x) * 4 < n * 8 =
        omega (arith, at, next_row, add_mul y 1 p, length_whole, in_row x hx) in
      let ahead : 8 ≤ 16 * p = omega (arith, l.narrow, l.wide, l.some_cols) in
      let there : 16 * p + (y * s + x) * 4 ≡ pixel p ((cy + 1) * 16 + row) x =
        let rows_same : (cy + 1) * 16 + row ≡ y + 16 = omega arith in
        omega (arith, at, ap (λ a. a * p) rows_same, add_mul y 16 p) in
      ap₂ (λ o src. copy_forward n 0 src 0 b o) (sym at) src_small
      ∙ (copy_forward_all (16 * p) ahead b n).0 (y * s + x) inside
      ∙ ap b there

module _ (font : ℕ → ℕ → ℕ) (fg bg : ℕ) {cols rows p width : ℕ} (l : IsLayout cols rows p width)
    (b : Buffer) (cells : Cells) (h : Painted font fg bg p cols rows b cells) where
  pub draw_rows-Painted :
      (cy cx c : ℕ)
      → cy < rows
      → cx < cols
      → Painted font fg bg p cols rows
          (draw_rows 16 (font c) fg bg p (cx * 8) (cy * 16) 0 b)
          (put_cell cy cx c cells)
  draw_rows-Painted cy cx c hy hx cy' cx' row col hy' hx' hr hc =
      let drawn = draw_rows 16 (font c) fg bg p (cx * 8) (cy * 16) 0 b in
      elim (Bool-cases (cy' == cy && cx' == cx)) [
        | inl here ↦
            let same_y : cy' ≡ cy = ground (arith, here) in
            let same_x : cx' ≡ cx = ground (arith, here) in
            rw here (
              ap₂ (λ y x. drawn (pixel p (y * 16 + row) (x * 8 + col))) same_y same_x
              ∙ ap (λ o. drawn (o + (cx * 8 + col) * 4))
                  (sym (row_base-small l (cy * 16 + row) (omega arith)))
              ∙ draw_rows-at (font c) fg bg p (cx * 8) (cy * 16) 16 0 b row col (omega arith)
                  (omega arith) hc
                  (λ i j other high thin e. other (
                    omega (
                      arith,
                      (unique l (cy * 16 + row) (cx * 8 + col) (cy * 16 + i) (cx * 8 + j)
                          (omega arith) (omega (arith, l.wide)) (omega (arith, l.wide))
                          (ap (λ o. o + (cx * 8 + col) * 4)
                              (sym (row_base-small l (cy * 16 + row) (omega arith)))
                            ∙ e)).0,
                    ))))
        | inr other ↦ rw other (
            draw_rows-other (font c) fg bg p (cx * 8) (cy * 16) 16 0 b _ (λ i j low high thin e.
              let same =
                unique l (cy' * 16 + row) (cx' * 8 + col) (cy * 16 + i) (cx * 8 + j) (omega arith)
                  (omega (arith, l.wide)) (omega (arith, l.wide)) e in
              absurd (ground (arith, other, same.0, same.1)))
            ∙ h cy' cx' row col hy' hx' hr hc)
      ]

  -- The rows of pixels that scrolling copies.
  abbrev scrolled : Buffer
  scrolled =
      clear_rows 16 bg p (width / 2) ((rows - 1) * 16)
        (memmove 0 ((16 * p) % 2 ^ 32) (((rows * 16 - 16) * p) % 2 ^ 32) b)

  pub scroll-Painted : Painted font fg bg p cols rows scrolled (scroll_cells rows cells)
  scroll-Painted cy cx row col hy hx hr hc =
      let y = cy * 16 + row in
      let x = cx * 8 + col in
      elim (Bool-cases (ltb (cy + 1) rows)) [
        | inl moves ↦
            let below : cy + 1 < rows = ground (arith, moves) in
            rw moves (
              clear_rows-other bg p (width / 2) 16 ((rows - 1) * 16) _ (pixel p y x)
                (λ i j low high thin e. absurd (
                  omega (
                    arith,
                    (unique l y x i j (omega arith) (omega (arith, l.wide)) (omega arith) e).0,
                  )))
              ∙ copied l b cy row x below hr (omega (arith, l.wide))
              ∙ h (cy + 1) cx row col below hx hr hc)
        | inr last ↦
            let at : cy ≡ rows - 1 = ground (arith, last, l.some_rows) in
            rw last (
              ap (λ o. scrolled (o + x * 4)) (sym (row_base-small l y (omega arith)))
              ∙ clear_rows-at bg p (width / 2) 16 ((rows - 1) * 16) _ y x (omega (arith, at))
                  (omega (arith, at)) (omega (arith, l.wide)))
      ]
