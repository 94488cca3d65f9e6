-- ===== src/Console/Draw.antt =====
-- The glyph that `console_draw_char` of src/console.c leaves in the buffer.
use cool_os.Prelude.{
  ℕ, zero, suc, ◌+◌, ◌*◌, ◌%◌, ◌^◌, ◌≤◌, ◌<◌, ◌≡◌, ◌≢◌, refl, sym, subst, ◌∙◌, inl, inr, ◌==◌,
  if◌then◌else◌, arith, Bool-cases,
}
use cool_os.Console.{Buffer, store32, is_ink, draw_cols, draw_rows, font_width}
use cool_os.Console.Pixels.{store32_self, store32_other}

abbrev pub color_of : ℕ → ℕ → ℕ → ℕ → ℕ
color_of bits fg bg col = if is_ink bits col then fg else bg

module _ (bits fg bg base px : ℕ) where
  draw_cols-other :
      (n col : ℕ) (b : Buffer) (q : ℕ)
      → ((j : ℕ) → col ≤ j → j < col + n → q ≢ base + (px + j) * 4)
      → draw_cols n bits fg bg base px col b q ≡ b q
  unfolding draw_cols
  draw_cols-other zero col b q h = refl
  draw_cols-other (suc n) col b q h =
      draw_cols-other n (col + 1) _ q (λ j low high. h j (omega arith) (omega arith))
      ∙ store32_other (base + (px + col) * 4) (color_of bits fg bg col) q b
          (h col (omega arith) (omega arith))

  draw_cols-at :
      (n col : ℕ) (b : Buffer) (j : ℕ)
      → col ≤ j
      → j < col + n
      → draw_cols n bits fg bg base px col b (base + (px + j) * 4) ≡ color_of bits fg bg j
  unfolding draw_cols
  draw_cols-at zero col b j low high = absurd (omega arith)
  draw_cols-at (suc n) col b j low high = elim (Bool-cases (col == j)) [
    | inl here ↦
        let same : col ≡ j = ground (arith, here) in
        subst
          (λ i.
            draw_cols n bits fg bg base px (col + 1)
              (store32 (base + (px + col) * 4) (color_of bits fg bg col) b) (base + (px + i) * 4)
            ≡ color_of bits fg bg i)
          same
          (draw_cols-other n (col + 1) _ (base + (px + col) * 4)
              (λ i low high same. omega (arith, same))
            ∙ store32_self (base + (px + col) * 4) (color_of bits fg bg col) b)
    | inr later ↦ draw_cols-at n (col + 1) _ j (ground (arith, later)) (omega arith)
  ]

-- The offset of row `y`, in 32 bits.
abbrev pub row_base : ℕ → ℕ → ℕ
row_base p y = (y * p) % 2 ^ 32

module _ (glyph : ℕ → ℕ) (fg bg p px py : ℕ) where
  pub draw_rows-other :
      (n row : ℕ) (b : Buffer) (q : ℕ)
      → ((i j : ℕ)
          → row ≤ i
          → i < row + n
          → j < font_width
          → q ≢ row_base p (py + i) + (px + j) * 4)
      → draw_rows n glyph fg bg p px py row b q ≡ b q
  unfolding draw_rows
  draw_rows-other zero row b q h = refl
  draw_rows-other (suc n) row b q h =
      draw_rows-other n (row + 1) _ q (λ i j low high. h i j (omega arith) (omega arith))
      ∙ draw_cols-other (glyph row) fg bg (row_base p (py + row)) px font_width 0 b q
          (λ j low high. h row j (omega arith) (omega arith) high)

  -- The rows that are drawn later stay off the pixel.
  pub draw_rows-at :
      (n row : ℕ) (b : Buffer) (i j : ℕ)
      → row ≤ i
      → i < row + n
      → j < font_width
      → ((i' j' : ℕ)
          → i' ≢ i
          → i' < row + n
          → j' < font_width
          → row_base p (py + i) + (px + j) * 4 ≢ row_base p (py + i') + (px + j') * 4)
      → draw_rows n glyph fg bg p px py row b (row_base p (py + i) + (px + j) * 4)
        ≡ color_of (glyph i) fg bg j
  unfolding draw_rows
  draw_rows-at zero row b i j low high narrow apart = absurd (omega arith)
  draw_rows-at (suc n) row b i j low high narrow apart = elim (Bool-cases (row == i)) [
    | inl here ↦
        let same : i ≡ row = ground (arith, here) in
        draw_rows-other n (row + 1) _ (row_base p (py + i) + (px + j) * 4)
          (λ i' j' low' high' narrow'.
            apart i' j' (λ e. absurd (omega (arith, e, same))) (omega arith) narrow')
        ∙ subst
            (λ r.
              draw_cols font_width (glyph row) fg bg (row_base p (py + row)) px 0 b
                (row_base p (py + r) + (px + j) * 4)
              ≡ color_of (glyph r) fg bg j)
            (sym same)
            (draw_cols-at (glyph row) fg bg (row_base p (py + row)) px font_width 0 b j
              (omega arith) (omega arith))
    | inr later ↦
        draw_rows-at n (row + 1) _ i j (ground (arith, later)) (omega arith) narrow
          (λ i' j' other high' narrow'. apart i' j' other (omega arith) narrow')
  ]
