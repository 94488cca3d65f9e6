-- ===== src/Console/Present.antt =====
-- `fb_present` of src/framebuffer.c: the copy of the back buffer to the screen.
use cool_os.Prelude.{
  ℕ, zero, suc, ◌+◌, ◌*◌, ◌≤◌, ◌<◌, ◌≡◌, ◌≢◌, refl, sym, ap, subst, ◌∙◌, inl, inr, ◌==◌, arith,
  Bool-cases,
}
use cool_os.Console.{Buffer, store64, present_words, present_rows}
use cool_os.Console.Draw.{row_base}
use cool_os.Console.Scroll.{store64-other, store64-low, store64-high}

module _ (src : Buffer) (s d : ℕ) where
  present_words-other :
      (n i : ℕ) (b : Buffer) (q : ℕ)
      → ((j : ℕ) → i * 2 ≤ j → j < (i + n) * 2 → q ≢ d + j * 4)
      → present_words n src s d i b q ≡ b q
  unfolding present_words
  present_words-other zero i b q h = refl
  present_words-other (suc n) i b q h =
      present_words-other n (i + 1) _ q (λ j low high. h j (omega arith) (omega arith))
      ∙ store64-other (d + i * 8) _ _ q b
          (λ e. h (i * 2) (omega arith) (omega arith) (omega (arith, e)))
          (λ e. h (i * 2 + 1) (omega arith) (omega arith) (omega (arith, e)))

  present_words-at :
      (n i : ℕ) (b : Buffer) (j : ℕ)
      → i * 2 ≤ j
      → j < (i + n) * 2
      → present_words n src s d i b (d + j * 4) ≡ src (s + j * 4)
  unfolding present_words
  present_words-at zero i b j low high = absurd (omega arith)
  present_words-at (suc n) i b j low high = elim (Bool-cases (j == 2 * i)) [
    | inl first ↦
        let at : d + j * 4 ≡ d + i * 8 = ground (arith, first) in
        present_words-other n (i + 1) _ (d + j * 4)
          (λ j' low' high' e. absurd (omega (arith, e, at)))
        ∙ ap (store64 (d + i * 8) (src (s + i * 8)) (src (s + i * 8 + 4)) b) at
        ∙ store64-low (d + i * 8) _ _ b
        ∙ ap src (omega (arith, at))
    | inr not_first ↦ elim (Bool-cases (j == 2 * i + 1)) [
      | inl second ↦
          let at : d + j * 4 ≡ d + i * 8 + 4 = ground (arith, second) in
          present_words-other n (i + 1) _ (d + j * 4)
            (λ j' low' high' e. absurd (omega (arith, e, at)))
          ∙ ap (store64 (d + i * 8) (src (s + i * 8)) (src (s + i * 8 + 4)) b) at
          ∙ store64-high (d + i * 8) _ _ b
          ∙ ap src (omega (arith, at))
      | inr later ↦ present_words-at n (i + 1) _ j (ground (arith, later, not_first)) (omega arith)
    ]
  ]

module _ (src : Buffer) (bp hp words : ℕ) where
  present_rows-other :
      (n y : ℕ) (b : Buffer) (q : ℕ)
      → ((i j : ℕ) → y ≤ i → i < y + n → j < words * 2 → q ≢ row_base hp i + j * 4)
      → present_rows n src bp hp words y b q ≡ b q
  unfolding present_rows
  present_rows-other zero y b q h = refl
  present_rows-other (suc n) y b q h =
      present_rows-other n (y + 1) _ q (λ i j low high. h i j (omega arith) (omega arith))
      ∙ present_words-other src (row_base bp y) (row_base hp y) words 0 b q
          (λ j low high. h y j (omega arith) (omega arith) (omega arith))

  -- The rows that are copied later stay off the pixel.
  pub present_rows-at :
      (n y : ℕ) (b : Buffer) (i j : ℕ)
      → y ≤ i
      → i < y + n
      → j < words * 2
      → ((i' j' : ℕ)
          → i' ≢ i
          → i' < y + n
          → j' < words * 2
          → row_base hp i + j * 4 ≢ row_base hp i' + j' * 4)
      → present_rows n src bp hp words y b (row_base hp i + j * 4) ≡ src (row_base bp i + j * 4)
  unfolding present_rows
  present_rows-at zero y b i j low high thin apart = absurd (omega arith)
  present_rows-at (suc n) y b i j low high thin apart = elim (Bool-cases (y == i)) [
    | inl here ↦
        let same : i ≡ y = ground (arith, here) in
        present_rows-other n (y + 1) _ (row_base hp i + j * 4) (λ i' j' low' high' thin'.
          apart i' j' (λ e. absurd (omega (arith, e, same))) (omega arith) thin')
        ∙ subst
            (λ r.
              present_words words src (row_base bp y) (row_base hp y) 0 b (row_base hp r + j * 4)
              ≡ src (row_base bp r + j * 4))
            (sym same)
            (present_words-at src (row_base bp y) (row_base hp y) words 0 b j (omega arith)
              (omega arith))
    | inr later ↦
        present_rows-at n (y + 1) _ i j (ground (arith, later)) (omega arith) thin
          (λ i' j' other high' thin'. apart i' j' other (omega arith) thin')
  ]
