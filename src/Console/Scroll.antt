-- ===== src/Console/Scroll.antt =====
-- `memmove` and the clearing of rows in src/console.c and src/framebuffer.c.
use cool_os.Prelude.{
  ℕ, zero, suc, ◌+◌, ◌*◌, ◌%◌, ◌^◌, ◌≤◌, ◌<◌, ◌≡◌, ◌≢◌, refl, ap, subst, ◌∙◌, inl, inr, ltb, ◌==◌,
  arith, Bool-cases,
}
use cool_os.Console.{Buffer, store32, store64, copy_forward, clear_pairs, clear_rows}
use cool_os.Console.Pixels.{store32_self, store32_other}

pub store64-other :
    (o low high q : ℕ) (b : Buffer) → q ≢ o → q ≢ o + 4 → store64 o low high b q ≡ b q
store64-other o low high q b h h' =
    store32_other (o + 4) high q (store32 o low b) h' ∙ store32_other o low q b h

pub store64-low : (o low high : ℕ) (b : Buffer) → store64 o low high b o ≡ low
store64-low o low high b =
    store32_other (o + 4) high o (store32 o low b) (λ e. absurd (omega (arith, e)))
    ∙ store32_self o low b

pub store64-high : (o low high : ℕ) (b : Buffer) → store64 o low high b (o + 4) ≡ high
store64-high o low high b = store32_self (o + 4) high (store32 o low b)

-- A copy to a lower address: what is still to be read has not been overwritten.
module _ (src : ℕ) (ahead : 8 ≤ src) (b₀ : Buffer) where
  -- The pixels up to the `i`th pair have moved.
  abbrev MovedUpTo : ℕ → Buffer → Type 0
  MovedUpTo i b =
      ((q : ℕ) → q * 4 < i * 8 → b (q * 4) ≡ b₀ (src + q * 4)) × ((q : ℕ) → i * 8 ≤ q → b q ≡ b₀ q)

  copy_step :
      (i : ℕ) (b : Buffer)
      → MovedUpTo i b
      → MovedUpTo (i + 1) (store64 (0 + i * 8) (b (src + i * 8)) (b (src + i * 8 + 4)) b)
  copy_step i b h = (
    λ q low. elim (Bool-cases (ltb (q * 4) (i * 8))) [
      | inl before ↦
          store64-other (0 + i * 8) _ _ (q * 4) b (λ e. absurd (ground (arith, e, before)))
            (λ e. absurd (ground (arith, e, before)))
          ∙ h.0 q (ground (arith, before))
      | inr new ↦ elim (Bool-cases (q == 2 * i)) [
        | inl first ↦
            let at : q * 4 ≡ 0 + i * 8 = ground (arith, first) in
            ap (store64 (0 + i * 8) (b (src + i * 8)) (b (src + i * 8 + 4)) b) at
            ∙ store64-low (0 + i * 8) _ _ b
            ∙ h.1 (src + i * 8) (omega (arith, ahead))
            ∙ ap b₀ (omega (arith, at))
        | inr second ↦
            let at : q * 4 ≡ 0 + i * 8 + 4 = ground (arith, second, new) in
            ap (store64 (0 + i * 8) (b (src + i * 8)) (b (src + i * 8 + 4)) b) at
            ∙ store64-high (0 + i * 8) _ _ b
            ∙ h.1 (src + i * 8 + 4) (omega (arith, ahead))
            ∙ ap b₀ (omega (arith, at))
      ]
    ],
    λ q low.
        store64-other (0 + i * 8) _ _ q b (λ e. absurd (omega (arith, e)))
          (λ e. absurd (omega (arith, e)))
        ∙ h.1 q (omega arith),
  )

  copy_forward-moved :
      (n i : ℕ) (b : Buffer) → MovedUpTo i b → MovedUpTo (i + n) (copy_forward n 0 src i b)
  unfolding copy_forward
  copy_forward-moved zero i b h =
      let same : i ≡ i + 0 = omega arith in subst (λ j. MovedUpTo j b) same h
  copy_forward-moved (suc n) i b h =
      let same : i + 1 + n ≡ i + suc n = omega arith in
      subst (λ j. MovedUpTo j (copy_forward (suc n) 0 src i b)) same
        (copy_forward-moved n (i + 1) _ (copy_step i b h))

  -- The first `n` pairs of pixels are those from `src` on, as they were, and the others stay.
  pub copy_forward_all :
      (n : ℕ)
      → ((q : ℕ) → q * 4 < n * 8 → copy_forward n 0 src 0 b₀ (q * 4) ≡ b₀ (src + q * 4))
        × ((q : ℕ) → n * 8 ≤ q → copy_forward n 0 src 0 b₀ q ≡ b₀ q)
  copy_forward_all n =
      let zero_n : 0 + n ≡ n = omega arith in
      subst (λ j. MovedUpTo j (copy_forward n 0 src 0 b₀)) zero_n
        (copy_forward-moved n 0 b₀ ((λ q low. absurd (omega arith)), (λ q low. refl)))

module _ (color base : ℕ) where
  clear_pairs-other :
      (n x : ℕ) (b : Buffer) (q : ℕ)
      → ((j : ℕ) → x * 2 ≤ j → j < (x + n) * 2 → q ≢ base + j * 4)
      → clear_pairs n color base x b q ≡ b q
  unfolding clear_pairs
  clear_pairs-other zero x b q h = refl
  clear_pairs-other (suc n) x b q h =
      clear_pairs-other n (x + 1) _ q (λ j low high. h j (omega arith) (omega arith))
      ∙ store64-other (base + x * 8) color color q b
          (λ e. h (x * 2) (omega arith) (omega arith) (omega (arith, e)))
          (λ e. h (x * 2 + 1) (omega arith) (omega arith) (omega (arith, e)))

  store64-kept : (o q : ℕ) (b : Buffer) → b q ≡ color → store64 o color color b q ≡ color
  unfolding store32
  store64-kept o q b h = ground (arith, h)

  clear_pairs-kept :
      (n x : ℕ) (b : Buffer) (q : ℕ) → b q ≡ color → clear_pairs n color base x b q ≡ color
  unfolding clear_pairs
  clear_pairs-kept zero x b q h = h
  clear_pairs-kept (suc n) x b q h =
      clear_pairs-kept n (x + 1) _ q (store64-kept (base + x * 8) q b h)

  clear_pairs-at :
      (n x : ℕ) (b : Buffer) (j : ℕ)
      → x * 2 ≤ j
      → j < (x + n) * 2
      → clear_pairs n color base x b (base + j * 4) ≡ color
  unfolding clear_pairs
  clear_pairs-at zero x b j low high = absurd (omega arith)
  clear_pairs-at (suc n) x b j low high = elim (Bool-cases (j == 2 * x)) [
    | inl first ↦
        let at : base + x * 8 ≡ base + j * 4 = ground (arith, first) in
        clear_pairs-kept n (x + 1) _ (base + j * 4) (
          subst (λ o. store64 (base + x * 8) color color b o ≡ color) at
            (store64-low (base + x * 8) color color b))
    | inr not_first ↦ elim (Bool-cases (j == 2 * x + 1)) [
      | inl second ↦
          let at : base + x * 8 + 4 ≡ base + j * 4 = ground (arith, second) in
          clear_pairs-kept n (x + 1) _ (base + j * 4) (
            subst (λ o. store64 (base + x * 8) color color b o ≡ color) at
              (store64-high (base + x * 8) color color b))
      | inr later ↦ clear_pairs-at n (x + 1) _ j (ground (arith, later, not_first)) (omega arith)
    ]
  ]

-- The rows from `y` on are in one colour, as far as the pairs reach; other pixels stay.
module _ (color p pairs : ℕ) where
  pub clear_rows-other :
      (n y : ℕ) (b : Buffer) (q : ℕ)
      → ((i j : ℕ) → y ≤ i → i < y + n → j < pairs * 2 → q ≢ (i * p) % 2 ^ 32 + j * 4)
      → clear_rows n color p pairs y b q ≡ b q
  unfolding clear_rows
  clear_rows-other zero y b q h = refl
  clear_rows-other (suc n) y b q h =
      clear_rows-other n (y + 1) _ q (λ i j low high. h i j (omega arith) (omega arith))
      ∙ clear_pairs-other color ((y * p) % 2 ^ 32) pairs 0 b q
          (λ j low high. h y j (omega arith) (omega arith) (omega arith))

  -- A pixel that is clear stays so.
  pub clear_rows-kept :
      (n y : ℕ) (b : Buffer) (q : ℕ) → b q ≡ color → clear_rows n color p pairs y b q ≡ color
  unfolding clear_rows
  clear_rows-kept zero y b q h = h
  clear_rows-kept (suc n) y b q h =
      clear_rows-kept n (y + 1) _ q (clear_pairs-kept color ((y * p) % 2 ^ 32) pairs 0 b q h)

  pub clear_rows-at :
      (n y : ℕ) (b : Buffer) (i j : ℕ)
      → y ≤ i
      → i < y + n
      → j < pairs * 2
      → clear_rows n color p pairs y b ((i * p) % 2 ^ 32 + j * 4) ≡ color
  unfolding clear_rows
  clear_rows-at zero y b i j low high narrow = absurd (omega arith)
  clear_rows-at (suc n) y b i j low high narrow = elim (Bool-cases (y == i)) [
    | inl here ↦
        let same : y ≡ i = ground (arith, here) in
        clear_rows-kept n (y + 1) _ ((i * p) % 2 ^ 32 + j * 4) (
          subst
            (λ r. clear_pairs pairs color ((y * p) % 2 ^ 32) 0 b ((r * p) % 2 ^ 32 + j * 4) ≡ color)
            same (clear_pairs-at color ((y * p) % 2 ^ 32) pairs 0 b j (omega arith) (omega arith)))
    | inr later ↦ clear_rows-at n (y + 1) _ i j (ground (arith, later)) (omega arith) narrow
  ]
