-- ===== src/Fat/Bytes.antt =====
-- Stretches of bytes, for the copying in src/fat32.c.
use cool_os.Prelude.{
  ℕ, zero, suc, ◌+◌, ◌-◌, ◌≤◌, ◌≡◌, refl, sym, ap, ◌∙◌, List, [], ◌∷◌, ◌++◌, arith, take, drop,
  length,
}

module _ {ℓ} {A : Type ℓ} where
  pub drop-nil : (n : ℕ) → drop {A = A} n [] ≡ []
  drop-nil zero = refl
  drop-nil (suc n) = refl

  pub take-nil : (n : ℕ) → take {A = A} n [] ≡ []
  take-nil zero = refl
  take-nil (suc n) = refl

  pub drop-drop : (n m : ℕ) (xs : List A) → drop n (drop m xs) ≡ drop (m + n) xs
  drop-drop n zero xs = ap (λ k. drop k xs) (omega arith)
  drop-drop n (suc m) [] = drop-nil n ∙ sym (drop-nil (suc m + n))
  drop-drop n (suc m) (x ∷ xs) =
      let e : suc m + n ≡ suc (m + n) = omega arith in rw e (drop-drop n m xs)

  -- A stretch of a stretch.
  pub take-drop-take :
      (k a b : ℕ) (xs : List A) → k + a ≤ b → take k (drop a (take b xs)) ≡ take k (drop a xs)
  take-drop-take zero zero zero xs h = refl
  take-drop-take (suc k) a zero xs h = absurd (omega arith)
  take-drop-take zero (suc a) zero xs h = absurd (omega arith)
  take-drop-take k a (suc b) [] h = refl
  take-drop-take zero zero (suc b) (x ∷ xs) h = refl
  take-drop-take (suc k) zero (suc b) (x ∷ xs) h =
      ap (λ t. x ∷ t) (take-drop-take k zero b xs (omega arith))
  take-drop-take k (suc a) (suc b) (x ∷ xs) h = take-drop-take k a b xs (omega arith)

  pub take-append_le : (n : ℕ) (xs ys : List A) → n ≤ length xs → take n (xs ++ ys) ≡ take n xs
  take-append_le zero xs ys h = refl
  take-append_le (suc n) [] ys h = elim h [ ]
  take-append_le (suc n) (x ∷ xs) ys h = ap (λ t. x ∷ t) (take-append_le n xs ys (omega arith))

  pub drop-append_le :
      (n : ℕ) (xs ys : List A) → n ≤ length xs → drop n (xs ++ ys) ≡ drop n xs ++ ys
  drop-append_le zero xs ys h = refl
  drop-append_le (suc n) [] ys h = elim h [ ]
  drop-append_le (suc n) (x ∷ xs) ys h = drop-append_le n xs ys (omega arith)

  pub drop_all : (n : ℕ) (xs : List A) → length xs ≤ n → drop n xs ≡ []
  drop_all n [] h = drop-nil n
  drop_all zero (x ∷ xs) h = elim h [ ]
  drop_all (suc n) (x ∷ xs) h = drop_all n xs (omega arith)

  -- Taking in two steps.
  pub take-split :
      (k n : ℕ) (xs : List A) → k ≤ n → take k xs ++ take (n - k) (drop k xs) ≡ take n xs
  take-split zero n xs h = ap (λ t. take t xs) (omega arith)
  take-split (suc k) zero xs h = elim h [ ]
  take-split (suc k) (suc n) [] h = take-nil (suc n - suc k)
  take-split (suc k) (suc n) (x ∷ xs) h =
      ap (λ t. x ∷ t)
        (ap (λ t. take k xs ++ take t (drop k xs)) (omega arith) ∙ take-split k n xs (omega arith))
