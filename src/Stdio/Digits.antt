-- ===== src/Stdio/Digits.antt =====
-- The digits that user/libc/stdio.c prints, read back.
use cool_os.Prelude.{
  ℕ, zero, suc, ◌+◌, ◌-◌, ◌*◌, ◌/◌, ◌%◌, ◌^◌, ◌≤◌, ◌<◌, ◌≡◌, ◌⊎◌, inl, inr, refl, sym, ap, subst,
  ◌∙◌, Bool, true, false, List, [], ◌∷◌, ltb, ◌==◌, if◌then◌else◌, get_or, arith, Bool-cases, table,
  table-entry,
}
use cool_os.Stdio.{lower_digits, upper_digits, to_digits, uint_to_str}

abbrev pub digit_value : ℕ → ℕ
digit_value c = if ltb c b'A' then c - b'0' else if ltb c b'a' then c - b'A' + 10 else c - b'a' + 10

-- The value of a string of digits behind those that make `acc`.
abbrev pub value : ℕ → ℕ → List ℕ → ℕ
value base acc [] = acc
value base acc (c ∷ s) = value base (acc * base + digit_value c) s

digits_of : Bool → List ℕ
digits_of uppercase = if uppercase then upper_digits else lower_digits

digit_value-get_or :
    (uppercase : Bool) (d : ℕ) → d < 16 → digit_value (get_or (digits_of uppercase) d 0) ≡ d
unfolding table digits_of
digit_value-get_or true d small =
    let h = table-entry 16 (λ i. digit_value (get_or upper_digits i 0) == i) d refl small in
    ground (arith, h)
digit_value-get_or false d small =
    let h = table-entry 16 (λ i. digit_value (get_or lower_digits i 0) == i) d refl small in
    ground (arith, h)

-- What is used of a base.
pub record IsBase (base : ℕ) : Type 0 where
  pub whole : (v : ℕ) → v / base * base + v % base ≡ v
  pub digit : (v : ℕ) → v % base < 16
  pub shrinks : (v : ℕ) → v / base * 2 ≤ v

pub ten-IsBase : IsBase 10
ten-IsBase = record {
  whole = λ v. omega arith;
  digit = λ v. omega arith;
  shrinks = λ v. omega arith;
}

pub sixteen-IsBase : IsBase 16
sixteen-IsBase = record {
  whole = λ v. omega arith;
  digit = λ v. omega arith;
  shrinks = λ v. omega arith;
}

module _ (base : ℕ) (b : IsBase base) (uppercase : Bool) where
  value-to_digits :
      (n v : ℕ) (tail : List ℕ)
      → v < 2 ^ n
      → value base 0 (to_digits n (digits_of uppercase) base v tail) ≡ value base v tail
  unfolding to_digits
  value-to_digits zero v tail small =
      let none_left : v ≡ 0 = omega (arith, small) in rw none_left refl
  value-to_digits (suc n) v tail small = elim (Bool-cases (v == 0)) [
    | inl null ↦
        let none_left : v ≡ 0 = ground (arith, null) in
        rw null (ap (λ x. value base x tail) (sym none_left))
    | inr more ↦
        let half : v / base < 2 ^ n = omega (arith, small, b.shrinks v) in
        let d = digit_value-get_or uppercase (v % base) (b.digit v) in
        rw more (
          value-to_digits n (v / base) (get_or (digits_of uppercase) (v % base) 0 ∷ tail) half
          ∙ ap (λ x. value base x tail) (ap (λ y. v / base * base + y) d ∙ b.whole v))
  ]

-- `uint_to_str` in base 10 or 16 prints digits that read back as its number, in lower or upper case, for
-- every number of 64 bits.
pub value-uint_to_str :
    (base : ℕ) (uppercase : Bool) (v : ℕ)
    → (base ≡ 10) ⊎ (base ≡ 16)
    → v < 2 ^ 64
    → value base 0 (uint_to_str v base uppercase) ≡ v
unfolding uint_to_str digits_of
value-uint_to_str base uppercase v which small = elim (Bool-cases (v == 0)) [
  | inl null ↦
      let none_left : v ≡ 0 = ground (arith, null) in
      let zeros : 0 * base + 0 ≡ v = omega (arith, none_left) in rw null zeros
  | inr more ↦ rw more (value-to_digits base (base_of which) uppercase 64 v [] small)
]
  where
    base_of : (base ≡ 10) ⊎ (base ≡ 16) → IsBase base
    base_of (inl ten) = subst IsBase (sym ten) ten-IsBase
    base_of (inr sixteen) = subst IsBase (sym sixteen) sixteen-IsBase
