-- ===== src/Pmm/Frames.antt =====
-- Counting the free frames below a bound, for any set of used frames.
use cool_os.Prelude.{
  ℕ, zero, suc, ◌+◌, ◌≤◌, ◌<◌, ◌≡◌, ◌≢◌, refl, Bool, true, false, arith, if◌then◌else◌, ℕ_discrete,
}

unfoldable pub free_below : (ℕ → Bool) → ℕ → ℕ
free_below p zero = 0
free_below p (suc n) = free_below p n + (if p n then 0 else 1)

pub free_below-le : (p : ℕ → Bool) (n : ℕ) → free_below p n ≤ n
unfolding free_below
free_below-le p zero = omega arith
free_below-le p (suc n) = ground (arith, free_below-le p n)

pub free_below_same :
    (p q : ℕ → Bool) (n : ℕ) → ((g : ℕ) → g < n → q g ≡ p g) → free_below q n ≡ free_below p n
unfolding free_below
free_below_same p q zero same = refl
free_below_same p q (suc n) same =
    ground (arith, same n, free_below_same p q n (λ g h. same g (omega arith)))

-- One frame below the bound that goes from free to used takes one off the count.
pub free_below_take :
    (p q : ℕ → Bool) (f n : ℕ)
    → ((g : ℕ) → g ≢ f → q g ≡ p g)
    → p f ≡ false
    → q f ≡ true
    → f < n
    → free_below q n + 1 ≡ free_below p n
unfolding free_below
free_below_take p q f zero same was now h = elim h [ ]
free_below_take p q f (suc n) same was now h = elim (ℕ_discrete n f) [
  | yes e ↦ ground (arith, free_below_same p q n (λ g below. same g (omega arith)))
  | no ne ↦ ground (arith, same n, free_below_take p q f n same was now)
]

pub free_below-all_used :
    (p : ℕ → Bool) (n : ℕ) → ((g : ℕ) → g < n → p g ≡ true) → free_below p n ≡ 0
unfolding free_below
free_below-all_used p zero h = refl
free_below-all_used p (suc n) h =
    ground (arith, h n, free_below-all_used p n (λ g lt. h g (omega arith)))
