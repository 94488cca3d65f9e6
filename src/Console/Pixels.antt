-- ===== src/Console/Pixels.antt =====
-- Offsets of pixels in the buffers of src/console.c.
use cool_os.Prelude.{ℕ, zero, suc, ◌+◌, ◌*◌, ◌≤◌, ◌<◌, ◌≡◌, ◌≢◌, refl, ap, arith}
use cool_os.Console.{Buffer, store32}

-- The offset of the pixel in row `y` and column `x`.
abbrev pub pixel : ℕ → ℕ → ℕ → ℕ
pixel p y x = y * p + x * 4

pub suc_mul : (y p : ℕ) → suc y * p ≡ y * p + p
suc_mul y p = grind arith

pub mul_mono : (a b p : ℕ) → a ≤ b → a * p ≤ b * p
mul_mono a b p h = grind arith

pub add_mul : (a b p : ℕ) → (a + b) * p ≡ a * p + b * p
add_mul a b p = grind arith

pub mul_four : (a s : ℕ) → a * (s * 4) ≡ a * s * 4
mul_four a s = grind arith

pub mul_sixteen : (a p : ℕ) → a * 16 * p ≡ a * p * 16
mul_sixteen a p = grind arith

-- Rows do not overlap.
pub row_unique : (p y y' b b' : ℕ) → b < p → b' < p → y * p + b ≡ y' * p + b' → (y ≡ y') × (b ≡ b')
row_unique p zero zero b b' h h' e = (refl, omega arith)
row_unique p zero (suc y') b b' h h' e = absurd (omega (arith, suc_mul y' p))
row_unique p (suc y) zero b b' h h' e = absurd (omega (arith, suc_mul y p))
row_unique p (suc y) (suc y') b b' h h' e =
    let rest = row_unique p y y' b b' h h' (omega (arith, suc_mul y p, suc_mul y' p)) in
    (ap suc rest.0, rest.1)

pub store32_self : (o v : ℕ) (b : Buffer) → store32 o v b o ≡ v
unfolding store32
store32_self o v b = ground arith

pub store32_other : (o v q : ℕ) (b : Buffer) → q ≢ o → store32 o v b q ≡ b q
unfolding store32
store32_other o v q b h = ground (arith, h)
