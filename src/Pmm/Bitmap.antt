-- ===== src/Pmm/Bitmap.antt =====
-- The bitmap helpers of src/pmm.c, on the bytes of the bitmap: one bit for each page frame, set
-- while the frame is in use.
use cool_os.Prelude.{
  ℕ, zero, suc, ◌-◌, ◌*◌, ◌/◌, ◌%◌, ◌^◌, ◌<◌, ◌≡◌, refl, ap, ◌∙◌, Bool, true, false, ◌&&◌, ◌||◌,
  List, [], ◌∷◌, arith, ltb, ◌==◌, get_or, set, length, length-set, get_or-set_self, get_or-set_ne,
  bit_and, bit_or, table, table-entry, All, same, not, ℕ_discrete, replicate,
}

-- Bit `k` of a byte, set, cleared and read. `~` works on a 32-bit `int`, and the store keeps the
-- low byte.
byte_set : ℕ → ℕ → ℕ
byte_set b k = bit_or b (2 ^ k)

byte_clear : ℕ → ℕ → ℕ
byte_clear b k = bit_and b (2 ^ 32 - 1 - 2 ^ k) % 256

byte_test : ℕ → ℕ → Bool
byte_test b k = bit_and (b / 2 ^ k) 1 == 1

unfoldable pub bitmap_set : List ℕ → ℕ → List ℕ
unfolding byte_set
bitmap_set m frame = set m (frame / 8) (byte_set (get_or m (frame / 8) 0) (frame % 8))

unfoldable pub bitmap_clear : List ℕ → ℕ → List ℕ
unfolding byte_clear
bitmap_clear m frame = set m (frame / 8) (byte_clear (get_or m (frame / 8) 0) (frame % 8))

unfoldable pub bitmap_test : List ℕ → ℕ → Bool
unfolding byte_test
bitmap_test m frame = byte_test (get_or m (frame / 8) 0) (frame % 8)

bit_cell : ℕ → ℕ → ℕ → Bool
bit_cell b k j =
    same (byte_test (byte_set b k) j) (k == j || byte_test b j)
    && same (byte_test (byte_clear b k) j) (not (k == j) && byte_test b j)

byte_row : ℕ → ℕ → Bool
byte_row b k =
    ltb (byte_set b k) 256
    && ltb (byte_clear b k) 256
    && (byte_test b k || byte_clear (byte_set b k) k == b)
    && table 8 (bit_cell b k)

byte_table : Bool
byte_table = table 256 (λ b. table 8 (byte_row b))

byte_table_holds : byte_table ≡ true
unfolding byte_table byte_row bit_cell table byte_set byte_clear byte_test
byte_table_holds = refl

module _ (b k : ℕ) (hb : b < 256) (hk : k < 8) where
  byte_row_holds : byte_row b k ≡ true
  unfolding byte_table
  byte_row_holds =
      table-entry 8 (byte_row b) k
        (table-entry 256 (λ b. table 8 (byte_row b)) b byte_table_holds hb) hk

  byte_set-lt : byte_set b k < 256
  unfolding byte_row
  byte_set-lt = ground (arith, byte_row_holds)

  byte_clear-lt : byte_clear b k < 256
  unfolding byte_row
  byte_clear-lt = ground (arith, byte_row_holds)

  byte_clear-byte_set : byte_test b k ≡ false → byte_clear (byte_set b k) k ≡ b
  unfolding byte_row
  byte_clear-byte_set e = ground (arith, byte_row_holds)

  bit_cell_holds : (j : ℕ) → j < 8 → bit_cell b k j ≡ true
  unfolding byte_row
  bit_cell_holds j hj = ground (arith, byte_row_holds, table-entry 8 (bit_cell b k) j)

  byte_test-byte_set : (j : ℕ) → j < 8 → byte_test (byte_set b k) j ≡ (k == j || byte_test b j)
  unfolding bit_cell
  byte_test-byte_set j hj = ground (arith, bit_cell_holds j hj)

  byte_test-byte_clear :
      (j : ℕ) → j < 8 → byte_test (byte_clear b k) j ≡ (not (k == j) && byte_test b j)
  unfolding bit_cell
  byte_test-byte_clear j hj = ground (arith, bit_cell_holds j hj)

abbrev pub IsByte : ℕ → Type 0
IsByte b = b < 256

get_or-lt : (m : List ℕ) (i : ℕ) → All IsByte m → get_or m i 0 < 256
get_or-lt [] i h = omega arith
get_or-lt (b ∷ m) zero h = h.0
get_or-lt (b ∷ m) (suc i) h = get_or-lt m i h.1

set-All : (m : List ℕ) (i b : ℕ) → All IsByte m → b < 256 → All IsByte (set m i b)
set-All [] i b h p = tt
set-All (c ∷ m) zero b h p = (p, h.1)
set-All (c ∷ m) (suc i) b h p = (h.0, set-All m i b h.1 p)

set-get_or_self : (m : List ℕ) (i : ℕ) → set m i (get_or m i 0) ≡ m
set-get_or_self [] i = refl
set-get_or_self (b ∷ m) zero = refl
set-get_or_self (b ∷ m) (suc i) = ap (λ t. b ∷ t) (set-get_or_self m i)

set-set : (m : List ℕ) (i a b : ℕ) → set (set m i a) i b ≡ set m i b
set-set [] i a b = refl
set-set (c ∷ m) zero a b = refl
set-set (c ∷ m) (suc i) a b = ap (λ t. c ∷ t) (set-set m i a b)

pub length-bitmap_set : (m : List ℕ) (f : ℕ) → length (bitmap_set m f) ≡ length m
unfolding bitmap_set
length-bitmap_set m f = length-set m (f / 8) _

pub length-bitmap_clear : (m : List ℕ) (f : ℕ) → length (bitmap_clear m f) ≡ length m
unfolding bitmap_clear
length-bitmap_clear m f = length-set m (f / 8) _

module _ (m : List ℕ) (f : ℕ) (bytes : All IsByte m) where
  pub bitmap_set-All : All IsByte (bitmap_set m f)
  unfolding bitmap_set
  bitmap_set-All =
      set-All m (f / 8) _ bytes
        (byte_set-lt (get_or m (f / 8) 0) (f % 8) (get_or-lt m (f / 8) bytes) (omega arith))

  pub bitmap_clear-All : All IsByte (bitmap_clear m f)
  unfolding bitmap_clear
  bitmap_clear-All =
      set-All m (f / 8) _ bytes
        (byte_clear-lt (get_or m (f / 8) 0) (f % 8) (get_or-lt m (f / 8) bytes) (omega arith))

  module _ (covered : f < 8 * length m) where
    -- Setting a bit changes that frame, and no other.
    pub bitmap_test-bitmap_set :
        (g : ℕ) → bitmap_test (bitmap_set m f) g ≡ (f == g || bitmap_test m g)
    unfolding bitmap_test bitmap_set
    bitmap_test-bitmap_set g = elim (ℕ_discrete (f / 8) (g / 8)) [
      | yes e ↦
          rw
            (
              ← e,
              get_or-set_self m (f / 8) _ 0 (omega arith),
              byte_test-byte_set (get_or m (f / 8) 0) (f % 8) (get_or-lt m (f / 8) bytes)
                  (omega arith) (g % 8) (omega arith),
            )
            (ground arith)
      | no ne ↦ rw (get_or-set_ne m (f / 8) (g / 8) _ 0 ne) (ground arith)
    ]

    pub bitmap_test-bitmap_clear :
        (g : ℕ) → bitmap_test (bitmap_clear m f) g ≡ (not (f == g) && bitmap_test m g)
    unfolding bitmap_test bitmap_clear
    bitmap_test-bitmap_clear g = elim (ℕ_discrete (f / 8) (g / 8)) [
      | yes e ↦
          rw
            (
              ← e,
              get_or-set_self m (f / 8) _ 0 (omega arith),
              byte_test-byte_clear (get_or m (f / 8) 0) (f % 8) (get_or-lt m (f / 8) bytes)
                  (omega arith) (g % 8) (omega arith),
            )
            (ground arith)
      | no ne ↦ rw (get_or-set_ne m (f / 8) (g / 8) _ 0 ne) (ground arith)
    ]

    pub bitmap_clear-bitmap_set : bitmap_test m f ≡ false → bitmap_clear (bitmap_set m f) f ≡ m
    unfolding bitmap_test bitmap_set bitmap_clear
    bitmap_clear-bitmap_set e =
        rw
          (
            get_or-set_self m (f / 8) (byte_set (get_or m (f / 8) 0) (f % 8)) 0 (omega arith),
            byte_clear-byte_set (get_or m (f / 8) 0) (f % 8) (get_or-lt m (f / 8) bytes)
                (omega arith) e,
          )
          (set-set m (f / 8) _ _ ∙ set-get_or_self m (f / 8))

full_byte : (k : ℕ) → k < 8 → byte_test 0xff k ≡ true
unfolding byte_test table
full_byte k h = table-entry 8 (byte_test 0xff) k refl h

get_or-replicate : (n i b : ℕ) → i < n → get_or (replicate n b) i 0 ≡ b
get_or-replicate zero i b h = elim h [ ]
get_or-replicate (suc n) zero b h = refl
get_or-replicate (suc n) (suc i) b h = get_or-replicate n i b (omega arith)

pub bitmap_test-replicate : (n f : ℕ) → f < 8 * n → bitmap_test (replicate n 0xff) f ≡ true
unfolding bitmap_test
bitmap_test-replicate n f h =
    rw (get_or-replicate n (f / 8) 0xff (omega arith)) (full_byte (f % 8) (omega arith))

pub replicate-All : (n : ℕ) → All IsByte (replicate n 0xff)
replicate-All zero = tt
replicate-All (suc n) = (omega arith, replicate-All n)
