-- ===== src/Elf/Memory.antt =====
-- Bytes in the words of memory, and the copying loop of src/elf.c.
use cool_os.Prelude.{
  ℕ, zero, suc, ◌+◌, ◌-◌, ◌*◌, ◌/◌, ◌%◌, ◌≤◌, ◌<◌, ◌≡◌, ◌≢◌, ◌⊎◌, inl, inr, refl, sym, ap, subst,
  ◌∙◌, true, false, not, ◌&&◌, List, [], ◌∷◌, ltb, ◌==◌, length, get_or, arith, Bool-cases,
}
use cool_os.Heap.{ok}
use cool_os.Paging.{Machine, store, clear_frame}
use cool_os.Elf.{byte_at}
use cool_os.Elf.Load.{get_byte, set_byte, load_byte, store_byte, copy}
use cool_os.Elf.Words.{IsBytes}

get_byte-set_byte : (k b w : ℕ) → b < 256 → get_byte k (set_byte k b w) ≡ b
unfolding get_byte set_byte
get_byte-set_byte zero b w small = omega (arith, small)
get_byte-set_byte (suc k) b w small =
    let rest : (w % 256 + 256 * set_byte k b (w / 256)) / 256 ≡ set_byte k b (w / 256) =
      omega arith in
    rw rest (get_byte-set_byte k b (w / 256) small)

get_byte-set_other : (j k b w : ℕ) → b < 256 → j ≢ k → get_byte j (set_byte k b w) ≡ get_byte j w
unfolding get_byte set_byte
get_byte-set_other zero zero b w small other = absurd (other refl)
get_byte-set_other (suc j) zero b w small other =
    let rest : (w / 256 * 256 + b) / 256 ≡ w / 256 = omega (arith, small) in rw rest refl
get_byte-set_other zero (suc k) b w small other = omega arith
get_byte-set_other (suc j) (suc k) b w small other =
    let rest : (w % 256 + 256 * set_byte k b (w / 256)) / 256 ≡ set_byte k b (w / 256) =
      omega arith in
    rw rest (get_byte-set_other j k b (w / 256) small (λ same. other (ap suc same)))

get_byte-zero : (k : ℕ) → get_byte k 0 ≡ 0
unfolding get_byte
get_byte-zero zero = refl
get_byte-zero (suc k) = get_byte-zero k

-- A byte that is stored is read back, and the others stay.
pub load_byte-store_byte : (p b : ℕ) (m : Machine) → b < 256 → load_byte p (store_byte p b m) ≡ b
unfolding load_byte store_byte store
load_byte-store_byte p b m small =
    let same : (p / 8 * 8 == p / 8 * 8) ≡ true = ground arith in
    rw same (get_byte-set_byte (p % 8) b (m.words (p / 8 * 8)) small)

pub load_byte-store_other :
    (p q b : ℕ) (m : Machine) → b < 256 → q ≢ p → load_byte q (store_byte p b m) ≡ load_byte q m
unfolding load_byte store_byte store
load_byte-store_other p q b m small other = elim (Bool-cases (q / 8 * 8 == p / 8 * 8)) [
  | inl same ↦
      let word : q / 8 * 8 ≡ p / 8 * 8 = ground (arith, same) in
      let apart : q % 8 ≢ p % 8 = λ rest. other (omega (arith, word, rest)) in
      rw same (
        get_byte-set_other (q % 8) (p % 8) b (m.words (p / 8 * 8)) small apart
        ∙ ap (λ a. get_byte (q % 8) (m.words a)) (sym word))
  | inr far ↦ rw far refl
]

pub load_byte-clear_frame :
    (p q : ℕ) (m : Machine) → p % 8 ≡ 0 → p ≤ q → q < p + 4096 → load_byte q (clear_frame p m) ≡ 0
unfolding load_byte clear_frame
load_byte-clear_frame p q m aligned above below =
    let inside : not (ltb (q / 8 * 8) p) && ltb (q / 8 * 8) (p + 4096) ≡ true =
      ground (arith, aligned) in
    rw inside (get_byte-zero (q % 8))

pub load_byte-clear_other :
    (p q : ℕ) (m : Machine)
    → p % 8 ≡ 0
    → (q < p) ⊎ (p + 4096 ≤ q)
    → load_byte q (clear_frame p m) ≡ load_byte q m
unfolding load_byte clear_frame
load_byte-clear_other p q m aligned outside =
    let apart : not (ltb (q / 8 * 8) p) && ltb (q / 8 * 8) (p + 4096) ≡ false =
      ground (arith, aligned, outside) in
    rw apart refl

byte_at-in : (file : List ℕ) (i : ℕ) → i < length file → byte_at file i ≡ ok (get_or file i 0)
unfolding byte_at
byte_at-in [] i under = absurd (omega (arith, under))
byte_at-in (b ∷ file) zero under = refl
byte_at-in (b ∷ file) (suc i) under = byte_at-in file i (omega (arith, under))

get_or-small : (file : List ℕ) (i : ℕ) → IsBytes file → get_or file i 0 < 256
get_or-small [] i bytes = omega arith
get_or-small (b ∷ file) zero bytes = bytes 0 b refl
get_or-small (b ∷ file) (suc i) bytes = get_or-small file i (λ k c e. bytes (suc k) c e)

-- `n` bytes of the file from `src` on stand in memory from `dst` on, over what was there.
pub record Copied (file : List ℕ) (n src dst : ℕ) (m m' : Machine) : Type 0 where
  pub inside : (q : ℕ) → dst ≤ q → q < dst + n → load_byte q m' ≡ get_or file (src + (q - dst)) 0
  pub outside : (q : ℕ) → (q < dst) ⊎ (dst + n ≤ q) → load_byte q m' ≡ load_byte q m

module _ (file : List ℕ) (bytes : IsBytes file) where
  pub copy-Copied :
      (n src dst : ℕ) (m : Machine)
      → src + n ≤ length file
      → (m' : Machine) × (copy n file src dst m ≡ ok m') × Copied file n src dst m m'
  unfolding copy
  copy-Copied zero src dst m enough = (
    m,
    refl,
    record {
      inside = λ q above below. absurd (omega (arith, above, below));
      outside = λ q out. refl;
    },
  )
  copy-Copied (suc n) src dst m enough =
      let b = get_or file src 0 in
      let small = get_or-small file src bytes in
      let rest = copy-Copied n (src + 1) (dst + 1) (store_byte dst b m) (omega (arith, enough)) in
      (
        rest.0,
        rw (byte_at-in file src (omega (arith, enough))) rest.1,
        record {
          inside = λ q above below. elim (Bool-cases (q == dst)) [
            | inl here ↦
                let same : q ≡ dst = ground (arith, here) in
                let found =
                  rest.2.outside dst (inl (omega arith)) ∙ load_byte-store_byte dst b m small in
                let at : src ≡ src + (dst - dst) = omega arith in
                subst (λ p. load_byte p rest.0 ≡ get_or file (src + (p - dst)) 0) (sym same)
                  (found ∙ ap (λ i. get_or file i 0) at)
            | inr further ↦
                let at : src + 1 + (q - (dst + 1)) ≡ src + (q - dst) = ground (arith, further) in
                rest.2.inside q (ground (arith, further)) (omega (arith, below))
                ∙ ap (λ i. get_or file i 0) at
          ];
          outside = λ q out.
              rest.2.outside q (ground (arith, out))
              ∙ load_byte-store_other dst q b m small (λ same. ground (arith, out, same));
        },
      )
