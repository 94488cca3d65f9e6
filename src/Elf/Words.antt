-- ===== src/Elf/Words.antt =====
-- The numbers that src/elf.c reads from a file of bytes.
use cool_os.Prelude.{
  ℕ, zero, suc, ◌+◌, ◌*◌, ◌^◌, ◌<◌, ◌≡◌, refl, subst, Bool, true, false, ◌&&◌, Option, none, some,
  List, [], ◌∷◌, ltb, get_elem?, arith,
}
use cool_os.Heap.{ok, ◌>>=◌}
use cool_os.Heap.Outcome.{bind-ok, ok-injective}
use cool_os.Elf.{Phdr, byte_at, read_le, read_phdr_at}

abbrev pub IsBytes : List ℕ → Type 0
IsBytes file = (i b : ℕ) → get_elem? file i ≡ some b → b < 256

abbrev pub all_bytes : List ℕ → Bool
all_bytes [] = true
all_bytes (b ∷ file) = ltb b 256 && all_bytes file

and_left : (a b : Bool) → a && b ≡ true → (a ≡ true) × (b ≡ true)
and_left true b h = (refl, h)
and_left false b h = absurd cc

pub IsBytes-all : (file : List ℕ) → all_bytes file ≡ true → IsBytes file
IsBytes-all [] h i b e = absurd cc
IsBytes-all (x ∷ file) h zero b e =
    let same : x ≡ b = cc in ground (arith, same, (and_left (ltb x 256) (all_bytes file) h).0)
IsBytes-all (x ∷ file) h (suc i) b e =
    IsBytes-all file (and_left (ltb x 256) (all_bytes file) h).1 i b e

-- Numbers read from the file fit.
byte_at-fits : (file : List ℕ) (i b : ℕ) → IsBytes file → byte_at file i ≡ ok b → b < 256
unfolding byte_at
byte_at-fits file i b bytes h = by_elem (get_elem? file i) refl
  where
    by_elem : (o : Option ℕ) → get_elem? file i ≡ o → b < 256
    by_elem none e = absurd cc
    by_elem (some c) e = bytes i b cc

read_le-fits :
    (n : ℕ) (file : List ℕ) (i v : ℕ) → IsBytes file → read_le n file i ≡ ok v → v < 256 ^ n
unfolding read_le
read_le-fits zero file i v bytes h = let same : 0 ≡ v = cc in omega (arith, same)
read_le-fits (suc n) file i v bytes h =
    let first =
      bind-ok (byte_at file i) (λ b. read_le n file (i + 1) >>= λ rest. ok (b + 256 * rest)) v h in
    let rest = bind-ok (read_le n file (i + 1)) (λ r. ok (first.0 + 256 * r)) v first.2 in
    let same : first.0 + 256 * rest.0 ≡ v = cc in
    omega (
      arith,
      same,
      byte_at-fits file i first.0 bytes first.1,
      read_le-fits n file (i + 1) rest.0 bytes rest.1,
    )

-- A program header that was read.
pub record Fits (ph : Phdr) : Type 0 where
  pub vaddr : ph.p_vaddr < 2 ^ 64
  pub filesz : ph.p_filesz < 2 ^ 64
  pub memsz : ph.p_memsz < 2 ^ 64
  pub offset : ph.p_offset < 2 ^ 64

pub read_phdr_at-Fits :
    (file : List ℕ) (at : ℕ) (ph : Phdr) → IsBytes file → read_phdr_at file at ≡ ok ph → Fits ph
unfolding read_phdr_at
read_phdr_at-Fits file at ph bytes h =
    let type = bind-ok (read_le 4 file at) _ ph h in
    let flags = bind-ok (read_le 4 file (at + 4)) _ ph type.2 in
    let offset = bind-ok (read_le 8 file (at + 8)) _ ph flags.2 in
    let vaddr = bind-ok (read_le 8 file (at + 16)) _ ph offset.2 in
    let filesz = bind-ok (read_le 8 file (at + 32)) _ ph vaddr.2 in
    let memsz = bind-ok (read_le 8 file (at + 40)) _ ph filesz.2 in
    subst Fits (ok-injective _ ph memsz.2) (record {
      vaddr = omega (arith, read_le-fits 8 file (at + 16) vaddr.0 bytes vaddr.1);
      filesz = omega (arith, read_le-fits 8 file (at + 32) filesz.0 bytes filesz.1);
      memsz = omega (arith, read_le-fits 8 file (at + 40) memsz.0 bytes memsz.1);
      offset = omega (arith, read_le-fits 8 file (at + 8) offset.0 bytes offset.1);
    })
