-- ===== src/Elf.antt =====
-- The ELF loader, src/elf.c: the checks of the headers, and the segments copied into new frames that
-- the page tables map. A pointer through the HHDM stands for its physical address.
pub mod Load
pub mod Words
pub mod Bounds
pub mod Image
pub mod Memory
mod Tests
use cool_os.Prelude.{
  ℕ, zero, suc, ◌+◌, ◌-◌, ◌*◌, ◌/◌, ◌%◌, ◌^◌, Bool, true, false, not, ◌&&◌, ◌||◌, Option, none,
  some, List, [], ◌∷◌, ltb, leb, ◌==◌, if◌then◌else◌, length, get_elem?,
}
use cool_os.Pmm.{Pmm, page_size, add64, alloc_frame}
use cool_os.Heap.{Run, ok, fault, ◌>>=◌}
use cool_os.Paging.{Machine, store, clear_frame, map_user_page, map_user_page_in}

abbrev pub user_addr_min : ℕ
user_addr_min = 0x10000

abbrev pub user_addr_max : ℕ
user_addr_max = 0x7fff_ffff_ffff

-- `sizeof(Elf64_Ehdr)`.
abbrev pub ehdr_size : ℕ
ehdr_size = 64

-- The fields of `Elf64_Ehdr` that are read; `e_ident` is its first six bytes.
pub record Ehdr : Type 0 where
  pub e_ident : List ℕ
  pub e_type : ℕ
  pub e_machine : ℕ
  pub e_entry : ℕ
  pub e_phoff : ℕ
  pub e_phentsize : ℕ
  pub e_phnum : ℕ

-- The fields of `Elf64_Phdr` that are read.
pub record Phdr : Type 0 where
  pub p_type : ℕ
  pub p_flags : ℕ
  pub p_offset : ℕ
  pub p_vaddr : ℕ
  pub p_filesz : ℕ
  pub p_memsz : ℕ

-- `elf_info_t`.
pub record Info : Type 0 where
  pub entry : ℕ
  pub load_base : ℕ
  pub load_end : ℕ

-- A byte of the file; a read past its end is a fault.
unfoldable pub byte_at : List ℕ → ℕ → Run ℕ
byte_at file i = elim (get_elem? file i) [ none ↦ fault | some b ↦ ok b ]

-- A little-endian number of `n` bytes.
unfoldable pub read_le : ℕ → List ℕ → ℕ → Run ℕ
read_le zero file i = ok 0
read_le (suc n) file i =
    byte_at file i >>= λ b. read_le n file (i + 1) >>= λ rest. ok (b + 256 * rest)

unfoldable pub read_ident : ℕ → List ℕ → ℕ → Run (List ℕ)
read_ident zero file i = ok []
read_ident (suc n) file i =
    byte_at file i >>= λ b. read_ident n file (i + 1) >>= λ rest. ok (b ∷ rest)

unfoldable pub read_ehdr : List ℕ → Run Ehdr
read_ehdr file = do
  ident ← read_ident 6 file 0
  type ← read_le 2 file 16
  machine ← read_le 2 file 18
  entry ← read_le 8 file 24
  phoff ← read_le 8 file 32
  phentsize ← read_le 2 file 54
  phnum ← read_le 2 file 56
  ok (record {
    e_ident = ident;
    e_type = type;
    e_machine = machine;
    e_entry = entry;
    e_phoff = phoff;
    e_phentsize = phentsize;
    e_phnum = phnum;
  })

-- The program header at an offset in the file.
unfoldable pub read_phdr_at : List ℕ → ℕ → Run Phdr
read_phdr_at file at = do
  type ← read_le 4 file at
  flags ← read_le 4 file (at + 4)
  offset ← read_le 8 file (at + 8)
  vaddr ← read_le 8 file (at + 16)
  filesz ← read_le 8 file (at + 32)
  memsz ← read_le 8 file (at + 40)
  ok (record {
    p_type = type;
    p_flags = flags;
    p_offset = offset;
    p_vaddr = vaddr;
    p_filesz = filesz;
    p_memsz = memsz;
  })

abbrev pub read_phdr : List ℕ → Ehdr → ℕ → Run Phdr
read_phdr file eh i = read_phdr_at file (eh.e_phoff + i * eh.e_phentsize)

abbrev pub same_bytes : List ℕ → List ℕ → Bool
same_bytes [] [] = true
same_bytes [] (y ∷ ys) = false
same_bytes (x ∷ xs) [] = false
same_bytes (x ∷ xs) (y ∷ ys) = x == y && same_bytes xs ys

-- `elf_validate_header`: whether it returns 0.
unfoldable pub elf_validate_header : Ehdr → ℕ → Bool
elf_validate_header eh file_size =
    same_bytes eh.e_ident (0x7f ∷ b'E' ∷ b'L' ∷ b'F' ∷ 2 ∷ 1 ∷ [])
    && (eh.e_type == 2 || eh.e_type == 3)
    && eh.e_machine == 62
    && not (eh.e_phoff == 0 || eh.e_phnum == 0)
    && leb (add64 eh.e_phoff (eh.e_phnum * eh.e_phentsize)) file_size

-- `elf_validate_segment`.
unfoldable pub elf_validate_segment : Phdr → Bool
elf_validate_segment ph =
    let seg_end = add64 ph.p_vaddr ph.p_memsz in
    leb ph.p_filesz ph.p_memsz
    && leb user_addr_min ph.p_vaddr
    && leb seg_end user_addr_max
    && leb ph.p_vaddr seg_end

-- `p_type == PT_LOAD` with memory to fill.
abbrev pub is_load : Phdr → Bool
is_load ph = ph.p_type == 1 && not (ph.p_memsz == 0)

abbrev pub in_file : ℕ → Phdr → Bool
in_file size ph = leb (add64 ph.p_offset ph.p_filesz) size

-- The bounds with a segment from `lo` to `hi`.
abbrev pub widen : ℕ → ℕ → Info → Info
widen lo hi info = record info {
  load_base = if ltb lo info.load_base then lo else info.load_base;
  load_end = if ltb info.load_end hi then hi else info.load_end;
}

-- What a header adds to `has_load` and the bounds. `none` is -1.
unfoldable pub scan_segment : ℕ → Phdr → Bool × Info → Option (Bool × Info)
scan_segment size ph (has_load, info) =
    if not (is_load ph)
    then some (has_load, info)
    else if elf_validate_segment ph && in_file size ph
    then some (true, widen ph.p_vaddr (add64 ph.p_vaddr ph.p_memsz) info)
    else none

-- The first pass of `elf_load` and `elf_load_into` over `n` headers from `i` on.
unfoldable pub scan : List ℕ → Ehdr → ℕ → ℕ → Bool × Info → Run (Option (Bool × Info))
scan file eh zero i found = ok (some found)
scan file eh (suc n) i found = read_phdr file eh i >>= λ ph.
    elim (scan_segment (length file) ph found) [
      | none ↦ ok none
      | some found' ↦ scan file eh n (i + 1) found'
    ]

-- `info->load_base = ~0ULL; info->load_end = 0`.
abbrev pub no_bounds : ℕ → Info
no_bounds entry = record { entry = entry; load_base = 2 ^ 64 - 1; load_end = 0 }

-- The first pass with the checks after it: what is loaded, or `none` for -1.
unfoldable pub check : List ℕ → Ehdr → Run (Option Info)
check file eh = scan file eh eh.e_phnum 0 (false, no_bounds eh.e_entry) >>= λ r. elim r [
  | none ↦ ok none
  | some (has_load, info) ↦ ok (
      if has_load && leb info.load_base info.entry && ltb info.entry info.load_end
      then some info
      else none)
]

-- The first pass of `elf_load_at`: `has_load` and the lowest address.
unfoldable pub base_segment : ℕ → Phdr → Bool × ℕ → Option (Bool × ℕ)
base_segment size ph (has_load, base) =
    if not (is_load ph)
    then some (has_load, base)
    else if in_file size ph
    then some (true, if ltb ph.p_vaddr base then ph.p_vaddr else base)
    else none

unfoldable pub find_base : List ℕ → Ehdr → ℕ → ℕ → Bool × ℕ → Run (Option (Bool × ℕ))
find_base file eh zero i found = ok (some found)
find_base file eh (suc n) i found = read_phdr file eh i >>= λ ph.
    elim (base_segment (length file) ph found) [
      | none ↦ ok none
      | some found' ↦ find_base file eh n (i + 1) found'
    ]
