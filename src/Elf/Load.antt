-- ===== src/Elf/Load.antt =====
-- The second pass of the loaders of src/elf.c: the pages of a segment, and the loaders themselves.
use cool_os.Prelude.{
  ℕ, zero, suc, ◌+◌, ◌-◌, ◌*◌, ◌/◌, ◌%◌, ◌^◌, Bool, true, false, not, ◌||◌, Option, none, some,
  List, ltb, ◌==◌, if◌then◌else◌, length,
}
use cool_os.Pmm.{page_size, add64, alloc_frame}
use cool_os.Heap.{Run, ok, fault, ◌>>=◌}
use cool_os.Paging.{Machine, store, clear_frame, map_user_page, map_user_page_in}
use cool_os.Elf.{
  user_addr_min, user_addr_max, ehdr_size, Ehdr, Phdr, Info, byte_at, read_ehdr, read_phdr,
  elf_validate_header, is_load, widen, no_bounds, check, find_base,
}

-- One byte of memory, in its word: the byte `k` of a word, and a word with a new one.
unfoldable pub get_byte : ℕ → ℕ → ℕ
get_byte zero w = w % 256
get_byte (suc k) w = get_byte k (w / 256)

unfoldable pub set_byte : ℕ → ℕ → ℕ → ℕ
set_byte zero b w = w / 256 * 256 + b
set_byte (suc k) b w = w % 256 + 256 * set_byte k b (w / 256)

unfoldable pub load_byte : ℕ → Machine → ℕ
load_byte p m = get_byte (p % 8) (m.words (p / 8 * 8))

unfoldable pub store_byte : ℕ → ℕ → Machine → Machine
store_byte p b m = store (p / 8 * 8) (set_byte (p % 8) b (m.words (p / 8 * 8))) m

-- The copying loop, `n` bytes.
unfoldable pub copy : ℕ → List ℕ → ℕ → ℕ → Machine → Run Machine
copy zero file src dst m = ok m
copy (suc n) file src dst m =
    byte_at file src >>= λ b. copy n file (src + 1) (dst + 1) (store_byte dst b m)

-- The part of the file that falls into the page at `vaddr`, copied into its frame.
unfoldable pub copy_page : List ℕ → Phdr → ℕ → ℕ → Machine → Run Machine
copy_page file ph vaddr paddr m =
    let file_end = add64 ph.p_vaddr ph.p_filesz in
    let copy_start = if ltb vaddr ph.p_vaddr then ph.p_vaddr else vaddr in
    let copy_end = if ltb file_end (add64 vaddr 0x1000) then file_end else add64 vaddr 0x1000 in
    if ltb copy_start copy_end
    then copy (copy_end - copy_start) file (add64 ph.p_offset (copy_start - ph.p_vaddr))
        (paddr + (copy_start - vaddr)) m
    else ok m

-- `paging_map_user_page`, or `paging_map_user_page_in` of a table.
abbrev pub Mapper : Type 0
Mapper = ℕ → ℕ → Bool → Bool → Machine → Run (Bool × Machine)

-- One page of a segment. `false` is -1.
unfoldable pub load_page : Mapper → List ℕ → Phdr → ℕ → Machine → Run (Bool × Machine)
load_page map_page file ph vaddr m = elim (alloc_frame m.frames) [
  | none ↦ fault
  | some (paddr, s) ↦
      let m₁ = record m { frames = s } in
      if paddr == 0
      then ok (false, m₁)
      else (map_page vaddr paddr (ph.p_flags / 2 % 2 == 1) (ph.p_flags % 2 == 1)
            (clear_frame paddr m₁)
          >>= λ mapped. elim mapped.0 [
            | false ↦ ok (false, mapped.1)
            | true ↦ copy_page file ph vaddr paddr mapped.1 >>= λ m₂. ok (true, m₂)
          ])
]

-- The pages of a segment: `n` of them from `vaddr` on.
unfoldable pub load_pages : Mapper → List ℕ → Phdr → ℕ → ℕ → Machine → Run (Bool × Machine)
load_pages map_page file ph zero vaddr m = ok (true, m)
load_pages map_page file ph (suc n) vaddr m = load_page map_page file ph vaddr m >>= λ r. elim r.0 [
  | false ↦ ok (false, r.1)
  | true ↦ load_pages map_page file ph n (add64 vaddr 0x1000) r.1
]

abbrev pub page_start : Phdr → ℕ
page_start ph = ph.p_vaddr / page_size * page_size

abbrev pub page_end : Phdr → ℕ
page_end ph = add64 (add64 ph.p_vaddr ph.p_memsz) 0xfff / page_size * page_size

unfoldable pub load_segment : Mapper → List ℕ → Phdr → Machine → Run (Bool × Machine)
load_segment map_page file ph =
    load_pages map_page file ph ((page_end ph - page_start ph) / page_size) (page_start ph)

-- The second pass.
unfoldable pub load_segments : Mapper → List ℕ → Ehdr → ℕ → ℕ → Machine → Run (Bool × Machine)
load_segments map_page file eh zero i m = ok (true, m)
load_segments map_page file eh (suc n) i m = read_phdr file eh i >>= λ ph.
    (if is_load ph then load_segment map_page file ph m else ok (true, m)) >>= λ r. elim r.0 [
      | false ↦ ok (false, r.1)
      | true ↦ load_segments map_page file eh n (i + 1) r.1
    ]

-- `elf_load` and `elf_load_into`, which differ in the function that maps. `none` is -1. The caller
-- passes no NULL.
unfoldable pub load_by : Mapper → List ℕ → Machine → Run (Option Info × Machine)
load_by map_page file m =
    if ltb (length file) ehdr_size
    then ok (none, m)
    else (read_ehdr file >>= λ eh.
        if not (elf_validate_header eh (length file))
        then ok (none, m)
        else (check file eh >>= λ checked. elim checked [
          | none ↦ ok (none, m)
          | some info ↦ load_segments map_page file eh eh.e_phnum 0 m >>= λ r.
              ok (if r.0 then some info else none, r.1)
        ]))

abbrev pub elf_load : List ℕ → Machine → Run (Option Info × Machine)
elf_load = load_by map_user_page

abbrev pub elf_load_into : List ℕ → ℕ → Machine → Run (Option Info × Machine)
elf_load_into file pml4 = load_by (map_user_page_in pml4) file

-- A segment at another address.
abbrev pub moved : ℕ → Phdr → Phdr
moved offset ph = record ph { p_vaddr = add64 ph.p_vaddr offset }

-- The second pass of `elf_load_at`, which checks, counts and loads the moved segments.
unfoldable pub load_at_segment : List ℕ → Phdr → Info → Machine → Run (Option Info × Machine)
load_at_segment file ph info m =
    let seg_end = add64 ph.p_vaddr ph.p_memsz in
    if not (is_load ph)
    then ok (some info, m)
    else if ltb ph.p_vaddr user_addr_min || ltb user_addr_max seg_end
    then ok (none, m)
    else (load_segment map_user_page file ph m >>= λ r.
        ok (if r.0 then some (widen ph.p_vaddr seg_end info) else none, r.1))

unfoldable pub load_moved : List ℕ → Ehdr → ℕ → ℕ → ℕ → Info → Machine → Run (Option Info × Machine)
load_moved file eh offset zero i info m = ok (some info, m)
load_moved file eh offset (suc n) i info m = read_phdr file eh i >>= λ ph.
    load_at_segment file (moved offset ph) info m >>= λ r. elim r.0 [
      | none ↦ ok (none, r.1)
      | some info' ↦ load_moved file eh offset n (i + 1) info' r.1
    ]

-- `elf_load_at`.
unfoldable pub elf_load_at : List ℕ → ℕ → Machine → Run (Option Info × Machine)
elf_load_at file load_addr m =
    if ltb (length file) ehdr_size
    then ok (none, m)
    else (read_ehdr file >>= λ eh.
        if not (elf_validate_header eh (length file))
        then ok (none, m)
        else (find_base file eh eh.e_phnum 0 (false, 2 ^ 64 - 1) >>= λ found. elim found [
          | none ↦ ok (none, m)
          | some (has_load, orig_base) ↦
              let addr_offset = (load_addr + 2 ^ 64 - orig_base) % 2 ^ 64 in
              if not has_load
              then ok (none, m)
              else load_moved file eh addr_offset eh.e_phnum 0
                  (no_bounds (add64 eh.e_entry addr_offset)) m
        ]))
