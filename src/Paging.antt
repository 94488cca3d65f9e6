-- ===== src/Paging.antt =====
-- The page tables, src/paging.c: four levels of tables in physical memory, in frames from the
-- allocator. A pointer through the HHDM stands for its physical address.
pub mod Free
pub mod Clone
mod Tests
use cool_os.Prelude.{
  ℕ, zero, suc, ◌+◌, ◌*◌, ◌/◌, ◌%◌, ◌^◌, Bool, true, false, not, ◌&&◌, Option, none, some, ltb,
  ◌==◌, if◌then◌else◌, bit_or,
}
use cool_os.Pmm.{Pmm, page_size, alloc_frame, free_frame}
use cool_os.Heap.{Run, ok, fault, ◌>>=◌}

-- The 64-bit words of memory by their physical addresses, the frames, and two registers: the page
-- table in use, and the one that the kernel booted with.
pub record Machine : Type 0 where
  pub words : ℕ → ℕ
  pub frames : Pmm
  pub cr3 : ℕ
  pub kernel_cr3 : ℕ

-- The flags of an entry.
abbrev pub pte_present : ℕ
pte_present = 1

abbrev pub pte_writable : ℕ
pte_writable = 2

abbrev pub pte_user : ℕ
pte_user = 4

abbrev pub pte_nx : ℕ
pte_nx = 2 ^ 63

abbrev pub is_present : ℕ → Bool
is_present w = w % 2 == 1

abbrev pub is_user : ℕ → Bool
is_user w = w / 4 % 2 == 1

abbrev pub is_huge : ℕ → Bool
is_huge w = w / 128 % 2 == 1

-- `w & PTE_ADDR_MASK`: bits 12 to 51.
abbrev pub address : ℕ → ℕ
address w = w / 4096 % 2 ^ 40 * 4096

-- `PML4_INDEX` and the others: nine bits for each level.
abbrev pub index : ℕ → ℕ → ℕ
index level va = va / (4096 * 512 ^ level) % 512

abbrev pub slot : ℕ → ℕ → ℕ
slot table i = table + 8 * i

unfoldable pub store : ℕ → ℕ → Machine → Machine
store p w m = record m { words = λ q. if q == p then w else m.words q }

-- The loop that clears a frame.
unfoldable pub clear_frame : ℕ → Machine → Machine
clear_frame table m = record m {
  words = λ q. if not (ltb q table) && ltb q (table + page_size) then 0 else m.words q;
}

-- `paging_init`.
abbrev pub paging_init : Machine → Machine
paging_init m = record m { kernel_cr3 = address m.cr3 }

-- `alloc_page_table`: `none` is NULL, and a panic of the allocator is a fault.
unfoldable pub alloc_page_table : Machine → Run (Option ℕ × Machine)
alloc_page_table m = elim (alloc_frame m.frames) [
  | none ↦ fault
  | some (phys, s) ↦
      let m' = record m { frames = s } in
      if phys == 0 then ok (none, m') else ok (some phys, clear_frame phys m')
]

abbrev pub inter_flags : ℕ → ℕ
inter_flags flags = if is_user flags then bit_or 3 pte_user else 3

-- One level of `paging_map_page_in`: the table behind an entry, made if there is none. `none` is -1.
unfoldable pub descend : ℕ → ℕ → Machine → Run (Option ℕ × Machine)
descend entry flags m =
    let w = m.words entry in
    if is_present w
    then (let w' = if is_user flags then bit_or w pte_user else w in
        ok (some (address w'), store entry w' m))
    else (alloc_page_table m >>= λ r. elim r.0 [
      | none ↦ ok (none, r.1)
      | some table ↦
          let w' = bit_or table (inter_flags flags) in ok (some (address w'), store entry w' r.1)
    ])

-- The levels below the first refuse an entry that stands for a huge page.
unfoldable pub descend_small : ℕ → ℕ → Machine → Run (Option ℕ × Machine)
descend_small entry flags m =
    if is_huge (m.words entry) then ok (none, m) else descend entry flags m

-- `paging_map_page_in`: whether it succeeds. The flush of the translation buffer is left out.
unfoldable pub map_page_in : ℕ → ℕ → ℕ → ℕ → Machine → Run (Bool × Machine)
map_page_in pml4 vaddr paddr flags m = descend (slot pml4 (index 3 vaddr)) flags m >>= λ r3.
    elim r3.0 [
      | none ↦ ok (false, r3.1)
      | some pdpt ↦ descend_small (slot pdpt (index 2 vaddr)) flags r3.1 >>= λ r2. elim r2.0 [
        | none ↦ ok (false, r2.1)
        | some pd ↦ descend_small (slot pd (index 1 vaddr)) flags r2.1 >>= λ r1. elim r1.0 [
          | none ↦ ok (false, r1.1)
          | some pt ↦ ok (true, store (slot pt (index 0 vaddr)) (bit_or (address paddr) flags) r1.1)
        ]
      ]
    ]

abbrev pub map_page : ℕ → ℕ → ℕ → Machine → Run (Bool × Machine)
map_page vaddr paddr flags m = map_page_in (address m.cr3) vaddr paddr flags m

abbrev pub user_flags : Bool → Bool → ℕ
user_flags writable executable =
    let flags = bit_or pte_present pte_user in
    let flags' = if writable then bit_or flags pte_writable else flags in
    if executable then flags' else bit_or flags' pte_nx

abbrev pub map_user_page_in : ℕ → ℕ → ℕ → Bool → Bool → Machine → Run (Bool × Machine)
map_user_page_in pml4 vaddr paddr writable executable =
    map_page_in pml4 vaddr paddr (user_flags writable executable)

abbrev pub map_user_page : ℕ → ℕ → Bool → Bool → Machine → Run (Bool × Machine)
map_user_page vaddr paddr writable executable =
    map_page vaddr paddr (user_flags writable executable)

-- `paging_clone_kernel_mappings`, over the entries from `i` on.
unfoldable pub clone_from : ℕ → ℕ → ℕ → Machine → Machine
clone_from zero i pml4 m = m
clone_from (suc n) i pml4 m =
    clone_from n (i + 1) pml4 (store (slot pml4 i) (m.words (slot m.kernel_cr3 i)) m)

abbrev pub clone_kernel_mappings : ℕ → Machine → Machine
clone_kernel_mappings = clone_from 256 256

abbrev pub release_frame : ℕ → Machine → Run Machine
release_frame phys m = elim (free_frame phys m.frames) [
  | none ↦ fault
  | some s ↦ ok (record m { frames = s })
]

-- The loops of `paging_free_user_pages`, from the leaves up: `n` entries of a table from `i` on.
unfoldable pub free_leaves : ℕ → ℕ → ℕ → Machine → Run Machine
free_leaves zero i pt m = ok m
free_leaves (suc n) i pt m =
    let w = m.words (slot pt i) in
    (if is_present w then release_frame (address w) m else ok m) >>= free_leaves n (i + 1) pt

-- A table whose entries are freed by `free` below, and then themselves; huge pages are skipped.
unfoldable pub free_tables : (ℕ → Machine → Run Machine) → Bool → ℕ → ℕ → ℕ → Machine → Run Machine
free_tables free skip_huge zero i table m = ok m
free_tables free skip_huge (suc n) i table m =
    let w = m.words (slot table i) in
    (if is_present w && not (skip_huge && is_huge w)
      then (free (address w) m >>= release_frame (address w))
      else ok m)
    >>= free_tables free skip_huge n (i + 1) table

abbrev pub free_user_pages : ℕ → Machine → Run Machine
free_user_pages =
    let free_pt = free_leaves 512 0 in
    let free_pd = free_tables free_pt true 512 0 in
    let free_pdpt = free_tables free_pd true 512 0 in free_tables free_pdpt false 256 0
