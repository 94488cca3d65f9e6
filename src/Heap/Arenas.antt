-- ===== src/Heap/Arenas.antt =====
-- The list of arenas of src/heap.c: `heap_expand_size`, `heap_init` and `kmalloc`, with the frames
-- that src/pmm.c hands out.
use cool_os.Prelude.{
  ℕ, zero, suc, ◌+◌, ◌-◌, ◌*◌, ◌/◌, ◌%◌, ◌^◌, true, false, Option, none, some, List, [], ◌∷◌, ◌++◌,
  ltb, ◌==◌, if◌then◌else◌,
}
use cool_os.Pmm.{Pmm, page_size, alloc_frames_contiguous}
use cool_os.Heap.{
  Block, Memory, Run, ok, fault, out_of_fuel, ◌>>=◌, heap_magic, block_size, arena_header_size,
  write, align_up, find_fit, take_block,
}

-- `arena_t`; the list stands for its `next`.
pub record Arena : Type 0 where
  pub total_size : ℕ
  pub first : ℕ

-- `arena_list`, the memory that it points into, the frame allocator, and `hhdm_offset`.
pub record Heap : Type 0 where
  pub arenas : List Arena
  pub memory : Memory
  pub frames : Pmm
  pub hhdm_offset : ℕ

-- `phys_to_hhdm`.
abbrev pub phys_to_hhdm : ℕ → ℕ → ℕ
phys_to_hhdm offset phys = (phys + offset) % 2 ^ 64

-- The pages that an arena for `needed` bytes takes, on 64 bits.
abbrev pub pages_for : ℕ → ℕ
pages_for needed =
    let total_needed = (arena_header_size + block_size + needed) % 2 ^ 64 in
    let pages = (total_needed + page_size - 1) % 2 ^ 64 / page_size in
    if ltb pages 1 then 1 else pages

-- A new arena in its frames: one free block over all of it.
abbrev pub new_arena : ℕ → ℕ → Pmm → Heap → Arena × Heap
new_arena first_phys pages s h =
    let arena_at = phys_to_hhdm h.hhdm_offset first_phys in
    let first_at = (arena_at + arena_header_size) % 2 ^ 64 in
    let arena : Arena = record { total_size = pages * page_size % 2 ^ 64; first = first_at } in
    let first : Block = record {
      magic = heap_magic;
      free = true;
      size = (2 ^ 64 + arena.total_size - arena_header_size - block_size) % 2 ^ 64;
      next = 0;
      prev = 0;
    } in
    (arena, record h { memory = write h.memory first_at first; frames = s })

-- No arena is NULL: no run of frames that is long enough.
unfoldable pub heap_expand_size : ℕ → Heap → Run (Option Arena × Heap)
heap_expand_size needed h =
    let pages = pages_for needed in
    elim (alloc_frames_contiguous pages h.frames) [
      | none ↦ fault
      | some (first_phys, s) ↦
          if first_phys == 0
          then ok (none, record h { frames = s })
          else (let (arena, h') = new_arena first_phys pages s h in ok (some arena, h'))
    ]

unfoldable pub heap_init : Heap → Run Heap
heap_init h = do
  expanded ← heap_expand_size page_size h
  elim expanded.0 [
    | none ↦ ok (record expanded.1 { arenas = [] })
    | some arena ↦ ok (record expanded.1 { arenas = arena ∷ [] })
  ]

-- The walk over the arenas; `n` bounds the blocks of each.
unfoldable pub find_block : ℕ → Memory → List Arena → ℕ → Run ℕ
find_block n m [] size = ok 0
find_block n m (x ∷ xs) size =
    let rest = find_block n m xs size in
    find_fit n m x.first size >>= λ block. if block == 0 then rest else ok block

-- The new arena goes behind the last one. With no arena at all the source reads `NULL->next`.
abbrev pub append_arena : Arena → Heap → Run Heap
append_arena x h = elim h.arenas [
  | [] ↦ fault
  | y ∷ ys ↦ ok (record h { arenas = y ∷ (ys ++ x ∷ []) })
]

-- `kmalloc` with at most `rounds` calls of itself; NULL is 0.
unfoldable pub kmalloc : ℕ → ℕ → ℕ → Heap → Run (ℕ × Heap)
kmalloc zero n size h = out_of_fuel
kmalloc (suc rounds) n size h = if size == 0 then ok (0, h) else (do
  let wanted = align_up size
  block ← find_block n h.memory h.arenas wanted
  elim (block == 0) [
    | false ↦ take_block h.memory block wanted >>= λ r. ok (r.0, record h { memory = r.1 })
    | true ↦ heap_expand_size wanted h >>= λ expanded. elim expanded.0 [
      | none ↦ ok (0, expanded.1)
      | some arena ↦ append_arena arena expanded.1 >>= kmalloc rounds n wanted
    ]
  ])
