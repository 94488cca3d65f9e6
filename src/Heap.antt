-- ===== src/Heap.antt =====
-- The kernel heap, src/heap.c: arenas of pages from the frame allocator, each a doubly linked list
-- of blocks that lie end to end.
pub mod Chain
pub mod Outcome
pub mod Free
pub mod Release
pub mod Take
pub mod Arenas
pub mod Serve
pub mod Kmalloc
pub mod Settled
pub mod Restore
mod Tests
use cool_os.Prelude.{
  ℕ, zero, suc, ◌+◌, ◌-◌, ◌*◌, ◌/◌, ◌%◌, ◌^◌, Bool, true, false, ◌&&◌, not, Option, none, some,
  List, [], ◌∷◌, ◌++◌, ltb, leb, ◌==◌, if◌then◌else◌,
}
use cool_os.Pmm.{Pmm, page_size, alloc_frames_contiguous}

abbrev pub heap_magic : ℕ
heap_magic = 0xdead_c0de

abbrev pub heap_align : ℕ
heap_align = 16

-- `sizeof(block_t)`, and the size of an arena's header, which is aligned.
abbrev pub block_size : ℕ
block_size = 32

abbrev pub arena_header_size : ℕ
arena_header_size = 32

-- `block_t`; a pointer is an address, 0 is NULL.
pub record Block : Type 0 where
  pub magic : ℕ
  pub free : Bool
  pub size : ℕ
  pub next : ℕ
  pub prev : ℕ

-- The block headers in memory. An address with none holds other bytes, and reading it is a fault.
abbrev pub Memory : Type 0
Memory = ℕ → Option Block

-- `fault` is a failed ASSERT, a panic or a read of what is no header.
pub data Run (A : Type 0) : Type 0 where
  ok : A → Run A
  fault : Run A
  out_of_fuel : Run A

infixl 5 ◌>>=◌
abbrev pub ◌>>=◌ : {A B : Type 0} → Run A → (A → Run B) → Run B
ok a >>= f = f a
fault >>= f = fault
out_of_fuel >>= f = out_of_fuel

unfoldable pub write : Memory → ℕ → Block → Memory
write m p b q = if q == p then some b else m q

-- Filling `len` bytes from `lo` on destroys the headers that they touch.
unfoldable pub fill : Memory → ℕ → ℕ → Memory
fill m lo len q = if ltb 0 len && ltb q (lo + len) && ltb lo (q + block_size) then none else m q

-- `p->magic` and the rest, where the header is asserted or known to be one.
unfoldable pub load : Memory → ℕ → Run Block
load m p =
    if p == 0
    then fault
    else elim (m p) [ none ↦ fault | some b ↦ if b.magic == heap_magic then ok b else fault ]

-- `ALIGN_UP(size, HEAP_ALIGN)` on 64 bits.
abbrev pub align_up : ℕ → ℕ
align_up size = (size + (heap_align - 1)) % 2 ^ 64 / heap_align * heap_align

-- The walk of `kmalloc` over one arena: the first free block that is large enough, or 0.
unfoldable pub find_fit : ℕ → Memory → ℕ → ℕ → Run ℕ
find_fit zero m block size = out_of_fuel
find_fit (suc n) m block size = if block == 0 then ok 0 else do
  b ← load m block
  if b.free && leb size b.size then ok block else find_fit n m b.next size

-- `p->prev = q`, where `p` may be NULL.
unfoldable pub set_prev : Memory → ℕ → ℕ → Run Memory
set_prev m p q = if p == 0 then ok m else (do b ← load m p; ok (write m p (record b { prev = q })))

-- `p != NULL && p->magic == HEAP_MAGIC && p->free`, with the header.
unfoldable pub free_block : Memory → ℕ → Option Block
free_block m p = if p == 0 then none else elim (m p) [
  | none ↦ none
  | some b ↦ if b.magic == heap_magic && b.free then some b else none
]

-- What `kmalloc` does to the block that it found: split it if the rest is worth a block, take it
-- and fill its payload. The result is the payload's address.
unfoldable pub take_block : Memory → ℕ → ℕ → Run (ℕ × Memory)
take_block m block size = do
  b ← load m block
  let remainder = b.size - size
  let new_block = block + block_size + size
  let fresh : Block = record {
    magic = heap_magic;
    free = true;
    size = remainder - block_size;
    next = b.next;
    prev = block;
  }
  if leb (block_size + heap_align) remainder
      then (do
        m' ← set_prev (write m new_block fresh) b.next new_block
        let taken = record b { free = false; size = size; next = new_block }
        ok (block + block_size, fill (write m' block taken) (block + block_size) size))
      else ok (
        block + block_size,
        fill (write m block (record b { free = false })) (block + block_size) b.size,
      )

-- `kfree` up to its first merge: the block is free, and takes in a free block behind it.
unfoldable pub release : Memory → ℕ → Run Memory
release m block = do
  b ← load m block
  let freed = record b { free = true }
  let m' = fill (write m block freed) (block + block_size) b.size
  if b.free then fault else elim (free_block m' b.next) [
    | none ↦ ok m'
    | some n ↦
        set_prev
          (write m' block (record freed { size = b.size + (block_size + n.size); next = n.next }))
          n.next block
  ]

-- The second merge of `kfree`, into a free block before it.
unfoldable pub merge_prev : Memory → ℕ → Run Memory
merge_prev m block = do
  b ← load m block
  elim (free_block m b.prev) [
    | none ↦ ok m
    | some p ↦
        set_prev
          (write m b.prev (record p { size = p.size + (block_size + b.size); next = b.next }))
          b.next b.prev
  ]

-- NULL is ignored.
unfoldable pub kfree : Memory → ℕ → Run Memory
kfree m ptr =
    if ptr == 0
    then ok m
    else (do m' ← release m (ptr - block_size); merge_prev m' (ptr - block_size))
