-- ===== src/Heap/Tests.antt =====
-- The heap of src/heap.c with one arena of three blocks.
use cool_os.Prelude.{◌≡◌, refl, some, none, List, [], ◌∷◌, arith, ◌==◌, if◌then◌else◌}
use cool_os.Heap.{Memory, ok, fault, load, take_block, kfree, release}
use cool_os.Heap.Chain.{Part, held, spare, header, Outside}
use cool_os.Heap.Free.{join_next}
use cool_os.Heap.Release.{join_one, join_prev}
use cool_os.Heap.Take.{fits, fit_at, carve}
use cool_os.Heap.Serve.{serve, any_fits}
use cool_os.Heap.Arenas.{Heap, kmalloc}
use cool_os.Heap.Kmalloc.{Placed, fits_somewhere, found_at, serve_first, kmalloc-first_fit}
use cool_os.Heap.Settled.{settled}
use cool_os.Heap.Restore.{IsArena, kfree_lem, kfree-take_block}

-- Free, in use, free.
abbrev parts : List Part
parts = spare 64 ∷ held 32 ∷ spare 256 ∷ []

abbrev blocks : Memory
blocks q =
    if q == 0x1020
    then some (header (spare 64) 0x1080 0)
    else if q == 0x1080
    then some (header (held 32) 0x10c0 0x1020)
    else if q == 0x10c0
    then some (header (spare 256) 0 0x1080)
    else none

blocks-IsArena : IsArena blocks 0x1020 0x11e0 parts
unfolding settled
blocks-IsArena = record {
  chain = (omega arith, refl, (omega arith, refl, (omega arith, refl, tt)));
  apart = refl;
  fills = refl;
}

kfree_lem_example :
    (m' : Memory) × (kfree blocks 0x10a0 ≡ ok m')
    × IsArena m' 0x1020 0x11e0 (spare 416 ∷ [])
    × Outside blocks m' 0x1020 0x11e0
unfolding join_prev join_one join_next
kfree_lem_example =
    kfree_lem blocks 0x1020 0x11e0 32 (spare 64 ∷ []) (spare 256 ∷ []) blocks-IsArena

kfree-take_block_example :
    (m₁ : Memory) × (m₂ : Memory) × (take_block blocks 0x10c0 128 ≡ ok (0x10e0, m₁))
    × IsArena m₁ 0x1020 0x11e0 (spare 64 ∷ held 32 ∷ held 128 ∷ spare 96 ∷ [])
    × (kfree m₁ 0x10e0 ≡ ok m₂)
    × IsArena m₂ 0x1020 0x11e0 parts
unfolding serve carve fits fit_at any_fits
kfree-take_block_example = kfree-take_block blocks 0x1020 0x11e0 128 parts blocks-IsArena refl

-- A pointer inside a block, and a block that is free already.
kfree-inside : kfree blocks 0x10b0 ≡ fault
unfolding kfree release load
kfree-inside = refl

kfree-twice : kfree blocks 0x1040 ≡ fault
unfolding kfree release load
kfree-twice = refl

abbrev one_arena : Heap
one_arena = record {
  arenas = record { total_size = 0x1e0; first = 0x1020 } ∷ [];
  memory = blocks;
  frames = record {
    bitmap = [];
    frame_count = 0;
    bitmap_size = 0;
    free_frames = 0;
    max_phys_addr = 0;
    bitmap_phys = 0;
  };
  hhdm_offset = 0;
}

kmalloc-first_fit_example :
    (m : Memory) × (kmalloc 1 4 100 one_arena ≡ ok (0x10e0, record one_arena { memory = m }))
    × Placed m one_arena.arenas ((spare 64 ∷ held 32 ∷ held 112 ∷ spare 112 ∷ []) ∷ [])
unfolding serve_first serve carve fits fit_at any_fits found_at fits_somewhere
kmalloc-first_fit_example =
    kmalloc-first_fit 0 4 100 one_arena (parts ∷ []) (omega arith)
      (blocks-IsArena.chain, refl, tt, tt) (omega arith, tt) refl
