-- ===== src/Malloc/Tests.antt =====
-- The bump allocator of user/libc/malloc.c with its array at 0x400000.
use cool_os.Prelude.{◌-◌, ◌^◌, ◌≡◌, refl, true, false, some, none, [], ◌∷◌, arith}
use cool_os.Malloc.{Bump, bump, malloc, mallocs}
use cool_os.Malloc.Layout.{Laid, mallocs-Laid}

abbrev fresh : Bump
fresh = record { heap = 0x40_0000; heap_ptr = 0; heap_initialized = false }

mallocs-fresh :
    (mallocs (100 ∷ 65500 ∷ 1 ∷ []) fresh).0 ≡ some 0x40_0000 ∷ none ∷ some 0x40_0070 ∷ []
unfolding mallocs malloc bump
mallocs-fresh = refl

mallocs-Laid_example :
    Laid 0x40_0000 0x40_0000 0x41_0000
      (100 ∷ 65500 ∷ 1 ∷ [])
      (mallocs (100 ∷ 65500 ∷ 1 ∷ []) fresh).0
mallocs-Laid_example = mallocs-Laid (100 ∷ 65500 ∷ 1 ∷ []) fresh (omega arith) refl (omega arith)

-- A request close to 2 ^ 64 is granted and moves the pointer back.
malloc-wrap : mallocs (64 ∷ (2 ^ 64 - 32) ∷ 16 ∷ []) fresh ≡ (
  some 0x40_0000 ∷ some 0x40_0040 ∷ some 0x40_0020 ∷ [],
  record { heap = 0x40_0000; heap_ptr = 0x40_0030; heap_initialized = true },
)
unfolding mallocs malloc bump
malloc-wrap = refl
