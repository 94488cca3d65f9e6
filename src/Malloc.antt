-- ===== src/Malloc.antt =====
-- The bump allocator of user programs, user/libc/malloc.c.
pub mod Layout
mod Tests
use cool_os.Prelude.{
  ℕ, ◌+◌, ◌-◌, ◌*◌, ◌/◌, ◌%◌, ◌^◌, Bool, true, false, Option, none, some, List, [], ◌∷◌, ltb,
  if◌then◌else◌,
}

abbrev pub heap_size : ℕ
heap_size = 65536

-- The static variables; `heap` is the address of the array.
pub record Bump : Type 0 where
  pub heap : ℕ
  pub heap_ptr : ℕ
  pub heap_initialized : Bool

abbrev pub initialize : Bump → Bump
initialize b =
    if b.heap_initialized then b else record b { heap_ptr = b.heap; heap_initialized = true }

-- The size that is taken, on 64 bits.
abbrev pub rounded : ℕ → ℕ
rounded size = (size + 15) % 2 ^ 64 / 16 * 16

unfoldable pub bump : ℕ → Bump → Option ℕ × Bump
bump size s =
    let end_ptr = (s.heap_ptr + rounded size) % 2 ^ 64 in
    if ltb ((s.heap + heap_size) % 2 ^ 64) end_ptr
    then (none, s)
    else (some s.heap_ptr, record s { heap_ptr = end_ptr })

-- `malloc`; NULL is `none`.
unfoldable pub malloc : ℕ → Bump → Option ℕ × Bump
malloc size b = bump size (initialize b)

-- `calloc` less its zeroing: the size of the block that it asks for wraps.
abbrev pub calloc : ℕ → ℕ → Bump → Option ℕ × Bump
calloc nmemb size = malloc (nmemb * size % 2 ^ 64)

-- `realloc`, which leaves the old block alone, and so does not depend on it.
abbrev pub realloc : ℕ → ℕ → Bump → Option ℕ × Bump
realloc ptr size = malloc size

-- A program's requests, one after the other.
unfoldable pub mallocs : List ℕ → Bump → List (Option ℕ) × Bump
mallocs [] b = ([], b)
mallocs (size ∷ sizes) b =
    let r = malloc size b in let rest = mallocs sizes r.1 in (r.0 ∷ rest.0, rest.1)
