-- ===== src/Heap/Kmalloc.antt =====
-- `kmalloc` of src/heap.c on the list of arenas: first fit over all of them.
use cool_os.Prelude.{
  ℕ, suc, ◌+◌, ◌≤◌, ◌<◌, ◌≡◌, ◌⊎◌, inl, inr, refl, subst, ◌∙◌, Bool, true, false, ◌||◌, List, [],
  ◌∷◌, arith, ◌==◌, if◌then◌else◌, Bool-cases, length,
}
use cool_os.Heap.{Memory, Run, ok, ◌>>=◌, block_size, align_up, find_fit, take_block}
use cool_os.Heap.Chain.{Part, end_at, first_at, Chain, Outside, Chain-frame}
use cool_os.Heap.Take.{fit_at, find_fit-Chain}
use cool_os.Heap.Serve.{
  serve, any_fits, first_at-serve, end_at-serve, fit_at-pos, fit_at-none, serve-Serves,
}
use cool_os.Heap.Arenas.{Arena, Heap, find_block, kmalloc}

-- The arenas from the list `css` of parts on do not touch the addresses from `lo` to `hi`.
abbrev pub Apart : ℕ → ℕ → List Arena → List (List Part) → Type 0
Apart lo hi [] css = Unit {0}
Apart lo hi (x ∷ xs) [] = ⊥
Apart lo hi (x ∷ xs) (cs ∷ css) = ((end_at x.first cs ≤ lo) ⊎ (hi ≤ x.first)) × Apart lo hi xs css

-- Every arena is a chain of the parts listed for it, and no two arenas overlap.
abbrev pub Placed : Memory → List Arena → List (List Part) → Type 0
Placed m [] [] = Unit {0}
Placed m [] (cs ∷ css) = ⊥
Placed m (x ∷ xs) [] = ⊥
Placed m (x ∷ xs) (cs ∷ css) =
    Chain m 0 x.first cs 0
    × (first_at x.first cs 0 ≡ x.first)
    × Apart x.first (end_at x.first cs) xs css
    × Placed m xs css

-- Fewer than `n` blocks in each arena.
abbrev pub Short : ℕ → List (List Part) → Type 0
Short n [] = Unit {0}
Short n (cs ∷ css) = (length cs < n) × Short n css

unfoldable pub fits_somewhere : ℕ → List (List Part) → Bool
fits_somewhere size [] = false
fits_somewhere size (cs ∷ css) = any_fits size cs || fits_somewhere size css

-- The first part that fits, arena by arena.
unfoldable pub found_at : ℕ → List Arena → List (List Part) → ℕ
found_at size (x ∷ xs) (cs ∷ css) =
    if any_fits size cs then fit_at size x.first cs else found_at size xs css
found_at size xs css = 0

unfoldable pub serve_first : ℕ → List (List Part) → List (List Part)
serve_first size [] = []
serve_first size (cs ∷ css) =
    if any_fits size cs then serve size cs ∷ css else cs ∷ serve_first size css

find_block-Placed :
    (n size : ℕ) (m : Memory) (xs : List Arena) (css : List (List Part))
    → Placed m xs css
    → Short n css
    → find_block n m xs size ≡ ok (found_at size xs css)
unfolding find_block found_at
find_block-Placed n size m [] [] h short = refl
find_block-Placed n size m [] (cs ∷ css) h short = elim h [ ]
find_block-Placed n size m (x ∷ xs) [] h short = elim h [ ]
find_block-Placed n size m (x ∷ xs) (cs ∷ css) h short =
    let rest = find_block-Placed n size m xs css h.3 short.1 in
    let walk : find_fit n m x.first size ≡ ok (fit_at size x.first cs) =
      subst (λ p. find_fit n m p size ≡ ok (fit_at size x.first cs)) h.1
        (find_fit-Chain n m 0 x.first size cs h.0 short.0) in
    rw (walk, ◌>>=◌, rest)
      (elim (Bool-cases (any_fits size cs)) [
        | inl fit ↦
            let pos : (fit_at size x.first cs == 0) ≡ false =
              ground (arith, fit_at-pos m size 0 x.first cs h.0 fit) in
            rw (pos, fit) refl
        | inr no_fit ↦ rw (fit_at-none size x.first cs no_fit, no_fit) refl
      ])

Apart-frame :
    (m m' : Memory) (lo hi : ℕ) (xs : List Arena) (css : List (List Part))
    → Outside m m' lo hi
    → Apart lo hi xs css
    → Placed m xs css
    → Placed m' xs css
Apart-frame m m' lo hi [] [] out apart h = tt
Apart-frame m m' lo hi [] (cs ∷ css) out apart h = elim h [ ]
Apart-frame m m' lo hi (x ∷ xs) [] out apart h = elim apart [ ]
Apart-frame m m' lo hi (x ∷ xs) (cs ∷ css) out apart h = (
  Chain-frame m m' 0 x.first cs 0
      (λ y from to. elim apart.0 [
        | inl below ↦ out.before y (omega arith)
        | inr above ↦ out.behind y (omega arith)
      ])
      h.0,
  h.1,
  h.2,
  Apart-frame m m' lo hi xs css out apart.1 h.3,
)

Apart-serve_first :
    (size lo hi : ℕ) (xs : List Arena) (css : List (List Part))
    → Apart lo hi xs css
    → Apart lo hi xs (serve_first size css)
unfolding serve_first
Apart-serve_first size lo hi [] css apart = tt
Apart-serve_first size lo hi (x ∷ xs) [] apart = apart
Apart-serve_first size lo hi (x ∷ xs) (cs ∷ css) apart = elim (Bool-cases (any_fits size cs)) [
  | inl fit ↦ rw (fit, end_at-serve size x.first cs) apart
  | inr no_fit ↦ rw no_fit (apart.0, Apart-serve_first size lo hi xs css apart.1)
]

-- A run that returns `p` and leaves the arenas `xs` with the parts `dss`, and all else alone.
pub record Serving (m : Memory) (p : ℕ) (xs : List Arena) (css dss : List (List Part))
    (run : Run (ℕ × Memory)) : Type 0 where
  pub memory : Memory
  pub returns : run ≡ ok (p, memory)
  pub placed : Placed memory xs dss
  pub elsewhere : (lo hi : ℕ) → Apart lo hi xs css → (q : ℕ) → lo ≤ q → q < hi → memory q ≡ m q

found_at-pos :
    (m : Memory) (size : ℕ) (xs : List Arena) (css : List (List Part))
    → Placed m xs css
    → fits_somewhere size css ≡ true
    → 0 < found_at size xs css
unfolding found_at fits_somewhere
found_at-pos m size [] [] h fit = ground (arith, fit)
found_at-pos m size [] (cs ∷ css) h fit = elim h [ ]
found_at-pos m size (x ∷ xs) [] h fit = elim h [ ]
found_at-pos m size (x ∷ xs) (cs ∷ css) h fit = elim (Bool-cases (any_fits size cs)) [
  | inl here ↦ rw here (fit_at-pos m size 0 x.first cs h.0 here)
  | inr later ↦ rw later (found_at-pos m size xs css h.3 (ground (arith, fit, later)))
]

serving :
    (m : Memory) (size : ℕ) (xs : List Arena) (css : List (List Part))
    → Placed m xs css
    → fits_somewhere size css ≡ true
    → Serving m
        (found_at size xs css + block_size)
        xs
        css
        (serve_first size css)
        (take_block m (found_at size xs css) size)
unfolding serve_first found_at fits_somewhere
serving m size [] [] h fit = ground (arith, fit)
serving m size [] (cs ∷ css) h fit = elim h [ ]
serving m size (x ∷ xs) [] h fit = elim h [ ]
serving m size (x ∷ xs) (cs ∷ css) h fit = elim (Bool-cases (any_fits size cs)) [
  | inl here ↦
      let e = serve-Serves m size 0 x.first cs h.0 here in
      let last = end_at x.first cs in
      rw here (record {
        memory = e.memory;
        returns = e.returns;
        placed = (
          e.chain,
          first_at-serve size x.first cs ∙ h.1,
          rw (end_at-serve size x.first cs) h.2,
          Apart-frame m e.memory x.first last xs css e.outside h.2 h.3,
        );
        elsewhere = λ lo hi apart q from to. elim apart.0 [
          | inl below ↦ e.outside.behind q (omega arith)
          | inr above ↦ e.outside.before q (omega arith)
        ];
      })
  | inr later ↦
      let e = serving m size xs css h.3 (ground (arith, fit, later)) in
      let last = end_at x.first cs in
      rw later (record {
        memory = e.memory;
        returns = e.returns;
        placed = (
          Chain-frame m e.memory 0 x.first cs 0 (e.elsewhere x.first last h.2) h.0,
          h.1,
          Apart-serve_first size x.first last xs css h.2,
          e.placed,
        );
        elsewhere = λ lo hi apart. e.elsewhere lo hi apart.1;
      })
]

-- First fit: a request for at least one byte that, rounded up, some free block can serve returns the
-- payload of the first one in the order of the arenas. That block is carved up, the other blocks stay
-- as they were, and the arenas stay linked chains that do not overlap. The fuel has to exceed the
-- number of blocks of each arena.
pub kmalloc-first_fit :
    (rounds n size : ℕ) (h : Heap) (css : List (List Part))
    → 0 < size
    → Placed h.memory h.arenas css
    → Short n css
    → fits_somewhere (align_up size) css ≡ true
    → (m : Memory) × (kmalloc (suc rounds) n size h
        ≡ ok (found_at (align_up size) h.arenas css + block_size, record h { memory = m }))
      × Placed m h.arenas (serve_first (align_up size) css)
unfolding kmalloc
kmalloc-first_fit rounds n size h css asked placed short fit =
    let wanted = align_up size in
    let e = serving h.memory wanted h.arenas css placed fit in
    let walk = find_block-Placed n wanted h.memory h.arenas css placed short in
    let some_size : (size == 0) ≡ false = ground arith in
    let block : (found_at wanted h.arenas css == 0) ≡ false =
      ground (arith, found_at-pos h.memory wanted h.arenas css placed fit) in
    (e.memory, rw (some_size, walk, ◌>>=◌, block, e.returns) refl, e.placed)
