-- ===== src/Heap/Settled.antt =====
-- The arenas of src/heap.c keep no two free blocks side by side.
use cool_os.Prelude.{
  ℕ, ◌+◌, ◌-◌, ◌≡◌, refl, Bool, true, false, ◌&&◌, not, List, [], ◌∷◌, ◌++◌, arith, leb, Bool-cases,
  inl, inr,
}
use cool_os.Heap.{heap_align, block_size}
use cool_os.Heap.Chain.{Part, held, spare, is_spare}
use cool_os.Heap.Free.{join_next}
use cool_os.Heap.Release.{join_one, join_prev}
use cool_os.Heap.Take.{fits, carve}
use cool_os.Heap.Serve.{serve}

abbrev begins_spare : List Part → Bool
begins_spare [] = false
begins_spare (c ∷ cs) = is_spare c

-- No two spare parts side by side.
unfoldable pub settled : List Part → Bool
settled [] = true
settled (c ∷ cs) = not (is_spare c && begins_spare cs) && settled cs

settled-join_next : (s : ℕ) (r : List Part) → settled r ≡ true → settled (join_next s r) ≡ true
unfolding settled join_next
settled-join_next s [] h = refl
settled-join_next s (held t ∷ r) h = h
settled-join_next s (spare t ∷ r) h = h

settled-join_one :
    (c : Part) (s : ℕ) (r : List Part)
    → settled r ≡ true
    → settled (join_one c (join_next s r)) ≡ true
unfolding settled join_next join_one
settled-join_one (held t) s r h = settled-join_next s r h
settled-join_one (spare t) s [] h = refl
settled-join_one (spare t) s (held u ∷ r) h = h
settled-join_one (spare t) s (spare u ∷ r) h = h

settled-after :
    (l : List Part) (s : ℕ) (r : List Part) → settled (l ++ held s ∷ r) ≡ true → settled r ≡ true
unfolding settled
settled-after [] s r h = h
settled-after (c ∷ l) s r h = settled-after l s r (ground (arith, h))

begins-join_prev : (c : Part) (l cs : List Part) → begins_spare (join_prev (c ∷ l) cs) ≡ is_spare c
unfolding join_prev join_one
begins-join_prev (held t) [] cs = refl
begins-join_prev (spare t) [] [] = refl
begins-join_prev (spare t) [] (held u ∷ cs) = refl
begins-join_prev (spare t) [] (spare u ∷ cs) = refl
begins-join_prev c (d ∷ l) cs = refl

pub settled-join_prev :
    (l : List Part) (s : ℕ) (r : List Part)
    → settled (l ++ held s ∷ r) ≡ true
    → settled (join_prev l (join_next s r)) ≡ true
unfolding settled join_prev
settled-join_prev [] s r h = settled-join_next s r h
settled-join_prev (c ∷ []) s r h = settled-join_one c s r (ground (arith, h))
settled-join_prev (c ∷ d ∷ l) s r h =
    let rest = settled-join_prev (d ∷ l) s r (ground (arith, h)) in
    rw (begins-join_prev d l (join_next s r), rest) (ground (arith, h))

begins-serve :
    (size : ℕ) (cs : List Part) → begins_spare cs ≡ false → begins_spare (serve size cs) ≡ false
unfolding serve fits
begins-serve size [] h = refl
begins-serve size (held t ∷ cs) h = refl
begins-serve size (spare t ∷ cs) h = ground (arith, h)

settled-carve :
    (size s : ℕ) (cs : List Part) → settled (spare s ∷ cs) ≡ true → settled (carve size s cs) ≡ true
unfolding settled carve
settled-carve size s cs h = elim (Bool-cases (leb (block_size + heap_align) (s - size))) [
  | inl large ↦ rw large h
  | inr small ↦ rw small (ground (arith, h))
]

pub settled-serve : (size : ℕ) (cs : List Part) → settled cs ≡ true → settled (serve size cs) ≡ true
unfolding settled serve fits
settled-serve size [] h = refl
settled-serve size (held s ∷ cs) h = settled-serve size cs h
settled-serve size (spare s ∷ cs) h =
    let next_held : begins_spare cs ≡ false = ground (arith, h) in
    elim (Bool-cases (leb size s)) [
      | inl fit ↦ rw fit (settled-carve size s cs h)
      | inr no_fit ↦
          let rest = settled-serve size cs (ground (arith, h)) in
          rw (no_fit, begins-serve size cs next_held) rest
    ]
