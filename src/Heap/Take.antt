-- ===== src/Heap/Take.antt =====
-- The allocation of `kmalloc` of src/heap.c inside one arena: the walk to the first spare part that
-- is large enough, and what becomes of it.
use cool_os.Prelude.{
  ℕ, zero, suc, ◌+◌, ◌-◌, ◌≤◌, ◌<◌, ◌≡◌, inl, inr, refl, ◌∙◌, Bool, true, false, ◌&&◌, some, List,
  [], ◌∷◌, arith, leb, ◌==◌, if◌then◌else◌, Bool-cases, length,
}
use cool_os.Heap.{
  Block, Memory, Run, ok, ◌>>=◌, heap_align, block_size, write, fill, find_fit, take_block,
}
use cool_os.Heap.Chain.{
  Part, held, spare, size_of, is_spare, after, end_at, first_at, header, Chain, Outside, le-end_at,
  Chain-frame, Chain-set_prev, load-header,
}
use cool_os.Heap.Free.{Outside-trans}

-- A part that can serve a request for `size` bytes.
unfoldable pub fits : ℕ → Part → Bool
fits size c = is_spare c && leb size (size_of c)

-- The address of the first such part, or 0.
unfoldable pub fit_at : ℕ → ℕ → List Part → ℕ
fit_at size a [] = 0
fit_at size a (c ∷ cs) = if fits size c then a else fit_at size (after a c) cs

pub find_fit-Chain :
    (n : ℕ) (m : Memory) (prev a size : ℕ) (cs : List Part)
    → Chain m prev a cs 0
    → length cs < n
    → find_fit n m (first_at a cs 0) size ≡ ok (fit_at size a cs)
unfolding find_fit fit_at fits
find_fit-Chain zero m prev a size cs h enough = elim enough [ ]
find_fit-Chain (suc n) m prev a size [] h enough = refl
find_fit-Chain (suc n) m prev a size (c ∷ cs) h enough =
    let null : (a == 0) ≡ false = ground (arith, h.0) in
    let rest = find_fit-Chain n m a (after a c) size cs h.2 (omega arith) in
    rw (null, load-header m a (first_at (after a c) cs 0) prev c h.0 h.1, ◌>>=◌, rest)
      (elim (Bool-cases (is_spare c && leb size (size_of c))) [
        | inl here ↦ rw here refl
        | inr further ↦ rw further refl
      ])

-- The part that is taken, split if the rest is worth a block.
unfoldable pub carve : ℕ → ℕ → List Part → List Part
carve size s r =
    if leb (block_size + heap_align) (s - size)
    then held size ∷ spare (s - size - block_size) ∷ r
    else held s ∷ r

-- A run that returns the address `p` and a memory with the chain `cs`.
pub record Serves (m : Memory) (prev a hi p : ℕ) (cs : List Part) (run : Run (ℕ × Memory))
    : Type 0 where
  pub memory : Memory
  pub returns : run ≡ ok (p, memory)
  pub chain : Chain memory prev a cs 0
  pub outside : Outside m memory a hi

-- A block's header rewritten and its payload filled.
module _ (m : Memory) (prev a next : ℕ) (c : Part) where
  abbrev allotted : Memory
  allotted = fill (write m a (header c next prev)) (a + block_size) (size_of c)

  allotted-Outside : Outside m allotted a (after a c)
  unfolding fill write
  allotted-Outside = record { before = λ x lt. ground arith; behind = λ x le. ground arith }

  allotted_self : allotted a ≡ some (header c next prev)
  unfolding fill write
  allotted_self = ground arith

write-Outside : (m : Memory) (p : ℕ) (b : Block) → Outside m (write m p b) p (p + 1)
unfolding write
write-Outside m p b = record { before = λ x lt. ground arith; behind = λ x le. ground arith }

write_self : (m : Memory) (p : ℕ) (b : Block) → write m p b p ≡ some b
unfolding write
write_self m p b = ground arith

module _ (m : Memory) (prev a s size : ℕ) (r : List Part) (h : Chain m prev a (spare s ∷ r) 0) where
  take_whole :
      leb (block_size + heap_align) (s - size) ≡ false
      → Serves m prev a (end_at a (spare s ∷ r)) (a + block_size) (held s ∷ r) (take_block m a size)
  unfolding take_block
  take_whole small =
      let behind = after a (spare s) in
      let next = first_at behind r 0 in
      let m' = allotted m prev a next (held s) in
      let out = allotted-Outside m prev a next (held s) in
      let far = le-end_at behind r in
      record {
        memory = m';
        returns = rw (load-header m a next prev (spare s) h.0 h.1, ◌>>=◌, small) refl;
        chain = (
          h.0,
          allotted_self m prev a next (held s),
          Chain-frame m m' a behind r 0 (λ x lo hi. out.behind x lo) h.2,
        );
        outside = record { before = out.before; behind = λ x le. out.behind x (omega arith) };
      }

  take_part :
      leb (block_size + heap_align) (s - size) ≡ true
      → Serves m prev a
          (end_at a (spare s ∷ r))
          (a + block_size)
          (held size ∷ spare (s - size - block_size) ∷ r)
          (take_block m a size)
  unfolding take_block
  take_part large =
      let behind = after a (spare s) in
      let next = first_at behind r 0 in
      let b = a + block_size + size in
      let rest = spare (s - size - block_size) in
      let m₁ = write m b (header rest next a) in
      let out₁ = write-Outside m b (header rest next a) in
      let far = le-end_at behind r in
      let room : block_size + heap_align ≤ s - size = ground (arith, large) in
      let same : after b rest ≡ behind = omega arith in
      let chain₁ = Chain-frame m m₁ a behind r 0 (λ x lo hi. out₁.behind x (omega arith)) h.2 in
      let (m₂, stepped, chain₂, out₂) = Chain-set_prev m₁ a b behind r chain₁ in
      let m₃ = allotted m₂ prev a b (held size) in
      let out₃ = allotted-Outside m₂ prev a b (held size) in
      let self : m₃ b ≡ some (header rest next a) =
        out₃.behind b (omega arith)
        ∙ out₂.before b (omega arith)
        ∙ write_self m b (header rest next a) in
      let chain₃ = Chain-frame m₂ m₃ b behind r 0 (λ x lo hi. out₃.behind x (omega arith)) chain₂ in
      record {
        memory = m₃;
        returns = rw (load-header m a next prev (spare s) h.0 h.1, ◌>>=◌, large, stepped) refl;
        chain = (
          h.0,
          allotted_self m₂ prev a b (held size),
          (omega arith, rw same self, rw same chain₃),
        );
        outside =
            Outside-trans (Outside-trans {lo = a} {hi = end_at behind r} out₁ out₂ (omega arith))
              out₃ (omega arith);
      }

pub take_block-Serves :
    (m : Memory) (prev a s size : ℕ) (r : List Part)
    → Chain m prev a (spare s ∷ r) 0
    → Serves m prev a
        (end_at a (spare s ∷ r))
        (a + block_size)
        (carve size s r)
        (take_block m a size)
unfolding carve
take_block-Serves m prev a s size r h =
    elim (Bool-cases (leb (block_size + heap_align) (s - size))) [
      | inl large ↦ rw large (take_part m prev a s size r h large)
      | inr small ↦ rw small (take_whole m prev a s size r h small)
    ]
