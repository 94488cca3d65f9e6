-- ===== src/Heap/Free.antt =====
-- `kfree` of src/heap.c on a chain: the block becomes spare and joins its spare neighbours.
use cool_os.Prelude.{
  ℕ, ◌+◌, ◌≤◌, ◌<◌, ◌≡◌, refl, subst, ◌∙◌, false, some, none, List, [], ◌∷◌, arith, ◌==◌,
}
use cool_os.Heap.{Memory, Run, ok, block_size, write, fill, load, set_prev, free_block, release}
use cool_os.Heap.Chain.{
  Part, held, spare, after, end_at, first_at, header, Chain, Outside, le-end_at, Chain-frame,
  Chain-set_prev,
}

-- A spare part of size `s` in front of a chain takes in a spare part behind it.
unfoldable pub join_next : ℕ → List Part → List Part
join_next s (spare t ∷ r) = spare (s + (block_size + t)) ∷ r
join_next s r = spare s ∷ r

module _ (m : Memory) (prev a s : ℕ) where
  -- The header marked free and its payload filled.
  abbrev freed : ℕ → Memory
  freed next = fill (write m a (header (spare s) next prev)) (a + block_size) s

  freed-Outside : (next : ℕ) → Outside m (freed next) a (a + block_size + s)
  unfolding fill write
  freed-Outside next = record { before = λ x lt. ground arith; behind = λ x le. ground arith }

  freed_self : (next : ℕ) → freed next a ≡ some (header (spare s) next prev)
  unfolding fill write
  freed_self next = ground arith

  release_alone :
      (r : List Part)
      → Chain m prev a (held s ∷ r) 0
      → free_block (freed (first_at (a + block_size + s) r 0)) (first_at (a + block_size + s) r 0)
        ≡ none
      → release m a ≡ ok (freed (first_at (a + block_size + s) r 0))
  unfolding release load
  release_alone r h lone = let pos : (a == 0) ≡ false = ground (arith, h.0) in rw (pos, h.1, lone)

-- A run that ends in a memory with the chain `cs`, and that writes inside the arena's stretch only.
pub record Ends (m : Memory) (prev a hi : ℕ) (cs : List Part) (run : Run Memory) : Type 0 where
  pub memory : Memory
  pub returns : run ≡ ok memory
  pub chain : Chain memory prev a cs 0
  pub outside : Outside m memory a hi

module _ (m : Memory) (prev a s : ℕ) where
  freed-Chain :
      (r : List Part) (behind : ℕ)
      → behind ≡ a + block_size + s
      → (next : ℕ) → Chain m a behind r 0
      → Chain (freed m prev a s next) a behind r 0
  freed-Chain r behind e next h =
      Chain-frame m (freed m prev a s next) a behind r 0
        (λ x lo hi. (freed-Outside m prev a s next).behind x (omega arith)) h

  lone-Ends :
      (r : List Part)
      → Chain m prev a (held s ∷ r) 0
      → let next = first_at (a + block_size + s) r 0 in
        free_block (freed m prev a s next) next ≡ none
        → Ends m prev a (end_at a (held s ∷ r)) (spare s ∷ r) (release m a)
  lone-Ends r h lone =
      let next = first_at (a + block_size + s) r 0 in
      let out = freed-Outside m prev a s next in
      let further = le-end_at (a + block_size + s) r in
      record {
        memory = freed m prev a s next;
        returns = release_alone m prev a s r h lone;
        chain = (h.0, freed_self m prev a s next, freed-Chain r (a + block_size + s) refl next h.2);
        outside = record { before = out.before; behind = λ x le. out.behind x (omega arith) };
      }

pub Outside-trans :
    {m m₁ m₂ : Memory} {lo lo₁ lo₂ hi hi₁ hi₂ : ℕ}
    → Outside m m₁ lo₁ hi₁
    → Outside m₁ m₂ lo₂ hi₂
    → (lo ≤ lo₁) × (lo ≤ lo₂) × (hi₁ ≤ hi) × (hi₂ ≤ hi)
    → Outside m m₂ lo hi
Outside-trans p q h = record {
  before = λ x lt. q.before x (omega arith) ∙ p.before x (omega arith);
  behind = λ x le. q.behind x (omega arith) ∙ p.behind x (omega arith);
}

-- Both merges: the block at `a` grows to a size `s`, and what follows it points back to it.
module _ (m : Memory) (prev q a s : ℕ) (r : List Part) (pos : 0 < a) where
  unfoldable pub grown : Memory
  grown = write m a (header (spare s) (first_at (after a (spare s)) r 0) prev)

  pub grown-Ends :
      Chain m q (after a (spare s)) r 0
      → Ends m prev a
          (end_at (after a (spare s)) r)
          (spare s ∷ r)
          (set_prev grown (first_at (after a (spare s)) r 0) a)
  unfolding grown write
  grown-Ends h =
      let behind = after a (spare s) in
      let further = le-end_at behind r in
      let rest : Chain grown q behind r 0 =
        Chain-frame m grown q behind r 0 (λ x lo hi. ground arith) h in
      let out : Outside m grown a behind = record {
        before = λ x lt. ground arith;
        behind = λ x le. ground arith;
      } in
      let (m', stepped, chain, out') = Chain-set_prev grown q a behind r rest in
      let self : m' a ≡ some (header (spare s) (first_at behind r 0) prev) =
        out'.before a (omega arith) ∙ (ground arith) in
      record {
        memory = m';
        returns = stepped;
        chain = (pos, self, chain);
        outside = Outside-trans out out' (omega arith);
      }

module _ (m : Memory) (prev a s t : ℕ) (r : List Part) where
  joined-Ends :
      Chain m prev a (held s ∷ spare t ∷ r) 0
      → Ends m prev a
          (end_at a (held s ∷ spare t ∷ r))
          (spare (s + (block_size + t)) ∷ r)
          (release m a)
  unfolding release load free_block grown
  joined-Ends h =
      let b = a + block_size + s in
      let m₁ = freed m prev a s b in
      let big = s + (block_size + t) in
      let rest = freed-Chain m prev a s (spare t ∷ r) b refl b h.2 in
      let same : after b (spare t) ≡ after a (spare big) = omega arith in
      let e = grown-Ends m₁ prev b a big r h.0 (subst (λ x. Chain m₁ b x r 0) same rest.2) in
      let pos : (a == 0) ≡ false = ground (arith, h.0) in
      let pos_b : (b == 0) ≡ false = ground arith in
      record {
        memory = e.memory;
        returns = rw (pos, h.1, pos_b, rest.1) (rw same e.returns);
        chain = e.chain;
        outside = rw same (
            Outside-trans (freed-Outside m prev a s b) e.outside
              (omega (arith, le-end_at (after a (spare big)) r)));
      }

pub release-Ends :
    (m : Memory) (prev a s : ℕ) (r : List Part)
    → Chain m prev a (held s ∷ r) 0
    → Ends m prev a (end_at a (held s ∷ r)) (join_next s r) (release m a)
unfolding join_next free_block
release-Ends m prev a s [] h = lone-Ends m prev a s [] h refl
release-Ends m prev a s (held t ∷ r) h =
    let b = a + block_size + s in
    let rest = freed-Chain m prev a s (held t ∷ r) b refl b h.2 in
    let pos : (b == 0) ≡ false = ground arith in
    lone-Ends m prev a s (held t ∷ r) h (rw (pos, rest.1))
release-Ends m prev a s (spare t ∷ r) h = joined-Ends m prev a s t r h
