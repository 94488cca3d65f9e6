-- ===== src/Heap/Chain.antt =====
-- The blocks of an arena of src/heap.c as a chain of parts that lie end to end, each held by a
-- caller or spare.
use cool_os.Prelude.{
  ℕ, ◌+◌, ◌≤◌, ◌<◌, ◌≡◌, inl, inr, refl, sym, ap, ◌∙◌, Bool, true, false, some, none, List, [], ◌∷◌,
  ◌++◌, arith, ◌==◌, Bool-cases,
}
use cool_os.Heap.{Block, Memory, ok, heap_magic, block_size, write, load, set_prev, free_block}

pub data Part : Type 0 where
  held : ℕ → Part
  spare : ℕ → Part

abbrev pub size_of : Part → ℕ
size_of (held s) = s
size_of (spare s) = s

abbrev pub is_spare : Part → Bool
is_spare (held s) = false
is_spare (spare s) = true

-- The address behind a part, and behind a list of them.
abbrev pub after : ℕ → Part → ℕ
after a c = a + block_size + size_of c

abbrev pub end_at : ℕ → List Part → ℕ
end_at a [] = a
end_at a (c ∷ cs) = end_at (after a c) cs

-- The pointer to a chain that begins at `a`; `stop` follows the last part.
abbrev pub first_at : ℕ → List Part → ℕ → ℕ
first_at a [] stop = stop
first_at a (c ∷ cs) stop = a

abbrev pub last_at : ℕ → ℕ → List Part → ℕ
last_at prev a [] = prev
last_at prev a (c ∷ cs) = last_at a (after a c) cs

abbrev pub header : Part → ℕ → ℕ → Block
header c next prev = record {
  magic = heap_magic;
  free = is_spare c;
  size = size_of c;
  next = next;
  prev = prev;
}

abbrev pub Chain : Memory → ℕ → ℕ → List Part → ℕ → Type 0
Chain m prev a [] stop = Unit {0}
Chain m prev a (c ∷ cs) stop =
    (0 < a)
    × (m a ≡ some (header c (first_at (after a c) cs stop) prev))
    × Chain m a (after a c) cs stop

-- Nothing changes before `lo` and from `hi` on.
pub record Outside (m m' : Memory) (lo hi : ℕ) : Type 0 where
  pub before : (x : ℕ) → x < lo → m' x ≡ m x
  pub behind : (x : ℕ) → hi ≤ x → m' x ≡ m x

pub le-end_at : (a : ℕ) (cs : List Part) → a ≤ end_at a cs
le-end_at a [] = omega arith
le-end_at a (c ∷ cs) = omega (arith, le-end_at (after a c) cs)

pub Chain-frame :
    (m m' : Memory) (prev a : ℕ) (cs : List Part) (stop : ℕ)
    → ((x : ℕ) → a ≤ x → x < end_at a cs → m' x ≡ m x)
    → Chain m prev a cs stop
    → Chain m' prev a cs stop
Chain-frame m m' prev a [] stop same h = tt
Chain-frame m m' prev a (c ∷ cs) stop same h =
    let further = le-end_at (after a c) cs in
    (
      h.0,
      same a (omega arith) (omega arith) ∙ h.1,
      Chain-frame m m' a (after a c) cs stop (λ x lo hi. same x (omega arith) hi) h.2,
    )

pub first_at-append :
    (a : ℕ) (cs ds : List Part) (stop : ℕ)
    → first_at a (cs ++ ds) stop ≡ first_at a cs (first_at (end_at a cs) ds stop)
first_at-append a [] ds stop = refl
first_at-append a (c ∷ cs) ds stop = refl

pub end_at-append : (a : ℕ) (cs ds : List Part) → end_at a (cs ++ ds) ≡ end_at (end_at a cs) ds
end_at-append a [] ds = refl
end_at-append a (c ∷ cs) ds = end_at-append (after a c) cs ds

pub Chain-split :
    (m : Memory) (prev a : ℕ) (cs ds : List Part) (stop : ℕ)
    → Chain m prev a (cs ++ ds) stop
    → Chain m prev a cs (first_at (end_at a cs) ds stop)
      × Chain m (last_at prev a cs) (end_at a cs) ds stop
Chain-split m prev a [] ds stop h = (tt, h)
Chain-split m prev a (c ∷ cs) ds stop h =
    let rest = Chain-split m a (after a c) cs ds stop h.2 in
    (
      (
        h.0,
        h.1 ∙ ap (λ p. some (header c p prev)) (first_at-append (after a c) cs ds stop),
        rest.0,
      ),
      rest.1,
    )

pub Chain-join :
    (m : Memory) (prev a : ℕ) (cs ds : List Part) (stop : ℕ)
    → Chain m prev a cs (first_at (end_at a cs) ds stop)
    → Chain m (last_at prev a cs) (end_at a cs) ds stop
    → Chain m prev a (cs ++ ds) stop
Chain-join m prev a [] ds stop h k = k
Chain-join m prev a (c ∷ cs) ds stop h k = (
  h.0,
  h.1 ∙ ap (λ p. some (header c p prev)) (sym (first_at-append (after a c) cs ds stop)),
  Chain-join m a (after a c) cs ds stop h.2 k,
)

module _ (m : Memory) (a next prev : ℕ) where
  pub load-header :
      (c : Part) → 0 < a → m a ≡ some (header c next prev) → load m a ≡ ok (header c next prev)
  unfolding load
  load-header c h e = let pos : (a == 0) ≡ false = ground arith in rw (pos, e)

  pub free_block-spare :
      (t : ℕ)
      → 0 < a
      → m a ≡ some (header (spare t) next prev)
      → free_block m a ≡ some (header (spare t) next prev)
  unfolding free_block
  free_block-spare t h e = let pos : (a == 0) ≡ false = ground arith in rw (pos, e)

  pub free_block-held : (t : ℕ) → m a ≡ some (header (held t) next prev) → free_block m a ≡ none
  unfolding free_block
  free_block-held t e = elim (Bool-cases (a == 0)) [
    | inl null ↦ rw null
    | inr some_block ↦ rw (some_block, e)
  ]

-- The pointer back to the chain, rewritten: what `set_prev` does to what follows a change.
pub Chain-set_prev :
    (m : Memory) (prev prev' a : ℕ) (cs : List Part)
    → Chain m prev a cs 0
    → (m' : Memory) × (set_prev m (first_at a cs 0) prev' ≡ ok m')
      × Chain m' prev' a cs 0
      × Outside m m' a (end_at a cs)
unfolding set_prev load write
Chain-set_prev m prev prev' a [] h =
    (m, refl, tt, record { before = λ x lt. refl; behind = λ x le. refl })
Chain-set_prev m prev prev' a (c ∷ cs) h =
    let further = le-end_at (after a c) cs in
    let m' = write m a (header c (first_at (after a c) cs 0) prev') in
    let pos : (a == 0) ≡ false = ground arith in
    (
      m',
      rw (pos, h.1),
      (h.0, ground arith, Chain-frame m m' a (after a c) cs 0 (λ x lo hi. ground arith) h.2),
      record { before = λ x lt. ground arith; behind = λ x le. ground arith },
    )
