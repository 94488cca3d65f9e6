-- ===== src/Heap/Serve.antt =====
-- What `kmalloc` of src/heap.c does to a heap in which a free block is large enough.
use cool_os.Prelude.{
  ℕ, ◌+◌, ◌-◌, ◌<◌, ◌≡◌, inl, inr, refl, sym, ap, ◌∙◌, Bool, true, false, ◌&&◌, ◌||◌, some, List,
  [], ◌∷◌, arith, leb, if◌then◌else◌, Bool-cases,
}
use cool_os.Heap.{Memory, Run, heap_align, block_size, take_block}
use cool_os.Heap.Chain.{
  Part, held, spare, size_of, is_spare, after, end_at, first_at, header, Chain,
}
use cool_os.Heap.Take.{fits, fit_at, carve, Serves, take_block-Serves}

-- The first part that can serve the request, carved up.
unfoldable pub serve : ℕ → List Part → List Part
serve size [] = []
serve size (c ∷ cs) = if fits size c then carve size (size_of c) cs else c ∷ serve size cs

unfoldable pub any_fits : ℕ → List Part → Bool
any_fits size [] = false
any_fits size (c ∷ cs) = fits size c || any_fits size cs

pub first_at-serve : (size a : ℕ) (cs : List Part) → first_at a (serve size cs) 0 ≡ first_at a cs 0
unfolding serve carve
first_at-serve size a [] = refl
first_at-serve size a (c ∷ cs) = elim (Bool-cases (fits size c)) [
  | inr no_fit ↦ rw no_fit refl
  | inl fit ↦ rw fit (elim (Bool-cases (leb (block_size + heap_align) (size_of c - size))) [
    | inl large ↦ rw large refl
    | inr small ↦ rw small refl
  ])
]

pub end_at-serve : (size a : ℕ) (cs : List Part) → end_at a (serve size cs) ≡ end_at a cs
unfolding serve carve fits
end_at-serve size a [] = refl
end_at-serve size a (c ∷ cs) = elim (Bool-cases (is_spare c && leb size (size_of c))) [
  | inr no_fit ↦ rw no_fit (end_at-serve size (after a c) cs)
  | inl fit ↦ rw fit (elim (Bool-cases (leb (block_size + heap_align) (size_of c - size))) [
    | inl large ↦ rw large (ap (λ x. end_at x cs) (ground (arith, fit, large)))
    | inr small ↦ rw small refl
  ])
]

pub fit_at-pos :
    (m : Memory) (size prev a : ℕ) (cs : List Part)
    → Chain m prev a cs 0
    → any_fits size cs ≡ true
    → 0 < fit_at size a cs
unfolding fit_at any_fits
fit_at-pos m size prev a [] h any = ground (arith, any)
fit_at-pos m size prev a (c ∷ cs) h any = elim (Bool-cases (fits size c)) [
  | inl fit ↦ rw fit h.0
  | inr no_fit ↦ rw no_fit (fit_at-pos m size a (after a c) cs h.2 (ground (arith, any, no_fit)))
]

pub fit_at-none : (size a : ℕ) (cs : List Part) → any_fits size cs ≡ false → fit_at size a cs ≡ 0
unfolding fit_at any_fits
fit_at-none size a [] e = refl
fit_at-none size a (c ∷ cs) e = elim (Bool-cases (fits size c)) [
  | inl fit ↦ ground (arith, e, fit)
  | inr no_fit ↦ rw no_fit (fit_at-none size (after a c) cs (ground (arith, e, no_fit)))
]

-- A part in front of the one that serves.
Serves-cons :
    (m : Memory) (prev a p : ℕ) (c : Part) (cs cs' : List Part) (run : Run (ℕ × Memory))
    → Chain m prev a (c ∷ cs) 0
    → first_at (after a c) cs' 0 ≡ first_at (after a c) cs 0
    → Serves m a (after a c) (end_at (after a c) cs) p cs' run
    → Serves m prev a (end_at a (c ∷ cs)) p (c ∷ cs') run
Serves-cons m prev a p c cs cs' run h same e = record {
  memory = e.memory;
  returns = e.returns;
  chain = (
    h.0,
    e.outside.before a (omega arith) ∙ h.1 ∙ ap (λ p. some (header c p prev)) (sym same),
    e.chain,
  );
  outside = record { before = λ x lt. e.outside.before x (omega arith); behind = e.outside.behind };
}

take_fitting :
    (m : Memory) (size prev a : ℕ) (c : Part) (cs : List Part)
    → Chain m prev a (c ∷ cs) 0
    → fits size c ≡ true
    → Serves m prev a
        (end_at a (c ∷ cs))
        (a + block_size)
        (carve size (size_of c) cs)
        (take_block m a size)
unfolding fits
take_fitting m size prev a (held s) cs h fit = ground (arith, fit)
take_fitting m size prev a (spare s) cs h fit = take_block-Serves m prev a s size cs h

-- The block that the walk finds, taken.
pub serve-Serves :
    (m : Memory) (size prev a : ℕ) (cs : List Part)
    → Chain m prev a cs 0
    → any_fits size cs ≡ true
    → Serves m prev a
        (end_at a cs)
        (fit_at size a cs + block_size)
        (serve size cs)
        (take_block m (fit_at size a cs) size)
unfolding serve any_fits fit_at
serve-Serves m size prev a [] h any = ground (arith, any)
serve-Serves m size prev a (c ∷ cs) h any = elim (Bool-cases (fits size c)) [
  | inl fit ↦ rw fit (take_fitting m size prev a c cs h fit)
  | inr no_fit ↦
      let b = after a c in
      let rest = serve-Serves m size a b cs h.2 (ground (arith, any, no_fit)) in
      rw no_fit (
        Serves-cons m prev a (fit_at size b cs + block_size) c cs (serve size cs)
          (take_block m (fit_at size b cs) size) h (first_at-serve size b cs) rest)
]
