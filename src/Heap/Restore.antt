-- ===== src/Heap/Restore.antt =====
-- `kfree` of src/heap.c keeps an arena well formed, and undoes `kmalloc`.
use cool_os.Prelude.{
  ℕ, ◌+◌, ◌-◌, ◌≤◌, ◌≡◌, refl, subst, sym, ap, ◌∙◌, true, false, List, [], ◌∷◌, ◌++◌, arith, leb,
  Bool-cases, inl, inr,
}
use cool_os.Heap.{Memory, ok, heap_align, block_size, take_block, kfree}
use cool_os.Heap.Chain.{Part, held, spare, after, end_at, Chain, Outside}
use cool_os.Heap.Free.{join_next}
use cool_os.Heap.Release.{join_one, join_prev, end_at-join_next, kfree-Ends}
use cool_os.Heap.Settled.{settled, settled-join_prev, settled-serve}
use cool_os.Heap.Take.{fits, fit_at, carve}
use cool_os.Heap.Serve.{serve, any_fits, end_at-serve, serve-Serves}

-- Where the first fit is.
record Found (size a : ℕ) (cs : List Part) : Type 0 where
  l : List Part
  s : ℕ
  r : List Part
  is : cs ≡ l ++ spare s ∷ r
  at : fit_at size a cs ≡ end_at a l
  served : serve size cs ≡ l ++ carve size s r
  enough : size ≤ s

Found-later :
    {size a : ℕ} {c : Part} {cs : List Part}
    → fits size c ≡ false
    → Found size (after a c) cs
    → Found size a (c ∷ cs)
unfolding serve fit_at
Found-later {size} {a} {c} {cs} no_fit f = record {
  l = c ∷ f.l;
  s = f.s;
  r = f.r;
  is = ap (λ x. c ∷ x) f.is;
  at = rw no_fit f.at;
  served = rw no_fit (ap (λ x. c ∷ x) f.served);
  enough = f.enough;
}

Found-here : (size a s : ℕ) (cs : List Part) → leb size s ≡ true → Found size a (spare s ∷ cs)
unfolding serve fit_at fits
Found-here size a s cs fit = record {
  l = [];
  s = s;
  r = cs;
  is = refl;
  at = rw fit refl;
  served = rw fit refl;
  enough = ground (arith, fit);
}

find_first : (size a : ℕ) (cs : List Part) → any_fits size cs ≡ true → Found size a cs
unfolding any_fits fits
find_first size a [] any = ground (arith, any)
find_first size a (held s ∷ cs) any =
    Found-later (unfold fits in refl) (find_first size (after a (held s)) cs any)
find_first size a (spare s ∷ cs) any = elim (Bool-cases (leb size s)) [
  | inl fit ↦ Found-here size a s cs fit
  | inr no_fit ↦
      Found-later no_fit (find_first size (after a (spare s)) cs (ground (arith, any, no_fit)))
]

-- A spare part between parts that are not spare joins nothing.
join_prev-settled :
    (l : List Part) (s : ℕ) (r : List Part)
    → settled (l ++ spare s ∷ r) ≡ true
    → join_prev l (spare s ∷ r) ≡ l ++ spare s ∷ r
unfolding settled join_prev join_one
join_prev-settled [] s r h = refl
join_prev-settled (held t ∷ []) s r h = refl
join_prev-settled (spare t ∷ []) s r h = ground (arith, h)
join_prev-settled (c ∷ d ∷ l) s r h =
    ap (λ x. c ∷ x) (join_prev-settled (d ∷ l) s r (ground (arith, h)))

join_next-settled :
    (s : ℕ) (r : List Part) → settled (spare s ∷ r) ≡ true → join_next s r ≡ spare s ∷ r
unfolding settled join_next
join_next-settled s [] h = refl
join_next-settled s (held t ∷ r) h = refl
join_next-settled s (spare t ∷ r) h = ground (arith, h)

settled-drop : (l cs : List Part) → settled (l ++ cs) ≡ true → settled cs ≡ true
unfolding settled
settled-drop [] cs h = h
settled-drop (c ∷ l) cs h = settled-drop l cs (ground (arith, h))

-- What was carved off joins again.
record Rejoined (size s : ℕ) (r : List Part) : Type 0 where
  u : ℕ
  r' : List Part
  carved : carve size s r ≡ held u ∷ r'
  back : join_next u r' ≡ spare s ∷ r

rejoined :
    (size s : ℕ) (r : List Part) → size ≤ s → settled (spare s ∷ r) ≡ true → Rejoined size s r
unfolding carve
rejoined size s r enough h = elim (Bool-cases (leb (block_size + heap_align) (s - size))) [
  | inl large ↦
      let whole : size + (block_size + (s - size - block_size)) ≡ s = ground (arith, large) in
      record {
        u = size;
        r' = spare (s - size - block_size) ∷ r;
        carved = rw large refl;
        back = unfold join_next in ap (λ x. spare x ∷ r) whole;
      }
  | inr small ↦ record { u = s; r' = r; carved = rw small refl; back = join_next-settled s r h }
]

pub end_at-join_prev : (l cs : List Part) (a : ℕ) → end_at a (join_prev l cs) ≡ end_at a (l ++ cs)
unfolding join_prev join_one
end_at-join_prev [] cs a = refl
end_at-join_prev (held t ∷ []) cs a = refl
end_at-join_prev (spare t ∷ []) [] a = refl
end_at-join_prev (spare t ∷ []) (held u ∷ cs) a = refl
end_at-join_prev (spare t ∷ []) (spare u ∷ cs) a = ap (λ x. end_at x cs) (omega arith)
end_at-join_prev (c ∷ d ∷ l) cs a = end_at-join_prev (d ∷ l) cs (after a c)

-- An arena between `a` and `hi`: linked blocks that fill it, no two free ones side by side.
pub record IsArena (m : Memory) (a hi : ℕ) (cs : List Part) : Type 0 where
  pub chain : Chain m 0 a cs 0
  pub apart : settled cs ≡ true
  pub fills : end_at a cs ≡ hi

-- In a well-formed arena `kfree` of a held block's payload succeeds and leaves a well-formed arena
-- with the same bounds: the block is free, in one with the free blocks on either side of it, every
-- other block is as it was, and no header outside the arena changes.
pub kfree_lem :
    (m : Memory) (a hi s : ℕ) (l r : List Part)
    → IsArena m a hi (l ++ held s ∷ r)
    → (m' : Memory) × (kfree m (end_at a l + block_size) ≡ ok m')
      × IsArena m' a hi (join_prev l (join_next s r))
      × Outside m m' a hi
kfree_lem m a hi s l r h =
    let e = kfree-Ends m a s l r h.chain in
    (
      e.memory,
      e.returns,
      record {
        chain = e.chain;
        apart = settled-join_prev l s r h.apart;
        fills = end_at-join_prev l (join_next s r) a ∙ end_at-join_next l r s a ∙ h.fills;
      },
      subst (λ x. Outside m e.memory a x) h.fills e.outside,
    )

-- When a well-formed arena has a free block for a request, taking the first such block succeeds and
-- leaves a well-formed arena; `kfree` of the address that is returned succeeds too, and restores
-- every header of the arena's blocks as it was.
pub kfree-take_block :
    (m : Memory) (a hi size : ℕ) (cs : List Part)
    → IsArena m a hi cs
    → any_fits size cs ≡ true
    → (m₁ : Memory) × (m₂ : Memory) × (take_block m (fit_at size a cs) size
        ≡ ok (fit_at size a cs + block_size, m₁))
      × IsArena m₁ a hi (serve size cs)
      × (kfree m₁ (fit_at size a cs + block_size) ≡ ok m₂)
      × IsArena m₂ a hi cs
kfree-take_block m a hi size cs h any =
    let e = serve-Serves m size 0 a cs h.chain any in
    let f = find_first size a cs any in
    let rest = settled-drop f.l (spare f.s ∷ f.r) (subst (λ x. settled x ≡ true) f.is h.apart) in
    let back = rejoined size f.s f.r f.enough rest in
    let after_take : IsArena e.memory a hi (serve size cs) = record {
      chain = e.chain;
      apart = settled-serve size cs h.apart;
      fills = end_at-serve size a cs ∙ h.fills;
    } in
    let split : serve size cs ≡ f.l ++ held back.u ∷ back.r' =
      f.served ∙ ap (λ x. f.l ++ x) back.carved in
    let (m₂, freed, arena, out) =
      kfree_lem e.memory a hi back.u f.l back.r' (subst (IsArena e.memory a hi) split after_take) in
    let whole : join_prev f.l (join_next back.u back.r') ≡ cs =
      ap (join_prev f.l) back.back
      ∙ join_prev-settled f.l f.s f.r (subst (λ x. settled x ≡ true) f.is h.apart)
      ∙ sym f.is in
    (e.memory, m₂, e.returns, after_take, rw f.at freed, subst (IsArena m₂ a hi) whole arena)
