-- ===== src/Heap/Release.antt =====
-- `kfree` of src/heap.c on a whole arena: the block that is given back and its spare neighbours
-- become one spare part, and nothing else moves.
use cool_os.Prelude.{
  ℕ, ◌+◌, ◌-◌, ◌≡◌, refl, subst, sym, ap, ◌∙◌, false, some, List, [], ◌∷◌, ◌++◌, arith, ◌==◌,
}
use cool_os.Heap.{Memory, Run, ok, ◌>>=◌, block_size, free_block, release, merge_prev, kfree}
use cool_os.Heap.Chain.{
  Part, held, spare, after, end_at, first_at, header, Chain, load-header, free_block-spare,
  free_block-held,
}
use cool_os.Heap.Free.{join_next, Ends, Outside-trans, grown, grown-Ends, release-Ends}

-- The spare part at the head of a chain joins the part before it, if that one is spare.
unfoldable pub join_one : Part → List Part → List Part
join_one (spare t) (spare u ∷ r) = spare (t + (block_size + u)) ∷ r
join_one c cs = c ∷ cs

unfoldable pub join_prev : List Part → List Part → List Part
join_prev [] cs = cs
join_prev (c ∷ []) cs = join_one c cs
join_prev (c ∷ d ∷ l) cs = c ∷ join_prev (d ∷ l) cs

give_back : Memory → ℕ → Run Memory
give_back m a = release m a >>= λ m'. merge_prev m' a

-- The first merge leaves a spare part in front.
joined : (s : ℕ) (r : List Part) → (u : ℕ) × (r' : List Part) × (join_next s r ≡ spare u ∷ r')
unfolding join_next
joined s [] = (s, [], refl)
joined s (held t ∷ r) = (s, held t ∷ r, refl)
joined s (spare t ∷ r) = (s + (block_size + t), r, refl)

module _ (m : Memory) (a u : ℕ) (r : List Part) where
  -- No block before, or one that is held: the second merge does nothing.
  merge_prev_first : Chain m 0 a (spare u ∷ r) 0 → merge_prev m a ≡ ok m
  unfolding merge_prev free_block
  merge_prev_first h = rw (load-header m a (first_at (after a (spare u)) r 0) 0 (spare u) h.0 h.1)

  merge_prev_held :
      (prev t next p : ℕ)
      → Chain m p a (spare u ∷ r) 0
      → m p ≡ some (header (held t) next prev)
      → merge_prev m a ≡ ok m
  unfolding merge_prev
  merge_prev_held prev t next p h e = rw (
    load-header m a (first_at (after a (spare u)) r 0) p (spare u) h.0 h.1,
    ◌>>=◌,
    free_block-held m p next prev t e,
  )

merge_prev_spare :
    (m : Memory) (prev p t u : ℕ) (r : List Part)
    → Chain m prev p (spare t ∷ spare u ∷ r) 0
    → Ends m prev p
        (end_at p (spare t ∷ spare u ∷ r))
        (spare (t + (block_size + u)) ∷ r)
        (merge_prev m (after p (spare t)))
unfolding merge_prev grown
merge_prev_spare m prev p t u r h =
    let a = after p (spare t) in
    let big = t + (block_size + u) in
    let same : after a (spare u) ≡ after p (spare big) = omega arith in
    let e = grown-Ends m prev a p big r h.0 (subst (λ x. Chain m a x r 0) same h.2.2) in
    let behind = first_at (after a (spare u)) r 0 in
    record {
      memory = e.memory;
      returns =
          rw
            (
              load-header m a behind p (spare u) h.2.0 h.2.1,
              ◌>>=◌,
              free_block-spare m p a prev t h.0 h.1,
            )
            (rw same e.returns);
      chain = e.chain;
      outside = rw same e.outside;
    }

first_at-join_prev :
    (c : Part) (l : List Part) (u a : ℕ) (r : List Part)
    → first_at a (join_prev (c ∷ l) (spare u ∷ r)) 0 ≡ a
unfolding join_prev join_one
first_at-join_prev (held t) [] u a r = refl
first_at-join_prev (spare t) [] u a r = refl
first_at-join_prev c (d ∷ l) u a r = refl

-- A part in front of a stretch that a run rewrites, and whose address stays.
Ends-cons :
    (m : Memory) (prev a : ℕ) (c : Part) (cs cs' : List Part) (run : Run Memory)
    → Chain m prev a (c ∷ cs) 0
    → first_at (after a c) cs' 0 ≡ first_at (after a c) cs 0
    → Ends m a (after a c) (end_at (after a c) cs) cs' run
    → Ends m prev a (end_at a (c ∷ cs)) (c ∷ cs') run
Ends-cons m prev a c cs cs' run h same e = record {
  memory = e.memory;
  returns = e.returns;
  chain = (
    h.0,
    e.outside.before a (omega arith) ∙ h.1 ∙ ap (λ p. some (header c p prev)) (sym same),
    e.chain,
  );
  outside = record { before = λ x lt. e.outside.before x (omega arith); behind = e.outside.behind };
}

merge_prev-Ends :
    (m : Memory) (prev a : ℕ) (c : Part) (l : List Part) (u : ℕ) (r : List Part)
    → Chain m prev a (c ∷ l ++ spare u ∷ r) 0
    → Ends m prev a
        (end_at a (c ∷ l ++ spare u ∷ r))
        (join_prev (c ∷ l) (spare u ∷ r))
        (merge_prev m (end_at a (c ∷ l)))
unfolding join_prev join_one
merge_prev-Ends m prev a (held t) [] u r h = record {
  memory = m;
  returns = merge_prev_held m (after a (held t)) u r prev t (after a (held t)) a h.2 h.1;
  chain = h;
  outside = record { before = λ x lt. refl; behind = λ x le. refl };
}
merge_prev-Ends m prev a (spare t) [] u r h = merge_prev_spare m prev a t u r h
merge_prev-Ends m prev a c (d ∷ l) u r h =
    let merged = join_prev (d ∷ l) (spare u ∷ r) in
    let run = merge_prev m (end_at a (c ∷ d ∷ l)) in
    Ends-cons m prev a c (d ∷ l ++ spare u ∷ r) merged run h
      (first_at-join_prev d l u (after a c) r) (merge_prev-Ends m a (after a c) d l u r h.2)

first_at-join_next :
    (l r : List Part) (s a : ℕ) → first_at a (l ++ join_next s r) 0 ≡ first_at a (l ++ held s ∷ r) 0
unfolding join_next
first_at-join_next [] [] s a = refl
first_at-join_next [] (held t ∷ r) s a = refl
first_at-join_next [] (spare t ∷ r) s a = refl
first_at-join_next (d ∷ l) r s a = refl

pub end_at-join_next :
    (l r : List Part) (s a : ℕ) → end_at a (l ++ join_next s r) ≡ end_at a (l ++ held s ∷ r)
unfolding join_next
end_at-join_next [] [] s a = refl
end_at-join_next [] (held t ∷ r) s a = refl
end_at-join_next [] (spare t ∷ r) s a = ap (λ x. end_at x r) (omega arith)
end_at-join_next (d ∷ l) r s a = end_at-join_next l r s (after a d)

release-after :
    (m : Memory) (prev a s : ℕ) (l r : List Part)
    → Chain m prev a (l ++ held s ∷ r) 0
    → Ends m prev a (end_at a (l ++ held s ∷ r)) (l ++ join_next s r) (release m (end_at a l))
release-after m prev a s [] r h = release-Ends m prev a s r h
release-after m prev a s (c ∷ l) r h =
    Ends-cons m prev a c (l ++ held s ∷ r) (l ++ join_next s r) (release m (end_at a (c ∷ l))) h
      (first_at-join_next l r s (after a c)) (release-after m a (after a c) s l r h.2)

-- Both merges, one after the other.
merged :
    (m : Memory) (a s : ℕ) (l r : List Part)
    → (e : Ends m 0 a (end_at a (l ++ held s ∷ r)) (l ++ join_next s r) (release m (end_at a l)))
    → Ends e.memory 0 a
        (end_at a (l ++ held s ∷ r))
        (join_prev l (join_next s r))
        (merge_prev e.memory (end_at a l))
unfolding join_prev
merged m a s [] r e =
    let (u, r', is) = joined s r in
    record {
      memory = e.memory;
      returns = merge_prev_first e.memory a u r' (subst (λ x. Chain e.memory 0 a x 0) is e.chain);
      chain = e.chain;
      outside = record { before = λ x lt. refl; behind = λ x le. refl };
    }
merged m a s (c ∷ l) r e =
    let (u, r', is) = joined s r in
    let chain = subst (λ x. Chain e.memory 0 a (c ∷ l ++ x) 0) is e.chain in
    let stretch = end_at-join_next (c ∷ l) r s a in
    rw (sym stretch, is) (merge_prev-Ends e.memory 0 a c l u r' chain)

-- Every byte count is kept: the block's own and its neighbours' headers become payload.
pub kfree-Ends :
    (m : Memory) (a s : ℕ) (l r : List Part)
    → Chain m 0 a (l ++ held s ∷ r) 0
    → Ends m 0 a
        (end_at a (l ++ held s ∷ r))
        (join_prev l (join_next s r))
        (kfree m (end_at a l + block_size))
unfolding kfree
kfree-Ends m a s l r h =
    let e = release-after m 0 a s l r h in
    let e' = merged m a s l r e in
    let null : ((end_at a l + block_size) == 0) ≡ false = ground arith in
    let block : end_at a l + block_size - block_size ≡ end_at a l = omega arith in
    record {
      memory = e'.memory;
      returns = rw (null, block, e.returns, ◌>>=◌) e'.returns;
      chain = e'.chain;
      outside = Outside-trans e.outside e'.outside (omega arith);
    }
