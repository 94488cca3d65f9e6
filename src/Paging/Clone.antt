-- ===== src/Paging/Clone.antt =====
-- The top table of a new address space, as src/task.c makes it with src/paging.c: cleared, with the
-- kernel's half copied.
use cool_os.Prelude.{
  ℕ, zero, suc, ◌+◌, ◌≤◌, ◌<◌, ◌≡◌, ◌≢◌, ◌⊎◌, inl, inr, refl, sym, ap, subst, ◌∙◌, true, false, not,
  ◌&&◌, arith, ◌==◌, ltb, Bool-cases,
}
use cool_os.Paging.{Machine, slot, store, clear_frame, clone_from, clone_kernel_mappings}

-- Two tables of 512 entries that share no word.
abbrev pub Apart : ℕ → ℕ → Type 0
Apart a b = (a + 4096 ≤ b) ⊎ (b + 4096 ≤ a)

store_self : (p w : ℕ) (m : Machine) → (store p w m).words p ≡ w
unfolding store
store_self p w m = let same : (p == p) ≡ true = ground arith in rw same refl

store_other : (p w q : ℕ) (m : Machine) → q ≢ p → (store p w m).words q ≡ m.words q
unfolding store
store_other p w q m other = let apart : (q == p) ≡ false = ground (arith, other) in rw apart refl

kernel_store : (p w : ℕ) (m : Machine) → (store p w m).kernel_cr3 ≡ m.kernel_cr3
unfolding store
kernel_store p w m = refl

-- `n` entries from `i` on are those of the kernel's table; every other word is as it was.
pub record Cloned (n i pml4 : ℕ) (m m' : Machine) : Type 0 where
  pub copied : (j : ℕ) → i ≤ j → j < i + n → m'.words (slot pml4 j) ≡ m.words (slot m.kernel_cr3 j)
  pub kept : (q : ℕ) → (q < slot pml4 i) ⊎ (slot pml4 (i + n) ≤ q) → m'.words q ≡ m.words q

pub clone_from-Cloned :
    (n i pml4 : ℕ) (m : Machine)
    → i + n ≤ 512
    → Apart pml4 m.kernel_cr3
    → Cloned n i pml4 m (clone_from n i pml4 m)
unfolding clone_from
clone_from-Cloned zero i pml4 m small apart = record {
  copied = λ j above below. absurd (omega (arith, above, below));
  kept = λ q out. refl;
}
clone_from-Cloned (suc n) i pml4 m small apart =
    let m₁ = store (slot pml4 i) (m.words (slot m.kernel_cr3 i)) m in
    let same = kernel_store (slot pml4 i) (m.words (slot m.kernel_cr3 i)) m in
    let rest =
      clone_from-Cloned n (i + 1) pml4 m₁ (omega (arith, small))
        (subst (Apart pml4) (sym same) apart) in
    record {
      copied = λ j above below. elim (Bool-cases (j == i)) [
        | inl here ↦
            let at : j ≡ i = ground (arith, here) in
            subst
              (λ k.
                (clone_from n (i + 1) pml4 m₁).words (slot pml4 k) ≡ m.words (slot m.kernel_cr3 k))
              (sym at)
              (rest.kept (slot pml4 i) (inl (omega arith))
                ∙ store_self (slot pml4 i) (m.words (slot m.kernel_cr3 i)) m)
        | inr further ↦
            rest.copied j (ground (arith, further)) (omega (arith, below))
            ∙ ap (λ k. m₁.words (slot k j)) same
            ∙ store_other (slot pml4 i) (m.words (slot m.kernel_cr3 i)) (slot m.kernel_cr3 j) m
                (λ at. ground (arith, apart, at, below, small))
      ];
      kept = λ q out.
          rest.kept q (ground (arith, out))
          ∙ store_other (slot pml4 i) (m.words (slot m.kernel_cr3 i)) q m
              (λ at. ground (arith, out, at));
    }

-- A new address space: nothing in the user half, and the kernel's half of the table that the kernel booted
-- with.
pub record IsAddressSpace (pml4 : ℕ) (m m' : Machine) : Type 0 where
  pub user : (j : ℕ) → j < 256 → m'.words (slot pml4 j) ≡ 0
  pub kernel : (j : ℕ) → 256 ≤ j → j < 512 → m'.words (slot pml4 j) ≡ m.words (slot m.kernel_cr3 j)
  pub kept : (q : ℕ) → (q < pml4) ⊎ (pml4 + 4096 ≤ q) → m'.words q ≡ m.words q

cleared : (pml4 q : ℕ) (m : Machine) → pml4 ≤ q → q < pml4 + 4096 → (clear_frame pml4 m).words q ≡ 0
unfolding clear_frame
cleared pml4 q m above below =
    let inside : not (ltb q pml4) && ltb q (pml4 + 4096) ≡ true = ground (arith, above, below) in
    rw inside refl

uncleared :
    (pml4 q : ℕ) (m : Machine)
    → (q < pml4) ⊎ (pml4 + 4096 ≤ q)
    → (clear_frame pml4 m).words q ≡ m.words q
unfolding clear_frame
uncleared pml4 q m out =
    let outside : not (ltb q pml4) && ltb q (pml4 + 4096) ≡ false = ground (arith, out) in
    rw outside refl

kernel_clear : (pml4 : ℕ) (m : Machine) → (clear_frame pml4 m).kernel_cr3 ≡ m.kernel_cr3
unfolding clear_frame
kernel_clear pml4 m = refl

-- A table in a frame apart from the kernel's table, cleared and with `paging_clone_kernel_mappings`, is a new address
-- space, and no word outside the frame changes.
pub clone_kernel_mappings-IsAddressSpace :
    (pml4 : ℕ) (m : Machine)
    → Apart pml4 m.kernel_cr3
    → IsAddressSpace pml4 m (clone_kernel_mappings pml4 (clear_frame pml4 m))
clone_kernel_mappings-IsAddressSpace pml4 m apart =
    let same = kernel_clear pml4 m in
    let c =
      clone_from-Cloned 256 256 pml4 (clear_frame pml4 m) (omega arith)
        (subst (Apart pml4) (sym same) apart) in
    record {
      user = λ j under.
          c.kept (slot pml4 j) (inl (omega (arith, under)))
          ∙ cleared pml4 (slot pml4 j) m (omega arith) (omega (arith, under));
      kernel = λ j above under.
          c.copied j above (omega (arith, under))
          ∙ ap (λ k. (clear_frame pml4 m).words (slot k j)) same
          ∙ uncleared pml4 (slot m.kernel_cr3 j) m (beside j under);
      kept = λ q out. c.kept q (ground (arith, out)) ∙ uncleared pml4 q m out;
    }
  where
    beside : (j : ℕ) → j < 512 → (slot m.kernel_cr3 j < pml4) ⊎ (pml4 + 4096 ≤ slot m.kernel_cr3 j)
    beside j under = elim apart [
      | inl low ↦ inr (omega (arith, low))
      | inr high ↦ inl (omega (arith, high, under))
    ]
