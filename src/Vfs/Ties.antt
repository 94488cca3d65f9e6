-- ===== src/Vfs/Ties.antt =====
-- The descriptors of src/vfs.c: each stands for an open file of the reader, and no two for one.
use cool_os.Prelude.{
  ℕ, zero, suc, ◌≡◌, ◌≢◌, refl, sym, subst, ap, ◌∙◌, true, inl, inr, ◌⊎◌, some, List, [], ◌∷◌,
  get_elem?, set, lookup-set_ne, ℕ_discrete,
}
use cool_os.Fat.{File}
use cool_os.Vfs.{Slot, Vfs}

-- Descriptor `i` is in use, and stands for descriptor `k` of the reader.
pub record Ties (fds : List Slot) (i k : ℕ) : Type 0 where
  pub slot : Slot
  pub entry : get_elem? fds i ≡ some slot
  pub in_use : slot.in_use ≡ true
  pub target : slot.fat_fd ≡ some k

-- Descriptor `k` of the reader is open.
pub record IsLive (fs : List File) (k : ℕ) : Type 0 where
  pub file : File
  pub entry : get_elem? fs k ≡ some file
  pub in_use : file.in_use ≡ true

-- Every descriptor in use stands for one of the reader that is open, and no two for the same.
pub record IsTied (s : Vfs) : Type 0 where
  pub tied :
      (i : ℕ) (slot : Slot)
      → get_elem? s.fds i ≡ some slot
      → slot.in_use ≡ true
      → (k : ℕ) × (slot.fat_fd ≡ some k)
  pub live : (i k : ℕ) → Ties s.fds i k → IsLive s.volume.open_files k
  pub apart : (i j k : ℕ) → Ties s.fds i k → Ties s.fds j k → i ≡ j

module _ {A : Type 0} where
  pub lookup-set_self :
      (xs : List A) (i : ℕ) (x y : A) → get_elem? xs i ≡ some y → get_elem? (set xs i x) i ≡ some x
  lookup-set_self [] i x y e = cc
  lookup-set_self (z ∷ xs) zero x y e = refl
  lookup-set_self (z ∷ xs) (suc i) x y e = lookup-set_self xs i x y e

  -- What stands at the place that was written.
  pub lookup-set : (xs : List A) (i : ℕ) (x y : A) → get_elem? (set xs i x) i ≡ some y → y ≡ x
  lookup-set [] i x y e = cc
  lookup-set (z ∷ xs) zero x y e = cc
  lookup-set (z ∷ xs) (suc i) x y e = lookup-set xs i x y e

pub Ties-set :
    (fds : List Slot) (vfd fat_fd i k : ℕ)
    → Ties (set fds vfd (record { in_use = true; fat_fd = some fat_fd })) i k
    → ((vfd ≡ i) × (fat_fd ≡ k)) ⊎ ((vfd ≢ i) × Ties fds i k)
Ties-set fds vfd fat_fd i k t =
    let slot : Slot = record { in_use = true; fat_fd = some fat_fd } in
    elim (ℕ_discrete vfd i) [
      | yes same ↦
          let entry =
            subst (λ j. get_elem? (set fds vfd slot) j ≡ some t.slot) (sym same) t.entry in
          let is : t.slot ≡ slot = lookup-set fds vfd slot t.slot entry in
          let targets : some fat_fd ≡ some k = sym (ap (λ x. x.fat_fd) is) ∙ t.target in
          inl (same, cc)
      | no ne ↦ inr (
        ne,
        record {
          slot = t.slot;
          entry = sym (lookup-set_ne fds vfd i slot ne) ∙ t.entry;
          in_use = t.in_use;
          target = t.target;
        },
      )
    ]
