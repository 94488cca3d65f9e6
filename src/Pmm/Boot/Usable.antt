-- ===== src/Pmm/Boot/Usable.antt =====
-- The usable entries of the memory map of `pmm_init` in src/pmm.c, and what freeing them does.
use cool_os.Prelude.{
  ℕ, ◌+◌, ◌-◌, ◌/◌, ◌%◌, ◌^◌, ◌≤◌, ◌<◌, ◌≡◌, refl, sym, ap₂, ◌∙◌, Bool, true, false, not, ◌&&◌,
  ◌||◌, List, [], ◌∷◌, arith, Bool-cases, inl, inr, All,
}
use cool_os.Pmm.{Pmm, page_size}
use cool_os.Pmm.Invariant.{IsValid, used}
use cool_os.Pmm.Boot.Regions.{between, Marked, free_range-Marked}
use cool_os.Pmm.Boot.{Entry, is_usable, end_of, free_range, free_regions}

-- The frames of an entry, and those of the usable entries of a map.
unfoldable pub in_entry : Entry → ℕ → Bool
in_entry e g = between (e.base / page_size) (end_of e / page_size) g

unfoldable pub in_usable : List Entry → ℕ → Bool
in_usable [] g = false
in_usable (e ∷ es) g = is_usable e && in_entry e g || in_usable es g

-- The boot protocol's promises on the usable entries, as far as the code relies on them: each is
-- aligned to pages, none wraps, and they come in order without overlap.
abbrev pub Behind : Entry → List Entry → Type 0
Behind e [] = Unit {0}
Behind e (d ∷ ds) = (is_usable d ≡ true → e.base + e.length ≤ d.base) × Behind e ds

abbrev pub IsOrdered : List Entry → Type 0
IsOrdered [] = Unit {0}
IsOrdered (e ∷ es) = (is_usable e ≡ true → Behind e es) × IsOrdered es

pub record IsSound (e : Entry) : Type 0 where
  pub no_wrap : e.base + e.length < 2 ^ 64
  pub aligned_base : is_usable e ≡ true → e.base % page_size ≡ 0
  pub aligned_length : is_usable e ≡ true → e.length % page_size ≡ 0

Behind-in_usable :
    (e : Entry) (es : List Entry) (g : ℕ)
    → Behind e es
    → All IsSound es
    → e.base + e.length < 2 ^ 64
    → in_entry e g ≡ true
    → in_usable es g ≡ false
unfolding in_entry in_usable
Behind-in_usable e [] g b sound small h = refl
Behind-in_usable e (d ∷ ds) g b sound small h =
    let rest = Behind-in_usable e ds g b.1 sound.1 small h in
    elim (Bool-cases (is_usable d)) [
      | inl u ↦ let order = b.0 u in let fine = sound.0.no_wrap in ground arith
      | inr u ↦ ground arith
    ]

entry_range :
    (e : Entry) (start n g : ℕ)
    → start ≡ e.base / page_size
    → start + n ≡ end_of e / page_size
    → in_entry e g ≡ between start (start + n) g
unfolding in_entry
entry_range e start n g p q = ap₂ (λ lo hi. between lo hi g) (sym p) (sym q)

-- Only frames of usable entries become free.
pub free_regions-Marked :
    (bound : ℕ) (es : List Entry) (s : Pmm)
    → IsValid s
    → s.frame_count ≡ bound
    → IsOrdered es
    → All IsSound es
    → All (λ e. is_usable e ≡ true → end_of e / page_size ≤ bound) es
    → ((g : ℕ) → in_usable es g ≡ true → used s g ≡ true)
    → Marked s (λ g. not (in_usable es g) && used s g) (free_regions es s)
unfolding free_regions in_usable
free_regions-Marked bound [] s v count order sound fits taken = record {
  valid = v;
  frames = refl;
  bits = λ g. ground arith;
}
free_regions-Marked bound (e ∷ es) s v count order sound fits taken =
    elim (Bool-cases (is_usable e)) [
      | inl u ↦ rw u (
          let start = e.base / page_size in
          let n = end_of e / page_size - start in
          let fine = sound.0.no_wrap in
          let room = fits.0 u in
          let forward : start ≤ end_of e / page_size = omega arith in
          let freed =
            free_range-Marked n start s v (omega arith)
              (λ g lo hi. unfold in_entry in taken g (ground (arith, u))) in
          let rest =
            free_regions-Marked bound es (free_range n start s) freed.valid (freed.frames ∙ count)
              order.1 sound.1 fits.1
              (λ g h. ground (
                arith,
                freed.bits g,
                taken g,
                entry_range e start n g,
                Behind-in_usable e es g (order.0 u) sound.1 fine,
              )) in
          record {
            valid = rest.valid;
            frames = rest.frames ∙ freed.frames;
            bits = λ g. ground (arith, rest.bits g, freed.bits g, entry_range e start n g);
          })
      | inr u ↦ rw u (
          free_regions-Marked bound es s v count order.1 sound.1 fits.1
            (λ g h. taken g (ground (arith, u, h))))
    ]

pub in_usable-lt :
    (bound : ℕ) (es : List Entry) (g : ℕ)
    → All (λ e. is_usable e ≡ true → end_of e / page_size ≤ bound) es
    → in_usable es g ≡ true
    → g < bound
unfolding in_usable in_entry
in_usable-lt bound [] g fits h = cc
in_usable-lt bound (e ∷ es) g fits h = ground (arith, fits.0, in_usable-lt bound es g fits.1)
