-- ===== src/Pmm/Boot/Setup.antt =====
-- What `pmm_init` of src/pmm.c sets up: a valid state in which exactly the usable frames are free,
-- less those of the bitmap and of the kernel.
use cool_os.Prelude.{
  ℕ, ◌+◌, ◌-◌, ◌/◌, ◌^◌, ◌≤◌, ◌<◌, ◌≡◌, ◌≢◌, refl, sym, ◌∙◌, Bool, true, false, not, ◌&&◌, ◌||◌,
  some, List, [], ◌∷◌, arith, ltb, leb, ◌==◌, if◌then◌else◌, Bool-cases, inl, inr, All,
  length-replicate,
}
use cool_os.Pmm.{Pmm, page_size}
use cool_os.Pmm.Bitmap.{bitmap_test-replicate, replicate-All}
use cool_os.Pmm.Frames.{free_below-all_used}
use cool_os.Pmm.Invariant.{IsValid, used}
use cool_os.Pmm.Boot.{
  Entry, is_usable, is_ram, end_of, max_end, find_bitmap, free_regions, reserve, reserve_below,
  kernel_size, touched_end, blank, init,
}
use cool_os.Pmm.Boot.Regions.{between, Marked, reserve-Marked, reserve_below-Marked}
use cool_os.Pmm.Boot.Usable.{in_usable, IsOrdered, IsSound, free_regions-Marked, in_usable-lt}

max_end-ge : (acc : ℕ) (es : List Entry) → acc ≤ max_end acc es
unfolding max_end
max_end-ge acc [] = omega arith
max_end-ge acc (e ∷ es) =
    ground (arith, max_end-ge (if is_ram e && ltb acc (end_of e) then end_of e else acc) es)

max_end-lt : (acc : ℕ) (es : List Entry) → acc < 2 ^ 64 → max_end acc es < 2 ^ 64
unfolding max_end
max_end-lt acc [] h = h
max_end-lt acc (e ∷ es) h =
    max_end-lt (if is_ram e && ltb acc (end_of e) then end_of e else acc) es (ground arith)

usable-is_ram : (e : Entry) → is_usable e ≡ true → is_ram e ≡ true
usable-is_ram e h = ground (arith, h)

max_end-All :
    (acc : ℕ) (es : List Entry)
    → All (λ e. is_usable e ≡ true → end_of e / page_size ≤ max_end acc es / page_size) es
unfolding max_end
max_end-All acc [] = tt
max_end-All acc (e ∷ es) =
    let acc' = if is_ram e && ltb acc (end_of e) then end_of e else acc in
    let up = max_end-ge acc' es in (λ u. ground (arith, up, usable-is_ram e u), max_end-All acc' es)

find_bitmap-fits :
    (bound size : ℕ) (es : List Entry)
    → All IsSound es
    → All (λ e. is_usable e ≡ true → end_of e / page_size ≤ bound) es
    → find_bitmap size es ≢ 0
    → (touched_end (find_bitmap size es) size ≤ bound)
      × (find_bitmap size es / page_size ≤ touched_end (find_bitmap size es) size)
unfolding find_bitmap
find_bitmap-fits bound size [] sound fits ne = absurd (ne refl)
find_bitmap-fits bound size (e ∷ es) sound fits ne =
    elim (Bool-cases (is_usable e && leb size e.length)) [
      | inl here ↦
          let u : is_usable e ≡ true = ground (arith, here) in
          let room : size ≤ e.length = ground (arith, here) in
          let below = fits.0 u in
          let base = sound.0.aligned_base u in
          let len = sound.0.aligned_length u in
          let fine = sound.0.no_wrap in rw here (omega arith, omega arith)
      | inr next ↦ rw next (find_bitmap-fits bound size es sound.1 fits.1 (rw next at ne))
    ]

module _ (max phys : ℕ) (small : max < 2 ^ 64) where
  blank-used : (g : ℕ) → g < max / page_size → used (blank max phys) g ≡ true
  unfolding blank used
  blank-used g h = bitmap_test-replicate ((max / page_size + 7) / 8) g (omega arith)

  blank-IsValid : IsValid (blank max phys)
  unfolding blank
  blank-IsValid = record {
    bytes = replicate-All ((max / page_size + 7) / 8);
    covers = omega (arith, length-replicate {A = ℕ} ((max / page_size + 7) / 8) 0xff);
    addressable = omega arith;
    counted = sym (free_below-all_used (used (blank max phys)) (max / page_size) blank-used);
  }

between_rest : (lo hi g : ℕ) → between lo (lo + (hi - lo)) g ≡ between lo hi g
between_rest lo hi g = ground arith

-- The frames that hold the bitmap, and those of the kernel's image.
unfoldable pub in_bitmap : List Entry → ℕ → Bool
in_bitmap memmap =
    let size = (max_end 0 memmap / page_size + 7) / 8 in
    let phys = find_bitmap size memmap in between (phys / page_size) (touched_end phys size)

unfoldable pub in_kernel : List Entry → ℕ → ℕ → Bool
in_kernel memmap kernel_base g =
    ltb 0 (kernel_size kernel_base memmap)
    && between (kernel_base / page_size) (touched_end kernel_base (kernel_size kernel_base memmap))
        g

module _ (memmap : List Entry) (kernel_base : ℕ) (order : IsOrdered memmap)
    (sound : All IsSound memmap)
    (placed : find_bitmap ((max_end 0 memmap / page_size + 7) / 8) memmap ≢ 0) where
  kernel-Marked :
      (s : Pmm)
      → IsValid s
      → let len = kernel_size kernel_base memmap in
        let start = kernel_base / page_size in
        Marked s
          (λ g. in_kernel memmap kernel_base g && ltb g s.frame_count || used s g)
          (if ltb 0 len then reserve_below (touched_end kernel_base len - start) start s else s)
  unfolding in_kernel
  kernel-Marked s v =
      let len = kernel_size kernel_base memmap in
      let start = kernel_base / page_size in
      let n = touched_end kernel_base len - start in
      elim (Bool-cases (ltb 0 len)) [
        | inl some_kernel ↦
            let m = reserve_below-Marked n start s v in
            rw some_kernel (record {
              valid = m.valid;
              frames = m.frames;
              bits =
                  λ g. ground (arith, m.bits g, between_rest start (touched_end kernel_base len) g);
            })
        | inr no_kernel ↦
            rw no_kernel (record { valid = v; frames = refl; bits = λ g. ground arith })
      ]

  freed-Marked :
      (phys : ℕ)
      → Marked
          (blank (max_end 0 memmap) phys)
          (λ g. not (in_usable memmap g) && used (blank (max_end 0 memmap) phys) g)
          (free_regions memmap (blank (max_end 0 memmap) phys))
  freed-Marked phys =
      let small = max_end-lt 0 memmap (omega arith) in
      let fits = max_end-All 0 memmap in
      free_regions-Marked (max_end 0 memmap / page_size) memmap _
        (blank-IsValid (max_end 0 memmap) phys small) (unfold blank in refl) order sound fits
        (λ g h. blank-used (max_end 0 memmap) phys small g (in_usable-lt _ memmap g fits h))

  -- On a map that keeps the boot protocol's promises, with a region for the bitmap that does not
  -- begin at address 0, `pmm_init` leaves a valid state for all the frames below the highest end,
  -- and a frame below the last one is free exactly when it belongs to a usable region and neither
  -- to the bitmap nor to the kernel.
  pub init_lem :
      (s : Pmm) × (init memmap kernel_base ≡ some s)
      × IsValid s
      × (s.frame_count ≡ max_end 0 memmap / page_size)
      × ((g : ℕ)
          → g < s.frame_count
          → used s g
            ≡ (not (in_usable memmap g) || in_bitmap memmap g || in_kernel memmap kernel_base g))
  unfolding init blank in_bitmap
  init_lem =
      let max = max_end 0 memmap in
      let size = (max / page_size + 7) / 8 in
      let phys = find_bitmap size memmap in
      let start = phys / page_size in
      let n = touched_end phys size - start in
      let s₀ = blank max phys in
      let s₁ = free_regions memmap s₀ in
      let s₂ = reserve n start s₁ in
      let m₁ = freed-Marked phys in
      let room =
        find_bitmap-fits (max / page_size) size memmap sound (max_end-All 0 memmap) placed in
      let m₂ = reserve-Marked n start s₁ m₁.valid (omega (arith, m₁.frames, room)) in
      let m₃ = kernel-Marked s₂ m₂.valid in
      let found : (phys == 0) ≡ false = ground arith in
      (
        _,
        rw found,
        m₃.valid,
        m₃.frames ∙ m₂.frames ∙ m₁.frames,
        λ g h. ground (
          arith,
          m₃.bits g,
          m₂.bits g,
          m₁.bits g,
          m₃.frames,
          m₂.frames,
          m₁.frames,
          between_rest start (touched_end phys size) g,
          blank-used max phys (max_end-lt 0 memmap (omega arith)) g,
        ),
      )
