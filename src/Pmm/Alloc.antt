-- ===== src/Pmm/Alloc.antt =====
-- `pmm_alloc_frame` and `pmm_free_frame` of src/pmm.c: which frame is taken, when the allocator
-- panics, and which releases are refused.
use cool_os.Prelude.{
  ℕ, zero, suc, ◌+◌, ◌*◌, ◌/◌, ◌%◌, ◌^◌, ◌≤◌, ◌<◌, ◌≡◌, ◌⊎◌, inl, inr, refl, ap, ◌∙◌, true, false,
  ◌&&◌, none, some, arith, ltb, ◌==◌, Bool-cases, ℕ_discrete,
}
use cool_os.Pmm.{
  Pmm, page_size, is_page_aligned, take_frame, give_frame, alloc_from, alloc_frame, free_frame,
}
use cool_os.Pmm.Bitmap.{bitmap_test}
use cool_os.Pmm.Frames.{free_below-all_used}
use cool_os.Pmm.Invariant.{
  IsValid, used, take_frame-IsValid, give_frame-IsValid, used-take_frame, give_frame-take_frame,
}

-- The first free frame of the machine.
pub record IsFirstFree (s : Pmm) (f : ℕ) : Type 0 where
  pub below : f < s.frame_count
  pub free : used s f ≡ false
  pub first : (g : ℕ) → g < f → used s g ≡ true

alloc_from-first :
    (n frame : ℕ) (s : Pmm)
    → s.frame_count ≤ 2 ^ 52
    → frame + n ≡ s.frame_count
    → ((g : ℕ) → g < frame → used s g ≡ true)
    → ((f : ℕ) × IsFirstFree s f × (alloc_from n frame s ≡ some (f * page_size, take_frame s f)))
      ⊎ (((g : ℕ) → g < s.frame_count → used s g ≡ true) × (alloc_from n frame s ≡ none))
unfolding alloc_from used
alloc_from-first zero frame s small e before = inr (λ g h. before g (omega arith), refl)
alloc_from-first (suc n) frame s small e before = elim (Bool-cases (bitmap_test s.bitmap frame)) [
  | inl taken ↦ rw taken (
      alloc_from-first n (frame + 1) s small (omega arith) (λ g h. elim (ℕ_discrete g frame) [
        | yes same ↦ rw same taken
        | no ne ↦ before g (omega arith)
      ]))
  | inr free ↦
      let address : frame * page_size % 2 ^ 64 ≡ frame * page_size = omega arith in
      let aligned : (frame * page_size % page_size == 0) ≡ true = ground arith in
      inl (
        frame,
        record { below = omega arith; free = free; first = before },
        rw (free, address, aligned),
      )
]

-- With a valid state `pmm_alloc_frame` takes the first free frame, returns its address, keeps the
-- state valid and takes one off the counter; it panics exactly when the counter is at 0.
pub alloc_frame_lem :
    (s : Pmm)
    → IsValid s
    → ((f : ℕ) × IsFirstFree s f
        × (alloc_frame s ≡ some (f * page_size, take_frame s f))
        × IsValid (take_frame s f)
        × ((take_frame s f).free_frames + 1 ≡ s.free_frames))
      ⊎ ((s.free_frames ≡ 0) × (alloc_frame s ≡ none))
unfolding alloc_frame
alloc_frame_lem s v =
    elim (alloc_from-first s.frame_count 0 s v.addressable (omega arith) (λ g h. elim h [ ])) [
      | inl (f, first, e) ↦
          let kept = take_frame-IsValid v f first.below first.free in
          inl (f, first, e, kept.0, kept.1)
      | inr (all_used, e) ↦ inr (v.counted ∙ free_below-all_used (used s) s.frame_count all_used, e)
    ]

-- What `pmm_free_frame` asserts of an address.
pub record IsReleasable (s : Pmm) (phys_addr : ℕ) : Type 0 where
  pub aligned : phys_addr % page_size ≡ 0
  pub below : phys_addr / page_size < s.frame_count
  pub taken : used s (phys_addr / page_size) ≡ true

-- `pmm_free_frame` on any address: it succeeds exactly on the aligned address of a frame that is
-- in use, so a double free is caught; then it gives that frame back, keeps the state valid and
-- adds one to the counter.
pub free_frame_lem :
    (s : Pmm) (phys_addr : ℕ)
    → IsValid s
    → (IsReleasable s phys_addr
        × (free_frame phys_addr s ≡ some (give_frame s (phys_addr / page_size)))
        × IsValid (give_frame s (phys_addr / page_size))
        × ((give_frame s (phys_addr / page_size)).free_frames ≡ s.free_frames + 1))
      ⊎ ((¬ IsReleasable s phys_addr) × (free_frame phys_addr s ≡ none))
unfolding free_frame used
free_frame_lem s phys_addr v =
    elim (Bool-cases (
      is_page_aligned phys_addr
      && ltb (phys_addr / page_size) s.frame_count
      && bitmap_test s.bitmap (phys_addr / page_size))) [
        | inl good ↦
            let r : IsReleasable s phys_addr = record {
              aligned = ground arith;
              below = ground arith;
              taken = ground arith;
            } in
            let kept = give_frame-IsValid v (phys_addr / page_size) r.below r.taken in
            inl (r, rw good, kept.0, kept.1)
        | inr bad ↦ inr (λ r. ground (arith, r.aligned, r.below, r.taken), rw bad)
      ]

frame_count-take_frame : (s : Pmm) (f : ℕ) → (take_frame s f).frame_count ≡ s.frame_count
unfolding take_frame
frame_count-take_frame s f = refl

pub frame_count-give_frame : (s : Pmm) (f : ℕ) → (give_frame s f).frame_count ≡ s.frame_count
unfolding give_frame
frame_count-give_frame s f = refl

free_frame-take_frame :
    {s : Pmm} {f : ℕ}
    → IsValid s
    → f < s.frame_count
    → used s f ≡ false
    → free_frame (f * page_size) (take_frame s f) ≡ some s
unfolding free_frame used take_frame
free_frame-take_frame {s} {f} v below free =
    let frame : f * page_size / page_size ≡ f = omega arith in
    let aligned : is_page_aligned (f * page_size) ≡ true = ground arith in
    let taken : bitmap_test (take_frame s f).bitmap f ≡ true =
      ground (arith, used-take_frame v f below f) in
    let inside : ltb f s.frame_count ≡ true = ground arith in
    rw (frame, aligned, frame_count-take_frame, inside, taken)
      (ap some (give_frame-take_frame v f below free))

-- Releasing the address that an allocation returned restores the state as it was.
free_frame-alloc_frame :
    {s s' : Pmm} {phys_addr : ℕ}
    → IsValid s
    → alloc_frame s ≡ some (phys_addr, s')
    → free_frame phys_addr s' ≡ some s
free_frame-alloc_frame {s} {s'} {phys_addr} v e = elim (alloc_frame_lem s v) [
  | inl (f, first, e', kept, counted) ↦ cc (free_frame-take_frame v first.below first.free)
  | inr (full, e') ↦ cc
]
