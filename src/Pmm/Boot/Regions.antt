-- ===== src/Pmm/Boot/Regions.antt =====
-- What the loops of `pmm_init` do to the set of used frames.
use cool_os.Prelude.{
  ℕ, zero, suc, ◌+◌, ◌≤◌, ◌<◌, ◌≡◌, refl, ◌∙◌, Bool, true, not, ◌&&◌, ◌||◌, arith, ltb, leb,
  Bool-cases, inl, inr,
}
use cool_os.Pmm.{Pmm, take_frame, give_frame}
use cool_os.Pmm.Bitmap.{bitmap_test}
use cool_os.Pmm.Invariant.{
  IsValid, used, take_frame-IsValid, give_frame-IsValid, used-take_frame, used-give_frame,
}
use cool_os.Pmm.Boot.{free_range, reserve, reserve_below}

-- `lo ≤ g < hi`, as a test.
abbrev pub between : ℕ → ℕ → ℕ → Bool
between lo hi g = leb lo g && ltb g hi

-- A state that a loop of the boot code leaves: valid, with as many frames, and with the used
-- frames that `p` says.
pub record Marked (s : Pmm) (p : ℕ → Bool) (t : Pmm) : Type 0 where
  pub valid : IsValid t
  pub frames : t.frame_count ≡ s.frame_count
  pub bits : (g : ℕ) → used t g ≡ p g

frame_count-take_frame : (s : Pmm) (f : ℕ) → (take_frame s f).frame_count ≡ s.frame_count
unfolding take_frame
frame_count-take_frame s f = refl

frame_count-give_frame : (s : Pmm) (f : ℕ) → (give_frame s f).frame_count ≡ s.frame_count
unfolding give_frame
frame_count-give_frame s f = refl

pub free_range-Marked :
    (n frame : ℕ) (s : Pmm)
    → IsValid s
    → frame + n ≤ s.frame_count
    → ((g : ℕ) → frame ≤ g → g < frame + n → used s g ≡ true)
    → Marked s (λ g. not (between frame (frame + n) g) && used s g) (free_range n frame s)
unfolding free_range
free_range-Marked zero frame s v fits taken = record {
  valid = v;
  frames = refl;
  bits = λ g. ground arith;
}
free_range-Marked (suc n) frame s v fits taken =
    let now = give_frame-IsValid v frame (omega arith) (taken frame (omega arith) (omega arith)) in
    let bits = used-give_frame v frame (omega arith) in
    let count = frame_count-give_frame s frame in
    let rest =
      free_range-Marked n (frame + 1) (give_frame s frame) now.0 (omega (arith, count))
        (λ g lo hi. ground (arith, bits g, taken g)) in
    record {
      valid = rest.valid;
      frames = rest.frames ∙ count;
      bits = λ g. ground (arith, rest.bits g, bits g);
    }

pub reserve-Marked :
    (n frame : ℕ) (s : Pmm)
    → IsValid s
    → frame + n ≤ s.frame_count
    → Marked s (λ g. between frame (frame + n) g || used s g) (reserve n frame s)
unfolding reserve used
reserve-Marked zero frame s v fits = record { valid = v; frames = refl; bits = λ g. ground arith }
reserve-Marked (suc n) frame s v fits = elim (Bool-cases (bitmap_test s.bitmap frame)) [
  | inl taken ↦ rw taken (
      let rest = reserve-Marked n (frame + 1) s v (omega arith) in
      record { valid = rest.valid; frames = rest.frames; bits = λ g. ground (arith, rest.bits g) })
  | inr free ↦ rw free (
      let now = take_frame-IsValid v frame (omega arith) free in
      let count = frame_count-take_frame s frame in
      let rest = reserve-Marked n (frame + 1) (take_frame s frame) now.0 (omega (arith, count)) in
      record {
        valid = rest.valid;
        frames = rest.frames ∙ count;
        bits = λ g. ground (arith, rest.bits g, used-take_frame v frame (omega arith) g);
      })
]

-- With the bound on the kernel's frames: those past the last frame of the machine are left out.
pub reserve_below-Marked :
    (n frame : ℕ) (s : Pmm)
    → IsValid s
    → Marked s
        (λ g. between frame (frame + n) g && ltb g s.frame_count || used s g)
        (reserve_below n frame s)
unfolding reserve_below used
reserve_below-Marked zero frame s v = record { valid = v; frames = refl; bits = λ g. ground arith }
reserve_below-Marked (suc n) frame s v =
    elim (Bool-cases (ltb frame s.frame_count && not (bitmap_test s.bitmap frame))) [
      | inl free ↦ rw free (
          let below : frame < s.frame_count = ground arith in
          let now = take_frame-IsValid v frame below (ground arith) in
          let count = frame_count-take_frame s frame in
          let rest = reserve_below-Marked n (frame + 1) (take_frame s frame) now.0 in
          record {
            valid = rest.valid;
            frames = rest.frames ∙ count;
            bits = λ g. ground (arith, rest.bits g, count, used-take_frame v frame below g);
          })
      | inr skip ↦ rw skip (
          let rest = reserve_below-Marked n (frame + 1) s v in
          record {
            valid = rest.valid;
            frames = rest.frames;
            bits = λ g. ground (arith, rest.bits g);
          })
    ]
