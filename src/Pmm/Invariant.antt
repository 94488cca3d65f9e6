-- ===== src/Pmm/Invariant.antt =====
-- The invariant of the state of src/pmm.c, kept by taking and giving back one frame.
use cool_os.Prelude.{
  ℕ, ◌+◌, ◌*◌, ◌^◌, ◌≤◌, ◌<◌, ◌≡◌, Bool, true, false, ◌||◌, not, ◌&&◌, arith, ◌==◌, length, All,
}
use cool_os.Pmm.{Pmm, add64, dec64, take_frame, give_frame}
use cool_os.Pmm.Bitmap.{
  bitmap_test, IsByte, bitmap_set-All, bitmap_clear-All, length-bitmap_set, length-bitmap_clear,
  bitmap_test-bitmap_set, bitmap_test-bitmap_clear, bitmap_clear-bitmap_set,
}
use cool_os.Pmm.Frames.{free_below, free_below-le, free_below_take}

-- The used frames.
unfoldable pub used : Pmm → ℕ → Bool
used s f = bitmap_test s.bitmap f

-- The bitmap covers every frame, addresses fit 64 bits, and the counter counts the free frames.
pub record IsValid (s : Pmm) : Type 0 where
  pub bytes : All IsByte s.bitmap
  pub covers : s.frame_count ≤ 8 * length s.bitmap
  pub addressable : s.frame_count ≤ 2 ^ 52
  pub counted : s.free_frames ≡ free_below (used s) s.frame_count

module _ {s : Pmm} (v : IsValid s) (f : ℕ) (below : f < s.frame_count) where
  pub used-take_frame : (g : ℕ) → used (take_frame s f) g ≡ (f == g || used s g)
  unfolding used take_frame
  used-take_frame = bitmap_test-bitmap_set s.bitmap f v.bytes (omega (arith, v.covers))

  pub used-give_frame : (g : ℕ) → used (give_frame s f) g ≡ (not (f == g) && used s g)
  unfolding used give_frame
  used-give_frame = bitmap_test-bitmap_clear s.bitmap f v.bytes (omega (arith, v.covers))

  -- Taking a free frame takes one off the counter, and keeps the invariant.
  take_frame-count :
      used s f ≡ false
      → free_below (used (take_frame s f)) s.frame_count + 1 ≡ free_below (used s) s.frame_count
  take_frame-count free =
      free_below_take (used s) (used (take_frame s f)) f s.frame_count
        (λ g ne. ground (arith, used-take_frame g)) free (ground (arith, used-take_frame f)) below

  pub take_frame-IsValid :
      used s f ≡ false
      → IsValid (take_frame s f) × ((take_frame s f).free_frames + 1 ≡ s.free_frames)
  unfolding take_frame
  take_frame-IsValid free =
      let count = take_frame-count free in
      let bound = free_below-le (used s) s.frame_count in
      (
        record {
          bytes = bitmap_set-All s.bitmap f v.bytes;
          covers = omega (arith, v.covers, length-bitmap_set s.bitmap f);
          addressable = v.addressable;
          counted = omega (arith, v.counted, v.addressable);
        },
        omega (arith, v.counted, v.addressable),
      )

  give_frame-count :
      used s f ≡ true
      → free_below (used s) s.frame_count + 1 ≡ free_below (used (give_frame s f)) s.frame_count
  give_frame-count taken =
      free_below_take (used (give_frame s f)) (used s) f s.frame_count
        (λ g ne. ground (arith, used-give_frame g)) (ground (arith, used-give_frame f)) taken below

  pub give_frame-IsValid :
      used s f ≡ true
      → IsValid (give_frame s f) × ((give_frame s f).free_frames ≡ s.free_frames + 1)
  unfolding give_frame
  give_frame-IsValid taken =
      let count = give_frame-count taken in
      let bound = free_below-le (used (give_frame s f)) s.frame_count in
      (
        record {
          bytes = bitmap_clear-All s.bitmap f v.bytes;
          covers = omega (arith, v.covers, length-bitmap_clear s.bitmap f);
          addressable = v.addressable;
          counted = omega (arith, v.counted, v.addressable);
        },
        omega (arith, v.counted, v.addressable),
      )

  -- Giving back what was just taken restores the state, bit for bit.
  pub give_frame-take_frame : used s f ≡ false → give_frame (take_frame s f) f ≡ s
  unfolding give_frame take_frame used
  give_frame-take_frame free =
      let bits = bitmap_clear-bitmap_set s.bitmap f v.bytes (omega (arith, v.covers)) free in
      let counter : add64 (dec64 s.free_frames) 1 ≡ s.free_frames = omega (
        arith,
        take_frame-count free,
        free_below-le (used s) s.frame_count,
        v.counted,
        v.addressable,
      ) in
      λ i. record s { bitmap = bits i; free_frames = counter i }
