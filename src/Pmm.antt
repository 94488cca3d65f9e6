-- ===== src/Pmm.antt =====
-- The physical memory manager, src/pmm.c: its state, the boot-time initialisation from the memory
-- map, and the allocation and release of page frames. `none` is a panic or a failed ASSERT.
pub mod Alloc
pub mod Bitmap
pub mod Boot
pub mod Contiguous
pub mod Frames
pub mod Invariant
mod Tests
use cool_os.Prelude.{
  ℕ, zero, suc, ◌+◌, ◌-◌, ◌*◌, ◌/◌, ◌%◌, ◌^◌, Bool, true, false, not, ◌&&◌, ◌||◌, Option, none,
  some, List, [], ◌∷◌, ltb, leb, ◌==◌, if◌then◌else◌, replicate,
}
use Bitmap.{bitmap_set, bitmap_clear, bitmap_test}

abbrev pub page_size : ℕ
page_size = 4096

-- `uint64_t` addition and the step down of a counter.
abbrev pub add64 : ℕ → ℕ → ℕ
add64 a b = (a + b) % 2 ^ 64

abbrev pub dec64 : ℕ → ℕ
dec64 a = (a + 2 ^ 64 - 1) % 2 ^ 64

abbrev pub is_page_aligned : ℕ → Bool
is_page_aligned addr = addr % page_size == 0

-- The static variables; the bitmap is its bytes.
pub record Pmm : Type 0 where
  pub bitmap : List ℕ
  pub frame_count : ℕ
  pub bitmap_size : ℕ
  pub free_frames : ℕ
  pub max_phys_addr : ℕ
  pub bitmap_phys : ℕ

-- `bitmap_set(frame); pmm_free_frames--`
pub take_frame : Pmm → ℕ → Pmm
take_frame s frame = record s {
  bitmap = bitmap_set s.bitmap frame;
  free_frames = dec64 s.free_frames;
}

-- `bitmap_clear(frame); pmm_free_frames++`
pub give_frame : Pmm → ℕ → Pmm
give_frame s frame = record s {
  bitmap = bitmap_clear s.bitmap frame;
  free_frames = add64 s.free_frames 1;
}

-- The rounds that are left of the search, and its frame.
pub alloc_from : ℕ → ℕ → Pmm → Option (ℕ × Pmm)
alloc_from zero frame s = none
alloc_from (suc n) frame s =
    let rest = alloc_from n (frame + 1) s in
    let phys_addr = frame * page_size % 2 ^ 64 in
    if bitmap_test s.bitmap frame
    then rest
    else if is_page_aligned phys_addr
    then some (phys_addr, take_frame s frame)
    else none

pub alloc_frame : Pmm → Option (ℕ × Pmm)
unfolding alloc_from
alloc_frame s = alloc_from s.frame_count 0 s

-- `count` frames from `frame` on, marked as used one by one.
pub take_run : ℕ → ℕ → Pmm → Pmm
take_run zero frame s = s
take_run (suc n) frame s = take_run n (frame + 1) (take_frame s frame)

pub search_run : ℕ → ℕ → ℕ → ℕ → ℕ → Pmm → Option (ℕ × Pmm)
search_run zero frame run_start run_length count s = some (0, s)
search_run (suc n) frame run_start run_length count s =
    let run_start' = if run_length == 0 then frame else run_start in
    let phys_addr = run_start' * page_size % 2 ^ 64 in
    let longer = search_run n (frame + 1) run_start' (run_length + 1) count s in
    let reset = search_run n (frame + 1) run_start 0 count s in
    if bitmap_test s.bitmap frame
    then reset
    else if run_length + 1 == count
    then (if is_page_aligned phys_addr then some (phys_addr, take_run count run_start' s) else none)
    else longer

-- An address 0 in the result is the failure of the call.
pub alloc_frames_contiguous : ℕ → Pmm → Option (ℕ × Pmm)
unfolding search_run take_run
alloc_frames_contiguous count s =
    if count == 0
    then some (0, s)
    else if count == 1
    then alloc_frame s
    else search_run s.frame_count 0 0 0 count s

pub free_frame : ℕ → Pmm → Option Pmm
free_frame phys_addr s =
    let frame = phys_addr / page_size in
    if is_page_aligned phys_addr && ltb frame s.frame_count && bitmap_test s.bitmap frame
    then some (give_frame s frame)
    else none
