-- ===== src/Pmm/Boot.antt =====
-- `pmm_init` of src/pmm.c: the bitmap and the counter from the boot loader's memory map.
mod Regions
pub mod Setup
pub mod Usable
use cool_os.Prelude.{
  ℕ, zero, suc, ◌+◌, ◌-◌, ◌*◌, ◌/◌, ◌%◌, ◌^◌, Bool, true, false, not, ◌&&◌, ◌||◌, Option, none,
  some, List, [], ◌∷◌, ltb, leb, ◌==◌, if◌then◌else◌, replicate,
}
use cool_os.Pmm.{Pmm, page_size, add64, take_frame, give_frame}
use cool_os.Pmm.Bitmap.{bitmap_test}

-- The kinds of memory that the code tells apart.
pub data Kind : Type 0 where
  usable bootloader_reclaimable executable_and_modules other : Kind

pub record Entry : Type 0 where
  pub base : ℕ
  pub length : ℕ
  pub kind : Kind

abbrev pub is_usable : Entry → Bool
is_usable e = elim e.kind [ usable ↦ true | _ ↦ false ]

abbrev pub is_kernel : Entry → Bool
is_kernel e = elim e.kind [ executable_and_modules ↦ true | _ ↦ false ]

abbrev pub is_ram : Entry → Bool
is_ram e = elim e.kind [ other ↦ false | _ ↦ true ]

abbrev pub end_of : Entry → ℕ
end_of e = add64 e.base e.length

-- Step 1: the highest end of a region of memory.
unfoldable pub max_end : ℕ → List Entry → ℕ
max_end acc [] = acc
max_end acc (e ∷ es) = max_end (if is_ram e && ltb acc (end_of e) then end_of e else acc) es

-- Step 3: the first usable region that holds the bitmap; 0 if there is none.
unfoldable pub find_bitmap : ℕ → List Entry → ℕ
find_bitmap size [] = 0
find_bitmap size (e ∷ es) = if is_usable e && leb size e.length then e.base else find_bitmap size es

-- Step 5: `n` frames from `frame` on are free, and so for each usable region.
pub free_range : ℕ → ℕ → Pmm → Pmm
free_range zero frame s = s
free_range (suc n) frame s = free_range n (frame + 1) (give_frame s frame)

pub free_regions : List Entry → Pmm → Pmm
unfolding free_range
free_regions [] s = s
free_regions (e ∷ es) s = free_regions es (
    if is_usable e
    then free_range (end_of e / page_size - e.base / page_size) (e.base / page_size) s
    else s)

-- Steps 6 and 7: the free ones of `n` frames from `frame` on are marked as used. The kernel's
-- frames are looked at below `bound` only.
pub reserve : ℕ → ℕ → Pmm → Pmm
reserve zero frame s = s
reserve (suc n) frame s =
    reserve n (frame + 1) (if bitmap_test s.bitmap frame then s else take_frame s frame)

pub reserve_below : ℕ → ℕ → Pmm → Pmm
reserve_below zero frame s = s
reserve_below (suc n) frame s =
    reserve_below n (frame + 1) (
      if ltb frame s.frame_count && not (bitmap_test s.bitmap frame) then take_frame s frame else s)

pub kernel_size : ℕ → List Entry → ℕ
kernel_size kernel_base [] = 0
kernel_size kernel_base (e ∷ es) =
    if is_kernel e && e.base == kernel_base then e.length else kernel_size kernel_base es

-- The first frame that a stretch of bytes touches, and how many.
abbrev pub touched_end : ℕ → ℕ → ℕ
touched_end start size = add64 (add64 start size) (page_size - 1) / page_size

-- Steps 2 and 4: every frame is in use.
pub blank : ℕ → ℕ → Pmm
blank max bitmap_phys =
    let frame_count = max / page_size in
    let bitmap_size = (frame_count + 7) / 8 in
    record {
      bitmap = replicate bitmap_size 0xff;
      frame_count = frame_count;
      bitmap_size = bitmap_size;
      free_frames = 0;
      max_phys_addr = max;
      bitmap_phys = bitmap_phys;
    }

-- `none`: no region holds the bitmap.
pub init : List Entry → ℕ → Option Pmm
unfolding max_end find_bitmap free_regions reserve reserve_below kernel_size blank
init memmap kernel_base =
    let max = max_end 0 memmap in
    let size = (max / page_size + 7) / 8 in
    let bitmap_phys = find_bitmap size memmap in
    let kernel_len = kernel_size kernel_base memmap in
    let s = free_regions memmap (blank max bitmap_phys) in
    let start = bitmap_phys / page_size in
    let s = reserve (touched_end bitmap_phys size - start) start s in
    let kernel_start = kernel_base / page_size in
    if bitmap_phys == 0
    then none
    else some (
        if ltb 0 kernel_len
        then reserve_below (touched_end kernel_base kernel_len - kernel_start) kernel_start s
        else s)
