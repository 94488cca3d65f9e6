-- ===== src/Pmm/Tests.antt =====
-- The physical memory manager on a machine of sixteen frames.
use cool_os.Prelude.{
  ℕ, ◌+◌, ◌*◌, ◌/◌, ◌≤◌, ◌<◌, ◌≡◌, refl, ◌⊎◌, not, ◌&&◌, ◌||◌, some, none, List, [], ◌∷◌, arith,
  leb, ltb,
}
use cool_os.Pmm.{
  Pmm, page_size, alloc_frame, alloc_frames_contiguous, free_frame, take_frame, take_run,
  give_frame,
}
use cool_os.Pmm.Bitmap.{bitmap_test}
use cool_os.Pmm.Frames.{free_below}
use cool_os.Pmm.Invariant.{IsValid, used}
use cool_os.Pmm.Alloc.{IsFirstFree, IsReleasable, alloc_frame_lem, free_frame_lem}
use cool_os.Pmm.Contiguous.{IsRun, Broken, alloc_frames_contiguous_lem}
use cool_os.Pmm.Boot.{Entry, usable, executable_and_modules, other, max_end, find_bitmap, init}
use cool_os.Pmm.Boot.Usable.{in_usable, IsOrdered}
use cool_os.Pmm.Boot.Setup.{in_bitmap, in_kernel, init_lem}

-- Frames 3, 5, 6 and 9 are free.
abbrev machine : Pmm
machine = record {
  bitmap = 0x97 ∷ 0xfd ∷ [];
  frame_count = 16;
  bitmap_size = 2;
  free_frames = 4;
  max_phys_addr = 0x10000;
  bitmap_phys = 0x1000;
}

machine-IsValid : IsValid machine
unfolding used bitmap_test free_below
machine-IsValid = record {
  bytes = omega arith;
  covers = omega arith;
  addressable = omega arith;
  counted = refl;
}

alloc-machine : alloc_frame machine ≡ some (0x3000, take_frame machine 3)
unfolding alloc_frame bitmap_test
alloc-machine = refl

alloc_frame_lem_example :
    ((f : ℕ) × IsFirstFree machine f
      × (alloc_frame machine ≡ some (f * page_size, take_frame machine f))
      × IsValid (take_frame machine f)
      × ((take_frame machine f).free_frames + 1 ≡ 4))
    ⊎ (◌≡◌ {A = ℕ} 4 0 × (alloc_frame machine ≡ none))
alloc_frame_lem_example = alloc_frame_lem machine machine-IsValid

free_frame_lem_example :
    (IsReleasable machine 0x4000
      × (free_frame 0x4000 machine ≡ some (give_frame machine 4))
      × IsValid (give_frame machine 4)
      × ((give_frame machine 4).free_frames ≡ 5))
    ⊎ ((¬ IsReleasable machine 0x4000) × (free_frame 0x4000 machine ≡ none))
free_frame_lem_example = free_frame_lem machine 0x4000 machine-IsValid

alloc_frames_contiguous_lem_example :
    ((p : ℕ) × IsRun machine 2 p
      × ((q : ℕ) → q < p → Broken machine 2 q)
      × (alloc_frames_contiguous 2 machine ≡ some (p * page_size, take_run 2 p machine))
      × IsValid (take_run 2 p machine)
      × ((take_run 2 p machine).free_frames + 2 ≡ 4)
      × ((g : ℕ) → used (take_run 2 p machine) g ≡ (leb p g && ltb g (p + 2) || used machine g)))
    ⊎ (((p : ℕ) → p + 2 ≤ 16 → Broken machine 2 p)
        × (alloc_frames_contiguous 2 machine ≡ some (0, machine)))
alloc_frames_contiguous_lem_example =
    alloc_frames_contiguous_lem 2 machine (omega arith) machine-IsValid

contiguous-machine : alloc_frames_contiguous 2 machine ≡ some (0x5000, take_run 2 5 machine)
unfolding alloc_frames_contiguous bitmap_test
contiguous-machine = refl

-- Two usable regions round the kernel's image, and a device.
abbrev memmap : List Entry
memmap =
    record { base = 0x1000; length = 0x5000; kind = usable }
    ∷ record { base = 0x6000; length = 0x1800; kind = executable_and_modules }
    ∷ record { base = 0x8000; length = 0x8000; kind = usable }
    ∷ record { base = 0xfee0_0000; length = 0x1000; kind = other }
    ∷ []

memmap-IsOrdered : IsOrdered memmap
memmap-IsOrdered = omega arith

init_lem_example :
    (s : Pmm) × (init memmap 0x6000 ≡ some s)
    × IsValid s
    × (s.frame_count ≡ max_end 0 memmap / page_size)
    × ((g : ℕ)
        → g < s.frame_count
        → used s g ≡ (not (in_usable memmap g) || in_bitmap memmap g || in_kernel memmap 0x6000 g))
unfolding find_bitmap max_end
init_lem_example = init_lem memmap 0x6000 memmap-IsOrdered (ground arith) (omega arith)
