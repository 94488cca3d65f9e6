-- ===== src/Paging/Tests.antt =====
-- A new address space of src/paging.c in the frame at 0x5000; the kernel's table is at 0x1000.
use cool_os.Prelude.{inr, [], arith}
use cool_os.Paging.{Machine, clear_frame, clone_kernel_mappings}
use cool_os.Paging.Clone.{IsAddressSpace, clone_kernel_mappings-IsAddressSpace}

abbrev machine : Machine
machine = record {
  words = λ p. 7;
  frames = record {
    bitmap = [];
    frame_count = 0;
    bitmap_size = 0;
    free_frames = 0;
    max_phys_addr = 0;
    bitmap_phys = 0;
  };
  cr3 = 0x1000;
  kernel_cr3 = 0x1000;
}

clone_kernel_mappings-IsAddressSpace_example :
    IsAddressSpace 0x5000 machine (clone_kernel_mappings 0x5000 (clear_frame 0x5000 machine))
clone_kernel_mappings-IsAddressSpace_example =
    clone_kernel_mappings-IsAddressSpace 0x5000 machine (inr (omega arith))
