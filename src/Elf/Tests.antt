-- ===== src/Elf/Tests.antt =====
-- An executable for src/elf.c with one segment of four bytes, of which eight are in memory.
use cool_os.Prelude.{ℕ, ◌≡◌, refl, some, List, [], ◌∷◌, ◌++◌, arith, replicate}
use cool_os.Heap.{ok}
use cool_os.Paging.{Machine, clear_frame}
use cool_os.Elf.{
  Ehdr, Phdr, Info, check, scan, scan_segment, byte_at, read_le, read_phdr_at, elf_validate_segment,
}
use cool_os.Elf.Load.{copy_page}
use cool_os.Elf.Words.{IsBytes, IsBytes-all}
use cool_os.Elf.Bounds.{IsChecked, check-IsChecked}
use cool_os.Elf.Image.{PageLoaded, clear_frame-copy_page}

abbrev executable : List ℕ
executable =
    0x7f ∷ b'E' ∷ b'L' ∷ b'F' ∷ 2 ∷ 1 ∷ []
    ++ replicate 10 0
    ++ 2 ∷ 0 ∷ 62 ∷ 0 ∷ 1 ∷ 0 ∷ 0 ∷ 0 ∷ []
    ++ 0 ∷ 1 ∷ 1 ∷ 0 ∷ 0 ∷ 0 ∷ 0 ∷ 0 ∷ []
    ++ 64 ∷ replicate 7 0
    ++ replicate 12 0
    ++ 64 ∷ 0 ∷ 56 ∷ 0 ∷ 1 ∷ 0 ∷ []
    ++ replicate 6 0
    ++ 1 ∷ 0 ∷ 0 ∷ 0 ∷ 5 ∷ 0 ∷ 0 ∷ 0 ∷ []
    ++ 120 ∷ replicate 7 0
    ++ 0 ∷ 1 ∷ 1 ∷ 0 ∷ 0 ∷ 0 ∷ 0 ∷ 0 ∷ []
    ++ replicate 8 0
    ++ 4 ∷ replicate 7 0
    ++ 8 ∷ replicate 7 0
    ++ replicate 8 0
    ++ 0xf4 ∷ 0x90 ∷ 0xeb ∷ 0xfe ∷ []

executable-IsBytes : IsBytes executable
executable-IsBytes = IsBytes-all executable refl

abbrev file_header : Ehdr
file_header = record {
  e_ident = 0x7f ∷ b'E' ∷ b'L' ∷ b'F' ∷ 2 ∷ 1 ∷ [];
  e_type = 2;
  e_machine = 62;
  e_entry = 0x10100;
  e_phoff = 64;
  e_phentsize = 56;
  e_phnum = 1;
}

abbrev reported : Info
reported = record { entry = 0x10100; load_base = 0x10100; load_end = 0x10108 }

checked : check executable file_header ≡ ok (some reported)
unfolding check scan scan_segment byte_at read_le read_phdr_at elf_validate_segment
checked = refl

check-IsChecked_example : IsChecked executable file_header reported
check-IsChecked_example = check-IsChecked executable file_header reported executable-IsBytes checked

abbrev segment : Phdr
segment = record {
  p_type = 1;
  p_flags = 5;
  p_offset = 120;
  p_vaddr = 0x10100;
  p_filesz = 4;
  p_memsz = 8;
}

abbrev machine : Machine
machine = record {
  words = λ p. 7;
  frames = record {
    bitmap = [];
    frame_count = 0;
    bitmap_size = 0;
    free_frames = 0;
    max_phys_addr = 0;
    bitmap_phys = 0;
  };
  cr3 = 0;
  kernel_cr3 = 0;
}

clear_frame-copy_page_example :
    (m' : Machine) × (copy_page executable segment 0x10000 0x5000 (clear_frame 0x5000 machine)
      ≡ ok m')
    × PageLoaded executable segment 0x10000 0x5000 machine m'
clear_frame-copy_page_example =
    clear_frame-copy_page executable segment 0x10000 0x5000 machine executable-IsBytes (omega arith)
      (omega arith) (omega arith) (omega arith) (omega arith)
