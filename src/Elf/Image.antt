-- ===== src/Elf/Image.antt =====
-- The bytes of a page after the copying loop of src/elf.c, against the image that the segment describes.
use cool_os.Prelude.{
  ℕ, ◌+◌, ◌-◌, ◌%◌, ◌^◌, ◌≤◌, ◌<◌, ◌≡◌, ◌⊎◌, inl, inr, refl, ap, ◌∙◌, Bool, true, false, ◌&&◌, List,
  ltb, leb, if◌then◌else◌, length, get_or, arith, Bool-cases,
}
use cool_os.Heap.{ok}
use cool_os.Paging.{Machine, clear_frame}
use cool_os.Elf.{Phdr}
use cool_os.Elf.Load.{load_byte, copy, copy_page}
use cool_os.Elf.Words.{IsBytes}
use cool_os.Elf.Memory.{load_byte-clear_frame, load_byte-clear_other, Copied, copy-Copied}

-- The byte at an address of a segment: from the file, or zero behind the file's part of it.
abbrev pub image : List ℕ → Phdr → ℕ → ℕ
image file ph a =
    if leb ph.p_vaddr a && ltb a (ph.p_vaddr + ph.p_filesz)
    then get_or file (ph.p_offset + (a - ph.p_vaddr)) 0
    else 0

pub record PageLoaded (file : List ℕ) (ph : Phdr) (vaddr paddr : ℕ) (m m' : Machine) : Type 0 where
  pub inside : (j : ℕ) → j < 4096 → load_byte (paddr + j) m' ≡ image file ph (vaddr + j)
  pub outside : (q : ℕ) → (q < paddr) ⊎ (paddr + 4096 ≤ q) → load_byte q m' ≡ load_byte q m

module _ (file : List ℕ) (bytes : IsBytes file) (ph : Phdr) (vaddr paddr : ℕ) (m : Machine)
    (zeros : (j : ℕ) → j < 4096 → load_byte (paddr + j) m ≡ 0)
    (in_file : ph.p_offset + ph.p_filesz ≤ length file) (short_file : length file < 2 ^ 64)
    (no_wrap : ph.p_vaddr + ph.p_filesz < 2 ^ 64) (page_no_wrap : vaddr + 4096 < 2 ^ 64) where
  abbrev from : ℕ
  from = if ltb vaddr ph.p_vaddr then ph.p_vaddr else vaddr

  abbrev to : ℕ
  to =
      if ltb (ph.p_vaddr + ph.p_filesz) (vaddr + 4096)
      then ph.p_vaddr + ph.p_filesz
      else vaddr + 4096

  page_no-overlap : ltb from to ≡ false → copy_page file ph vaddr paddr m ≡ ok m
  unfolding copy_page
  page_no-overlap none_there =
      let page : (vaddr + 4096) % 2 ^ 64 ≡ vaddr + 4096 = omega (arith, page_no_wrap) in
      let part : (ph.p_vaddr + ph.p_filesz) % 2 ^ 64 ≡ ph.p_vaddr + ph.p_filesz =
        omega (arith, no_wrap) in
      rw (page, part, none_there) refl

  page_overlap :
      ltb from to ≡ true
      → copy_page file ph vaddr paddr m
        ≡ copy (to - from) file (ph.p_offset + (from - ph.p_vaddr)) (paddr + (from - vaddr)) m
  unfolding copy_page
  page_overlap some_there =
      let page : (vaddr + 4096) % 2 ^ 64 ≡ vaddr + 4096 = omega (arith, page_no_wrap) in
      let part : (ph.p_vaddr + ph.p_filesz) % 2 ^ 64 ≡ ph.p_vaddr + ph.p_filesz =
        omega (arith, no_wrap) in
      let source : (ph.p_offset + (from - ph.p_vaddr)) % 2 ^ 64
          ≡ ph.p_offset + (from - ph.p_vaddr) =
        ground (arith, some_there, in_file, short_file) in
      rw (page, part, some_there, source) refl

  abbrev covers : ℕ → Bool
  covers j = leb ph.p_vaddr (vaddr + j) && ltb (vaddr + j) (ph.p_vaddr + ph.p_filesz)

  image_outside : (j : ℕ) → covers j ≡ false → 0 ≡ image file ph (vaddr + j)
  image_outside j out = rw out refl

  module _ (some_there : ltb from to ≡ true) (m' : Machine)
      (c : Copied file
        (to - from)
        (ph.p_offset + (from - ph.p_vaddr))
        (paddr + (from - vaddr))
        m
        m') where
    byte_inside :
        (j : ℕ) → j < 4096 → covers j ≡ true → load_byte (paddr + j) m' ≡ image file ph (vaddr + j)
    byte_inside j under yes_there =
        let at : ph.p_offset + (from - ph.p_vaddr) + (paddr + j - (paddr + (from - vaddr)))
            ≡ ph.p_offset + (vaddr + j - ph.p_vaddr) =
          ground (arith, some_there, yes_there, under) in
        rw yes_there (
          c.inside (paddr + j) (ground (arith, some_there, yes_there, under))
            (ground (arith, some_there, yes_there, under))
          ∙ ap (λ i. get_or file i 0) at)

    byte_outside :
        (j : ℕ) → j < 4096 → covers j ≡ false → load_byte (paddr + j) m' ≡ image file ph (vaddr + j)
    byte_outside j under not_there =
        c.outside (paddr + j) (apart j under not_there) ∙ zeros j under ∙ image_outside j not_there
      where
        apart :
            (j : ℕ)
            → j < 4096
            → covers j ≡ false
            → (paddr + j < paddr + (from - vaddr))
              ⊎ (paddr + (from - vaddr) + (to - from) ≤ paddr + j)
        apart j under not_there = ground (arith, some_there, not_there, under)

    loaded : PageLoaded file ph vaddr paddr m m'
    loaded = record {
      inside = λ j under. elim (Bool-cases (covers j)) [
        | inl yes_there ↦ byte_inside j under yes_there
        | inr not_there ↦ byte_outside j under not_there
      ];
      outside = λ q out. c.outside q (ground (arith, some_there, out));
    }

  -- The page is filled with what the image has at its addresses.
  pub copy_page-PageLoaded :
      (m' : Machine) × (copy_page file ph vaddr paddr m ≡ ok m')
      × PageLoaded file ph vaddr paddr m m'
  copy_page-PageLoaded = elim (Bool-cases (ltb from to)) [
    | inr none_there ↦ (
      m,
      page_no-overlap none_there,
      record {
        inside = λ j under. zeros j under ∙ image_outside j (ground (arith, none_there, under));
        outside = λ q out. refl;
      },
    )
    | inl some_there ↦
        let fits : ph.p_offset + (from - ph.p_vaddr) + (to - from) ≤ length file =
          ground (arith, some_there, in_file) in
        let c =
          copy-Copied file bytes (to - from) (ph.p_offset + (from - ph.p_vaddr))
            (paddr + (from - vaddr)) m fits in
        (c.0, page_overlap some_there ∙ c.1, loaded some_there c.0 c.2)
  ]

-- A frame that is cleared and filled with its page of a segment holds what the image has at the page's
-- addresses, and no byte outside it changes. The segment's part of the file lies in the file, and
-- the addresses stay below 2^64.
pub clear_frame-copy_page :
    (file : List ℕ) (ph : Phdr) (vaddr paddr : ℕ) (m : Machine)
    → IsBytes file
    → paddr % 8 ≡ 0
    → ph.p_offset + ph.p_filesz ≤ length file
    → length file < 2 ^ 64
    → ph.p_vaddr + ph.p_filesz < 2 ^ 64
    → vaddr + 4096 < 2 ^ 64
    → (m' : Machine) × (copy_page file ph vaddr paddr (clear_frame paddr m) ≡ ok m')
      × PageLoaded file ph vaddr paddr m m'
clear_frame-copy_page file ph vaddr paddr m bytes aligned in_file short_file no_wrap page_no_wrap =
    let cleared = clear_frame paddr m in
    let zeros : (j : ℕ) → j < 4096 → load_byte (paddr + j) cleared ≡ 0 = λ j under.
      load_byte-clear_frame paddr (paddr + j) m aligned (omega arith) (omega (arith, under)) in
    let r =
      copy_page-PageLoaded file bytes ph vaddr paddr cleared zeros in_file short_file no_wrap
        page_no_wrap in
    (
      r.0,
      r.1,
      record {
        inside = r.2.inside;
        outside = λ q out. r.2.outside q out ∙ load_byte-clear_other paddr q m aligned out;
      },
    )
