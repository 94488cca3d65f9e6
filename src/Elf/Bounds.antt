-- ===== src/Elf/Bounds.antt =====
-- What the first pass of src/elf.c guarantees of the segments that it lets through.
use cool_os.Prelude.{
  ℕ, zero, suc, ◌+◌, ◌*◌, ◌%◌, ◌^◌, ◌≤◌, ◌<◌, ◌≡◌, inl, inr, refl, sym, ap, subst, ◌∙◌, Bool, true,
  false, ◌&&◌, Option, none, some, List, ltb, leb, if◌then◌else◌, length, arith, Bool-cases,
}
use cool_os.Pmm.{add64}
use cool_os.Heap.{ok}
use cool_os.Heap.Outcome.{bind-ok, ok-injective}
use cool_os.Elf.Words.{IsBytes, Fits, read_phdr_at-Fits}
use cool_os.Elf.{
  user_addr_min, user_addr_max, Ehdr, Phdr, Info, read_phdr, elf_validate_segment, is_load, in_file,
  widen, scan_segment, scan, no_bounds, check,
}

-- A segment that is let through, against the bounds that are reported.
pub record IsSound (size : ℕ) (info : Info) (ph : Phdr) : Type 0 where
  pub fits : ph.p_filesz ≤ ph.p_memsz
  pub above : user_addr_min ≤ ph.p_vaddr
  pub below : ph.p_vaddr + ph.p_memsz ≤ user_addr_max
  pub in_the_file : (ph.p_offset + ph.p_filesz) % 2 ^ 64 ≤ size
  pub base : info.load_base ≤ ph.p_vaddr
  pub end : ph.p_vaddr + ph.p_memsz ≤ info.load_end

-- The bounds only grow.
pub record Grows (info info' : Info) : Type 0 where
  pub base : info'.load_base ≤ info.load_base
  pub end : info.load_end ≤ info'.load_end
  pub entry : info'.entry ≡ info.entry

module _ (size : ℕ) (ph : Phdr) (has : Bool) (info : Info) where
  valid-IsSound :
      ph.p_memsz < 2 ^ 64
      → ph.p_vaddr < 2 ^ 64
      → elf_validate_segment ph && in_file size ph ≡ true
      → IsSound size (widen ph.p_vaddr (add64 ph.p_vaddr ph.p_memsz) info) ph
  unfolding elf_validate_segment
  valid-IsSound small_size small_address valid = record {
    fits = ground (arith, valid);
    above = ground (arith, valid);
    below = ground (arith, valid);
    in_the_file = ground (arith, valid);
    base = ground (arith, valid);
    end = ground (arith, valid);
  }

module _ (size : ℕ) (info : Info) (ph : Phdr) (info' : Info) where
  -- Growing bounds keep it.
  IsSound-Grows : Grows info info' → IsSound size info ph → IsSound size info' ph
  IsSound-Grows g h = record {
    fits = h.fits;
    above = h.above;
    below = h.below;
    in_the_file = h.in_the_file;
    base = omega (arith, g.base, h.base);
    end = omega (arith, g.end, h.end);
  }

widen-Grows : (lo hi : ℕ) (info : Info) → Grows info (widen lo hi info)
widen-Grows lo hi info = record { base = ground arith; end = ground arith; entry = refl }

module _ (size : ℕ) (ph : Phdr) (has : Bool) (info : Info) where
  scan-skip : is_load ph ≡ false → scan_segment size ph (has, info) ≡ some (has, info)
  unfolding scan_segment
  scan-skip skip = rw skip refl

  scan-valid :
      is_load ph ≡ true
      → elf_validate_segment ph && in_file size ph ≡ true
      → scan_segment size ph (has, info)
        ≡ some (true, widen ph.p_vaddr (add64 ph.p_vaddr ph.p_memsz) info)
  unfolding scan_segment
  scan-valid loads valid = rw (loads, valid) refl

  scan-bad :
      is_load ph ≡ true
      → elf_validate_segment ph && in_file size ph ≡ false
      → scan_segment size ph (has, info) ≡ none
  unfolding scan_segment
  scan-bad loads bad = rw (loads, bad) refl

same_info :
    (has has' : Bool) (info info' : Info) (o : Option (Bool × Info))
    → o ≡ some (has, info)
    → o ≡ some (has', info')
    → info ≡ info'
same_info has has' info info' o h k = cc

module _ (size : ℕ) (ph : Phdr) (has : Bool) (info : Info) (has' : Bool) (info' : Info) where
  scan_segment-IsSound :
      ph.p_memsz < 2 ^ 64
      → ph.p_vaddr < 2 ^ 64
      → scan_segment size ph (has, info) ≡ some (has', info')
      → Grows info info' × (is_load ph ≡ true → IsSound size info' ph)
  scan_segment-IsSound small_size small_address h = elim (Bool-cases (is_load ph)) [
    | inr skip ↦ (
      subst (Grows info)
          (same_info has has' info info' (scan_segment size ph (has, info))
            (scan-skip size ph has info skip) h)
          (record { base = omega arith; end = omega arith; entry = refl }),
      λ loads. absurd (ground (arith, skip, loads)),
    )
    | inl loads ↦ elim (Bool-cases (elf_validate_segment ph && in_file size ph)) [
      | inl valid ↦
          let wide = widen ph.p_vaddr (add64 ph.p_vaddr ph.p_memsz) info in
          let same =
            same_info true has' wide info' (scan_segment size ph (has, info))
              (scan-valid size ph has info loads valid) h in
          (
            subst (Grows info) same (widen-Grows ph.p_vaddr (add64 ph.p_vaddr ph.p_memsz) info),
            λ l.
                subst (λ x. IsSound size x ph) same
                  (valid-IsSound size ph has info small_size small_address valid),
          )
      | inr bad ↦ absurd (not_some (has', info') (sym (scan-bad size ph has info loads bad) ∙ h))
    ]
  ]
    where
      not_some : (x : Bool × Info) → none ≡ some x → ⊥
      not_some x e = cc

-- One header of the first pass.
Covered : List ℕ → Ehdr → ℕ → Info → Type 0
Covered file eh i info =
    (ph : Phdr) × (read_phdr file eh i ≡ ok ph)
    × Fits ph
    × (is_load ph ≡ true → IsSound (length file) info ph)

Grows-trans : (a b c : Info) → Grows a b → Grows b c → Grows a c
Grows-trans a b c g h = record {
  base = omega (arith, g.base, h.base);
  end = omega (arith, g.end, h.end);
  entry = h.entry ∙ g.entry;
}

module _ (file : List ℕ) (bytes : IsBytes file) (eh : Ehdr) where
  cases :
      (i : ℕ) (info : Info) (n : ℕ)
      → Covered file eh i info
      → ((k : ℕ) → k < n → Covered file eh (i + 1 + k) info)
      → (k : ℕ) → k < suc n
      → Covered file eh (i + k) info
  cases i info n here later zero under = subst (λ j. Covered file eh j info) (omega arith) here
  cases i info n here later (suc k) under =
      subst (λ j. Covered file eh j info) (omega arith) (later k (omega (arith, under)))

  scan-covers :
      (n i : ℕ) (found : Bool × Info) (has : Bool) (info : Info)
      → scan file eh n i found ≡ ok (some (has, info))
      → Grows found.1 info × ((k : ℕ) → k < n → Covered file eh (i + k) info)
  unfolding scan Covered
  scan-covers zero i found has info h =
      let same : found ≡ (has, info) = cc in
      (
        subst (Grows found.1) (ap (λ f. f.1) same)
            (record { base = omega arith; end = omega arith; entry = refl }),
        λ k none_left. absurd (omega (arith, none_left)),
      )
  scan-covers (suc n) i found has info h =
      let read = bind-ok (read_phdr file eh i) _ (some (has, info)) h in
      by_segment (λ f k. scan-covers n (i + 1) f has info k)
        (scan_segment (length file) read.0 found) read.0 refl read.1 read.2
    where
      by_segment :
          ((f : Bool × Info)
            → scan file eh n (i + 1) f ≡ ok (some (has, info))
            → Grows f.1 info × ((k : ℕ) → k < n → Covered file eh (i + 1 + k) info))
          → (o : Option (Bool × Info)) (ph : Phdr) → scan_segment (length file) ph found ≡ o
          → read_phdr file eh i ≡ ok ph
          → elim o [ none ↦ ok none | some f ↦ scan file eh n (i + 1) f ] ≡ ok (some (has, info))
          → Grows found.1 info × ((k : ℕ) → k < suc n → Covered file eh (i + k) info)
      by_segment later none ph e r h = absurd cc
      by_segment later (some f) ph e r h =
          let rest = later f h in
          let fits = read_phdr_at-Fits file (eh.e_phoff + i * eh.e_phentsize) ph bytes r in
          let here =
            scan_segment-IsSound (length file) ph found.0 found.1 f.0 f.1 fits.memsz fits.vaddr e in
          (
            Grows-trans found.1 f.1 info here.0 rest.0,
            cases i info n
                (ph, r, fits, λ l. IsSound-Grows (length file) f.1 ph info rest.0 (here.1 l))
                rest.1,
          )

accepted :
    (b : Bool) (info' info : Info)
    → (if b then some info' else none) ≡ some info
    → (b ≡ true) × (info' ≡ info)
accepted true info' info h = (refl, cc)
accepted false info' info h = absurd cc

entry_within :
    (has : Bool) (info : Info)
    → has && leb info.load_base info.entry && ltb info.entry info.load_end ≡ true
    → (info.load_base ≤ info.entry) × (info.entry < info.load_end)
entry_within has info h = (ground (arith, h), ground (arith, h))

-- What is reported of a file against its headers.
pub record IsChecked (file : List ℕ) (eh : Ehdr) (info : Info) : Type 0 where
  pub entry : info.entry ≡ eh.e_entry
  pub base : info.load_base ≤ info.entry
  pub end : info.entry < info.load_end
  pub segments :
      (i : ℕ)
      → i < eh.e_phnum
      → (ph : Phdr) × (read_phdr file eh i ≡ ok ph)
        × Fits ph
        × (is_load ph ≡ true → IsSound (length file) info ph)

-- What passes the checks of `elf_load` and `elf_load_into`, in a file of bytes: every segment to load
-- lies in the user range, within the bounds that are reported, and, up to a sum that wraps, in the
-- file; the entry point lies within the bounds.
pub check-IsChecked :
    (file : List ℕ) (eh : Ehdr) (info : Info)
    → IsBytes file
    → check file eh ≡ ok (some info)
    → IsChecked file eh info
unfolding check Covered
check-IsChecked file eh info bytes h =
    let scanned =
      bind-ok (scan file eh eh.e_phnum 0 (false, no_bounds eh.e_entry)) _ (some info) h in
    by_scan scanned.0 scanned.1 scanned.2
  where
    by_scan :
        (o : Option (Bool × Info))
        → scan file eh eh.e_phnum 0 (false, no_bounds eh.e_entry) ≡ ok o
        → elim o [
          | none ↦ ok none
          | some r ↦ ok (
              if r.0 && leb r.1.load_base r.1.entry && ltb r.1.entry r.1.load_end
              then some r.1
              else none)
        ]
          ≡ ok (some info)
        → IsChecked file eh info
    by_scan none e h = absurd cc
    by_scan (some (has, info')) e h =
        let kept =
          accepted (has && leb info'.load_base info'.entry && ltb info'.entry info'.load_end) info'
            info (ok-injective _ (some info) h) in
        let inside = entry_within has info' kept.0 in
        let covers =
          scan-covers file bytes eh eh.e_phnum 0 (false, no_bounds eh.e_entry) has info' e in
        subst (IsChecked file eh) kept.1 (record {
          entry = covers.0.entry;
          base = inside.0;
          end = inside.1;
          segments =
              λ i under. subst (λ j. Covered file eh j info') (omega arith) (covers.1 i under);
        })
