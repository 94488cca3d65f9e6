-- ===== src/Vfs/Tests.antt =====
-- The descriptors of src/vfs.c: one file is open, and a second one is opened and closed.
use cool_os.Prelude.{
  ℕ, zero, suc, ◌<◌, ◌≡◌, ◌≢◌, refl, sym, subst, ap, ◌∙◌, true, false, some, none, List, [], ◌∷◌,
  ◌++◌, arith, ◌==◌, if◌then◌else◌, replicate, set, get_elem?,
}
use cool_os.Fat.{Drive, File, block_read, get_entry, cluster_to_sector}
use cool_os.Fat.Names.{entry_name, pad, short_name, same_chars, base_chars, skip_to_dot}
use cool_os.Fat.Directory.{
  opened, fat_open, open_slot, open_found, walk, first_match, free_fd, scan_cluster, scan_sector,
}
use cool_os.Vfs.{
  Slot, Vfs, max_fd, empty_slot, free_slot, tie, open_in, vfs_open, behind, close_behind, vfs_close,
}
use cool_os.Vfs.Ties.{Ties, IsLive, IsTied}
use cool_os.Vfs.Opening.{Took}
use cool_os.Vfs.Keep.{vfs_open-IsTied, vfs_close-IsTied}

-- A root directory in sector 2 with the file A.
abbrev listing : List ℕ
listing =
    entry_name (b'A' ∷ []) []
    ++ 0x20 ∷ replicate 8 0
    ++ 0 ∷ 0 ∷ 0 ∷ 0 ∷ 0 ∷ 0 ∷ 3 ∷ 0 ∷ 5 ∷ 0 ∷ 0 ∷ 0 ∷ []

abbrev drive : Drive
drive = record { present = true; sectors = λ n. if n == 2 then some listing else none }

abbrev first_file : File
first_file = record {
  in_use = true;
  first_cluster = 3;
  file_size = 5;
  position = 0;
  current_cluster = 3;
  cluster_offset = 0;
}

abbrev before : Vfs
before = record {
  fds = record { in_use = true; fat_fd = some 0 } ∷ empty_slot ∷ [];
  volume = record {
    mounted = true;
    bytes_per_sector = 512;
    sectors_per_cluster = 1;
    reserved_sectors = 1;
    fat_start_sector = 1;
    fat_size_sectors = 1;
    data_start_sector = 2;
    root_cluster = 2;
    bytes_per_cluster = 512;
    open_files = first_file ∷ record first_file { in_use = false } ∷ [];
  };
}

before-Ties : (i k : ℕ) → Ties before.fds i k → (0 ≡ i) × (0 ≡ k)
before-Ties zero k t =
    let is : some (record { in_use = true; fat_fd = some 0 }) ≡ some t.slot = t.entry in
    let first : record { in_use = true; fat_fd = some 0 } ≡ t.slot = cc in
    let target : some 0 ≡ some k = ap (λ s. s.fat_fd) first ∙ t.target in (refl, cc)
before-Ties (suc zero) k t =
    let is : some empty_slot ≡ some t.slot = t.entry in
    let second : empty_slot ≡ t.slot = cc in
    let clash : false ≡ true = ap (λ s. s.in_use) second ∙ t.in_use in ground (arith, clash)
before-Ties (suc (suc i)) k t = cc

before-tied :
    (i : ℕ) (slot : Slot)
    → get_elem? before.fds i ≡ some slot
    → slot.in_use ≡ true
    → (k : ℕ) × (slot.fat_fd ≡ some k)
before-tied zero slot e on =
    let first : record { in_use = true; fat_fd = some 0 } ≡ slot = cc in
    (0, sym (ap (λ s. s.fat_fd) first))
before-tied (suc zero) slot e on =
    let second : empty_slot ≡ slot = cc in
    let clash : false ≡ true = ap (λ s. s.in_use) second ∙ on in absurd (ground (arith, clash))
before-tied (suc (suc i)) slot e on = cc

before-IsTied : IsTied before
before-IsTied = record {
  tied = before-tied;
  live = λ i k t.
      subst (IsLive before.volume.open_files) (before-Ties i k t).1
        (record { file = first_file; entry = refl; in_use = refl });
  apart = λ i j k t u. sym (before-Ties i k t).0 ∙ (before-Ties j k u).0;
}

abbrev with_a : Vfs
with_a = record {
  fds = set before.fds 1 (record { in_use = true; fat_fd = some 1 });
  volume = record (before.volume) { open_files = set before.volume.open_files 1 (opened listing) };
}

open-a : vfs_open 1 drive before (b'a' ∷ []) ≡ some (some 1, with_a)
unfolding vfs_open open_in free_slot tie block_read get_entry cluster_to_sector fat_open open_slot
    open_found walk first_match free_fd scan_cluster scan_sector short_name same_chars base_chars
    skip_to_dot pad
open-a = refl

vfs_open-IsTied_example : IsTied with_a × Took before with_a 1
vfs_open-IsTied_example =
    vfs_open-IsTied 1 drive before with_a (b'a' ∷ []) (some 1) before-IsTied open-a

vfs_close-IsTied_example :
    IsTied (vfs_close before 0).1
    × (0 < max_fd
        → (slot : Slot) → get_elem? (vfs_close before 0).1.fds 0 ≡ some slot
        → slot.in_use ≡ false)
    × ((g : ℕ) → 0 ≢ g → get_elem? (vfs_close before 0).1.fds g ≡ get_elem? before.fds g)
vfs_close-IsTied_example = vfs_close-IsTied before 0 before-IsTied

closed-again : (vfs_close before 1).0 ≡ false
unfolding vfs_close close_behind behind
closed-again = refl
