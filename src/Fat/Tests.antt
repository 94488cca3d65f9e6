-- ===== src/Fat/Tests.antt =====
-- The FAT32 reader of src/fat32.c on a small volume: one sector to a cluster, one file of five bytes.
use cool_os.Prelude.{
  ℕ, ◌≡◌, refl, true, false, some, none, List, [], ◌∷◌, ◌++◌, arith, ◌==◌, if◌then◌else◌, replicate,
  set,
}
use cool_os.Fat.{Drive, Volume, File, block_read, get_entry, cluster_to_sector, mount}
use cool_os.Fat.Names.{
  fat_name_match, listed_name, entry_name, pad, short_name, same_chars, base_chars, skip_to_dot,
}
use cool_os.Fat.NameRound.{fat_name_match-listed_name}
use cool_os.Fat.Read.{read, seek}
use cool_os.Fat.Directory.{
  opened, fat_open, open_slot, open_found, walk, first_match, free_fd, scan_cluster, scan_sector,
}
use cool_os.Fat.Open.{Opens, fat_open-Opens}
use cool_os.Fat.Contents.{IsMounted, concat, Stored}
use cool_os.Fat.Session.{Holds, read-Holds}
use cool_os.Fat.Seek.{seek-Holds}

abbrev text : List ℕ
text = b'h' ∷ b'e' ∷ b'l' ∷ b'l' ∷ b'o' ∷ []

abbrev block : List ℕ
block = text ++ replicate 507 0

-- INIT.ELF
abbrev init : List ℕ
init = b'I' ∷ b'N' ∷ b'I' ∷ b'T' ∷ []

abbrev elf : List ℕ
elf = b'E' ∷ b'L' ∷ b'F' ∷ []

-- INIT.ELF in the root directory, an archive of five bytes from cluster 3 on.
abbrev init_entry : List ℕ
init_entry =
    entry_name init elf
    ++ 0x20 ∷ replicate 8 0
    ++ 0 ∷ 0 ∷ 0 ∷ 0 ∷ 0 ∷ 0 ∷ 3 ∷ 0 ∷ 5 ∷ 0 ∷ 0 ∷ 0 ∷ []

-- Sector 1 is the table of clusters, where cluster 3 is the last of its chain; sector 2 is the root
-- directory.
abbrev disk : Drive
disk = record {
  present = true;
  sectors = λ n.
      if n == 1
      then some (replicate 12 0 ++ 255 ∷ 255 ∷ 255 ∷ 15 ∷ [])
      else if n == 2
      then some init_entry
      else if n == 3
      then some block
      else none;
}

abbrev entry : File
entry = record {
  in_use = true;
  first_cluster = 3;
  file_size = 5;
  position = 1;
  current_cluster = 3;
  cluster_offset = 1;
}

abbrev volume : Volume
volume = record {
  mounted = true;
  bytes_per_sector = 512;
  sectors_per_cluster = 1;
  reserved_sectors = 1;
  fat_start_sector = 1;
  fat_size_sectors = 1;
  data_start_sector = 2;
  root_cluster = 2;
  bytes_per_cluster = 512;
  open_files = entry ∷ record entry { in_use = false } ∷ [];
}

volume-IsMounted : IsMounted volume
volume-IsMounted = record {
  sector_size = refl;
  cluster_size = refl;
  some_sector = omega arith;
  few_sectors = omega arith;
}

text-Stored : Stored disk volume 3 (block ∷ [])
unfolding block_read get_entry cluster_to_sector
text-Stored = (
  omega arith,
  record { full = refl; sectors = λ i below. let first : i ≡ 0 = omega arith in rw first refl },
  omega arith,
)

abbrev entry_held : Holds disk volume 0 text 1
unfolding concat
entry_held = record {
  file = entry;
  entry = refl;
  position = refl;
  size = refl;
  small = omega arith;
  within = omega arith;
  slack = replicate 507 0;
  blocks = block ∷ [];
  stored = text-Stored;
  held = refl;
  unread = record { blocks = block ∷ []; stored = text-Stored; inside = omega arith; ahead = refl };
}

read-Holds_example :
    (v' : Volume) × (read disk volume 0 3 ≡ some (some (b'e' ∷ b'l' ∷ b'l' ∷ []), v'))
    × Holds disk v' 0 text 4
read-Holds_example = read-Holds disk volume 0 3 1 text volume-IsMounted (omega arith) entry_held

seek-Holds_example :
    (v' : Volume) × (seek 2 disk volume 0 99 ≡ some (true, v')) × Holds disk v' 0 text 5
unfolding entry_held
seek-Holds_example = seek-Holds 2 disk volume 0 99 1 text volume-IsMounted entry_held (omega arith)

fat_name_match-listed_name_example :
    (listed_name (entry_name init elf) ≡ init ++ b'.' ∷ elf)
    × (fat_name_match (entry_name init elf) (listed_name (entry_name init elf)) ≡ true)
fat_name_match-listed_name_example =
    fat_name_match-listed_name init elf (omega arith) (omega arith) (omega arith) (omega arith)

-- A path in lower case names the same entry.
short_name-lower :
    short_name (b'i' ∷ b'n' ∷ b'i' ∷ b't' ∷ b'.' ∷ b'e' ∷ b'l' ∷ b'f' ∷ []) ≡ entry_name init elf
unfolding short_name base_chars skip_to_dot pad
short_name-lower = refl

abbrev init_path : List ℕ
init_path = init ++ b'.' ∷ elf

abbrev reopened : Volume
reopened = record volume { open_files = set volume.open_files 1 (opened init_entry) }

fat_open-Opens_example : Opens 1 disk volume reopened init_path 1
unfolding block_read get_entry cluster_to_sector fat_open open_slot open_found walk first_match
    free_fd scan_cluster scan_sector short_name same_chars base_chars skip_to_dot pad
fat_open-Opens_example = fat_open-Opens 1 disk volume reopened init_path 1 refl

mount-small : (mount disk volume).0 ≡ false
unfolding mount block_read
mount-small = refl
