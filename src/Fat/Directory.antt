-- ===== src/Fat/Directory.antt =====
-- The walk over the root directory in src/fat32.c: `fat_open`, `fat_list_root` and `fat_close`.
use cool_os.Prelude.{
  ℕ, zero, suc, ◌+◌, ◌*◌, ◌%◌, ◌^◌, Bool, true, false, ◌||◌, not, Option, none, some, List, [], ◌∷◌,
  ◌++◌, leb, ◌==◌, if◌then◌else◌, set, take, drop, map, bit_and,
}
use cool_os.Fat.{
  Drive, Volume, File, block_read, get_entry, cluster_to_sector, eoc_min, max_open, u8, u16, u32,
  closed,
}
use cool_os.Fat.Names.{fat_name_match, listed_name}
use cool_os.Fat.Read.{open_file}

-- The 32 bytes of entry `i`.
abbrev pub dirent : List ℕ → ℕ → List ℕ
dirent sector i = take 32 (drop (i * 32) sector)

abbrev pub is_skipped : List ℕ → Bool
is_skipped e = u8 e 0 == 0xe5 || u8 e 11 == 0x0f || not (bit_and (u8 e 11) 8 == 0)

-- The entries that a sector lists, and whether the directory ends in it.
unfoldable pub scan_sector : ℕ → ℕ → List ℕ → List (List ℕ) × Bool
scan_sector zero i sector = ([], false)
scan_sector (suc n) i sector =
    let e = dirent sector i in
    let rest = scan_sector n (i + 1) sector in
    if u8 e 0 == 0 then ([], true) else if is_skipped e then rest else (e ∷ rest.0, rest.1)

-- What a walk over sectors meets: entries, then the directory's end, a failed read, or more to come.
pub data Stop : Type 0 where
  directory_end : Stop
  read_error : Stop
  goes_on : Stop
  no_fuel : Stop

unfoldable pub scan_cluster : ℕ → ℕ → Drive → List (List ℕ) × Stop
scan_cluster zero sector d = ([], goes_on)
scan_cluster (suc n) sector d =
    let rest = scan_cluster n ((sector + 1) % 2 ^ 32) d in
    elim (block_read d sector) [
      | none ↦ ([], read_error)
      | some b ↦
          let here = scan_sector 16 0 b in
          if here.1 then (here.0, directory_end) else (here.0 ++ rest.0, rest.1)
    ]

-- The chain of the directory, one unit of fuel for each cluster. The source stops where it has found
-- its entry; what comes behind in this list does not change that.
unfoldable pub walk : ℕ → Drive → Volume → ℕ → List (List ℕ) × Stop
walk zero d v cluster = ([], no_fuel)
walk (suc n) d v cluster =
    let rest = walk n d v (get_entry d v cluster) in
    if leb eoc_min cluster
    then ([], directory_end)
    else (let here = scan_cluster v.sectors_per_cluster (cluster_to_sector v cluster) d in
        elim here.1 [
          | goes_on ↦ (here.0 ++ rest.0, rest.1)
          | directory_end ↦ here
          | read_error ↦ here
          | no_fuel ↦ here
        ])

unfoldable pub first_match : List ℕ → List (List ℕ) → Option (List ℕ)
first_match path [] = none
first_match path (e ∷ es) =
    let rest = first_match path es in if fat_name_match (take 11 e) path then some e else rest

-- The first descriptor of `n` from `i` on that is not in use.
unfoldable pub free_fd : ℕ → ℕ → List File → Option ℕ
free_fd zero i fs = none
free_fd (suc n) i [] = none
free_fd (suc n) i (f ∷ fs) = let rest = free_fd n (i + 1) fs in if f.in_use then rest else some i

abbrev pub opened : List ℕ → File
opened e =
    let first = u16 e 20 * 65536 + u16 e 26 in
    record {
      in_use = true;
      first_cluster = first;
      file_size = u32 e 28;
      position = 0;
      current_cluster = first;
      cluster_offset = 0;
    }

-- The descriptor takes the entry that was found; otherwise the result is -1, or the fuel ran out.
unfoldable pub open_found : Volume → ℕ → Option (List ℕ) → Stop → Option (Option ℕ × Volume)
open_found v fd (some e) stop =
    some (some fd, record v { open_files = set v.open_files fd (opened e) })
open_found v fd none no_fuel = none
open_found v fd none stop = some (none, v)

unfoldable pub open_slot : ℕ → Drive → Volume → List ℕ → Option ℕ → Option (Option ℕ × Volume)
open_slot n d v path none = some (none, v)
open_slot n d v path (some fd) =
    let listed = walk n d v v.root_cluster in open_found v fd (first_match path listed.0) listed.1

-- `fat_open`: the descriptor, or `none` for -1. `none` outside: the fuel ran out.
unfoldable pub fat_open : ℕ → Drive → Volume → List ℕ → Option (Option ℕ × Volume)
fat_open n d v path =
    if not v.mounted then some (none, v) else open_slot n d v path (free_fd max_open 0 v.open_files)

-- `fat_close`: whether it succeeds.
unfoldable pub close : Volume → ℕ → Bool × Volume
close v fd = elim (open_file v fd) [
  | none ↦ (false, v)
  | some f ↦ (true, record v { open_files = set v.open_files fd (closed f) })
]

abbrev pub get_size : Volume → ℕ → ℕ
get_size v fd = elim (open_file v fd) [ none ↦ 0 | some f ↦ f.file_size ]

-- `fat_list_root`: what the callback is given, and how the walk stops.
abbrev pub list_root : ℕ → Drive → Volume → List (List ℕ × ℕ × ℕ) × Stop
list_root n d v =
    if not v.mounted
    then ([], read_error)
    else (let listed = walk n d v v.root_cluster in
        (map (λ e. (listed_name (take 11 e), u32 e 28, u8 e 11)) (listed.0), listed.1))
