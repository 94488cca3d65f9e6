-- ===== src/Fat/Read.antt =====
-- `fat_read` and `fat_seek` of src/fat32.c on the entry of one open file.
use cool_os.Prelude.{
  ℕ, zero, suc, ◌+◌, ◌-◌, ◌/◌, ◌%◌, ◌^◌, Bool, true, false, ◌&&◌, ◌||◌, Option, none, some, List,
  [], ◌++◌, ltb, leb, ◌==◌, if◌then◌else◌, get_elem?, set, take, drop, min,
}
use cool_os.Fat.{Drive, Volume, File, block_read, get_entry, cluster_to_sector, eoc_min, max_open}

-- One turn of the loop: the sector is copied from, up to `left` bytes, and the file moves on.
unfoldable pub advance : Drive → Volume → ℕ → File → File
advance d v copied f =
    let offset = (f.cluster_offset + copied) % 2 ^ 32 in
    let moved = record f { position = (f.position + copied) % 2 ^ 32; cluster_offset = offset } in
    if leb v.bytes_per_cluster offset
    then record moved { current_cluster = get_entry d v f.current_cluster; cluster_offset = 0 }
    else moved

abbrev pub bytes_to_copy : Volume → File → ℕ → ℕ
bytes_to_copy v f left = min left (v.bytes_per_sector - f.cluster_offset % v.bytes_per_sector)

abbrev pub sector_of : Volume → File → ℕ
sector_of v f =
    (cluster_to_sector v f.current_cluster + f.cluster_offset / v.bytes_per_sector) % 2 ^ 32

-- The loop with `left` bytes to go: the bytes copied, or -1, and the file. `none` outside: no fuel.
unfoldable pub read_loop : ℕ → Drive → Volume → ℕ → File → Option (Option (List ℕ) × File)
read_loop zero d v left f = if left == 0 then some (some [], f) else none
read_loop (suc n) d v left f =
    let copied = bytes_to_copy v f left in
    let rest = read_loop n d v (left - copied) (advance d v copied f) in
    if left == 0 || leb eoc_min f.current_cluster
    then some (some [], f)
    else elim (block_read d (sector_of v f)) [
      | none ↦ some (none, f)
      | some sector ↦
          let bytes = take copied (drop (f.cluster_offset % v.bytes_per_sector) sector) in
          elim rest [
            | none ↦ none
            | some (none, f') ↦ some (none, f')
            | some (some more, f') ↦ some (some (bytes ++ more), f')
          ]
    ]

-- `n`, limited to what is left of the file, on 32 bits.
abbrev pub limit : File → ℕ → ℕ
limit f n =
    if ltb f.file_size ((f.position + n) % 2 ^ 32)
    then (2 ^ 32 + f.file_size - f.position) % 2 ^ 32
    else n

abbrev pub open_file : Volume → ℕ → Option File
open_file v fd = elim (get_elem? v.open_files fd) [
  | none ↦ none
  | some f ↦ if ltb fd max_open && f.in_use then some f else none
]

-- `fat_read` into a buffer; every turn copies a byte at least, so `n` turns are enough.
unfoldable pub read : Drive → Volume → ℕ → ℕ → Option (Option (List ℕ) × Volume)
read d v fd n = elim (open_file v fd) [
  | none ↦ some (none, v)
  | some f ↦ if n == 0 then some (some [], v) else (elim (read_loop (limit f n) d v (limit f n) f) [
    | none ↦ none
    | some (bytes, f') ↦ some (bytes, record v { open_files = set v.open_files fd f' })
  ])
]

-- The whole clusters that `fat_seek` skips, one unit of fuel for each.
unfoldable pub skip : ℕ → Drive → Volume → ℕ → File → Option (ℕ × File)
skip zero d v offset f = none
skip (suc n) d v offset f =
    let rest = skip n d v (offset - v.bytes_per_cluster) (record f {
      current_cluster = get_entry d v f.current_cluster;
      position = (f.position + v.bytes_per_cluster) % 2 ^ 32;
    }) in
    if leb v.bytes_per_cluster offset && ltb f.current_cluster eoc_min
    then rest
    else some (offset, f)

-- `fat_seek`: whether it succeeds.
unfoldable pub seek : ℕ → Drive → Volume → ℕ → ℕ → Option (Bool × Volume)
seek n d v fd offset = elim (open_file v fd) [
  | none ↦ some (false, v)
  | some f ↦
      let start = record f {
        position = 0;
        current_cluster = f.first_cluster;
        cluster_offset = 0;
      } in
      elim (skip n d v (min offset f.file_size) start) [
        | none ↦ none
        | some (left, f') ↦
            let there = record f' {
              cluster_offset = left;
              position = (f'.position + left) % 2 ^ 32;
            } in
            some (true, record v { open_files = set v.open_files fd there })
      ]
]
