-- ===== src/Fat.antt =====
-- The FAT32 reader, src/fat32.c: a mounted volume, its table of open files, and one entry of the
-- file allocation table, over the sectors that src/block.c reads.
pub mod Names
pub mod NameRound
pub mod Directory
pub mod Read
pub mod Bytes
pub mod Contents
pub mod Loop
pub mod Session
pub mod Seek
pub mod Listed
pub mod Open
mod Tests
use cool_os.Prelude.{
  ℕ, zero, suc, ◌+◌, ◌-◌, ◌*◌, ◌/◌, ◌%◌, ◌^◌, Bool, true, false, ◌&&◌, ◌||◌, not, Option, none,
  some, List, [], ◌∷◌, ltb, leb, ◌==◌, if◌then◌else◌, get_or, replicate,
}

-- The drive that src/block.c talks to: the sector that it delivers, or an error.
pub record Drive : Type 0 where
  pub present : Bool
  pub sectors : ℕ → Option (List ℕ)

-- `block_read` of one sector.
unfoldable pub block_read : Drive → ℕ → Option (List ℕ)
block_read d lba = if not d.present || leb (2 ^ 28) lba then none else d.sectors lba

-- Little-endian fields of a structure in a sector.
abbrev pub u8 : List ℕ → ℕ → ℕ
u8 b o = get_or b o 0

abbrev pub u16 : List ℕ → ℕ → ℕ
u16 b o = u8 b o + 256 * u8 b (o + 1)

abbrev pub u32 : List ℕ → ℕ → ℕ
u32 b o = u16 b o + 65536 * u16 b (o + 2)

-- The least mark for the end of a chain, `FAT32_EOC_MIN`.
abbrev pub eoc_min : ℕ
eoc_min = 0x0fff_fff8

abbrev pub max_open : ℕ
max_open = 16

-- `fat_file_t`.
pub record File : Type 0 where
  pub in_use : Bool
  pub first_cluster : ℕ
  pub file_size : ℕ
  pub position : ℕ
  pub current_cluster : ℕ
  pub cluster_offset : ℕ

-- The static variables of the driver, without the sector buffer: every use of it follows a read
-- that filled it.
pub record Volume : Type 0 where
  pub mounted : Bool
  pub bytes_per_sector : ℕ
  pub sectors_per_cluster : ℕ
  pub reserved_sectors : ℕ
  pub fat_start_sector : ℕ
  pub fat_size_sectors : ℕ
  pub data_start_sector : ℕ
  pub root_cluster : ℕ
  pub bytes_per_cluster : ℕ
  pub open_files : List File

-- On 32 bits: a cluster below 2 wraps.
unfoldable pub cluster_to_sector : Volume → ℕ → ℕ
cluster_to_sector v cluster =
    (v.data_start_sector + (cluster + (2 ^ 32 - 2)) % 2 ^ 32 * v.sectors_per_cluster) % 2 ^ 32

-- `fat_get_entry`: the next cluster of a chain; a failed read is the chain's end.
unfoldable pub get_entry : Drive → Volume → ℕ → ℕ
get_entry d v cluster =
    let fat_offset = cluster * 4 % 2 ^ 32 in
    let fat_sector = (v.fat_start_sector + fat_offset / v.bytes_per_sector) % 2 ^ 32 in
    elim (block_read d fat_sector) [
      | none ↦ eoc_min
      | some sector ↦ u32 sector (fat_offset % v.bytes_per_sector) % 2 ^ 28
    ]

abbrev pub closed : File → File
closed f = record f { in_use = false }

unfoldable pub all_closed : ℕ → List File → List File
all_closed zero fs = []
all_closed (suc n) [] = []
all_closed (suc n) (f ∷ fs) = closed f ∷ all_closed n fs

-- `fat_mount`: whether it succeeds, and the state.
unfoldable pub mount : Drive → Volume → Bool × Volume
mount d v = elim (block_read d 0) [
  | none ↦ (false, v)
  | some bpb ↦ if not (u16 bpb 11 == 512) || u32 bpb 36 == 0 then (false, v) else (
    true,
    record {
      mounted = true;
      bytes_per_sector = u16 bpb 11;
      sectors_per_cluster = u8 bpb 13;
      reserved_sectors = u16 bpb 14;
      fat_start_sector = u16 bpb 14;
      fat_size_sectors = u32 bpb 36;
      data_start_sector = (u16 bpb 14 + u8 bpb 16 * u32 bpb 36) % 2 ^ 32;
      root_cluster = u32 bpb 44;
      bytes_per_cluster = u16 bpb 11 * u8 bpb 13;
      open_files = all_closed max_open v.open_files;
    },
  )
]
