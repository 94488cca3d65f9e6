-- ===== src/Vfs.antt =====
-- The file system layer, src/vfs.c: a table of descriptors over those of the FAT32 reader.
pub mod Ties
pub mod Opening
pub mod Keep
mod Tests
use cool_os.Prelude.{
  ℕ, zero, suc, ◌+◌, Bool, true, false, ◌&&◌, Option, none, some, List, [], ◌∷◌, ltb, if◌then◌else◌,
  get_elem?, set, replicate,
}
use cool_os.Fat.{Drive, Volume}
use cool_os.Fat.Read.{read, seek}
use cool_os.Fat.Directory.{fat_open, close, get_size}

abbrev pub max_fd : ℕ
max_fd = 16

-- An entry of `vfs_fds`; -1 is `none`.
pub record Slot : Type 0 where
  pub in_use : Bool
  pub fat_fd : Option ℕ

abbrev pub empty_slot : Slot
empty_slot = record { in_use = false; fat_fd = none }

-- The table, and the state of the reader below it.
pub record Vfs : Type 0 where
  pub fds : List Slot
  pub volume : Volume

abbrev pub init : Vfs → Vfs
init s = record s { fds = replicate max_fd empty_slot }

unfoldable pub free_slot : ℕ → ℕ → List Slot → Option ℕ
free_slot zero i fds = none
free_slot (suc n) i [] = none
free_slot (suc n) i (f ∷ fds) =
    let rest = free_slot n (i + 1) fds in if f.in_use then rest else some i

-- The descriptor takes what `fat_open` returned.
unfoldable pub tie : Vfs → ℕ → Option (Option ℕ × Volume) → Option (Option ℕ × Vfs)
tie s vfd none = none
tie s vfd (some (none, v)) = some (none, record s { volume = v })
tie s vfd (some (some fat_fd, v)) =
    let slot : Slot = record { in_use = true; fat_fd = some fat_fd } in
    some (some vfd, record { fds = set s.fds vfd slot; volume = v })

unfoldable pub open_in : ℕ → Drive → Vfs → List ℕ → Option ℕ → Option (Option ℕ × Vfs)
open_in n d s path none = some (none, s)
open_in n d s path (some vfd) = tie s vfd (fat_open n d s.volume path)

-- `vfs_open`, with the fuel of `fat_open`.
unfoldable pub vfs_open : ℕ → Drive → Vfs → List ℕ → Option (Option ℕ × Vfs)
vfs_open n d s path = open_in n d s path (free_slot max_fd 0 s.fds)

-- The descriptor of the reader behind one of the table.
unfoldable pub behind : Vfs → ℕ → Option ℕ
behind s fd = elim (get_elem? s.fds fd) [
  | none ↦ none
  | some slot ↦ if ltb fd max_fd && slot.in_use then slot.fat_fd else none
]

unfoldable pub vfs_read : Drive → Vfs → ℕ → ℕ → Option (Option (List ℕ) × Vfs)
vfs_read d s fd count = elim (behind s fd) [
  | none ↦ some (none, s)
  | some fat_fd ↦ elim (read d s.volume fat_fd count) [
    | none ↦ none
    | some (bytes, v) ↦ some (bytes, record s { volume = v })
  ]
]

unfoldable pub vfs_seek : ℕ → Drive → Vfs → ℕ → ℕ → Option (Bool × Vfs)
vfs_seek n d s fd offset = elim (behind s fd) [
  | none ↦ some (false, s)
  | some fat_fd ↦ elim (seek n d s.volume fat_fd offset) [
    | none ↦ none
    | some (done, v) ↦ some (done, record s { volume = v })
  ]
]

-- The slot is given up whatever `fat_close` says.
unfoldable pub close_behind : Vfs → ℕ → Option ℕ → Bool × Vfs
close_behind s fd none = (false, s)
close_behind s fd (some fat_fd) =
    let r = close s.volume fat_fd in (r.0, record { fds = set s.fds fd empty_slot; volume = r.1 })

unfoldable pub vfs_close : Vfs → ℕ → Bool × Vfs
vfs_close s fd = close_behind s fd (behind s fd)

abbrev pub vfs_size : Vfs → ℕ → ℕ
vfs_size s fd = elim (behind s fd) [ none ↦ 0 | some fat_fd ↦ get_size s.volume fat_fd ]
