-- ===== src/Fat/Open.antt =====
-- `fat_open` of src/fat32.c: the descriptor that it returns, and what it leaves of the table.
use cool_os.Prelude.{
  ℕ, zero, suc, ◌+◌, ◌<◌, ◌≡◌, ◌≢◌, refl, sym, subst, ap, ◌∙◌, true, false, inl, inr, Bool, not,
  All, ◌*◌, take, ◌++◌, none, some, Option, List, [], ◌∷◌, arith, get_elem?, set, if◌then◌else◌,
  Bool-cases,
}
use cool_os.Fat.{Drive, Volume, File, max_open, u8}
use cool_os.Fat.Names.{fat_name_match}
use cool_os.Fat.Session.{get_elem?-set}
use cool_os.Fat.Listed.{IsListed, All-middle, walk-IsListed}
use cool_os.Fat.Directory.{
  walk, first_match, free_fd, opened, open_found, open_slot, fat_open, Stop, no_fuel, directory_end,
  read_error, goes_on,
}

-- The first closed entry of the table.
pub record IsFree (fs : List File) (fd : ℕ) : Type 0 where
  pub file : File
  pub entry : get_elem? fs fd ≡ some file
  pub closed : file.in_use ≡ false
  pub first : (g : ℕ) → g < fd → (f : File) → get_elem? fs g ≡ some f → f.in_use ≡ true

IsFree-cons :
    {fs : List File} {f : File} {j : ℕ} → f.in_use ≡ true → IsFree fs j → IsFree (f ∷ fs) (suc j)
IsFree-cons {fs} {f} {j} live free = record {
  file = free.file;
  entry = free.entry;
  closed = free.closed;
  first = earlier;
}
  where
    earlier : (g : ℕ) → g < suc j → (h : File) → get_elem? (f ∷ fs) g ≡ some h → h.in_use ≡ true
    earlier zero lt h e = let same : f ≡ h = cc in subst (λ x. x.in_use ≡ true) same live
    earlier (suc g) lt h e = free.first g (omega arith) h e

free_fd-IsFree :
    (n i fd : ℕ) (fs : List File)
    → free_fd n i fs ≡ some fd
    → (j : ℕ) × (fd ≡ i + j) × (j < n) × IsFree fs j
unfolding free_fd
free_fd-IsFree zero i fd fs e = cc
free_fd-IsFree (suc n) i fd [] e = cc
free_fd-IsFree (suc n) i fd (f ∷ fs) e = elim (Bool-cases f.in_use) [
  | inl live ↦
      let later : free_fd n (i + 1) fs ≡ some fd = rw live at e in
      let (j, at, below, free) = free_fd-IsFree n (i + 1) fd fs later in
      (suc j, omega arith, omega arith, IsFree-cons live free)
  | inr dead ↦
      let here : some i ≡ some fd = rw dead at e in
      let same : i ≡ fd = cc in
      (
        0,
        omega arith,
        omega arith,
        record { file = f; entry = refl; closed = dead; first = λ g lt. elim lt [ ] },
      )
]

pub get_elem?-set_ne :
    (fs : List File) (i j : ℕ) (f : File) → i ≢ j → get_elem? (set fs i f) j ≡ get_elem? fs j
get_elem?-set_ne [] i j f ne = refl
get_elem?-set_ne (x ∷ fs) zero zero f ne = absurd (ne refl)
get_elem?-set_ne (x ∷ fs) zero (suc j) f ne = refl
get_elem?-set_ne (x ∷ fs) (suc i) zero f ne = refl
get_elem?-set_ne (x ∷ fs) (suc i) (suc j) f ne = get_elem?-set_ne fs i j f (λ e. ne (ap suc e))

-- The first of the listed entries whose name the path matches.
pub record IsFirst (path : List ℕ) (listing : List (List ℕ)) (e : List ℕ) : Type 0 where
  pub before : List (List ℕ)
  pub behind : List (List ℕ)
  pub whole : listing ≡ before ++ e ∷ behind
  pub matches : fat_name_match (take 11 e) path ≡ true
  pub earlier : All (λ x. fat_name_match (take 11 x) path ≡ false) before

first_match-IsFirst :
    (path : List ℕ) (listing : List (List ℕ)) (e : List ℕ)
    → first_match path listing ≡ some e
    → IsFirst path listing e
unfolding first_match
first_match-IsFirst path [] e h = cc
first_match-IsFirst path (x ∷ xs) e h = elim (Bool-cases (fat_name_match (take 11 x) path)) [
  | inl fits ↦
      let here : some x ≡ some e = rw fits at h in
      let same : x ≡ e = cc in
      record {
        before = [];
        behind = xs;
        whole = ap (λ y. y ∷ xs) same;
        matches = subst (λ y. fat_name_match (take 11 y) path ≡ true) same fits;
        earlier = tt;
      }
  | inr other ↦
      let rest = first_match-IsFirst path xs e (rw other at h) in
      record {
        before = x ∷ rest.before;
        behind = rest.behind;
        whole = ap (λ l. x ∷ l) rest.whole;
        matches = rest.matches;
        earlier = (other, rest.earlier);
      }
]

-- An open file at its begin, by the bytes of its directory entry: the number of the first cluster is in
-- bytes 26, 27, 20 and 21, from the lowest on, and the size in bytes 28 to 31.
pub record IsBegun (e : List ℕ) (f : File) : Type 0 where
  pub in_use : f.in_use ≡ true
  pub first_cluster : f.first_cluster ≡ u8 e 26 + 256 * (u8 e 27 + 256 * (u8 e 20 + 256 * u8 e 21))
  pub file_size : f.file_size ≡ u8 e 28 + 256 * (u8 e 29 + 256 * (u8 e 30 + 256 * u8 e 31))
  pub position : f.position ≡ 0
  pub current_cluster : f.current_cluster ≡ f.first_cluster
  pub cluster_offset : f.cluster_offset ≡ 0

opened-IsBegun : (e : List ℕ) → IsBegun e (opened e)
opened-IsBegun e = record {
  in_use = refl;
  first_cluster = omega arith;
  file_size = omega arith;
  position = refl;
  current_cluster = refl;
  cluster_offset = refl;
}

-- What a successful `fat_open` has done.
pub record Opens (n : ℕ) (d : Drive) (v v' : Volume) (path : List ℕ) (fd : ℕ) : Type 0 where
  pub mounted : v.mounted ≡ true
  pub below : fd < max_open
  pub free : IsFree v.open_files fd
  pub listed : List ℕ
  pub first : IsFirst path (walk n d v v.root_cluster).0 listed
  pub on_drive : IsListed d listed
  pub begun : IsBegun listed (opened listed)
  pub entry : get_elem? v'.open_files fd ≡ some (opened listed)
  pub state : v' ≡ record v { open_files = set v.open_files fd (opened listed) }
  pub others : (g : ℕ) → fd ≢ g → get_elem? v'.open_files g ≡ get_elem? v.open_files g

open_found-Opens :
    (n : ℕ) (d : Drive) (v v' : Volume) (path : List ℕ) (fd slot : ℕ)
    → v.mounted ≡ true
    → slot < max_open
    → IsFree v.open_files slot
    → (o : Option (List ℕ)) → first_match path (walk n d v v.root_cluster).0 ≡ o
    → (stop : Stop) → open_found v slot o stop ≡ some (some fd, v')
    → Opens n d v v' path fd
unfolding open_found
open_found-Opens n d v v' path fd slot mounted below free none is no_fuel e = cc
open_found-Opens n d v v' path fd slot mounted below free none is directory_end e = cc
open_found-Opens n d v v' path fd slot mounted below free none is read_error e = cc
open_found-Opens n d v v' path fd slot mounted below free none is goes_on e = cc
open_found-Opens n d v v' path fd slot mounted below free (some listed) is stop e =
    let entry = opened listed in
    let after : Volume = record v { open_files = set v.open_files slot entry } in
    let same : slot ≡ fd = cc in
    let at = first_match-IsFirst path (walk n d v v.root_cluster).0 listed is in
    let state : after ≡ v' = cc in
    subst (Opens n d v v' path) same (
      subst (λ w. Opens n d v w path slot) state
        (record {
          mounted = mounted;
          below = below;
          free = free;
          listed = listed;
          first = at;
          on_drive =
              All-middle (IsListed d) at.before listed at.behind
                (subst (All (IsListed d)) at.whole (walk-IsListed d n v v.root_cluster));
          begun = opened-IsBegun listed;
          entry = get_elem?-set v.open_files slot free.file entry free.entry;
          state = refl;
          others = λ g. get_elem?-set_ne v.open_files slot g entry;
        }))

open_slot-Opens :
    (n : ℕ) (d : Drive) (v v' : Volume) (path : List ℕ) (fd : ℕ)
    → v.mounted ≡ true
    → (o : Option ℕ) → free_fd max_open 0 v.open_files ≡ o
    → open_slot n d v path o ≡ some (some fd, v')
    → Opens n d v v' path fd
unfolding open_slot
open_slot-Opens n d v v' path fd mounted none is e = cc
open_slot-Opens n d v v' path fd mounted (some slot) is e =
    let (j, at, below, free) = free_fd-IsFree max_open 0 slot v.open_files is in
    let listed = walk n d v v.root_cluster in
    let same : j ≡ slot = omega arith in
    open_found-Opens n d v v' path fd slot mounted (omega arith)
      (subst (IsFree v.open_files) same free) (first_match path listed.0) refl listed.1 e

-- When `fat_open` returns a descriptor, the volume is mounted, the descriptor is the first that was
-- not in use, it now stands for the first entry of the listed root directory whose name the path
-- matches, which is one that the drive delivers and that is not deleted, no long name and no label, with
-- the cluster and the size that the bytes of the entry give, at position 0, and no other descriptor and
-- nothing else of the volume has changed.
pub fat_open-Opens :
    (n : ℕ) (d : Drive) (v v' : Volume) (path : List ℕ) (fd : ℕ)
    → fat_open n d v path ≡ some (some fd, v')
    → Opens n d v v' path fd
unfolding fat_open
fat_open-Opens n d v v' path fd e =
    let slot = open_slot n d v path (free_fd max_open 0 v.open_files) in
    let result = λ (b : Bool). if not b then some (none, v) else slot in
    elim (Bool-cases v.mounted) [
      | inr unmounted ↦
          let refused : some (none, v) ≡ some (some fd, v') = sym (ap result unmounted) ∙ e in cc
      | inl mounted ↦
          open_slot-Opens n d v v' path fd mounted (free_fd max_open 0 v.open_files) refl
            (sym (ap result mounted) ∙ e)
    ]

-- A `fat_open` that returns -1 changes nothing.
open_found-none :
    (v v' : Volume) (slot : ℕ) (o : Option (List ℕ)) (stop : Stop)
    → open_found v slot o stop ≡ some (none, v')
    → v' ≡ v
unfolding open_found
open_found-none v v' slot none no_fuel e = cc
open_found-none v v' slot none directory_end e = cc
open_found-none v v' slot none read_error e = cc
open_found-none v v' slot none goes_on e = cc
open_found-none v v' slot (some listed) stop e = cc

open_slot-none :
    (n : ℕ) (d : Drive) (v v' : Volume) (path : List ℕ) (o : Option ℕ)
    → open_slot n d v path o ≡ some (none, v')
    → v' ≡ v
unfolding open_slot
open_slot-none n d v v' path none e = cc
open_slot-none n d v v' path (some slot) e =
    let listed = walk n d v v.root_cluster in
    open_found-none v v' slot (first_match path listed.0) listed.1 e

pub fat_open-none :
    (n : ℕ) (d : Drive) (v v' : Volume) (path : List ℕ)
    → fat_open n d v path ≡ some (none, v')
    → v' ≡ v
unfolding fat_open
fat_open-none n d v v' path e =
    let slot = open_slot n d v path (free_fd max_open 0 v.open_files) in
    let result = λ (b : Bool). if not b then some (none, v) else slot in
    elim (Bool-cases v.mounted) [
      | inr unmounted ↦
          let same : some (none, v) ≡ some (none, v') = sym (ap result unmounted) ∙ e in cc
      | inl mounted ↦
          open_slot-none n d v v' path (free_fd max_open 0 v.open_files)
            (sym (ap result mounted) ∙ e)
    ]
