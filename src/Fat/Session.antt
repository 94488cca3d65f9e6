-- ===== src/Fat/Session.antt =====
-- An open file of src/fat32.c as a string of bytes and a position in it.
use cool_os.Prelude.{
  ℕ, zero, suc, ◌+◌, ◌^◌, ◌≤◌, ◌<◌, ◌≡◌, refl, subst, ap, ◌∙◌, true, false, inl, inr, ◌&&◌, none,
  some, Option, List, [], ◌∷◌, ◌++◌, arith, ltb, ◌==◌, if◌then◌else◌, take, drop, length, min,
  length-drop, length-take, length-append, Bool-cases, get_elem?, set,
}
use cool_os.Fat.{Drive, Volume, File, get_entry, cluster_to_sector, max_open}
use cool_os.Fat.Read.{read, read_loop, limit, open_file}
use cool_os.Fat.Bytes.{drop-drop, take-append_le, drop-append_le}
use cool_os.Fat.Contents.{IsMounted, concat, Stored, Unread}
use cool_os.Fat.Loop.{read_loop-Reads}

-- The descriptor `fd` stands for a file of `contents`, at the position `p`. `slack` is what its last
-- cluster holds behind the file's end.
pub record Holds (d : Drive) (v : Volume) (fd : ℕ) (contents : List ℕ) (p : ℕ) : Type 0 where
  pub file : File
  pub entry : open_file v fd ≡ some file
  pub position : file.position ≡ p
  pub size : file.file_size ≡ length contents
  pub small : length contents < 2 ^ 31
  pub within : p ≤ length contents
  pub slack : List ℕ
  pub blocks : List (List ℕ)
  pub stored : Stored d v file.first_cluster blocks
  pub held : concat blocks ≡ contents ++ slack
  pub unread : Unread d v file (drop p (contents ++ slack))

-- The table of open files is no part of where the bytes of a file are.
module _ (d : Drive) (v : Volume) (fs : List File) where
  abbrev pub retabled : Volume
  retabled = record v { open_files = fs }

  pub Stored-retabled : (c : ℕ) (bs : List (List ℕ)) → Stored d v c bs → Stored d retabled c bs
  unfolding get_entry cluster_to_sector
  Stored-retabled c [] h = h
  Stored-retabled c (b ∷ bs) h = (
    h.0,
    record { full = h.1.full; sectors = h.1.sectors },
    Stored-retabled (get_entry d v c) bs h.2,
  )

  pub Unread-retabled : (f : File) (bytes : List ℕ) → Unread d v f bytes → Unread d retabled f bytes
  Unread-retabled f bytes u = record {
    blocks = u.blocks;
    stored = Stored-retabled f.current_cluster u.blocks u.stored;
    inside = u.inside;
    ahead = u.ahead;
  }

pub get_elem?-set :
    (fs : List File) (i : ℕ) (f g : File)
    → get_elem? fs i ≡ some f
    → get_elem? (set fs i g) i ≡ some g
get_elem?-set [] i f g h = cc
get_elem?-set (x ∷ fs) zero f g h = refl
get_elem?-set (x ∷ fs) (suc i) f g h = get_elem?-set fs i f g h

-- What it is for a descriptor to be open, and that it stays so when its entry moves on.
pub record IsOpen (v : Volume) (fd : ℕ) (f : File) : Type 0 where
  pub entry : get_elem? v.open_files fd ≡ some f
  pub live : (ltb fd max_open && f.in_use) ≡ true

pub open_file-IsOpen : (v : Volume) (fd : ℕ) (f : File) → open_file v fd ≡ some f → IsOpen v fd f
open_file-IsOpen v fd f = by_entry (get_elem? v.open_files fd) refl
  where
    by_entry :
        (o : Option File)
        → get_elem? v.open_files fd ≡ o
        → (elim o [ none ↦ none | some g ↦ if ltb fd max_open && g.in_use then some g else none ])
          ≡ some f
        → IsOpen v fd f
    by_entry none e h = cc
    by_entry (some g) e h = elim (Bool-cases (ltb fd max_open && g.in_use)) [
      | inl live ↦
          let served = rw live at h in
          let same : g ≡ f = cc in subst (IsOpen v fd) same (record { entry = e; live = live })
      | inr dead ↦ let refused = rw dead at h in cc
    ]

pub IsOpen-retabled :
    (d : Drive) (v : Volume) (fd : ℕ) (f g : File)
    → IsOpen v fd f
    → g.in_use ≡ f.in_use
    → open_file (retabled d v (set v.open_files fd g)) fd ≡ some g
IsOpen-retabled d v fd f g o same =
    let live : (ltb fd max_open && g.in_use) ≡ true = rw same o.live in
    rw (open_file, get_elem?-set v.open_files fd f g o.entry, live) refl

take-min : (n : ℕ) (xs : List ℕ) → take (min n (length xs)) xs ≡ take n xs
take-min zero xs = let e : min 0 (length xs) ≡ 0 = omega arith in rw e refl
take-min (suc n) [] = let e : min (suc n) 0 ≡ 0 = omega arith in rw e refl
take-min (suc n) (x ∷ xs) =
    let e : min (suc n) (suc (length xs)) ≡ suc (min n (length xs)) = omega arith in
    rw e (ap (λ t. x ∷ t) (take-min n xs))

read-read_loop :
    (d : Drive) (v : Volume) (fd n left : ℕ) (f f' : File) (bytes : List ℕ)
    → open_file v fd ≡ some f
    → (n == 0) ≡ false
    → limit f n ≡ left
    → read_loop left d v left f ≡ some (some bytes, f')
    → read d v fd n ≡ some (some bytes, retabled d v (set v.open_files fd f'))
unfolding read
read-read_loop d v fd n left f f' bytes entry some_bytes counted looped =
    rw (read, entry, some_bytes, counted, looped) refl

-- Reading up to `n` bytes of an open file returns the next `n` bytes of its contents, or what is
-- left of them, and moves the position behind what it returned; the fuel that `read` gives its loop
-- is enough. It needs a mounted volume and a file and a count of less than two gigabytes.
pub read-Holds :
    (d : Drive) (v : Volume) (fd n p : ℕ) (contents : List ℕ)
    → IsMounted v
    → n < 2 ^ 31
    → Holds d v fd contents p
    → (v' : Volume) × (read d v fd n ≡ some (some (take n (drop p contents)), v'))
      × Holds d v' fd contents (p + length (take n (drop p contents)))
unfolding read
read-Holds d v fd zero p contents mounted short h =
    let same : p + 0 ≡ p = omega arith in (v, rw (read, h.entry) refl, rw same h)
read-Holds d v fd (suc n) p contents mounted short h =
    let f = h.file in
    let o = open_file-IsOpen v fd f h.entry in
    let left = min (suc n) (length (drop p contents)) in
    let behind = length-drop p contents in
    let some_bytes : (suc n == 0) ≡ false = ground arith in
    let counted : limit f (suc n) ≡ left =
      ground (arith, h.position, h.size, h.small, h.within, behind) in
    let ahead : drop p (contents ++ h.slack) ≡ drop p contents ++ h.slack =
      drop-append_le p contents h.slack h.within in
    let e =
      read_loop-Reads left d v mounted left f (drop p (contents ++ h.slack)) (omega arith)
        (omega (arith, length-append (drop p contents) h.slack, ap length ahead))
        (omega (arith, h.position, h.small, h.within, behind)) h.unread in
    let bytes : take left (drop p (contents ++ h.slack)) ≡ take (suc n) (drop p contents) =
      ap (take left) ahead
      ∙ take-append_le left (drop p contents) h.slack (omega arith)
      ∙ take-min (suc n) (drop p contents) in
    let v' = retabled d v (set v.open_files fd e.file) in
    let count : length (take (suc n) (drop p contents)) ≡ left =
      length-take (suc n) (drop p contents) in
    (
      v',
      read-read_loop d v fd (suc n) left f e.file (take (suc n) (drop p contents)) h.entry
          some_bytes counted (e.returns ∙ ap (λ x. some (some x, e.file)) bytes),
      rw count (record {
        file = e.file;
        entry = IsOpen-retabled d v fd f e.file o e.moved.in_use;
        position = omega (arith, e.moved.position, h.position);
        size = e.moved.file_size ∙ h.size;
        small = h.small;
        within = omega (arith, behind, h.within);
        slack = h.slack;
        blocks = h.blocks;
        stored =
            rw e.moved.first_cluster
              (Stored-retabled d v (set v.open_files fd e.file) f.first_cluster h.blocks h.stored);
        held = h.held;
        unread = subst (Unread d v' e.file) (drop-drop left p (contents ++ h.slack)) (
            Unread-retabled d v (set v.open_files fd e.file) e.file
              (drop left (drop p (contents ++ h.slack))) e.unread);
      }),
    )
