-- ===== src/Vfs/Keep.antt =====
-- `vfs_open` and `vfs_close` of src/vfs.c keep the descriptors apart.
use cool_os.Prelude.{
  ℕ, ◌<◌, ◌≡◌, ◌≢◌, refl, sym, subst, ap, ◌∙◌, true, false, inl, inr, Bool, ◌&&◌, none, some,
  Option, List, arith, ltb, get_elem?, set, lookup-set_ne, if◌then◌else◌, Bool-cases, ℕ_discrete,
}
use cool_os.Fat.{Drive, Volume, File, closed}
use cool_os.Fat.Read.{open_file}
use cool_os.Fat.Directory.{fat_open, opened, close}
use cool_os.Fat.Open.{Opens, fat_open-Opens, fat_open-none}
use cool_os.Fat.Session.{get_elem?-set}
use cool_os.Vfs.{
  Slot, Vfs, empty_slot, max_fd, free_slot, tie, open_in, behind, close_behind, vfs_open, vfs_close,
}
use cool_os.Vfs.Opening.{Answered, open_in-Answered}
use cool_os.Vfs.Ties.{Ties, IsLive, IsTied, lookup-set, Ties-set}

-- What was open is not the descriptor that `fat_open` chose, and is open still.
module _ {n : ℕ} {d : Drive} {v v' : Volume} {path : List ℕ} {fd : ℕ}
    (o : Opens n d v v' path fd) where
  IsLive-ne : (k : ℕ) → IsLive v.open_files k → fd ≢ k
  IsLive-ne k live same =
      let entry = subst (λ j. get_elem? v.open_files j ≡ some live.file) (sym same) live.entry in
      let is : some o.free.file ≡ some live.file = sym o.free.entry ∙ entry in
      let file : o.free.file ≡ live.file = cc in
      let dead : live.file.in_use ≡ false = subst (λ f. f.in_use ≡ false) file o.free.closed in
      let clash : true ≡ false = sym live.in_use ∙ dead in ground (arith, clash)

  IsLive-kept : (k : ℕ) → IsLive v.open_files k → IsLive v'.open_files k
  IsLive-kept k live = record {
    file = live.file;
    entry = o.others k (IsLive-ne k live) ∙ live.entry;
    in_use = live.in_use;
  }

  IsLive-new : IsLive v'.open_files fd
  IsLive-new =
      let entry = get_elem?-set v.open_files fd o.free.file (opened o.listed) o.free.entry in
      record {
        file = opened o.listed;
        entry = subst (λ w. get_elem? w.open_files fd ≡ some (opened o.listed)) (sym o.state) entry;
        in_use = refl;
      }

-- A new slot stands for a descriptor, and so do the old ones.
tied-set :
    (fds : List Slot) (vfd : ℕ) (new : Slot)
    → ((new.in_use ≡ true) → (k : ℕ) × (new.fat_fd ≡ some k))
    → ((i : ℕ) (slot : Slot)
        → get_elem? fds i ≡ some slot
        → slot.in_use ≡ true
        → (k : ℕ) × (slot.fat_fd ≡ some k))
    → (i : ℕ) (slot : Slot) → get_elem? (set fds vfd new) i ≡ some slot
    → slot.in_use ≡ true
    → (k : ℕ) × (slot.fat_fd ≡ some k)
tied-set fds vfd new fresh old i slot e on = elim (ℕ_discrete vfd i) [
  | yes same ↦
      let entry = subst (λ j. get_elem? (set fds vfd new) j ≡ some slot) (sym same) e in
      let is : slot ≡ new = lookup-set fds vfd new slot entry in
      let r = fresh (subst (λ x. x.in_use ≡ true) is on) in
      (r.0, subst (λ x. x.fat_fd ≡ some r.0) (sym is) r.1)
  | no ne ↦ old i slot (sym (lookup-set_ne fds vfd i new ne) ∙ e) on
]

tie-IsTied :
    (n : ℕ) (d : Drive) (s s' : Vfs) (path : List ℕ) (vfd : ℕ) (r : Option ℕ)
    → IsTied s
    → (o : Option (Option ℕ × Volume)) → fat_open n d s.volume path ≡ o
    → tie s vfd o ≡ some (r, s')
    → IsTied s'
unfolding tie
tie-IsTied n d s s' path vfd r h none is e = cc
tie-IsTied n d s s' path vfd r h (some (none, v)) is e =
    let same = fat_open-none n d s.volume v path is in
    let state : record s { volume = v } ≡ s' = cc in
    subst IsTied state (record {
      tied = h.tied;
      live = λ i k t. subst (λ w. IsLive w.open_files k) (sym same) (h.live i k t);
      apart = h.apart;
    })
tie-IsTied n d s s' path vfd r h (some (some fat_fd, v)) is e =
    let o = fat_open-Opens n d s.volume v path fat_fd is in
    let slot : Slot = record { in_use = true; fat_fd = some fat_fd } in
    let after : Vfs = record { fds = set s.fds vfd slot; volume = v } in
    let state : after ≡ s' = cc in
    subst IsTied state (record {
      tied = tied-set s.fds vfd slot (λ on. (fat_fd, refl)) h.tied;
      live = λ i k t. elim (Ties-set s.fds vfd fat_fd i k t) [
        | inl new ↦ subst (IsLive v.open_files) new.1 (IsLive-new o)
        | inr old ↦ IsLive-kept o k (h.live i k old.1)
      ];
      apart = λ i j k t u. elim (Ties-set s.fds vfd fat_fd i k t) [
        | inl new ↦ elim (Ties-set s.fds vfd fat_fd j k u) [
          | inl new' ↦ sym new.0 ∙ new'.0
          | inr old' ↦ absurd (IsLive-ne o k (h.live j k old'.1) new.1)
        ]
        | inr old ↦ elim (Ties-set s.fds vfd fat_fd j k u) [
          | inl new' ↦ absurd (IsLive-ne o k (h.live i k old.1) new'.1)
          | inr old' ↦ h.apart i j k old.1 old'.1
        ]
      ];
    })

open_in-IsTied :
    (n : ℕ) (d : Drive) (s s' : Vfs) (path : List ℕ) (r slot : Option ℕ)
    → IsTied s
    → open_in n d s path slot ≡ some (r, s')
    → IsTied s'
unfolding open_in
open_in-IsTied n d s s' path r none h e = let same : s ≡ s' = cc in subst IsTied same h
open_in-IsTied n d s s' path r (some vfd) h e =
    tie-IsTied n d s s' path vfd r h (fat_open n d s.volume path) refl e

-- A `vfs_open` that comes to an end keeps every descriptor in use tied to an open file of the reader,
-- and no two of them to the same. If it returns a descriptor, that is the first one that was not in
-- use, it is now tied to a file, and no other entry has changed; if it returns -1, no entry has.
pub vfs_open-IsTied :
    (n : ℕ) (d : Drive) (s s' : Vfs) (path : List ℕ) (r : Option ℕ)
    → IsTied s
    → vfs_open n d s path ≡ some (r, s')
    → IsTied s' × Answered s s' r
unfolding vfs_open
vfs_open-IsTied n d s s' path r h e = (
  open_in-IsTied n d s s' path r (free_slot max_fd 0 s.fds) h e,
  open_in-Answered n d s s' path r (free_slot max_fd 0 s.fds) refl e,
)

-- Closing touches one entry of the reader's table at most.
close-others :
    (v : Volume) (k g : ℕ) → k ≢ g → get_elem? (close v k).1.open_files g ≡ get_elem? v.open_files g
unfolding close
close-others v k g ne = by_file (open_file v k)
  where
    by_file :
        (o : Option File)
        → get_elem?
            (elim o as (λ x. Bool × Volume) [
              | none ↦ (false, v)
              | some f ↦ (true, record v { open_files = set v.open_files k (closed f) })
            ]).1.open_files
            g
          ≡ get_elem? v.open_files g
    by_file none = refl
    by_file (some f) = lookup-set_ne v.open_files k g (closed f) ne

Ties-empty :
    (fds : List Slot) (fd i k : ℕ) → Ties (set fds fd empty_slot) i k → (fd ≢ i) × Ties fds i k
Ties-empty fds fd i k t = elim (ℕ_discrete fd i) [
  | yes same ↦
      let entry =
        subst (λ j. get_elem? (set fds fd empty_slot) j ≡ some t.slot) (sym same) t.entry in
      let is : t.slot ≡ empty_slot = lookup-set fds fd empty_slot t.slot entry in
      let clash : false ≡ true = sym (ap (λ x. x.in_use) is) ∙ t.in_use in ground (arith, clash)
  | no ne ↦ (
    ne,
    record {
      slot = t.slot;
      entry = sym (lookup-set_ne fds fd i empty_slot ne) ∙ t.entry;
      in_use = t.in_use;
      target = t.target;
    },
  )
]

behind-Ties : (s : Vfs) (fd k : ℕ) → behind s fd ≡ some k → Ties s.fds fd k
unfolding behind
behind-Ties s fd k = by_slot (get_elem? s.fds fd) refl
  where
    by_slot :
        (o : Option Slot)
        → get_elem? s.fds fd ≡ o
        → (elim o as (λ x. Option ℕ) [
          | none ↦ none
          | some slot ↦ if ltb fd max_fd && slot.in_use then slot.fat_fd else none
        ])
          ≡ some k
        → Ties s.fds fd k
    by_slot none is e = cc
    by_slot (some slot) is e = elim (Bool-cases (ltb fd max_fd && slot.in_use)) [
      | inl live ↦ record {
        slot = slot;
        entry = is;
        in_use = ground (arith, live);
        target = rw live at e;
      }
      | inr dead ↦ let refused = rw dead at e in cc
    ]

close_behind-IsTied :
    (s : Vfs) (fd : ℕ) (o : Option ℕ) → behind s fd ≡ o → IsTied s → IsTied (close_behind s fd o).1
unfolding close_behind
close_behind-IsTied s fd none is h = h
close_behind-IsTied s fd (some k) is h =
    let own = behind-Ties s fd k is in
    record {
      tied = tied-set s.fds fd empty_slot (λ on. absurd (ground (arith, on))) h.tied;
      live = λ i j t.
          let old = Ties-empty s.fds fd i j t in
          let other : k ≢ j =
            λ same. old.0 (h.apart fd i j (subst (Ties s.fds fd) same own) old.1) in
          let was = h.live i j old.1 in
          record {
            file = was.file;
            entry = close-others s.volume k j other ∙ was.entry;
            in_use = was.in_use;
          };
      apart =
          λ i i' j t u. h.apart i i' j (Ties-empty s.fds fd i j t).1 (Ties-empty s.fds fd i' j u).1;
    }

-- A descriptor of the table that stands for nothing is not in use.
behind-none :
    (s : Vfs) (fd : ℕ) (slot : Slot)
    → IsTied s
    → fd < max_fd
    → behind s fd ≡ none
    → get_elem? s.fds fd ≡ some slot
    → slot.in_use ≡ false
unfolding behind
behind-none s fd slot h below nothing entry = elim (Bool-cases slot.in_use) [
  | inl on ↦
      let r = h.tied fd slot entry on in
      let lower : ltb fd max_fd ≡ true = ground (arith, below) in
      let there : slot.fat_fd ≡ none = rw (entry, lower, on, behind) at nothing in
      let clash : some r.0 ≡ none = sym r.1 ∙ there in cc
  | inr off ↦ off
]

close_behind-frees :
    (s : Vfs) (fd : ℕ) (o : Option ℕ)
    → IsTied s
    → fd < max_fd
    → behind s fd ≡ o
    → (slot : Slot) → get_elem? (close_behind s fd o).1.fds fd ≡ some slot
    → slot.in_use ≡ false
unfolding close_behind
close_behind-frees s fd none h below is slot entry = behind-none s fd slot h below is entry
close_behind-frees s fd (some k) h below is slot entry =
    ap (λ x. x.in_use) (lookup-set s.fds fd empty_slot slot entry)

close_behind-others :
    (s : Vfs) (fd g : ℕ) (o : Option ℕ)
    → fd ≢ g
    → get_elem? (close_behind s fd o).1.fds g ≡ get_elem? s.fds g
unfolding close_behind
close_behind-others s fd g none ne = refl
close_behind-others s fd g (some k) ne = lookup-set_ne s.fds fd g empty_slot ne

-- `vfs_close` of any number keeps every descriptor in use tied to an open file of the reader, and no
-- two of them to the same: it closes no file that another descriptor stands for. A descriptor below
-- VFS_MAX_FD is not in use afterwards, and no other entry has changed.
pub vfs_close-IsTied :
    (s : Vfs) (fd : ℕ)
    → IsTied s
    → IsTied (vfs_close s fd).1
      × (fd < max_fd
          → (slot : Slot) → get_elem? (vfs_close s fd).1.fds fd ≡ some slot
          → slot.in_use ≡ false)
      × ((g : ℕ) → fd ≢ g → get_elem? (vfs_close s fd).1.fds g ≡ get_elem? s.fds g)
unfolding vfs_close
vfs_close-IsTied s fd h = (
  close_behind-IsTied s fd (behind s fd) refl h,
  λ below. close_behind-frees s fd (behind s fd) h below refl,
  λ g. close_behind-others s fd g (behind s fd),
)
