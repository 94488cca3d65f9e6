-- ===== src/Vfs/Opening.antt =====
-- What `vfs_open` of src/vfs.c does to the table of descriptors.
use cool_os.Prelude.{
  ℕ, zero, suc, ◌+◌, ◌<◌, ◌≡◌, ◌≢◌, refl, subst, true, false, inl, inr, none, some, Option, List,
  [], ◌∷◌, arith, get_elem?, set, lookup-set_ne, Bool-cases,
}
use cool_os.Fat.{Drive, Volume}
use cool_os.Fat.Directory.{fat_open}
use cool_os.Vfs.{Slot, Vfs, max_fd, free_slot, tie, open_in}
use cool_os.Vfs.Ties.{Ties, lookup-set_self}

-- The first descriptor of the table that is not in use.
pub record IsUnused (fds : List Slot) (vfd : ℕ) : Type 0 where
  pub slot : Slot
  pub entry : get_elem? fds vfd ≡ some slot
  pub unused : slot.in_use ≡ false
  pub first : (g : ℕ) → g < vfd → (f : Slot) → get_elem? fds g ≡ some f → f.in_use ≡ true

IsUnused-cons :
    (fds : List Slot) (f : Slot) (j : ℕ)
    → f.in_use ≡ true
    → IsUnused fds j
    → IsUnused (f ∷ fds) (suc j)
IsUnused-cons fds f j live free = record {
  slot = free.slot;
  entry = free.entry;
  unused = free.unused;
  first = earlier;
}
  where
    earlier : (g : ℕ) → g < suc j → (h : Slot) → get_elem? (f ∷ fds) g ≡ some h → h.in_use ≡ true
    earlier zero lt h e = let same : f ≡ h = cc in subst (λ x. x.in_use ≡ true) same live
    earlier (suc g) lt h e = free.first g (omega arith) h e

free_slot-IsUnused :
    (n i vfd : ℕ) (fds : List Slot)
    → free_slot n i fds ≡ some vfd
    → (j : ℕ) × (vfd ≡ i + j) × IsUnused fds j
unfolding free_slot
free_slot-IsUnused zero i vfd fds e = cc
free_slot-IsUnused (suc n) i vfd [] e = cc
free_slot-IsUnused (suc n) i vfd (f ∷ fds) e = elim (Bool-cases f.in_use) [
  | inl live ↦
      let later : free_slot n (i + 1) fds ≡ some vfd = rw live at e in
      let r = free_slot-IsUnused n (i + 1) vfd fds later in
      (suc r.0, omega (arith, r.1), IsUnused-cons fds f r.0 live r.2)
  | inr dead ↦
      let here : some i ≡ some vfd = rw dead at e in
      let same : i ≡ vfd = cc in
      (
        0,
        omega (arith, same),
        record { slot = f; entry = refl; unused = dead; first = λ g lt. elim lt [ ] },
      )
]

-- What a `vfs_open` that returns `r` does to the table.
pub record Took (s s' : Vfs) (vfd : ℕ) : Type 0 where
  pub was : IsUnused s.fds vfd
  pub target : ℕ
  pub ties : Ties s'.fds vfd target
  pub others : (g : ℕ) → vfd ≢ g → get_elem? s'.fds g ≡ get_elem? s.fds g

abbrev pub Answered : Vfs → Vfs → Option ℕ → Type 0
Answered s s' none = s'.fds ≡ s.fds
Answered s s' (some vfd) = Took s s' vfd

tie-Answered :
    (s s' : Vfs) (vfd : ℕ) (r : Option ℕ) (o : Option (Option ℕ × Volume))
    → IsUnused s.fds vfd
    → tie s vfd o ≡ some (r, s')
    → Answered s s' r
unfolding tie
tie-Answered s s' vfd r none free e = cc
tie-Answered s s' vfd r (some (none, v)) free e =
    let state : record s { volume = v } ≡ s' = cc in
    let result : none ≡ r = cc in
    subst (Answered s s') result (subst (λ x. x.fds ≡ s.fds) state refl)
tie-Answered s s' vfd r (some (some fat_fd, v)) free e =
    let slot : Slot = record { in_use = true; fat_fd = some fat_fd } in
    let after : Vfs = record { fds = set s.fds vfd slot; volume = v } in
    let state : after ≡ s' = cc in
    let result : some vfd ≡ r = cc in
    subst (Answered s s') result (
      subst (λ x. Took s x vfd) state
        (record {
          was = free;
          target = fat_fd;
          ties = record {
            slot = slot;
            entry = lookup-set_self s.fds vfd slot free.slot free.entry;
            in_use = refl;
            target = refl;
          };
          others = λ g ne. lookup-set_ne s.fds vfd g slot ne;
        }))

pub open_in-Answered :
    (n : ℕ) (d : Drive) (s s' : Vfs) (path : List ℕ) (r slot : Option ℕ)
    → free_slot max_fd 0 s.fds ≡ slot
    → open_in n d s path slot ≡ some (r, s')
    → Answered s s' r
unfolding open_in
open_in-Answered n d s s' path r none is e =
    let state : s ≡ s' = cc in
    let result : none ≡ r = cc in
    subst (Answered s s') result (subst (λ x. x.fds ≡ s.fds) state refl)
open_in-Answered n d s s' path r (some vfd) is e =
    let free = free_slot-IsUnused max_fd 0 vfd s.fds is in
    let at : free.0 ≡ vfd = omega (arith, free.1) in
    tie-Answered s s' vfd r (fat_open n d s.volume path) (subst (IsUnused s.fds) at free.2) e
