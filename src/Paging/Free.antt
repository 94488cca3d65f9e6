-- ===== src/Paging/Free.antt =====
-- `paging_free_user_pages` of src/paging.c gives back a list of frames: those that the entries of the user
-- half reach, the pages before their tables, in the order of the addresses.
use cool_os.Prelude.{
  ℕ, zero, suc, ◌+◌, ◌≡◌, refl, sym, ap, append_assoc, ◌∙◌, inl, inr, Bool, true, false, not, ◌&&◌,
  List, [], ◌∷◌, ◌++◌, Option, none, some, if◌then◌else◌, Bool-cases,
}
use cool_os.Pmm.{Pmm, free_frame}
use cool_os.Heap.{Run, ok, fault, ◌>>=◌}
use cool_os.Paging.{
  Machine, is_present, is_huge, address, slot, release_frame, free_leaves, free_tables,
  free_user_pages,
}

-- `pmm_free_frame` of one address after the other.
unfoldable pub give_all : List ℕ → Pmm → Option Pmm
give_all [] s = some s
give_all (p ∷ l) s = elim (free_frame p s) [ none ↦ none | some s' ↦ give_all l s' ]

-- The frames that the entries of a table of pages name.
unfoldable pub page_frames : (ℕ → ℕ) → ℕ → ℕ → ℕ → List ℕ
page_frames words zero i pt = []
page_frames words (suc n) i pt =
    let w = words (slot pt i) in
    let rest = page_frames words n (i + 1) pt in if is_present w then address w ∷ rest else rest

-- Those of a table of tables: what each one below holds, and itself.
unfoldable pub table_frames : (ℕ → ℕ) → (ℕ → List ℕ) → Bool → ℕ → ℕ → ℕ → List ℕ
table_frames words below skip_huge zero i table = []
table_frames words below skip_huge (suc n) i table =
    let w = words (slot table i) in
    let rest = table_frames words below skip_huge n (i + 1) table in
    if is_present w && not (skip_huge && is_huge w)
    then below (address w) ++ address w ∷ rest
    else rest

-- The frames of the user half below `pml4`.
abbrev pub user_frames : (ℕ → ℕ) → ℕ → List ℕ
user_frames words =
    let pt = page_frames words 512 0 in
    let pd = table_frames words pt true 512 0 in
    let pdpt = table_frames words pd true 512 0 in table_frames words pdpt false 256 0

-- The machine with the frames that are left, or a panic.
abbrev pub back : Machine → Option Pmm → Run Machine
back m o = elim o [ none ↦ fault | some s ↦ ok (record m { frames = s }) ]

abbrev pub followed : Option Pmm → (Pmm → Option Pmm) → Option Pmm
followed o h = elim o [ none ↦ none | some s ↦ h s ]

back-bind :
    (m : Machine) (o : Option Pmm) (g : Machine → Run Machine) (h : Pmm → Option Pmm)
    → ((s : Pmm) → g (record m { frames = s }) ≡ back m (h s))
    → (back m o >>= g) ≡ back m (followed o h)
back-bind m none g h same = refl
back-bind m (some s) g h same = same s

pub give_all-append :
    (a b : List ℕ) (s : Pmm) → give_all (a ++ b) s ≡ followed (give_all a s) (give_all b)
unfolding give_all
give_all-append [] b s = refl
give_all-append (p ∷ a) b s = by_result (give_all-append a b) (free_frame p s)
  where
    by_result :
        ((x : Pmm) → give_all (a ++ b) x ≡ followed (give_all a x) (give_all b))
        → (o : Option Pmm)
        → (elim o as (λ x. Option Pmm) [ none ↦ none | some s' ↦ give_all (a ++ b) s' ])
          ≡ followed
              (elim o as (λ x. Option Pmm) [ none ↦ none | some s' ↦ give_all a s' ])
              (give_all b)
    by_result rest none = refl
    by_result rest (some s') = rest s'

module _ (words : ℕ → ℕ) (m : Machine) (same_words : m.words ≡ words) where
  -- A loop that gives the frames of a list back.
  abbrev Gives : (Machine → Run Machine) → List ℕ → Type 0
  Gives f l = (s : Pmm) → f (record m { frames = s }) ≡ back m (give_all l s)

  then_rest :
      (f g : Machine → Run Machine) (a b : List ℕ)
      → Gives f a
      → Gives g b
      → Gives (λ x. f x >>= g) (a ++ b)
  then_rest f g a b h k s =
      ap (λ r. r >>= g) (h s)
      ∙ back-bind m (give_all a s) g (give_all b) k
      ∙ ap (back m) (sym (give_all-append a b s))

  one : (p : ℕ) → Gives (release_frame p) (p ∷ [])
  unfolding give_all
  one p s = by_result (free_frame p s)
    where
      by_result : (o : Option Pmm) → back m o ≡ back m (elim o [ none ↦ none | some s' ↦ some s' ])
      by_result none = refl
      by_result (some s') = refl

  nothing : Gives (λ x. ok x) []
  unfolding give_all
  nothing s = refl

  free_leaves-Gives : (n i pt : ℕ) → Gives (free_leaves n i pt) (page_frames words n i pt)
  unfolding free_leaves page_frames
  free_leaves-Gives zero i pt s = nothing s
  free_leaves-Gives (suc n) i pt s =
      let w = words (slot pt i) in
      let at = ap (λ f. f (slot pt i)) same_words in
      let rest = free_leaves-Gives n (i + 1) pt in
      elim (Bool-cases (is_present w)) [
        | inl there ↦
            rw (at, there)
              (then_rest (release_frame (address w)) (free_leaves n (i + 1) pt) (address w ∷ [])
                (page_frames words n (i + 1) pt) (one (address w)) rest s)
        | inr absent ↦ rw (at, absent) (rest s)
      ]

  module _ (free : ℕ → Machine → Run Machine) (below : ℕ → List ℕ) (skip_huge : Bool)
      (gives : (t : ℕ) → Gives (free t) (below t)) where
    free_tables-Gives :
        (n i table : ℕ)
        → Gives
            (free_tables free skip_huge n i table)
            (table_frames words below skip_huge n i table)
    unfolding free_tables table_frames
    free_tables-Gives zero i table s = nothing s
    free_tables-Gives (suc n) i table s =
        let w = words (slot table i) in
        let at = ap (λ f. f (slot table i)) same_words in
        let rest = free_tables-Gives n (i + 1) table in
        let here =
          then_rest (free (address w)) (release_frame (address w)) (below (address w))
            (address w ∷ []) (gives (address w)) (one (address w)) in
        elim (Bool-cases (is_present w && not (skip_huge && is_huge w))) [
          | inl there ↦
              rw (at, there)
                (then_rest (λ x. free (address w) x >>= release_frame (address w))
                    (free_tables free skip_huge n (i + 1) table)
                    (below (address w) ++ address w ∷ [])
                    (table_frames words below skip_huge n (i + 1) table) here rest s
                  ∙ ap (λ l. back m (give_all l s))
                      (append_assoc (below (address w)) (address w ∷ [])
                        (table_frames words below skip_huge n (i + 1) table)))
          | inr absent ↦ rw (at, absent) (rest s)
        ]

-- What `paging_free_user_pages` does to the frames.
pub free_user_pages-give_all :
    (pml4 : ℕ) (m : Machine)
    → free_user_pages pml4 m ≡ back m (give_all (user_frames m.words pml4) m.frames)
free_user_pages-give_all pml4 m =
    let w = m.words in
    let pt = free_leaves-Gives w m refl 512 0 in
    let free_pt = free_leaves 512 0 in
    let free_pd = free_tables free_pt true 512 0 in
    let free_pdpt = free_tables free_pd true 512 0 in
    let in_pt = page_frames w 512 0 in
    let in_pd = table_frames w in_pt true 512 0 in
    let in_pdpt = table_frames w in_pd true 512 0 in
    let pd = free_tables-Gives w m refl free_pt in_pt true pt 512 0 in
    let pdpt = free_tables-Gives w m refl free_pd in_pd true pd 512 0 in
    free_tables-Gives w m refl free_pdpt in_pdpt false pdpt 256 0 pml4 m.frames
