-- ===== src/Tasks/Frames.antt =====
-- Frames that go back to src/pmm.c, one after the other, when a task of src/task.c is reaped.
use cool_os.Prelude.{
  ℕ, ◌+◌, ◌/◌, ◌%◌, ◌<◌, ◌≡◌, ◌≢◌, inl, inr, refl, sym, ap, subst, ◌∙◌, Bool, false, not, ◌&&◌,
  ◌||◌, some, List, [], ◌∷◌, All, arith, ◌==◌, length,
}
use cool_os.Pmm.{Pmm, page_size, free_frame, give_frame}
use cool_os.Pmm.Invariant.{IsValid, used, used-give_frame}
use cool_os.Pmm.Alloc.{IsReleasable, free_frame_lem, frame_count-give_frame}
use cool_os.Paging.Free.{give_all}
use cool_os.Tasks.Adjust.{Outside}
use cool_os.Tasks.Siblings.{Unlike}

-- Frame `g` is that of one of the addresses.
abbrev pub among : List ℕ → ℕ → Bool
among [] g = false
among (p ∷ l) g = p / page_size == g || among l g

-- The frames of `l` are free again, and no others.
pub record Returned (s s' : Pmm) (l : List ℕ) : Type 0 where
  pub valid : IsValid s'
  pub counted : s'.free_frames ≡ s.free_frames + length l
  pub freed : (g : ℕ) → used s' g ≡ (not (among l g) && used s g)

pub given :
    (s : Pmm) (phys : ℕ)
    → IsValid s
    → IsReleasable s phys
    → (free_frame phys s ≡ some (give_frame s (phys / page_size)))
      × IsValid (give_frame s (phys / page_size))
      × ((give_frame s (phys / page_size)).free_frames ≡ s.free_frames + 1)
given s phys v r = elim (free_frame_lem s phys v) [
  | inl good ↦ (good.1, good.2, good.3)
  | inr bad ↦ absurd (bad.0 r)
]

-- A frame of another address can be released still.
IsReleasable-give_frame :
    (s : Pmm) (p q : ℕ)
    → IsValid s
    → IsReleasable s p
    → q ≢ p
    → IsReleasable s q
    → IsReleasable (give_frame s (p / page_size)) q
IsReleasable-give_frame s p q v r apart h =
    let other : (p / page_size == q / page_size) ≡ false =
      ground (arith, frames_apart p q r.aligned h.aligned apart) in
    record {
      aligned = h.aligned;
      below =
          subst (λ n. q / page_size < n) (sym (frame_count-give_frame s (p / page_size))) h.below;
      taken = used-give_frame v (p / page_size) r.below (q / page_size) ∙ rw (other, h.taken) refl;
    }
  where
    frames_apart :
        (p q : ℕ) → p % page_size ≡ 0 → q % page_size ≡ 0 → q ≢ p → p / page_size ≢ q / page_size
    frames_apart p q a b apart = λ same. apart (omega (arith, a, b, same))

Releasable-give_frame :
    (s : Pmm) (p : ℕ) (l : List ℕ)
    → IsValid s
    → IsReleasable s p
    → Outside p l
    → All (IsReleasable s) l
    → All (IsReleasable (give_frame s (p / page_size))) l
Releasable-give_frame s p [] v r out h = tt
Releasable-give_frame s p (q ∷ l) v r out h =
    (IsReleasable-give_frame s p q v r out.0 h.0, Releasable-give_frame s p l v r out.1 h.1)

-- Different frames that are in use all go back.
pub give_all-Returned :
    (l : List ℕ) (s : Pmm)
    → IsValid s
    → All (IsReleasable s) l
    → Unlike l
    → (s' : Pmm) × (give_all l s ≡ some s') × Returned s s' l
unfolding give_all
give_all-Returned [] s v h apart =
    (s, refl, record { valid = v; counted = omega arith; freed = λ g. refl })
give_all-Returned (p ∷ l) s v h apart =
    let one = given s p v h.0 in
    let f = p / page_size in
    let rest =
      give_all-Returned l (give_frame s f) one.1 (Releasable-give_frame s p l v h.0 apart.0 h.1)
        apart.1 in
    (
      rest.0,
      rw (one.0, give_all) rest.1,
      record {
        valid = rest.2.valid;
        counted = omega (arith, rest.2.counted, one.2);
        freed = λ g.
            rest.2.freed g
            ∙ ap (λ b. not (among l g) && b) (used-give_frame v f h.0.below g)
            ∙ both (f == g) (among l g) (used s g);
      },
    )
  where
    both : (a b c : Bool) → (not b && (not a && c)) ≡ (not (a || b) && c)
    both a b c = ground arith
