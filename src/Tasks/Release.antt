-- ===== src/Tasks/Release.antt =====
-- The memory that `task_reap` of src/task.c gives back, as one list of frames: those of the page table of the
-- task, if it has its own, and that of its kernel stack.
use cool_os.Prelude.{
  ℕ, ◌≡◌, refl, sym, ap, ◌∙◌, inl, inr, Bool, not, ◌&&◌, ◌==◌, Bool-cases, List, [], ◌∷◌, ◌++◌,
  Option, none, some, if◌then◌else◌,
}
use cool_os.Pmm.{Pmm, free_frame}
use cool_os.Heap.{Run, ok, fault, out_of_fuel, ◌>>=◌}
use cool_os.Paging.{free_user_pages}
use cool_os.Paging.Free.{
  give_all, user_frames, back, followed, give_all-append, free_user_pages-give_all,
}
use cool_os.Sched.{Task}
use cool_os.Tasks.{Kernel, machine_of, with_machine, on_machine, give_frame}
use cool_os.Tasks.Family.{hhdm_to_phys, reap_space, reap_stack}

-- The task has a page table of its own.
abbrev pub has_space : Kernel → Task → Bool
has_space k t = not (t.pml4 == 0) && not (t.cr3 == k.kernel_cr3)

abbrev pub space_frames : Kernel → Task → List ℕ
space_frames k t =
    if has_space k t
    then user_frames k.words (hhdm_to_phys k.heap.hhdm_offset t.pml4) ++ t.cr3 ∷ []
    else []

abbrev pub stack_frames : Kernel → Task → List ℕ
stack_frames k t =
    if t.stack_base == 0 then [] else hhdm_to_phys k.heap.hhdm_offset t.stack_base ∷ []

abbrev pub held_frames : Kernel → Task → List ℕ
held_frames k t = space_frames k t ++ stack_frames k t

abbrev pub with_frames : Kernel → Pmm → Kernel
with_frames k s = record k { heap = record (k.heap) { frames = s } }

-- The kernel with the frames that are left, or a panic.
abbrev outcome : Kernel → Option Pmm → Run Kernel
outcome k o = elim o [ none ↦ fault | some s ↦ ok (with_frames k s) ]

outcome-bind :
    (k : Kernel) (o : Option Pmm) (g : Kernel → Run Kernel) (h : Pmm → Option Pmm)
    → ((s : Pmm) → g (with_frames k s) ≡ outcome k (h s))
    → (outcome k o >>= g) ≡ outcome k (followed o h)
outcome-bind k none g h same = refl
outcome-bind k (some s) g h same = same s

kernel_of :
    (k : Kernel) (o : Option Pmm)
    → (back (machine_of k) o >>= λ m. ok (with_machine k m)) ≡ outcome k o
kernel_of k none = refl
kernel_of k (some s) = refl

on_machine-give_all :
    (pml4 : ℕ) (k : Kernel)
    → on_machine (free_user_pages pml4) k
      ≡ outcome k (give_all (user_frames k.words pml4) k.heap.frames)
on_machine-give_all pml4 k =
    ap (λ r. r >>= λ m. ok (with_machine k m)) (free_user_pages-give_all pml4 (machine_of k))
    ∙ kernel_of k (give_all (user_frames k.words pml4) k.heap.frames)

give_frame-give_all :
    (p : ℕ) (k : Kernel) (s : Pmm)
    → give_frame p (with_frames k s) ≡ outcome k (give_all (p ∷ []) s)
unfolding give_all
give_frame-give_all p k s = by_result (free_frame p s)
  where
    by_result :
        (o : Option Pmm)
        → (back (machine_of (with_frames k s)) o >>= λ m. ok (with_machine (with_frames k s) m))
          ≡ outcome k (elim o [ none ↦ none | some x ↦ some x ])
    by_result none = refl
    by_result (some x) = refl

reap_space-give_all :
    (t : Task) (k : Kernel) → reap_space t k ≡ outcome k (give_all (space_frames k t) k.heap.frames)
unfolding reap_space give_all
reap_space-give_all t k =
    let pml4 = hhdm_to_phys k.heap.hhdm_offset t.pml4 in
    let below = user_frames k.words pml4 in
    elim (Bool-cases (has_space k t)) [
      | inl own ↦ rw own (
          ap (λ r. r >>= give_frame t.cr3) (on_machine-give_all pml4 k)
          ∙ outcome-bind k (give_all below k.heap.frames) (give_frame t.cr3) (give_all (t.cr3 ∷ []))
              (give_frame-give_all t.cr3 k)
          ∙ ap (outcome k) (sym (give_all-append below (t.cr3 ∷ []) k.heap.frames)))
      | inr shared ↦ rw shared refl
    ]

reap_stack-give_all :
    (t : Task) (k : Kernel) (s : Pmm)
    → reap_stack t (with_frames k s) ≡ outcome k (give_all (stack_frames k t) s)
unfolding reap_stack give_all
reap_stack-give_all t k s = elim (Bool-cases (t.stack_base == 0)) [
  | inl no_stack ↦ rw no_stack refl
  | inr stack ↦ rw stack (give_frame-give_all (hhdm_to_phys k.heap.hhdm_offset t.stack_base) k s)
]

bind_assoc :
    {A B C : Type 0} (r : Run A) (f : A → Run B) (g : B → Run C)
    → (r >>= λ a. f a >>= g) ≡ ((r >>= f) >>= g)
bind_assoc (ok a) f g = refl
bind_assoc fault f g = refl
bind_assoc out_of_fuel f g = refl

-- Both together, and what follows them.
pub reap_memory :
    (t : Task) (k : Kernel) (s : Pmm) (g : Kernel → Run Kernel)
    → give_all (held_frames k t) k.heap.frames ≡ some s
    → (reap_space t k >>= λ k₁. reap_stack t k₁ >>= g) ≡ g (with_frames k s)
reap_memory t k s g given =
    let o = give_all (space_frames k t) k.heap.frames in
    bind_assoc (reap_space t k) (reap_stack t) g
    ∙ ap (λ r. (r >>= reap_stack t) >>= g) (reap_space-give_all t k)
    ∙ ap (λ r. r >>= g)
        (outcome-bind k o (reap_stack t) (give_all (stack_frames k t)) (reap_stack-give_all t k)
          ∙ ap (outcome k)
              (sym (give_all-append (space_frames k t) (stack_frames k t) k.heap.frames) ∙ given))
