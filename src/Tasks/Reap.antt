-- ===== src/Tasks/Reap.antt =====
-- `task_reap` of src/task.c: what it gives back, over the queue, the lists of children, the frames of
-- src/pmm.c and the heap of src/heap.c.
use cool_os.Prelude.{
  ℕ, ◌+◌, ◌≤◌, ◌≡◌, ◌≢◌, refl, sym, subst, ◌∙◌, true, some, none, List, [], ◌∷◌, ◌++◌, All, arith,
  ◌==◌, length,
}
use cool_os.Pmm.{Pmm}
use cool_os.Pmm.Invariant.{IsValid}
use cool_os.Pmm.Alloc.{IsReleasable}
use cool_os.Paging.Free.{give_all}
use cool_os.Heap.{Memory, ok, block_size, kfree}
use cool_os.Heap.Chain.{Part, held, end_at}
use cool_os.Heap.Free.{join_next}
use cool_os.Heap.Release.{join_prev}
use cool_os.Heap.Restore.{IsArena, kfree_lem}
use cool_os.Sched.{Task, Sched, deref, remove_from_scheduler}
use cool_os.Sched.Ring.{Entry, first, Chain-split, deref-ok}
use cool_os.Sched.RoundRobin.{Represents}
use cool_os.Tasks.{Kernel, release_at}
use cool_os.Tasks.Family.{task_reap, remove_from_children_list}
use cool_os.Tasks.Adjust.{Siblings, Outside}
use cool_os.Tasks.Siblings.{Unlike, Unlike-middle}
use cool_os.Tasks.Keep.{SameTasks}
use cool_os.Tasks.Frames.{Returned, give_all-Returned}
use cool_os.Tasks.Release.{held_frames, reap_memory}
use cool_os.Tasks.Detach.{detach, hidden, deref-hidden, Represents-hidden, Siblings-hidden}

-- The kernel after the task at `p` has gone, over the scheduler that it left.
abbrev pub released : ℕ → Sched → Pmm → Memory → Kernel → Kernel
released p s frames memory k = record k {
  heap = record k.heap { frames = frames; memory = memory };
  sched = record s { tasks = hidden p s.tasks };
}

reap_steps :
    (n p : ℕ) (k : Kernel) (t : Task) (s₁ s₂ : Sched) (frames : Pmm) (memory : Memory)
    → deref k.sched.tasks p ≡ ok t
    → remove_from_children_list n p t.parent k.sched ≡ ok s₁
    → remove_from_scheduler n p s₁ ≡ ok s₂
    → give_all (held_frames k t) k.heap.frames ≡ some frames
    → kfree k.heap.memory p ≡ ok memory
    → task_reap n p k ≡ ok (released p s₂ frames memory k)
unfolding task_reap
reap_steps n p k t s₁ s₂ frames memory here listed queued given freed =
    rw ((deref-ok k.sched.tasks p t here).0, here, listed, queued)
      (reap_memory t (record k { sched = s₂ }) frames (release_at p) given ∙ rw freed refl)

-- What reaping the task `e` leaves: the queue `q` and the children `l` of its parent without it, and
-- with the allocator the frames of its page table and of its stack, and no others.
pub record Reaped (k k' : Kernel) (e : Entry) (q : List Entry) (l : List ℕ) : Type 0 where
  pub queue : List Entry
  pub represents : Represents k'.sched queue
  pub same : SameTasks q queue
  pub gone : k'.sched.tasks e.task ≡ none
  pub body : Task
  pub there : deref k'.sched.tasks e.body.parent ≡ ok body
  pub kids : Siblings k'.sched.tasks body.first_child l
  pub returned : Returned k.heap.frames k'.heap.frames (held_frames k e.body)

-- `task_reap` of a task that is not the current and not the idle one succeeds: the task is out of the
-- queue and of its parent's list, where all others stay in order, the frames of its page table, if it has
-- its own, and of its stack are free again, and so is the block of its structure, whose address is no
-- task's any more. The frames are different ones that are in use, the block is held in a well-formed
-- arena, and there is fuel for each task and each child before it.
pub task_reap-Reaped :
    (n : ℕ) (k : Kernel) (c : List Entry) (x e : Entry) (b : List Entry) (tp : Task) (a d : List ℕ)
    (lo hi size : ℕ) (left right : List Part)
    → Represents k.sched (c ++ x ∷ e ∷ b)
    → e.task ≢ k.sched.idle_task
    → deref k.sched.tasks e.body.parent ≡ ok tp
    → Siblings k.sched.tasks tp.first_child (a ++ e.task ∷ d)
    → Unlike (e.body.parent ∷ a ++ e.task ∷ d)
    → length (c ++ x ∷ e ∷ b) ≤ n
    → length a ≤ n
    → IsValid k.heap.frames
    → All (IsReleasable k.heap.frames) (held_frames k e.body)
    → Unlike (held_frames k e.body)
    → IsArena k.heap.memory lo hi (left ++ held size ∷ right)
    → e.task ≡ end_at lo left + block_size
    → (k' : Kernel) × (task_reap n e.task k ≡ ok k')
      × Reaped k k' e (c ++ x ∷ b) (a ++ d)
      × IsArena k'.heap.memory lo hi (join_prev left (join_next size right))
task_reap-Reaped n k c x e b tp a d lo hi size left right h busy there kids apart enough few valid
      used different arena block =
    let s = k.sched in
    let here = (Chain-split s.tasks c (x ∷ e ∷ b) (first (c ++ x ∷ e ∷ b) 0) h.ring).1.2.0 in
    let t = detach n s c x e b e.body.parent tp a d h busy there kids apart enough few in
    let back = give_all-Returned (held_frames k e.body) k.heap.frames valid used different in
    let freed = kfree_lem k.heap.memory lo hi size left right arena in
    let out = Unlike-middle a e.task d apart.1 in
    (
      released e.task t.state back.0 freed.0 k,
      reap_steps n e.task k e.body t.unlisted t.state back.0 freed.0 here t.listed t.queued back.1
          (subst (λ p. kfree k.heap.memory p ≡ ok freed.0) (sym block) freed.1),
      record {
        queue = t.queue;
        represents = Represents-hidden t.state e.task t.queue t.fresh t.represents;
        same = t.same;
        gone = at_hidden t.state e.task;
        body = t.body;
        there =
            deref-hidden t.state.tasks e.task e.body.parent
              (child_apart e.task a d e.body.parent apart.0)
            ∙ t.there;
        kids = Siblings-hidden t.state.tasks e.task t.body.first_child (a ++ d) out.0 t.kids;
        returned = back.2;
      },
      freed.2,
    )
  where
    at_hidden : (s : Sched) (p : ℕ) → hidden p s.tasks p ≡ none
    at_hidden s p = let it : (p == p) ≡ true = ground arith in rw it refl

    child_apart : (p : ℕ) (a d : List ℕ) (parent : ℕ) → Outside parent (a ++ p ∷ d) → parent ≢ p
    child_apart p [] d parent h = λ same. h.0 (sym same)
    child_apart p (y ∷ a) d parent h = child_apart p a d parent h.1
