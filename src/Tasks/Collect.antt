-- ===== src/Tasks/Collect.antt =====
-- `task_wait` of src/task.c from the exit of a child to its end: the child is reaped.
use cool_os.Prelude.{
  ℕ, suc, ◌+◌, ◌≤◌, ◌<◌, ◌≡◌, ◌≢◌, refl, sym, ap, subst, ◌∙◌, List, [], ◌∷◌, All, ◌++◌, arith,
  length,
}
use cool_os.Pmm.Invariant.{IsValid}
use cool_os.Pmm.Alloc.{IsReleasable}
use cool_os.Heap.{ok, block_size}
use cool_os.Heap.Chain.{Part, held, end_at}
use cool_os.Heap.Free.{join_next}
use cool_os.Heap.Release.{join_prev}
use cool_os.Heap.Restore.{IsArena}
use cool_os.Sched.{Task, Tasks, zombie, deref}
use cool_os.Sched.Ring.{Entry}
use cool_os.Sched.RoundRobin.{Represents}
use cool_os.Tasks.{Kernel}
use cool_os.Tasks.Family.{reaped, wait_round, task_wait}
use cool_os.Tasks.Adjust.{Siblings}
use cool_os.Tasks.Siblings.{Unlike}
use cool_os.Tasks.Wait.{Kids, Living, find_zombie-somebody, rounds, reap_round}
use cool_os.Tasks.Release.{held_frames}
use cool_os.Tasks.Reap.{Reaped, task_reap-Reaped}

-- The addresses of a list of children.
abbrev pub tasks_of : List Entry → List ℕ
tasks_of [] = []
tasks_of (e ∷ l) = e.task ∷ tasks_of l

Kids-Siblings :
    (ts : Tasks) (x : ℕ) (a : List Entry) (e : Entry) (d : List Entry)
    → Kids ts x (a ++ e ∷ d)
    → Siblings ts x (tasks_of a ++ e.task ∷ tasks_of d)
Kids-Siblings ts x [] e d h = (h.0, (e.body, h.1, tail ts e.body.next_sibling d h.2))
  where
    tail : (ts : Tasks) (x : ℕ) (l : List Entry) → Kids ts x l → Siblings ts x (tasks_of l)
    tail ts x [] h = h
    tail ts x (e ∷ l) h = (h.0, (e.body, h.1, tail ts e.body.next_sibling l h.2))
Kids-Siblings ts x (y ∷ a) e d h =
    (h.0, (y.body, h.1, Kids-Siblings ts y.body.next_sibling a e d h.2))

length-tasks_of : (l : List Entry) → length (tasks_of l) ≡ length l
length-tasks_of [] = refl
length-tasks_of (e ∷ l) = ap suc (length-tasks_of l)

-- `task_wait` of a task with a child that has exited: the answer is the identifier and the exit code of
-- the first such child, `e`, which `task_reap` has taken out of the queue and of the list of children; the
-- frames of its page table, if it has its own, and of its stack are free again, and so is its block. Those
-- frames are different ones that are in use, the block is held in a well-formed arena, the child is not
-- the idle task, the parent and the children are different tasks, and there is fuel for each task and each
-- child.
pub task_wait-Reaped :
    (n : ℕ) (k : Kernel) (c : List Entry) (x e : Entry) (b : List Entry) (tp : Task)
    (a d : List Entry) (lo hi size : ℕ) (left right : List Part)
    → Represents k.sched (c ++ x ∷ e ∷ b)
    → deref k.sched.tasks k.sched.current_task ≡ ok tp
    → Kids k.sched.tasks tp.first_child (a ++ e ∷ d)
    → Living a
    → e.body.state ≡ zombie
    → e.body.parent ≡ k.sched.current_task
    → e.task ≢ k.sched.idle_task
    → Unlike (e.body.parent ∷ tasks_of a ++ e.task ∷ tasks_of d)
    → length (c ++ x ∷ e ∷ b) ≤ n
    → length a < n
    → IsValid k.heap.frames
    → All (IsReleasable k.heap.frames) (held_frames k e.body)
    → Unlike (held_frames k e.body)
    → IsArena k.heap.memory lo hi (left ++ held size ∷ right)
    → e.task ≡ end_at lo left + block_size
    → (k' : Kernel) × (task_wait n k ≡ ok (reaped e.body.pid e.body.exit_code, k'))
      × Reaped k k' e (c ++ x ∷ b) (tasks_of a ++ tasks_of d)
      × IsArena k'.heap.memory lo hi (join_prev left (join_next size right))
task_wait-Reaped n k c x e b tp a d lo hi size left right h here kids live exited parent busy apart
      enough few valid used different arena block =
    let found = find_zombie-somebody n k.sched tp.first_child a e d kids live exited few in
    let at_parent = subst (λ p. deref k.sched.tasks p ≡ ok tp) (sym parent) here in
    let r =
      task_reap-Reaped n k c x e b tp (tasks_of a) (tasks_of d) lo hi size left right h busy
        at_parent (Kids-Siblings k.sched.tasks tp.first_child a e d kids) apart enough
        (omega (arith, few, length-tasks_of a)) valid used different arena block in
    (
      r.0,
      round n k tp here a e d kids ∙ reap_round n k tp here e found.0 found.1 ∙ rw r.1 refl,
      r.2,
      r.3,
    )
  where
    round :
        (n : ℕ) (k : Kernel) (t : Task)
        → deref k.sched.tasks k.sched.current_task ≡ ok t
        → (a : List Entry) (e : Entry) (d : List Entry)
        → Kids k.sched.tasks t.first_child (a ++ e ∷ d)
        → task_wait n k ≡ wait_round n k
    round n k t here [] e d kids = rounds n k t here e d kids
    round n k t here (y ∷ a) e d kids = rounds n k t here y (a ++ e ∷ d) kids
