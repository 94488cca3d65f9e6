-- ===== src/Tasks/ReapTests.antt =====
-- A parent in src/task.c with a child that has exited: the queue, the frames and the heap.
use cool_os.Prelude.{
  ℕ, ◌≡◌, inl, refl, sym, subst, All, List, false, some, none, [], ◌∷◌, arith, ◌==◌, if◌then◌else◌,
}
use cool_os.Pmm.{Pmm}
use cool_os.Pmm.Bitmap.{bitmap_test}
use cool_os.Pmm.Frames.{free_below}
use cool_os.Pmm.Invariant.{IsValid, used}
use cool_os.Pmm.Alloc.{IsReleasable}
use cool_os.Heap.{Memory, ok}
use cool_os.Heap.Chain.{held, spare, header}
use cool_os.Heap.Free.{join_next}
use cool_os.Heap.Release.{join_prev}
use cool_os.Heap.Restore.{IsArena}
use cool_os.Heap.Settled.{settled}
use cool_os.Sched.{Task, Tasks, ProcState, running, zombie, deref}
use cool_os.Sched.Ring.{Entry}
use cool_os.Sched.RoundRobin.{Represents}
use cool_os.Tasks.{Kernel}
use cool_os.Tasks.Family.{reaped, task_wait}
use cool_os.Tasks.Wait.{Outcome, task_wait-Outcome}
use cool_os.Tasks.Siblings.{Unlike}
use cool_os.Paging.Free.{page_frames, table_frames}
use cool_os.Tasks.Release.{held_frames}
use cool_os.Tasks.Reap.{Reaped}
use cool_os.Tasks.Collect.{task_wait-Reaped}

-- The next task, the state, the first child, the stack, the identifier and the parent.
abbrev sample : ℕ → ProcState → ℕ → ℕ → ℕ → ℕ → Task
sample next state first_child stack pid parent = record {
  rsp = 0;
  next = next;
  state = state;
  stack_base = stack;
  id = 1;
  entry = 0;
  user_rsp = 0;
  kernel_rsp = 0;
  user_rip = 0;
  is_user = false;
  user_stack_base = 0;
  pid = pid;
  ppid = 0;
  parent = parent;
  exit_code = 7;
  first_child = first_child;
  next_sibling = 0;
  cr3 = 0;
  pml4 = 0;
  ticks_remaining = 5;
}

abbrev mother : Task
mother = sample 0x10a0 running 0x10a0 0 1 0

abbrev child : Task
child = record (sample 16 zombie 0 0x4000 2 16) { cr3 = 0x2000; pml4 = 0x2000 }

abbrev parent_entry : Entry
parent_entry = record { task = 16; body = mother }

abbrev child_entry : Entry
child_entry = record { task = 0x10a0; body = child }

abbrev tasks : Tasks
tasks p = if p == 16 then some mother else if p == 0x10a0 then some child else none

-- The child stands in the block in the middle.
abbrev blocks : Memory
blocks q =
    if q == 0x1020
    then some (header (spare 64) 0x1080 0)
    else if q == 0x1080
    then some (header (held 160) 0x1140 0x1020)
    else if q == 0x1140
    then some (header (spare 256) 0 0x1080)
    else none

-- The page table of the child maps one page, in frame 11.
abbrev entries : ℕ → ℕ
entries p =
    if p == 0x2000
    then 0x7007
    else if p == 0x7000
    then 0x8007
    else if p == 0x8000
    then 0xa007
    else if p == 0xa000
    then 0xb007
    else 0

-- All frames but 3, 5, 6 and 9 are in use.
abbrev machine : Pmm
machine = record {
  bitmap = 0x97 ∷ 0xfd ∷ [];
  frame_count = 16;
  bitmap_size = 2;
  free_frames = 4;
  max_phys_addr = 0x10000;
  bitmap_phys = 0x1000;
}

abbrev kernel : Kernel
kernel = record {
  sched = record { tasks = tasks; current_task = 16; idle_task = 16; cr3 = 0; rsp0 = 0 };
  next_task_id = 2;
  next_pid = 3;
  heap = record { arenas = []; memory = blocks; frames = machine; hhdm_offset = 0 };
  words = entries;
  kernel_cr3 = 0;
}

machine-IsValid : IsValid machine
unfolding used bitmap_test free_below
machine-IsValid = record {
  bytes = omega arith;
  covers = omega arith;
  addressable = omega arith;
  counted = refl;
}

abbrev frames : List ℕ
frames = 0xb000 ∷ 0xa000 ∷ 0x8000 ∷ 0x7000 ∷ 0x2000 ∷ 0x4000 ∷ []

frames-held_frames : held_frames kernel child ≡ frames
unfolding page_frames table_frames
frames-held_frames = refl

frames-IsReleasable : All (IsReleasable machine) frames
unfolding used bitmap_test
frames-IsReleasable = (
  record { aligned = refl; below = omega arith; taken = refl },
  (
    record { aligned = refl; below = omega arith; taken = refl },
    (
      record { aligned = refl; below = omega arith; taken = refl },
      (
        record { aligned = refl; below = omega arith; taken = refl },
        (
          record { aligned = refl; below = omega arith; taken = refl },
          (record { aligned = refl; below = omega arith; taken = refl }, tt),
        ),
      ),
    ),
  ),
)

frames-Unlike : Unlike frames
frames-Unlike = ground arith

blocks-IsArena : IsArena blocks 0x1020 0x1260 (spare 64 ∷ held 160 ∷ spare 256 ∷ [])
unfolding settled
blocks-IsArena = record {
  chain = (omega arith, refl, (omega arith, refl, (omega arith, refl, tt)));
  apart = refl;
  fills = refl;
}

kernel-Represents : Represents kernel.sched (parent_entry ∷ child_entry ∷ [])
unfolding deref
kernel-Represents = record {
  current = refl;
  ring = (refl, refl, (refl, refl, tt));
  distinct = ((ground arith, tt), (tt, tt));
  idle = inl refl;
}

at_parent : deref tasks 16 ≡ ok mother
unfolding deref
at_parent = refl

at_child : deref tasks 0x10a0 ≡ ok child
unfolding deref
at_child = refl

task_wait-Outcome_example : Outcome 3 kernel parent_entry (child_entry ∷ []) (child_entry ∷ [])
task_wait-Outcome_example =
    task_wait-Outcome 3 kernel parent_entry (child_entry ∷ []) (child_entry ∷ []) kernel-Represents
      (refl, at_child, refl) (omega arith) (omega arith)

task_wait-Reaped_example :
    (k' : Kernel) × (task_wait 3 kernel ≡ ok (reaped 2 7, k'))
    × Reaped kernel k' child_entry (parent_entry ∷ []) []
    × IsArena k'.heap.memory 0x1020 0x1260
        (join_prev (spare 64 ∷ []) (join_next 160 (spare 256 ∷ [])))
task_wait-Reaped_example =
    task_wait-Reaped 3 kernel [] parent_entry child_entry [] mother [] [] 0x1020 0x1260 160
      (spare 64 ∷ []) (spare 256 ∷ []) kernel-Represents at_parent (refl, at_child, refl) tt refl
      refl (ground arith) ((ground arith, tt), (tt, tt)) (omega arith) (omega arith) machine-IsValid
      (subst (All (IsReleasable machine)) (sym frames-held_frames) frames-IsReleasable)
      (subst Unlike (sym frames-held_frames) frames-Unlike) blocks-IsArena refl
