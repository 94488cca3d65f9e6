-- ===== src/Tasks.antt =====
-- The tasks of src/task.c: creation, the lists of children, exit, wait and reaping.
pub mod Create
pub mod Family
pub mod Siblings
pub mod Children
pub mod Adjust
pub mod Exit
pub mod Wakes
pub mod Wait
pub mod Keep
pub mod Frames
pub mod Release
pub mod Detach
pub mod Reap
pub mod Collect
mod ReapTests
mod Tests
use cool_os.Prelude.{
  ℕ, zero, suc, ◌+◌, ◌-◌, ◌*◌, ◌/◌, ◌%◌, ◌^◌, Bool, true, false, not, ◌&&◌, ◌||◌, Option, none,
  some, List, [], ◌∷◌, ltb, leb, ◌==◌, if◌then◌else◌, length,
}
use cool_os.Pmm.{Pmm, alloc_frame, free_frame}
use cool_os.Heap.{Run, ok, fault, out_of_fuel, ◌>>=◌, kfree}
use cool_os.Heap.Arenas.{Heap, kmalloc, phys_to_hhdm}
use cool_os.Paging.{Machine, store, release_frame}
use cool_os.Sched.{
  Task, Tasks, Sched, ProcState, ready, running, blocked, zombie, deref, put, update, tick_slice,
  scheduler_yield,
}

-- The scheduler, the counters of src/task.c, the heap with the frames, the words of memory by their
-- physical addresses, and the page table of the kernel.
pub record Kernel : Type 0 where
  pub sched : Sched
  pub next_task_id : ℕ
  pub next_pid : ℕ
  pub heap : Heap
  pub words : ℕ → ℕ
  pub kernel_cr3 : ℕ

-- What the page tables use of it.
abbrev pub machine_of : Kernel → Machine
machine_of k = record {
  words = k.words;
  frames = k.heap.frames;
  cr3 = k.sched.cr3;
  kernel_cr3 = k.kernel_cr3;
}

abbrev pub with_machine : Kernel → Machine → Kernel
with_machine k m = record k { heap = record k.heap { frames = m.frames }; words = m.words }

abbrev pub on_machine : (Machine → Run Machine) → Kernel → Run Kernel
on_machine f k = f (machine_of k) >>= λ m. ok (with_machine k m)

-- `sizeof(task_t)`, `TASK_STACK_SIZE`, and the layout of user memory.
abbrev pub task_size : ℕ
task_size = 152

abbrev pub task_stack_size : ℕ
task_stack_size = 4096

abbrev pub user_code_vaddr : ℕ
user_code_vaddr = 0x400000

abbrev pub user_stack_vaddr : ℕ
user_stack_vaddr = 0x800000

abbrev pub user_elf_stack_top : ℕ
user_elf_stack_top = 0x7000_0000

abbrev pub user_elf_stack_pages : ℕ
user_elf_stack_pages = 4

-- `kmalloc`, with the fuel of its model.
abbrev pub allocate : ℕ → ℕ → Kernel → Run (ℕ × Kernel)
allocate n size k = kmalloc n n size k.heap >>= λ r. ok (r.0, record k { heap = r.1 })

-- `kfree`; a task at the address is gone.
abbrev pub release_at : ℕ → Kernel → Run Kernel
release_at p k = kfree k.heap.memory p >>= λ memory. ok (record k {
  heap = record k.heap { memory = memory };
  sched = record k.sched { tasks = λ q. if q == p then none else k.sched.tasks q };
})

-- `pmm_alloc_frame`, whose panic is a fault.
abbrev pub take_frame : Kernel → Run (ℕ × Kernel)
take_frame k = elim (alloc_frame k.heap.frames) [
  | none ↦ fault
  | some (phys, s) ↦ ok (phys, record k { heap = record k.heap { frames = s } })
]

abbrev pub give_frame : ℕ → Kernel → Run Kernel
give_frame phys = on_machine (release_frame phys)

-- The frame that the first `context_switch` to a task pops: a return address, and below it six zeros.
unfoldable pub push_zeros : ℕ → ℕ → Machine → Machine
push_zeros zero sp m = m
push_zeros (suc n) sp m = push_zeros n (sp - 8) (store (sp - 8) 0 m)

unfoldable pub push_frame : ℕ → ℕ → Machine → Machine
push_frame trampoline top m = push_zeros 6 (top - 8) (store (top - 8) trampoline m)

-- Both counters move on.
abbrev pub count_task : Kernel → Kernel
count_task k = record k {
  next_task_id = (k.next_task_id + 1) % 2 ^ 64;
  next_pid = (k.next_pid + 1) % 2 ^ 32;
}

-- A task with the fields that all kinds of tasks share.
abbrev pub new_task : Kernel → ℕ → Task
new_task k stack_base = record {
  rsp = stack_base + task_stack_size - 56;
  next = 0;
  state = ready;
  stack_base = stack_base;
  id = k.next_task_id;
  entry = 0;
  user_rsp = 0;
  kernel_rsp = 0;
  user_rip = 0;
  is_user = false;
  user_stack_base = 0;
  pid = k.next_pid;
  ppid = 0;
  parent = 0;
  exit_code = 0;
  first_child = 0;
  next_sibling = 0;
  cr3 = k.kernel_cr3;
  pml4 = 0;
  ticks_remaining = tick_slice;
}

-- The structure is written at `p`, and the counters move on.
abbrev pub install : ℕ → Task → Kernel → Kernel
install p t k = count_task (record k { sched = record k.sched { tasks = put k.sched.tasks p t } })

-- `task_getpid` and `task_getppid`.
unfoldable pub task_getpid : Sched → Run ℕ
task_getpid s =
    if s.current_task == 0 then ok 0 else (deref s.tasks s.current_task >>= λ t. ok t.pid)

unfoldable pub task_getppid : Sched → Run ℕ
task_getppid s =
    if s.current_task == 0 then ok 0 else (deref s.tasks s.current_task >>= λ t. ok t.ppid)

-- `task_set_parent`.
unfoldable pub task_set_parent : ℕ → ℕ → Sched → Run Sched
task_set_parent child parent s =
    if child == 0
    then ok s
    else if parent == 0
    then update child (λ c. record c { parent = 0; ppid = 0 }) s
    else (deref s.tasks parent >>= λ p.
        update child (λ c. record c { parent = parent; ppid = p.pid }) s >>= λ s₁.
        deref s₁.tasks parent >>= λ p₁.
        update child (λ c. record c { next_sibling = p₁.first_child }) s₁ >>= λ s₂.
        update parent (λ q. record q { first_child = child }) s₂)
