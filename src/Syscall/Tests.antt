-- ===== src/Syscall/Tests.antt =====
-- A run of src/syscall.c: a wait that reaps a child and stores its exit code.
use cool_os.Prelude.{ℕ, ◌≡◌, refl, false, some, none, [], ◌==◌, if◌then◌else◌}
use cool_os.Heap.{
  Run, ok, fault, out_of_fuel, free_block, fill, Memory, heap_magic, kfree, load, write, release,
  merge_prev, set_prev,
}
use cool_os.Sched.{
  Task, Tasks, ProcState, running, zombie, deref, put, remove_from_scheduler, find_prev,
}
use cool_os.Tasks.{Kernel}
use cool_os.Tasks.Family.{
  task_wait, wait_round, find_zombie, task_reap, reap_space, reap_stack, relink,
  remove_from_children_list,
}
use cool_os.Syscall.{Answer, suspended, answer_wait, syscall_dispatch}
use cool_os.Syscall.Stores.{IsWait, syscall_dispatch-IsWait}

-- The state, the first child, the identifier and the parent.
abbrev sample : ProcState → ℕ → ℕ → ℕ → Task
sample state first_child pid parent = record {
  rsp = 0;
  next = 16;
  state = state;
  stack_base = 0;
  id = 1;
  entry = 0;
  user_rsp = 0;
  kernel_rsp = 0;
  user_rip = 0;
  is_user = false;
  user_stack_base = 0;
  pid = pid;
  ppid = 0;
  parent = parent;
  exit_code = 7;
  first_child = first_child;
  next_sibling = 0;
  cr3 = 0;
  pml4 = 0;
  ticks_remaining = 5;
}

-- The child stands in the block whose header is at 0x1080.
abbrev tasks : Tasks
tasks p =
    if p == 16
    then some (sample running 0x10a0 1 0)
    else if p == 0x10a0
    then some (sample zombie 0 2 16)
    else none

abbrev blocks : Memory
blocks q =
    if q == 0x1080
    then some (record { magic = heap_magic; free = false; size = 256; next = 0; prev = 0 })
    else none

abbrev kernel : Kernel
kernel = record {
  sched = record { tasks = tasks; current_task = 16; idle_task = 16; cr3 = 0; rsp0 = 0 };
  next_task_id = 2;
  next_pid = 3;
  heap = record {
    arenas = [];
    memory = blocks;
    frames = record {
      bitmap = [];
      frame_count = 0;
      bitmap_size = 0;
      free_frames = 0;
      max_phys_addr = 0;
      bitmap_phys = 0;
    };
    hhdm_offset = 0;
  };
  words = λ p. 0;
  kernel_cr3 = 0;
}

abbrev ended : Run (Answer × Kernel) → Answer × Kernel
ended (ok r) = r
ended fault = (suspended, kernel)
ended out_of_fuel = (suspended, kernel)

abbrev outcome : Answer × Kernel
outcome = ended (syscall_dispatch 3 (λ p. 0) 3 4096 0 0 kernel)

code_stored : outcome.0 ≡ record { value = some 2; printed = []; stored = some (4096, 7) }
unfolding syscall_dispatch task_wait answer_wait wait_round find_zombie task_reap reap_space
    reap_stack relink remove_from_children_list remove_from_scheduler find_prev kfree load write
    release merge_prev set_prev deref put free_block fill
code_stored = refl

reaps : syscall_dispatch 3 (λ p. 0) 3 4096 0 0 kernel ≡ ok outcome
unfolding syscall_dispatch task_wait answer_wait wait_round find_zombie task_reap reap_space
    reap_stack relink remove_from_children_list remove_from_scheduler find_prev kfree load write
    release merge_prev set_prev deref put free_block fill
reaps = refl

syscall_dispatch-IsWait_example : IsWait kernel 3 4096 outcome.0
syscall_dispatch-IsWait_example = syscall_dispatch-IsWait 3 (λ p. 0) 3 4096 0 0 kernel outcome reaps
