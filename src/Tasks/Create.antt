-- ===== src/Tasks/Create.antt =====
-- The creation of tasks in src/task.c, and of the first two by `scheduler_init` of src/scheduler.c. The
-- trampolines are addresses in the kernel, which the linker chooses.
use cool_os.Prelude.{
  ℕ, zero, suc, ◌+◌, ◌-◌, ◌*◌, Bool, true, false, not, ◌||◌, Option, none, some, List, ltb, ◌==◌,
  if◌then◌else◌, length,
}
use cool_os.Heap.{Run, ok, fault, ◌>>=◌}
use cool_os.Heap.Arenas.{phys_to_hhdm}
use cool_os.Paging.{Machine, clear_frame, clone_kernel_mappings, map_user_page_in, free_user_pages}
use cool_os.Sched.{Task, running, put, update}
use cool_os.Elf.Load.{copy, elf_load_into}
use cool_os.Fat.{Drive}
use cool_os.Vfs.{Vfs, vfs_open, vfs_read, vfs_close, vfs_size}
use cool_os.Tasks.{
  Kernel, machine_of, with_machine, on_machine, task_size, task_stack_size, user_code_vaddr,
  user_stack_vaddr, user_elf_stack_top, user_elf_stack_pages, allocate, release_at, take_frame,
  give_frame, push_frame, new_task, install, task_getpid,
}

-- A frame that must not be 0.
abbrev pub take_asserted : Kernel → Run (ℕ × Kernel)
take_asserted k = take_frame k >>= λ r. if r.0 == 0 then fault else ok r

abbrev pub base_of : Kernel → ℕ → ℕ
base_of k phys = phys_to_hhdm k.heap.hhdm_offset phys

-- `task_create`; `n` is the fuel of the heap.
unfoldable pub task_create : ℕ → ℕ → ℕ → Kernel → Run (ℕ × Kernel)
task_create n trampoline entry k = allocate n task_size k >>= λ a.
    if a.0 == 0
    then fault
    else (take_asserted a.1 >>= λ f.
        let k₁ = f.1 in
        let t = record (new_task k₁ (base_of k₁ f.0)) { entry = entry } in
        let k₂ = install a.0 t k₁ in
        ok (a.0, with_machine k₂ (push_frame trampoline (f.0 + task_stack_size) (machine_of k₂))))

-- `scheduler_init`.
unfoldable pub scheduler_init : ℕ → ℕ → ℕ → Kernel → Run Kernel
scheduler_init n trampoline idle_entry k = allocate n task_size k >>= λ a.
    if a.0 == 0
    then fault
    else (let blank = new_task a.1 0 in
        let bootstrap = record blank { rsp = 0; state = running; id = 0; pid = 0 } in
        let k₁ = record a.1 {
          sched = record a.1.sched {
            tasks = put a.1.sched.tasks a.0 bootstrap;
            current_task = a.0;
          };
        } in
        task_create n trampoline idle_entry k₁ >>= λ c.
        let s = record c.1.sched { idle_task = c.0 } in
        update a.0 (λ t. record t { next = c.0 }) s >>= λ s₁.
        update c.0 (λ t. record t { next = a.0 }) s₁ >>= λ s₂. ok (record c.1 { sched = s₂ }))

-- A new page table with the kernel's half.
abbrev pub new_pml4 : ℕ → Machine → Machine
new_pml4 pml4 m = clone_kernel_mappings pml4 (clear_frame pml4 m)

-- The fields of a user task.
abbrev pub user_task : Kernel → ℕ → ℕ → ℕ → ℕ → ℕ → ℕ → Task
user_task k kernel_stack pml4 ppid user_rip user_stack_base user_rsp =
    record (new_task k (base_of k kernel_stack)) {
      is_user = true;
      user_rip = user_rip;
      user_stack_base = user_stack_base;
      user_rsp = user_rsp;
      kernel_rsp = base_of k kernel_stack + task_stack_size;
      ppid = ppid;
      cr3 = pml4;
      pml4 = base_of k pml4;
    }

-- The structure of a user task with its kernel stack.
abbrev pub start_user : ℕ → ℕ → Task → ℕ → Kernel → ℕ × Kernel
start_user trampoline p t kernel_stack k =
    let k' = install p t k in
    (p, with_machine k' (push_frame trampoline (kernel_stack + task_stack_size) (machine_of k')))

-- `paging_map_user_page_in` that must succeed.
abbrev pub map_asserted : ℕ → ℕ → ℕ → Bool → Bool → Machine → Run Machine
map_asserted pml4 vaddr phys writable executable m =
    map_user_page_in pml4 vaddr phys writable executable m >>= λ r. if r.0 then ok r.1 else fault

-- `task_create_user`.
unfoldable pub task_create_user : ℕ → ℕ → List ℕ → Kernel → Run (ℕ × Kernel)
task_create_user n trampoline code k =
    if length code == 0 || ltb task_stack_size (length code)
    then fault
    else (allocate n task_size k >>= λ a.
        if a.0 == 0
        then fault
        else (take_asserted a.1 >>= λ stack. take_asserted stack.1 >>= λ table.
            let k₁ = with_machine table.1 (new_pml4 table.0 (machine_of table.1)) in
            take_asserted k₁ >>= λ code_page. take_asserted code_page.1 >>= λ user_stack.
            let k₂ = user_stack.1 in
            map_asserted table.0 user_code_vaddr code_page.0 false true (machine_of k₂) >>= λ m₁.
            map_asserted table.0 user_stack_vaddr user_stack.0 true false m₁ >>= λ m₂.
            copy (length code) code 0 code_page.0 m₂ >>= λ m₃.
            let k₃ = with_machine k₂ (clear_frame user_stack.0 m₃) in
            task_getpid k₃.sched >>= λ ppid.
            let t =
              user_task k₃ stack.0 table.0 ppid user_code_vaddr user_stack_vaddr
                (user_stack_vaddr + task_stack_size) in
            ok (start_user trampoline a.0 t stack.0 k₃)))

-- What `task_create_elf` gives back when it fails, and its result NULL.
abbrev pub give_up : ℕ → ℕ → ℕ → Kernel → Run (ℕ × Kernel)
give_up p stack table k =
    give_frame table k >>= λ k₁. give_frame stack k₁ >>= λ k₂. release_at p k₂ >>= λ k₃. ok (0, k₃)

-- The loop over the pages of the user stack. `false` when it fails, the frame of the failing page given
-- back.
unfoldable pub map_stack : ℕ → ℕ → ℕ → Kernel → Run (Bool × Kernel)
map_stack zero pml4 vaddr k = ok (true, k)
map_stack (suc n) pml4 vaddr k = take_frame k >>= λ f.
    if f.0 == 0
    then ok (false, f.1)
    else (map_user_page_in pml4 vaddr f.0 true false (clear_frame f.0 (machine_of f.1))
        >>= λ mapped.
            let k₁ = with_machine f.1 mapped.1 in
            elim mapped.0 [
              | false ↦ give_frame f.0 k₁ >>= λ k₂. ok (false, k₂)
              | true ↦ map_stack n pml4 (vaddr + 0x1000) k₁
            ])

-- `task_create_elf`; NULL is 0.
unfoldable pub task_create_elf : ℕ → ℕ → List ℕ → Kernel → Run (ℕ × Kernel)
task_create_elf n trampoline file k =
    if length file == 0
    then ok (0, k)
    else (allocate n task_size k >>= λ a.
        if a.0 == 0
        then ok (0, a.1)
        else (take_frame a.1 >>= λ stack.
            if stack.0 == 0
            then (release_at a.0 stack.1 >>= λ k'. ok (0, k'))
            else (take_frame stack.1 >>= λ table.
                if table.0 == 0
                then (give_frame stack.0 table.1 >>= λ k'. release_at a.0 k' >>= λ k''. ok (0, k''))
                else (let m = new_pml4 table.0 (machine_of table.1) in
                    elf_load_into file table.0 m >>= λ loaded.
                    let k₁ = with_machine table.1 loaded.1 in
                    elim loaded.0 [
                      | none ↦ give_up a.0 stack.0 table.0 k₁
                      | some info ↦
                          let stack_base = user_elf_stack_top - user_elf_stack_pages * 0x1000 in
                          map_stack user_elf_stack_pages table.0 stack_base k₁ >>= λ mapped.
                          elim mapped.0 [
                            | false ↦
                                on_machine (free_user_pages table.0) mapped.1
                                >>= give_up a.0 stack.0 table.0
                            | true ↦ task_getpid mapped.1.sched >>= λ ppid.
                                let t =
                                  user_task mapped.1 stack.0 table.0 ppid info.entry stack_base
                                    (user_elf_stack_top - 8) in
                                ok (start_user trampoline a.0 t stack.0 mapped.1)
                          ]
                    ]))))

-- `task_create_from_path` over a drive. `n` is the fuel of the heap and of the file system, whose crashes
-- are faults.
abbrev pub settle : {A : Type 0} → Option A → Run A
settle none = fault
settle (some a) = ok a

unfoldable pub task_create_from_path :
    ℕ → ℕ → Drive → List ℕ → Vfs → Kernel → Run (ℕ × (Vfs × Kernel))
task_create_from_path n trampoline drive path v k = settle (vfs_open n drive v path) >>= λ opened.
    elim opened.0 [
      | none ↦ ok (0, (opened.1, k))
      | some fd ↦
          let size = vfs_size opened.1 fd in
          if size == 0
          then ok (0, ((vfs_close opened.1 fd).1, k))
          else (allocate n size k >>= λ buf.
              if buf.0 == 0
              then ok (0, ((vfs_close opened.1 fd).1, buf.1))
              else (settle (vfs_read drive opened.1 fd size) >>= λ content.
                  let v' = (vfs_close content.1 fd).1 in
                  let refuse : Run (ℕ × (Vfs × Kernel)) =
                    release_at buf.0 buf.1 >>= λ k'. ok (0, (v', k')) in
                  elim content.0 [
                    | none ↦ refuse
                    | some bytes ↦
                        if not (length bytes == size)
                        then refuse
                        else (task_create_elf n trampoline bytes buf.1 >>= λ created.
                            release_at buf.0 created.1 >>= λ k'. ok (created.0, (v', k')))
                  ]))
    ]
