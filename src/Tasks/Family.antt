-- ===== src/Tasks/Family.antt =====
-- Parents and children in src/task.c: exit, wait and reaping. A task that blocks or exits ends the step
-- of the model at the state that the next task finds.
use cool_os.Prelude.{ℕ, zero, suc, ◌+◌, ◌-◌, ◌%◌, ◌^◌, not, ◌&&◌, ◌||◌, ◌==◌, if◌then◌else◌}
use cool_os.Heap.{Run, ok, out_of_fuel, ◌>>=◌}
use cool_os.Paging.{free_user_pages}
use cool_os.Sched.{
  Task, Sched, ready, blocked, zombie, deref, update, scheduler_yield, remove_from_scheduler,
}
use cool_os.Tasks.{Kernel, on_machine, release_at, give_frame}

-- The sibling before `child`, from `prev` on, or 0.
unfoldable pub find_sibling : ℕ → Sched → ℕ → ℕ → Run ℕ
find_sibling zero s child prev = out_of_fuel
find_sibling (suc n) s child prev =
    if prev == 0
    then ok 0
    else (deref s.tasks prev >>= λ t.
        if t.next_sibling == child then ok prev else find_sibling n s child t.next_sibling)

abbrev pub unlinked : Task → Task
unlinked t = record t { next_sibling = 0 }

-- The links past `child`, from its parent `p` or from the sibling before; `next` follows it.
unfoldable pub relink : ℕ → ℕ → ℕ → Task → ℕ → Sched → Run Sched
relink n child parent p next s =
    if p.first_child == child
    then update parent (λ t. record t { first_child = next }) s
    else (find_sibling n s child p.first_child >>= λ prev.
        if prev == 0 then ok s else update prev (λ t. record t { next_sibling = next }) s)

-- `remove_from_children_list`.
unfoldable pub remove_from_children_list : ℕ → ℕ → ℕ → Sched → Run Sched
remove_from_children_list n child parent s =
    if parent == 0 || child == 0
    then ok s
    else (deref s.tasks parent >>= λ p. deref s.tasks child >>= λ c.
        relink n child parent p c.next_sibling s >>= update child unlinked)

-- `hhdm_to_phys`.
abbrev pub hhdm_to_phys : ℕ → ℕ → ℕ
hhdm_to_phys offset virt = (virt + 2 ^ 64 - offset) % 2 ^ 64

-- The page table of a task that has its own is given back with what it maps.
unfoldable pub reap_space : Task → Kernel → Run Kernel
reap_space t k =
    if not (t.pml4 == 0) && not (t.cr3 == k.kernel_cr3)
    then (on_machine (free_user_pages (hhdm_to_phys k.heap.hhdm_offset t.pml4)) k
        >>= give_frame t.cr3)
    else ok k

-- The kernel stack.
unfoldable pub reap_stack : Task → Kernel → Run Kernel
reap_stack t k =
    if t.stack_base == 0 then ok k else give_frame (hhdm_to_phys k.heap.hhdm_offset t.stack_base) k

-- `task_reap`.
unfoldable pub task_reap : ℕ → ℕ → Kernel → Run Kernel
task_reap n p k =
    if p == 0
    then ok k
    else (deref k.sched.tasks p >>= λ t. remove_from_children_list n p t.parent k.sched >>= λ s₁.
        remove_from_scheduler n p s₁ >>= λ s₂.
        reap_space t (record k { sched = s₂ }) >>= λ k₁. reap_stack t k₁ >>= release_at p)

-- The first zombie among the children from `child` on, or 0.
unfoldable pub find_zombie : ℕ → Sched → ℕ → Run ℕ
find_zombie zero s child = out_of_fuel
find_zombie (suc n) s child =
    if child == 0
    then ok 0
    else (deref s.tasks child >>= λ t. elim t.state [
      | zombie ↦ ok child
      | _ ↦ find_zombie n s t.next_sibling
    ])

-- What `task_wait` comes to: -1, a child that was reaped with its identifier and exit code, or the task
-- has blocked and goes on with `wait_round`.
pub data Waited : Type 0 where
  no_child : Waited
  reaped : ℕ → ℕ → Waited
  waits : Waited

-- `task_wait` from `retry` on.
unfoldable pub wait_round : ℕ → Kernel → Run (Waited × Kernel)
wait_round n k =
    let s = k.sched in
    deref s.tasks s.current_task >>= λ c. find_zombie n s c.first_child >>= λ child.
    if child == 0
    then (update s.current_task (λ t. record t { state = blocked }) s >>= λ s₁.
        scheduler_yield n s₁ >>= λ s₂. ok (waits, record k { sched = s₂ }))
    else (deref s.tasks child >>= λ t.
        task_reap n child k >>= λ k'. ok (reaped t.pid t.exit_code, k'))

unfoldable pub task_wait : ℕ → Kernel → Run (Waited × Kernel)
task_wait n k =
    if k.sched.current_task == 0
    then ok (no_child, k)
    else (deref k.sched.tasks k.sched.current_task >>= λ c.
        if c.first_child == 0 then ok (no_child, k) else wait_round n k)

abbrev pub orphan : Task → Task
orphan t = record t { parent = 0; ppid = 0 }

-- The loop of `task_exit` over the children.
unfoldable pub orphan_children : ℕ → ℕ → Sched → Run Sched
orphan_children zero child s = out_of_fuel
orphan_children (suc n) child s =
    if child == 0
    then ok s
    else (deref s.tasks child >>= λ t. update child orphan s >>= orphan_children n t.next_sibling)

abbrev pub wake : Task → Task
wake t = elim t.state [ blocked ↦ record t { state = ready } | _ ↦ t ]

-- `task_exit` up to the yield.
unfoldable pub leave : ℕ → ℕ → Sched → Run Sched
leave n code s = update s.current_task (λ t. record t { exit_code = code }) s >>= λ s₁.
    deref s₁.tasks s.current_task >>= λ c. orphan_children n c.first_child s₁ >>= λ s₂.
    update s.current_task (λ t. record t { first_child = 0; state = zombie }) s₂ >>= λ s₃.
    deref s₃.tasks s.current_task >>= λ z. if z.parent == 0 then ok s₃ else update z.parent wake s₃

-- `task_exit`.
unfoldable pub task_exit : ℕ → ℕ → Sched → Run Sched
task_exit n code s = if s.current_task == 0 then ok s else (leave n code s >>= scheduler_yield n)
