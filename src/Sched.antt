-- ===== src/Sched.antt =====
-- The scheduler, src/scheduler.c, and the lists of tasks in src/task.c: the circular queue, the
-- lists of children, exit and wait. A task is reached by its address, and 0 is NULL.
pub mod Ring
pub mod RoundRobin
pub mod Yield
pub mod Turn
pub mod Running
pub mod Fair
pub mod Queue
pub mod Unlink
mod Tests
use cool_os.Prelude.{
  ℕ, zero, suc, ◌+◌, ◌-◌, ◌*◌, ◌/◌, ◌%◌, ◌^◌, Bool, true, false, not, ◌&&◌, ◌||◌, Option, none,
  some, ◌==◌, if◌then◌else◌,
}
use cool_os.Heap.{Run, ok, fault, out_of_fuel, ◌>>=◌}

-- `proc_state_t`.
pub data ProcState : Type 0 where
  ready running blocked zombie : ProcState

-- `task_t`. `entry` and the stack pointers are addresses; `exit_code` is the pattern of an int.
pub record Task : Type 0 where
  pub rsp : ℕ
  pub next : ℕ
  pub state : ProcState
  pub stack_base : ℕ
  pub id : ℕ
  pub entry : ℕ
  pub user_rsp : ℕ
  pub kernel_rsp : ℕ
  pub user_rip : ℕ
  pub is_user : Bool
  pub user_stack_base : ℕ
  pub pid : ℕ
  pub ppid : ℕ
  pub parent : ℕ
  pub exit_code : ℕ
  pub first_child : ℕ
  pub next_sibling : ℕ
  pub cr3 : ℕ
  pub pml4 : ℕ
  pub ticks_remaining : ℕ

-- The task structures by their addresses; one that was freed is none.
abbrev pub Tasks : Type 0
Tasks = ℕ → Option Task

-- `current_task`, `idle_task`, and the registers that a switch sets: the page table and the stack of
-- the interrupts.
pub record Sched : Type 0 where
  pub tasks : Tasks
  pub current_task : ℕ
  pub idle_task : ℕ
  pub cr3 : ℕ
  pub rsp0 : ℕ

-- `SCHED_TICK_SLICE`.
abbrev pub tick_slice : ℕ
tick_slice = 5

-- `p->...`; a NULL or dangling pointer is a fault.
unfoldable pub deref : Tasks → ℕ → Run Task
deref ts p = if p == 0 then fault else elim (ts p) [ none ↦ fault | some t ↦ ok t ]

unfoldable pub put : Tasks → ℕ → Task → Tasks
put ts p t q = if q == p then some t else ts q

-- An assignment to fields of `*p`.
abbrev pub update : ℕ → (Task → Task) → Sched → Run Sched
update p f s = deref s.tasks p >>= λ t. ok (record s { tasks = put s.tasks p (f t) })

-- `state == PROC_ZOMBIE || state == PROC_BLOCKED`.
abbrev pub is_stopped : ProcState → Bool
is_stopped ready = false
is_stopped running = false
is_stopped blocked = true
is_stopped zombie = true

abbrev pub is_running : ProcState → Bool
is_running ready = false
is_running running = true
is_running blocked = false
is_running zombie = false

-- `scheduler_add`.
unfoldable pub scheduler_add : ℕ → Sched → Run Sched
scheduler_add task s = deref s.tasks s.current_task >>= λ c.
    update task (λ t. record t { next = c.next }) s >>= λ s'.
    update s.current_task (λ t. record t { next = task }) s'

-- The loop of `scheduler_yield` that skips tasks; `start` is the successor of the old task.
unfoldable pub skip_stopped : ℕ → Sched → ℕ → ℕ → Run ℕ
skip_stopped zero s start next = out_of_fuel
skip_stopped (suc n) s start next = deref s.tasks next >>= λ t.
    if is_stopped t.state && not (next == s.idle_task)
    then if t.next == start then ok s.idle_task else skip_stopped n s start t.next
    else ok next

-- The task to switch to.
unfoldable pub choose : ℕ → Sched → ℕ → Run ℕ
choose n s start = skip_stopped n s start start >>= λ next.
    deref s.tasks next >>= λ t. ok (if is_stopped t.state then s.idle_task else next)

-- The registers for a task that is switched to.
unfoldable pub switch_to : ℕ → Sched → Run Sched
switch_to next s = deref s.tasks next >>= λ t. ok (record s {
  cr3 = if not (t.cr3 == 0) && not (t.cr3 == s.cr3) then t.cr3 else s.cr3;
  rsp0 = if t.is_user && not (t.kernel_rsp == 0) then t.kernel_rsp else s.rsp0;
})

abbrev pub demoted : Task → Task
demoted t = record t { state = if is_running t.state then ready else t.state }

abbrev pub promoted : Task → Task
promoted t = record t { state = running; ticks_remaining = tick_slice }

-- `scheduler_yield` up to the switch of stacks: the state that the next task finds.
unfoldable pub scheduler_yield : ℕ → Sched → Run Sched
scheduler_yield n s = deref s.tasks s.current_task >>= λ old. choose n s old.next >>= λ next.
    update s.current_task demoted s >>= λ s₁. update next promoted s₁ >>= λ s₂.
    let s₃ = record s₂ { current_task = next } in
    if s.current_task == next then ok s₃ else switch_to next s₃

-- The part of the timer interrupt that concerns tasks, in src/timer.c.
unfoldable pub timer_tick : ℕ → Sched → Run Sched
timer_tick n s =
    if s.current_task == 0
    then ok s
    else (deref s.tasks s.current_task >>= λ t.
        if not (is_running t.state)
        then ok s
        else (let left = t.ticks_remaining - 1 in
            update s.current_task (λ c. record c { ticks_remaining = left }) s >>= λ s'.
            if left == 0 then scheduler_yield n s' else ok s'))

-- `task_find_by_pid`, from the task at `p` on.
unfoldable pub find_from : ℕ → Sched → ℕ → ℕ → Run ℕ
find_from zero s pid p = out_of_fuel
find_from (suc n) s pid p = deref s.tasks p >>= λ t.
    if t.pid == pid
    then ok p
    else if t.next == s.current_task
    then ok 0
    else find_from n s pid t.next

abbrev pub task_find_by_pid : ℕ → ℕ → Sched → Run ℕ
task_find_by_pid n pid s =
    if s.current_task == 0 || pid == 0 then ok 0 else find_from n s pid s.current_task

-- The predecessor in the queue of a task, or the last one before the current task.
unfoldable pub find_prev : ℕ → Sched → ℕ → ℕ → Run ℕ
find_prev zero s task prev = out_of_fuel
find_prev (suc n) s task prev = deref s.tasks prev >>= λ t.
    if t.next == task || t.next == s.current_task then ok prev else find_prev n s task t.next

-- `remove_from_scheduler`.
unfoldable pub remove_from_scheduler : ℕ → ℕ → Sched → Run Sched
remove_from_scheduler n task s =
    if s.current_task == 0 || task == 0
    then ok s
    else (find_prev n s task s.current_task >>= λ prev. deref s.tasks prev >>= λ p.
        if p.next == task
        then (deref s.tasks task >>= λ t. update prev (λ q. record q { next = t.next }) s)
        else ok s)
