-- ===== src/Tasks/Tests.antt =====
-- A family for src/task.c: the current task has a child and a parent that waits for it.
use cool_os.Prelude.{
  ℕ, ◌*◌, ◌≡◌, inl, inr, refl, false, some, none, List, [], ◌∷◌, arith, ◌==◌, if◌then◌else◌,
}
use cool_os.Heap.{ok}
use cool_os.Sched.{Task, Tasks, Sched, deref, ProcState, ready, running, blocked}
use cool_os.Sched.Ring.{Entry}
use cool_os.Sched.RoundRobin.{Represents, turn}
use cool_os.Tasks.Family.{remove_from_children_list, task_exit}
use cool_os.Tasks.Children.{Without, remove_from_children_list-Without}
use cool_os.Sched.Fair.{Reaches}
use cool_os.Tasks.Exit.{exit_queue, task_exit-turn}
use cool_os.Tasks.Wakes.{task_exit-Reaches}

-- The next task, the state, the parent, the first child and the next sibling.
abbrev sample : ℕ → ProcState → ℕ → ℕ → ℕ → Task
sample next state parent first_child next_sibling = record {
  rsp = 0;
  next = next;
  state = state;
  stack_base = 0;
  id = 1;
  entry = 0;
  user_rsp = 0;
  kernel_rsp = 0;
  user_rip = 0;
  is_user = false;
  user_stack_base = 0;
  pid = 1;
  ppid = 0;
  parent = parent;
  exit_code = 0;
  first_child = first_child;
  next_sibling = next_sibling;
  cr3 = 0;
  pml4 = 0;
  ticks_remaining = 5;
}

abbrev child : Task
child = sample 48 ready 16 0 64

abbrev waiter : Task
waiter = sample 64 blocked 0 16 0

abbrev leaver : Task
leaver = sample 32 running 48 32 0

abbrev idle : Task
idle = sample 16 ready 16 0 0

abbrev memory : Tasks
memory p =
    if p == 16
    then some leaver
    else if p == 32
    then some child
    else if p == 48
    then some waiter
    else if p == 64
    then some idle
    else none

abbrev begun : Sched
begun = record { tasks = memory; current_task = 16; idle_task = 64; cr3 = 0; rsp0 = 0 }

abbrev others : List Entry
others =
    record { task = 32; body = child }
    ∷ record { task = 48; body = waiter }
    ∷ record { task = 64; body = idle }
    ∷ []

begun-Represents : Represents begun (record { task = 16; body = leaver } ∷ others)
unfolding deref
begun-Represents = record {
  current = refl;
  ring = (refl, refl, (refl, refl, (refl, refl, (refl, refl, tt))));
  distinct = (
    (ground arith, (ground arith, (ground arith, tt))),
    ((ground arith, (ground arith, tt)), ((ground arith, tt), (tt, tt))),
  );
  idle = inr (inr (inr (inl refl)));
}

at_child : deref memory 32 ≡ ok child
unfolding deref
at_child = refl

at_idle : deref memory 64 ≡ ok idle
unfolding deref
at_idle = refl

at_leaver : deref memory 16 ≡ ok leaver
unfolding deref
at_leaver = refl

task_exit-turn_example :
    (s' : Sched) × (task_exit 5 7 begun ≡ ok s')
    × Represents s'
        (turn 64 (exit_queue 7 (32 ∷ 64 ∷ []) (record { task = 16; body = leaver } ∷ others)))
task_exit-turn_example =
    task_exit-turn 5 7 begun (record { task = 16; body = leaver }) others (32 ∷ 64 ∷ [])
      begun-Represents (refl, (child, at_child, (refl, (idle, at_idle, refl))))
      (ground arith, (ground arith, tt)) (inr (inr (inr (inl refl)))) (omega arith) (omega arith)

remove_from_children_list-Without_example :
    (s' : Sched) × (remove_from_children_list 3 64 16 begun ≡ ok s') × Without s' 16 64 (32 ∷ [])
remove_from_children_list-Without_example =
    remove_from_children_list-Without 3 64 16 begun leaver idle (32 ∷ []) [] at_leaver at_idle
      (refl, (child, at_child, (refl, (idle, at_idle, refl))))
      ((ground arith, (ground arith, tt)), ((ground arith, tt), (tt, tt))) (omega arith)

task_exit-Reaches_example : (s' : Sched) × (task_exit 5 7 begun ≡ ok s') × Reaches 5 s' 48 (5 * 1)
task_exit-Reaches_example =
    task_exit-Reaches 5 7 begun (record { task = 16; body = leaver })
      (record { task = 32; body = child } ∷ []) (record { task = 48; body = waiter })
      (record { task = 64; body = idle } ∷ []) (32 ∷ 64 ∷ []) begun-Represents
      (refl, (child, at_child, (refl, (idle, at_idle, refl)))) (ground arith, (ground arith, tt))
      refl refl (omega arith) (omega arith)
