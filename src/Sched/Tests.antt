-- ===== src/Sched/Tests.antt =====
-- The queue of src/scheduler.c with four tasks: the current one, one that waits, a ready user task and the
-- idle task.
use cool_os.Prelude.{
  ℕ, ◌+◌, ◌*◌, ◌≡◌, inl, inr, refl, true, some, none, List, [], ◌∷◌, arith, ◌==◌, if◌then◌else◌,
}
use cool_os.Heap.{ok}
use cool_os.Sched.{
  Task, Tasks, Sched, deref, scheduler_yield, scheduler_add, remove_from_scheduler, ProcState,
  ready, running, blocked,
}
use cool_os.Sched.Ring.{Entry}
use cool_os.Sched.RoundRobin.{Represents, turn}
use cool_os.Sched.Turn.{Loaded, scheduler_yield-turn, scheduler_yield-Loaded}
use cool_os.Sched.Running.{OneRuns, scheduler_yield-OneRuns}
use cool_os.Sched.Fair.{Reaches, runs_soon}
use cool_os.Sched.Queue.{linked, scheduler_add-Represents}
use cool_os.Sched.Unlink.{remove_from_scheduler-Represents}

abbrev sample : ℕ → ℕ → ProcState → Task
sample next pid state = record {
  rsp = 0;
  next = next;
  state = state;
  stack_base = 0;
  id = pid;
  entry = 0;
  user_rsp = 0;
  kernel_rsp = 4096;
  user_rip = 0;
  is_user = true;
  user_stack_base = 0;
  pid = pid;
  ppid = 0;
  parent = 0;
  exit_code = 0;
  first_child = 0;
  next_sibling = 0;
  cr3 = 0;
  pml4 = 0;
  ticks_remaining = 2;
}

abbrev entry_at : ℕ → ℕ → ℕ → ProcState → Entry
entry_at p next pid state = record { task = p; body = sample next pid state }

abbrev four : List Entry
four =
    entry_at 16 32 1 running
    ∷ entry_at 32 48 2 blocked
    ∷ entry_at 48 64 3 ready
    ∷ entry_at 64 16 4 ready
    ∷ []

abbrev memory : Tasks
memory p =
    if p == 16
    then some (sample 32 1 running)
    else if p == 32
    then some (sample 48 2 blocked)
    else if p == 48
    then some (sample 64 3 ready)
    else if p == 64
    then some (sample 16 4 ready)
    else if p == 80
    then some (sample 0 5 ready)
    else none

abbrev begun : Sched
begun = record { tasks = memory; current_task = 16; idle_task = 64; cr3 = 0; rsp0 = 4096 }

begun-Represents : Represents begun four
unfolding deref
begun-Represents = record {
  current = refl;
  ring = (refl, refl, (refl, refl, (refl, refl, (refl, refl, tt))));
  distinct = (
    (ground arith, (ground arith, (ground arith, tt))),
    ((ground arith, (ground arith, tt)), ((ground arith, tt), (tt, tt))),
  );
  idle = inr (inr (inr (inl refl)));
}

scheduler_yield-turn_example :
    (s' : Sched) × (scheduler_yield 4 begun ≡ ok s')
    × Represents s' (turn 64 four)
    × (s'.idle_task ≡ 64)
scheduler_yield-turn_example = scheduler_yield-turn 4 begun four begun-Represents (omega arith)

scheduler_yield-Loaded_example :
    (s' : Sched) × (scheduler_yield 4 begun ≡ ok s') × Loaded s' (turn 64 four)
scheduler_yield-Loaded_example =
    scheduler_yield-Loaded 4 begun four begun-Represents (omega arith) (inl refl, inr (inr refl))

scheduler_yield-OneRuns_example :
    (s' : Sched) × (q : List Entry) × (scheduler_yield 4 begun ≡ ok s')
    × Represents s' q
    × OneRuns q
scheduler_yield-OneRuns_example =
    scheduler_yield-OneRuns 4 begun (entry_at 16 32 1 running)
      (entry_at 32 48 2 blocked ∷ entry_at 48 64 3 ready ∷ entry_at 64 16 4 ready ∷ [])
      begun-Represents (omega arith) (refl, (refl, (refl, tt)))

runs_soon_example : Reaches 4 begun 48 (5 * 1 + 2)
runs_soon_example =
    runs_soon 4 begun (entry_at 16 32 1 running) (entry_at 32 48 2 blocked ∷ [])
      (entry_at 48 64 3 ready) (entry_at 64 16 4 ready ∷ []) begun-Represents (omega arith) refl
      (omega arith) refl

here : deref memory 80 ≡ ok (sample 0 5 ready)
unfolding deref
here = refl

scheduler_add-Represents_example :
    (s' : Sched) × (scheduler_add 80 begun ≡ ok s')
    × Represents s' (
        linked 80 (entry_at 16 32 1 running)
        ∷ entry_at 80 32 5 ready
        ∷ entry_at 32 48 2 blocked
        ∷ entry_at 48 64 3 ready
        ∷ entry_at 64 16 4 ready
        ∷ [])
scheduler_add-Represents_example =
    scheduler_add-Represents begun (entry_at 16 32 1 running)
      (entry_at 32 48 2 blocked ∷ entry_at 48 64 3 ready ∷ entry_at 64 16 4 ready ∷ []) 80
      (sample 0 5 ready) begun-Represents here
      (ground arith, (ground arith, (ground arith, (ground arith, tt))))

remove_from_scheduler-Represents_example :
    (s' : Sched) × (remove_from_scheduler 4 48 begun ≡ ok s')
    × Represents s' (
        entry_at 16 32 1 running
        ∷ linked 64 (entry_at 32 48 2 blocked)
        ∷ entry_at 64 16 4 ready
        ∷ [])
remove_from_scheduler-Represents_example =
    remove_from_scheduler-Represents 4 begun (entry_at 16 32 1 running ∷ [])
      (entry_at 32 48 2 blocked) (entry_at 48 64 3 ready) (entry_at 64 16 4 ready ∷ [])
      begun-Represents (ground arith) (omega arith)
