-- ===== src/Isr/Tests.antt =====
-- A fault for src/isr.c, in a user program whose parent waits.
use cool_os.Prelude.{
  ℕ, ◌≡◌, inl, inr, refl, true, some, none, List, [], ◌∷◌, arith, ◌==◌, if◌then◌else◌,
}
use cool_os.Heap.{ok}
use cool_os.Sched.{Task, Tasks, Sched, deref, ProcState, ready, running, blocked}
use cool_os.Sched.Ring.{Entry}
use cool_os.Sched.RoundRobin.{Represents}
use cool_os.Isr.{switched, isr_handler}
use cool_os.Sched.Fair.{timer_ticks}
use cool_os.Isr.Stopped.{Stays, isr_handler-Stays}

abbrev sample : ℕ → ProcState → ℕ → ℕ → Task
sample next state parent first_child = record {
  rsp = 0;
  next = next;
  state = state;
  stack_base = 0;
  id = 1;
  entry = 0;
  user_rsp = 0;
  kernel_rsp = 0;
  user_rip = 0;
  is_user = true;
  user_stack_base = 0;
  pid = 1;
  ppid = 0;
  parent = parent;
  exit_code = 0;
  first_child = first_child;
  next_sibling = 0;
  cr3 = 0;
  pml4 = 0;
  ticks_remaining = 5;
}

abbrev program : Task
program = sample 32 running 32 0

abbrev waiter : Task
waiter = sample 48 blocked 0 16

abbrev idle : Task
idle = sample 16 ready 0 0

abbrev memory : Tasks
memory p =
    if p == 16
    then some program
    else if p == 32
    then some waiter
    else if p == 48
    then some idle
    else none

abbrev begun : Sched
begun = record { tasks = memory; current_task = 16; idle_task = 48; cr3 = 0; rsp0 = 0 }

abbrev others : List Entry
others = record { task = 32; body = waiter } ∷ record { task = 48; body = idle } ∷ []

begun-Represents : Represents begun (record { task = 16; body = program } ∷ others)
unfolding deref
begun-Represents = record {
  current = refl;
  ring = (refl, refl, (refl, refl, (refl, refl, tt)));
  distinct = omega arith;
  idle = inr (inr (inl refl));
}

isr_handler-Stays_example :
    (s₁ s₂ : Sched) × (isr_handler 3 0x1b begun ≡ ok (switched s₁))
    × (timer_ticks 3 12 s₁ ≡ ok s₂)
    × Stays 16 s₂
isr_handler-Stays_example =
    isr_handler-Stays 3 0x1b 12 begun (record { task = 16; body = program }) others (omega arith)
      begun-Represents (omega arith) (ground arith)
