-- ===== src/Isr.antt =====
-- Processor exceptions, src/isr.c: a fault of a user program ends the program, one of the kernel halts the
-- machine. The report on the serial port is left out.
pub mod Fault
pub mod Stopped
mod Tests
use cool_os.Prelude.{ℕ, ◌%◌, Bool, ◌==◌, if◌then◌else◌}
use cool_os.Heap.{Run, ok, ◌>>=◌}
use cool_os.Sched.{Task, Sched, zombie, update, scheduler_yield}

-- The machine halts, or the next task goes on.
pub data Handled : Type 0 where
  halted : Handled
  switched : Sched → Handled

abbrev pub finished : Task → Task
finished t = record t { state = zombie }

-- The branch of `isr_handler` for faults of user mode.
unfoldable pub kill_task : ℕ → Sched → Run Sched
kill_task n s =
    (if s.current_task == 0 then ok s else update s.current_task finished s) >>= scheduler_yield n

-- `isr_handler`, with the code segment of the frame.
unfoldable pub isr_handler : ℕ → ℕ → Sched → Run Handled
isr_handler n cs s = if cs % 4 == 3 then (kill_task n s >>= λ s'. ok (switched s')) else ok halted
