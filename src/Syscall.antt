-- ===== src/Syscall.antt =====
-- System calls, src/syscall.c: the dispatcher behind the entry stub. The memory of the user program is
-- an argument: the byte that each address reads as.
pub mod Stores
mod Tests
use cool_os.Prelude.{
  ℕ, zero, suc, ◌+◌, ◌-◌, ◌*◌, ◌/◌, ◌%◌, ◌^◌, Bool, true, false, not, ◌&&◌, Option, none, some,
  List, [], ◌∷◌, ltb, ◌==◌, if◌then◌else◌,
}
use cool_os.Heap.{Run, ok, fault, ◌>>=◌}
use cool_os.Sched.{Sched, scheduler_yield}
use cool_os.Tasks.{Kernel, task_getpid, task_getppid}
use cool_os.Tasks.Family.{Waited, no_child, reaped, waits, task_wait, task_exit}

-- What a call does to its caller: the value that it returns, or none while the caller does not run on, what
-- the serial port prints, and a word that is stored in its memory.
pub record Answer : Type 0 where
  pub value : Option ℕ
  pub printed : List ℕ
  pub stored : Option (ℕ × ℕ)

abbrev pub returns : ℕ → Answer
returns v = record { value = some v; printed = []; stored = none }

abbrev pub suspended : Answer
suspended = record { value = none; printed = []; stored = none }

-- -1.
abbrev pub minus_one : ℕ
minus_one = 2 ^ 64 - 1

-- The loop of `sys_write`.
unfoldable pub read_user : ℕ → (ℕ → ℕ) → ℕ → List ℕ
read_user zero user p = []
read_user (suc n) user p = user p ∷ read_user n user (p + 1)

abbrev pub sys_write : (ℕ → ℕ) → ℕ → ℕ → ℕ → Answer
sys_write user fd buf len =
    if fd == 1
    then record { value = some len; printed = read_user len user buf; stored = none }
    else returns minus_one

-- The end of `sys_wait`, once `task_wait` has returned.
unfoldable pub answer_wait : ℕ → Waited → Answer
answer_wait status_ptr no_child = returns minus_one
answer_wait status_ptr waits = suspended
answer_wait status_ptr (reaped pid code) =
    if ltb 0 pid && ltb pid (2 ^ 31) && not (status_ptr == 0) && ltb status_ptr 0x8000_0000_0000
    then record { value = some pid; printed = []; stored = some (status_ptr, code) }
    else returns (if ltb pid (2 ^ 31) then pid else pid + (2 ^ 64 - 2 ^ 32))

abbrev pub with_sched : Kernel → Sched → Kernel
with_sched k s = record k { sched = s }

-- `syscall_dispatch`, with the fuel of the scheduler. A call that switches to another task ends there.
unfoldable pub syscall_dispatch : ℕ → (ℕ → ℕ) → ℕ → ℕ → ℕ → ℕ → Kernel → Run (Answer × Kernel)
syscall_dispatch n user num arg1 arg2 arg3 k =
    if num == 0
    then (task_exit n (arg1 % 2 ^ 32) k.sched >>= λ s. ok (suspended, with_sched k s))
    else if num == 1
    then ok (sys_write user arg1 arg2 arg3, k)
    else if num == 2
    then (scheduler_yield n k.sched >>= λ s. ok (returns 0, with_sched k s))
    else if num == 3
    then (task_wait n k >>= λ r. ok (answer_wait arg1 r.0, r.1))
    else if num == 4
    then (task_getpid k.sched >>= λ pid. ok (returns pid, k))
    else if num == 5
    then (task_getppid k.sched >>= λ pid. ok (returns pid, k))
    else ok (returns minus_one, k)
