-- ===== src/Syscall/Stores.antt =====
-- Where the system calls of src/syscall.c store into a program's memory.
use cool_os.Prelude.{
  ℕ, ◌%◌, ◌^◌, ◌<◌, ◌≡◌, refl, subst, Bool, true, false, not, ◌&&◌, none, some, inl, inr, ltb, ◌==◌,
  if◌then◌else◌, Bool-cases, arith,
}
use cool_os.Heap.{Run, ok, ◌>>=◌}
use cool_os.Heap.Outcome.{bind-ok, ok-injective}
use cool_os.Sched.{scheduler_yield}
use cool_os.Tasks.{Kernel, task_getpid, task_getppid}
use cool_os.Tasks.Family.{Waited, no_child, reaped, waits, task_wait, task_exit}
use cool_os.Syscall.{
  Answer, returns, suspended, minus_one, sys_write, answer_wait, with_sched, syscall_dispatch,
}

-- What is stored, if anything is, is an exit code in the lower half of the addresses, and the call returns
-- the child's identifier with it.
pub data IsWait (k : Kernel) (n : ℕ) (status_ptr : ℕ) (a : Answer) : Type 0 where
  silent : a.stored ≡ none → IsWait k n status_ptr a
  stores :
      (pid code : ℕ) (k' : Kernel)
      → task_wait n k ≡ ok (reaped pid code, k')
      → a.stored ≡ some (status_ptr, code)
      → a.value ≡ some pid
      → 0 < status_ptr
      → status_ptr < 0x8000_0000_0000
      → IsWait k n status_ptr a

wait-IsWait :
    (k : Kernel) (n p : ℕ) (w : Waited) (k' : Kernel)
    → task_wait n k ≡ ok (w, k')
    → IsWait k n p (answer_wait p w)
unfolding answer_wait
wait-IsWait k n p no_child k' h = silent refl
wait-IsWait k n p waits k' h = silent refl
wait-IsWait k n p (reaped pid code) k' h =
    elim (Bool-cases (ltb 0 pid && ltb pid (2 ^ 31) && not (p == 0) && ltb p 0x8000_0000_0000)) [
      | inl yes_stored ↦
          stores pid code k' h (rw yes_stored refl) (rw yes_stored refl)
            (ground (arith, yes_stored)) (ground (arith, yes_stored))
      | inr not_stored ↦ silent (rw not_stored refl)
    ]

by_branch :
    {A P : Type 0} (b : Bool) (x y r : Run A)
    → (x ≡ r → P)
    → (y ≡ r → P)
    → (if b then x else y) ≡ r
    → P
by_branch true x y r f g h = f h
by_branch false x y r f g h = g h

module _ (n p : ℕ) (k : Kernel) (r : Answer × Kernel) where
  quiet : (x : Answer × Kernel) → x.0.stored ≡ none → ok x ≡ ok r → IsWait k n p r.0
  quiet x none_there h = subst (λ y. IsWait k n p y.0) (ok-injective x r h) (silent none_there)

  after :
      {A : Type 0} (x : Run A) (f : A → Answer × Kernel)
      → ((v : A) → (f v).0.stored ≡ none)
      → (x >>= λ v. ok (f v)) ≡ ok r
      → IsWait k n p r.0
  after x f none_there h =
      let run = bind-ok x (λ v. ok (f v)) r h in quiet (f run.0) (none_there run.0) run.2

  waiting : (task_wait n k >>= λ w. ok (answer_wait p w.0, w.1)) ≡ ok r → IsWait k n p r.0
  waiting h =
      let run = bind-ok (task_wait n k) _ r h in
      subst (λ x. IsWait k n p x.0) (ok-injective (answer_wait p run.0.0, run.0.1) r run.2)
        (wait-IsWait k n p run.0.0 run.0.1 run.1)

sys_write-silent : (user : ℕ → ℕ) (fd buf len : ℕ) → (sys_write user fd buf len).stored ≡ none
sys_write-silent user fd buf len = elim (Bool-cases (fd == 1)) [
  | inl out ↦ rw out refl
  | inr other ↦ rw other refl
]

-- A system call that returns stores nothing in the caller's memory, or it is a wait that reaped a child, and stores
-- the child's exit code at the address that it was given, which lies in the lower half and is not NULL.
pub syscall_dispatch-IsWait :
    (n : ℕ) (user : ℕ → ℕ) (num arg1 arg2 arg3 : ℕ) (k : Kernel) (r : Answer × Kernel)
    → syscall_dispatch n user num arg1 arg2 arg3 k ≡ ok r
    → IsWait k n arg1 r.0
unfolding syscall_dispatch
syscall_dispatch-IsWait n user num arg1 arg2 arg3 k r h =
    by_branch (num == 0) _ _ (ok r)
      (after n arg1 k r (task_exit n (arg1 % 2 ^ 32) k.sched) (λ s. (suspended, with_sched k s))
        (λ s. refl))
      (by_branch (num == 1) _ _ (ok r)
        (quiet n arg1 k r (sys_write user arg1 arg2 arg3, k) (sys_write-silent user arg1 arg2 arg3))
        (by_branch (num == 2) _ _ (ok r)
          (after n arg1 k r (scheduler_yield n k.sched) (λ s. (returns 0, with_sched k s))
            (λ s. refl))
          (by_branch (num == 3) _ _ (ok r) (waiting n arg1 k r) (
            by_branch (num == 4) _ _ (ok r)
              (after n arg1 k r (task_getpid k.sched) (λ pid. (returns pid, k)) (λ pid. refl))
              (by_branch (num == 5) _ _ (ok r)
                (after n arg1 k r (task_getppid k.sched) (λ pid. (returns pid, k)) (λ pid. refl))
                (quiet n arg1 k r (returns minus_one, k) refl))))))
      h
