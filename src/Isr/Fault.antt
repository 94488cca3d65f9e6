-- ===== src/Isr/Fault.antt =====
-- A fault of a user program in src/isr.c against the queue of tasks.
use cool_os.Prelude.{ℕ, ◌%◌, ◌≤◌, ◌≡◌, refl, sym, subst, List, ◌∷◌, arith, length}
use cool_os.Heap.{ok}
use cool_os.Sched.{Sched, deref}
use cool_os.Sched.Ring.{Entry}
use cool_os.Sched.RoundRobin.{Represents, turn}
use cool_os.Sched.Turn.{scheduler_yield-turn}
use cool_os.Sched.Unlink.{current_not-null}
use cool_os.Tasks.Adjust.{adjust, assigned, Represents-adjust, length-adjust}
use cool_os.Isr.{switched, finished, kill_task, isr_handler}

-- A fault in user mode makes the task that ran a zombie and turns the queue.
pub isr_handler-turn :
    (n cs : ℕ) (s : Sched) (old : Entry) (es : List Entry)
    → cs % 4 ≡ 3
    → Represents s (old ∷ es)
    → length (old ∷ es) ≤ n
    → (s' : Sched) × (isr_handler n cs s ≡ ok (switched s'))
      × Represents s' (turn s.idle_task (adjust old.task finished (old ∷ es)))
      × (s'.idle_task ≡ s.idle_task)
unfolding isr_handler kill_task
isr_handler-turn n cs s old es user h fuel =
    let here = subst (λ p. deref s.tasks p ≡ ok old.body) h.current h.ring.0 in
    let s₁ = assigned s.current_task finished old.body s in
    let q₁ = adjust s.current_task finished (old ∷ es) in
    let killed =
      Represents-adjust s s.current_task finished old.body (old ∷ es) (λ t. refl) here h in
    let y =
      scheduler_yield-turn n s₁ q₁ killed
        (omega (arith, fuel, length-adjust s.current_task finished (old ∷ es))) in
    (
      y.0,
      rw (user, current_not-null s (old ∷ es) h, here, y.1) refl,
      subst (λ c. Represents y.0 (turn s.idle_task (adjust c finished (old ∷ es)))) (sym h.current)
          y.2,
      y.3,
    )
