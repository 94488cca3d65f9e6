-- ===== src/Tasks/Exit.antt =====
-- `task_exit` of src/task.c against the queue.
use cool_os.Prelude.{
  ℕ, ◌≤◌, ◌<◌, ◌≡◌, ◌⊎◌, inl, inr, refl, sym, ap, subst, ◌∙◌, false, List, [], ◌∷◌, arith, ◌==◌,
  Bool-cases, if◌then◌else◌, length,
}
use cool_os.Heap.{ok}
use cool_os.Sched.{
  Task, Tasks, Sched, deref, put, update, ProcState, ready, running, blocked, zombie,
}
use cool_os.Sched.Ring.{Entry, first, Chain, deref-put_self}
use cool_os.Sched.RoundRobin.{Represents, Has, turn}
use cool_os.Tasks.Family.{orphan, orphan_children, wake, leave, task_exit}
use cool_os.Sched.Turn.{scheduler_yield-turn}
use cool_os.Sched.Unlink.{current_not-null}
use cool_os.Tasks.Adjust.{
  adjust, orphans, Outside, Siblings, Siblings-put, assigned, Represents-adjust,
  orphan_children-orphans, Has-adjust, length-adjust,
}

abbrev pub coded : ℕ → Task → Task
coded code t = record t { exit_code = code }

abbrev pub dead : Task → Task
dead t = record t { first_child = 0; state = zombie }

-- What an exit of the first task does to the queue: its children in `l` lose their parent, it is a zombie
-- with the exit code, and its parent wakes up if it waits.
unfoldable pub exit_queue : ℕ → List ℕ → List Entry → List Entry
exit_queue code l [] = []
exit_queue code l (old ∷ es) =
    let q = adjust old.task dead (orphans l (adjust old.task (coded code) (old ∷ es))) in
    if old.body.parent == 0 then q else adjust old.body.parent wake q

Has-orphans : (p : ℕ) (l : List ℕ) (q : List Entry) → Has p q → Has p (orphans l q)
Has-orphans p [] q h = h
Has-orphans p (c ∷ l) q h = Has-orphans p l (adjust c orphan q) (Has-adjust p c orphan q h)

length-orphans : (l : List ℕ) (q : List Entry) → length (orphans l q) ≡ length q
length-orphans [] q = refl
length-orphans (c ∷ l) q = length-orphans l (adjust c orphan q) ∙ length-adjust c orphan q

pub length-exit_queue :
    (code : ℕ) (l : List ℕ) (q : List Entry) → length (exit_queue code l q) ≡ length q
unfolding exit_queue
length-exit_queue code l [] = refl
length-exit_queue code l (old ∷ es) =
    let q = adjust old.task dead (orphans l (adjust old.task (coded code) (old ∷ es))) in
    let same : length q ≡ length (old ∷ es) =
      length-adjust old.task dead (orphans l (adjust old.task (coded code) (old ∷ es)))
      ∙ length-orphans l (adjust old.task (coded code) (old ∷ es))
      ∙ length-adjust old.task (coded code) (old ∷ es) in
    elim (Bool-cases (old.body.parent == 0)) [
      | inl none_there ↦ rw none_there same
      | inr parent ↦ rw parent (length-adjust old.body.parent wake q ∙ same)
    ]

-- A task of the queue can be reached.
deref-Has :
    (ts : Tasks) (q : List Entry) (stop p : ℕ)
    → Chain ts q stop
    → Has p q
    → (t : Task) × (deref ts p ≡ ok t)
deref-Has ts [] stop p h has = absurd has
deref-Has ts (e ∷ q) stop p h (inl same) = (e.body, subst (λ a. deref ts a ≡ ok e.body) same h.0)
deref-Has ts (e ∷ q) stop p h (inr has) = deref-Has ts q stop p h.2 has

wake-next : (t : Task) → (wake t).next ≡ t.next
wake-next t = by_state t.state refl
  where
    by_state : (x : ProcState) → t.state ≡ x → (wake t).next ≡ t.next
    by_state ready e = rw e refl
    by_state running e = rw e refl
    by_state blocked e = rw e refl
    by_state zombie e = rw e refl

leave_steps :
    (n code : ℕ) (s s₂ : Sched) (t : Task)
    → deref s.tasks s.current_task ≡ ok t
    → deref (put s.tasks s.current_task (coded code t)) s.current_task ≡ ok (coded code t)
    → orphan_children n t.first_child (assigned s.current_task (coded code) t s) ≡ ok s₂
    → deref s₂.tasks s.current_task ≡ ok (coded code t)
    → deref (put s₂.tasks s.current_task (dead (coded code t))) s.current_task
      ≡ ok (dead (coded code t))
    → leave n code s ≡ (
        let s₃ = assigned s.current_task dead (coded code t) s₂ in
        if t.parent == 0 then ok s₃ else update t.parent wake s₃)
unfolding leave
leave_steps n code s s₂ t here coded_self orphaned still dead_self =
    rw (here, coded_self, orphaned, still, dead_self) refl

module _ (n code : ℕ) (s : Sched) (old : Entry) (es : List Entry) (l : List ℕ)
    (h : Represents s (old ∷ es)) (kids : Siblings s.tasks old.body.first_child l)
    (own : Outside old.task l) (family : (old.body.parent ≡ 0) ⊎ Has old.body.parent (old ∷ es))
    (enough : length l < n) where
  here : deref s.tasks s.current_task ≡ ok old.body
  here = subst (λ p. deref s.tasks p ≡ ok old.body) h.current h.ring.0

  abbrev s₁ : Sched
  s₁ = assigned s.current_task (coded code) old.body s

  abbrev q₁ : List Entry
  q₁ = adjust s.current_task (coded code) (old ∷ es)

  coding : Represents s₁ q₁
  coding = Represents-adjust s s.current_task (coded code) old.body (old ∷ es) (λ t. refl) here h

  coded_self : deref s₁.tasks s.current_task ≡ ok (coded code old.body)
  coded_self = deref-put_self s.tasks s.current_task (coded code old.body) old.body here

  orphaning :
      (s' : Sched) × (orphan_children n old.body.first_child s₁ ≡ ok s')
      × Represents s' (orphans l q₁)
      × (s'.current_task ≡ s₁.current_task)
      × (s'.idle_task ≡ s₁.idle_task)
      × ((p : ℕ) → Outside p l → deref s'.tasks p ≡ deref s₁.tasks p)
  orphaning =
      orphan_children-orphans n old.body.first_child s₁ l q₁
        (Siblings-put s.tasks s.current_task (coded code) old.body old.body.first_child l
          (λ t. refl) here kids)
        coding enough

  abbrev s₃ : Sched
  s₃ = assigned s.current_task dead (coded code old.body) orphaning.0

  still : deref orphaning.0.tasks s.current_task ≡ ok (coded code old.body)
  still = orphaning.5 s.current_task (subst (λ p. Outside p l) h.current own) ∙ coded_self

  abbrev q₃ : List Entry
  q₃ = adjust s.current_task dead (orphans l q₁)

  dying : Represents s₃ q₃
  dying =
      Represents-adjust orphaning.0 s.current_task dead (coded code old.body) (orphans l q₁)
        (λ t. refl) still orphaning.2

  dead_self : deref s₃.tasks s.current_task ≡ ok (dead (coded code old.body))
  dead_self =
      deref-put_self orphaning.0.tasks s.current_task (dead (coded code old.body))
        (coded code old.body) still

  steps : leave n code s ≡ (if old.body.parent == 0 then ok s₃ else update old.body.parent wake s₃)
  steps = leave_steps n code s orphaning.0 old.body here coded_self orphaning.1 still dead_self

  leaving :
      (s' : Sched) × (leave n code s ≡ ok s')
      × Represents s' (if old.body.parent == 0 then q₃ else adjust old.body.parent wake q₃)
      × (s'.idle_task ≡ s.idle_task)
  leaving = elim (Bool-cases (old.body.parent == 0)) [
    | inl none_there ↦ (s₃, steps ∙ rw none_there refl, rw none_there dying, orphaning.4)
    | inr some_parent ↦
        let p =
          deref-Has s₃.tasks q₃ (first q₃ 0) old.body.parent dying.ring
            (in_family some_parent family) in
        (
          assigned old.body.parent wake p.0 s₃,
          steps ∙ rw (some_parent, p.1) refl,
          rw some_parent (Represents-adjust s₃ old.body.parent wake p.0 q₃ wake-next p.1 dying),
          orphaning.4,
        )
  ]
    where
      in_family :
          (old.body.parent == 0) ≡ false
          → (old.body.parent ≡ 0) ⊎ Has old.body.parent (old ∷ es)
          → Has old.body.parent q₃
      in_family some_parent (inl null) = absurd (ground (arith, some_parent, null))
      in_family some_parent (inr has) =
          Has-adjust old.body.parent s.current_task dead (orphans l q₁) (
            Has-orphans old.body.parent l q₁
              (Has-adjust old.body.parent s.current_task (coded code) (old ∷ es) has))

same_queue :
    (s : Sched) (old : Entry) (es : List Entry) (code : ℕ) (l : List ℕ)
    → Represents s (old ∷ es)
    → (let q₃ =
          adjust s.current_task dead (orphans l (adjust s.current_task (coded code) (old ∷ es))) in
        if old.body.parent == 0 then q₃ else adjust old.body.parent wake q₃)
      ≡ exit_queue code l (old ∷ es)
unfolding exit_queue
same_queue s old es code l h =
    ap
      (λ c.
        let q = adjust c dead (orphans l (adjust c (coded code) (old ∷ es))) in
        if old.body.parent == 0 then q else adjust old.body.parent wake q)
      (sym h.current)

-- `task_exit` ends with the next task in place: the queue is that after the exit, turned. There is fuel
-- for each task and each child; `l` is the list of the current task's children, which it is not one of
-- itself, and its parent, if it has one, is in the queue.
pub task_exit-turn :
    (n code : ℕ) (s : Sched) (old : Entry) (es : List Entry) (l : List ℕ)
    → Represents s (old ∷ es)
    → Siblings s.tasks old.body.first_child l
    → Outside old.task l
    → (old.body.parent ≡ 0) ⊎ Has old.body.parent (old ∷ es)
    → length l < n
    → length (old ∷ es) ≤ n
    → (s' : Sched) × (task_exit n code s ≡ ok s')
      × Represents s' (turn s.idle_task (exit_queue code l (old ∷ es)))
unfolding task_exit
task_exit-turn n code s old es l h kids own family enough fuel =
    let left = leaving n code s old es l h kids own family enough in
    let queue : Represents left.0 (exit_queue code l (old ∷ es)) =
      subst (Represents left.0) (same_queue s old es code l h) left.2 in
    let y =
      scheduler_yield-turn n left.0 (exit_queue code l (old ∷ es)) queue
        (omega (arith, fuel, length-exit_queue code l (old ∷ es))) in
    (
      y.0,
      rw (current_not-null s (old ∷ es) h, left.1) y.1,
      subst (λ i. Represents y.0 (turn i (exit_queue code l (old ∷ es)))) left.3 y.2,
    )
