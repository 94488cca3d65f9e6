-- ===== src/Tasks/Wait.antt =====
-- `task_wait` of src/task.c: which child is reaped, and how the task blocks.
use cool_os.Prelude.{
  ℕ, zero, suc, ◌≤◌, ◌<◌, ◌≡◌, ◌≢◌, refl, sym, ap, subst, ◌∙◌, true, false, List, [], ◌∷◌, ◌++◌,
  arith, ◌==◌, length, length-append,
}
use cool_os.Heap.{Run, ok, ◌>>=◌}
use cool_os.Sched.{Task, Tasks, Sched, deref, ProcState, ready, running, blocked, zombie}
use cool_os.Sched.Ring.{Entry, deref-ok}
use cool_os.Sched.RoundRobin.{Represents, turn}
use cool_os.Sched.Turn.{scheduler_yield-turn}
use cool_os.Tasks.{Kernel}
use cool_os.Tasks.Family.{no_child, reaped, waits, find_zombie, wait_round, task_wait, task_reap}
use cool_os.Tasks.Adjust.{adjust, length-adjust, assigned, Represents-adjust}

-- A list of children, with their contents.
abbrev pub Kids : Tasks → ℕ → List Entry → Type 0
Kids ts x [] = x ≡ 0
Kids ts x (e ∷ l) = (x ≡ e.task) × (deref ts e.task ≡ ok e.body) × Kids ts e.body.next_sibling l

abbrev pub Living : List Entry → Type 0
Living [] = Unit {0}
Living (e ∷ l) = (e.body.state ≢ zombie) × Living l

-- The first child that has exited, if there is one.
data Exited (l : List Entry) : Type 0 where
  nobody : Living l → Exited l
  somebody :
      (a b : List Entry) (z : Entry) → l ≡ a ++ z ∷ b → Living a → z.body.state ≡ zombie → Exited l

data IsZombie (x : ProcState) : Type 0 where
  dead_now : x ≡ zombie → IsZombie x
  alive : x ≢ zombie → IsZombie x

is_dead : ProcState → ℕ
is_dead x = elim x [ zombie ↦ 1 | _ ↦ 0 ]

state_cases : (x : ProcState) → IsZombie x
unfolding is_dead
state_cases ready = alive (λ same. absurd (omega (arith, ap is_dead same)))
state_cases running = alive (λ same. absurd (omega (arith, ap is_dead same)))
state_cases blocked = alive (λ same. absurd (omega (arith, ap is_dead same)))
state_cases zombie = dead_now refl

first_gone : (l : List Entry) → Exited l
first_gone [] = nobody tt
first_gone (e ∷ l) = elim (state_cases e.body.state) [
  | dead_now there ↦ somebody [] l e refl tt there
  | alive other ↦ elim (first_gone l) [
    | nobody none_there ↦ nobody (other, none_there)
    | somebody a b z whole before there ↦
        somebody (e ∷ a) b z (ap (λ r. e ∷ r) whole) (other, before) there
  ]
]

-- A child that has not exited is passed over.
find_zombie-pass :
    (n : ℕ) (s : Sched) (e : Entry) (r : Run ℕ)
    → deref s.tasks e.task ≡ ok e.body
    → e.body.state ≢ zombie
    → find_zombie n s e.body.next_sibling ≡ r
    → find_zombie (suc n) s e.task ≡ r
unfolding find_zombie
find_zombie-pass n s e r here live rest =
    rw ((deref-ok s.tasks e.task e.body here).0, here) (by_state e.body.state refl)
  where
    by_state :
        (x : ProcState)
        → e.body.state ≡ x
        → (elim x [ zombie ↦ ok e.task | _ ↦ find_zombie n s e.body.next_sibling ]) ≡ r
    by_state ready is = rest
    by_state running is = rest
    by_state blocked is = rest
    by_state zombie is = absurd (live is)

find_zombie-nobody :
    (n : ℕ) (s : Sched) (x : ℕ) (l : List Entry)
    → Kids s.tasks x l
    → Living l
    → length l < n
    → find_zombie n s x ≡ ok 0
unfolding find_zombie
find_zombie-nobody zero s x l kids live enough = absurd (omega (arith, enough))
find_zombie-nobody (suc n) s x [] kids live enough = rw kids refl
find_zombie-nobody (suc n) s x (e ∷ l) kids live enough =
    ap (find_zombie (suc n) s) kids.0
    ∙ find_zombie-pass n s e (ok 0) kids.1 live.0
        (find_zombie-nobody n s e.body.next_sibling l kids.2 live.1 (omega (arith, enough)))

pub find_zombie-somebody :
    (n : ℕ) (s : Sched) (x : ℕ) (a : List Entry) (z : Entry) (b : List Entry)
    → Kids s.tasks x (a ++ z ∷ b)
    → Living a
    → z.body.state ≡ zombie
    → length a < n
    → (find_zombie n s x ≡ ok z.task) × (deref s.tasks z.task ≡ ok z.body)
unfolding find_zombie
find_zombie-somebody zero s x a z b kids live there enough = absurd (omega (arith, enough))
find_zombie-somebody (suc n) s x [] z b kids live there enough = (
  ap (find_zombie (suc n) s) kids.0
      ∙ rw ((deref-ok s.tasks z.task z.body kids.1).0, kids.1, there) refl,
  kids.1,
)
find_zombie-somebody (suc n) s x (e ∷ a) z b kids live there enough =
    let rest =
      find_zombie-somebody n s e.body.next_sibling a z b kids.2 live.1 there
        (omega (arith, enough)) in
    (
      ap (find_zombie (suc n) s) kids.0 ∙ find_zombie-pass n s e (ok z.task) kids.1 live.0 rest.0,
      rest.1,
    )

abbrev pub waiting : Task → Task
waiting t = record t { state = blocked }

-- What `task_wait` comes to: there is no child, or the first one that has exited is reaped with its
-- identifier and its exit code, or the task blocks and the queue turns.
pub data Outcome (n : ℕ) (k : Kernel) (old : Entry) (es l : List Entry) : Type 0 where
  childless : l ≡ [] → task_wait n k ≡ ok (no_child, k) → Outcome n k old es l
  reaps :
      (a b : List Entry) (z : Entry)
      → l ≡ a ++ z ∷ b
      → Living a
      → z.body.state ≡ zombie
      → task_wait n k ≡ (task_reap n z.task k >>= λ k'. ok (reaped z.body.pid z.body.exit_code, k'))
      → Outcome n k old es l
  blocks :
      (s' : Sched)
      → Living l
      → task_wait n k ≡ ok (waits, record k { sched = s' })
      → Represents s' (turn k.sched.idle_task (adjust old.task waiting (old ∷ es)))
      → Outcome n k old es l

module _ (n : ℕ) (k : Kernel) (t : Task)
    (here : deref k.sched.tasks k.sched.current_task ≡ ok t) where
  present : (k.sched.current_task == 0) ≡ false
  present = (deref-ok k.sched.tasks k.sched.current_task t here).0

  -- With a child, a wait is a round from `retry` on.
  pub rounds :
      (c : Entry) (l : List Entry)
      → Kids k.sched.tasks t.first_child (c ∷ l)
      → task_wait n k ≡ wait_round n k
  unfolding task_wait
  rounds c l kids =
      let some_child = ap (λ p. p == 0) kids.0 ∙ (deref-ok k.sched.tasks c.task c.body kids.1).0 in
      rw (present, here, some_child) refl

  pub reap_round :
      (z : Entry)
      → find_zombie n k.sched t.first_child ≡ ok z.task
      → deref k.sched.tasks z.task ≡ ok z.body
      → wait_round n k
        ≡ (task_reap n z.task k >>= λ k'. ok (reaped z.body.pid z.body.exit_code, k'))
  unfolding wait_round
  reap_round z found there =
      rw (here, found, (deref-ok k.sched.tasks z.task z.body there).0, there) refl

module _ (n : ℕ) (k : Kernel) (old : Entry) (es : List Entry)
    (h : Represents k.sched (old ∷ es)) where
  here_now : deref k.sched.tasks k.sched.current_task ≡ ok old.body
  here_now = subst (λ p. deref k.sched.tasks p ≡ ok old.body) h.current h.ring.0

  block_round :
      find_zombie n k.sched old.body.first_child ≡ ok 0
      → length (old ∷ es) ≤ n
      → (s' : Sched) × (wait_round n k ≡ ok (waits, record k { sched = s' }))
        × Represents s' (turn k.sched.idle_task (adjust old.task waiting (old ∷ es)))
  unfolding wait_round
  block_round none_there enough =
      let s = k.sched in
      let q = adjust old.task waiting (old ∷ es) in
      let blocked_now : Represents (assigned s.current_task waiting old.body s) q =
        subst
          (λ p.
            Represents (assigned s.current_task waiting old.body s) (adjust p waiting (old ∷ es)))
          (sym h.current)
          (Represents-adjust s s.current_task waiting old.body (old ∷ es) (λ t. refl) here_now h) in
      let y =
        scheduler_yield-turn n (assigned s.current_task waiting old.body s) q blocked_now
          (omega (arith, enough, length-adjust old.task waiting (old ∷ es))) in
      (y.0, rw (here_now, none_there, y.1) refl, y.2)

-- `task_wait` of the current task, whose children are in `l`: without a child it returns at once, with
-- one that has exited it reaps the first such child and answers with its identifier and exit code, and
-- else it blocks the task, and the queue turns. There is fuel for each task and each child.
pub task_wait-Outcome :
    (n : ℕ) (k : Kernel) (old : Entry) (es l : List Entry)
    → Represents k.sched (old ∷ es)
    → Kids k.sched.tasks old.body.first_child l
    → length l < n
    → length (old ∷ es) ≤ n
    → Outcome n k old es l
unfolding task_wait
task_wait-Outcome n k old es [] h kids enough fuel =
    let no_children : (old.body.first_child == 0) ≡ true = ground (arith, kids) in
    let here = here_now n k old es h in
    childless refl (rw (present n k old.body here, here, no_children) refl)
task_wait-Outcome n k old es (c ∷ l) h kids enough fuel =
    let s = k.sched in
    let x = old.body.first_child in
    let here = here_now n k old es h in
    let round = rounds n k old.body here c l kids in
    elim (first_gone (c ∷ l)) [
      | nobody live ↦
          let r =
            block_round n k old es h (find_zombie-nobody n s x (c ∷ l) kids live enough) fuel in
          blocks r.0 live (round ∙ r.1) r.2
      | somebody a b z whole before there ↦
          let found =
            find_zombie-somebody n s x a z b (subst (Kids s.tasks x) whole kids) before there
              (before_fits a z b (subst (λ q. length q < n) whole enough)) in
          reaps a b z whole before there (round ∙ reap_round n k old.body here z found.0 found.1)
    ]
  where
    before_fits :
        {n : ℕ} (a : List Entry) (z : Entry) (b : List Entry)
        → length (a ++ z ∷ b) < n
        → length a < n
    before_fits a z b h = omega (arith, h, length-append a (z ∷ b))
