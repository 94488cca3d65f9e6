-- ===== src/Tasks/Wakes.antt =====
-- `task_exit` of src/task.c with the timer interrupts of src/timer.c that follow: the parent that waits
-- in `task_wait` gets to run.
use cool_os.Prelude.{
  ℕ, ◌*◌, ◌≤◌, ◌<◌, ◌≡◌, ◌≢◌, inl, inr, refl, sym, ap, subst, ◌∙◌, true, false, List, [], ◌∷◌, ◌++◌,
  arith, ◌==◌, Bool-cases, length,
}
use cool_os.Heap.{ok}
use cool_os.Sched.{Task, Sched, tick_slice, ProcState, ready, blocked}
use cool_os.Sched.Ring.{Entry, deref-ok, Fresh-split, Chain-split}
use cool_os.Sched.RoundRobin.{Represents, Has, turn}
use cool_os.Sched.Fair.{Reaches, after_turn, runs_within}
use cool_os.Tasks.Family.{orphan, wake, task_exit}
use cool_os.Tasks.Adjust.{
  adjusted, adjust, adjusted-task, length-adjust, orphans, Outside, Siblings,
}
use cool_os.Tasks.Exit.{coded, dead, exit_queue, length-exit_queue, task_exit-turn}

-- A task in the queue behind the current one: its address, its state, and how many stand between.
record Place (q : List Entry) (p : ℕ) (x : ProcState) (k : ℕ) : Type 0 where
  front : Entry
  before : List Entry
  here : Entry
  behind : List Entry
  whole : q ≡ front ∷ before ++ here ∷ behind
  task : here.task ≡ p
  state : here.body.state ≡ x
  distance : length before ≡ k

adjust-append :
    (p : ℕ) (f : Task → Task) (a b : List Entry)
    → adjust p f (a ++ b) ≡ adjust p f a ++ adjust p f b
adjust-append p f [] b = refl
adjust-append p f (e ∷ a) b = ap (λ l. adjusted p f e ∷ l) (adjust-append p f a b)

-- An assignment keeps the places; the state is what it makes of the task.
Place-adjust :
    (q : List Entry) (p : ℕ) (x y : ProcState) (k c : ℕ) (f : Task → Task)
    → ((e : Entry) → e.task ≡ p → e.body.state ≡ x → (adjusted c f e).body.state ≡ y)
    → Place q p x k
    → Place (adjust c f q) p y k
Place-adjust q p x y k c f becomes w = record {
  front = adjusted c f w.front;
  before = adjust c f w.before;
  here = adjusted c f w.here;
  behind = adjust c f w.behind;
  whole =
      ap (adjust c f) w.whole
      ∙ ap (λ l. adjusted c f w.front ∷ l) (adjust-append c f w.before (w.here ∷ w.behind));
  task = adjusted-task c f w.here ∙ w.task;
  state = becomes w.here w.task w.state;
  distance = length-adjust c f w.before ∙ w.distance;
}

-- An assignment to another field, or to another task.
adjusted-same :
    (c : ℕ) (f : Task → Task)
    → ((t : Task) → (f t).state ≡ t.state)
    → (e : Entry) → (adjusted c f e).body.state ≡ e.body.state
adjusted-same c f keeps e = elim (Bool-cases (e.task == c)) [
  | inl at ↦ rw at (keeps e.body)
  | inr other ↦ rw other refl
]

adjusted-other : (c p : ℕ) (f : Task → Task) (e : Entry) → e.task ≡ p → c ≢ p → adjusted c f e ≡ e
adjusted-other c p f e at apart =
    let other : (e.task == c) ≡ false = ground (arith, at, apart) in rw other refl

adjusted-woken :
    (p : ℕ) (e : Entry)
    → e.task ≡ p
    → e.body.state ≡ blocked
    → (adjusted p wake e).body.state ≡ ready
adjusted-woken p e at waits =
    let there : (e.task == p) ≡ true = ground (arith, at) in rw (there, waits) refl

Place-orphans :
    (l : List ℕ) (q : List Entry) (p : ℕ) (x : ProcState) (k : ℕ)
    → Place q p x k
    → Place (orphans l q) p x k
Place-orphans [] q p x k w = w
Place-orphans (c ∷ l) q p x k w =
    Place-orphans l (adjust c orphan q) p x k
      (Place-adjust q p x x k c orphan (λ e at is. adjusted-same c orphan (λ t. refl) e ∙ is) w)

-- A blocked parent stands in the queue after the exit as it did before, and is ready.
Place-exit_queue :
    (code : ℕ) (l : List ℕ) (old e : Entry) (a b : List Entry)
    → old.task ≢ e.task
    → (e.task == 0) ≡ false
    → old.body.parent ≡ e.task
    → e.body.state ≡ blocked
    → Place (exit_queue code l (old ∷ a ++ e ∷ b)) e.task ready (length a)
unfolding exit_queue
Place-exit_queue code l old e a b apart some_task parent waits =
    let w₀ : Place (old ∷ a ++ e ∷ b) e.task blocked (length a) = record {
      front = old;
      before = a;
      here = e;
      behind = b;
      whole = refl;
      task = refl;
      state = waits;
      distance = refl;
    } in
    let w₁ =
      Place-adjust (old ∷ a ++ e ∷ b) e.task blocked blocked (length a) old.task (coded code)
        (λ x at is. adjusted-same old.task (coded code) (λ t. refl) x ∙ is) w₀ in
    let q₁ = adjust old.task (coded code) (old ∷ a ++ e ∷ b) in
    let w₂ = Place-orphans l q₁ e.task blocked (length a) w₁ in
    let q₃ = adjust old.task dead (orphans l q₁) in
    let w₃ =
      Place-adjust (orphans l q₁) e.task blocked blocked (length a) old.task dead
        (λ x at is. ap (λ y. y.body.state) (adjusted-other old.task e.task dead x at apart) ∙ is)
        w₂ in
    let w₄ =
      Place-adjust q₃ e.task blocked ready (length a) e.task wake
        (λ x at is. adjusted-woken e.task x at is) w₃ in
    let has_parent : (old.body.parent == 0) ≡ false = ap (λ p. p == 0) parent ∙ some_task in
    rw has_parent (subst (λ p. Place (adjust p wake q₃) e.task ready (length a)) (sym parent) w₄)

Has-middle : (a : List Entry) (e : Entry) (b : List Entry) → Has e.task (a ++ e ∷ b)
Has-middle [] e b = inl refl
Has-middle (x ∷ a) e b = inr (Has-middle a e b)

-- What the queue says of a task behind the current one.
apart_from :
    (s : Sched) (old : Entry) (a : List Entry) (e : Entry) (b : List Entry)
    → Represents s (old ∷ a ++ e ∷ b)
    → (old.task ≢ e.task) × ((e.task == 0) ≡ false)
apart_from s old a e b h = (
  (Fresh-split old.task a (e ∷ b) h.distinct.0).1.0,
  (deref-ok s.tasks e.task e.body (Chain-split s.tasks (old ∷ a) (e ∷ b) old.task h.ring).1.0).0,
)

-- From the turn of the queue on.
runs_from_turn :
    (n k : ℕ) (s : Sched) (q : List Entry) (p idle : ℕ)
    → Place q p ready k
    → length q ≤ n
    → Represents s (turn idle q)
    → Reaches n s p (tick_slice * k)
runs_from_turn n k s q p idle w enough h =
    let m = tick_slice * k in
    subst (λ x. Reaches n s x m) w.task
      (after_turn m n s w.front w.before w.here w.behind (runs_within m n w.here.task) w.state
        (subst (λ x. length x ≤ n) w.whole enough) (omega (arith, w.distance)) idle
        (subst (λ x. Represents s (turn idle x)) w.whole h))

-- When a task exits whose parent is blocked, the parent runs within five timer interrupts for each task
-- that stands between the two in the queue: the exit does not lose the wake-up. There is fuel for each
-- task and each child, the children are in `l`, and nothing but the interrupts happens.
pub task_exit-Reaches :
    (n code : ℕ) (s : Sched) (old : Entry) (a : List Entry) (e : Entry) (b : List Entry)
    (l : List ℕ)
    → Represents s (old ∷ a ++ e ∷ b)
    → Siblings s.tasks old.body.first_child l
    → Outside old.task l
    → old.body.parent ≡ e.task
    → e.body.state ≡ blocked
    → length l < n
    → length (old ∷ a ++ e ∷ b) ≤ n
    → (s' : Sched) × (task_exit n code s ≡ ok s') × Reaches n s' e.task (tick_slice * length a)
task_exit-Reaches n code s old a e b l h kids own parent waits enough fuel =
    let q = old ∷ a ++ e ∷ b in
    let has = subst (λ p. Has p q) (sym parent) (inr (Has-middle a e b)) in
    let exited = task_exit-turn n code s old (a ++ e ∷ b) l h kids own (inr has) enough fuel in
    let known = apart_from s old a e b h in
    (
      exited.0,
      exited.1,
      runs_from_turn n (length a) exited.0 (exit_queue code l q) e.task s.idle_task
          (Place-exit_queue code l old e a b known.0 known.1 parent waits)
          (omega (arith, fuel, length-exit_queue code l q)) exited.2,
    )
