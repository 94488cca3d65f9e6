-- ===== src/Tasks/Detach.antt =====
-- The first half of `task_reap` of src/task.c: a task leaves the list of its parent's children and the
-- queue.
use cool_os.Prelude.{
  ℕ, ◌≤◌, ◌≡◌, ◌≢◌, inl, inr, refl, sym, subst, ◌∙◌, false, none, List, [], ◌∷◌, ◌++◌, arith, ◌==◌,
  Bool-cases, if◌then◌else◌, length,
}
use cool_os.Heap.{ok}
use cool_os.Sched.{Task, Tasks, Sched, deref, remove_from_scheduler}
use cool_os.Sched.Ring.{Entry, first, Chain, Fresh, Chain-split}
use cool_os.Sched.RoundRobin.{Represents}
use cool_os.Sched.Queue.{linked}
use cool_os.Sched.Unlink.{past, remove_from_scheduler-past, Represents-past, Fresh-past}
use cool_os.Tasks.Family.{remove_from_children_list}
use cool_os.Tasks.Adjust.{adjusted, deref-adjusted, Siblings, Siblings-put, Outside}
use cool_os.Tasks.Siblings.{Unlike}
use cool_os.Tasks.Children.{remove_from_children_list-Without}
use cool_os.Tasks.Keep.{
  SameTasks, SameTasks-trans, SameTasks-linked, SameTasks-length, parted,
  remove_from_children_list-Kept,
}

pub record Detached (n p parent : ℕ) (s : Sched) (q : List Entry) (l : List ℕ) : Type 0 where
  pub unlisted : Sched
  pub state : Sched
  pub listed : remove_from_children_list n p parent s ≡ ok unlisted
  pub queued : remove_from_scheduler n p unlisted ≡ ok state
  pub queue : List Entry
  pub represents : Represents state queue
  pub same : SameTasks q queue
  pub fresh : Fresh p queue
  pub body : Task
  pub there : deref state.tasks parent ≡ ok body
  pub kids : Siblings state.tasks body.first_child l

-- An assignment to the link of the queue keeps the first child.
adjusted-first_child :
    (p i : ℕ) (e : Entry)
    → (adjusted p (λ t. record t { next = i }) e).body.first_child ≡ e.body.first_child
adjusted-first_child p i e = elim (Bool-cases (e.task == p)) [
  | inl at ↦ rw at refl
  | inr other ↦ rw other refl
]

pub detach :
    (n : ℕ) (s : Sched) (c : List Entry) (x e : Entry) (b : List Entry) (parent : ℕ) (tp : Task)
    (a d : List ℕ)
    → Represents s (c ++ x ∷ e ∷ b)
    → e.task ≢ s.idle_task
    → deref s.tasks parent ≡ ok tp
    → Siblings s.tasks tp.first_child (a ++ e.task ∷ d)
    → Unlike (parent ∷ a ++ e.task ∷ d)
    → length (c ++ x ∷ e ∷ b) ≤ n
    → length a ≤ n
    → Detached n e.task parent s (c ++ x ∷ b) (a ++ d)
detach n s c x e b parent tp a d h busy there kids apart enough few =
    let q = c ++ x ∷ e ∷ b in
    let here = (Chain-split s.tasks c (x ∷ e ∷ b) (first q 0) h.ring).1.2.0 in
    let out =
      remove_from_children_list-Without n e.task parent s tp e.body a d there here kids apart few in
    let s₁ = out.0 in
    let w = out.2 in
    let k = remove_from_children_list-Kept n e.task parent s s₁ q h out.1 in
    let r = parted c x e b k.queue k.same in
    let h₁ = subst (Represents s₁) r.whole k.represents in
    let fits =
      subst (λ l. length l ≤ n) r.whole
        (omega (arith, enough, SameTasks-length q k.queue k.same)) in
    let u = remove_from_scheduler-past n s₁ r.front r.prev r.here r.behind h₁ fits in
    let s₂ = past s₁ r.prev r.here in
    let i = r.here.body.next in
    let f : Task → Task = λ t. record t { next = i } in
    let mother : Entry = record { task = parent; body = w.body } in
    record {
      unlisted = s₁;
      state = s₂;
      listed = out.1;
      queued = subst (λ p. remove_from_scheduler n p s₁ ≡ ok s₂) (sym r.same) u.0;
      queue = r.front ++ linked i r.prev ∷ r.behind;
      represents =
          Represents-past s₁ r.front r.prev r.here r.behind h₁
            (λ same. busy (r.same ∙ same ∙ k.idle));
      same =
          SameTasks-trans (c ++ x ∷ b) (r.front ++ r.prev ∷ r.behind)
            (r.front ++ linked i r.prev ∷ r.behind) r.others
            (SameTasks-linked r.front r.prev i r.behind);
      fresh =
          subst (λ p. Fresh p (r.front ++ linked i r.prev ∷ r.behind)) (sym r.same)
            (Fresh-past r.front r.prev r.here r.behind h₁.distinct);
      body = (adjusted r.prev.task f mother).body;
      there = deref-adjusted s₁.tasks r.prev.task f r.prev.body mother u.1 w.there;
      kids =
          subst (λ y. Siblings s₂.tasks y (a ++ d))
            (sym (adjusted-first_child r.prev.task i mother))
            (Siblings-put s₁.tasks r.prev.task f r.prev.body w.body.first_child (a ++ d) (λ t. refl)
              u.1 w.kids);
    }

-- A task whose structure is released, which is not one of the others.
abbrev pub hidden : ℕ → Tasks → Tasks
hidden p ts = λ q. if q == p then none else ts q

pub deref-hidden : (ts : Tasks) (p q : ℕ) → q ≢ p → deref (hidden p ts) q ≡ deref ts q
unfolding deref
deref-hidden ts p q apart = let other : (q == p) ≡ false = ground (arith, apart) in rw other refl

Chain-hidden :
    (ts : Tasks) (p : ℕ) (q : List Entry) (stop : ℕ)
    → Fresh p q
    → Chain ts q stop
    → Chain (hidden p ts) q stop
Chain-hidden ts p [] stop fresh h = tt
Chain-hidden ts p (e ∷ q) stop fresh h = (
  deref-hidden ts p e.task (λ same. fresh.0 (sym same)) ∙ h.0,
  h.1,
  Chain-hidden ts p q stop fresh.1 h.2,
)

pub Represents-hidden :
    (s : Sched) (p : ℕ) (q : List Entry)
    → Fresh p q
    → Represents s q
    → Represents (record s { tasks = hidden p s.tasks }) q
Represents-hidden s p q fresh h = record {
  current = h.current;
  ring = Chain-hidden s.tasks p q (first q 0) fresh h.ring;
  distinct = h.distinct;
  idle = h.idle;
}

pub Siblings-hidden :
    (ts : Tasks) (p x : ℕ) (l : List ℕ) → Outside p l → Siblings ts x l → Siblings (hidden p ts) x l
Siblings-hidden ts p x [] out h = h
Siblings-hidden ts p x (c ∷ l) out h = (
  h.0,
  (h.1.0, deref-hidden ts p c out.0 ∙ h.1.1, Siblings-hidden ts p h.1.0.next_sibling l out.1 h.1.2),
)
