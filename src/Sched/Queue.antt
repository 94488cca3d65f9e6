-- ===== src/Sched/Queue.antt =====
-- The other operations on the queue: `scheduler_add` of src/scheduler.c, and `task_find_by_pid` of
-- src/task.c.
use cool_os.Prelude.{
  ℕ, zero, suc, ◌≤◌, ◌<◌, ◌≡◌, ◌≢◌, inl, inr, refl, sym, subst, ◌∙◌, true, false, List, [], ◌∷◌,
  arith, ◌==◌, Bool-cases, if◌then◌else◌, length,
}
use cool_os.Heap.{ok}
use cool_os.Sched.{Task, Sched, deref, put, scheduler_add, find_from, task_find_by_pid}
use cool_os.Sched.Ring.{
  Entry, Chain, Fresh, deref-ok, deref-put_self, deref-put_ne, Chain-put_other,
}
use cool_os.Sched.RoundRobin.{Represents}

abbrev pub linked : ℕ → Entry → Entry
linked p e = record { task = e.task; body = record e.body { next = p } }

add_steps :
    (s : Sched) (p : ℕ) (c t : Task)
    → deref s.tasks s.current_task ≡ ok c
    → deref s.tasks p ≡ ok t
    → s.current_task ≢ p
    → scheduler_add p s
      ≡ ok (record s {
        tasks =
            put (put s.tasks p (record t { next = c.next })) s.current_task (record c { next = p });
      })
unfolding scheduler_add
add_steps s p c t here there new =
    let still =
      deref-put_ne s.tasks p (record t { next = c.next }) s.current_task (λ same. new (sym same))
      ∙ here in
    rw (here, there, still) refl

-- `scheduler_add` puts a task that can be reached and is not in the queue behind the current one.
pub scheduler_add-Represents :
    (s : Sched) (old : Entry) (es : List Entry) (p : ℕ) (t : Task)
    → Represents s (old ∷ es)
    → deref s.tasks p ≡ ok t
    → Fresh p (old ∷ es)
    → (s' : Sched) × (scheduler_add p s ≡ ok s')
      × Represents s'
          (linked p old ∷ record { task = p; body = record t { next = old.body.next } } ∷ es)
scheduler_add-Represents s old es p t h there new =
    let here = subst (λ c. deref s.tasks c ≡ ok old.body) h.current h.ring.0 in
    let apart : s.current_task ≢ p = subst (λ c. c ≢ p) h.current (λ same. new.0 (sym same)) in
    let t' = record t { next = old.body.next } in
    let ts₁ = put s.tasks p t' in
    let c' = (linked p old).body in
    let still = deref-put_ne s.tasks p t' s.current_task (λ same. apart (sym same)) ∙ here in
    let second = deref-put_ne ts₁ s.current_task c' p apart ∙ deref-put_self s.tasks p t' t there in
    (
      record s { tasks = put ts₁ s.current_task c' },
      add_steps s p old.body t here there apart,
      record {
        current = h.current;
        ring = (
          subst (λ c. deref (put ts₁ s.current_task c') c ≡ ok c') (sym h.current)
              (deref-put_self ts₁ s.current_task c' old.body still),
          refl,
          (
            second,
            h.ring.1,
            Chain-put_other ts₁ s.current_task c' es old.task
                (subst (λ c. Fresh c es) h.current h.distinct.0)
                (Chain-put_other s.tasks p t' es old.task new.1 h.ring.2),
          ),
        );
        distinct = (((λ same. new.0 (sym same)), h.distinct.0), (new.1, h.distinct.1));
        idle = elim h.idle [ inl same ↦ inl same | inr among ↦ inr (inr among) ];
      },
    )

-- The address of the first task with an identifier, or 0.
abbrev pub find_pid : ℕ → List Entry → ℕ
find_pid pid [] = 0
find_pid pid (e ∷ q) = if e.body.pid == pid then e.task else find_pid pid q

module _ (s : Sched) (pid : ℕ) where
  find_from-find_pid :
      (n : ℕ) (e : Entry) (q : List Entry)
      → Chain s.tasks (e ∷ q) s.current_task
      → Fresh s.current_task q
      → length (e ∷ q) ≤ n
      → find_from n s pid e.task ≡ ok (find_pid pid (e ∷ q))
  unfolding find_from
  find_from-find_pid zero e q h new enough = absurd (omega (arith, enough))
  find_from-find_pid (suc n) e [] h new enough =
      let closed : (s.current_task == s.current_task) ≡ true = ground arith in
      elim (Bool-cases (e.body.pid == pid)) [
        | inl this ↦ rw (h.0, this) refl
        | inr other ↦ rw (h.0, other, h.1, closed) refl
      ]
  find_from-find_pid (suc n) e (x ∷ q) h new enough =
      let further : (x.task == s.current_task) ≡ false = ground (arith, new.0) in
      elim (Bool-cases (e.body.pid == pid)) [
        | inl this ↦ rw (h.0, this) refl
        | inr other ↦
            rw (h.0, other, h.1, further)
              (find_from-find_pid n x q h.2 new.1 (omega (arith, enough)))
      ]

  -- `task_find_by_pid`, with fuel for each task of the queue and an identifier other than 0, returns the
  -- first task of the queue that has it.
  task_find_by_pid-find_pid :
      (n : ℕ) (q : List Entry)
      → Represents s q
      → length q ≤ n
      → 0 < pid
      → task_find_by_pid n pid s ≡ ok (find_pid pid q)
  task_find_by_pid-find_pid n [] h enough real = absurd h.idle
  task_find_by_pid-find_pid n (e ∷ q) h enough real =
      let null =
        subst (λ c. (c == 0) ≡ false) h.current (deref-ok s.tasks e.task e.body h.ring.0).0 in
      let some_pid : (pid == 0) ≡ false = ground (arith, real) in
      let fresh = subst (λ c. Fresh c q) h.current h.distinct.0 in
      let found =
        find_from-find_pid n e q (subst (Chain s.tasks (e ∷ q)) h.current h.ring) fresh enough in
      rw (null, some_pid)
        (subst (λ c. find_from n s pid c ≡ ok (find_pid pid (e ∷ q))) h.current found)
