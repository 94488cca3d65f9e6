-- ===== src/Sched/Yield.antt =====
-- `scheduler_yield` of src/scheduler.c as a turn of the queue.
use cool_os.Prelude.{
  ℕ, ◌≤◌, ◌≡◌, ◌⊎◌, inl, inr, refl, sym, ap, subst, ◌∙◌, List, [], ◌∷◌, ◌++◌, arith, ◌==◌,
  if◌then◌else◌, length, length-append,
}
use cool_os.Heap.{Run, ok}
use cool_os.Sched.{Task, Sched, deref, put, demoted, promoted, choose, switch_to, scheduler_yield}
use cool_os.Sched.Ring.{
  Entry, first, first-append, Chain, Chain-swap, Distinct-swap, Chain-put_head,
}
use cool_os.Sched.RoundRobin.{
  demote, promote, turn, Has, Represents, Found, find_next, Chain-at, choose-remaining,
  first-remaining-demote,
}

-- What the queue consists of does not read the registers.
pub Represents-kept :
    (s s' : Sched) (q : List Entry)
    → s'.tasks ≡ s.tasks
    → s'.current_task ≡ s.current_task
    → s'.idle_task ≡ s.idle_task
    → Represents s q
    → Represents s' q
Represents-kept s s' q tasks current idle h = record {
  current = h.current ∙ sym current;
  ring = subst (λ ts. Chain ts q (first q 0)) (sym tasks) h.ring;
  distinct = h.distinct;
  idle = subst (λ p. Has p q) (sym idle) h.idle;
}

pub Has-append : (p : ℕ) (a b : List Entry) → Has p a ⊎ Has p b → Has p (a ++ b)
Has-append p [] b (inl x) = absurd x
Has-append p [] b (inr y) = y
Has-append p (e ∷ a) b (inl (inl x)) = inl x
Has-append p (e ∷ a) b (inl (inr x)) = inr (Has-append p a b (inl x))
Has-append p (e ∷ a) b (inr y) = inr (Has-append p a b (inr y))

pub Has-split : (p : ℕ) (a b : List Entry) → Has p (a ++ b) → Has p a ⊎ Has p b
Has-split p [] b h = inr h
Has-split p (e ∷ a) b (inl x) = inl (inl x)
Has-split p (e ∷ a) b (inr h) = elim (Has-split p a b h) [ inl x ↦ inl (inr x) | inr y ↦ inr y ]

pub Has-swap : (p : ℕ) (a b : List Entry) → Has p (a ++ b) → Has p (b ++ a)
Has-swap p a b h = Has-append p b a (elim (Has-split p a b h) [ inl x ↦ inr x | inr y ↦ inl y ])

-- The queue from another task on.
turned :
    (s : Sched) (a b : List Entry)
    → Represents s (a ++ b)
    → Represents (record s { current_task = first (b ++ a) 0 }) (b ++ a)
turned s a b h = record {
  current = refl;
  ring = Chain-swap s.tasks a b h.ring;
  distinct = Distinct-swap a b h.distinct;
  idle = Has-swap s.idle_task a b h.idle;
}

-- New contents for the current task.
pub renewed :
    (s : Sched) (p : ℕ) (t u : Task) (q : List Entry)
    → t.next ≡ u.next
    → Represents s (record { task = p; body = u } ∷ q)
    → Represents
        (record s { tasks = put s.tasks s.current_task t })
        (record { task = p; body = t } ∷ q)
renewed s p t u q same h = record {
  current = h.current;
  ring =
      subst (λ c. Chain (put s.tasks c t) (record { task = p; body = t } ∷ q) p) h.current
        (Chain-put_head s.tasks p t u q p h.distinct.0 same h.ring);
  distinct = h.distinct;
  idle = h.idle;
}

yield_steps :
    (n : ℕ) (s : Sched) (t u : Task) (next : ℕ)
    → deref s.tasks s.current_task ≡ ok t
    → choose n s t.next ≡ ok next
    → deref (put s.tasks s.current_task (demoted t)) next ≡ ok u
    → scheduler_yield n s ≡ (
        let s' = record s {
          tasks = put (put s.tasks s.current_task (demoted t)) next (promoted u);
          current_task = next;
        } in
        if s.current_task == next then ok s' else switch_to next s')
unfolding scheduler_yield
yield_steps n s t u next here found there = rw (here, found, there) refl

-- The tasks, before the switch, by the tasks that the turn involves.
module _ (s : Sched) (old : Entry) (es : List Entry) (h : Represents s (old ∷ es)) where
  abbrev pub left_state : Sched
  left_state = record s { tasks = put s.tasks s.current_task (demoted old.body) }

  pub chosen_next : Found s.idle_task (es ++ demote old ∷ [])
  chosen_next =
      find_next s.idle_task (es ++ demote old ∷ [])
        (Has-swap s.idle_task (demote old ∷ []) es h.idle)

  abbrev pub entered : Sched
  entered = record left_state {
    tasks = put left_state.tasks chosen_next.next.task (promoted chosen_next.next.body);
    current_task = chosen_next.next.task;
  }

  pub turn-chosen :
      turn s.idle_task (old ∷ es)
      ≡ promote chosen_next.next ∷ chosen_next.behind ++ chosen_next.before
  unfolding turn
  turn-chosen = rw (chosen_next.left, chosen_next.passed) refl

  pub represents_entered :
      Represents entered (promote chosen_next.next ∷ chosen_next.behind ++ chosen_next.before)
  represents_entered =
      let r = chosen_next in
      let left = renewed s old.task (demoted old.body) old.body es refl h in
      let behind = turned left_state (demote old ∷ []) es left in
      let split =
        subst (Represents (record left_state { current_task = first (es ++ demote old ∷ []) 0 }))
          r.whole behind in
      let front =
        turned (record left_state { current_task = first (es ++ demote old ∷ []) 0 }) r.before
          (r.next ∷ r.behind) split in
      renewed (record left_state { current_task = r.next.task }) r.next.task (promoted r.next.body)
        r.next.body (r.behind ++ r.before) refl front

  -- The task that is chosen, as the old one left it.
  pub deref-chosen : deref left_state.tasks chosen_next.next.task ≡ ok chosen_next.next.body
  deref-chosen =
      let r = chosen_next in
      let left = renewed s old.task (demoted old.body) old.body es refl h in
      let behind = turned left_state (demote old ∷ []) es left in
      let stop = first (es ++ demote old ∷ []) 0 in
      Chain-at left_state.tasks r.before r.next r.behind stop
        (subst (λ l. Chain left_state.tasks l stop) r.whole behind.ring)

  abbrev pub yielded : Run Sched
  yielded =
      if s.current_task == chosen_next.next.task
      then ok entered
      else switch_to chosen_next.next.task entered

  pub scheduler_yield-yielded : (n : ℕ) → length (old ∷ es) ≤ n → scheduler_yield n s ≡ yielded
  scheduler_yield-yielded n enough =
      let r = chosen_next in
      let start = h.ring.1 ∙ sym (first-append es (old ∷ []) 0) in
      let chain =
        subst (Chain s.tasks (es ++ old ∷ [])) (sym start)
          (Chain-swap s.tasks (old ∷ []) es h.ring) in
      let chosen =
        choose-remaining s n old.body.next (es ++ old ∷ []) chain start
          (Distinct-swap (old ∷ []) es h.distinct) (Has-swap s.idle_task (old ∷ []) es h.idle)
          (omega (arith, enough, length-append es (old ∷ []))) in
      let same = sym (first-remaining-demote s.idle_task es old) ∙ ap (λ l. first l 0) r.left in
      yield_steps n s old.body r.next.body r.next.task
        (subst (λ p. deref s.tasks p ≡ ok old.body) h.current h.ring.0) (chosen ∙ ap ok same)
        deref-chosen
