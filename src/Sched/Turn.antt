-- ===== src/Sched/Turn.antt =====
-- What `scheduler_yield` of src/scheduler.c and the timer interrupt of src/timer.c guarantee of the
-- queue and of the registers.
use cool_os.Prelude.{
  ℕ, zero, suc, ◌≤◌, ◌≡◌, ◌⊎◌, inl, inr, refl, sym, subst, ◌∙◌, Bool, true, false, not, ◌&&◌, List,
  [], ◌∷◌, ◌++◌, arith, ◌==◌, Bool-cases, if◌then◌else◌, length,
}
use cool_os.Heap.{ok}
use cool_os.Heap.Outcome.{ok-injective}
use cool_os.Sched.{Task, Sched, deref, demoted, promoted, switch_to, scheduler_yield}
use cool_os.Sched.Ring.{Entry, deref-put_self}
use cool_os.Sched.RoundRobin.{turn, Represents, promote}
use cool_os.Sched.Yield.{
  chosen_next, entered, represents_entered, turn-chosen, scheduler_yield-yielded, Represents-kept,
  left_state, deref-chosen,
}

-- The registers belong to the current task: its page table, and its stack for interrupts.
abbrev pub IsLoaded : Task → Sched → Type 0
IsLoaded t s =
    ((t.cr3 ≡ 0) ⊎ (s.cr3 ≡ t.cr3))
    × ((t.is_user ≡ false) ⊎ ((t.kernel_rsp ≡ 0) ⊎ (s.rsp0 ≡ t.kernel_rsp)))

abbrev pub Loaded : Sched → List Entry → Type 0
Loaded s [] = ⊥
Loaded s (e ∷ q) = IsLoaded e.body s

abbrev pub switched : Task → Sched → Sched
switched t s = record s {
  cr3 = if not (t.cr3 == 0) && not (t.cr3 == s.cr3) then t.cr3 else s.cr3;
  rsp0 = if t.is_user && not (t.kernel_rsp == 0) then t.kernel_rsp else s.rsp0;
}

switch_to-switched :
    (p : ℕ) (t : Task) (s : Sched) → deref s.tasks p ≡ ok t → switch_to p s ≡ ok (switched t s)
unfolding switch_to
switch_to-switched p t s h = rw h refl

loaded_table : (a b : ℕ) → (a ≡ 0) ⊎ ((if not (a == 0) && not (a == b) then a else b) ≡ a)
loaded_table zero b = inl refl
loaded_table (suc a) b = inr (ground arith)

loaded_stack :
    (user : Bool) (a b : ℕ)
    → (user ≡ false) ⊎ ((a ≡ 0) ⊎ ((if user && not (a == 0) then a else b) ≡ a))
loaded_stack false a b = inl refl
loaded_stack true zero b = inr (inl refl)
loaded_stack true (suc a) b = inr (inr (ground arith))

switched-IsLoaded : (t : Task) (s : Sched) → IsLoaded t (switched t s)
switched-IsLoaded t s = (loaded_table t.cr3 s.cr3, loaded_stack t.is_user t.kernel_rsp s.rsp0)

pub record Yielded (n : ℕ) (s : Sched) (q : List Entry) : Type 0 where
  pub next_state : Sched
  pub runs : scheduler_yield n s ≡ ok next_state
  pub queue : Represents next_state (turn s.idle_task q)
  pub idle : next_state.idle_task ≡ s.idle_task
  pub registers : Loaded s q → Loaded next_state (turn s.idle_task q)

module _ (n : ℕ) (s : Sched) (old : Entry) (es : List Entry) (h : Represents s (old ∷ es))
    (enough : length (old ∷ es) ≤ n) where
  abbrev next : Entry
  next = (chosen_next s old es h).next

  abbrev final : Sched
  final = switched (promoted next.body) (entered s old es h)

  stays : (s.current_task == next.task) ≡ true → IsLoaded old.body s → IsLoaded next.body s
  stays same loaded =
      let before = subst (λ p. deref s.tasks p ≡ ok old.body) h.current h.ring.0 in
      let demoted_self = deref-put_self s.tasks s.current_task (demoted old.body) old.body before in
      let here : next.task ≡ s.current_task = ground (arith, same) in
      let there =
        subst (λ p. deref (left_state s old es h).tasks p ≡ ok next.body) here
          (deref-chosen s old es h) in
      subst (λ t. IsLoaded t s)
        (ok-injective (demoted old.body) next.body (sym demoted_self ∙ there)) loaded

  yields_same : (s.current_task == next.task) ≡ true → Yielded n s (old ∷ es)
  yields_same same = record {
    next_state = entered s old es h;
    runs = scheduler_yield-yielded s old es h n enough ∙ rw same refl;
    queue =
        subst (Represents (entered s old es h)) (sym (turn-chosen s old es h))
          (represents_entered s old es h);
    idle = refl;
    registers = λ loaded.
        subst (Loaded (entered s old es h)) (sym (turn-chosen s old es h)) (stays same loaded);
  }

  yields_other : (s.current_task == next.task) ≡ false → Yielded n s (old ∷ es)
  yields_other other =
      let entering = represents_entered s old es h in
      let back = sym (turn-chosen s old es h) in
      record {
        next_state = final;
        runs =
            scheduler_yield-yielded s old es h n enough
            ∙ rw other (
                switch_to-switched next.task (promoted next.body) (entered s old es h)
                  entering.ring.0);
        queue = subst (Represents final) back (
            Represents-kept (entered s old es h) final
              (promote next ∷ (chosen_next s old es h).behind ++ (chosen_next s old es h).before)
              refl refl refl entering);
        idle = refl;
        registers = λ loaded.
            subst (Loaded final) back (switched-IsLoaded (promoted next.body) (entered s old es h));
      }

pub yields : (n : ℕ) (s : Sched) (q : List Entry) → Represents s q → length q ≤ n → Yielded n s q
yields n s [] h enough = absurd h.idle
yields n s (old ∷ es) h enough =
    elim (Bool-cases (s.current_task == (next n s old es h enough).task)) [
      | inl same ↦ yields_same n s old es h enough same
      | inr other ↦ yields_other n s old es h enough other
    ]

-- `scheduler_yield` returns, given fuel for each task of the queue, and the queue has made a turn.
pub scheduler_yield-turn :
    (n : ℕ) (s : Sched) (q : List Entry)
    → Represents s q
    → length q ≤ n
    → (s' : Sched) × (scheduler_yield n s ≡ ok s')
      × Represents s' (turn s.idle_task q)
      × (s'.idle_task ≡ s.idle_task)
scheduler_yield-turn n s q h enough =
    let y = yields n s q h enough in (y.next_state, y.runs, y.queue, y.idle)

-- If the registers belong to the old task, `scheduler_yield` loads those of the new one: its page table if it has
-- one, and for a user task its kernel stack if it has one.
pub scheduler_yield-Loaded :
    (n : ℕ) (s : Sched) (q : List Entry)
    → Represents s q
    → length q ≤ n
    → Loaded s q
    → (s' : Sched) × (scheduler_yield n s ≡ ok s') × Loaded s' (turn s.idle_task q)
scheduler_yield-Loaded n s q h enough loaded =
    let y = yields n s q h enough in (y.next_state, y.runs, y.registers loaded)
