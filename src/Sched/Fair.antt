-- ===== src/Sched/Fair.antt =====
-- The time slices of src/timer.c over the queue of src/scheduler.c: a task that is ready runs soon.
use cool_os.Prelude.{
  ℕ, zero, suc, ◌+◌, ◌*◌, ◌-◌, ◌≤◌, ◌<◌, ◌≡◌, ◌⊎◌, inl, inr, refl, sym, ap, subst, ◌∙◌, true, false,
  List, [], ◌∷◌, ◌++◌, arith, ◌==◌, Bool-cases, if◌then◌else◌, length, length-append,
}
use cool_os.Heap.{Run, ok, ◌>>=◌}
use cool_os.Sched.{Sched, deref, put, is_running, tick_slice, timer_tick, ready, running}
use cool_os.Sched.Ring.{Entry, first, deref-ok, append_assoc}
use cool_os.Sched.RoundRobin.{
  turn, Represents, promote, demote, is_skipped, remaining, skipped, promote_first,
}
use cool_os.Sched.Yield.{renewed}
use cool_os.Sched.Turn.{yields}

abbrev pub aged : Entry → Entry
aged e = record {
  task = e.task;
  body = record e.body { ticks_remaining = e.body.ticks_remaining - 1 };
}

-- What a timer interrupt does to the queue: it takes a tick of the current task's slice, and turns the
-- queue at the end of the slice.
unfoldable pub tick : ℕ → List Entry → List Entry
tick idle [] = []
tick idle (old ∷ es) =
    if is_running old.body.state
    then (if old.body.ticks_remaining - 1 == 0 then turn idle (aged old ∷ es) else aged old ∷ es)
    else old ∷ es

pub record Ticked (n : ℕ) (s : Sched) (q : List Entry) : Type 0 where
  pub next_state : Sched
  pub runs : timer_tick n s ≡ ok next_state
  pub queue : Represents next_state (tick s.idle_task q)
  pub idle : next_state.idle_task ≡ s.idle_task

module _ (n : ℕ) (s : Sched) (old : Entry) (es : List Entry) (h : Represents s (old ∷ es))
    (enough : length (old ∷ es) ≤ n) where
  here : deref s.tasks s.current_task ≡ ok old.body
  here = subst (λ p. deref s.tasks p ≡ ok old.body) h.current h.ring.0

  abbrev aged_state : Sched
  aged_state = record s { tasks = put s.tasks s.current_task (aged old).body }

  older : Represents aged_state (aged old ∷ es)
  older = renewed s old.task (aged old).body old.body es refl h

  ticks_on : is_running old.body.state ≡ true → Ticked n s (old ∷ es)
  unfolding timer_tick tick
  ticks_on on = elim (Bool-cases (old.body.ticks_remaining - 1 == 0)) [
    | inl over ↦
        let y = yields n aged_state (aged old ∷ es) older enough in
        record {
          next_state = y.next_state;
          runs = rw ((deref-ok s.tasks s.current_task old.body here).0, here, on, over) y.runs;
          queue = rw (on, over) y.queue;
          idle = y.idle;
        }
    | inr more ↦ record {
      next_state = aged_state;
      runs = rw ((deref-ok s.tasks s.current_task old.body here).0, here, on, more) refl;
      queue = rw (on, more) older;
      idle = refl;
    }
  ]

  ticks_off : is_running old.body.state ≡ false → Ticked n s (old ∷ es)
  unfolding timer_tick tick
  ticks_off off = record {
    next_state = s;
    runs = rw ((deref-ok s.tasks s.current_task old.body here).0, here, off) refl;
    queue = rw off h;
    idle = refl;
  }

pub ticked : (n : ℕ) (s : Sched) (q : List Entry) → Represents s q → length q ≤ n → Ticked n s q
ticked n s [] h enough = absurd h.idle
ticked n s (old ∷ es) h enough = elim (Bool-cases (is_running old.body.state)) [
  | inl on ↦ ticks_on n s old es h enough on
  | inr off ↦ ticks_off n s old es h enough off
]

tick-over :
    (idle : ℕ) (old : Entry) (es : List Entry)
    → is_running old.body.state ≡ true
    → (old.body.ticks_remaining - 1 == 0) ≡ true
    → tick idle (old ∷ es) ≡ turn idle (aged old ∷ es)
unfolding tick
tick-over idle old es on over = rw (on, over) refl

tick-more :
    (idle : ℕ) (old : Entry) (es : List Entry)
    → is_running old.body.state ≡ true
    → (old.body.ticks_remaining - 1 == 0) ≡ false
    → tick idle (old ∷ es) ≡ aged old ∷ es
unfolding tick
tick-more idle old es on more = rw (on, more) refl

-- `k` timer interrupts.
unfoldable pub timer_ticks : ℕ → ℕ → Sched → Run Sched
timer_ticks n zero s = ok s
timer_ticks n (suc k) s = timer_tick n s >>= timer_ticks n k

-- In the queue that a task is looked for in, it comes first, or nearer to the front.
pub record Approach (a : List Entry) (e : Entry) (b : List Entry) (idle : ℕ) : Type 0 where
  pub next : Entry
  pub before : List Entry
  pub found : remaining idle (a ++ e ∷ b) ≡ next ∷ before ++ e ∷ b
  pub nearer : length before < length a

pub remaining-nearer :
    (idle : ℕ) (a : List Entry) (e : Entry) (b : List Entry)
    → is_skipped idle e ≡ false
    → (remaining idle (a ++ e ∷ b) ≡ e ∷ b) ⊎ Approach a e b idle
unfolding remaining
remaining-nearer idle [] e b able = inl (rw able refl)
remaining-nearer idle (x ∷ a) e b able = elim (Bool-cases (is_skipped idle x)) [
  | inl pass ↦ elim (remaining-nearer idle a e b able) [
    | inl there ↦ inl (rw pass there)
    | inr r ↦ inr (record {
      next = r.next;
      before = r.before;
      found = rw pass r.found;
      nearer = omega (arith, r.nearer);
    })
  ]
  | inr take ↦ inr (record { next = x; before = a; found = rw take refl; nearer = omega arith })
]

-- A turn of the queue brings a task that can run to its front, or nearer.
data Advance (idle : ℕ) (old : Entry) (a : List Entry) (e : Entry) (b : List Entry) : Type 0 where
  first_now :
      (c : List Entry) → turn idle (old ∷ a ++ e ∷ b) ≡ promote e ∷ c → Advance idle old a e b
  nearer_now :
      (x : Entry) (before c : List Entry)
      → turn idle (old ∷ a ++ e ∷ b) ≡ promote x ∷ before ++ e ∷ c
      → length before < length a
      → Advance idle old a e b

turn-nearer :
    (idle : ℕ) (old : Entry) (a : List Entry) (e : Entry) (b : List Entry)
    → is_skipped idle e ≡ false
    → Advance idle old a e b
unfolding turn
turn-nearer idle old a e b able =
    let c = b ++ demote old ∷ [] in
    let whole : (a ++ e ∷ b) ++ demote old ∷ [] ≡ a ++ e ∷ c =
      append_assoc a (e ∷ b) (demote old ∷ []) in
    let passed = skipped idle (a ++ e ∷ c) in
    elim (remaining-nearer idle a e c able) [
      | inl there ↦ first_now (c ++ passed) (rw (whole, there) refl)
      | inr r ↦
          nearer_now r.next r.before (c ++ passed)
            (rw (whole, r.found)
              (ap (λ l. promote r.next ∷ l) (append_assoc r.before (e ∷ c) passed)))
            r.nearer
    ]

length-parts :
    (idle : ℕ) (q : List Entry) → length (remaining idle q) + length (skipped idle q) ≡ length q
unfolding remaining skipped
length-parts idle [] = refl
length-parts idle (e ∷ q) = elim (Bool-cases (is_skipped idle e)) [
  | inl pass ↦ rw pass (omega (arith, length-parts idle q))
  | inr take ↦ rw take (omega arith)
]

length-promote_first : (q : List Entry) → length (promote_first q) ≡ length q
length-promote_first [] = refl
length-promote_first (e ∷ q) = refl

pub length-turn : (idle : ℕ) (q : List Entry) → length (turn idle q) ≡ length q
unfolding turn
length-turn idle [] = refl
length-turn idle (old ∷ es) =
    let q = es ++ demote old ∷ [] in
    length-promote_first (remaining idle q ++ skipped idle q)
    ∙ omega (
      arith,
      length-append (remaining idle q) (skipped idle q),
      length-parts idle q,
      length-append es (demote old ∷ []),
    )

pub record Reaches (n : ℕ) (s : Sched) (p bound : ℕ) : Type 0 where
  pub count : ℕ
  pub soon : count ≤ bound
  pub then_state : Sched
  pub runs : timer_ticks n count s ≡ ok then_state
  pub current : then_state.current_task ≡ p

-- One more interrupt before the others.
runs_later :
    (n : ℕ) (s s' : Sched) (p m : ℕ)
    → timer_tick n s ≡ ok s'
    → Reaches n s' p m
    → Reaches n s p (suc m)
unfolding timer_ticks
runs_later n s s' p m first r = record {
  count = suc r.count;
  soon = omega (arith, r.soon);
  then_state = r.then_state;
  runs = rw first r.runs;
  current = r.current;
}

abbrev pub Soon : ℕ → ℕ → ℕ → Type 0
Soon n p m =
    (s : Sched) (old : Entry) (a : List Entry) (e : Entry) (b : List Entry)
    → e.task ≡ p
    → Represents s (old ∷ a ++ e ∷ b)
    → length (old ∷ a ++ e ∷ b) ≤ n
    → old.body.state ≡ running
    → 0 < old.body.ticks_remaining
    → e.body.state ≡ ready
    → tick_slice * length a + old.body.ticks_remaining ≤ m
    → Reaches n s p m

pub after_turn :
    (m n : ℕ) (s : Sched) (old : Entry) (a : List Entry) (e : Entry) (b : List Entry)
    → Soon n e.task m
    → e.body.state ≡ ready
    → length (old ∷ a ++ e ∷ b) ≤ n
    → tick_slice * length a ≤ m
    → (idle : ℕ) → Represents s (turn idle (old ∷ a ++ e ∷ b))
    → Reaches n s e.task m
unfolding timer_ticks
after_turn m n s old a e b soon able enough bound idle h =
    let through : is_skipped idle e ≡ false = rw able refl in
    elim (turn-nearer idle old a e b through) [
      | first_now c now ↦ record {
        count = 0;
        soon = omega arith;
        then_state = s;
        runs = refl;
        current = sym (subst (Represents s) now h).current;
      }
      | nearer_now x before c now shorter ↦
          let few = length-turn idle (old ∷ a ++ e ∷ b) in
          soon s (promote x) before e c refl (subst (Represents s) now h)
            (subst (λ l. length l ≤ n) now (omega (arith, enough, few))) refl (omega arith) able
            (omega (arith, bound, shorter))
    ]

-- The bound as a measure: five ticks for each task that comes before, and the rest of the slice.
pub runs_within : (m n p : ℕ) → Soon n p m
runs_within zero n p s old a e b same h enough on some_left able bound =
    absurd (omega (arith, some_left, bound))
runs_within (suc m) n p s old a e b same h enough on some_left able bound =
    let t = ticked n s (old ∷ a ++ e ∷ b) h enough in
    let running_now : is_running old.body.state ≡ true = ap is_running on in
    runs_later n s t.next_state p m t.runs (elim (Bool-cases (old.body.ticks_remaining - 1 == 0)) [
      | inl over ↦
          subst (λ c. Reaches n t.next_state c m) same
            (after_turn m n t.next_state (aged old) a e b (runs_within m n e.task) able enough
              (omega (arith, some_left, bound)) s.idle_task
              (subst (Represents t.next_state)
                (tick-over s.idle_task old (a ++ e ∷ b) running_now over) t.queue))
      | inr more ↦
          runs_within m n p t.next_state (aged old) a e b same
            (subst (Represents t.next_state)
              (tick-more s.idle_task old (a ++ e ∷ b) running_now more) t.queue)
            enough on (ground (arith, more)) able (omega (arith, some_left, bound))
    ])

-- A ready task becomes the current one within five timer interrupts for each task that stands between
-- the running one and it, and those that are left of the running task's slice, of which there is one at
-- least; there is fuel for each task, and nothing but the interrupts happens.
pub runs_soon :
    (n : ℕ) (s : Sched) (old : Entry) (a : List Entry) (e : Entry) (b : List Entry)
    → Represents s (old ∷ a ++ e ∷ b)
    → length (old ∷ a ++ e ∷ b) ≤ n
    → old.body.state ≡ running
    → 0 < old.body.ticks_remaining
    → e.body.state ≡ ready
    → Reaches n s e.task (tick_slice * length a + old.body.ticks_remaining)
runs_soon n s old a e b h enough on some_left able =
    runs_within (tick_slice * length a + old.body.ticks_remaining) n e.task s old a e b refl h
      enough on some_left able (omega arith)
