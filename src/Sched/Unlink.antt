-- ===== src/Sched/Unlink.antt =====
-- `remove_from_scheduler` of src/task.c: a task is taken out of the queue.
use cool_os.Prelude.{
  ℕ, zero, suc, ◌≤◌, ◌≡◌, ◌≢◌, inl, inr, refl, sym, subst, ◌∙◌, true, false, List, [], ◌∷◌, ◌++◌,
  arith, ◌==◌, length, length-append,
}
use cool_os.Heap.{ok}
use cool_os.Sched.{Tasks, Sched, deref, put, find_prev, remove_from_scheduler}
use cool_os.Sched.Ring.{
  Entry, first, Chain, Fresh, Fresh-split, Fresh-join, Distinct, Distinct-out, Distinct-in,
  deref-ok, deref-put_self, Chain-put_other, Chain-split, Chain-join,
}
use cool_os.Sched.RoundRobin.{Represents, Has}
use cool_os.Sched.Queue.{linked}

-- The walk stops at the task before.
module _ (s : Sched) (x e : Entry) (b : List Entry) (stop : ℕ) where
  find_prev-next :
      (n : ℕ) → Chain s.tasks (x ∷ e ∷ b) stop → find_prev (suc n) s e.task x.task ≡ ok x.task
  unfolding find_prev
  find_prev-next n h =
      let same : (e.task == e.task) ≡ true = ground arith in rw (h.0, h.1, same) refl

  -- One step over a task whose successor is neither the one in question nor the first.
  find_prev-step :
      (n : ℕ) (y : Entry) (next : ℕ)
      → deref s.tasks y.task ≡ ok y.body
      → y.body.next ≡ next
      → e.task ≢ next
      → s.current_task ≢ next
      → find_prev n s e.task next ≡ ok x.task
      → find_prev (suc n) s e.task y.task ≡ ok x.task
  unfolding find_prev
  find_prev-step n y next here link other open_still rest =
      let not_it : (next == e.task) ≡ false = ground (arith, other) in
      let not_end : (next == s.current_task) ≡ false = ground (arith, open_still) in
      rw (here, link, not_it, not_end) rest

  find_prev-before :
      (n : ℕ) (y : Entry) (c : List Entry)
      → Chain s.tasks (y ∷ c ++ x ∷ e ∷ b) stop
      → Fresh e.task (c ++ x ∷ [])
      → Fresh s.current_task (c ++ x ∷ e ∷ b)
      → suc (length c) ≤ n
      → find_prev (suc n) s e.task y.task ≡ ok x.task
  find_prev-before zero y c h new fresh enough = absurd (omega (arith, enough))
  find_prev-before (suc n) y [] h new fresh enough =
      find_prev-step (suc n) y x.task h.0 h.1 new.0 fresh.0 (find_prev-next n h.2)
  find_prev-before (suc n) y (z ∷ c) h new fresh enough =
      find_prev-step (suc n) y z.task h.0 h.1 new.0 fresh.0
        (find_prev-before n z c h.2 new.1 fresh.1 (omega (arith, enough)))

Distinct-linked :
    (c : List Entry) (x : Entry) (p : ℕ) (b : List Entry)
    → Distinct (c ++ x ∷ b)
    → Distinct (c ++ linked p x ∷ b)
Distinct-linked c x p b d = Distinct-in c (linked p x) b (Distinct-out c x b d)

first-linked :
    (c : List Entry) (x : Entry) (p : ℕ) (b d : List Entry)
    → first (c ++ linked p x ∷ b) 0 ≡ first (c ++ x ∷ d) 0
first-linked [] x p b d = refl
first-linked (y ∷ c) x p b d = refl

Has-linked :
    (i : ℕ) (c : List Entry) (x : Entry) (p : ℕ) (b : List Entry)
    → Has i (c ++ x ∷ b)
    → Has i (c ++ linked p x ∷ b)
Has-linked i [] x p b h = h
Has-linked i (y ∷ c) x p b (inl h) = inl h
Has-linked i (y ∷ c) x p b (inr h) = inr (Has-linked i c x p b h)

Has-other :
    (i : ℕ) (c : List Entry) (x e : Entry) (b : List Entry)
    → Has i (c ++ x ∷ e ∷ b)
    → e.task ≢ i
    → Has i (c ++ x ∷ b)
Has-other i [] x e b (inl h) other = inl h
Has-other i [] x e b (inr (inl h)) other = absurd (other h)
Has-other i [] x e b (inr (inr h)) other = inr h
Has-other i (y ∷ c) x e b (inl h) other = inl h
Has-other i (y ∷ c) x e b (inr h) other = inr (Has-other i c x e b h other)

without :
    (c : List Entry) (x e : Entry) (b : List Entry)
    → Distinct (c ++ x ∷ e ∷ b)
    → Fresh e.task (c ++ x ∷ b) × Distinct (c ++ x ∷ b)
without [] x e b d = (((λ same. d.0.0 (sym same)), d.1.0), (d.0.1, d.1.1))
without (y ∷ c) x e b d =
    let rest = without c x e b d.1 in
    let parts = Fresh-split y.task c (x ∷ e ∷ b) d.0 in
    let new = Fresh-join y.task c (x ∷ b) parts.0 (parts.1.0, parts.1.1.1) in
    (((λ same. parts.1.1.0 (sym same)), rest.0), (new, rest.1))

-- The chain with the successor of a task set past the one behind.
module _ (ts : Tasks) (c : List Entry) (x e : Entry) (b : List Entry) (stop : ℕ) where
  Chain-unlinked :
      Chain ts (c ++ x ∷ e ∷ b) stop
      → Distinct (c ++ x ∷ b)
      → Chain (put ts x.task (linked e.body.next x).body) (c ++ linked e.body.next x ∷ b) stop
  Chain-unlinked h d =
      let t = (linked e.body.next x).body in
      let parts = Chain-split ts c (x ∷ e ∷ b) stop h in
      let out = Distinct-out c x b d in
      let fresh = Fresh-split x.task c b out.0 in
      Chain-join (put ts x.task t) c (linked e.body.next x ∷ b) stop
        (Chain-put_other ts x.task t c x.task fresh.0 parts.0)
        (
          deref-put_self ts x.task t x.body parts.1.0,
          parts.1.2.1,
          Chain-put_other ts x.task t b stop fresh.1 parts.1.2.2,
        )

unlink_steps :
    (n : ℕ) (s : Sched) (p : ℕ) (x e : Entry)
    → (s.current_task == 0) ≡ false
    → deref s.tasks p ≡ ok e.body
    → find_prev n s p s.current_task ≡ ok x.task
    → deref s.tasks x.task ≡ ok x.body
    → x.body.next ≡ p
    → remove_from_scheduler n p s
      ≡ ok (record s { tasks = put s.tasks x.task (linked e.body.next x).body })
unfolding remove_from_scheduler
unlink_steps n s p x e null there found prev link =
    let it : (p == p) ≡ true = ground arith in
    let some_task = (deref-ok s.tasks p e.body there).0 in
    rw (null, some_task, found, prev, link, it, there) refl

module _ (s : Sched) (x e : Entry) (b : List Entry) where
  found_prev :
      (n : ℕ) (c : List Entry)
      → Represents s (c ++ x ∷ e ∷ b)
      → length (c ++ x ∷ e ∷ b) ≤ n
      → find_prev n s e.task s.current_task ≡ ok x.task
  found_prev zero c h enough = absurd (omega (arith, enough, length-append c (x ∷ e ∷ b)))
  found_prev (suc n) [] h enough =
      subst (λ p. find_prev (suc n) s e.task p ≡ ok x.task) h.current
        (find_prev-next s x e b x.task n h.ring)
  found_prev (suc n) (y ∷ c) h enough =
      let parts = Fresh-split e.task c (x ∷ b) (without c x e b h.distinct.1).0 in
      let new = Fresh-join e.task c (x ∷ []) parts.0 (parts.1.0, tt) in
      let fresh = subst (λ p. Fresh p (c ++ x ∷ e ∷ b)) h.current h.distinct.0 in
      subst (λ p. find_prev (suc n) s e.task p ≡ ok x.task) h.current
        (find_prev-before s x e b y.task n y c h.ring new fresh
          (omega (arith, enough, length-append c (x ∷ e ∷ b))))

pub current_not-null : (s : Sched) (q : List Entry) → Represents s q → (s.current_task == 0) ≡ false
current_not-null s [] h = absurd h.idle
current_not-null s (y ∷ q) h =
    subst (λ p. (p == 0) ≡ false) h.current (deref-ok s.tasks y.task y.body h.ring.0).0

-- The state with the link of `x` set past `e`.
abbrev pub past : Sched → Entry → Entry → Sched
past s x e = record s { tasks = put s.tasks x.task (linked e.body.next x).body }

pub remove_from_scheduler-past :
    (n : ℕ) (s : Sched) (c : List Entry) (x e : Entry) (b : List Entry)
    → Represents s (c ++ x ∷ e ∷ b)
    → length (c ++ x ∷ e ∷ b) ≤ n
    → (remove_from_scheduler n e.task s ≡ ok (past s x e)) × (deref s.tasks x.task ≡ ok x.body)
remove_from_scheduler-past n s c x e b h enough =
    let parts = Chain-split s.tasks c (x ∷ e ∷ b) (first (c ++ x ∷ e ∷ b) 0) h.ring in
    (
      unlink_steps n s e.task x e (current_not-null s (c ++ x ∷ e ∷ b) h) parts.1.2.0
          (found_prev s x e b n c h enough) parts.1.0 parts.1.1,
      parts.1.0,
    )

pub Represents-past :
    (s : Sched) (c : List Entry) (x e : Entry) (b : List Entry)
    → Represents s (c ++ x ∷ e ∷ b)
    → e.task ≢ s.idle_task
    → Represents (past s x e) (c ++ linked e.body.next x ∷ b)
Represents-past s c x e b h busy =
    let d = (without c x e b h.distinct).1 in
    record {
      current = first-linked c x e.body.next b (e ∷ b) ∙ h.current;
      ring =
          subst
            (Chain (put s.tasks x.task (linked e.body.next x).body) (c ++ linked e.body.next x ∷ b))
            (sym (first-linked c x e.body.next b (e ∷ b)))
            (Chain-unlinked s.tasks c x e b (first (c ++ x ∷ e ∷ b) 0) h.ring d);
      distinct = Distinct-linked c x e.body.next b d;
      idle = Has-linked s.idle_task c x e.body.next b (Has-other s.idle_task c x e b h.idle busy);
    }

-- The task that was taken out is not in the queue any more.
Fresh-linked :
    (p i : ℕ) (c : List Entry) (x : Entry) (b : List Entry)
    → Fresh p (c ++ x ∷ b)
    → Fresh p (c ++ linked i x ∷ b)
Fresh-linked p i [] x b h = h
Fresh-linked p i (y ∷ c) x b h = (h.0, Fresh-linked p i c x b h.1)

pub Fresh-past :
    (c : List Entry) (x e : Entry) (b : List Entry)
    → Distinct (c ++ x ∷ e ∷ b)
    → Fresh e.task (c ++ linked e.body.next x ∷ b)
Fresh-past c x e b d = Fresh-linked e.task e.body.next c x b (without c x e b d).0

-- `remove_from_scheduler`, with fuel for each task, takes one that is not the current one and not the
-- idle one out of the queue; the others keep their contents, but for the link of the one before.
pub remove_from_scheduler-Represents :
    (n : ℕ) (s : Sched) (c : List Entry) (x e : Entry) (b : List Entry)
    → Represents s (c ++ x ∷ e ∷ b)
    → e.task ≢ s.idle_task
    → length (c ++ x ∷ e ∷ b) ≤ n
    → (s' : Sched) × (remove_from_scheduler n e.task s ≡ ok s')
      × Represents s' (c ++ linked e.body.next x ∷ b)
remove_from_scheduler-Represents n s c x e b h busy enough = (
  past s x e,
  (remove_from_scheduler-past n s c x e b h enough).0,
  Represents-past s c x e b h busy,
)
