-- ===== src/Tasks/Adjust.antt =====
-- Assignments to fields of tasks in src/task.c against the queue, wherever the tasks stand in it, and
-- lists of siblings.
use cool_os.Prelude.{
  ℕ, zero, suc, ◌<◌, ◌≡◌, ◌≢◌, inl, inr, refl, sym, ap, subst, ◌∙◌, true, List, [], ◌∷◌, arith,
  ◌==◌, Bool-cases, if◌then◌else◌, length,
}
use cool_os.Heap.{ok}
use cool_os.Heap.Outcome.{ok-injective}
use cool_os.Sched.{Task, Tasks, Sched, deref, put}
use cool_os.Sched.Ring.{
  Entry, first, Chain, Fresh, Distinct, deref-ok, deref-put_self, deref-put_ne,
}
use cool_os.Sched.RoundRobin.{Represents, Has}
use cool_os.Tasks.Family.{orphan, orphan_children}

-- The queue after an assignment to the task at `p`.
abbrev pub adjusted : ℕ → (Task → Task) → Entry → Entry
adjusted p f e = if e.task == p then record { task = e.task; body = f e.body } else e

abbrev pub adjust : ℕ → (Task → Task) → List Entry → List Entry
adjust p f [] = []
adjust p f (e ∷ q) = adjusted p f e ∷ adjust p f q

pub adjusted-task : (p : ℕ) (f : Task → Task) (e : Entry) → (adjusted p f e).task ≡ e.task
adjusted-task p f e = elim (Bool-cases (e.task == p)) [
  | inl here ↦ rw here refl
  | inr other ↦ rw other refl
]

pub length-adjust : (p : ℕ) (f : Task → Task) (q : List Entry) → length (adjust p f q) ≡ length q
length-adjust p f [] = refl
length-adjust p f (e ∷ q) = ap suc (length-adjust p f q)

first-adjust :
    (p : ℕ) (f : Task → Task) (q : List Entry) (stop : ℕ) → first (adjust p f q) stop ≡ first q stop
first-adjust p f [] stop = refl
first-adjust p f (e ∷ q) stop = adjusted-task p f e

Fresh-adjust : (x p : ℕ) (f : Task → Task) (q : List Entry) → Fresh x q → Fresh x (adjust p f q)
Fresh-adjust x p f [] h = tt
Fresh-adjust x p f (e ∷ q) h =
    (subst (λ a. x ≢ a) (sym (adjusted-task p f e)) h.0, Fresh-adjust x p f q h.1)

Distinct-adjust : (p : ℕ) (f : Task → Task) (q : List Entry) → Distinct q → Distinct (adjust p f q)
Distinct-adjust p f [] h = tt
Distinct-adjust p f (e ∷ q) h = (
  subst (λ a. Fresh a (adjust p f q)) (sym (adjusted-task p f e)) (Fresh-adjust e.task p f q h.0),
  Distinct-adjust p f q h.1,
)

pub Has-adjust : (x p : ℕ) (f : Task → Task) (q : List Entry) → Has x q → Has x (adjust p f q)
Has-adjust x p f [] h = elim h [ ]
Has-adjust x p f (e ∷ q) (inl h) = inl (adjusted-task p f e ∙ h)
Has-adjust x p f (e ∷ q) (inr h) = inr (Has-adjust x p f q h)

-- What stands at an address after an assignment at another or the same one.
pub deref-adjusted :
    (ts : Tasks) (p : ℕ) (f : Task → Task) (t : Task) (e : Entry)
    → deref ts p ≡ ok t
    → deref ts e.task ≡ ok e.body
    → deref (put ts p (f t)) e.task ≡ ok (adjusted p f e).body
deref-adjusted ts p f t e there here = elim (Bool-cases (e.task == p)) [
  | inl at ↦
      let same : e.task ≡ p = ground (arith, at) in
      let body =
        ok-injective t e.body (sym there ∙ subst (λ a. deref ts a ≡ ok e.body) same here) in
      rw at (
        subst (λ a. deref (put ts p (f t)) a ≡ ok (f e.body)) (sym same)
          (deref-put_self ts p (f t) t there ∙ ap (λ u. ok (f u)) body))
  | inr other ↦
      let apart : p ≢ e.task = λ same. ground (arith, other, same) in
      rw other (deref-put_ne ts p (f t) e.task apart ∙ here)
]

-- An assignment that keeps the links keeps the queue.
abbrev pub KeepsNext : (Task → Task) → Type 0
KeepsNext f = (t : Task) → (f t).next ≡ t.next

Chain-adjust :
    (ts : Tasks) (p : ℕ) (f : Task → Task) (t : Task) (q : List Entry) (stop : ℕ)
    → KeepsNext f
    → deref ts p ≡ ok t
    → Chain ts q stop
    → Chain (put ts p (f t)) (adjust p f q) stop
Chain-adjust ts p f t [] stop keeps there h = tt
Chain-adjust ts p f t (e ∷ q) stop keeps there h = (
  subst (λ a. deref (put ts p (f t)) a ≡ ok (adjusted p f e).body) (sym (adjusted-task p f e))
      (deref-adjusted ts p f t e there h.0),
  adjusted-next p f e keeps ∙ h.1 ∙ sym (first-adjust p f q stop),
  Chain-adjust ts p f t q stop keeps there h.2,
)
  where
    adjusted-next :
        (p : ℕ) (f : Task → Task) (e : Entry)
        → ((t : Task) → (f t).next ≡ t.next)
        → (adjusted p f e).body.next ≡ e.body.next
    adjusted-next p f e keeps = elim (Bool-cases (e.task == p)) [
      | inl at ↦ rw at (keeps e.body)
      | inr other ↦ rw other refl
    ]

abbrev pub assigned : ℕ → (Task → Task) → Task → Sched → Sched
assigned p f t s = record s { tasks = put s.tasks p (f t) }

pub Represents-adjust :
    (s : Sched) (p : ℕ) (f : Task → Task) (t : Task) (q : List Entry)
    → KeepsNext f
    → deref s.tasks p ≡ ok t
    → Represents s q
    → Represents (assigned p f t s) (adjust p f q)
Represents-adjust s p f t q keeps there h = record {
  current = first-adjust p f q 0 ∙ h.current;
  ring =
      subst (Chain (put s.tasks p (f t)) (adjust p f q)) (sym (first-adjust p f q 0))
        (Chain-adjust s.tasks p f t q (first q 0) keeps there h.ring);
  distinct = Distinct-adjust p f q h.distinct;
  idle = Has-adjust s.idle_task p f q h.idle;
}

-- A list of siblings, by its addresses.
abbrev pub Siblings : Tasks → ℕ → List ℕ → Type 0
Siblings ts x [] = x ≡ 0
Siblings ts x (c ∷ l) = (x ≡ c) × ((t : Task) × (deref ts c ≡ ok t) × Siblings ts t.next_sibling l)

-- An assignment that keeps the links of a task to its siblings keeps the lists.
pub Siblings-put :
    (ts : Tasks) (p : ℕ) (f : Task → Task) (t : Task) (x : ℕ) (l : List ℕ)
    → ((u : Task) → (f u).next_sibling ≡ u.next_sibling)
    → deref ts p ≡ ok t
    → Siblings ts x l
    → Siblings (put ts p (f t)) x l
Siblings-put ts p f t x [] keeps there h = h
Siblings-put ts p f t x (c ∷ l) keeps there h =
    let u = h.1.0 in
    let e : Entry = record { task = c; body = u } in
    let rest = Siblings-put ts p f t u.next_sibling l keeps there h.1.2 in
    (
      h.0,
      (
        (adjusted p f e).body,
        deref-adjusted ts p f t e there h.1.1,
        subst (λ y. Siblings (put ts p (f t)) y l) (sym (adjusted-sibling p f e keeps)) rest,
      ),
    )
  where
    adjusted-sibling :
        (p : ℕ) (f : Task → Task) (e : Entry)
        → ((t : Task) → (f t).next_sibling ≡ t.next_sibling)
        → (adjusted p f e).body.next_sibling ≡ e.body.next_sibling
    adjusted-sibling p f e keeps = elim (Bool-cases (e.task == p)) [
      | inl at ↦ rw at (keeps e.body)
      | inr other ↦ rw other refl
    ]

-- The tasks of a list lose their parent.
abbrev pub orphans : List ℕ → List Entry → List Entry
orphans [] q = q
orphans (c ∷ l) q = orphans l (adjust c orphan q)

abbrev pub Outside : ℕ → List ℕ → Type 0
Outside p [] = Unit {0}
Outside p (c ∷ l) = (c ≢ p) × Outside p l

pub orphan_children-orphans :
    (n : ℕ) (x : ℕ) (s : Sched) (l : List ℕ) (q : List Entry)
    → Siblings s.tasks x l
    → Represents s q
    → length l < n
    → (s' : Sched) × (orphan_children n x s ≡ ok s')
      × Represents s' (orphans l q)
      × (s'.current_task ≡ s.current_task)
      × (s'.idle_task ≡ s.idle_task)
      × ((p : ℕ) → Outside p l → deref s'.tasks p ≡ deref s.tasks p)
unfolding orphan_children
orphan_children-orphans zero x s l q kids h enough = absurd (omega (arith, enough))
orphan_children-orphans (suc n) x s [] q kids h enough =
    let null : (x == 0) ≡ true = ground (arith, kids) in
    (s, rw null refl, h, refl, refl, λ p out. refl)
orphan_children-orphans (suc n) x s (c ∷ l) q kids h enough =
    let there = kids.1.1 in
    let t = kids.1.0 in
    let some_child = (deref-ok s.tasks c t there).0 in
    let s₁ = assigned c orphan t s in
    let rest =
      orphan_children-orphans n t.next_sibling s₁ l (adjust c orphan q)
        (Siblings-put s.tasks c orphan t t.next_sibling l (λ u. refl) there kids.1.2)
        (Represents-adjust s c orphan t q (λ u. refl) there h) (omega (arith, enough)) in
    (
      rest.0,
      rw (kids.0, some_child, there) rest.1,
      rest.2,
      rest.3,
      rest.4,
      λ p out. rest.5 p out.1 ∙ deref-put_ne s.tasks c (orphan t) p out.0,
    )
