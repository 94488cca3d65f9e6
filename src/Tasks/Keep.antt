-- ===== src/Tasks/Keep.antt =====
-- What the changes to the children in src/task.c leave of the queue: its tasks and their order.
use cool_os.Prelude.{
  ℕ, suc, ◌≡◌, inl, inr, refl, sym, ap, subst, ◌∙◌, List, [], ◌∷◌, ◌++◌, ◌||◌, ◌==◌, Bool-cases,
  length,
}
use cool_os.Heap.{ok}
use cool_os.Heap.Outcome.{ok-injective, bind-ok}
use cool_os.Sched.{Task, Sched, deref, put, update}
use cool_os.Sched.Ring.{Entry}
use cool_os.Sched.Queue.{linked}
use cool_os.Sched.RoundRobin.{Represents}
use cool_os.Tasks.Family.{find_sibling, relink, unlinked, remove_from_children_list}
use cool_os.Tasks.Adjust.{adjust, adjusted-task, KeepsNext, Represents-adjust}

-- The same tasks in the same order, with contents that may differ.
abbrev pub SameTasks : List Entry → List Entry → Type 0
SameTasks [] [] = Unit {0}
SameTasks [] (f ∷ r) = ⊥
SameTasks (e ∷ q) [] = ⊥
SameTasks (e ∷ q) (f ∷ r) = (e.task ≡ f.task) × SameTasks q r

SameTasks-refl : (q : List Entry) → SameTasks q q
SameTasks-refl [] = tt
SameTasks-refl (e ∷ q) = (refl, SameTasks-refl q)

pub SameTasks-trans : (a b c : List Entry) → SameTasks a b → SameTasks b c → SameTasks a c
SameTasks-trans [] [] [] h k = tt
SameTasks-trans [] [] (z ∷ c) h k = elim k [ ]
SameTasks-trans [] (y ∷ b) c h k = elim h [ ]
SameTasks-trans (x ∷ a) [] c h k = elim h [ ]
SameTasks-trans (x ∷ a) (y ∷ b) [] h k = elim k [ ]
SameTasks-trans (x ∷ a) (y ∷ b) (z ∷ c) h k = (h.0 ∙ k.0, SameTasks-trans a b c h.1 k.1)

SameTasks-adjust : (p : ℕ) (f : Task → Task) (q : List Entry) → SameTasks q (adjust p f q)
SameTasks-adjust p f [] = tt
SameTasks-adjust p f (e ∷ q) = (sym (adjusted-task p f e), SameTasks-adjust p f q)

pub record Kept (s s' : Sched) (q : List Entry) : Type 0 where
  pub queue : List Entry
  pub represents : Represents s' queue
  pub same : SameTasks q queue
  pub idle : s'.idle_task ≡ s.idle_task

Kept-trans :
    (s₁ s₂ s₃ : Sched) (q : List Entry) (h : Kept s₁ s₂ q) → Kept s₂ s₃ h.queue → Kept s₁ s₃ q
Kept-trans s₁ s₂ s₃ q h k = record {
  queue = k.queue;
  represents = k.represents;
  same = SameTasks-trans q h.queue k.queue h.same k.same;
  idle = k.idle ∙ h.idle;
}

unchanged : (s s' : Sched) (q : List Entry) → Represents s q → ok s ≡ ok s' → Kept s s' q
unchanged s s' q h e =
    let same = ok-injective s s' e in
    subst (λ x. Kept s x q) same
      (record { queue = q; represents = h; same = SameTasks-refl q; idle = refl })

update-Kept :
    (p : ℕ) (f : Task → Task) (s s' : Sched) (q : List Entry)
    → KeepsNext f
    → Represents s q
    → update p f s ≡ ok s'
    → Kept s s' q
update-Kept p f s s' q keeps h e =
    let b = bind-ok (deref s.tasks p) (λ t. ok (record s { tasks = put s.tasks p (f t) })) s' e in
    let same = ok-injective (record s { tasks = put s.tasks p (f b.0) }) s' b.2 in
    subst (λ x. Kept s x q) same
      (record {
        queue = adjust p f q;
        represents = Represents-adjust s p f b.0 q keeps b.1 h;
        same = SameTasks-adjust p f q;
        idle = refl;
      })

relink-Kept :
    (n c parent : ℕ) (tp : Task) (next : ℕ) (s s' : Sched) (q : List Entry)
    → Represents s q
    → relink n c parent tp next s ≡ ok s'
    → Kept s s' q
unfolding relink
relink-Kept n c parent tp next s s' q h e = elim (Bool-cases (tp.first_child == c)) [
  | inl first ↦
      update-Kept parent (λ t. record t { first_child = next }) s s' q (λ t. refl) h (rw first at e)
  | inr later ↦
      let b = bind-ok (find_sibling n s c tp.first_child) _ s' (rw later at e) in
      elim (Bool-cases (b.0 == 0)) [
        | inl none_there ↦ unchanged s s' q h (rw none_there at b.2)
        | inr found ↦
            update-Kept b.0 (λ t. record t { next_sibling = next }) s s' q (λ t. refl) h
              (rw found at b.2)
      ]
]

pub remove_from_children_list-Kept :
    (n c parent : ℕ) (s s' : Sched) (q : List Entry)
    → Represents s q
    → remove_from_children_list n c parent s ≡ ok s'
    → Kept s s' q
unfolding remove_from_children_list
remove_from_children_list-Kept n c parent s s' q h e = elim (Bool-cases (parent == 0 || c == 0)) [
  | inl null ↦ unchanged s s' q h (rw null at e)
  | inr some_task ↦
      let at_parent = bind-ok (deref s.tasks parent) _ s' (rw some_task at e) in
      let at_child = bind-ok (deref s.tasks c) _ s' at_parent.2 in
      let past =
        bind-ok (relink n c parent at_parent.0 at_child.0.next_sibling s) (update c unlinked) s'
          at_child.2 in
      let k = relink-Kept n c parent at_parent.0 at_child.0.next_sibling s past.0 q h past.1 in
      Kept-trans s past.0 s' q k
        (update-Kept c unlinked past.0 s' k.queue (λ t. refl) k.represents past.2)
]

-- A queue of the same tasks splits at the same places.
pub record Split (c : List Entry) (x e : Entry) (b q : List Entry) : Type 0 where
  pub front : List Entry
  pub prev : Entry
  pub here : Entry
  pub behind : List Entry
  pub whole : q ≡ front ++ prev ∷ here ∷ behind
  pub same : e.task ≡ here.task
  pub others : SameTasks (c ++ x ∷ b) (front ++ prev ∷ behind)

pub parted :
    (c : List Entry) (x e : Entry) (b q : List Entry)
    → SameTasks (c ++ x ∷ e ∷ b) q
    → Split c x e b q
parted [] x e b [] h = elim h [ ]
parted [] x e b (f ∷ []) h = elim h.1 [ ]
parted [] x e b (f ∷ g ∷ r) h = record {
  front = [];
  prev = f;
  here = g;
  behind = r;
  whole = refl;
  same = h.1.0;
  others = (h.0, h.1.1);
}
parted (y ∷ c) x e b [] h = elim h [ ]
parted (y ∷ c) x e b (f ∷ r) h =
    let rest = parted c x e b r h.1 in
    record {
      front = f ∷ rest.front;
      prev = rest.prev;
      here = rest.here;
      behind = rest.behind;
      whole = ap (λ l. f ∷ l) rest.whole;
      same = rest.same;
      others = (h.0, rest.others);
    }

pub SameTasks-linked :
    (c : List Entry) (x : Entry) (i : ℕ) (b : List Entry)
    → SameTasks (c ++ x ∷ b) (c ++ linked i x ∷ b)
SameTasks-linked [] x i b = (refl, SameTasks-refl b)
SameTasks-linked (y ∷ c) x i b = (refl, SameTasks-linked c x i b)

pub SameTasks-length : (q r : List Entry) → SameTasks q r → length q ≡ length r
SameTasks-length [] [] h = refl
SameTasks-length [] (f ∷ r) h = elim h [ ]
SameTasks-length (e ∷ q) [] h = elim h [ ]
SameTasks-length (e ∷ q) (f ∷ r) h = ap suc (SameTasks-length q r h.1)
