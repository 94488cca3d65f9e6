-- ===== src/Sched/Ring.antt =====
-- The circular queue of src/scheduler.c as a list of tasks, the current one first.
use cool_os.Prelude.{
  ℕ, ◌≡◌, ◌≢◌, inl, inr, refl, sym, subst, ◌∙◌, true, false, some, none, List, [], ◌∷◌, ◌++◌, arith,
  ◌==◌, Bool-cases, Option,
}
use cool_os.Heap.{ok}
use cool_os.Sched.{Task, Tasks, deref, put}

pub record Entry : Type 0 where
  pub task : ℕ
  pub body : Task

abbrev pub first : List Entry → ℕ → ℕ
first [] stop = stop
first (e ∷ q) stop = e.task

abbrev pub Chain : Tasks → List Entry → ℕ → Type 0
Chain ts [] stop = Unit {0}
Chain ts (e ∷ q) stop =
    (deref ts e.task ≡ ok e.body) × (e.body.next ≡ first q stop) × Chain ts q stop

abbrev pub Fresh : ℕ → List Entry → Type 0
Fresh p [] = Unit {0}
Fresh p (e ∷ q) = (p ≢ e.task) × Fresh p q

abbrev pub Distinct : List Entry → Type 0
Distinct [] = Unit {0}
Distinct (e ∷ q) = Fresh e.task q × Distinct q

module _ (p : ℕ) where
  pub Fresh-split : (a b : List Entry) → Fresh p (a ++ b) → Fresh p a × Fresh p b
  Fresh-split [] b h = (tt, h)
  Fresh-split (e ∷ a) b h = let rest = Fresh-split a b h.1 in ((h.0, rest.0), rest.1)

  pub Fresh-join : (a b : List Entry) → Fresh p a → Fresh p b → Fresh p (a ++ b)
  Fresh-join [] b h k = k
  Fresh-join (e ∷ a) b h k = (h.0, Fresh-join a b h.1 k)

-- An entry may stand anywhere in a list of distinct ones.
pub Distinct-out :
    (a : List Entry) (e : Entry) (b : List Entry) → Distinct (a ++ e ∷ b) → Distinct (e ∷ a ++ b)
Distinct-out [] e b h = h
Distinct-out (x ∷ a) e b h =
    let rest = Distinct-out a e b h.1 in
    let parts = Fresh-split x.task a (e ∷ b) h.0 in
    let apart = Fresh-join x.task a b parts.0 parts.1.1 in
    (((λ same. parts.1.0 (sym same)), rest.0), (apart, rest.1))

pub Distinct-in :
    (a : List Entry) (e : Entry) (b : List Entry) → Distinct (e ∷ a ++ b) → Distinct (a ++ e ∷ b)
Distinct-in [] e b h = h
Distinct-in (x ∷ a) e b h =
    let parts = Fresh-split x.task a b h.1.0 in
    (
      Fresh-join x.task a (e ∷ b) parts.0 ((λ same. h.0.0 (sym same)), parts.1),
      Distinct-in a e b (h.0.1, h.1.1),
    )

append_nil : (a : List Entry) → a ++ [] ≡ a
append_nil [] = refl
append_nil (e ∷ a) = rw (append_nil a)

pub append_assoc : (a b c : List Entry) → a ++ b ++ c ≡ a ++ (b ++ c)
append_assoc [] b c = refl
append_assoc (e ∷ a) b c = rw (append_assoc a b c)

pub Distinct-swap : (a b : List Entry) → Distinct (a ++ b) → Distinct (b ++ a)
Distinct-swap a [] h = subst Distinct (append_nil a) h
Distinct-swap a (e ∷ b) h =
    let out = Distinct-out a e b h in
    let parts = Fresh-split e.task a b out.0 in
    (Fresh-join e.task b a parts.1 parts.0, Distinct-swap a b out.1)

pub first-append : (a b : List Entry) (stop : ℕ) → first (a ++ b) stop ≡ first a (first b stop)
first-append [] b stop = refl
first-append (e ∷ a) b stop = refl

module _ (ts : Tasks) where
  pub Chain-split :
      (a b : List Entry) (stop : ℕ)
      → Chain ts (a ++ b) stop
      → Chain ts a (first b stop) × Chain ts b stop
  Chain-split [] b stop h = (tt, h)
  Chain-split (e ∷ a) b stop h =
      let rest = Chain-split a b stop h.2 in ((h.0, h.1 ∙ first-append a b stop, rest.0), rest.1)

  pub Chain-join :
      (a b : List Entry) (stop : ℕ)
      → Chain ts a (first b stop)
      → Chain ts b stop
      → Chain ts (a ++ b) stop
  Chain-join [] b stop h k = k
  Chain-join (e ∷ a) b stop h k =
      (h.0, h.1 ∙ sym (first-append a b stop), Chain-join a b stop h.2 k)

  -- A closed chain may begin anywhere.
  pub Chain-turned :
      (a : List Entry) (e : Entry) (b : List Entry)
      → Chain ts (a ++ e ∷ b) (first (a ++ e ∷ b) 0)
      → Chain ts (e ∷ b ++ a) e.task
  Chain-turned a e b h =
      let parts = Chain-split a (e ∷ b) (first (a ++ e ∷ b) 0) h in
      let stop = first-append a (e ∷ b) 0 in
      Chain-join (e ∷ b) a e.task (subst (Chain ts (e ∷ b)) stop parts.1) parts.0

  pub Chain-swap :
      (a b : List Entry)
      → Chain ts (a ++ b) (first (a ++ b) 0)
      → Chain ts (b ++ a) (first (b ++ a) 0)
  Chain-swap a [] h = subst (λ q. Chain ts q (first q 0)) (append_nil a) h
  Chain-swap a (e ∷ b) h = Chain-turned a e b h

-- What a pointer that can be followed says.
pub deref-ok :
    (ts : Tasks) (p : ℕ) (u : Task) → deref ts p ≡ ok u → ((p == 0) ≡ false) × (ts p ≡ some u)
unfolding deref
deref-ok ts p u h = elim (Bool-cases (p == 0)) [
  | inl null ↦ cc
  | inr some_task ↦ (some_task, by_task (ts p) refl some_task)
]
  where
    by_task : (o : Option Task) → ts p ≡ o → (p == 0) ≡ false → ts p ≡ some u
    by_task none e ne = cc
    by_task (some t) e ne = cc

pub deref-put_self :
    (ts : Tasks) (p : ℕ) (t u : Task) → deref ts p ≡ ok u → deref (put ts p t) p ≡ ok t
unfolding deref put
deref-put_self ts p t u h =
    let same : (p == p) ≡ true = ground arith in rw ((deref-ok ts p u h).0, same)

pub deref-put_ne :
    (ts : Tasks) (p : ℕ) (t : Task) (q : ℕ) → p ≢ q → deref (put ts p t) q ≡ deref ts q
unfolding deref put
deref-put_ne ts p t q ne = let other : (q == p) ≡ false = ground arith in rw other

module _ (ts : Tasks) (p : ℕ) (t : Task) where
  pub Chain-put_other :
      (q : List Entry) (stop : ℕ) → Fresh p q → Chain ts q stop → Chain (put ts p t) q stop
  Chain-put_other [] stop new h = tt
  Chain-put_other (e ∷ q) stop new h =
      (deref-put_ne ts p t e.task new.0 ∙ h.0, h.1, Chain-put_other q stop new.1 h.2)

  -- New contents for the first task of a queue, with the same successor.
  pub Chain-put_head :
      (u : Task) (q : List Entry) (stop : ℕ)
      → Fresh p q
      → t.next ≡ u.next
      → Chain ts (record { task = p; body = u } ∷ q) stop
      → Chain (put ts p t) (record { task = p; body = t } ∷ q) stop
  Chain-put_head u q stop new same h =
      (deref-put_self ts p t u h.0, same ∙ h.1, Chain-put_other q stop new h.2)
