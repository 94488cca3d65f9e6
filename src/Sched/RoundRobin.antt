-- ===== src/Sched/RoundRobin.antt =====
-- `scheduler_yield` of src/scheduler.c against the queue that it stands for: round robin over the
-- tasks that can run.
use cool_os.Prelude.{
  ℕ, zero, suc, ◌≤◌, ◌≡◌, ◌⊎◌, inl, inr, refl, ap, subst, Bool, true, false, not, ◌&&◌, List, [],
  ◌∷◌, ◌++◌, arith, ◌==◌, Bool-cases, if◌then◌else◌, length,
}
use cool_os.Heap.{ok}
use cool_os.Sched.{
  Tasks, Sched, deref, is_stopped, demoted, promoted, skip_stopped, choose, ProcState, ready,
  running, blocked, zombie,
}
use cool_os.Sched.Ring.{Entry, first, Chain, Fresh, Distinct, Chain-split}

abbrev pub demote : Entry → Entry
demote e = record { task = e.task; body = demoted e.body }

abbrev pub promote : Entry → Entry
promote e = record { task = e.task; body = promoted e.body }

-- A task that waits or has exited is passed over; the idle task never is.
abbrev pub is_skipped : ℕ → Entry → Bool
is_skipped idle e = is_stopped e.body.state && not (e.task == idle)

unfoldable pub skipped : ℕ → List Entry → List Entry
skipped idle [] = []
skipped idle (e ∷ q) = if is_skipped idle e then e ∷ skipped idle q else []

unfoldable pub remaining : ℕ → List Entry → List Entry
remaining idle [] = []
remaining idle (e ∷ q) = if is_skipped idle e then remaining idle q else e ∷ q

abbrev pub promote_first : List Entry → List Entry
promote_first [] = []
promote_first (e ∷ q) = promote e ∷ q

-- What a yield does to the queue: the old task goes to its end, and those that are passed over after
-- it.
unfoldable pub turn : ℕ → List Entry → List Entry
turn idle [] = []
turn idle (old ∷ es) =
    let q = es ++ demote old ∷ [] in promote_first (remaining idle q ++ skipped idle q)

abbrev pub Has : ℕ → List Entry → Type 0
Has p [] = ⊥
Has p (e ∷ q) = (e.task ≡ p) ⊎ Has p q

-- The scheduler's state stands for a queue.
pub record Represents (s : Sched) (q : List Entry) : Type 0 where
  pub current : first q 0 ≡ s.current_task
  pub ring : Chain s.tasks q (first q 0)
  pub distinct : Distinct q
  pub idle : Has s.idle_task q

pub record Found (idle : ℕ) (q : List Entry) : Type 0 where
  pub before : List Entry
  pub next : Entry
  pub behind : List Entry
  pub whole : q ≡ before ++ next ∷ behind
  pub passed : skipped idle q ≡ before
  pub left : remaining idle q ≡ next ∷ behind
  pub able : is_skipped idle next ≡ false

Has-tail :
    (idle : ℕ) (e : Entry) (q : List Entry)
    → Has idle (e ∷ q)
    → is_skipped idle e ≡ true
    → Has idle q
Has-tail idle e q (inl same) pass = absurd (ground (arith, same, pass))
Has-tail idle e q (inr there) pass = there

pub find_next : (idle : ℕ) (q : List Entry) → Has idle q → Found idle q
unfolding skipped remaining
find_next idle [] h = elim h [ ]
find_next idle (e ∷ q) h = elim (Bool-cases (is_skipped idle e)) [
  | inl pass ↦
      let r = find_next idle q (Has-tail idle e q h pass) in
      record {
        before = e ∷ r.before;
        next = r.next;
        behind = r.behind;
        whole = ap (λ l. e ∷ l) r.whole;
        passed = rw (pass, r.passed) refl;
        left = rw (pass, r.left) refl;
        able = r.able;
      }
  | inr take ↦ record {
    before = [];
    next = e;
    behind = q;
    whole = refl;
    passed = rw take refl;
    left = rw take refl;
    able = take;
  }
]

-- The loop passes over exactly those tasks. It looks at each task once.
module _ (s : Sched) (start stop : ℕ) where
  pub skip_stopped-remaining :
      (n : ℕ) (e : Entry) (q : List Entry)
      → Chain s.tasks (e ∷ q) stop
      → Fresh start q
      → Has s.idle_task (e ∷ q)
      → length (e ∷ q) ≤ n
      → skip_stopped n s start e.task ≡ ok (first (remaining s.idle_task (e ∷ q)) 0)
  unfolding skip_stopped remaining
  skip_stopped-remaining zero e q h new has enough = absurd (omega (arith, enough))
  skip_stopped-remaining (suc n) e [] h new has enough =
      elim (Bool-cases (is_skipped s.idle_task e)) [
        | inl pass ↦ absurd (Has-tail s.idle_task e [] has pass)
        | inr take ↦ rw (h.0, take) refl
      ]
  skip_stopped-remaining (suc n) e (x ∷ q) h new has enough =
      elim (Bool-cases (is_skipped s.idle_task e)) [
        | inl pass ↦
            let further : (x.task == start) ≡ false = ground (arith, new.0) in
            let rest =
              skip_stopped-remaining n x q h.2 new.1 (Has-tail s.idle_task e (x ∷ q) has pass)
                (omega arith) in
            rw (h.0, pass, h.1, further) rest
        | inr take ↦ rw (h.0, take) refl
      ]

pub Chain-at :
    (ts : Tasks) (a : List Entry) (e : Entry) (b : List Entry) (stop : ℕ)
    → Chain ts (a ++ e ∷ b) stop
    → deref ts e.task ≡ ok e.body
Chain-at ts a e b stop h = (Chain-split ts a (e ∷ b) stop h).1.0

runs_next :
    (idle : ℕ) (e : Entry)
    → is_skipped idle e ≡ false
    → (if is_stopped e.body.state then idle else e.task) ≡ e.task
runs_next idle e able = ground (arith, able)

chosen :
    (s : Sched) (n start : ℕ) (e : Entry) (q : List Entry)
    → Chain s.tasks (e ∷ q) start
    → start ≡ e.task
    → Distinct (e ∷ q)
    → Has s.idle_task (e ∷ q)
    → length (e ∷ q) ≤ n
    → Found s.idle_task (e ∷ q)
    → choose n s start ≡ ok (first (remaining s.idle_task (e ∷ q)) 0)
unfolding choose
chosen s n start e q h same apart has enough r =
    let skip = skip_stopped-remaining s e.task start n e q h apart.0 has enough in
    let here =
      Chain-at s.tasks r.before r.next r.behind start
        (subst (λ l. Chain s.tasks l start) r.whole h) in
    rw (same, skip, r.left, here, runs_next s.idle_task r.next r.able) refl

-- `choose` over the whole queue, from the successor of the old task.
pub choose-remaining :
    (s : Sched) (n start : ℕ) (q : List Entry)
    → Chain s.tasks q start
    → start ≡ first q 0
    → Distinct q
    → Has s.idle_task q
    → length q ≤ n
    → choose n s start ≡ ok (first (remaining s.idle_task q) 0)
choose-remaining s n start [] h same apart has enough = absurd has
choose-remaining s n start (e ∷ q) h same apart has enough =
    chosen s n start e q h same apart has enough (find_next s.idle_task (e ∷ q) has)

is_skipped-demote : (idle : ℕ) (e : Entry) → is_skipped idle (demote e) ≡ is_skipped idle e
is_skipped-demote idle e = by_state e.body.state refl
  where
    by_state : (t : ProcState) → e.body.state ≡ t → is_skipped idle (demote e) ≡ is_skipped idle e
    by_state ready h = rw h refl
    by_state running h = rw h refl
    by_state blocked h = rw h refl
    by_state zombie h = rw h refl

pub first-remaining-demote :
    (idle : ℕ) (es : List Entry) (old : Entry)
    → first (remaining idle (es ++ demote old ∷ [])) 0 ≡ first (remaining idle (es ++ old ∷ [])) 0
unfolding remaining
first-remaining-demote idle [] old = elim (Bool-cases (is_skipped idle old)) [
  | inl pass ↦ rw (is_skipped-demote idle old, pass) refl
  | inr take ↦ rw (is_skipped-demote idle old, take) refl
]
first-remaining-demote idle (e ∷ es) old = elim (Bool-cases (is_skipped idle e)) [
  | inl pass ↦ rw pass (first-remaining-demote idle es old)
  | inr take ↦ rw take refl
]
