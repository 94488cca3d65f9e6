-- ===== src/Tasks/Siblings.antt =====
-- Lists of siblings in src/task.c: the walk to the sibling before a child.
use cool_os.Prelude.{
  ℕ, zero, suc, ◌≤◌, ◌≡◌, ◌≢◌, refl, sym, subst, ◌∙◌, true, false, List, [], ◌∷◌, ◌++◌, arith, ◌==◌,
  if◌then◌else◌, length,
}
use cool_os.Heap.{ok}
use cool_os.Heap.Outcome.{ok-injective}
use cool_os.Sched.{Task, Tasks, Sched, deref, put}
use cool_os.Sched.Ring.{deref-ok, deref-put_self, deref-put_ne}
use cool_os.Tasks.Family.{find_sibling}
use cool_os.Tasks.Adjust.{Siblings, Outside}

-- The addresses are those of different tasks.
abbrev pub Unlike : List ℕ → Type 0
Unlike [] = Unit {0}
Unlike (c ∷ l) = Outside c l × Unlike l

pub Siblings-put_outside :
    (ts : Tasks) (p : ℕ) (t : Task) (x : ℕ) (l : List ℕ)
    → Outside p l
    → Siblings ts x l
    → Siblings (put ts p t) x l
Siblings-put_outside ts p t x [] out h = h
Siblings-put_outside ts p t x (c ∷ l) out h = (
  h.0,
  (
    h.1.0,
    deref-put_ne ts p t c (λ same. out.0 (sym same)) ∙ h.1.1,
    Siblings-put_outside ts p t h.1.0.next_sibling l out.1 h.1.2,
  ),
)

pub Outside-left : (p : ℕ) (a b : List ℕ) → Outside p (a ++ b) → Outside p a
Outside-left p [] b h = tt
Outside-left p (c ∷ a) b h = (h.0, Outside-left p a b h.1)

-- The sibling before, and what setting its link past the child leaves.
pub record Preceding (n : ℕ) (s : Sched) (c : ℕ) (tc : Task) (x : ℕ) (a l : List ℕ) : Type 0 where
  pub prev : ℕ
  pub body : Task
  pub found : find_sibling n s c x ≡ ok prev
  pub real : (prev == 0) ≡ false
  pub there : deref s.tasks prev ≡ ok body
  pub among : (q : ℕ) → Outside q a → prev ≢ q
  pub left : Siblings (put s.tasks prev (record body { next_sibling = tc.next_sibling })) x l

module _ (c : ℕ) (tc : Task) (b : List ℕ) where
  walk_on :
      (n : ℕ) (s : Sched) (z next y p : ℕ)
      → next ≡ z
      → (z == c) ≡ false
      → find_sibling n s c next ≡ ok p
      → (if next == c then ok y else find_sibling n s c next) ≡ ok p
  walk_on n s z next y p same further found =
      let other : (next == c) ≡ false = rw same further in rw other found

  pub find_sibling-before :
      (n : ℕ) (s : Sched) (x : ℕ) (y : ℕ) (a : List ℕ)
      → Siblings s.tasks x (y ∷ a ++ c ∷ b)
      → Outside c a
      → deref s.tasks c ≡ ok tc
      → Unlike (y ∷ a ++ b)
      → length (y ∷ a) ≤ n
      → Preceding n s c tc x (y ∷ a) (y ∷ a ++ b)
  unfolding find_sibling
  find_sibling-before zero s x y a h out there apart enough = absurd (omega (arith, enough))
  find_sibling-before (suc n) s x y [] h out there apart enough =
      let ty = h.1.0 in
      let linked : (c == c) ≡ true = ground arith in
      let same = ok-injective h.1.2.1.0 tc (sym h.1.2.1.1 ∙ there) in
      let ty' = record ty { next_sibling = tc.next_sibling } in
      record {
        prev = y;
        body = ty;
        found = rw (h.0, (deref-ok s.tasks y ty h.1.1).0, h.1.1, h.1.2.0, linked) refl;
        real = (deref-ok s.tasks y ty h.1.1).0;
        there = h.1.1;
        among = λ q o. o.0;
        left = (
          h.0,
          (
            ty',
            deref-put_self s.tasks y ty' ty h.1.1,
            Siblings-put_outside s.tasks y ty' tc.next_sibling b apart.0
                (subst (λ t. Siblings s.tasks t.next_sibling b) same h.1.2.1.2),
          ),
        );
      }
  find_sibling-before (suc n) s x y (z ∷ a) h out there apart enough =
      let ty = h.1.0 in
      let further : (z == c) ≡ false = ground (arith, out.0) in
      let r =
        find_sibling-before n s ty.next_sibling z a h.1.2 out.1 there apart.1
          (omega (arith, enough)) in
      record {
        prev = r.prev;
        body = r.body;
        found =
            rw (h.0, (deref-ok s.tasks y ty h.1.1).0, h.1.1)
              (walk_on n s z ty.next_sibling y r.prev h.1.2.0 further r.found);
        real = r.real;
        there = r.there;
        among = λ q o. r.among q o.1;
        left = (
          h.0,
          (
            ty,
            deref-put_ne s.tasks r.prev (record r.body { next_sibling = tc.next_sibling }) y
                  (r.among y (Outside-left y (z ∷ a) b apart.0))
                ∙ h.1.1,
            r.left,
          ),
        );
      }

Outside-join : (p : ℕ) (a b : List ℕ) → Outside p a → Outside p b → Outside p (a ++ b)
Outside-join p [] b h k = k
Outside-join p (c ∷ a) b h k = (h.0, Outside-join p a b h.1 k)

pub Outside-right : (p : ℕ) (a b : List ℕ) → Outside p (a ++ b) → Outside p b
Outside-right p [] b h = h
Outside-right p (c ∷ a) b h = Outside-right p a b h.1

pub Unlike-middle :
    (a : List ℕ) (c : ℕ) (b : List ℕ) → Unlike (a ++ c ∷ b) → Outside c (a ++ b) × Unlike (a ++ b)
Unlike-middle [] c b h = h
Unlike-middle (y ∷ a) c b h =
    let rest = Unlike-middle a c b h.1 in
    let behind = Outside-right y a (c ∷ b) h.0 in
    let new = Outside-join y a b (Outside-left y a (c ∷ b) h.0) behind.1 in
    (((λ same. behind.0 (sym same)), rest.0), (new, rest.1))
